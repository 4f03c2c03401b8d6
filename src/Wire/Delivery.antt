-- ===== src/Wire/Delivery.antt =====
-- A buffer that is filled with whole frames and emptied in turn: append and the iteration of
-- FrameBuffer (coilmq/util/frames.py).
use mathlib.Core.List.{append-nil}
use coilmq.Prelude.{
  ℕ, zero, suc, ◌<◌, ◌≡◌, sym, ap, ◌∙◌, arith, none, some, List, [], ◌∷◌, ◌++◌, ok, length,
  bind-continue, continue, pure,
}
use coilmq.Wire.Bytes.{Bytes, is_space, strip, strip_left}
use coilmq.Wire.Stream.{drop, first_line, seek}
use coilmq.Wire.Lines.{drop-nil}
use coilmq.Wire.Parse.{WireFrame}
use coilmq.Wire.Buffer.{FrameBuffer, append, extracted, extract_frame, followed, frames}
use coilmq.Wire.RoundTrip.{IsPrintable, packed, from_buffer-packed}
use coilmq.Wire.Resume.{unread, IsRewound, unread-IsRewound, unread-append, extract_frame-blank}

abbrev pub ArePrintable : List WireFrame → Type 0
ArePrintable [] = Unit {0}
ArePrintable (f ∷ fs) = IsPrintable f × ArePrintable fs

abbrev pub all_packed : List WireFrame → Bytes
all_packed [] = []
all_packed (f ∷ fs) = packed f ++ all_packed fs

pub extract_frame-packed :
    (f : WireFrame) (b : FrameBuffer) (rest : Bytes)
    → IsPrintable f
    → unread b ≡ packed f ++ rest
    → (b' : FrameBuffer) × (extract_frame b ≡ (ok (some f), b')) × (unread b' ≡ rest)
unfolding extract_frame
extract_frame-packed f b rest good e =
    let (s, done, left, same) = from_buffer-packed f (seek b.pointer b.buffer) rest good e in
    (record { buffer = s; pointer = s.position }, ap (extracted b) done, left)

extract_frame-empty :
    (b : FrameBuffer)
    → unread b ≡ []
    → (b' : FrameBuffer) × (extract_frame b ≡ (ok none, b')) × IsRewound b b'
unfolding first_line strip strip_left
extract_frame-empty b e = extract_frame-blank b (ap (λ t. strip is_space (first_line t)) e)

-- What a buffer is like when all was read.
pub record IsDrained (b : FrameBuffer) : Type 0 where
  pub all_read : unread b ≡ []
  pub at_pointer : b.buffer.position ≡ b.pointer

pub extract_frame-IsDrained :
    (b : FrameBuffer)
    → unread b ≡ []
    → (b' : FrameBuffer) × (extract_frame b ≡ (ok none, b')) × IsDrained b'
extract_frame-IsDrained b e =
    let (b', done, back) = extract_frame-empty b e in
    (
      b',
      done,
      record {
        all_read = unread-IsRewound b b' back ∙ e;
        at_pointer = back.position_reset ∙ sym back.pointer_kept;
      },
    )

pub unread-append_all :
    (b : FrameBuffer) (bytes : Bytes) → IsDrained b → unread (append bytes b) ≡ bytes
unread-append_all b bytes drained =
    unread-append b bytes drained.at_pointer
    ∙ (ap (λ t. bytes ++ drop (length bytes) t)
          (ap (λ n. drop n b.buffer.contents) drained.at_pointer ∙ drained.all_read)
        ∙ (ap (λ t. bytes ++ t) (drop-nil (length bytes)) ∙ append-nil bytes))

frames-packed :
    (fs : List WireFrame) (b : FrameBuffer) (fuel : ℕ)
    → ArePrintable fs
    → length fs < fuel
    → unread b ≡ all_packed fs
    → (b' : FrameBuffer) × (frames fuel b ≡ (ok fs, b')) × IsDrained b'
unfolding frames
frames-packed fs b zero good h e = elim h [ ]
frames-packed [] b (suc fuel) good h e =
    let (b', done, drained) = extract_frame-IsDrained b e in
    (b', bind-continue extract_frame (followed (frames fuel)) b (ok none, b') done, drained)
frames-packed (f ∷ fs) b (suc fuel) (good, goods) h e =
    let (b1, first, left) = extract_frame-packed f b (all_packed fs) good e in
    let (b2, others, drained) = frames-packed fs b1 fuel goods (omega (arith, h)) left in
    (
      b2,
      bind-continue extract_frame (followed (frames fuel)) b (ok (some f), b1) first
          ∙ ap (continue (λ rest. pure (f ∷ rest))) others,
      drained,
    )

-- Frames with a command and headers that are lines of ASCII text, without white space at their ends
-- and with one colon in each header, with distinct keys and the right content-length, are appended to
-- a buffer in which all was read. Then the iteration yields them in their order, and all is read
-- again; `fuel` rounds are enough if there are more of them than frames.
pub frames-append :
    (fs : List WireFrame) (b : FrameBuffer) (fuel : ℕ)
    → ArePrintable fs
    → length fs < fuel
    → IsDrained b
    → (b' : FrameBuffer) × (frames fuel (append (all_packed fs) b) ≡ (ok fs, b')) × IsDrained b'
frames-append fs b fuel good h drained =
    frames-packed fs (append (all_packed fs) b) fuel good h
      (unread-append_all b (all_packed fs) drained)
