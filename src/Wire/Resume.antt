-- ===== src/Wire/Resume.antt =====
-- A buffer in which no whole frame was found: append after extract_frame (coilmq/util/frames.py).
use coilmq.Prelude.{
  bind-continue, ℕ, zero, suc, ◌+◌, ◌-◌, ◌≡◌, refl, sym, ap, ◌∙◌, arith, none, [], ◌∷◌, ◌++◌, ok,
  err, Result, length,
}
use coilmq.Wire.Bytes.{Bytes, is_space, strip}
use coilmq.Wire.Stream.{Stream, take, drop, zeros, remaining, first_line, seek, write}
use coilmq.Wire.Lines.{drop-length_append, drop-add}
use coilmq.Wire.Parse.{
  WireError, WireFrame, from_buffer, incomplete_frame, body_not_terminated, empty_buffer,
  value_error, unicode_error,
}
use coilmq.Wire.Buffer.{FrameBuffer, append, extracted, extract_frame, followed, frames}
use coilmq.Wire.Reading.{from_buffer-Reads, from_buffer-blank}

-- What was not read yet, from the pointer on.
abbrev pub unread : FrameBuffer → Bytes
unread b = remaining (seek b.pointer b.buffer)

length-zeros : (n : ℕ) → length (zeros n) ≡ n
length-zeros zero = refl
length-zeros (suc n) = ap suc (length-zeros n)

take-zeros : (n : ℕ) (xs : Bytes) → length (take n xs ++ zeros (n - length xs)) ≡ n
take-zeros zero xs = ap (λ k. length (zeros k)) {x = 0 - length xs} {y = 0} (omega arith)
take-zeros (suc n) [] =
    ap (λ k. length (zeros k)) {x = suc n - 0} {y = suc n} (omega arith) ∙ length-zeros (suc n)
take-zeros (suc n) (x ∷ xs) =
    ap (λ k. suc (length (take n xs ++ zeros k))) {x = suc n - suc (length xs)} {y = n - length xs}
      (omega arith)
    ∙ ap suc (take-zeros n xs)

-- What is written stands at the position, in place of as many bytes.
drop-write :
    (bytes : Bytes) (s : Stream)
    → drop s.position (write bytes s).contents ≡ bytes ++ drop (length bytes) (remaining s)
unfolding write
drop-write bytes s =
    let front : Bytes = take s.position s.contents ++ zeros (s.position - length s.contents) in
    let back : Bytes = bytes ++ drop (s.position + length bytes) s.contents in
    ap (λ n. drop n (front ++ back)) (sym (take-zeros s.position s.contents))
    ∙ (drop-length_append front back
        ∙ ap (λ t. bytes ++ t) (drop-add s.position (length bytes) s.contents))

-- The same contents and pointer, with the position at the pointer.
pub record IsRewound (b b' : FrameBuffer) : Type 0 where
  pub pointer_kept : b'.pointer ≡ b.pointer
  pub position_reset : b'.buffer.position ≡ b.pointer
  pub contents_kept : b'.buffer.contents ≡ b.buffer.contents

rewound :
    (b b' : FrameBuffer) (s : Stream)
    → s.contents ≡ b.buffer.contents
    → record b { buffer = seek b.pointer s } ≡ b'
    → IsRewound b b'
rewound b b' s same e = record {
  pointer_kept = sym (ap (λ c. c.pointer) e);
  position_reset = sym (ap (λ c. c.buffer.position) e);
  contents_kept = sym (ap (λ c. c.buffer.contents) e) ∙ same;
}

extracted-none :
    (b b' : FrameBuffer) (o : Result WireError WireFrame × Stream)
    → o.1.contents ≡ b.buffer.contents
    → extracted b o ≡ (ok none, b')
    → IsRewound b b'
extracted-none b b' (ok f, s) same e = absurd (ground arith)
extracted-none b b' (err incomplete_frame, s) same e = rewound b b' s same (ap (λ o. o.1) e)
extracted-none b b' (err empty_buffer, s) same e = rewound b b' s same (ap (λ o. o.1) e)
extracted-none b b' (err body_not_terminated, s) same e = absurd (ground arith)
extracted-none b b' (err value_error, s) same e = absurd (ground arith)
extracted-none b b' (err unicode_error, s) same e = absurd (ground arith)

remaining-IsRewound : (b b' : FrameBuffer) → IsRewound b b' → remaining b'.buffer ≡ unread b
remaining-IsRewound b b' back =
    ap (λ n. drop n b'.buffer.contents) back.position_reset ∙ ap (drop b.pointer) back.contents_kept

pub unread-IsRewound : (b b' : FrameBuffer) → IsRewound b b' → unread b' ≡ unread b
unread-IsRewound b b' back =
    ap (λ n. drop n b'.buffer.contents) back.pointer_kept ∙ ap (drop b.pointer) back.contents_kept

-- In a buffer whose position is at its pointer, the bytes that are appended overwrite as many of the
-- unread ones.
pub unread-append :
    (b : FrameBuffer) (bytes : Bytes)
    → b.buffer.position ≡ b.pointer
    → unread (append bytes b) ≡ bytes ++ drop (length bytes) (remaining b.buffer)
unfolding append
unread-append b bytes e =
    ap (λ n. drop n (write bytes b.buffer).contents) (sym e) ∙ drop-write bytes b.buffer

-- Whenever extract_frame finds no frame, the bytes that are appended next overwrite as many of those
-- that were unread.
pub append-extract_frame :
    (b b' : FrameBuffer) (bytes : Bytes)
    → extract_frame b ≡ (ok none, b')
    → unread (append bytes b') ≡ bytes ++ drop (length bytes) (unread b)
unfolding extract_frame
append-extract_frame b b' bytes e =
    let s : Stream = seek b.pointer b.buffer in
    let back : IsRewound b b' = extracted-none b b' (from_buffer s) (from_buffer-Reads s) e in
    unread-append b' bytes (back.position_reset ∙ sym back.pointer_kept)
    ∙ ap (λ t. bytes ++ drop (length bytes) t) (remaining-IsRewound b b' back)

-- While the unread bytes begin with a line of white space, extract_frame finds no frame and leaves
-- the contents and the pointer as they are.
pub extract_frame-blank :
    (b : FrameBuffer)
    → strip is_space (first_line (unread b)) ≡ []
    → (b' : FrameBuffer) × (extract_frame b ≡ (ok none, b')) × IsRewound b b'
unfolding extract_frame
extract_frame-blank b e =
    let (s, done, same) = from_buffer-blank (seek b.pointer b.buffer) e in
    let b' : FrameBuffer = record b { buffer = seek b.pointer s } in
    (b', ap (extracted b) done, rewound b b' s same refl)

-- While the unread bytes begin with a line of white space, the iteration finds no frame, whatever
-- stands behind it, and the bytes that are appended next overwrite as many of the unread ones.
pub frames-blank :
    (fuel : ℕ) (b : FrameBuffer) (bytes : Bytes)
    → strip is_space (first_line (unread b)) ≡ []
    → (b' : FrameBuffer) × (frames (suc fuel) b ≡ (ok [], b'))
      × (unread (append bytes b') ≡ bytes ++ drop (length bytes) (unread b))
unfolding frames
frames-blank fuel b bytes e =
    let (b', done, back) = extract_frame-blank b e in
    (
      b',
      bind-continue extract_frame (followed (frames fuel)) b (ok none, b') done,
      append-extract_frame b b' bytes done,
    )
