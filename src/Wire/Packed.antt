-- ===== src/Wire/Packed.antt =====
-- Frames that are packed, sent and read again, one or many (coilmq/util/frames.py).
use mathlib.Core.List.{append_assoc}
use coilmq.Prelude.{◌≡◌, refl, sym, ap, arith, [], ◌∷◌, ◌++◌, ok, length}
use coilmq.Dict.{Dict, get, or_else}
use coilmq.Dict.Laws.{IsDict, get-put, put-IsDict}
use coilmq.Wire.Bytes.{Bytes, Text, text_equality, same_text, decimal}
use coilmq.Wire.Stream.{Stream, remaining}
use coilmq.Wire.Lines.{IsAscii, IsLine, latin_1-ascii}
use coilmq.Wire.Length.{IsAscii-append, decimal-IsHeader, put-AreHeaders}
use coilmq.Wire.Head.{AreHeaders}
use coilmq.Wire.Parse.{WireFrame, content_length, from_buffer}
use coilmq.Wire.Pack.{header_lines, head_text, with_length, finished, pack}
use coilmq.Wire.RoundTrip.{IsPrintable, packed, from_buffer-packed}

-- A frame whose command and headers are lines of ASCII text, with one colon in each header, whose
-- keys are distinct, and whose length, where it has the header, is that of its body.
pub record IsPlain (f : WireFrame) : Type 0 where
  pub command : IsLine f.cmd
  pub plain : AreHeaders f.headers
  pub unique : IsDict f.headers
  pub counted :
      or_else (get f.headers content_length) (decimal (length f.body)) ≡ decimal (length f.body)

-- Such a frame is read as it is written, once it has its length.
pub with_length-IsPrintable : (f : WireFrame) → IsPlain f → IsPrintable (with_length f)
unfolding same_text
with_length-IsPrintable f good = record {
  command = good.command;
  plain = rw good.counted (
      put-AreHeaders f.headers content_length (decimal (length f.body)) good.plain
        (decimal-IsHeader (length f.body)));
  unique = put-IsDict f.headers content_length _ good.unique;
  counted = rw (get-put, good.counted) refl;
}

header_lines-IsAscii :
    (headers : Dict Text Text) → AreHeaders headers → IsAscii (header_lines headers)
unfolding header_lines
header_lines-IsAscii [] u = tt
header_lines-IsAscii ((key, value) ∷ headers) (u, us) =
    rw (sym (append_assoc key (58 ∷ value) (10 ∷ header_lines headers))) (
      IsAscii-append (key ++ (58 ∷ value)) (10 ∷ header_lines headers) u.line.ascii
        (omega arith, header_lines-IsAscii headers us))

head_text-IsAscii : (f : WireFrame) → IsPrintable f → IsAscii (head_text f)
head_text-IsAscii f good =
    IsAscii-append f.cmd (10 ∷ header_lines f.headers ++ (10 ∷ [])) good.command.ascii (
      omega arith,
      IsAscii-append (header_lines f.headers) (10 ∷ []) (header_lines-IsAscii f.headers good.plain)
          (omega arith, tt),
    )

-- What is packed is `packed`.
pack-packed : (f : WireFrame) → IsPlain f → pack f ≡ (ok (packed (with_length f)), with_length f)
unfolding pack
pack-packed f good =
    ap (λ head. (finished f.body head, with_length f))
      (latin_1-ascii (head_text (with_length f))
        (head_text-IsAscii (with_length f) (with_length-IsPrintable f good)))

-- A frame has a command and headers that are lines of ASCII text, without white space at their ends
-- and with one colon in each header, distinct keys, and a content-length, if it has one, that is the
-- length of its body. Then `pack` returns bytes and gives the frame its content-length, and from
-- every buffer whose unread bytes begin with these, from_buffer reads this frame and leaves the rest.
pub from_buffer-pack :
    (f : WireFrame)
    → IsPlain f
    → (bytes : Bytes) × (pack f ≡ (ok bytes, with_length f))
      × ((b : Stream) (rest : Bytes)
          → remaining b ≡ bytes ++ rest
          → (b' : Stream) × (from_buffer b ≡ (ok (with_length f), b'))
            × (remaining b' ≡ rest)
            × (b'.contents ≡ b.contents))
from_buffer-pack f good = (
  packed (with_length f),
  pack-packed f good,
  λ b rest e. from_buffer-packed (with_length f) b rest (with_length-IsPrintable f good) e,
)
