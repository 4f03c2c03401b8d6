-- ===== src/Wire/RoundTrip.antt =====
-- Frames that are packed and parsed again, one or many in one buffer (coilmq/util/frames.py).
use mathlib.Core.List.{append_assoc}
use coilmq.Prelude.{
  ℕ, zero, suc, ◌≡◌, refl, ap, ◌∙◌, arith, false, some, [], ◌∷◌, ◌++◌, ok, length, ltb,
  bind-continue, continue, pure, ◌>>=◌,
}
use coilmq.Dict.{get}
use coilmq.Dict.Laws.{IsDict}
use coilmq.Wire.Bytes.{Bytes, text_equality, decode_from, decimal}
use coilmq.Wire.Stream.{Stream, remaining, advance, read, take}
use coilmq.Wire.Lines.{IsLine, take-length_append, remaining-advance}
use coilmq.Wire.Number.{int_of-decimal}
use coilmq.Wire.Head.{AreHeaders, parse_headers-head}
use coilmq.Wire.Parse.{
  WireError, WireFrame, or_raise, value_error, with_count, with_terminator, content_length,
  as_length, body_length, counted_body, body_of, parse_headers, parse_body, with_preamble,
  from_buffer,
}
use coilmq.Wire.Pack.{head_text}

-- A frame that is read as it is written: its command and its headers are lines, its keys are distinct,
-- and its length is that of its body.
pub record IsPrintable (f : WireFrame) : Type 0 where
  pub command : IsLine f.cmd
  pub plain : AreHeaders f.headers
  pub unique : IsDict f.headers
  pub counted : get f.headers content_length ≡ some (decimal (length f.body))

-- The bytes of such a frame.
abbrev pub packed : WireFrame → Bytes
packed f = head_text f ++ (f.body ++ (0 ∷ []))

read-append :
    (xs ys : Bytes) (b : Stream)
    → remaining b ≡ xs ++ ys
    → read {X = WireError} (length xs) b ≡ (ok xs, advance (length xs) b)
unfolding read
read-append xs ys b e =
    ap (λ got. (ok got, advance (length got) b))
      (ap (take (length xs)) e ∙ take-length_append xs ys)

with_count-packed :
    (body rest : Bytes) (b : Stream)
    → remaining b ≡ 0 ∷ rest
    → with_count (length body) body b ≡ (ok body, advance 1 b)
unfolding decode_from
with_count-packed body rest b e =
    let enough : ltb (length body) (length body) ≡ false = ground arith in
    rw enough (
      bind-continue (read 1) (with_terminator body) b (ok (0 ∷ []), advance 1 b)
        (read-append (0 ∷ []) rest b e))

counted_body-packed :
    (body rest : Bytes) (b : Stream)
    → remaining b ≡ body ++ (0 ∷ rest)
    → counted_body (length body) b ≡ (ok body, advance 1 (advance (length body) b))
unfolding counted_body
counted_body-packed body rest b e =
    bind-continue (read (length body)) (with_count (length body)) b
      (ok body, advance (length body) b) (read-append body (0 ∷ rest) b e)
    ∙ with_count-packed body rest (advance (length body) b) (remaining-advance b body (0 ∷ rest) e)

as_length-false : (n : ℕ) → as_length (false, n) ≡ some n
as_length-false zero = refl
as_length-false (suc n) = refl

body_length-decimal : (n : ℕ) (b : Stream) → body_length (some (decimal n)) b ≡ (ok (some n), b)
unfolding body_length
body_length-decimal n b =
    ap (λ o. (or_raise value_error o >>= (λ m. pure (as_length m))) b) (int_of-decimal n)
    ∙ ap (λ o. (ok o, b)) (as_length-false n)

parse_body-packed :
    (f : WireFrame) (rest : Bytes) (b : Stream)
    → IsPrintable f
    → remaining b ≡ f.body ++ (0 ∷ rest)
    → parse_body f.headers b ≡ (ok f.body, advance 1 (advance (length f.body) b))
unfolding parse_body
parse_body-packed f rest b good e =
    bind-continue (body_length (get f.headers content_length)) body_of b
      (ok (some (length f.body)), b)
      (ap (λ o. body_length o b) good.counted ∙ body_length-decimal (length f.body) b)
    ∙ counted_body-packed f.body rest b e

-- A frame is read as it was written, and exactly its bytes are taken from the stream.
pub from_buffer-packed :
    (f : WireFrame) (b : Stream) (rest : Bytes)
    → IsPrintable f
    → remaining b ≡ packed f ++ rest
    → (b' : Stream) × (from_buffer b ≡ (ok f, b'))
      × (remaining b' ≡ rest)
      × (b'.contents ≡ b.contents)
unfolding from_buffer
from_buffer-packed f b rest good e =
    let (b1, head, left, same) =
      parse_headers-head f.cmd f.headers b (f.body ++ (0 ∷ rest)) good.command good.plain
        good.unique (e ∙ simp (append_assoc)) in
    let last : Stream = advance (length f.body) b1 in
    (
      advance 1 last,
      bind-continue parse_headers with_preamble b (ok (f.cmd, f.headers), b1) head
          ∙ ap (continue (λ body. pure (record f { body = body })))
              (parse_body-packed f rest b1 good left),
      remaining-advance last (0 ∷ []) rest (remaining-advance b1 f.body (0 ∷ rest) left),
      same,
    )
