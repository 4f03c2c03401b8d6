-- ===== src/Wire/Reading.antt =====
-- What the methods of coilmq/util/frames.py that read a frame leave of the stream.
use coilmq.Prelude.{
  ℕ, zero, suc, ◌≡◌, refl, ap, ◌∙◌, Option, none, some, List, [], ◌∷◌, ok, err, Result, length, ltb,
  is_empty, continue, pure, raise_if, ◌>>=◌, ◌>>◌,
}
use coilmq.Dict.{Dict, get}
use coilmq.Wire.Bytes.{Bytes, Text, is_space, strip, decode, partition, int_of, text_equality}
use coilmq.Wire.Stream.{Stream, remaining, advance, first_line, readline, read, read_all}
use coilmq.Wire.Parse.{
  WireError, Method, or_raise, value_error, empty_buffer, unicode_error, body_not_terminated,
  incomplete_frame, with_line, preamble, header_pairs, ordered_dict, command_and_headers,
  parse_headers, content_length, as_length, body_length, with_terminator, with_count, counted_body,
  terminated_body, with_parts, body_of, parse_body, with_preamble, from_buffer,
}

-- A method that reads and writes nothing.
abbrev Reads : {A : Type 0} → Method A → Type 0
Reads m = (b : Stream) → (m b).1.contents ≡ b.contents

continue-Reads :
    {A B : Type 0} (f : A → Method B) (o : Result WireError A × Stream)
    → ((a : A) → Reads (f a))
    → (continue f o).1.contents ≡ o.1.contents
continue-Reads f (ok a, s) each = each a s
continue-Reads f (err x, s) each = refl

bind-Reads :
    {A B : Type 0} (m : Method A) (f : A → Method B)
    → Reads m
    → ((a : A) → Reads (f a))
    → Reads (m >>= f)
bind-Reads m f first each b = continue-Reads f (m b) each ∙ first b

or_raise-Reads : {A : Type 0} (x : WireError) (o : Option A) → Reads (or_raise x o)
or_raise-Reads x none b = refl
or_raise-Reads x (some a) b = refl

with_line-Reads :
    (others : Method (List Text)) (line : Bytes) → Reads others → Reads (with_line others line)
with_line-Reads others [] each b = refl
with_line-Reads others (c ∷ line) each b =
    bind-Reads (or_raise unicode_error (decode (c ∷ line)))
      (λ text. others >>= (λ texts. pure (text ∷ texts)))
      (or_raise-Reads unicode_error (decode (c ∷ line)))
      (λ text. bind-Reads others (λ texts. pure (text ∷ texts)) each (λ texts b. refl)) b

preamble-Reads : (fuel : ℕ) → Reads (preamble fuel)
unfolding preamble readline
preamble-Reads zero b = refl
preamble-Reads (suc fuel) b =
    bind-Reads readline (λ raw. with_line (preamble fuel) (strip is_space raw)) (λ b. refl)
      (λ raw. with_line-Reads (preamble fuel) (strip is_space raw) (preamble-Reads fuel)) b

command_and_headers-Reads : (lines : List Text) → Reads (command_and_headers lines)
command_and_headers-Reads [] b = refl
command_and_headers-Reads (cmd ∷ lines) b =
    bind-Reads (or_raise value_error (header_pairs lines))
      (λ pairs. pure (cmd, ordered_dict [] pairs)) (or_raise-Reads value_error (header_pairs lines))
      (λ pairs b. refl) b

parse_headers-Reads : Reads parse_headers
unfolding parse_headers
parse_headers-Reads b =
    let fuel : ℕ = suc (length (remaining b)) in
    bind-Reads (preamble fuel) command_and_headers (preamble-Reads fuel) command_and_headers-Reads b

body_length-Reads : (o : Option Text) → Reads (body_length o)
unfolding body_length
body_length-Reads none b = refl
body_length-Reads (some text) b =
    bind-Reads (or_raise value_error (int_of text)) (λ n. pure (as_length n))
      (or_raise-Reads value_error (int_of text)) (λ n b. refl) b

with_terminator-Reads : (body raw : Bytes) → Reads (with_terminator body raw)
with_terminator-Reads body raw =
    bind-Reads (or_raise unicode_error (decode raw))
      (λ terminator. raise_if (is_empty terminator) body_not_terminated >> pure body)
      (or_raise-Reads unicode_error (decode raw))
      (λ terminator.
        bind-Reads (raise_if (is_empty terminator) body_not_terminated) (λ u. pure body) (λ b. refl)
          (λ u b. refl))

with_count-Reads : (n : ℕ) (body : Bytes) → Reads (with_count n body)
unfolding read
with_count-Reads n body =
    bind-Reads (raise_if (ltb (length body) n) incomplete_frame)
      (λ u. read 1 >>= with_terminator body) (λ b. refl)
      (λ u. bind-Reads (read 1) (with_terminator body) (λ b. refl) (with_terminator-Reads body))

body_of-Reads : (n : Option ℕ) → Reads (body_of n)
unfolding counted_body terminated_body read read_all
body_of-Reads (some n) = bind-Reads (read n) (with_count n) (λ b. refl) (with_count-Reads n)
body_of-Reads none =
    bind-Reads read_all (λ all. or_raise body_not_terminated (partition all) >>= with_parts)
      (λ b. refl)
      (λ all.
        bind-Reads (or_raise body_not_terminated (partition all)) with_parts
          (or_raise-Reads body_not_terminated (partition all)) (λ parts b. refl))

with_preamble-Reads : (p : Text × Dict Text Text) → Reads (with_preamble p)
unfolding parse_body
with_preamble-Reads (cmd, headers) =
    bind-Reads (parse_body headers)
      (λ body. pure (record { cmd = cmd; headers = headers; body = body }))
      (bind-Reads (body_length (get headers content_length)) body_of
        (body_length-Reads (get headers content_length)) body_of-Reads)
      (λ body b. refl)

-- Whatever comes of it, reading a frame changes only the position.
pub from_buffer-Reads : (b : Stream) → (from_buffer b).1.contents ≡ b.contents
unfolding from_buffer
from_buffer-Reads = bind-Reads parse_headers with_preamble parse_headers-Reads with_preamble-Reads

-- A line of white space, or the end, ends the preamble before it has begun.
pub from_buffer-blank :
    (b : Stream)
    → strip is_space (first_line (remaining b)) ≡ []
    → (s : Stream) × (from_buffer b ≡ (err empty_buffer, s)) × (s.contents ≡ b.contents)
unfolding from_buffer parse_headers preamble readline
from_buffer-blank b e =
    let after : Stream = advance (length (first_line (remaining b))) b in
    (
      after,
      ap
          (λ t.
            continue with_preamble
              (continue command_and_headers (with_line (preamble (length (remaining b))) t after)))
          e,
      refl,
    )
