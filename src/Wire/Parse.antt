-- ===== src/Wire/Parse.antt =====
-- parse_headers, parse_body and Frame.from_buffer of coilmq/util/frames.py.
use coilmq.Prelude.{
  ℕ, zero, suc, Bool, Option, none, some, List, [], ◌∷◌, Exec, pure, raise, gets, modify, raise_if,
  ◌>>=◌, ◌>>◌, length, ltb, is_empty, if◌then◌else◌,
}
use coilmq.Dict.{Dict, get, put}
use coilmq.Wire.Bytes.{
  Bytes, Text, strip, is_space, split, partition, decode, int_of, text_equality,
}
use coilmq.Wire.Stream.{Stream, remaining, readline, read, read_all, seek_end}

-- The exceptions. `value_error` is that of `int` and of `OrderedDict`, and `unicode_error` that of
-- `decode` and of `encode`.
pub data WireError : Type 0 where
  incomplete_frame body_not_terminated empty_buffer value_error unicode_error : WireError

-- A frame as it is parsed and packed: its text as code points, and its body as bytes.
pub record WireFrame : Type 0 where
  pub cmd : Text
  pub headers : Dict Text Text
  pub body : Bytes

abbrev pub Method : Type 0 → Type 0
Method A = Exec WireError Stream A

abbrev pub or_raise : {A : Type 0} → WireError → Option A → Method A
or_raise x none = raise x
or_raise x (some a) = pure a

-- `buff.readline().strip()` until it is empty; each line is decoded when it is read.
abbrev pub with_line : Method (List Text) → Bytes → Method (List Text)
with_line others line =
    if is_empty line
    then pure []
    else (do text ← or_raise unicode_error (decode line); texts ← others; pure (text ∷ texts))

-- Every line but the last takes a byte from the stream, which bounds the fuel.
unfoldable pub preamble : ℕ → Method (List Text)
preamble zero = pure []
preamble (suc fuel) = do raw ← readline; with_line (preamble fuel) (strip is_space raw)

-- OrderedDict([l.split(':') for l in lines]): every item must be a pair, a later one for the same key
-- replaces the value.
abbrev pub pair_of : List Text → Option (Text × Text)
pair_of (key ∷ value ∷ []) = some (key, value)
pair_of _ = none

abbrev pub add_pair :
    Option (Text × Text) → Option (List (Text × Text)) → Option (List (Text × Text))
add_pair (some pair) (some pairs) = some (pair ∷ pairs)
add_pair _ _ = none

unfoldable pub header_pairs : List Text → Option (List (Text × Text))
header_pairs [] = some []
header_pairs (line ∷ lines) = add_pair (pair_of (split 58 line)) (header_pairs lines)

unfoldable pub ordered_dict : Dict Text Text → List (Text × Text) → Dict Text Text
ordered_dict d [] = d
ordered_dict d ((key, value) ∷ pairs) = ordered_dict (put d key value) pairs

abbrev pub command_and_headers : List Text → Method (Text × Dict Text Text)
command_and_headers [] = raise empty_buffer
command_and_headers (cmd ∷ lines) = do
  pairs ← or_raise value_error (header_pairs lines)
  pure (cmd, ordered_dict [] pairs)

unfoldable pub parse_headers : Method (Text × Dict Text Text)
parse_headers = do
  fuel ← gets (λ b. suc (length (remaining b)))
  lines ← preamble fuel
  command_and_headers lines

-- 'content-length'
abbrev pub content_length : Text
content_length =
    99 ∷ 111 ∷ 110 ∷ 116 ∷ 101 ∷ 110 ∷ 116 ∷ 45 ∷ 108 ∷ 101 ∷ 110 ∷ 103 ∷ 116 ∷ 104 ∷ []

-- int(headers.get('content-length', -1)): none for a negative number
abbrev pub as_length : Bool × ℕ → Option ℕ
as_length (minus, zero) = some zero
as_length (minus, suc n) = if minus then none else some (suc n)

unfoldable pub body_length : Option Text → Method (Option ℕ)
body_length none = pure none
body_length (some text) = do n ← or_raise value_error (int_of text); pure (as_length n)

-- What follows the reads of parse_body: of one byte, and of the body.
abbrev pub with_terminator : Bytes → Bytes → Method Bytes
with_terminator body raw = do
  terminator ← or_raise unicode_error (decode raw)
  raise_if (is_empty terminator) body_not_terminated
  pure body

abbrev pub with_count : ℕ → Bytes → Method Bytes
with_count n body = do
  raise_if (ltb (length body) n) incomplete_frame
  raw ← read 1
  with_terminator body raw

-- The two branches of parse_body.
unfoldable pub counted_body : ℕ → Method Bytes
counted_body n = do body ← read n; with_count n body

abbrev pub with_parts : Bytes × Bytes → Method Bytes
with_parts (body, rest) = do modify (seek_end (length rest)); pure body

unfoldable pub terminated_body : Method Bytes
terminated_body = do
  all ← read_all
  parts ← or_raise body_not_terminated (partition all)
  with_parts parts

abbrev pub body_of : Option ℕ → Method Bytes
body_of (some n) = counted_body n
body_of none = terminated_body

unfoldable pub parse_body : Dict Text Text → Method Bytes
parse_body headers = do n ← body_length (get headers content_length); body_of n

abbrev pub with_preamble : Text × Dict Text Text → Method WireFrame
with_preamble (cmd, headers) = do
  body ← parse_body headers
  pure (record { cmd = cmd; headers = headers; body = body })

unfoldable pub from_buffer : Method WireFrame
from_buffer = do preamble ← parse_headers; with_preamble preamble
