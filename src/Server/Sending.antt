-- ===== src/Server/Sending.antt =====
-- StompRequestHandler.send_frame of coilmq/server/socket_server.py: the bytes of a frame go to the
-- socket, whose `sendall` is a parameter.
use mathlib.Core.Path.{subst}
use mathlib.Core.List.{append_assoc}
use coilmq.Prelude.{
  ℕ, ◌≤◌, ◌≡◌, ap, sym, ◌∙◌, false, none, some, [], ◌∷◌, ◌++◌, map, Exec, Result, ok, err, arith,
  String, Bool-cases, inl, inr,
}
use coilmq.Dict.{Dict, get}
use coilmq.Dict.Laws.{get-put}
use coilmq.Text.{codes}
use coilmq.Frame.{Frame}
use coilmq.Wire.Bytes.{Bytes, Text, latin_1, same_text, text_equality}
use coilmq.Wire.Parse.{WireFrame, WireError, unicode_error, content_length}
use coilmq.Wire.Pack.{pack, finished, head_text, header_lines, with_length}
use coilmq.Server.Bytes.{Failure, frame_error}

abbrev pub codes_of : String × String → Text × Text
codes_of (key, value) = (codes key, codes value)

-- The frame with its texts as code points.
abbrev pub wire_of : Frame → WireFrame
wire_of f = record { cmd = codes f.cmd; headers = map codes_of f.headers; body = f.body }

module _ {S : Type 0} (sendall : Bytes → Exec Failure S (Unit {0})) where
  abbrev pub send_packed : Result WireError Bytes → Exec Failure S (Unit {0})
  send_packed (ok packed) s = sendall packed s
  send_packed (err e) s = (err (frame_error e), s)

  unfoldable pub send_frame : Frame → Exec Failure S (Unit {0})
  send_frame frame = send_packed (pack (wire_of frame)).0

latin_1-wide :
    (before : Text) (c : ℕ) (after : Text) → 256 ≤ c → latin_1 (before ++ (c ∷ after)) ≡ none
unfolding latin_1
latin_1-wide [] c after wide = ground arith
latin_1-wide (b ∷ before) c after wide = ground (arith, latin_1-wide before c after wide)

-- A text with a character beyond Latin-1
abbrev pub HasWide : Text → Type 0
HasWide text =
    (before : Text) × (c : ℕ) × (after : Text) × (256 ≤ c) × (text ≡ before ++ (c ∷ after))

HasWide-after : (front text : Text) → HasWide text → HasWide (front ++ text)
HasWide-after front text (before, c, after, wide, e) = (
  front ++ before,
  c,
  after,
  wide,
  ap (λ t. front ++ t) e ∙ sym (append_assoc front before (c ∷ after)),
)

HasWide-before : (text back : Text) → HasWide text → HasWide (text ++ back)
HasWide-before text back (before, c, after, wide, e) =
    (before, c, after ++ back, wide, ap (λ t. t ++ back) e ∙ append_assoc before (c ∷ after) back)

HasWide-latin_1 : (text : Text) → HasWide text → latin_1 text ≡ none
HasWide-latin_1 text (before, c, after, wide, e) = ap latin_1 e ∙ latin_1-wide before c after wide

header_lines-HasWide :
    (headers : Dict Text Text) (key value : Text)
    → get headers key ≡ some value
    → HasWide value
    → HasWide (header_lines headers)
unfolding header_lines get
header_lines-HasWide [] key value found wide = absurd (ground arith)
header_lines-HasWide ((k, v) ∷ headers) key value found wide = elim (Bool-cases (same_text k key)) [
  | inl here ↦ HasWide-after k (58 ∷ v ++ (10 ∷ header_lines headers)) (
      HasWide-after (58 ∷ []) (v ++ (10 ∷ header_lines headers))
        (HasWide-before v (10 ∷ header_lines headers) (subst HasWide (ground arith) wide)))
  | inr there ↦ HasWide-after k (58 ∷ v ++ (10 ∷ header_lines headers)) (
      HasWide-after (58 ∷ v) (10 ∷ header_lines headers) (
        HasWide-after (10 ∷ []) (header_lines headers)
          (header_lines-HasWide headers key value (ground arith) wide)))
]

module _ {S : Type 0} (sendall : Bytes → Exec Failure S (Unit {0})) where
  -- A frame with a header, other than content-length, whose value has a character beyond Latin-1 is
  -- never sent: send_frame raises a UnicodeEncodeError, and the socket is not called.
  pub send_frame_wide :
      (frame : Frame) (key value : Text) (s : S)
      → get (wire_of frame).headers key ≡ some value
      → same_text content_length key ≡ false
      → HasWide value
      → send_frame sendall frame s ≡ (err (frame_error unicode_error), s)
  unfolding send_frame pack
  send_frame_wide frame key value s found other wide =
      let f = with_length (wire_of frame) in
      let there : get f.headers key ≡ some value =
        get-put (wire_of frame).headers content_length key _ ∙ ground arith in
      let lines = header_lines-HasWide f.headers key value there wide in
      let head : HasWide (head_text f) =
        HasWide-after f.cmd (10 ∷ header_lines f.headers ++ (10 ∷ [])) (
          HasWide-after (10 ∷ []) (header_lines f.headers ++ (10 ∷ []))
            (HasWide-before (header_lines f.headers) (10 ∷ []) lines)) in
      ap (λ o. send_packed sendall (finished f.body o) s) (HasWide-latin_1 (head_text f) head)
