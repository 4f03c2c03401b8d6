-- ===== src/Wire/Lines.antt =====
-- Reading a line of ASCII text (coilmq/util/frames.py, the loop of parse_headers).
use mathlib.Core.List.{reverse, reverse-append, reverse-reverse, append_assoc}
use coilmq.Prelude.{
  ℕ, zero, suc, ◌+◌, ◌<◌, ◌≡◌, refl, sym, ap, ◌∙◌, arith, Bool, false, some, List, [], ◌∷◌, ◌++◌,
  ok, length, nat_beq, is_empty, bind-continue, continue, pure,
}
use coilmq.Wire.Bytes.{Bytes, Text, is_space, strip_left, strip, decode, decode_from, latin_1}
use coilmq.Wire.Stream.{Stream, take, drop, remaining, advance, first_line, readline}
use coilmq.Wire.Parse.{WireError, Method, with_line, preamble}

-- No byte of the text is `c`.
abbrev pub Avoids : ℕ → Text → Type 0
Avoids c [] = Unit {0}
Avoids c (x ∷ xs) = (nat_beq x c ≡ false) × Avoids c xs

abbrev pub IsAscii : Text → Type 0
IsAscii [] = Unit {0}
IsAscii (x ∷ xs) = (x < 128) × IsAscii xs

abbrev pub starts_with_space : Text → Bool
starts_with_space [] = false
starts_with_space (x ∷ xs) = is_space x

-- A line that is parsed as it stands: ASCII, on one line, with no white space at either end.
pub record IsLine (l : Text) : Type 0 where
  pub ascii : IsAscii l
  pub one_line : Avoids 10 l
  pub filled : is_empty l ≡ false
  pub left : starts_with_space l ≡ false
  pub right : starts_with_space (reverse l) ≡ false

pub take-length_append : {A : Type 0} (xs ys : List A) → take (length xs) (xs ++ ys) ≡ xs
take-length_append [] ys = refl
take-length_append (x ∷ xs) ys = ap (λ l. x ∷ l) (take-length_append xs ys)

pub drop-length_append : {A : Type 0} (xs ys : List A) → drop (length xs) (xs ++ ys) ≡ ys
drop-length_append [] ys = refl
drop-length_append (x ∷ xs) ys = drop-length_append xs ys

pub drop-nil : {A : Type 0} (n : ℕ) → drop {A = A} n [] ≡ []
drop-nil zero = refl
drop-nil (suc n) = refl

pub drop-add : {A : Type 0} (m n : ℕ) (xs : List A) → drop (m + n) xs ≡ drop n (drop m xs)
drop-add zero n xs = ap (λ k. drop k xs) {x = 0 + n} {y = n} (omega arith)
drop-add (suc m) n [] = drop-nil (suc m + n) ∙ sym (drop-nil n)
drop-add (suc m) n (x ∷ xs) =
    ap (λ k. drop k (x ∷ xs)) {x = suc m + n} {y = suc (m + n)} (omega arith) ∙ drop-add m n xs

-- What remains after a read of the first part.
pub remaining-advance :
    (b : Stream) (xs ys : Bytes) → remaining b ≡ xs ++ ys → remaining (advance (length xs) b) ≡ ys
remaining-advance b xs ys e =
    drop-add b.position (length xs) b.contents
    ∙ (ap (drop (length xs)) e ∙ drop-length_append xs ys)

first_line-append : (l rest : Bytes) → Avoids 10 l → first_line (l ++ (10 ∷ rest)) ≡ l ++ (10 ∷ [])
unfolding first_line
first_line-append [] rest u = refl
first_line-append (c ∷ l) rest (u, us) = rw (u, first_line-append l rest us)

pub decode-ascii : (l : Text) → IsAscii l → decode l ≡ some l
unfolding decode_from
decode-ascii [] u = refl
decode-ascii (c ∷ l) (u, us) = ground (arith, decode-ascii l us)

pub latin_1-ascii : (l : Text) → IsAscii l → latin_1 l ≡ some l
unfolding latin_1
latin_1-ascii [] u = refl
latin_1-ascii (c ∷ l) (u, us) = ground (arith, latin_1-ascii l us)

strip_left-keeps : (l : Text) → starts_with_space l ≡ false → strip_left is_space l ≡ l
unfolding strip_left
strip_left-keeps [] u = refl
strip_left-keeps (c ∷ l) u = rw u

strip-line :
    (l : Text)
    → is_empty l ≡ false
    → starts_with_space l ≡ false
    → starts_with_space (reverse l) ≡ false
    → strip is_space (l ++ (10 ∷ [])) ≡ l
unfolding strip strip_left
strip-line [] filled left right = ground arith
strip-line (c ∷ l) filled left right =
    let line : Text = c ∷ l in
    ap (λ t. reverse (strip_left is_space (reverse t))) (strip_left-keeps (line ++ (10 ∷ [])) left)
    ∙ (ap (λ t. reverse (strip_left is_space t)) (reverse-append line (10 ∷ []))
        ∙ (ap reverse (strip_left-keeps (reverse line) right) ∙ reverse-reverse line))

-- A blank line is empty once it is stripped.
strip-empty : strip is_space (10 ∷ []) ≡ []
unfolding strip strip_left
strip-empty = refl

-- The lines, each with its line feed.
abbrev pub lines_text : List Text → Text
lines_text [] = []
lines_text (l ∷ ls) = l ++ (10 ∷ lines_text ls)

abbrev pub AreLines : List Text → Type 0
AreLines [] = Unit {0}
AreLines (l ∷ ls) = IsLine l × AreLines ls

-- The next line, without its line feed.
readline-line :
    (b : Stream) (l rest : Bytes)
    → Avoids 10 l
    → remaining b ≡ l ++ (10 ∷ rest)
    → readline {X = WireError} b ≡ (ok (l ++ (10 ∷ [])), advance (length (l ++ (10 ∷ []))) b)
unfolding readline
readline-line b l rest u e =
    ap (λ line. (ok line, advance (length line) b)) (ap first_line e ∙ first_line-append l rest u)

with_line-line :
    (others : Method (List Text)) (l : Text) (ls : List Text) (b b' : Stream)
    → IsLine l
    → others b ≡ (ok ls, b')
    → with_line others l b ≡ (ok (l ∷ ls), b')
with_line-line others l ls b b' line done =
    rw (line.filled, decode-ascii l line.ascii) (ap (continue (λ texts. pure (l ∷ texts))) done)

preamble-line :
    (fuel : ℕ) (l rest : Bytes) (b : Stream)
    → Avoids 10 l
    → strip is_space (l ++ (10 ∷ [])) ≡ l
    → remaining b ≡ l ++ (10 ∷ rest)
    → preamble (suc fuel) b ≡ with_line (preamble fuel) l (advance (length (l ++ (10 ∷ []))) b)
unfolding preamble
preamble-line fuel l rest b u trimmed e =
    bind-continue readline (λ raw. with_line (preamble fuel) (strip is_space raw)) b
      (ok (l ++ (10 ∷ [])), advance (length (l ++ (10 ∷ []))) b) (readline-line b l rest u e)
    ∙ ap (λ t. with_line (preamble fuel) t (advance (length (l ++ (10 ∷ []))) b)) trimmed

pub preamble-lines :
    (fuel : ℕ) (ls : List Text) (b : Stream) (rest : Bytes)
    → length ls < fuel
    → AreLines ls
    → remaining b ≡ lines_text ls ++ (10 ∷ rest)
    → (b' : Stream) × (preamble fuel b ≡ (ok ls, b'))
      × (remaining b' ≡ rest)
      × (b'.contents ≡ b.contents)
preamble-lines zero ls b rest h lines e = elim h [ ]
preamble-lines (suc fuel) [] b rest h lines e = (
  advance 1 b,
  preamble-line fuel [] rest b tt strip-empty e,
  remaining-advance b (10 ∷ []) rest e,
  refl,
)
preamble-lines (suc fuel) (l ∷ ls) b rest h (line, lines) e =
    let after : Stream = advance (length (l ++ (10 ∷ []))) b in
    let whole : remaining b ≡ l ++ (10 ∷ (lines_text ls ++ (10 ∷ rest))) =
      e ∙ append_assoc l (10 ∷ lines_text ls) (10 ∷ rest) in
    let left : remaining after ≡ lines_text ls ++ (10 ∷ rest) =
      remaining-advance b (l ++ (10 ∷ [])) (lines_text ls ++ (10 ∷ rest))
        (whole ∙ sym (append_assoc l (10 ∷ []) (lines_text ls ++ (10 ∷ rest)))) in
    let (b', done, r, c) = preamble-lines fuel ls after rest (omega (arith, h)) lines left in
    (
      b',
      preamble-line fuel l (lines_text ls ++ (10 ∷ rest)) b line.one_line
            (strip-line l line.filled line.left line.right) whole
          ∙ with_line-line (preamble fuel) l ls after b' line done,
      r,
      c,
    )
