-- ===== src/Wire/Bytes.antt =====
-- Python's `bytes` and `str` as coilmq/util/frames.py uses them. Bytes are numbers below 256, and a
-- text is the list of its code points.
use mathlib.Core.List.{reverse}
use coilmq.Prelude.{
  ℕ, zero, suc, ◌+◌, ◌-◌, ◌*◌, ◌/◌, ◌%◌, Bool, true, false, not, ◌&&◌, ◌||◌, Option, none, some,
  List, [], ◌∷◌, ◌++◌, ltb, nat_beq, ◌≡◌, refl, ◌↔◌, arith, Equality, if◌then◌else◌,
}

abbrev pub Bytes : Type 0
Bytes = List ℕ

abbrev pub Text : Type 0
Text = List ℕ

unfoldable pub same_text : Text → Text → Bool
same_text [] [] = true
same_text (c ∷ cs) (d ∷ ds) = nat_beq c d && same_text cs ds
same_text _ _ = false

pub same_text_iff : (s t : Text) → (s ≡ t) ↔ (same_text s t ≡ true)
unfolding same_text
same_text_iff [] [] = (λ e. refl, λ e. refl)
same_text_iff [] (d ∷ ds) = ground arith
same_text_iff (c ∷ cs) [] = ground arith
same_text_iff (c ∷ cs) (d ∷ ds) = ground (arith, same_text_iff cs ds)

instance abbrev pub text_equality : Equality Text
text_equality = record { test = same_text; test_iff = same_text_iff }

abbrev pub within : ℕ → ℕ → ℕ → Bool
within lo hi c = not (ltb c lo) && not (ltb hi c)

-- White space of `bytes.strip`.
abbrev pub is_space : ℕ → Bool
is_space c = nat_beq c 32 || within 9 13 c

-- White space of `int`: `str` has four more below 128.
abbrev pub is_text_space : ℕ → Bool
is_text_space c = is_space c || within 28 31 c

module _ {A : Type 0} where
  unfoldable pub strip_left : (A → Bool) → List A → List A
  strip_left space [] = []
  strip_left space (c ∷ cs) = let rest = strip_left space cs in if space c then rest else c ∷ cs

  -- s.strip()
  unfoldable pub strip : (A → Bool) → List A → List A
  strip space cs = reverse (strip_left space (reverse (strip_left space cs)))

-- text.split(sep)
unfoldable pub split_from : ℕ → Text → Text → List Text
split_from sep piece [] = piece ∷ []
split_from sep piece (c ∷ cs) =
    let next = piece ∷ split_from sep [] cs in
    let same = split_from sep (piece ++ (c ∷ [])) cs in if nat_beq c sep then next else same

abbrev pub split : ℕ → Text → List Text
split sep = split_from sep []

-- `bytes.partition(b'\x00')`: what stands before the first NUL and after it, if there is one
unfoldable pub partition : Bytes → Option (Bytes × Bytes)
partition [] = none
partition (c ∷ cs) =
    let rest = partition cs in
    if nat_beq c 0
    then some ([], cs)
    else elim rest [ none ↦ none | some (body, after) ↦ some (c ∷ body, after) ]

-- bytes.decode(), which is UTF-8: `needed` continuation bytes are missing, the first of them
-- between `lo` and `hi`; `none` is the UnicodeDecodeError.
abbrev start : ℕ → (ℕ → ℕ → ℕ → ℕ → Option Text) → Option Text → Option Text
start c go ascii =
    if ltb c 128
    then ascii
    else if within 194 223 c
    then go 1 (c - 192) 128 191
    else if nat_beq c 224
    then go 2 0 160 191
    else if nat_beq c 237
    then go 2 13 128 159
    else if within 225 239 c
    then go 2 (c - 224) 128 191
    else if nat_beq c 240
    then go 3 0 144 191
    else if within 241 243 c
    then go 3 (c - 240) 128 191
    else if nat_beq c 244
    then go 3 4 128 143
    else none

abbrev prefixed : ℕ → Option Text → Option Text
prefixed c none = none
prefixed c (some text) = some (c ∷ text)

unfoldable pub decode_from : Bytes → ℕ → ℕ → ℕ → ℕ → Option Text
decode_from [] zero point lo hi = some []
decode_from [] (suc needed) point lo hi = none
decode_from (c ∷ cs) zero point lo hi =
    let ascii = prefixed c (decode_from cs zero 0 128 191) in start c (decode_from cs) ascii
decode_from (c ∷ cs) (suc zero) point lo hi =
    let rest = prefixed (point * 64 + (c - 128)) (decode_from cs zero 0 128 191) in
    if within lo hi c then rest else none
decode_from (c ∷ cs) (suc (suc needed)) point lo hi =
    let rest = decode_from cs (suc needed) (point * 64 + (c - 128)) 128 191 in
    if within lo hi c then rest else none

abbrev pub decode : Bytes → Option Text
decode cs = decode_from cs zero 0 128 191

-- six.b(text), which is `text.encode("latin-1")`; `none` is the UnicodeEncodeError
unfoldable pub latin_1 : Text → Option Bytes
latin_1 [] = some []
latin_1 (c ∷ cs) = let rest = latin_1 cs in if ltb c 256 then prefixed c rest else none

-- The digits of int(text), with single underscores between them; `none` is the ValueError.
unfoldable pub digits : Bool → ℕ → Text → Option ℕ
digits after_digit n [] = if after_digit then some n else none
digits after_digit n (c ∷ cs) =
    let more = digits true (n * 10 + (c - 48)) cs in
    let joined = digits false n cs in
    if within 48 57 c then more else if nat_beq c 95 && after_digit then joined else none

-- int(text), as its sign (true for a minus) and its magnitude. Digits and white space that are not
-- ASCII are left out.
abbrev pub with_sign : Bool → Option ℕ → Option (Bool × ℕ)
with_sign minus none = none
with_sign minus (some n) = some (minus, n)

abbrev pub signed : Text → Option (Bool × ℕ)
signed [] = none
signed (c ∷ cs) =
    if nat_beq c 45
    then with_sign true (digits false 0 cs)
    else if nat_beq c 43
    then with_sign false (digits false 0 cs)
    else with_sign false (digits false 0 (c ∷ cs))

unfoldable pub int_of : Text → Option (Bool × ℕ)
int_of text = signed (strip is_text_space text)

-- str(n)
unfoldable pub decimal_from : ℕ → ℕ → Text
decimal_from zero n = []
decimal_from (suc fuel) n =
    let front = decimal_from fuel (n / 10) in
    let last = (48 + n % 10) ∷ [] in if ltb n 10 then last else front ++ last

abbrev pub decimal : ℕ → Text
decimal n = decimal_from (n + 1) n
