-- ===== src/Wire/Number.antt =====
-- The content length, written and read again (coilmq/util/frames.py, pack and parse_body).
use mathlib.Core.List.{reverse, reverse-cons, reverse-reverse}
use coilmq.Prelude.{
  ℕ, zero, suc, ◌+◌, ◌*◌, ◌/◌, ◌%◌, ◌-◌, ◌<◌, ◌≤◌, ◌≡◌, refl, ap, ◌∙◌, arith, Bool, true, false,
  some, [], ◌∷◌, ◌++◌, ltb, is_empty, Bool-cases, inl, inr,
}
use coilmq.Wire.Bytes.{
  Text, is_text_space, strip_left, strip, digits, int_of, decimal, decimal_from, signed,
}

-- Every byte is a digit.
abbrev pub AreDigits : Text → Type 0
AreDigits [] = Unit {0}
AreDigits (c ∷ cs) = (48 ≤ c) × (c < 58) × AreDigits cs

AreDigits-append : (s t : Text) → AreDigits s → AreDigits t → AreDigits (s ++ t)
AreDigits-append [] t u v = v
AreDigits-append (c ∷ s) t (lo, hi, u) v = (lo, hi, AreDigits-append s t u v)

pub decimal_from-AreDigits : (fuel n : ℕ) → AreDigits (decimal_from fuel n)
unfolding decimal_from
decimal_from-AreDigits zero n = tt
decimal_from-AreDigits (suc fuel) n = elim (Bool-cases (ltb n 10)) [
  | inl small ↦ rw small (omega arith, omega arith, tt)
  | inr big ↦ rw big (
      AreDigits-append (decimal_from fuel (n / 10)) ((48 + n % 10) ∷ [])
        (decimal_from-AreDigits fuel (n / 10)) (omega arith, omega arith, tt))
]

-- The number of a text of digits that comes behind the number `n`.
abbrev value : ℕ → Text → ℕ
value n [] = n
value n (c ∷ cs) = value (n * 10 + (c - 48)) cs

value-append : (n : ℕ) (s t : Text) → value n (s ++ t) ≡ value (value n s) t
value-append n [] t = refl
value-append n (c ∷ s) t = value-append (n * 10 + (c - 48)) s t

value-decimal_from : (fuel n : ℕ) → n < fuel → value 0 (decimal_from fuel n) ≡ n
unfolding decimal_from
value-decimal_from zero n h = elim h [ ]
value-decimal_from (suc fuel) n h = elim (Bool-cases (ltb n 10)) [
  | inl small ↦ rw small (ground arith)
  | inr big ↦ rw big (
      value-append 0 (decimal_from fuel (n / 10)) ((48 + n % 10) ∷ [])
      ∙ omega (arith, value-decimal_from fuel (n / 10) (ground arith)))
]

digits-value :
    (after_digit : Bool) (n : ℕ) (c : ℕ) (cs : Text)
    → AreDigits (c ∷ cs)
    → digits after_digit n (c ∷ cs) ≡ some (value n (c ∷ cs))
unfolding digits
digits-value after n c [] (lo, hi, u) = ground arith
digits-value after n c (d ∷ cs) (lo, hi, u) =
    ground (arith, digits-value true (n * 10 + (c - 48)) d cs u)

strip_left-digits : (s : Text) → AreDigits s → strip_left is_text_space s ≡ s
unfolding strip_left
strip_left-digits [] u = refl
strip_left-digits (c ∷ s) (lo, hi, u) = ground arith

pub reverse-AreDigits : (s : Text) → AreDigits s → AreDigits (reverse s)
reverse-AreDigits [] u = tt
reverse-AreDigits (c ∷ s) (lo, hi, u) =
    rw (reverse-cons c s)
      (AreDigits-append (reverse s) (c ∷ []) (reverse-AreDigits s u) (lo, hi, tt))

strip-digits : (s : Text) → AreDigits s → strip is_text_space s ≡ s
unfolding strip
strip-digits s u =
    ap (λ t. reverse (strip_left is_text_space (reverse t))) (strip_left-digits s u)
    ∙ (ap reverse (strip_left-digits (reverse s) (reverse-AreDigits s u)) ∙ reverse-reverse s)

signed-digits :
    (c : ℕ) (cs : Text) → AreDigits (c ∷ cs) → signed (c ∷ cs) ≡ some (false, value 0 (c ∷ cs))
signed-digits c cs u = ground (arith, digits-value false 0 c cs u)

pub is_empty-append : (s : Text) (c : ℕ) → is_empty (s ++ (c ∷ [])) ≡ false
is_empty-append [] c = refl
is_empty-append (d ∷ s) c = refl

pub decimal-filled : (fuel n : ℕ) → n < fuel → is_empty (decimal_from fuel n) ≡ false
unfolding decimal_from
decimal-filled zero n h = elim h [ ]
decimal-filled (suc fuel) n h =
    ground (arith, is_empty-append (decimal_from fuel (n / 10)) (48 + n % 10))

int_of-signed : (s : Text) → AreDigits s → is_empty s ≡ false → int_of s ≡ some (false, value 0 s)
unfolding int_of
int_of-signed [] u filled = absurd (ground arith)
int_of-signed (c ∷ s) u filled = ap signed (strip-digits (c ∷ s) u) ∙ signed-digits c s u

-- int(str(n)) is n.
pub int_of-decimal : (n : ℕ) → int_of (decimal n) ≡ some (false, n)
int_of-decimal n =
    int_of-signed (decimal n) (decimal_from-AreDigits (n + 1) n)
      (decimal-filled (n + 1) n (omega arith))
    ∙ ap (λ k. some (false, k)) (value-decimal_from (n + 1) n (omega arith))
