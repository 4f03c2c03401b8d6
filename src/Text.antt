-- ===== src/Text.antt =====
-- Python's `str` as the protocol uses it: lower case, prefixes, truth values and `str(n)`.
use Prim.Native.Char.{Char, code}
use Prim.Native.String.{[], ◌∷◌, ◌++◌}
use text.Mathlib.Text.{starts_with}
use coilmq.Prelude.{
  ℕ, zero, suc, ◌+◌, ◌/◌, ◌%◌, String, Bool, false, not, Option, none, some, List, ◌==◌, nat_beq,
  ltb, string_equality, if◌then◌else◌,
}

-- The letters whose lower case is an ASCII letter, and those letters. The last is U+212A.
abbrev upper_letters : String
upper_letters = "ABCDEFGHIJKLMNOPQRSTUVWXYZK"

abbrev lower_letters : String
lower_letters = "abcdefghijklmnopqrstuvwxyzk"

translate : String → String → Char → Char
translate (u ∷ us) (l ∷ ls) c =
    let rest = translate us ls c in if nat_beq (code u) (code c) then l else rest
translate _ _ c = c

-- s.lower(), for a text that is compared with an ASCII word
unfoldable pub lower : String → String
unfolding translate
lower [] = []
lower (c ∷ s) = translate upper_letters lower_letters c ∷ lower s

-- The truth value of what d.get(k) returns.
abbrev pub is_truthy : Option String → Bool
is_truthy none = false
is_truthy (some s) = not (s == "")

-- dest.startswith('/queue/')
abbrev pub is_queue : String → Bool
is_queue dest = starts_with dest "/queue/"

-- `base` followed by `text`
infixr 66 ◌+s◌
abbrev pub ◌+s◌ : String → String → String
base +s text = base ++ text

digit : String → ℕ → String
digit [] n = []
digit (c ∷ s) zero = c ∷ []
digit (c ∷ s) (suc n) = digit s n

-- str(n)
decimal_loop : ℕ → ℕ → String
decimal_loop zero n = []
decimal_loop (suc fuel) n =
    let front = decimal_loop fuel (n / 10) in
    let last = digit "0123456789" (n % 10) in if ltb n 10 then last else front ++ last

unfoldable pub decimal : ℕ → String
unfolding decimal_loop digit
decimal n = decimal_loop (n + 1) n

-- The code points of a text.
abbrev pub codes : String → List ℕ
codes [] = List.[]
codes (c ∷ s) = List.◌∷◌ (code c) (codes s)
