-- ===== src/Prelude/Eq.antt =====
-- Decidable equality of dictionary keys and set members, as an instance.
use Prim.Native.Nat.{ℕ}
use Prim.Native.String.{String}
use mathlib.Core.Path.{◌≡◌}
use mathlib.Core.Logic.{◌↔◌}
use mathlib.Core.Bool.{Bool, true}
use text.Mathlib.Text.{◌==◌ as string_beq}
use text.Mathlib.TextEquality.{eq_iff}
use coilmq.Prelude.Tests.{nat_beq, nat_beq_iff}

-- A test for equality, which is right.
pub record Equality {ℓ} (A : Type ℓ) : Type ℓ where
  pub test : A → A → Bool
  pub test_iff : (x y : A) → (x ≡ y) ↔ (test x y ≡ true)

instance abbrev pub string_equality : Equality String
string_equality = record { test_iff = λ x y. ((eq_iff x y).1, (eq_iff x y).0); test = string_beq }

instance abbrev pub nat_equality : Equality ℕ
nat_equality = record {
  test_iff = λ x y. ((nat_beq_iff x y).1, (nat_beq_iff x y).0);
  test = nat_beq;
}

infix 50 ◌==◌
abbrev pub ◌==◌ {ℓ} : {A : Type ℓ} ⦃same : Equality A⦄ → A → A → Bool
◌==◌ ⦃same⦄ a b = same.test a b
