-- ===== src/Prelude/Triple.antt =====
-- What a method keeps of the state and what its result is like, in whatever way it ends.
use mathlib.Core.Bool.{Bool, true, false}
use coilmq.Prelude.Tests.{if◌then◌else◌}
use coilmq.Prelude.Action.{Exec, Result, ok, err, pure, raise, ◌>>=◌, catch, raise_if, continue}

-- The value is as `R` says, unless the method raised.
abbrev pub Gives : {X A : Type 0} → (A → Type 0) → Result X A → Type 0
Gives R (ok a) = R a
Gives R (err x) = Unit {0}

-- From a state with `P` to a state with `P`.
pub record Triple {X S A : Type 0} (P : S → Type 0) (m : Exec X S A) (R : A → Type 0) : Type 0 where
  pub run : (s : S) → P s → P (m s).1 × Gives R (m s).0

-- Any value at all.
abbrev pub Any : {A : Type 0} → A → Type 0
Any a = Unit {0}

-- What `catch` does with an outcome.
abbrev handled : {X S A : Type 0} → (X → Exec X S A) → Result X A × S → Result X A × S
handled h (r, s) = elim r [ ok a ↦ (ok a, s) | err x ↦ h x s ]

pub result-Any : {X A : Type 0} (r : Result X A) → Gives {X = X} (Any {A = A}) r
result-Any (ok a) = tt
result-Any (err x) = tt

module _ {X S : Type 0} {P : S → Type 0} where
  pub Triple-pure : {A : Type 0} {R : A → Type 0} {a : A} → R a → Triple {X = X} P (pure a) R
  Triple-pure r = record { run = λ s p. (p, r) }

  pub Triple-raise : {A : Type 0} {R : A → Type 0} {x : X} → Triple {A = A} P (raise x) R
  Triple-raise = record { run = λ s p. (p, tt) }

  pub Triple-raise_if : (test : Bool) (x : X) → Triple P (raise_if test x) Any
  Triple-raise_if true x = record { run = λ s p. (p, tt) }
  Triple-raise_if false x = record { run = λ s p. (p, tt) }

  continued :
      {A B : Type 0} {R : A → Type 0} {Q : B → Type 0} (f : A → Exec X S B) (o : Result X A × S)
      → P o.1 × Gives R o.0
      → ((a : A) → R a → Triple P (f a) Q)
      → P (continue f o).1 × Gives Q (continue f o).0
  continued f (ok a, s) (p, r) each = (each a r).run s p
  continued f (err x, s) (p, r) each = (p, tt)

  pub Triple-bind :
      {A B : Type 0} {R : A → Type 0} {Q : B → Type 0} {m : Exec X S A} {f : A → Exec X S B}
      → Triple P m R
      → ((a : A) → R a → Triple P (f a) Q)
      → Triple P (m >>= f) Q
  Triple-bind {m} {f} first each = record { run = λ s p. continued f (m s) (first.run s p) each }

  pub Triple-if :
      {A : Type 0} {R : A → Type 0} {m n : Exec X S A} (test : Bool)
      → Triple P m R
      → Triple P n R
      → Triple P (if test then m else n) R
  Triple-if true first second = first
  Triple-if false first second = second

  caught :
      {A : Type 0} {R : A → Type 0} (h : X → Exec X S A) (o : Result X A × S)
      → P o.1 × Gives R o.0
      → ((x : X) → Triple P (h x) R)
      → P (handled h o).1 × Gives R (handled h o).0
  caught h (ok a, s) (p, r) each = (p, r)
  caught h (err x, s) (p, r) each = (each x).run s p

  pub Triple-catch :
      {A : Type 0} {R : A → Type 0} {m : Exec X S A} {h : X → Exec X S A}
      → Triple P m R
      → ((x : X) → Triple P (h x) R)
      → Triple P (catch m h) R
  Triple-catch {m} {h} first each = record { run = λ s p. caught h (m s) (first.run s p) each }
