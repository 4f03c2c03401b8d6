-- ===== src/Prelude/Action.antt =====
-- Methods that change an object and may raise. What was written before a raise stays written, so
-- the state comes back beside the exception too. `X` is the type of exceptions.
use mathlib.Core.Bool.{Bool}
use mathlib.Core.Path.{◌≡◌, refl, ap, ◌∙◌}
use native.Mathlib.Omega.{arith}
use coilmq.Prelude.Tests.{if◌then◌else◌}

pub data Result (X A : Type 0) : Type 0 where
  ok : A → Result X A
  err : X → Result X A

abbrev pub Exec : Type 0 → Type 0 → Type 0 → Type 0
Exec X S A = S → Result X A × S

module _ {X S A : Type 0} where
  abbrev pub pure : A → Exec X S A
  pure a s = (ok a, s)

  abbrev pub raise : X → Exec X S A
  raise x s = (err x, s)

  abbrev pub gets : (S → A) → Exec X S A
  gets f s = (ok (f s), s)

infixl 5 ◌>>=◌ ◌>>◌
abbrev pub ◌>>=◌ : {X S A B : Type 0} → Exec X S A → (A → Exec X S B) → Exec X S B
◌>>=◌ m f s = let (r, s') = m s in elim r [ ok a ↦ f a s' | err x ↦ (err x, s') ]

abbrev pub ◌>>◌ : {X S A B : Type 0} → Exec X S A → Exec X S B → Exec X S B
m >> k = m >>= λ _. k

abbrev pub modify : {X S : Type 0} → (S → S) → Exec X S (Unit {0})
modify f s = (ok tt, f s)

-- `if test: raise x`
abbrev pub raise_if : {X S : Type 0} → Bool → X → Exec X S (Unit {0})
raise_if test x s = (if test then err x else ok tt, s)

-- `try: m  except Exception as x: handler(x)`
abbrev pub catch : {X S A : Type 0} → Exec X S A → (X → Exec X S A) → Exec X S A
catch m handler s = let (r, s') = m s in elim r [ ok a ↦ (ok a, s') | err x ↦ handler x s' ]

-- A method of a part of the state, run on the whole.
abbrev pub focus : {X S T A : Type 0} → (T → S) → (S → T → T) → Exec X S A → Exec X T A
focus part with_part m t = let (r, s) = m (part t) in (r, with_part s t)

module _ {X S A B : Type 0} where
  abbrev pub continue : (A → Exec X S B) → Result X A × S → Result X B × S
  continue f (r, s) = elim r [ ok a ↦ f a s | err x ↦ (err x, s) ]

  continue-agree :
      (f g : A → Exec X S B) (o : Result X A × S)
      → ((a : A) (s : S) → f a s ≡ g a s)
      → continue f o ≡ continue g o
  continue-agree f g (ok a, s) each = each a s
  continue-agree f g (err x, s) each = refl

  -- Actions that do the same in a state, followed by what does the same in every state.
  pub bind-agree :
      (m n : Exec X S A) (f g : A → Exec X S B) (s : S)
      → m s ≡ n s
      → ((a : A) (s : S) → f a s ≡ g a s)
      → (m >>= f) s ≡ (n >>= g) s
  bind-agree m n f g s e each = ap (continue f) e ∙ continue-agree f g (n s) each

  pub bind-continue :
      (m : Exec X S A) (f : A → Exec X S B) (s : S) (o : Result X A × S)
      → m s ≡ o
      → (m >>= f) s ≡ continue f o
  bind-continue m f s o e = ap (continue f) e

  -- An action that returns, followed by another.
  pub bind-ok :
      (m : Exec X S A) (f : A → Exec X S B) (s s' : S) (a : A)
      → m s ≡ (ok a, s')
      → (m >>= f) s ≡ f a s'
  bind-ok m f s s' a e = bind-continue m f s (ok a, s') e

  continue-returns :
      (f : A → Exec X S B) (b : B) (s' : S) (o : Result X A × S)
      → continue f o ≡ (ok b, s')
      → (a : A) × (t : S) × (o ≡ (ok a, t)) × (f a t ≡ (ok b, s'))
  continue-returns f b s' (ok a, t) e = (a, t, refl, e)
  continue-returns f b s' (err x, t) e = absurd (ground arith)

  -- If two actions in sequence return, so does the first, and the second from where it ends.
  pub bind-returns :
      (m : Exec X S A) (f : A → Exec X S B) (s s' : S) (b : B)
      → (m >>= f) s ≡ (ok b, s')
      → (a : A) × (t : S) × (m s ≡ (ok a, t)) × (f a t ≡ (ok b, s'))
  bind-returns m f s s' b e = continue-returns f b s' (m s) e
