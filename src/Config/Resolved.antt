-- ===== src/Config/Resolved.antt =====
-- What resolve_name (coilmq/config/__init__.py) finds.
use Prim.Native.Char.{Char, code}
use Prim.Native.String as Str
use Prim.Native.String.{◌∷◌}
use text.Mathlib.TextLemmas.{nil-append, cons-append}
use coilmq.Prelude.{
  ℕ, String, ◌≡◌, refl, sym, ap, ◌∙◌, false, ◌||◌, Option, none, some, List, ok, continue, arith,
}
use coilmq.Text.{◌+s◌}
use coilmq.Config.Names.{Importer, mentions, split, colon, dotted, resolve_dotted, resolve_name}

split-no_separator :
    (separator : ℕ) (name : String)
    → mentions separator name ≡ false
    → split separator name ≡ List.◌∷◌ name List.[]
unfolding split
split-no_separator separator Str.[] h = refl
split-no_separator separator (c ∷ name) h =
    ground (arith, split-no_separator separator name (ground arith))

-- A name with one separator has two words.
split-separator :
    (separator : ℕ) (c : Char) (first second : String)
    → code c ≡ separator
    → mentions separator first ≡ false
    → mentions separator second ≡ false
    → split separator (first +s (c ∷ second)) ≡ List.◌∷◌ first (List.◌∷◌ second List.[])
unfolding split
split-separator separator c Str.[] second e f g =
    rw (nil-append (c ∷ second)) (ground (arith, split-no_separator separator second g))
split-separator separator c (d ∷ first) second e f g =
    rw (cons-append d first (c ∷ second))
      (ground (arith, split-separator separator c first second e (ground arith) g))

mentions-append :
    (separator : ℕ) (first second : String)
    → mentions separator (first +s second) ≡ (mentions separator first || mentions separator second)
mentions-append separator Str.[] second = rw (nil-append second) refl
mentions-append separator (c ∷ first) second =
    rw (cons-append c first second) (ground (arith, mentions-append separator first second))

one_letter : (c : Char) (s : String) → ((c ∷ Str.[]) +s s) ≡ c ∷ s
one_letter c s = rw (cons-append c Str.[] s) (ap (λ t. c ∷ t) (nil-append s))

dotted-colon :
    {S : Type 0} (path method : String) (s : S)
    → mentions colon path ≡ false
    → mentions colon method ≡ false
    → dotted {S = S} (path +s (":" +s method)) s ≡ (ok (path +s ("." +s method)), s)
dotted-colon path method s f g = rw (one_letter ":" method) (
    ground (
      arith,
      mentions-append colon path (":" ∷ method),
      split-separator colon ":" path method refl f g,
    ))

dotted-plain :
    {S : Type 0} (name : String) (s : S)
    → mentions colon name ≡ false
    → dotted name s ≡ (ok name, s)
dotted-plain name s f = rw f refl

no_colon :
    (path method : String)
    → mentions colon path ≡ false
    → mentions colon method ≡ false
    → mentions colon (path +s ("." +s method)) ≡ false
no_colon path method f g =
    rw (one_letter "." method) (ground (arith, mentions-append colon path ("." ∷ method)))

module _ (ι : Importer) where
  -- A name `path:method` with one colon resolves as `path.method` does: to the same object or the
  -- same exception, with the same modules loaded.
  pub resolve_name-colon :
      (path method : String) (s : ι.Modules)
      → mentions colon path ≡ false
      → mentions colon method ≡ false
      → resolve_name ι (path +s (":" +s method)) s ≡ resolve_name ι (path +s ("." +s method)) s
  unfolding resolve_name
  resolve_name-colon path method s f g = ap (continue (resolve_dotted ι)) (
      dotted-colon path method s f g
      ∙ sym (dotted-plain (path +s ("." +s method)) s (no_colon path method f g)))

  -- The object that a path of attribute names leads to.
  abbrev pub reach : ι.Modules → ι.Object → List String → Option ι.Object
  reach s found List.[] = some found
  reach s found (List.◌∷◌ n names) = elim (ι.attribute s found n) [
    | none ↦ none
    | some inner ↦ reach s inner names
  ]
