-- ===== src/Dict.antt =====
-- Python's `dict` and `set` as the code uses them. A dict keeps its keys in the order in which
-- they were first assigned.
pub mod Laws
use coilmq.Prelude.{
  ℕ, Bool, true, false, ◌||◌, Option, none, some, List, [], ◌∷◌, ◌++◌, map, Equality, ◌==◌,
  if◌then◌else◌,
}

abbrev pub Dict : Type 0 → Type 0 → Type 0
Dict K V = List (K × V)

module _ {K V : Type 0} ⦃e : Equality K⦄ where
  -- d.get(k)
  unfoldable pub get : Dict K V → K → Option V
  get [] k = none
  get ((j, v) ∷ d) k = if j == k then some v else get d k

  -- d[k] = v
  unfoldable pub put : Dict K V → K → V → Dict K V
  put [] k v = (k, v) ∷ []
  put ((j, w) ∷ d) k v = let rest = put d k v in if j == k then (j, v) ∷ d else (j, w) ∷ rest

  -- del d[k], where a missing key changes nothing
  unfoldable pub remove : Dict K V → K → Dict K V
  remove [] k = []
  remove ((j, w) ∷ d) k = let rest = remove d k in if j == k then rest else (j, w) ∷ rest

-- k in d
abbrev pub is_some : {V : Type 0} → Option V → Bool
is_some none = false
is_some (some v) = true

abbrev pub or_else : {V : Type 0} → Option V → V → V
or_else none w = w
or_else (some v) w = v

module _ {K V : Type 0} ⦃e : Equality K⦄ where
  abbrev pub has : Dict K V → K → Bool
  has d k = is_some (get d k)

  -- d[k] of a defaultdict, the value alone
  abbrev pub get_or : Dict K V → K → V → V
  get_or d k v = or_else (get d k) v

  -- The write that d[k] of a defaultdict makes, and d.setdefault(k, v).
  abbrev pub set_default : Dict K V → K → V → Dict K V
  set_default d k v = put d k (get_or d k v)

abbrev pub keys : {K V : Type 0} → Dict K V → List K
keys d = map (λ p. p.0) d

-- A set is a list; its order stands for the order, whatever it is, in which Python iterates.
module _ {A : Type 0} ⦃e : Equality A⦄ where
  -- a in s
  unfoldable pub contains : A → List A → Bool
  contains a [] = false
  contains a (x ∷ xs) = x == a || contains a xs

  -- s.add(a)
  unfoldable pub add : A → List A → List A
  unfolding contains
  add a s = if contains a s then s else s ++ (a ∷ [])

  -- s.remove(a)
  unfoldable pub discard : A → List A → List A
  discard a [] = []
  discard a (x ∷ xs) = let rest = discard a xs in if x == a then rest else x ∷ rest
