-- ===== src/Dict/Laws.antt =====
-- What the operations of `Dict` do, key by key.
use coilmq.Prelude.{
  ◌≡◌, refl, true, false, ◌||◌, none, some, List, [], ◌∷◌, ◌++◌, Equality, ◌==◌, arith,
  if◌then◌else◌,
}
use coilmq.Dict.{Dict, get, put, remove, contains, add, discard}

module _ {A : Type 0} ⦃e : Equality A⦄ where
  pub beq_self : (a : A) → (a == a) ≡ true
  beq_self a = (e.test_iff a a).0 refl

module _ {K V : Type 0} ⦃e : Equality K⦄ where
  pub get-put :
      (d : Dict K V) (key other : K) (value : V)
      → get (put d key value) other ≡ (if key == other then some value else get d other)
  unfolding get put
  get-put [] k j v = refl
  get-put ((i, w) ∷ d) k j v =
      ground (arith, get-put d k j v, e.test_iff i k, e.test_iff i j, e.test_iff k j)

  pub get-remove :
      (d : Dict K V) (key other : K)
      → get (remove d key) other ≡ (if key == other then none else get d other)
  unfolding get remove
  get-remove [] k j = ground arith
  get-remove ((i, w) ∷ d) k j =
      ground (arith, get-remove d k j, e.test_iff i k, e.test_iff i j, e.test_iff k j)

module _ {A : Type 0} ⦃e : Equality A⦄ where
  pub contains-append :
      (a : A) (s t : List A) → contains a (s ++ t) ≡ (contains a s || contains a t)
  unfolding contains
  contains-append a [] t = refl
  contains-append a (x ∷ s) t = ground (arith, contains-append a s t)

  pub contains-add : (a b : A) (s : List A) → contains b (add a s) ≡ (a == b || contains b s)
  unfolding contains add
  contains-add a b s = ground (arith, contains-append b s (a ∷ []), e.test_iff a b)

  pub contains-discard :
      (a b : A) (s : List A) → contains b (discard a s) ≡ (if a == b then false else contains b s)
  unfolding contains discard
  contains-discard a b [] = ground arith
  contains-discard a b (x ∷ s) =
      ground (arith, contains-discard a b s, e.test_iff x a, e.test_iff x b, e.test_iff a b)

-- Each key stands once.
abbrev pub IsDict : {K V : Type 0} ⦃e : Equality K⦄ → Dict K V → Type 0
IsDict [] = Unit {0}
IsDict ((k, v) ∷ d) = (get d k ≡ none) × IsDict d

module _ {K V : Type 0} ⦃e : Equality K⦄ where
  pub put-IsDict : (d : Dict K V) (k : K) (v : V) → IsDict d → IsDict (put d k v)
  unfolding get put
  put-IsDict [] k v u = (refl, tt)
  put-IsDict ((j, w) ∷ d) k v u =
      ground (arith, put-IsDict d k v u.1, get-put d k j v, e.test_iff j k, e.test_iff k j)

  pub remove-IsDict : (d : Dict K V) (k : K) → IsDict d → IsDict (remove d k)
  unfolding get remove
  remove-IsDict [] k u = tt
  remove-IsDict ((j, w) ∷ d) k u =
      ground (arith, remove-IsDict d k u.1, get-remove d k j, e.test_iff j k, e.test_iff k j)

pub ruleset dict_laws = (get-put, get-remove, contains-add, contains-discard, beq_self)
