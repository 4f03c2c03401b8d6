-- ===== src/Store/Interface.antt =====
-- The class QueueStore of coilmq/store/__init__.py, and what a store promises: for every
-- destination a first-in first-out queue of frames.
use coilmq.Prelude.{
  ℕ, ◌<◌, String, ◌≡◌, Bool, not, Option, none, some, List, [], ◌∷◌, ◌++◌, Exec, ok, ◌>>=◌, pure,
  ◌==◌, string_equality, length, is_empty, ltb, if◌then◌else◌,
}
use coilmq.Frame.{Frame, Error}

-- `rounds` bounds the number of frames of a destination; it is the fuel of a loop over `frames`.
pub record QueueStore : Type 1 where
  pub State : Type 0
  pub enqueue : String → Frame → Exec Error State (Unit {0})
  pub dequeue : String → Exec Error State (Option Frame)
  pub requeue : String → Frame → Exec Error State (Unit {0})
  pub size : String → Exec Error State ℕ
  pub has_frames : String → Exec Error State Bool
  pub destinations : State → List String
  pub close : Exec Error State (Unit {0})
  pub rounds : State → String → ℕ

-- The methods that QueueStore itself defines.
module _ {S : Type 0} where
  abbrev pub requeue_by_enqueue :
      (String → Frame → Exec Error S (Unit {0})) → String → Frame → Exec Error S (Unit {0})
  requeue_by_enqueue enqueue destination frame = enqueue destination frame

  abbrev pub has_frames_by_size : (String → Exec Error S ℕ) → String → Exec Error S Bool
  has_frames_by_size size destination = do n ← size destination; pure (ltb 0 n)

-- QueueStore.close does nothing unless a store overrides it.
abbrev pub no_close : {S : Type 0} → Exec Error S (Unit {0})
no_close s = (ok tt, s)

abbrev pub head? : {A : Type 0} → List A → Option A
head? [] = none
head? (x ∷ xs) = some x

abbrev pub tail : {A : Type 0} → List A → List A
tail [] = []
tail (x ∷ xs) = xs

-- The contract. `contents` lists the frames of a destination, oldest first.
pub record FifoLaws (store : QueueStore) : Type 0 where
  pub contents : store.State → String → List Frame
  pub enqueue_ok : (d : String) (f : Frame) (s : store.State) → (store.enqueue d f s).0 ≡ ok tt
  pub contents-enqueue :
      (d : String) (f : Frame) (s : store.State) (x : String)
      → contents (store.enqueue d f s).1 x
        ≡ (if d == x then contents s x ++ (f ∷ []) else contents s x)
  pub requeue_eq :
      (d : String) (f : Frame) (s : store.State) → store.requeue d f s ≡ store.enqueue d f s
  pub dequeue_head :
      (d : String) (s : store.State) → (store.dequeue d s).0 ≡ ok (head? (contents s d))
  pub contents-dequeue :
      (d : String) (s : store.State) (x : String)
      → contents (store.dequeue d s).1 x ≡ (if d == x then tail (contents s x) else contents s x)
  pub size_length : (d : String) (s : store.State) → (store.size d s).0 ≡ ok (length (contents s d))
  pub contents-size :
      (d : String) (s : store.State) (x : String) → contents (store.size d s).1 x ≡ contents s x
  pub has_frames_ok :
      (d : String) (s : store.State) → (store.has_frames d s).0 ≡ ok (not (is_empty (contents s d)))
  pub contents-has_frames :
      (d : String) (s : store.State) (x : String)
      → contents (store.has_frames d s).1 x ≡ contents s x
  pub length-lt-rounds : (s : store.State) (d : String) → length (contents s d) < store.rounds s d
