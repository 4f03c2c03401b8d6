-- ===== src/Store/Memory/Laws.antt =====
-- MemoryQueue keeps the contract of a store.
use mathlib.Core.List.{reverse, reverse-cons, reverse-reverse}
use coilmq.Prelude.{
  String, ◌≡◌, refl, sym, ap, false, not, Option, none, some, List, [], ◌∷◌, ◌++◌, ok, ◌==◌, eq_iff,
  string_equality, length, length-append, is_empty, if◌then◌else◌, arith,
}
use coilmq.Dict.{put, get_or}
use coilmq.Dict.Laws.{get-put}
use coilmq.Frame.{Frame}
use coilmq.Store.Interface.{FifoLaws, head?, tail}
use coilmq.Store.Memory.{Messages, enqueue, pop, popped, dequeue, size, has_frames, memory_queue}

-- The frames of a destination, oldest first.
abbrev pub contents : Messages → String → List Frame
contents m d = reverse (get_or m d [])

-- `pop` takes the last item.
pop-append : {A : Type 0} (xs : List A) (y : A) → pop (xs ++ (y ∷ [])) ≡ some (y, xs)
unfolding pop
pop-append [] y = refl
pop-append (x ∷ xs) y = rw (pop-append xs y)

abbrev oldest : {A : Type 0} → List A → Option (A × List A)
oldest [] = none
oldest (y ∷ ys) = some (y, reverse ys)

pop-reverse : {A : Type 0} (l : List A) → pop (reverse l) ≡ oldest l
unfolding pop
pop-reverse [] = refl
pop-reverse (y ∷ ys) = rw (reverse-cons y ys) (pop-append (reverse ys) y)

pub length-reverse : (frames : List Frame) → length (reverse frames) ≡ length frames
length-reverse [] = refl
length-reverse (f ∷ rest) =
    rw (reverse-cons f rest, length-append (reverse rest) (f ∷ []), length-reverse rest)
      (omega arith)

is_empty-append : {A : Type 0} (xs : List A) (y : A) → is_empty (xs ++ (y ∷ [])) ≡ false
is_empty-append [] y = refl
is_empty-append (x ∷ xs) y = refl

pub is_empty-reverse : {A : Type 0} (xs : List A) → is_empty (reverse xs) ≡ is_empty xs
is_empty-reverse [] = refl
is_empty-reverse (x ∷ xs) = rw (reverse-cons x xs) (is_empty-append (reverse xs) x)

-- Reading an entry of the defaultdict does not change what any destination holds.
pub contents-set_default :
    (m : Messages) (d x : String) → contents (put m d (get_or m d [])) x ≡ contents m x
contents-set_default m d x = ground (arith, get-put m d x (get_or m d []), eq_iff d x)

pub contents-enqueue :
    (d : String) (f : Frame) (m : Messages) (x : String)
    → contents (enqueue d f m).1 x ≡ (if d == x then contents m x ++ (f ∷ []) else contents m x)
unfolding enqueue
contents-enqueue d f m x =
    ground (arith, get-put m d x (f ∷ get_or m d []), eq_iff d x, reverse-cons f (get_or m x []))

module _ (d : String) (m : Messages) where
  abbrev Takes : List Frame → Type 0
  Takes l =
      ((popped d (pop (reverse l)) m).0 ≡ ok (head? l))
      × ((x : String)
          → contents (popped d (pop (reverse l)) m).1 x ≡ (if d == x then tail l else contents m x))

  takes : (l : List Frame) → reverse l ≡ get_or m d [] → Takes l
  unfolding pop
  takes [] e = (
    refl,
    λ x. ground (arith, get-put m d x (get_or m d []), eq_iff d x, reverse-reverse (get_or m x [])),
  )
  takes (f ∷ l) e =
      rw (pop-reverse (f ∷ l))
        (refl, λ x. ground (arith, get-put m d x (reverse l), eq_iff d x, reverse-reverse l))

  dequeue-Takes : Takes (contents m d)
  dequeue-Takes = takes (contents m d) (reverse-reverse (get_or m d []))

  dequeue_eq : dequeue d m ≡ popped d (pop (reverse (contents m d))) m
  unfolding dequeue
  dequeue_eq = rw (reverse-reverse (get_or m d []))

  pub dequeue_head : (dequeue d m).0 ≡ ok (head? (contents m d))
  dequeue_head = rw dequeue_eq dequeue-Takes.0

  pub contents-dequeue :
      (x : String)
      → contents (dequeue d m).1 x ≡ (if d == x then tail (contents m x) else contents m x)
  contents-dequeue x = ground (arith, dequeue_eq, dequeue-Takes.1 x, eq_iff d x)

-- `MemoryQueue` is a store of first-in first-out queues, one for each destination.
unfoldable pub memory_fifo : FifoLaws memory_queue
unfolding enqueue size has_frames
memory_fifo = record {
  contents = contents;
  enqueue_ok = λ d f s. refl;
  contents-enqueue = contents-enqueue;
  requeue_eq = λ d f s. refl;
  dequeue_head = dequeue_head;
  contents-dequeue = λ d s x. contents-dequeue d s x;
  size_length = λ d s. ap ok (sym (length-reverse (get_or s d [])));
  contents-size = λ d s x. contents-set_default s d x;
  has_frames_ok = λ d s. ap (λ b. ok (not b)) (sym (is_empty-reverse (get_or s d [])));
  contents-has_frames = λ d s x. contents-set_default s d x;
  length-lt-rounds = λ s d. omega (arith, length-reverse (get_or s d []));
}

-- For every destination, `dequeue` returns the frame that has been there longest, or None, and takes
-- it away, `enqueue` puts a frame behind the others, and `size` and `has_frames` tell how many there
-- are; no method changes what another destination holds.
pub memory_is_fifo :
    (d : String) (f : Frame) (m : Messages) (x : String)
    → ((dequeue d m).0 ≡ ok (head? (contents m d)))
      × (contents (dequeue d m).1 x ≡ (if d == x then tail (contents m x) else contents m x))
      × (contents (enqueue d f m).1 x ≡ (if d == x then contents m x ++ (f ∷ []) else contents m x))
      × ((size d m).0 ≡ ok (length (contents m d)))
      × (contents (size d m).1 x ≡ contents m x)
      × ((has_frames d m).0 ≡ ok (not (is_empty (contents m d))))
      × (contents (has_frames d m).1 x ≡ contents m x)
unfolding size has_frames
memory_is_fifo d f m x = (
  dequeue_head d m,
  contents-dequeue d m x,
  contents-enqueue d f m x,
  ap ok (sym (length-reverse (get_or m d []))),
  contents-set_default m d x,
  ap (λ b. ok (not b)) (sym (is_empty-reverse (get_or m d []))),
  contents-set_default m d x,
)
