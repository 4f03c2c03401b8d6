-- ===== src/Store/Memory.antt =====
-- MemoryQueue of coilmq/store/memory.py. A deque is the list of its items from the left: a frame
-- enters on the left and leaves on the right. Reading `self._messages[destination]` of the
-- defaultdict creates the entry, also in `dequeue`, `size` and `has_frames`.
pub mod Laws
use coilmq.Prelude.{
  ℕ, suc, String, Bool, not, Option, none, some, List, [], ◌∷◌, Exec, ok, string_equality, length,
  is_empty,
}
use coilmq.Dict.{Dict, put, get_or, set_default, keys}
use coilmq.Frame.{Frame, Error}
use coilmq.Store.Interface.{QueueStore, requeue_by_enqueue, no_close}

abbrev pub Messages : Type 0
Messages = Dict String (List Frame)

unfoldable pub enqueue : String → Frame → Exec Error Messages (Unit {0})
enqueue destination frame m = (ok tt, put m destination (frame ∷ get_or m destination []))

-- deque.pop(): the last item and the others; `none` is the IndexError
unfoldable pub pop : {A : Type 0} → List A → Option (A × List A)
pop [] = none
pop (x ∷ xs) = elim (pop xs) [ none ↦ some (x, []) | some (y, ys) ↦ some (y, x ∷ ys) ]

abbrev popped : String → Option (Frame × List Frame) → Exec Error Messages (Option Frame)
popped destination none m = (ok none, set_default m destination [])
popped destination (some (frame, rest)) m = (ok (some frame), put m destination rest)

unfoldable pub dequeue : String → Exec Error Messages (Option Frame)
unfolding pop
dequeue destination m = popped destination (pop (get_or m destination [])) m

unfoldable pub size : String → Exec Error Messages ℕ
size destination m = (ok (length (get_or m destination [])), set_default m destination [])

unfoldable pub has_frames : String → Exec Error Messages Bool
has_frames destination m =
    (ok (not (is_empty (get_or m destination []))), set_default m destination [])

unfoldable pub destinations : Messages → List String
destinations m = keys m

abbrev pub memory_queue : QueueStore
memory_queue = record {
  State = Messages;
  enqueue = enqueue;
  dequeue = dequeue;
  requeue = requeue_by_enqueue enqueue;
  size = size;
  has_frames = has_frames;
  destinations = destinations;
  close = no_close;
  rounds = λ m d. suc (length (get_or m d []));
}
