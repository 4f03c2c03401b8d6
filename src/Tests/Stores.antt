-- ===== src/Tests/Stores.antt =====
-- The theorems on DbmQueue (coilmq/store/dbm.py), RedisQueueStore (coilmq/store/rds.py) and SAQueue
-- (coilmq/store/sa) at concrete inputs.
use coilmq.Store.Interface.{head?, tail}
use coilmq.Store.Redis as Redis
use coilmq.Store.Redis.{Backend}
use coilmq.Store.Redis.Laws.{IsBackend, Holds, redis_is_fifo}
use coilmq.Tests.{queue_b}
use coilmq.Prelude.{
  ℕ, ◌+◌, ◌≤◌, String, true, not, List, ◌∷◌, ◌++◌, map, keep, length, is_empty, ap, ◌==◌,
  if◌then◌else◌, ◌≡◌, refl, arith, some, [], ok, err, string_equality,
}
use coilmq.Dict.{get}
use coilmq.Frame.{Frame, key_error}
use coilmq.Store.Dbm.{Dbm, Checkpoint, dequeue, close, reopen}
use coilmq.Store.Dbm.Crash.{dequeue_lost, dequeue-reopen}
use coilmq.Store.Dbm.Lag.{
  enqueues, dequeues, after, moved, Run, no_operation, and_then, Saves, disk_lags,
}
use coilmq.Tests.{queue_a, message}

abbrev checkpoint : Checkpoint
checkpoint = record { operations = 100; timeout = 30; now = λ n. n }

abbrev new_store : Dbm
new_store = record {
  queue_metadata = [];
  disk = [];
  frame_store = [];
  opcount = 0;
  last_sync = 0;
  reads = 0;
}

abbrev second : Frame
second = record (message "m1") { body = [] }

-- Two messages come, and one is taken.
abbrev operations :
    Run checkpoint new_store
      (after checkpoint (dequeues queue_a) (
        after checkpoint
          (enqueues queue_a (message "m2"))
          (after checkpoint (enqueues queue_a (message "m1")) new_store)))
      (0
        + moved checkpoint (enqueues queue_a (message "m1")) new_store
        + moved checkpoint
            (enqueues queue_a (message "m2"))
            (after checkpoint (enqueues queue_a (message "m1")) new_store)
        + moved checkpoint (dequeues queue_a) (
            after checkpoint
              (enqueues queue_a (message "m2"))
              (after checkpoint (enqueues queue_a (message "m1")) new_store)))
operations =
    and_then
      (and_then (and_then no_operation (enqueues queue_a (message "m1")))
        (enqueues queue_a (message "m2")))
      (dequeues queue_a)

disk_lags_example :
    let t : Dbm = after checkpoint (dequeues queue_a) (
      after checkpoint
        (enqueues queue_a (message "m2"))
        (after checkpoint (enqueues queue_a (message "m1")) new_store)) in
    (c : Dbm) × (k : ℕ) × (m : ℕ) × Run checkpoint new_store c k
    × Run checkpoint c t m
    × (m ≤ 100)
    × Saves checkpoint c t.disk
disk_lags_example = disk_lags checkpoint new_store _ _ refl (λ d. refl) operations

-- One frame waits, and everything is on the disk.
abbrev saved_store : Dbm
saved_store = record new_store {
  queue_metadata =
      (queue_a, record { frames = "m1" ∷ []; enqueued = 1; dequeued = 0; size = 0 }) ∷ [];
  disk = (queue_a, record { frames = "m1" ∷ []; enqueued = 1; dequeued = 0; size = 0 }) ∷ [];
  frame_store = ("m1", message "m1") ∷ [];
}

dequeue_lost_example :
    ((dequeue checkpoint queue_a saved_store).0 ≡ ok (some (message "m1")))
    × ((dequeue checkpoint queue_a (reopen checkpoint (dequeue checkpoint queue_a saved_store).1)).0
        ≡ err (key_error "m1"))
unfolding get coilmq.Store.Memory.pop
dequeue_lost_example =
    dequeue_lost checkpoint queue_a "m1" [] (message "m1") saved_store refl
      (record { few = omega arith; soon = omega arith }) refl refl refl

dequeue-reopen_example :
    (dequeue checkpoint queue_a (reopen checkpoint (close saved_store).1)).0
    ≡ (dequeue checkpoint queue_a saved_store).0
dequeue-reopen_example = dequeue-reopen checkpoint queue_a saved_store

-- A database that maps each key to its list, with frames for byte strings.
abbrev lists : Backend
lists = record {
  Database = String → List Frame;
  Item = Frame;
  rpush = λ k v s x. if k == x then s x ++ (v ∷ []) else s x;
  lpop = λ k s. (head? (s k), λ x. if k == x then tail (s x) else s x);
  llen = λ k s. length (s k);
  keys = λ s. keep (λ k. not (is_empty (s k))) (queue_a ∷ queue_b ∷ []);
  dumps = λ f. f;
  is_true = λ f. true;
  loads = λ f. some f;
}

abbrev lawful_lists : IsBackend lists
lawful_lists = record {
  list_at = λ s. s;
  list_at-rpush = λ k v s x. refl;
  lpop_head = λ k s. refl;
  list_at-lpop = λ k s x. refl;
  llen_length = λ k s. refl;
  loads-dumps = λ f. refl;
  dumps_true = λ f. refl;
}

map_id : (fs : List Frame) → fs ≡ map (λ f. f) fs
map_id [] = refl
map_id (f ∷ fs) = ap (λ l. f ∷ l) (map_id fs)

abbrev one_waits : String → List Frame
one_waits x = if x == queue_a then message "m1" ∷ [] else []

redis_is_fifo_example :
    Holds lists lawful_lists
      (Redis.enqueue lists queue_a second one_waits).1
      (λ x. if queue_a == x then one_waits x ++ (second ∷ []) else one_waits x)
    × (Redis.requeue lists queue_a second one_waits ≡ Redis.enqueue lists queue_a second one_waits)
    × ((Redis.dequeue lists queue_a one_waits).0 ≡ ok (head? (one_waits queue_a)))
    × Holds lists lawful_lists
        (Redis.dequeue lists queue_a one_waits).1
        (λ x. if queue_a == x then tail (one_waits x) else one_waits x)
    × ((Redis.size lists queue_a one_waits).0 ≡ ok (length (one_waits queue_a)))
    × ((Redis.has_frames lists queue_a one_waits).0 ≡ ok (not (is_empty (one_waits queue_a))))
redis_is_fifo_example =
    redis_is_fifo lists lawful_lists queue_a second one_waits one_waits (λ x. map_id (one_waits x))
