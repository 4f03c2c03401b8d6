-- ===== src/Store/Dbm.antt =====
-- DbmQueue of coilmq/store/dbm.py. The shelf of the metadata is a dictionary in memory, which `sync`
-- copies to the disk; the shelf of the frames is written through. A deque is the list of its items
-- from the left.
pub mod Laws
pub mod Crash
pub mod Make
pub mod Lag
use coilmq.Prelude.{
  ℕ, ◌+◌, String, Bool, true, false, not, ◌||◌, ◌&&◌, Option, none, some, List, [], ◌∷◌, Exec, ok,
  err, Result, pure, raise, gets, modify, raise_if, ◌>>=◌, ◌>>◌, string_equality, length, is_empty,
  ltb, if◌then◌else◌,
}
use coilmq.Dict.{Dict, get, put, remove, has, get_or, keys, or_else}
use coilmq.Text.{is_truthy}
use coilmq.Frame.{Frame, header, Error, no_message_id, key_error}
use coilmq.Store.Interface.{requeue_by_enqueue}
use coilmq.Store.Memory.{pop}

-- An entry of `queue_metadata`.
pub record Metadata : Type 0 where
  pub frames : List String
  pub enqueued : ℕ
  pub dequeued : ℕ
  pub size : ℕ

-- The attributes. `disk` is what the metadata file holds: entries that were assigned, as they were
-- then, and all that was there at the last checkpoint; `reads` counts the calls of `datetime.now`.
pub record Dbm : Type 0 where
  pub queue_metadata : Dict String Metadata
  pub disk : Dict String Metadata
  pub frame_store : Dict String Frame
  pub opcount : ℕ
  pub last_sync : ℕ
  pub reads : ℕ

-- The two checkpoint parameters, and the time that the n-th call of `datetime.now` returns.
pub record Checkpoint : Type 0 where
  pub operations : ℕ
  pub timeout : ℕ
  pub now : ℕ → ℕ

abbrev Method : Type 0 → Type 0
Method A = Exec Error Dbm A

abbrev pub new_metadata : Metadata
new_metadata = record { frames = []; enqueued = 0; dequeued = 0; size = 0 }

-- destination in self.queue_metadata and bool(self.queue_metadata[destination]['frames'])
unfoldable pub holds_frames : Dict String Metadata → String → Bool
holds_frames metadata destination =
    has metadata destination && not (is_empty (get_or metadata destination new_metadata).frames)

unfoldable pub has_frames : String → Method Bool
has_frames destination = gets (λ s. holds_frames s.queue_metadata destination)

unfoldable pub size : String → Method ℕ
size destination = gets (λ s. length (get_or s.queue_metadata destination new_metadata).frames)

unfoldable pub destinations : Dbm → List String
destinations s = keys s.queue_metadata

-- Closing a shelf writes its cache.
unfoldable pub close : Method (Unit {0})
close = modify (λ s. record s { disk = s.queue_metadata })

module _ (limit : Checkpoint) where
  -- __init__, on the files that an earlier object left: its metadata as they are on the disk, and
  -- its frames.
  unfoldable pub reopen : Dbm → Dbm
  reopen s = record {
    queue_metadata = s.disk;
    disk = s.disk;
    frame_store = s.frame_store;
    opcount = 0;
    last_sync = limit.now s.reads;
    reads = s.reads + 1;
  }

  -- What `_sync` does when it is time; it asks for the time once more.
  abbrev pub synced : Dbm → Dbm
  synced s = record s {
    disk = s.queue_metadata;
    last_sync = limit.now s.reads;
    reads = s.reads + 1;
    opcount = 0;
  }

  -- The `or` asks for the time only if there were not enough operations.
  unfoldable pub sync : Dbm → Dbm
  sync s =
      if ltb limit.operations s.opcount
      then synced s
      else if ltb (s.last_sync + limit.timeout) (limit.now s.reads)
      then synced (record s { reads = s.reads + 1 })
      else record s { reads = s.reads + 1 }

  -- `self._opcount += 1; self._sync()`
  abbrev pub counted : Dbm → Dbm
  counted s = sync (record s { opcount = s.opcount + 1 })

  -- The disk after `enqueue` has made sure that there is an entry: assigning a new one writes it.
  abbrev pub with_entry : Dbm → String → Dict String Metadata
  with_entry s destination =
      if has s.queue_metadata destination then s.disk else put s.disk destination new_metadata

  unfoldable pub enqueue : String → Frame → Method (Unit {0})
  enqueue destination frame = do
    raise_if (not (is_truthy (header frame "message-id"))) no_message_id
    let id = or_else (header frame "message-id") ""
    modify (λ s.
        let entry = get_or s.queue_metadata destination new_metadata in
        record s {
          queue_metadata =
              put s.queue_metadata destination
                (record entry { frames = id ∷ entry.frames; enqueued = entry.enqueued + 1 });
          disk = with_entry s destination;
          frame_store = put s.frame_store id frame;
        })
    modify counted

  -- QueueStore.requeue
  unfoldable pub requeue : String → Frame → Method (Unit {0})
  requeue = requeue_by_enqueue enqueue

  -- `frame = self.frame_store[message_id]` and the lines after it: a missing id is a KeyError.
  unfoldable pub fetch : String → Method (Option Frame)
  fetch id s = elim (get s.frame_store id) [
    | none ↦ (err (key_error id), s)
    | some frame ↦ (ok (some frame), counted (record s { frame_store = remove s.frame_store id }))
  ]

  abbrev pub taken : String → Option (String × List String) → Method (Option Frame)
  taken destination none s = (ok none, s)
  taken destination (some (id, rest)) s =
      let entry = get_or s.queue_metadata destination new_metadata in
      fetch id (record s {
        queue_metadata =
            put s.queue_metadata destination
              (record entry { frames = rest; dequeued = entry.dequeued + 1 });
      })

  -- With no frame, `pop` finds nothing to take.
  unfoldable pub dequeue : String → Method (Option Frame)
  unfolding pop
  dequeue destination s =
      if holds_frames s.queue_metadata destination
      then taken destination (pop (get_or s.queue_metadata destination new_metadata).frames) s
      else (ok none, s)
