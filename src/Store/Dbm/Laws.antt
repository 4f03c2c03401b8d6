-- ===== src/Store/Dbm/Laws.antt =====
-- What the operations of DbmQueue (coilmq/store/dbm.py) come to, and what happens to two frames of one
-- id.
use coilmq.Prelude.{
  ◌+◌, String, ◌≡◌, refl, ap, ◌∙◌, arith, true, false, none, some, List, [], ◌∷◌, ok, err,
  string_equality, Option-cases, inl, inr, is_empty,
}
use coilmq.Dict.{Dict, get, put, remove, get_or}
use coilmq.Dict.Laws.{get-put, get-remove, beq_self}
use coilmq.Text.{is_truthy}
use coilmq.Frame.{Frame, header, key_error, no_message_id}
use coilmq.Store.Memory.{pop}
use coilmq.Store.Dbm.{
  Dbm, Metadata, Checkpoint, sync, counted, enqueue, fetch, dequeue, holds_frames, new_metadata,
  with_entry,
}

-- The ids that wait for a destination, the newest first.
abbrev pub ids : Dbm → String → List String
ids s d = (get_or s.queue_metadata d new_metadata).frames

pub holds_frames-ids :
    (d : String) (s : Dbm) → is_empty (ids s d) ≡ false → holds_frames s.queue_metadata d ≡ true
unfolding holds_frames
holds_frames-ids d s full = elim (Option-cases (get s.queue_metadata d)) [
  | inl missing ↦ absurd (ground arith)
  | inr (entry, at) ↦ ground arith
]

frames-put :
    (q : Dict String Metadata) (d : String) (entry : Metadata)
    → (get_or (put q d entry) d new_metadata).frames ≡ entry.frames
frames-put q d entry = rw (get-put q d d entry, beq_self d)

module _ (limit : Checkpoint) where
  pub fetch-found :
      (id : String) (f : Frame) (s : Dbm)
      → get s.frame_store id ≡ some f
      → fetch limit id s
        ≡ (ok (some f), counted limit (record s { frame_store = remove s.frame_store id }))
  unfolding fetch
  fetch-found id f s found = rw (found, fetch)

  pub fetch-missing :
      (id : String) (s : Dbm)
      → get s.frame_store id ≡ none
      → fetch limit id s ≡ (err (key_error id), s)
  unfolding fetch
  fetch-missing id s missing = rw (missing, fetch)

  -- The state in which `enqueue` counts its operation.
  abbrev pub stored : String → String → Frame → Dbm → Dbm
  stored d id f s =
      let entry = get_or s.queue_metadata d new_metadata in
      record s {
        queue_metadata =
            put s.queue_metadata d
              (record entry { frames = id ∷ entry.frames; enqueued = entry.enqueued + 1 });
        disk = with_entry limit s d;
        frame_store = put s.frame_store id f;
      }

  pub enqueue-stored :
      (d : String) (id : String) (f : Frame) (s : Dbm)
      → header f "message-id" ≡ some id
      → is_truthy (some id) ≡ true
      → enqueue limit d f s ≡ (ok tt, counted limit (stored d id f s))
  unfolding enqueue
  enqueue-stored d id f s at truthy = rw (at, truthy)

  pub enqueue-unnamed :
      (d : String) (f : Frame) (s : Dbm)
      → is_truthy (header f "message-id") ≡ false
      → enqueue limit d f s ≡ (err no_message_id, s)
  unfolding enqueue
  enqueue-unnamed d f s unnamed = rw unnamed

  -- `_sync` does not change what the queues hold.
  sync-keeps :
      (s : Dbm)
      → ((sync limit s).queue_metadata ≡ s.queue_metadata)
        × ((sync limit s).frame_store ≡ s.frame_store)
  unfolding sync
  sync-keeps s = (ground arith, ground arith)

  -- The state after the id at the right end was popped.
  abbrev pub popped : String → List String → Dbm → Dbm
  popped d rest s =
      let entry = get_or s.queue_metadata d new_metadata in
      record s {
        queue_metadata =
            put s.queue_metadata d (record entry { frames = rest; dequeued = entry.dequeued + 1 });
      }

  pub dequeue-fetch :
      (d id : String) (rest : List String) (s : Dbm)
      → is_empty (ids s d) ≡ false
      → pop (ids s d) ≡ some (id, rest)
      → dequeue limit d s ≡ fetch limit id (popped d rest s)
  unfolding dequeue
  dequeue-fetch d id rest s full last = rw (holds_frames-ids d s full, last)

  ids-stored :
      (d id : String) (f : Frame) (s : Dbm) → ids (counted limit (stored d id f s)) d ≡ id ∷ ids s d
  ids-stored d id f s =
      let entry = get_or s.queue_metadata d new_metadata in
      ap (λ q. (get_or q d new_metadata).frames)
        (sync-keeps (record (stored d id f s) { opcount = s.opcount + 1 })).0
      ∙ frames-put s.queue_metadata d
          (record entry { frames = id ∷ entry.frames; enqueued = entry.enqueued + 1 })

  frame-stored :
      (d id : String) (f : Frame) (s : Dbm)
      → get (counted limit (stored d id f s)).frame_store id ≡ some f
  frame-stored d id f s = rw (
    (sync-keeps (record (stored d id f s) { opcount = s.opcount + 1 })).1,
    get-put s.frame_store id id f,
    beq_self id,
  )

  -- What the first of two frames of an id leaves.
  abbrev fetched : String → String → List String → Dbm → Dbm
  fetched d id rest s =
      counted limit (record (popped d rest s) { frame_store = remove s.frame_store id })

  ids-fetched : (d id : String) (rest : List String) (s : Dbm) → ids (fetched d id rest s) d ≡ rest
  ids-fetched d id rest s =
      let entry = get_or s.queue_metadata d new_metadata in
      let after : Dbm = record (popped d rest s) {
        frame_store = remove s.frame_store id;
        opcount = s.opcount + 1;
      } in
      ap (λ q. (get_or q d new_metadata).frames) (sync-keeps after).0
      ∙ frames-put s.queue_metadata d
          (record entry { frames = rest; dequeued = entry.dequeued + 1 })

  frame-fetched :
      (d id : String) (rest : List String) (s : Dbm)
      → get (fetched d id rest s).frame_store id ≡ none
  frame-fetched d id rest s = rw (
    (sync-keeps (record (popped d rest s) {
      frame_store = remove s.frame_store id;
      opcount = s.opcount + 1;
    })).1,
    get-remove s.frame_store id id,
    beq_self id,
  )

  -- Two frames of one id wait in a queue that has no others.
  dequeue_twice :
      (d id : String) (g : Frame) (s : Dbm)
      → ids s d ≡ id ∷ id ∷ []
      → get s.frame_store id ≡ some g
      → ((dequeue limit d s).0 ≡ ok (some g))
        × ((dequeue limit d (dequeue limit d s).1).0 ≡ err (key_error id))
  unfolding pop
  dequeue_twice d id g s both held =
      let after : Dbm = fetched d id (id ∷ []) s in
      let left = ids-fetched d id (id ∷ []) s in
      let once =
        dequeue-fetch d id (id ∷ []) s (rw both) (rw both)
        ∙ fetch-found id g (popped d (id ∷ []) s) held in
      let again =
        dequeue-fetch d id [] after (rw left) (rw left)
        ∙ fetch-missing id (popped d [] after) (frame-fetched d id (id ∷ []) s) in
      rw once (refl, rw again)

  -- Two messages of one id that come into a queue without frames: the first `dequeue` returns the second
  -- of them, the next one raises a KeyError, and the first message is lost.
  pub same_id_lost :
      (d id : String) (f g : Frame) (s : Dbm)
      → header f "message-id" ≡ some id
      → header g "message-id" ≡ some id
      → is_truthy (some id) ≡ true
      → ids s d ≡ []
      → (both : Dbm) × ((enqueue limit d g (enqueue limit d f s).1).1 ≡ both)
        × ((dequeue limit d both).0 ≡ ok (some g))
        × ((dequeue limit d (dequeue limit d both).1).0 ≡ err (key_error id))
  same_id_lost d id f g s at_f at_g truthy empty =
      let first : Dbm = counted limit (stored d id f s) in
      let both : Dbm = counted limit (stored d id g first) in
      let (one, two) =
        dequeue_twice d id g both
          (ids-stored d id g first
            ∙ ap (λ l. id ∷ l) (ids-stored d id f s ∙ ap (λ l. id ∷ l) empty))
          (frame-stored d id g first) in
      (
        both,
        rw (enqueue-stored d id f s at_f truthy, enqueue-stored d id g first at_g truthy),
        one,
        two,
      )
