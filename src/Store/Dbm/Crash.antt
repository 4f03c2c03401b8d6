-- ===== src/Store/Dbm/Crash.antt =====
-- What DbmQueue (coilmq/store/dbm.py) finds in its files when it is made again.
use coilmq.Prelude.{
  ◌+◌, ◌≤◌, String, ◌≡◌, refl, ap, ◌∙◌, arith, false, Bool-cases, Option, none, some, List, ok, err,
  string_equality, is_empty, inl, inr,
}
use coilmq.Dict.{get, remove, get_or}
use coilmq.Dict.Laws.{get-remove, beq_self}
use coilmq.Frame.{Frame, key_error}
use coilmq.Store.Memory.{pop}
use coilmq.Store.Dbm.{
  Dbm, Checkpoint, sync, counted, fetch, dequeue, close, reopen, new_metadata, holds_frames, taken,
}
use coilmq.Store.Dbm.Laws.{ids, fetch-found, fetch-missing, dequeue-fetch, popped}

module _ (limit : Checkpoint) where
  -- The next operation makes no checkpoint.
  pub record IsEarly (s : Dbm) : Type 0 where
    pub few : s.opcount + 1 ≤ limit.operations
    pub soon : limit.now s.reads ≤ s.last_sync + limit.timeout

  counted-disk :
      (s : Dbm)
      → IsEarly s
      → ((counted limit s).disk ≡ s.disk) × ((counted limit s).frame_store ≡ s.frame_store)
  unfolding sync
  counted-disk s early = (ground (arith, early.few, early.soon), ground arith)

  -- A checkpoint was just made, and the oldest frame of a destination is dequeued, which makes no
  -- further checkpoint. If the broker ends without closing the store and is started again, then the
  -- id of that frame still waits there, but not the frame: the next `dequeue` for the destination
  -- raises a KeyError.
  pub dequeue_lost :
      (d id : String) (rest : List String) (f : Frame) (s : Dbm)
      → s.disk ≡ s.queue_metadata
      → IsEarly s
      → is_empty (ids s d) ≡ false
      → pop (ids s d) ≡ some (id, rest)
      → get s.frame_store id ≡ some f
      → ((dequeue limit d s).0 ≡ ok (some f))
        × ((dequeue limit d (reopen limit (dequeue limit d s).1)).0 ≡ err (key_error id))
  unfolding reopen
  dequeue_lost d id rest f s saved early full last held = rw once (refl, ap (λ o. o.0) again)
    where
      after : Dbm
      after = record (popped limit d rest s) { frame_store = remove s.frame_store id }

      once : dequeue limit d s ≡ (ok (some f), counted limit after)
      once =
          dequeue-fetch limit d id rest s full last
          ∙ fetch-found limit id f (popped limit d rest s) held

      restarted : Dbm
      restarted = reopen limit (counted limit after)

      kept : (counted limit after).disk ≡ s.queue_metadata
      kept = (counted-disk after (record { few = early.few; soon = early.soon })).0 ∙ saved

      same : ids restarted d ≡ ids s d
      same = ap (λ q. (get_or q d new_metadata).frames) kept

      gone : get restarted.frame_store id ≡ none
      gone =
          ap (λ q. get q id) (counted-disk after (record { few = early.few; soon = early.soon })).1
          ∙ (get-remove s.frame_store id id ∙ rw (beq_self id) refl)

      again : dequeue limit d restarted ≡ (err (key_error id), popped limit d rest restarted)
      again =
          dequeue-fetch limit d id rest restarted (ap is_empty same ∙ full) (ap pop same ∙ last)
          ∙ fetch-missing limit id (popped limit d rest restarted) gone

  fetch-result :
      (id : String) (s u : Dbm) (o : Option Frame)
      → get s.frame_store id ≡ o
      → get u.frame_store id ≡ o
      → (fetch limit id s).0 ≡ (fetch limit id u).0
  fetch-result id s u none e g = rw (fetch-missing limit id s e, fetch-missing limit id u g) refl
  fetch-result id s u (some f) e g =
      rw (fetch-found limit id f s e, fetch-found limit id f u g) refl

  taken-result :
      (d : String) (o : Option (String × List String)) (s u : Dbm)
      → s.frame_store ≡ u.frame_store
      → (taken limit d o s).0 ≡ (taken limit d o u).0
  taken-result d none s u e = refl
  taken-result d (some (id, rest)) s u e =
      fetch-result id _ _ (get u.frame_store id) (ap (λ q. get q id) e) refl

  -- A store that was closed holds the same when it is made again: for every destination, the next
  -- `dequeue` returns or raises what it would have without that.
  pub dequeue-reopen :
      (d : String) (s : Dbm)
      → (dequeue limit d (reopen limit (close s).1)).0 ≡ (dequeue limit d s).0
  unfolding dequeue close reopen
  dequeue-reopen d s = elim (Bool-cases (holds_frames s.queue_metadata d)) [
    | inl held ↦
        rw held (taken-result d (pop (get_or s.queue_metadata d new_metadata).frames) _ s refl)
    | inr nothing ↦ rw nothing refl
  ]
