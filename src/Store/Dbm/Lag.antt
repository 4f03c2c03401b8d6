-- ===== src/Store/Dbm/Lag.antt =====
-- How far the metadata on the disk are behind in DbmQueue (coilmq/store/dbm.py).
use coilmq.Prelude.{
  ℕ, ◌+◌, ◌≤◌, String, ◌≡◌, refl, ap, sym, ◌∙◌, arith, Option, none, some, List, ok, err, Result,
  string_equality, ◌==◌, Bool-cases, Option-cases, ◌⊎◌, inl, inr, ltb,
}
use coilmq.Dict.{Dict, get, put, remove, get_or}
use coilmq.Dict.Laws.{get-put}
use coilmq.Text.{is_truthy}
use coilmq.Frame.{Frame, Error, header}
use coilmq.Store.Memory.{pop}
use coilmq.Store.Dbm.{
  Dbm, Metadata, Checkpoint, new_metadata, sync, synced, enqueue, dequeue, fetch, taken,
  holds_frames, with_entry,
}
use coilmq.Store.Dbm.Laws.{
  fetch-found, fetch-missing, stored, enqueue-stored, enqueue-unnamed, popped,
}

pub data Operation : Type 0 where
  enqueues : String → Frame → Operation
  dequeues : String → Operation

-- Whether a call stored or took a frame.
abbrev pub stored_one : Result Error (Unit {0}) → ℕ
stored_one (ok u) = 1
stored_one (err e) = 0

abbrev pub took_one : Result Error (Option Frame) → ℕ
took_one (ok (some frame)) = 1
took_one (ok none) = 0
took_one (err e) = 0

module _ (limit : Checkpoint) where
  abbrev pub after : Operation → Dbm → Dbm
  after (enqueues d f) s = (enqueue limit d f s).1
  after (dequeues d) s = (dequeue limit d s).1

  abbrev pub moved : Operation → Dbm → ℕ
  moved (enqueues d f) s = stored_one (enqueue limit d f s).0
  moved (dequeues d) s = took_one (dequeue limit d s).0

  -- From `s` the operations lead to another state; `n` of them stored or took a frame.
  pub data Run (s : Dbm) : Dbm → ℕ → Type 0 where
    no_operation : Run s s 0
    and_then : {t : Dbm} {n : ℕ} → Run s t n → (o : Operation) → Run s (after o t) (n + moved o t)

  -- The entry of every destination on the disk is the one that `c` has in memory.
  abbrev pub Saves : Dbm → Dict String Metadata → Type 0
  Saves c disk = (d : String) → get_or disk d new_metadata ≡ get_or c.queue_metadata d new_metadata

  -- What is not in memory is not on the disk.
  abbrev Covers : Dict String Metadata → Dict String Metadata → Type 0
  Covers metadata disk =
      (d : String) → get metadata d ≡ none → get_or disk d new_metadata ≡ new_metadata

  record Behind (c : Dbm) (m : ℕ) (s : Dbm) : Type 0 where
    counts : m ≡ s.opcount
    within : s.opcount ≤ limit.operations
    saves : Saves c s.disk
    covers : Covers s.queue_metadata s.disk

  none-get_or :
      (q : Dict String Metadata) (d : String)
      → get q d ≡ none
      → get_or q d new_metadata ≡ new_metadata
  none-get_or q d e = rw e refl

  -- The last checkpoint is an earlier state, or this one.
  abbrev Lags : Dbm → ℕ → Dbm → Type 0
  Lags c m s = Behind c m s ⊎ Behind s 0 s

  synced-Behind : (s : Dbm) → Behind (synced limit s) 0 (synced limit s)
  synced-Behind s = record {
    counts = refl;
    within = omega arith;
    saves = λ d. refl;
    covers = none-get_or s.queue_metadata;
  }

  -- An operation was counted, and _sync follows.
  sync-Lags :
      (c : Dbm) (m : ℕ) (s : Dbm)
      → m ≡ s.opcount
      → Saves c s.disk
      → Covers s.queue_metadata s.disk
      → Lags c m (sync limit s)
  unfolding sync
  sync-Lags c m s counts saves covers = elim (Bool-cases (ltb limit.operations s.opcount)) [
    | inl many ↦ rw many (inr (synced-Behind s))
    | inr few ↦ elim (Bool-cases (ltb (s.last_sync + limit.timeout) (limit.now s.reads))) [
      | inl late ↦ rw (few, late) (inr (synced-Behind (record s { reads = s.reads + 1 })))
      | inr soon ↦
          rw (few, soon)
            (inl
              (record { counts = counts; within = ground arith; saves = saves; covers = covers }))
    ]
  ]

  Covers-put :
      (metadata disk : Dict String Metadata) (d : String) (entry : Metadata)
      → Covers metadata disk
      → Covers (put metadata d entry) disk
  Covers-put metadata disk d entry covers x e =
      covers x (ground (arith, get-put metadata d x entry))

  -- The entry that is written for a destination without one is the one that a missing entry stands for.
  with_entry-get_or :
      (s : Dbm) (d x : String)
      → Covers s.queue_metadata s.disk
      → get_or (with_entry limit s d) x new_metadata ≡ get_or s.disk x new_metadata
  with_entry-get_or s d x covers = elim (Option-cases (get s.queue_metadata d)) [
    | inr (entry, there) ↦ rw there refl
    | inl missing ↦ rw missing (elim (Bool-cases (d == x)) [
      | inl same ↦
          rw (get-put s.disk d x new_metadata, same)
            (sym (
              ap (λ y. get_or s.disk y new_metadata) (sym ((string_equality.test_iff d x).1 same))
              ∙ covers d missing))
      | inr other ↦ rw (get-put s.disk d x new_metadata, other) refl
    ])
  ]

  uncounted : (c : Dbm) (m : ℕ) (s : Dbm) → Behind c m s → Behind c (m + 0) s
  uncounted c m s b = record {
    counts = ground (arith, b.counts);
    within = b.within;
    saves = b.saves;
    covers = b.covers;
  }

  enqueue-Lags :
      (c : Dbm) (m : ℕ) (s : Dbm) (d : String) (f : Frame)
      → Behind c m s
      → Lags c (m + stored_one (enqueue limit d f s).0) (enqueue limit d f s).1
  enqueue-Lags c m s d f b = elim (Bool-cases (is_truthy (header f "message-id"))) [
    | inl named ↦ elim (Option-cases (header f "message-id")) [
      | inl missing ↦ absurd (ground arith)
      | inr (id, at) ↦ rw (enqueue-stored limit d id f s at (ground arith)) (
          sync-Lags c (m + 1) (record (stored limit d id f s) { opcount = s.opcount + 1 })
            (ap (λ n. n + 1) b.counts) (λ x. with_entry-get_or s d x b.covers ∙ b.saves x)
            (λ x e.
              with_entry-get_or s d x b.covers
              ∙ Covers-put s.queue_metadata s.disk d _ b.covers x e))
    ]
    | inr unnamed ↦ rw (enqueue-unnamed limit d f s unnamed) (inl (uncounted c m s b))
  ]

  popped-Behind :
      (c : Dbm) (m : ℕ) (s : Dbm) (d : String) (rest : List String)
      → Behind c m s
      → Behind c m (popped limit d rest s)
  popped-Behind c m s d rest b = record {
    counts = b.counts;
    within = b.within;
    saves = b.saves;
    covers = Covers-put s.queue_metadata s.disk d _ b.covers;
  }

  fetch-Lags :
      (c : Dbm) (m : ℕ) (s : Dbm) (id : String)
      → Behind c m s
      → Lags c (m + took_one (fetch limit id s).0) (fetch limit id s).1
  fetch-Lags c m s id b = elim (Option-cases (get s.frame_store id)) [
    | inl missing ↦ rw (fetch-missing limit id s missing) (inl (uncounted c m s b))
    | inr (f, found) ↦ rw (fetch-found limit id f s found) (
        sync-Lags c (m + 1)
          (record s { frame_store = remove s.frame_store id; opcount = s.opcount + 1 })
          (ap (λ n. n + 1) b.counts) b.saves b.covers)
  ]

  taken-Lags :
      (c : Dbm) (m : ℕ) (s : Dbm) (d : String) (o : Option (String × List String))
      → Behind c m s
      → Lags c (m + took_one (taken limit d o s).0) (taken limit d o s).1
  taken-Lags c m s d none b = inl (uncounted c m s b)
  taken-Lags c m s d (some (id, rest)) b =
      fetch-Lags c m (popped limit d rest s) id (popped-Behind c m s d rest b)

  dequeue-Lags :
      (c : Dbm) (m : ℕ) (s : Dbm) (d : String)
      → Behind c m s
      → Lags c (m + took_one (dequeue limit d s).0) (dequeue limit d s).1
  unfolding dequeue
  dequeue-Lags c m s d b = elim (Bool-cases (holds_frames s.queue_metadata d)) [
    | inl held ↦
        rw held (taken-Lags c m s d (pop (get_or s.queue_metadata d new_metadata).frames) b)
    | inr nothing ↦ rw nothing (inl (uncounted c m s b))
  ]

  after-Lags :
      (c : Dbm) (m : ℕ) (s : Dbm) (o : Operation)
      → Behind c m s
      → Lags c (m + moved o s) (after o s)
  after-Lags c m s (enqueues d f) b = enqueue-Lags c m s d f b
  after-Lags c m s (dequeues d) b = dequeue-Lags c m s d b

  -- A state between `s` and `t` that `t` lags behind.
  abbrev Since : Dbm → Dbm → Type 0
  Since s t = (c : Dbm) × (k : ℕ) × (m : ℕ) × Run s c k × Run c t m × Behind c m t

  next-Since : (s t : Dbm) (n : ℕ) (o : Operation) → Run s t n → Since s t → Since s (after o t)
  next-Since s t n o run (c, k, m, before, recent, b) = elim (after-Lags c m t o b) [
    | inl later ↦ (c, k, m + moved o t, before, and_then recent o, later)
    | inr saved ↦ (after o t, n + moved o t, 0, and_then run o, no_operation, saved)
  ]

  Run-Since : (s t : Dbm) (n : ℕ) → s.opcount ≡ 0 → Saves s s.disk → Run s t n → Since s t
  Run-Since s t n fresh saved no_operation = (
    s,
    0,
    0,
    no_operation,
    no_operation,
    record {
      counts = sym fresh;
      within = omega (arith, fresh);
      saves = saved;
      covers = λ d e. saved d ∙ none-get_or s.queue_metadata d e;
    },
  )
  Run-Since s t n fresh saved (and_then {t = u} {n = k} run o) =
      next-Since s u k o run (Run-Since s u k fresh saved run)

  -- A store is opened, so that the disk has its metadata and nothing is counted, and then any
  -- messages are enqueued and dequeued, calls that raise included. What the disk has of the metadata
  -- at the end, every destination's ids and counts, is what they were in memory at some moment of
  -- this run, since which at most `checkpoint_operations` calls stored or took a message.
  pub disk_lags :
      (s t : Dbm) (n : ℕ)
      → s.opcount ≡ 0
      → Saves s s.disk
      → Run s t n
      → (c : Dbm) × (k : ℕ) × (m : ℕ) × Run s c k
        × Run c t m
        × (m ≤ limit.operations)
        × Saves c t.disk
  disk_lags s t n fresh saved run =
      let (c, k, m, before, recent, b) = Run-Since s t n fresh saved run in
      (c, k, m, before, recent, ground (arith, b.counts, b.within), b.saves)
