-- ===== src/Store/Sa.antt =====
-- SAQueue of coilmq/store/sa/__init__.py. The database is a parameter, with the statements on the table
-- `frames` (coilmq/store/sa/model.py) that the code executes.
pub mod Laws
use coilmq.Prelude.{
  ℕ, ◌+◌, String, Bool, not, Option, none, some, List, [], ◌∷◌, Exec, ok, err, Result, pure, raise,
  raise_if, gets, modify, ◌>>=◌, ◌>>◌, is_empty,
}
use coilmq.Dict.{or_else}
use coilmq.Text.{is_truthy}
use coilmq.Frame.{Frame, Error, header, value_error, database_error}
use coilmq.Store.Interface.{QueueStore, requeue_by_enqueue}

-- A row of the table, and the columns by which a select may order its rows.
pub record Row : Type 0 where
  pub message_id : String
  pub frame : Frame
  pub queued : ℕ
  pub sequence : Option ℕ

pub data Column : Type 0 where
  by_queued by_sequence : Column

-- The statements, which are none where executing them raises: an insert of a row by its message id,
-- destination and frame, the rows of a destination with an ORDER BY, the delete by the message id, the
-- count of a destination's rows and the distinct destinations.
pub record Table : Type 1 where
  pub Database : Type 0
  pub insert : String → String → Frame → Database → Option Database
  pub select : String → List Column → Database → List Row
  pub delete : String → Database → Option Database
  pub count : String → Database → ℕ
  pub distinct_destinations : Database → List String

-- A scoped session: what was committed, and what its transaction sees.
pub record Session (D : Type 0) : Type 0 where
  pub committed : D
  pub current : D

module _ (τ : Table) where
  abbrev pub Method : Type 0 → Type 0
  Method A = Exec Error (Session τ.Database) A

  -- session.commit() and session.rollback()
  abbrev pub commit : Method (Unit {0})
  commit = modify (λ s. record s { committed = s.current })

  abbrev pub rollback : Method (Unit {0})
  rollback = modify (λ s. record s { current = s.committed })

  -- session.execute(statement)
  abbrev pub executed : Option τ.Database → Method (Unit {0})
  executed none = raise database_error
  executed (some db) = modify (λ s. record s { current = db })

  unfoldable pub enqueue : String → Frame → Method (Unit {0})
  enqueue destination frame = do
    raise_if (not (is_truthy (header frame "message-id"))) value_error
    db ← gets (λ s. s.current)
    executed (τ.insert (or_else (header frame "message-id") "") destination frame db)
    commit

  -- The `try` of dequeue once there is a first row, with its `except` and its `else`.
  abbrev pub deleted : Frame → Option τ.Database → Method (Option Frame)
  deleted frame none = do rollback; raise database_error
  deleted frame (some db) = do executed (some db); commit; pure (some frame)

  abbrev pub with_first : List Row → Method (Option Frame)
  with_first [] = pure none
  with_first (first ∷ others) = do
    db ← gets (λ s. s.current)
    deleted first.frame (τ.delete first.message_id db)

  unfoldable pub dequeue : String → Method (Option Frame)
  dequeue destination = do
    found ← gets (λ s. τ.select destination (by_queued ∷ by_sequence ∷ []) s.current)
    with_first found

  unfoldable pub has_frames : String → Method Bool
  has_frames destination s = (ok (not (is_empty (τ.select destination [] s.current))), s)

  unfoldable pub size : String → Method ℕ
  size destination s = (ok (τ.count destination s.current), s)

  unfoldable pub destinations : Session τ.Database → List String
  destinations s = τ.distinct_destinations s.current

  -- meta.Session.remove(): what was not committed is gone
  unfoldable pub close : Method (Unit {0})
  close = rollback

  abbrev pub sa_queue : QueueStore
  sa_queue = record {
    State = Session τ.Database;
    enqueue = enqueue;
    dequeue = dequeue;
    requeue = requeue_by_enqueue enqueue;
    size = size;
    has_frames = has_frames;
    destinations = destinations;
    close = close;
    rounds = λ s d. τ.count d s.current + 1;
  }
