-- ===== src/Store/Redis.antt =====
-- RedisQueueStore of coilmq/store/rds.py. The redis client and pickle are parameters.
pub mod Laws
use coilmq.Prelude.{
  ℕ, ◌+◌, String, Bool, true, false, not, Option, none, some, List, [], ◌∷◌, Exec, ok, err, Result,
  pure, raise, ◌>>=◌, ◌>>◌, is_empty, ltb, if◌then◌else◌,
}
use coilmq.Frame.{Frame, Error, value_error}
use coilmq.Store.Interface.{QueueStore, no_close}

-- `redis.Redis` on its database, and `pickle` with its byte strings: their truth value, and `loads`, which
-- is none where it raises.
pub record Backend : Type 1 where
  pub Database : Type 0
  pub Item : Type 0
  pub rpush : String → Item → Database → Database
  pub lpop : String → Database → Option Item × Database
  pub llen : String → Database → ℕ
  pub keys : Database → List String
  pub dumps : Frame → Item
  pub is_true : Item → Bool
  pub loads : Item → Option Frame

module _ (β : Backend) where
  abbrev pub Method : Type 0 → Type 0
  Method A = Exec Error β.Database A

  unfoldable pub enqueue : String → Frame → Method (Unit {0})
  enqueue destination frame s = (ok tt, β.rpush destination (β.dumps frame) s)

  -- pickle.loads(item)
  abbrev pub unpickled : Option Frame → Method (Option Frame)
  unpickled none = raise value_error
  unpickled (some frame) = pure (some frame)

  -- `if item`
  abbrev pub with_item : Option β.Item → Method (Option Frame)
  with_item none = pure none
  with_item (some item) = if β.is_true item then unpickled (β.loads item) else pure none

  unfoldable pub dequeue : String → Method (Option Frame)
  dequeue destination s = let (item, s') = β.lpop destination s in with_item item s'

  unfoldable pub requeue : String → Frame → Method (Unit {0})
  requeue destination frame = enqueue destination frame

  unfoldable pub size : String → Method ℕ
  size destination s = (ok (β.llen destination s), s)

  unfoldable pub has_frames : String → Method Bool
  has_frames destination = do n ← size destination; pure (ltb 0 n)

  unfoldable pub destinations : β.Database → List String
  destinations s = β.keys s

  abbrev pub redis_queue : QueueStore
  redis_queue = record {
    State = β.Database;
    enqueue = enqueue;
    dequeue = dequeue;
    requeue = requeue;
    size = size;
    has_frames = has_frames;
    destinations = destinations;
    close = no_close;
    rounds = λ s d. β.llen d s + 1;
  }
