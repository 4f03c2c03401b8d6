-- ===== src/Queue/Backlog.antt =====
-- `_send_frame` and `_send_backlog` of QueueManager (coilmq/queue.py).
use coilmq.Prelude.{
  ℕ, zero, suc, String, ◌&&◌, Option, none, some, List, [], ◌∷◌, pure, raise, gets, modify, ◌>>=◌,
  ◌>>◌, catch, raise_if, nat_equality, string_equality, if◌then◌else◌,
}
use coilmq.Dict.{Dict, put, has, contains}
use coilmq.Frame.{Frame, has_pending_frame}
use coilmq.Host.{is_reliable, send_frame, random_draw}
use coilmq.Queue.State.{Setup, Method, on_store, on_host}

module _ (σ : Setup) where
  -- _send_frame
  unfoldable pub deliver : ℕ → Frame → Method σ (Unit {0})
  deliver connection frame = do
    reliable ← gets (λ q. is_reliable q.host connection)
    waiting ← gets (λ q. has q.pending connection)
    raise_if (reliable && waiting) has_pending_frame
    modify (λ q. if reliable then record q { pending = put q.pending connection frame } else q)
    on_host σ (send_frame σ.env connection frame)

  -- `try: self._send_frame(...)  except: self.store.requeue(...); raise`
  unfoldable pub deliver_or_requeue : ℕ → String → Frame → Method σ (Unit {0})
  deliver_or_requeue connection destination frame =
      catch (deliver connection frame)
        (λ x. do on_store σ (σ.store.requeue destination frame); raise x)

  abbrev pub if_frame : Option Frame → (Frame → Method σ (Unit {0})) → Method σ (Unit {0})
  if_frame none body = pure tt
  if_frame (some frame) body = body frame

  -- `for frame in self.store.frames(destination)`: a QueueFrameIterator calls `dequeue` until it
  -- returns None.
  unfoldable pub drain : ℕ → ℕ → String → Method σ (Unit {0})
  drain zero connection destination = pure tt
  drain (suc fuel) connection destination = do
    next ← on_store σ (σ.store.dequeue destination)
    if_frame next (λ frame. do
      deliver_or_requeue connection destination frame
      drain fuel connection destination)

  -- _send_backlog from the test of `reliable_subscriber` on
  unfoldable pub send_backlog_of : ℕ → String → Method σ (Unit {0})
  send_backlog_of connection destination = do
    reliable ← gets (λ q. is_reliable q.host connection)
    fuel ← gets (λ q. σ.store.rounds q.messages destination)
    if reliable
        then (do
          next ← on_store σ (σ.store.dequeue destination)
          if_frame next (deliver_or_requeue connection destination))
        else drain fuel connection destination

  -- The queues that `connection` subscribes to and that have frames.
  unfoldable pub eligible_queues : ℕ → Dict String (List ℕ) → Method σ (Dict String (List ℕ))
  eligible_queues connection [] = pure []
  eligible_queues connection ((dest, q) ∷ qs) =
      let others = eligible_queues connection qs in
      if contains connection q
      then (do
        ready ← on_store σ (σ.store.has_frames dest)
        rest ← others
        pure (if ready then (dest, q) ∷ rest else rest))
      else others

  abbrev pub if_chosen : Option String → (String → Method σ (Unit {0})) → Method σ (Unit {0})
  if_chosen none body = pure tt
  if_chosen (some destination) body = body destination

  -- _send_backlog
  unfoldable pub send_backlog : ℕ → Option String → Method σ (Unit {0})
  send_backlog connection (some destination) = send_backlog_of connection destination
  send_backlog connection none = do
    eligible ← eligible_queues connection (← gets (λ q. q.queues))
    n ← on_host σ (random_draw σ.env)
    if_chosen (σ.queue_scheduler n eligible connection) (send_backlog_of connection)
