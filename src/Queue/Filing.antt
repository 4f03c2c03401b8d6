-- ===== src/Queue/Filing.antt =====
-- Every method of QueueManager (coilmq/queue.py) keeps the invariant of Filed.
use coilmq.Prelude.{
  ℕ, zero, suc, String, ◌&&◌, Bool, Option, none, some, List, [], ◌∷◌, Exec, raise, pure, ◌>>=◌,
  nat_equality, string_equality, if◌then◌else◌,
}
use coilmq.Prelude.Triple.{
  result-Any, Any, Triple-pure, Triple-raise, Triple-raise_if, Triple-bind, Triple-if, Triple-catch,
}
use coilmq.Dict.{Dict, has, contains}
use coilmq.Frame.{Frame, Error, has_pending_frame}
use coilmq.Host.{Host, is_reliable, send_frame, random_draw}
use coilmq.Store.Interface.{FifoLaws}
use coilmq.Queue.State.{Setup, Method, on_host}
use coilmq.Queue.Backlog.{
  deliver, deliver_or_requeue, drain, send_backlog_of, eligible_queues, send_backlog, if_frame,
  if_chosen,
}
use coilmq.Queue.Filed.{
  IsMessage, MaybeMessage, Safe, gets-Filed, on_host-Filed, requeue-Filed, dequeue-Filed,
  has_frames-Filed, note_pending-Filed,
}

module _ (σ : Setup) (fifo : FifoLaws σ.store) where
  -- What the host does keeps the invariant.
  pub host-Safe : {A : Type 0} (m : Exec Error Host A) → Safe σ fifo (on_host σ m) Any
  host-Safe m = on_host-Filed σ fifo m Any (λ h. result-Any (m h).0)

  pub deliver-Safe :
      (c : ℕ) (d : String) (f : Frame) → IsMessage d f → Safe σ fifo (deliver σ c f) Any
  unfolding deliver
  deliver-Safe c d f m = Triple-bind (gets-Filed σ fifo (λ q. is_reliable q.host c)) (λ reliable _.
      Triple-bind (gets-Filed σ fifo (λ q. has q.pending c)) (λ waiting _.
        Triple-bind (Triple-raise_if (reliable && waiting) has_pending_frame) (λ _ _.
          Triple-bind (note_pending-Filed σ fifo c d f reliable m)
            (λ _ _. host-Safe (send_frame σ.env c f)))))

  pub deliver_or_requeue-Safe :
      (c : ℕ) (d : String) (f : Frame)
      → IsMessage d f
      → Safe σ fifo (deliver_or_requeue σ c d f) Any
  unfolding deliver_or_requeue
  deliver_or_requeue-Safe c d f m =
      Triple-catch (deliver-Safe c d f m)
        (λ x. Triple-bind {f = λ _. raise x} (requeue-Filed σ fifo d f m) (λ _ _. Triple-raise))

  if_frame-Safe :
      (d : String) (o : Option Frame) (body : Frame → Method σ (Unit {0}))
      → MaybeMessage d o
      → ((f : Frame) → IsMessage d f → Safe σ fifo (body f) Any)
      → Safe σ fifo (if_frame σ o body) Any
  if_frame-Safe d none body m each = Triple-pure tt
  if_frame-Safe d (some f) body m each = each f m

  drain-Safe : (fuel c : ℕ) (d : String) → Safe σ fifo (drain σ fuel c d) Any
  unfolding drain
  drain-Safe zero c d = Triple-pure tt
  drain-Safe (suc fuel) c d = Triple-bind (dequeue-Filed σ fifo d) (λ next m.
      if_frame-Safe d next _ m (λ f message.
        Triple-bind (deliver_or_requeue-Safe c d f message) (λ _ _. drain-Safe fuel c d)))

  send_backlog_of-Safe : (c : ℕ) (d : String) → Safe σ fifo (send_backlog_of σ c d) Any
  unfolding send_backlog_of
  send_backlog_of-Safe c d =
      Triple-bind (gets-Filed σ fifo (λ q. is_reliable q.host c)) (λ reliable _.
        Triple-bind (gets-Filed σ fifo (λ q. σ.store.rounds q.messages d)) (λ fuel _.
          Triple-if reliable
            (Triple-bind (dequeue-Filed σ fifo d) (λ next m.
              if_frame-Safe d next (deliver_or_requeue σ c d) m (deliver_or_requeue-Safe c d)))
            (drain-Safe fuel c d)))

  eligible_queues-Safe :
      (c : ℕ) (qs : Dict String (List ℕ)) → Safe σ fifo (eligible_queues σ c qs) Any
  unfolding eligible_queues
  eligible_queues-Safe c [] = Triple-pure tt
  eligible_queues-Safe c ((d, q) ∷ qs) =
      Triple-if (contains c q)
        (Triple-bind {f = λ ready. others >>= with_ready ready} (has_frames-Filed σ fifo d)
          (λ ready _.
            Triple-bind {f = with_ready ready} (eligible_queues-Safe c qs)
              (λ rest _. Triple-pure tt)))
        (eligible_queues-Safe c qs)
    where
      others : Method σ (Dict String (List ℕ))
      others = eligible_queues σ c qs

      with_ready : Bool → Dict String (List ℕ) → Method σ (Dict String (List ℕ))
      with_ready ready rest = pure (if ready then (d, q) ∷ rest else rest)

  if_chosen-Safe :
      (o : Option String) (body : String → Method σ (Unit {0}))
      → ((d : String) → Safe σ fifo (body d) Any)
      → Safe σ fifo (if_chosen σ o body) Any
  if_chosen-Safe none body each = Triple-pure tt
  if_chosen-Safe (some d) body each = each d

  pub send_backlog-Safe : (c : ℕ) (o : Option String) → Safe σ fifo (send_backlog σ c o) Any
  unfolding send_backlog
  send_backlog-Safe c (some d) = send_backlog_of-Safe c d
  send_backlog-Safe c none = Triple-bind (gets-Filed σ fifo (λ q. q.queues)) (λ queues _.
      Triple-bind (eligible_queues-Safe c queues) (λ eligible _.
        Triple-bind (host-Safe (random_draw σ.env)) (λ n _.
          if_chosen-Safe (σ.queue_scheduler n eligible c) (send_backlog_of σ c)
            (send_backlog_of-Safe c))))
