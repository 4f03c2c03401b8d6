-- ===== src/Queue/Methods.antt =====
-- The public methods of QueueManager (coilmq/queue.py). Each holds one lock for its whole body, so
-- each is one step.
use coilmq.Prelude.{
  ℕ, ◌+◌, String, not, Option, none, some, List, [], ◌∷◌, keep, length, is_empty, ok, pure, raise,
  gets, modify, ◌>>=◌, ◌>>◌, nat_equality, string_equality, if◌then◌else◌,
}
use coilmq.Dict.{Dict, get, put, remove, has, get_or, set_default, or_else, keys, add}
use coilmq.Text.{is_truthy}
use coilmq.Frame.{Frame, header, no_destination, attribute_error, assertion_error}
use coilmq.Host.{is_reliable, random_draw}
use coilmq.Queue.State.{
  Setup, State, Method, on_store, on_host, leave, leave_all, stamp, same_id, append_acked,
}
use coilmq.Queue.Backlog.{deliver, send_backlog}

module _ (σ : Setup) where
  -- close: the library's schedulers have no `close`.
  unfoldable pub close : Method σ (Unit {0})
  close = on_store σ σ.store.close

  -- The sum of the sizes, for no destination or an empty one.
  unfoldable pub total : Dict String (List ℕ) → ℕ
  total [] = 0
  total ((dest, q) ∷ qs) = length q + total qs

  abbrev pub count_at : Option String → State σ → ℕ × State σ
  count_at none q = (total q.queues, q)
  count_at (some dest) q =
      (length (get_or q.queues dest []), record q { queues = set_default q.queues dest [] })

  -- The read of the defaultdict leaves an entry behind.
  unfoldable pub subscriber_count : Option String → Method σ ℕ
  unfolding total
  subscriber_count destination q =
      let (n, q') = count_at (if is_truthy destination then destination else none) q in (ok n, q')

  unfoldable pub subscribe : ℕ → String → Method σ (Unit {0})
  subscribe connection destination = do
    modify (λ q. record q {
      queues = put q.queues destination (add connection (get_or q.queues destination []));
    })
    send_backlog σ connection (some destination)

  unfoldable pub unsubscribe : ℕ → String → Method σ (Unit {0})
  unfolding leave
  unsubscribe connection destination =
      modify (λ q. record q { queues = leave connection destination q.queues })

  -- A frame without a destination would be requeued under None; every pending frame has one.
  abbrev pub requeue_pending : ℕ → Option Frame → Method σ (Unit {0})
  requeue_pending connection none = pure tt
  requeue_pending connection (some frame) = do
    on_store σ (σ.store.requeue (or_else (header frame "destination") "") frame)
    modify (λ q. record q { pending = remove q.pending connection })

  unfoldable pub disconnect : ℕ → Method σ (Unit {0})
  unfolding leave_all
  disconnect connection = do
    requeue_pending connection (← gets (λ q. get q.pending connection))
    modify (λ q. record q { queues = leave_all connection (keys q.queues) q.queues })

  abbrev pub or_assert : Option ℕ → (ℕ → Method σ (Unit {0})) → Method σ (Unit {0})
  or_assert none body = raise assertion_error
  or_assert (some connection) body = body connection

  -- `[s for s in self._queues[dest] if s not in self._pending]`
  abbrev pub eligible_subscribers : State σ → String → List ℕ
  eligible_subscribers q dest = keep (λ s. not (has q.pending s)) (get_or q.queues dest [])

  unfoldable pub send_to : String → Frame → Method σ (Unit {0})
  unfolding stamp
  send_to dest frame = do
    message ← on_host σ (stamp σ.env frame)
    subscribers ← gets (λ q. eligible_subscribers q dest)
    modify (λ q. record q { queues = set_default q.queues dest [] })
    if is_empty subscribers then on_store σ (σ.store.enqueue dest message) else (do
      n ← on_host σ (random_draw σ.env)
      reliable ← gets (λ q. is_reliable q.host)
      or_assert (σ.subscriber_scheduler n reliable subscribers message)
          (λ selected. deliver σ selected message))

  unfoldable pub send : Frame → Method σ (Unit {0})
  send message =
      let dest = header message "destination" in
      if is_truthy dest then send_to (or_else dest "") message else raise no_destination

  -- `frame.message_id` and `frame.destination`: Frame defines neither.
  abbrev pub missing_attribute : {A : Type 0} → String → Method σ A
  missing_attribute name = raise (attribute_error name)

  -- The body of `if pending message-id != frame message-id` in `ack`.
  unfoldable pub unexpected_ack : Frame → Frame → Method σ (Unit {0})
  unexpected_ack pending_frame frame = do
    missing_attribute {A = Unit {0}} "message_id"
    destination ← missing_attribute "destination"
    on_store σ (σ.store.requeue destination pending_frame)

  abbrev pub note_ack : ℕ → Option String → Frame → Method σ (Unit {0})
  note_ack connection none frame = pure tt
  note_ack connection (some t) frame =
      modify (λ q. record q {
        transaction_frames = append_acked connection t frame q.transaction_frames;
      })

  abbrev pub acknowledge : ℕ → Frame → Option String → Option Frame → Method σ (Unit {0})
  acknowledge connection frame transaction none = pure tt
  acknowledge connection frame transaction (some pending_frame) = do
    if same_id (header pending_frame "message-id") (header frame "message-id")
        then pure tt
        else unexpected_ack pending_frame frame
    note_ack connection transaction pending_frame
    modify (λ q. record q { pending = remove q.pending connection })
    send_backlog σ connection none

  unfoldable pub ack : ℕ → Frame → Option String → Method σ (Unit {0})
  unfolding unexpected_ack
  ack connection frame transaction = do
    acknowledge connection frame transaction (← gets (λ q. get q.pending connection))

  unfoldable pub send_each : List Frame → Method σ (Unit {0})
  unfolding send
  send_each [] = pure tt
  send_each (frame ∷ frames) = do send frame; send_each frames

  unfoldable pub resend_transaction_frames : ℕ → String → Method σ (Unit {0})
  resend_transaction_frames connection transaction = do
    acked ← gets (λ q. get_or (get_or q.transaction_frames connection []) transaction [])
    modify (λ q. record q {
      transaction_frames =
          put q.transaction_frames connection
            (set_default (get_or q.transaction_frames connection []) transaction []);
    })
    send_each acked

  unfoldable pub clear_transaction_frames : ℕ → String → Method σ (Unit {0})
  clear_transaction_frames connection transaction = modify (λ q. record q {
    transaction_frames =
        put q.transaction_frames connection
          (remove (get_or q.transaction_frames connection []) transaction);
  })
