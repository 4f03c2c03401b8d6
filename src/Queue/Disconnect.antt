-- ===== src/Queue/Disconnect.antt =====
-- `unsubscribe` and `disconnect` of QueueManager (coilmq/queue.py).
use coilmq.Prelude.{
  ℕ, String, ◌≡◌, refl, ◌∙◌, true, false, ◌&&◌, Option, none, some, List, [], ◌∷◌, ◌++◌, ok, err,
  arith, nat_equality, string_equality, ◌==◌, if◌then◌else◌, Option-cases, inl, inr,
}
use coilmq.Dict.{get, remove, has, keys, or_else}
use coilmq.Dict.Laws.{get-remove, beq_self}
use coilmq.Frame.{Frame, header, connection_error}
use coilmq.Host.{is_reliable}
use coilmq.Store.Interface.{FifoLaws}
use coilmq.Queue.State.{Setup, State, leave_all}
use coilmq.Queue.Methods.{subscribe, unsubscribe, disconnect}
use coilmq.Queue.Deliver.{tracked, after_refused, get-tracked, messages-tracked, deliver_refused}
use coilmq.Queue.Drain.{taken, put_back, contents-taken, deliver_or_requeue_failed}
use coilmq.Queue.Leave.{is_member, is_member-leave, is_member-leave_keys}
use coilmq.Queue.Subscribe.{joined, subscribe-backlog, backlog-deliver}

module _ (σ : Setup) where
  -- After `unsubscribe` the connection no longer subscribes to the destination; every other
  -- subscription stands, and messages and pending frames are as before.
  pub unsubscribe_leaves :
      (c : ℕ) (d : String) (q : State σ)
      → ((unsubscribe σ c d q).0 ≡ ok tt)
        × ((e : String) (x : ℕ)
            → is_member (unsubscribe σ c d q).1.queues e x
              ≡ (if d == e && c == x then false else is_member q.queues e x))
        × ((unsubscribe σ c d q).1.messages ≡ q.messages)
        × ((unsubscribe σ c d q).1.pending ≡ q.pending)
        × ((unsubscribe σ c d q).1.host ≡ q.host)
  unfolding unsubscribe
  unsubscribe_leaves c d q = (refl, is_member-leave c d q.queues, refl, refl, refl)

-- The queue to which `disconnect` returns a pending frame.
abbrev pub home : Frame → String
home f = or_else (header f "destination") ""

module _ (σ : Setup) (fifo : FifoLaws σ.store) where
  abbrev unbound : ℕ → State σ → State σ
  unbound c q = record q { queues = leave_all c (keys q.queues) q.queues }

  disconnect-idle :
      (c : ℕ) (q : State σ) → get q.pending c ≡ none → disconnect σ c q ≡ (ok tt, unbound c q)
  unfolding disconnect
  disconnect-idle c q idle = rw idle

  disconnect-waiting :
      (c : ℕ) (q : State σ) (f : Frame)
      → get q.pending c ≡ some f
      → disconnect σ c q
        ≡ (ok tt, unbound c (record (put_back σ (home f) f q) { pending = remove q.pending c }))
  unfolding disconnect
  disconnect-waiting c q f waiting =
      ground (
        arith,
        waiting,
        fifo.requeue_eq (home f) f q.messages,
        fifo.enqueue_ok (home f) f q.messages,
      )

  -- The messages of `x` once the pending frame, if there is one, is back in its queue.
  abbrev pub with_returned : Option Frame → List Frame → String → List Frame
  with_returned none l x = l
  with_returned (some f) l x = if home f == x then l ++ (f ∷ []) else l

  -- With a lawful store, `disconnect` always returns. The connection subscribes to nothing and has
  -- no pending frame then; the frame that it had pending is the newest of its destination's queue.
  -- All other subscriptions, pending frames and queued messages are as before, and nothing is
  -- delivered.
  pub disconnect_releases :
      (c : ℕ) (q : State σ)
      → ((disconnect σ c q).0 ≡ ok tt)
        × ((e : String) (x : ℕ)
            → is_member (disconnect σ c q).1.queues e x
              ≡ (if c == x then false else is_member q.queues e x))
        × ((x : ℕ)
            → get (disconnect σ c q).1.pending x ≡ (if c == x then none else get q.pending x))
        × ((x : String)
            → fifo.contents (disconnect σ c q).1.messages x
              ≡ with_returned (get q.pending c) (fifo.contents q.messages x) x)
        × ((disconnect σ c q).1.host ≡ q.host)
  disconnect_releases c q = elim (Option-cases (get q.pending c)) [
    | inl idle ↦
        rw (disconnect-idle c q idle)
          (refl, is_member-leave_keys c q.queues, λ x. ground (arith, idle), λ x. rw idle, refl)
    | inr (f, waiting) ↦ rw (disconnect-waiting c q f waiting) (
      refl,
      is_member-leave_keys c q.queues,
      get-remove q.pending c,
      λ x. rw waiting (fifo.contents-enqueue (home f) f q.messages x),
      refl,
    )
  ]

  -- If a reliable connection raises while its backlog is delivered, the message is put back into the
  -- queue and also stays pending, so the `disconnect` that follows puts it back once more: the
  -- message is queued twice.
  pub failed_backlog_duplicates :
      (c : ℕ) (d : String) (q : State σ) (f : Frame) (l : List Frame)
      → is_reliable q.host c ≡ true
      → has q.pending c ≡ false
      → fifo.contents q.messages d ≡ f ∷ l
      → header f "destination" ≡ some d
      → σ.env.delivers q.host.attempts c f ≡ false
      → ((subscribe σ c d q).0 ≡ err connection_error)
        × (fifo.contents (disconnect σ c (subscribe σ c d q).1).1.messages d
            ≡ l ++ (f ∷ []) ++ (f ∷ []))
  failed_backlog_duplicates c d q f l r idle e at down =
      let q' : State σ = taken σ d (joined σ c d q) in
      let whole =
        subscribe-backlog σ c d q
        ∙ backlog-deliver σ fifo c d (joined σ c d q) f l r e
        ∙ deliver_or_requeue_failed σ fifo c d f q' (after_refused σ c f q') connection_error
            (deliver_refused σ c f q' (ground arith) down) in
      let failed : State σ = put_back σ d f (after_refused σ c f q') in
      let waiting = get-tracked c f q' c in
      rw whole (
        refl,
        (disconnect_releases c failed).3 d
            ∙ ground (
              arith,
              get-tracked c f q' c,
              messages-tracked c f q',
              fifo.contents-enqueue d f (tracked c f q').messages d,
              contents-taken σ fifo d (f ∷ l) q d e,
              beq_self d,
              beq_self c,
            ),
      )
