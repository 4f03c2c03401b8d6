-- ===== src/Queue/Subscribe.antt =====
-- `subscribe` of QueueManager (coilmq/queue.py): the backlog that a new subscriber gets.
use coilmq.Prelude.{
  ℕ, String, ◌≡◌, refl, ◌∙◌, true, false, ◌&&◌, ◌||◌, some, List, [], ◌∷◌, ◌++◌, map, ok, err,
  arith, eq_iff, nat_equality, string_equality, ◌==◌, if◌then◌else◌,
}
use coilmq.Dict.{get, put, has, get_or, add}
use coilmq.Dict.Laws.{get-put, contains-add, beq_self}
use coilmq.Frame.{Frame, has_pending_frame}
use coilmq.Host.{is_reliable}
use coilmq.Store.Interface.{FifoLaws}
use coilmq.Queue.State.{Setup, State}
use coilmq.Queue.Backlog.{deliver_or_requeue, drain, send_backlog_of, send_backlog}
use coilmq.Queue.Methods.{subscribe}
use coilmq.Queue.Deliver.{
  after_accepted, get-tracked, messages-tracked, deliver_accepted, deliver_waiting,
}
use coilmq.Queue.Drain.{
  taken, drain_all, deliver_or_requeue_done, deliver_or_requeue_failed, contents-taken,
}
use coilmq.Queue.Leave.{is_member}

module _ (σ : Setup) where
  -- The state with `c` among the subscribers of `d`.
  abbrev pub joined : ℕ → String → State σ → State σ
  joined c d q = record q { queues = put q.queues d (add c (get_or q.queues d [])) }

  is_member-joined :
      (c : ℕ) (d : String) (q : State σ) (e : String) (x : ℕ)
      → is_member (joined c d q).queues e x ≡ (d == e && c == x || is_member q.queues e x)
  is_member-joined c d q e x = ground (
    arith,
    get-put q.queues d e (add c (get_or q.queues d [])),
    contains-add c x (get_or q.queues d []),
    eq_iff d e,
  )

  pub subscribe-backlog :
      (c : ℕ) (d : String) (q : State σ) → subscribe σ c d q ≡ send_backlog_of σ c d (joined c d q)
  unfolding subscribe send_backlog
  subscribe-backlog c d q = refl

  backlog-drain :
      (c : ℕ) (d : String) (q : State σ)
      → is_reliable q.host c ≡ false
      → send_backlog_of σ c d q ≡ drain σ (σ.store.rounds q.messages d) c d q
  unfolding send_backlog_of
  backlog-drain c d q plain = rw plain

module _ (σ : Setup) (fifo : FifoLaws σ.store) where
  pub backlog-deliver :
      (c : ℕ) (d : String) (q : State σ) (f : Frame) (l : List Frame)
      → is_reliable q.host c ≡ true
      → fifo.contents q.messages d ≡ f ∷ l
      → send_backlog_of σ c d q ≡ deliver_or_requeue σ c d f (taken σ d q)
  unfolding send_backlog_of
  backlog-deliver c d q f l r e = ground (arith, fifo.dequeue_head d q.messages)

  -- With a lawful store, an unreliable connection that subscribes, and accepts, gets the whole
  -- backlog of the destination in order, and the queue of that destination is empty then; other
  -- queues keep their messages, the pending frames stay, and no subscription but the new one comes
  -- or goes.
  pub subscribe_drains :
      (c : ℕ) (d : String) (q : State σ)
      → is_reliable q.host c ≡ false
      → ((n : ℕ) (f : Frame) → σ.env.delivers n c f ≡ true)
      → ((subscribe σ c d q).0 ≡ ok tt)
        × ((subscribe σ c d q).1.host.sent
            ≡ q.host.sent ++ map (λ f. (c, f)) (fifo.contents q.messages d))
        × ((x : String)
            → fifo.contents (subscribe σ c d q).1.messages x
              ≡ (if d == x then [] else fifo.contents q.messages x))
        × ((subscribe σ c d q).1.pending ≡ q.pending)
        × ((e : String) (x : ℕ)
            → is_member (subscribe σ c d q).1.queues e x
              ≡ (d == e && c == x || is_member q.queues e x))
  subscribe_drains c d q plain up =
      let (done, sent, left, waiting, subscribed) =
        drain_all σ fifo (σ.store.rounds q.messages d) c d (fifo.contents q.messages d)
          (joined σ c d q) refl (fifo.length-lt-rounds q.messages d) plain up in
      rw (subscribe-backlog σ c d q, backlog-drain σ c d (joined σ c d q) plain)
        (done, sent, left, waiting, λ e x. rw subscribed (is_member-joined σ c d q e x))

  -- With a lawful store, a reliable connection without a pending frame that subscribes, and
  -- accepts, gets the oldest message of the destination and no other; that message is pending for
  -- it and no longer queued. Other queues and other pending frames are as before.
  pub subscribe_delivers_one :
      (c : ℕ) (d : String) (q : State σ) (f : Frame) (l : List Frame)
      → is_reliable q.host c ≡ true
      → has q.pending c ≡ false
      → fifo.contents q.messages d ≡ f ∷ l
      → σ.env.delivers q.host.attempts c f ≡ true
      → ((subscribe σ c d q).0 ≡ ok tt)
        × ((subscribe σ c d q).1.host.sent ≡ q.host.sent ++ ((c, f) ∷ []))
        × ((x : String)
            → fifo.contents (subscribe σ c d q).1.messages x
              ≡ (if d == x then l else fifo.contents q.messages x))
        × ((x : ℕ)
            → get (subscribe σ c d q).1.pending x ≡ (if c == x then some f else get q.pending x))
  subscribe_delivers_one c d q f l r idle e up =
      let q' : State σ = taken σ d (joined σ c d q) in
      let whole =
        subscribe-backlog σ c d q
        ∙ backlog-deliver c d (joined σ c d q) f l r e
        ∙ deliver_or_requeue_done σ fifo c d f q' (after_accepted σ c f q')
            (deliver_accepted σ c f q' (ground arith) up) in
      rw whole (
        refl,
        refl,
        λ x. ground (arith, messages-tracked c f q', contents-taken σ fifo d (f ∷ l) q x e),
        λ x. ground (arith, get-tracked c f q' x),
      )

  -- A reliable connection that already has a pending frame and subscribes to a destination with a
  -- backlog is subscribed, but the call raises, and the oldest message of the backlog has become its
  -- newest; nothing is delivered.
  pub subscribe_while_pending :
      (c : ℕ) (d : String) (q : State σ) (f : Frame) (l : List Frame)
      → is_reliable q.host c ≡ true
      → has q.pending c ≡ true
      → fifo.contents q.messages d ≡ f ∷ l
      → ((subscribe σ c d q).0 ≡ err has_pending_frame)
        × (fifo.contents (subscribe σ c d q).1.messages d ≡ l ++ (f ∷ []))
        × ((subscribe σ c d q).1.host.sent ≡ q.host.sent)
        × ((subscribe σ c d q).1.pending ≡ q.pending)
        × (is_member (subscribe σ c d q).1.queues d c ≡ true)
  subscribe_while_pending c d q f l r busy e =
      let q' : State σ = taken σ d (joined σ c d q) in
      let whole =
        subscribe-backlog σ c d q
        ∙ backlog-deliver c d (joined σ c d q) f l r e
        ∙ deliver_or_requeue_failed σ fifo c d f q' q' has_pending_frame
            (deliver_waiting σ c f q' (ground arith)) in
      rw whole (
        refl,
        ground (
          arith,
          fifo.contents-enqueue d f q'.messages d,
          contents-taken σ fifo d (f ∷ l) q d e,
          beq_self d,
        ),
        refl,
        refl,
        ground (arith, is_member-joined σ c d q d c, beq_self d, beq_self c),
      )
