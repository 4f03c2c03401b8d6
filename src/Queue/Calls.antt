-- ===== src/Queue/Calls.antt =====
-- Every public method of QueueManager (coilmq/queue.py) keeps the invariant of Filed.
use mathlib.Core.Path.{subst}
use coilmq.Prelude.{
  ℕ, String, ◌≡◌, refl, ap, sym, ◌∙◌, Bool, true, false, Option, none, some, List, [], ◌∷◌, Result,
  ok, err, modify, continue, raise, nat_equality, string_equality, if◌then◌else◌, Bool-cases, inl,
  inr, is_empty,
}
use coilmq.Prelude.Triple.{Gives, Any, Triple-pure, Triple-raise, Triple-bind, Triple-if}
use coilmq.Dict.{Dict, get, put, remove, add, get_or, set_default, or_else, keys, discard}
use coilmq.Dict.Laws.{IsDict, get-put, put-IsDict, remove-IsDict}
use coilmq.Text.{is_truthy}
use coilmq.Frame.{Frame, Error, header, no_destination}
use coilmq.Host.{Host, is_reliable, random_draw}
use coilmq.Store.Interface.{FifoLaws}
use coilmq.Queue.State.{
  Setup, State, Method, on_store, stamp, leave, leave_all, same_id, append_acked,
}
use coilmq.Queue.Methods.{
  subscribe, unsubscribe, disconnect, send_to, send, ack, send_each, resend_transaction_frames,
  clear_transaction_frames, subscriber_count, requeue_pending, or_assert, eligible_subscribers,
  acknowledge, note_ack, unexpected_ack, count_at,
}
use coilmq.Queue.Backlog.{deliver}
use coilmq.Queue.Filed.{
  IsMessage, Filed, Safe, gets-Filed, on_host-Filed, enqueue-Filed, requeue-Filed,
  drop_pending-Filed, queues-Filed, acked-Filed,
}
use coilmq.Queue.Filing.{host-Safe, deliver-Safe, send_backlog-Safe}

if-IsDict :
    (b : Bool) (x y : Dict String (List ℕ)) → IsDict x → IsDict y → IsDict (if b then x else y)
if-IsDict true x y u v = u
if-IsDict false x y u v = v

leave-IsDict : (c : ℕ) (d : String) (qs : Dict String (List ℕ)) → IsDict qs → IsDict (leave c d qs)
unfolding leave
leave-IsDict c d qs u =
    let rest = discard c (get_or qs d []) in
    if-IsDict (is_empty rest) (remove qs d) (put qs d rest) (remove-IsDict qs d u)
      (put-IsDict qs d rest u)

leave_all-IsDict :
    (c : ℕ) (ds : List String) (qs : Dict String (List ℕ)) → IsDict qs → IsDict (leave_all c ds qs)
unfolding leave_all
leave_all-IsDict c [] qs u = u
leave_all-IsDict c (d ∷ ds) qs u = leave_all-IsDict c ds (leave c d qs) (leave-IsDict c d qs u)

module _ (σ : Setup) (fifo : FifoLaws σ.store) where
  stamp-IsMessage :
      (d : String) (f : Frame) (h : Host)
      → header f "destination" ≡ some d
      → is_truthy (some d) ≡ true
      → Gives (IsMessage d) (stamp σ.env f h).0
  unfolding stamp
  stamp-IsMessage d f h named proper = record {
    command = refl;
    named =
        get-put f.headers "message-id" "destination"
          (or_else (get f.headers "message-id") (σ.env.uuid h.uuids))
        ∙ named;
    proper = proper;
    id = or_else (get f.headers "message-id") (σ.env.uuid h.uuids);
    identified =
        get-put f.headers "message-id" "message-id"
          (or_else (get f.headers "message-id") (σ.env.uuid h.uuids));
  }

  pub subscribe-Safe : (c : ℕ) (d : String) → Safe σ fifo (subscribe σ c d) Any
  unfolding subscribe
  subscribe-Safe c d =
      Triple-bind
        (queues-Filed σ fifo (λ q. put q.queues d (add c (get_or q.queues d [])))
          (λ q u. put-IsDict q.queues d (add c (get_or q.queues d [])) u))
        (λ _ _. send_backlog-Safe σ fifo c (some d))

  pub unsubscribe-Safe : (c : ℕ) (d : String) → Safe σ fifo (unsubscribe σ c d) Any
  unfolding unsubscribe
  unsubscribe-Safe c d =
      queues-Filed σ fifo (λ q. leave c d q.queues) (λ q u. leave-IsDict c d q.queues u)

  pub clear-Safe : (c : ℕ) (t : String) → Safe σ fifo (clear_transaction_frames σ c t) Any
  unfolding clear_transaction_frames
  clear-Safe c t =
      acked-Filed σ fifo
        (λ q. put q.transaction_frames c (remove (get_or q.transaction_frames c []) t))

  assert-Safe :
      (o : Option ℕ) (body : ℕ → Method σ (Unit {0}))
      → ((c : ℕ) → Safe σ fifo (body c) Any)
      → Safe σ fifo (or_assert σ o body) Any
  assert-Safe none body each = Triple-raise
  assert-Safe (some c) body each = each c

  send_to-Safe :
      (d : String) (f : Frame)
      → header f "destination" ≡ some d
      → is_truthy (some d) ≡ true
      → Safe σ fifo (send_to σ d f) Any
  unfolding send_to
  send_to-Safe d f named proper =
      Triple-bind
        (on_host-Filed σ fifo (stamp σ.env f) (IsMessage d)
          (λ h. stamp-IsMessage d f h named proper))
        (λ message m.
          Triple-bind (gets-Filed σ fifo (λ q. eligible_subscribers σ q d)) (λ subscribers _.
            Triple-bind
              (queues-Filed σ fifo (λ q. set_default q.queues d [])
                (λ q u. put-IsDict q.queues d (get_or q.queues d []) u))
              (λ _ _. Triple-if (is_empty subscribers) (enqueue-Filed σ fifo d message m) (
                Triple-bind (host-Safe σ fifo (random_draw σ.env)) (λ n _.
                  Triple-bind (gets-Filed σ fifo (λ q. is_reliable q.host)) (λ reliable _.
                    assert-Safe (σ.subscriber_scheduler n reliable subscribers message)
                      (λ selected. deliver σ selected message)
                      (λ c. deliver-Safe σ fifo c d message m)))))))

  send_if-Safe :
      (f : Frame) (o : Option String)
      → header f "destination" ≡ o
      → Safe σ fifo (if is_truthy o then send_to σ (or_else o "") f else raise no_destination) Any
  send_if-Safe f none e = Triple-raise
  send_if-Safe f (some d) e = elim (Bool-cases (is_truthy (some d))) [
    | inl proper ↦
        subst (λ b. Safe σ fifo (if b then send_to σ d f else raise no_destination) Any)
          (sym proper) (send_to-Safe d f e proper)
    | inr empty ↦
        subst (λ b. Safe σ fifo (if b then send_to σ d f else raise no_destination) Any) (sym empty)
          Triple-raise
  ]

  pub send-Safe : (f : Frame) → Safe σ fifo (send σ f) Any
  unfolding send
  send-Safe f = send_if-Safe f (header f "destination") refl

  send_each-Safe : (fs : List Frame) → Safe σ fifo (send_each σ fs) Any
  unfolding send_each
  send_each-Safe [] = Triple-pure tt
  send_each-Safe (f ∷ fs) = Triple-bind (send-Safe f) (λ _ _. send_each-Safe fs)

  pub resend-Safe : (c : ℕ) (t : String) → Safe σ fifo (resend_transaction_frames σ c t) Any
  unfolding resend_transaction_frames
  resend-Safe c t =
      Triple-bind (gets-Filed σ fifo (λ q. get_or (get_or q.transaction_frames c []) t []))
        (λ acked _.
          Triple-bind
            (acked-Filed σ fifo (λ q.
              put q.transaction_frames c (set_default (get_or q.transaction_frames c []) t [])))
            (λ _ _. send_each-Safe acked))

  note_ack-Safe : (c : ℕ) (o : Option String) (f : Frame) → Safe σ fifo (note_ack σ c o f) Any
  note_ack-Safe c none f = Triple-pure tt
  note_ack-Safe c (some t) f = acked-Filed σ fifo (λ q. append_acked c t f q.transaction_frames)

  -- The first line of `unexpected_ack` raises.
  unexpected_ack-Safe : (f g : Frame) → Safe σ fifo (unexpected_ack σ f g) Any
  unfolding unexpected_ack
  unexpected_ack-Safe f g = record { run = λ q h. (h, tt) }

  acknowledge-Safe :
      (c : ℕ) (f : Frame) (t : Option String) (o : Option Frame)
      → Safe σ fifo (acknowledge σ c f t o) Any
  acknowledge-Safe c f t none = Triple-pure tt
  acknowledge-Safe c f t (some waiting) =
      Triple-bind
        (Triple-if (same_id (header waiting "message-id") (header f "message-id")) (Triple-pure tt)
          (unexpected_ack-Safe waiting f))
        (λ _ _. Triple-bind (note_ack-Safe c t waiting) (λ _ _.
          Triple-bind (drop_pending-Filed σ fifo c) (λ _ _. send_backlog-Safe σ fifo c none)))

  pub ack-Safe : (c : ℕ) (f : Frame) (t : Option String) → Safe σ fifo (ack σ c f t) Any
  unfolding ack
  ack-Safe c f t =
      Triple-bind (gets-Filed σ fifo (λ q. get q.pending c))
        (λ waiting _. acknowledge-Safe c f t waiting)

  count_at-Filed :
      (o : Option String) (q : State σ) → Filed σ fifo q → Filed σ fifo (count_at σ o q).1
  count_at-Filed none q h = h
  count_at-Filed (some d) q h = record {
    subscribed = put-IsDict q.queues d (get_or q.queues d []) h.subscribed;
    waiting = h.waiting;
    unacknowledged = h.unacknowledged;
  }

  pub subscriber_count-Safe : (o : Option String) → Safe σ fifo (subscriber_count σ o) Any
  unfolding subscriber_count
  subscriber_count-Safe o = record {
    run = λ q h. (count_at-Filed (if is_truthy o then o else none) q h, tt);
  }

  -- The pending frame is a message for the destination to which it goes back.
  requeue_pending-Safe :
      (c : ℕ) (q : State σ) (o : Option Frame)
      → get q.pending c ≡ o
      → Filed σ fifo q
      → Filed σ fifo (requeue_pending σ c o q).1
  requeue_pending-Safe c q none e h = h
  requeue_pending-Safe c q (some f) e h =
      let (d, m) = h.unacknowledged c f e in
      let back : Safe σ fifo (requeue_pending σ c (some f)) Any =
        Triple-bind
          (subst (λ x. Safe σ fifo (on_store σ (σ.store.requeue x f)) Any)
            (sym (ap (λ o. or_else o "") m.named)) (requeue-Filed σ fifo d f m))
          (λ _ _. drop_pending-Filed σ fifo c) in
      (back.run q h).0

  after_returned :
      (c : ℕ) (o : Result Error (Unit {0}) × State σ)
      → Filed σ fifo o.1
      → Filed σ fifo
          (continue
            (λ _. modify (λ q. record q { queues = leave_all c (keys q.queues) q.queues }))
            o).1
  after_returned c (ok _, q) h =
      ((queues-Filed σ fifo (λ q. leave_all c (keys q.queues) q.queues)
          (λ q u. leave_all-IsDict c (keys q.queues) q.queues u)).run
        q h).0
  after_returned c (err x, q) h = h

  -- disconnect: the pending frame goes back first.
  pub disconnect-Filed : (c : ℕ) (q : State σ) → Filed σ fifo q → Filed σ fifo (disconnect σ c q).1
  unfolding disconnect
  disconnect-Filed c q h =
      after_returned c (requeue_pending σ c (get q.pending c) q)
        (requeue_pending-Safe c q (get q.pending c) refl h)
