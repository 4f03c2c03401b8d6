-- ===== src/Queue/Ack.antt =====
-- `ack` of QueueManager (coilmq/queue.py).
use coilmq.Prelude.{
  ℕ, String, ◌≡◌, ◌≢◌, refl, ◌∙◌, ◌⊎◌, true, false, Option, none, some, List, [], ◌∷◌, ◌++◌, ok,
  err, Result, arith, eq_iff, nat_equality, string_equality, ◌==◌, if◌then◌else◌, inl, inr,
  is_empty,
}
use coilmq.Dict.{Dict, get, remove, has}
use coilmq.Dict.Laws.{IsDict, get-remove, beq_self}
use coilmq.Frame.{Frame, Error, header, attribute_error}
use coilmq.Host.{is_reliable}
use coilmq.Queue.State.{Setup, State, same_id, append_acked}
use coilmq.Queue.Contract.{IsLawful}
use coilmq.Queue.Backlog.{send_backlog}
use coilmq.Queue.Methods.{ack}
use coilmq.Queue.Leave.{is_member}
use coilmq.Queue.Next.{Next, send_backlog-Next}

-- The test in `ack` compares the two ids.
same_id_refl : (o : Option String) → same_id o o ≡ true
same_id_refl none = refl
same_id_refl (some a) = beq_self a

same_id_self :
    (waiting f : Frame)
    → header f "message-id" ≡ header waiting "message-id"
    → same_id (header waiting "message-id") (header f "message-id") ≡ true
same_id_self waiting f same = rw same (same_id_refl (header waiting "message-id"))

same_id_ne : (o p : Option String) → p ≢ o → same_id o p ≡ false
same_id_ne none none h = absurd (h refl)
same_id_ne none (some b) h = refl
same_id_ne (some a) none h = refl
same_id_ne (some a) (some b) h = ground (arith, eq_iff a b)

module _ (σ : Setup) where
  -- An ACK whose message id is not that of the pending frame raises before it changes anything: the
  -- pending frame is neither requeued nor dropped.
  pub ack_mismatch :
      (c : ℕ) (f : Frame) (t : Option String) (q : State σ) (waiting : Frame)
      → get q.pending c ≡ some waiting
      → header f "message-id" ≢ header waiting "message-id"
      → ack σ c f t q ≡ (err (attribute_error "message_id"), q)
  unfolding ack
  ack_mismatch c f t q waiting at other =
      rw (at, same_id_ne (header waiting "message-id") (header f "message-id") other)

  abbrev noted : ℕ → Option String → Frame → State σ → Dict ℕ (Dict String (List Frame))
  noted c none f q = q.transaction_frames
  noted c (some t) f q = append_acked c t f q.transaction_frames

  -- The state in which `ack` sends the backlog.
  abbrev pub settled : ℕ → Option String → Frame → State σ → State σ
  settled c t f q = record q { transaction_frames = noted c t f q; pending = remove q.pending c }

  ack-send_backlog :
      (c : ℕ) (f : Frame) (t : Option String) (q : State σ) (waiting : Frame)
      → get q.pending c ≡ some waiting
      → same_id (header waiting "message-id") (header f "message-id") ≡ true
      → ack σ c f t q ≡ send_backlog σ c none (settled c t waiting q)
  unfolding ack
  ack-send_backlog c f none q waiting at same = rw (at, same)
  ack-send_backlog c f (some t) q waiting at same = rw (at, same)

module _ (σ : Setup) (lawful : IsLawful σ) where
  -- What an acknowledgement from `c` leaves: either `c` has no pending frame any more, and then none
  -- of the destinations that it subscribes to has a message; or it has got the oldest message of one
  -- of those, which is pending instead.
  abbrev pub GetsNext : ℕ → State σ → Result Error (Unit {0}) × State σ → Type 0
  GetsNext c q (r, q') =
      (r ≡ ok tt)
      × (((d : String)
              → is_member q.queues d c ≡ true
              → is_empty (lawful.fifo.contents q.messages d) ≡ true)
            × (q'.host.sent ≡ q.host.sent)
            × ((x : String)
                → lawful.fifo.contents q'.messages x ≡ lawful.fifo.contents q.messages x)
            × ((x : ℕ) → get q'.pending x ≡ (if c == x then none else get q.pending x))
          ⊎ ((d : String) × (f : Frame) × (l : List Frame) × (is_member q.queues d c ≡ true)
              × (lawful.fifo.contents q.messages d ≡ f ∷ l)
              × (q'.host.sent ≡ q.host.sent ++ ((c, f) ∷ []))
              × ((x : String)
                  → lawful.fifo.contents q'.messages x
                    ≡ (if d == x then l else lawful.fifo.contents q.messages x))
              × ((x : ℕ) → get q'.pending x ≡ (if c == x then some f else get q.pending x))))

  Next-GetsNext :
      (c : ℕ) (t : Option String) (waiting : Frame) (q : State σ)
      → (o : Result Error (Unit {0}) × State σ) → Next σ lawful c (settled σ c t waiting q) o
      → GetsNext c q o
  Next-GetsNext c t waiting q (r, q') (done, inl (empty, sent, kept, free)) =
      (done, inl (empty, sent, kept, λ x. free x ∙ get-remove q.pending c x))
  Next-GetsNext c t waiting q (r, q') (done, inr (d, f, l, member, e, sent, kept, busy)) = (
    done,
    inr (d, f, l, member, e, sent, kept, λ x. ground (arith, busy x, get-remove q.pending c x)),
  )

  settled-idle :
      (c : ℕ) (t : Option String) (waiting : Frame) (q : State σ)
      → has (settled σ c t waiting q).pending c ≡ false
  settled-idle c t waiting q = ground (arith, get-remove q.pending c c, beq_self c)

  -- With a lawful store and lawful schedulers, a reliable connection that accepts acknowledges its
  -- pending message by the id of that one, while each destination stands once among the queues.
  -- Then `ack` returns, and either the connection has nothing pending any more and none of the
  -- destinations that it subscribes to has a message, or it has got the oldest message of one of
  -- these, which is pending now and no longer queued. No other pending frame and no other queue
  -- changes.
  pub ack_advances :
      (c : ℕ) (f : Frame) (t : Option String) (q : State σ) (waiting : Frame)
      → IsDict q.queues
      → is_reliable q.host c ≡ true
      → get q.pending c ≡ some waiting
      → header f "message-id" ≡ header waiting "message-id"
      → ((n : ℕ) (g : Frame) → σ.env.delivers n c g ≡ true)
      → GetsNext c q (ack σ c f t q)
  ack_advances c f t q waiting unique r at same up =
      rw (ack-send_backlog σ c f t q waiting at (same_id_self waiting f same)) (
        Next-GetsNext c t waiting q (send_backlog σ c none (settled σ c t waiting q)) (
          send_backlog-Next σ lawful c (settled σ c t waiting q) unique r
            (settled-idle c t waiting q) up))
