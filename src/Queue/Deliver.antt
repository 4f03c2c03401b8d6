-- ===== src/Queue/Deliver.antt =====
-- `_send_frame` of QueueManager (coilmq/queue.py), in the three ways that it can end.
use coilmq.Prelude.{
  ℕ, ◌+◌, ◌≡◌, Bool, true, false, ◌&&◌, some, ◌==◌, [], ◌∷◌, ◌++◌, ok, err, arith, nat_equality,
  if◌then◌else◌, Bool-cases, inl, inr,
}
use coilmq.Dict.{get, put, has}
use coilmq.Dict.Laws.{get-put}
use coilmq.Frame.{Frame, has_pending_frame, connection_error}
use coilmq.Host.{Host, is_reliable, send_frame}
use coilmq.Queue.State.{Setup, QueueState, State}
use coilmq.Queue.Backlog.{deliver}

-- The host after a call of `send_frame` that returned, and after one that raised.
abbrev pub accepted : ℕ → Frame → Host → Host
accepted c f h = record h { sent = h.sent ++ ((c, f) ∷ []); attempts = h.attempts + 1 }

abbrev pub refused : Host → Host
refused h = record h { attempts = h.attempts + 1 }

module _ {S : Type 0} where
  -- A reliable connection has `f` pending from now on.
  abbrev pub tracked : ℕ → Frame → QueueState S → QueueState S
  tracked c f q = if is_reliable q.host c then record q { pending = put q.pending c f } else q

  -- The connection is reliable and has a frame pending.
  abbrev pub is_waiting : QueueState S → ℕ → Bool
  is_waiting q c = is_reliable q.host c && has q.pending c

module _ {S : Type 0} (c : ℕ) (f : Frame) (q : QueueState S) where
  pub get-tracked :
      (x : ℕ)
      → get (tracked c f q).pending x
        ≡ (if is_reliable q.host c && c == x then some f else get q.pending x)
  get-tracked x = ground (arith, get-put q.pending c x f)

  pub messages-tracked : (tracked c f q).messages ≡ q.messages
  messages-tracked = ground arith

  pub queues-tracked : (tracked c f q).queues ≡ q.queues
  queues-tracked = ground arith

module _ (σ : Setup) (c : ℕ) (f : Frame) (q : State σ) where
  abbrev pub after_accepted : State σ
  after_accepted = record (tracked c f q) { host = accepted c f q.host }

  abbrev pub after_refused : State σ
  after_refused = record (tracked c f q) { host = refused q.host }

  pub deliver_waiting : is_waiting q c ≡ true → deliver σ c f q ≡ (err has_pending_frame, q)
  unfolding deliver
  deliver_waiting w = rw w

  pub deliver_accepted :
      is_waiting q c ≡ false
      → σ.env.delivers q.host.attempts c f ≡ true
      → deliver σ c f q ≡ (ok tt, after_accepted)
  unfolding deliver send_frame
  deliver_accepted w up = elim (Bool-cases (is_reliable q.host c)) [
    | inl r ↦ rw (w, r, up)
    | inr r ↦ rw (w, r, up)
  ]

  pub deliver_refused :
      is_waiting q c ≡ false
      → σ.env.delivers q.host.attempts c f ≡ false
      → deliver σ c f q ≡ (err connection_error, after_refused)
  unfolding deliver send_frame
  deliver_refused w down = ground arith

  -- To an unreliable connection a frame goes without being tracked.
  pub deliver_plain :
      is_reliable q.host c ≡ false
      → σ.env.delivers q.host.attempts c f ≡ true
      → deliver σ c f q ≡ (ok tt, record q { host = accepted c f q.host })
  unfolding deliver send_frame
  deliver_plain plain up = rw (plain, up)

  pub deliver_plain_refused :
      is_reliable q.host c ≡ false
      → σ.env.delivers q.host.attempts c f ≡ false
      → deliver σ c f q ≡ (err connection_error, record q { host = refused q.host })
  unfolding deliver send_frame
  deliver_plain_refused plain down = rw (plain, down)
