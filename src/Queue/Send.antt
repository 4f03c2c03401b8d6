-- ===== src/Queue/Send.antt =====
-- `send` of QueueManager (coilmq/queue.py): where a message goes.
use coilmq.Prelude.{
  ℕ, ◌+◌, String, ◌≡◌, refl, Bool, true, false, not, ◌&&◌, ◌∙◌, some, [], ◌∷◌, ◌++◌, is_empty, ok,
  err, Result, arith, ◌==◌, nat_equality, string_equality, if◌then◌else◌,
}
use coilmq.Dict.{get, has, get_or, set_default, contains}
use coilmq.Scheduler.Laws.{contains-keep, is_empty-keep, is_empty-keep_none}
use coilmq.Queue.Deliver.{messages-tracked, get-tracked, deliver_accepted, deliver_refused}
use coilmq.Text.{is_truthy}
use coilmq.Frame.{Frame, header, Error, connection_error}
use coilmq.Host.{is_reliable}
use coilmq.Queue.State.{Setup, State}
use coilmq.Queue.Contract.{IsLawful}
use coilmq.Queue.Backlog.{deliver}
use coilmq.Queue.Methods.{eligible_subscribers, send_to, send}

-- The message that `send` passes on.
abbrev pub stamped : (σ : Setup) → State σ → Frame → Frame
stamped σ q message = record message {
  cmd = "message";
  headers = set_default message.headers "message-id" (σ.env.uuid q.host.uuids);
}

module _ (σ : Setup) where
  -- A good destination leads past the guard of `send`.
  send-send_to :
      (message : Frame) (dest : String) (q : State σ)
      → header message "destination" ≡ some dest
      → is_truthy (some dest) ≡ true
      → send σ message q ≡ send_to σ dest message q
  unfolding send
  send-send_to message dest q at named = rw (at, named)

  abbrev stored : String → Frame → State σ → Result Error (Unit {0}) × State σ
  stored dest message q =
      let (r, s) = σ.store.enqueue dest (stamped σ q message) q.messages in
      (
        r,
        record q {
          messages = s;
          queues = set_default q.queues dest [];
          host = record q.host { uuids = q.host.uuids + 1 };
        },
      )

  send_to-stored :
      (message : Frame) (dest : String) (q : State σ)
      → is_empty (eligible_subscribers σ q dest) ≡ true
      → send_to σ dest message q ≡ stored dest message q
  unfolding send_to
  send_to-stored message dest q nobody = rw nobody

  -- The state in which `send` calls `_send_frame`.
  abbrev ready : String → State σ → State σ
  ready dest q = record q {
    queues = set_default q.queues dest [];
    host = record q.host { uuids = q.host.uuids + 1; draws = q.host.draws + 1 };
  }

  send_to-deliver :
      (message : Frame) (dest : String) (q : State σ) (c : ℕ)
      → is_empty (eligible_subscribers σ q dest) ≡ false
      → σ.subscriber_scheduler
          (σ.env.draw q.host.draws)
          (is_reliable q.host)
          (eligible_subscribers σ q dest)
          (stamped σ q message)
        ≡ some c
      → send_to σ dest message q ≡ deliver σ c (stamped σ q message) (ready dest q)
  unfolding send_to
  send_to-deliver message dest q c somebody chosen = rw (somebody, chosen)

and-false : (b : Bool) → (b && false) ≡ false
and-false true = refl
and-false false = refl

-- Some subscriber of `dest` has no frame pending, or each has one.
abbrev pub IsFree : (σ : Setup) → State σ → String → ℕ → Type 0
IsFree σ q dest c = (contains c (get_or q.queues dest []) ≡ true) × (has q.pending c ≡ false)

module _ (σ : Setup) (lawful : IsLawful σ) where
  -- With a lawful store, while every subscriber of its destination waits for an acknowledgement, a
  -- message is appended to the queue of that destination, and to no other; `send` returns, and
  -- nothing is delivered.
  pub send_enqueues :
      (message : Frame) (dest : String) (q : State σ)
      → header message "destination" ≡ some dest
      → is_truthy (some dest) ≡ true
      → ((c : ℕ) → contains c (get_or q.queues dest []) ≡ true → has q.pending c ≡ true)
      → ((send σ message q).0 ≡ ok tt)
        × ((x : String)
            → lawful.fifo.contents (send σ message q).1.messages x ≡ (
                if dest == x
                then lawful.fifo.contents q.messages x ++ (stamped σ q message ∷ [])
                else lawful.fifo.contents q.messages x))
        × ((send σ message q).1.pending ≡ q.pending)
        × ((send σ message q).1.host.sent ≡ q.host.sent)
  send_enqueues message dest q at named busy =
      let nobody =
        is_empty-keep_none (λ s. not (has q.pending s)) (get_or q.queues dest [])
          (λ c inside. rw (busy c inside)) in
      rw (send-send_to σ message dest q at named, send_to-stored σ message dest q nobody)
        (
          lawful.fifo.enqueue_ok dest (stamped σ q message) q.messages,
          lawful.fifo.contents-enqueue dest (stamped σ q message) q.messages,
          refl,
          refl,
        )

  -- A subscriber that is free is chosen, and `send` comes down to `_send_frame` to it.
  chosen_subscriber :
      (message : Frame) (dest : String) (q : State σ) (free : ℕ)
      → header message "destination" ≡ some dest
      → is_truthy (some dest) ≡ true
      → IsFree σ q dest free
      → (c : ℕ) × IsFree σ q dest c
        × (send σ message q ≡ deliver σ c (stamped σ q message) (ready σ dest q))
  chosen_subscriber message dest q free at named (member, idle) =
      let somebody =
        is_empty-keep (λ s. not (has q.pending s)) free (get_or q.queues dest []) member
          (rw idle) in
      let (c, chosen, inside) =
        lawful.subscriber.chooses (σ.env.draw q.host.draws) (is_reliable q.host)
          (eligible_subscribers σ q dest) (stamped σ q message) somebody in
      (
        c,
        ground
            (arith, inside, contains-keep (λ s. not (has q.pending s)) c (get_or q.queues dest [])),
        send-send_to σ message dest q at named ∙ send_to-deliver σ message dest q c somebody chosen,
      )

  -- With a lawful scheduler, if some subscriber of the destination has no frame pending, and the
  -- connections accept, then one such subscriber gets the message, once; it has it pending if it is
  -- reliable. No other connection's pending frame and no queued message changes.
  pub send_delivers :
      (message : Frame) (dest : String) (q : State σ) (free : ℕ)
      → header message "destination" ≡ some dest
      → is_truthy (some dest) ≡ true
      → IsFree σ q dest free
      → ((c : ℕ) → σ.env.delivers q.host.attempts c (stamped σ q message) ≡ true)
      → (c : ℕ) × IsFree σ q dest c
        × ((send σ message q).0 ≡ ok tt)
        × ((send σ message q).1.host.sent ≡ q.host.sent ++ ((c, stamped σ q message) ∷ []))
        × ((send σ message q).1.messages ≡ q.messages)
        × ((x : ℕ)
            → get (send σ message q).1.pending x ≡ (
                if is_reliable q.host c && c == x
                then some (stamped σ q message)
                else get q.pending x))
  send_delivers message dest q free at named found up =
      let (c, idle, sent) = chosen_subscriber message dest q free at named found in
      let delivered =
        sent
        ∙ deliver_accepted σ c (stamped σ q message) (ready σ dest q)
            (rw idle.1 (and-false (is_reliable q.host c))) (up c) in
      (
        c,
        idle,
        rw delivered,
        rw delivered,
        rw delivered (messages-tracked c (stamped σ q message) (ready σ dest q)),
        rw delivered (get-tracked c (stamped σ q message) (ready σ dest q)),
      )

  -- With a lawful scheduler, if some subscriber is free and the connections raise, so does `send`:
  -- nothing is delivered or queued, and the message is kept, as the pending frame of the chosen
  -- subscriber, only if that one is reliable.
  pub send_fails :
      (message : Frame) (dest : String) (q : State σ) (free : ℕ)
      → header message "destination" ≡ some dest
      → is_truthy (some dest) ≡ true
      → IsFree σ q dest free
      → ((c : ℕ) → σ.env.delivers q.host.attempts c (stamped σ q message) ≡ false)
      → (c : ℕ) × IsFree σ q dest c
        × ((send σ message q).0 ≡ err connection_error)
        × ((send σ message q).1.host.sent ≡ q.host.sent)
        × ((send σ message q).1.messages ≡ q.messages)
        × ((x : ℕ)
            → get (send σ message q).1.pending x ≡ (
                if is_reliable q.host c && c == x
                then some (stamped σ q message)
                else get q.pending x))
  send_fails message dest q free at named found down =
      let (c, idle, sent) = chosen_subscriber message dest q free at named found in
      let raised =
        sent
        ∙ deliver_refused σ c (stamped σ q message) (ready σ dest q)
            (rw idle.1 (and-false (is_reliable q.host c))) (down c) in
      (
        c,
        idle,
        rw raised,
        rw raised,
        rw raised (messages-tracked c (stamped σ q message) (ready σ dest q)),
        rw raised (get-tracked c (stamped σ q message) (ready σ dest q)),
      )
