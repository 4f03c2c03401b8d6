-- ===== src/Topic/Laws.antt =====
-- What TopicManager (coilmq/topic.py) does with a message and with its subscribers.
use coilmq.Prelude.{
  ℕ, ◌+◌, String, ◌≡◌, refl, sym, ap, ◌∙◌, Bool, true, false, not, ◌&&◌, ◌||◌, some, List, [], ◌∷◌,
  ◌++◌, map, keep, ok, arith, eq_iff, nat_equality, string_equality, ◌==◌, if◌then◌else◌,
  Bool-cases, inl, inr,
}
use mathlib.Core.List.{append_assoc, append-nil}
use coilmq.Dict.{get_or, keys, contains, add, set_default}
use coilmq.Dict.Laws.{get-put, contains-add}
use coilmq.Text.{is_truthy}
use coilmq.Frame.{Frame, header}
use coilmq.Host.{Host, Environment, send_frame}
use coilmq.Queue.State.{stamp, leave_all}
use coilmq.Queue.Deliver.{accepted, refused}
use coilmq.Queue.Leave.{is_member, is_member-leave_keys}
use coilmq.Topic.{
  TopicState, subscribe, disconnect, attempt, broadcast, disconnect_each, send_to, send,
}

-- The message that `send` passes on.
abbrev pub stamped : Environment → Host → Frame → Frame
stamped env h message = record message {
  cmd = "message";
  headers = set_default message.headers "message-id" (env.uuid h.uuids);
}

module _ (env : Environment) (f : Frame) where
  attempt-good :
      (s : ℕ) (h : Host)
      → env.delivers h.attempts s f ≡ true
      → attempt env s f h ≡ (true, accepted s f h)
  unfolding attempt send_frame
  attempt-good s h up = rw up

  attempt-bad :
      (s : ℕ) (h : Host)
      → env.delivers h.attempts s f ≡ false
      → attempt env s f h ≡ (false, refused h)
  unfolding attempt send_frame
  attempt-bad s h down = rw down

  broadcast-nil : (h : Host) → broadcast env [] f h ≡ ([], h)
  unfolding broadcast
  broadcast-nil h = refl

  broadcast-good :
      (s : ℕ) (l : List ℕ) (h : Host)
      → env.delivers h.attempts s f ≡ true
      → broadcast env (s ∷ l) f h ≡ broadcast env l f (accepted s f h)
  unfolding broadcast
  broadcast-good s l h up = rw (attempt-good s h up)

  broadcast-bad :
      (s : ℕ) (l : List ℕ) (h : Host)
      → env.delivers h.attempts s f ≡ false
      → broadcast env (s ∷ l) f h
        ≡ (add s (broadcast env l f (refused h)).0, (broadcast env l f (refused h)).1)
  unfolding broadcast
  broadcast-bad s l h down = rw (attempt-bad s h down)

  -- While each connection either accepts or raises, the loop goes on after one that raises, and
  -- collects those.
  abbrev Broadcast : (ℕ → Bool) → List ℕ → Host → List ℕ × Host → Type 0
  Broadcast up l h (bad, h') =
      ((x : ℕ) → contains x bad ≡ (contains x l && not (up x)))
      × (h'.sent ≡ h.sent ++ map (λ s. (s, f)) (keep up l))
      × (h'.reliable ≡ h.reliable)

  broadcast-Broadcast :
      (up : ℕ → Bool) (l : List ℕ) (h : Host)
      → ((n c : ℕ) → env.delivers n c f ≡ up c)
      → Broadcast up l h (broadcast env l f h)
  unfolding contains
  broadcast-Broadcast up [] h links =
      rw (broadcast-nil h) (λ x. refl, sym (append-nil h.sent), refl)
  broadcast-Broadcast up (s ∷ l) h links = elim (Bool-cases (up s)) [
    | inl good ↦
        let (bad, sent, same) = broadcast-Broadcast up l (accepted s f h) links in
        rw (broadcast-good s l h (links h.attempts s ∙ good), good)
          (
            λ x. ground (arith, bad x, ap up {x = s} {y = x}),
            sent ∙ append_assoc h.sent ((s, f) ∷ []) (map (λ c. (c, f)) (keep up l)),
            same,
          )
    | inr down ↦
        let (bad, sent, same) = broadcast-Broadcast up l (refused h) links in
        rw (broadcast-bad s l h (links h.attempts s ∙ down), down)
          (
            λ x. ground (
              arith,
              bad x,
              contains-add s x (broadcast env l f (refused h)).0,
              ap up {x = s} {y = x},
            ),
            sent,
            same,
          )
  ]

-- The bad subscribers leave every topic, and nobody else leaves one.
disconnect_each_lem :
    (env : Environment) (bad : List ℕ) (t : TopicState)
    → ((disconnect_each env bad t).0 ≡ ok tt)
      × ((disconnect_each env bad t).1.host ≡ t.host)
      × ((e : String) (x : ℕ)
          → is_member (disconnect_each env bad t).1.topics e x
            ≡ (if contains x bad then false else is_member t.topics e x))
unfolding disconnect_each disconnect contains
disconnect_each_lem env [] t = (refl, refl, λ e x. refl)
disconnect_each_lem env (s ∷ bad) t =
    let t' : TopicState = record t { topics = leave_all s (keys t.topics) t.topics } in
    let (done, same, gone) = disconnect_each_lem env bad t' in
    (done, same, λ e x. ground (arith, gone e x, is_member-leave_keys s t.topics e x))

-- `subscribe` adds the subscription; every other one stands, and nothing is delivered.
subscribe_joins :
    (c : ℕ) (d : String) (t : TopicState)
    → ((subscribe c d t).0 ≡ ok tt)
      × ((e : String) (x : ℕ)
          → is_member (subscribe c d t).1.topics e x ≡ (d == e && c == x || is_member t.topics e x))
      × ((subscribe c d t).1.host ≡ t.host)
unfolding subscribe
subscribe_joins c d t = (
  refl,
  λ e x. ground (
    arith,
    get-put t.topics d e (add c (get_or t.topics d [])),
    contains-add c x (get_or t.topics d []),
    eq_iff d e,
  ),
  refl,
)

-- After `disconnect` the connection subscribes to nothing; every other subscription stands.
disconnect_leaves :
    (c : ℕ) (t : TopicState)
    → ((disconnect c t).0 ≡ ok tt)
      × ((e : String) (x : ℕ)
          → is_member (disconnect c t).1.topics e x
            ≡ (if c == x then false else is_member t.topics e x))
      × ((disconnect c t).1.host ≡ t.host)
unfolding disconnect
disconnect_leaves c t = (refl, is_member-leave_keys c t.topics, refl)

module _ (env : Environment) where
  abbrev touched : String → TopicState → TopicState
  touched d t = record t {
    topics = set_default t.topics d [];
    host = record t.host { uuids = t.host.uuids + 1 };
  }

  abbrev broadcasted : String → Frame → TopicState → List ℕ × Host
  broadcasted d message t =
      broadcast env (get_or t.topics d []) (stamped env t.host message) (touched d t).host

  send-disconnect_each :
      (message : Frame) (d : String) (t : TopicState)
      → header message "destination" ≡ some d
      → is_truthy (some d) ≡ true
      → send env message t
        ≡ disconnect_each env
            (broadcasted d message t).0
            (record (touched d t) { host = (broadcasted d message t).1 })
  unfolding send send_to stamp
  send-disconnect_each message d t at named = rw (at, named)

  -- A message goes, in one pass, to every subscriber of its destination that accepts it, whatever
  -- other subscribers do, and `send` returns. The subscribers that raise are disconnected from every
  -- topic; no other subscription ends. Here each connection accepts the message or does not.
  pub send_broadcasts :
      (message : Frame) (d : String) (t : TopicState) (up : ℕ → Bool)
      → header message "destination" ≡ some d
      → is_truthy (some d) ≡ true
      → ((n c : ℕ) → env.delivers n c (stamped env t.host message) ≡ up c)
      → ((send env message t).0 ≡ ok tt)
        × ((send env message t).1.host.sent
            ≡ t.host.sent
              ++ map (λ c. (c, stamped env t.host message)) (keep up (get_or t.topics d [])))
        × ((e : String) (x : ℕ)
            → is_member (send env message t).1.topics e x
              ≡ (if is_member t.topics d x && not (up x) then false else is_member t.topics e x))
  send_broadcasts message d t up at named links =
      let (bad, sent, same) =
        broadcast-Broadcast env (stamped env t.host message) up (get_or t.topics d [])
          (touched d t).host links in
      let (done, host, gone) =
        disconnect_each_lem env (broadcasted d message t).0
          (record (touched d t) { host = (broadcasted d message t).1 }) in
      rw (send-disconnect_each message d t at named) (
        done,
        ap (λ (h : Host). h.sent) host ∙ sent,
        λ e x.
            ground
              (arith, gone e x, bad x, get-put t.topics d e (get_or t.topics d []), eq_iff d e),
      )
