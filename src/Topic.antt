-- ===== src/Topic.antt =====
-- TopicManager of coilmq/topic.py. Each public method holds one lock for its whole body.
pub mod Laws
use coilmq.Prelude.{
  ℕ, String, Bool, true, false, Option, none, some, List, [], ◌∷◌, Exec, ok, err, pure, raise, gets,
  modify, ◌>>=◌, ◌>>◌, focus, string_equality, nat_equality, if◌then◌else◌,
}
use coilmq.Dict.{Dict, put, get_or, set_default, or_else, keys, add}
use coilmq.Text.{is_truthy}
use coilmq.Frame.{Frame, header, Error, no_destination}
use coilmq.Host.{Host, Environment, send_frame}
use coilmq.Queue.State.{stamp, leave, leave_all}

pub record TopicState : Type 0 where
  pub topics : Dict String (List ℕ)
  pub host : Host

abbrev pub Method : Type 0 → Type 0
Method A = Exec Error TopicState A

abbrev on_host : {A : Type 0} → Exec Error Host A → Method A
on_host = focus (λ t. t.host) (λ h t. record t { host = h })

-- close: nothing but a line of the log.
unfoldable pub close : Method (Unit {0})
close = pure tt

unfoldable pub subscribe : ℕ → String → Method (Unit {0})
subscribe connection destination = modify (λ t. record t {
  topics = put t.topics destination (add connection (get_or t.topics destination []));
})

-- The lines of `unsubscribe` and `disconnect` are those of the queue manager.
unfoldable pub unsubscribe : ℕ → String → Method (Unit {0})
unsubscribe connection destination =
    modify (λ t. record t { topics = leave connection destination t.topics })

unfoldable pub disconnect : ℕ → Method (Unit {0})
disconnect connection =
    modify (λ t. record t { topics = leave_all connection (keys t.topics) t.topics })

module _ (env : Environment) where
  -- `try: subscriber.send_frame(message)  except: bad_subscribers.add(subscriber)`
  unfoldable pub attempt : ℕ → Frame → Host → Bool × Host
  attempt subscriber message h =
      let (r, h') = send_frame env subscriber message h in
      (elim r [ ok _ ↦ true | err _ ↦ false ], h')

  -- The loop over the subscribers: the bad ones, and the host after it.
  unfoldable pub broadcast : List ℕ → Frame → Host → List ℕ × Host
  broadcast [] message h = ([], h)
  broadcast (s ∷ subscribers) message h =
      let (good, h') = attempt s message h in
      let (bad, h'') = broadcast subscribers message h' in (if good then bad else add s bad, h'')

  -- `for subscriber in bad_subscribers: self.disconnect(subscriber)`
  unfoldable pub disconnect_each : List ℕ → Method (Unit {0})
  disconnect_each [] = pure tt
  disconnect_each (s ∷ bad) = do disconnect s; disconnect_each bad

  unfoldable pub send_to : String → Frame → Method (Unit {0})
  send_to dest frame = do
    message ← on_host (stamp env frame)
    subscribers ← gets (λ t. get_or t.topics dest [])
    modify (λ t. record t { topics = set_default t.topics dest [] })
    bad ← (λ t.
        let (bad, h) = broadcast subscribers message t.host in (ok bad, record t { host = h }))
    disconnect_each bad

  unfoldable pub send : Frame → Method (Unit {0})
  send message =
      let dest = header message "destination" in
      if is_truthy dest then send_to (or_else dest "") message else raise no_destination
