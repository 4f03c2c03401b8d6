-- ===== src/Protocol/Unbound.antt =====
-- What `unbind` of coilmq/engine.py leaves of a session.
use coilmq.Prelude.{
  ℕ, String, arith, ◌≡◌, refl, false, none, ok, ◌==◌, nat_equality, string_equality, if◌then◌else◌,
  ◌>>=◌,
}
use coilmq.Dict.{get, keys}
use coilmq.Dict.Laws.{beq_self}
use coilmq.Store.Interface.{FifoLaws}
use coilmq.Queue.Leave.{is_member, is_member-leave_keys}
use coilmq.Queue.State.{leave_all, QueueState}
use coilmq.Queue.Disconnect.{disconnect_releases, with_returned}
use coilmq.Queue.Methods as QueueManager
use coilmq.Topic as TopicManager
use coilmq.Engine.{Client, State, unbind}

module _ (κ : Client) (fifo : FifoLaws κ.setup.store) where
  -- The session is down and its connection holds nothing.
  abbrev pub IsReleased : State κ → Type 0
  IsReleased s =
      (s.connected ≡ false)
      × ((d : String) → is_member s.queue.queues d κ.connection ≡ false)
      × ((d : String) → is_member s.topics d κ.connection ≡ false)
      × (get s.queue.pending κ.connection ≡ none)

  -- The queue manager once the connection is disconnected from it, and the session after `unbind`.
  abbrev queue_after : State κ → QueueState κ.setup.store.State
  queue_after s = (QueueManager.disconnect κ.setup κ.connection s.queue).1

  abbrev after : State κ → State κ
  after s = record s {
    connected = false;
    queue = queue_after s;
    topics = leave_all κ.connection (keys s.topics) s.topics;
  }

  unbind-after : (s : State κ) → unbind κ s ≡ (ok tt, after s)
  unfolding unbind TopicManager.disconnect
  unbind-after s = rw ((disconnect_releases κ.setup fifo κ.connection s.queue).0, ◌>>=◌)

  -- With a lawful store, `unbind` always returns. The session is not connected then, its connection
  -- subscribes to no queue and no topic and has no pending frame: the one it had is the newest
  -- message of its destination's queue. The subscriptions and the pending frames of all other
  -- connections, and all other queued messages, are as before, and nothing is delivered.
  pub unbind_releases :
      (s : State κ)
      → ((unbind κ s).0 ≡ ok tt)
        × IsReleased (unbind κ s).1
        × ((d : String) (x : ℕ)
            → is_member (unbind κ s).1.queue.queues d x
              ≡ (if κ.connection == x then false else is_member s.queue.queues d x))
        × ((d : String) (x : ℕ)
            → is_member (unbind κ s).1.topics d x
              ≡ (if κ.connection == x then false else is_member s.topics d x))
        × ((x : ℕ)
            → get (unbind κ s).1.queue.pending x
              ≡ (if κ.connection == x then none else get s.queue.pending x))
        × ((d : String)
            → fifo.contents (unbind κ s).1.queue.messages d
              ≡ with_returned κ.setup fifo
                  (get s.queue.pending κ.connection)
                  (fifo.contents s.queue.messages d)
                  d)
        × ((unbind κ s).1.queue.host ≡ s.queue.host)
  unbind_releases s =
      let (_, queues, pending, contents, host) =
        disconnect_releases κ.setup fifo κ.connection s.queue in
      let topics = is_member-leave_keys κ.connection s.topics in
      rw (unbind-after s) (
        refl,
        (
          refl,
          λ d. ground (arith, queues d κ.connection, beq_self κ.connection),
          λ d. ground (arith, topics d κ.connection, beq_self κ.connection),
          ground (arith, pending κ.connection, beq_self κ.connection),
        ),
        queues,
        topics,
        pending,
        contents,
        host,
      )
