-- ===== src/Engine.antt =====
-- StompEngine of coilmq/engine.py: one session of a client with the broker.
use coilmq.Prelude.{ℕ, String, Bool, false, Option, List, Exec, modify, ◌>>◌, focus}
use coilmq.Dict.{Dict}
use coilmq.Frame.{Frame, Error}
use coilmq.Host.{Host, send_frame}
use coilmq.Queue.State.{Setup, QueueState}
use coilmq.Queue.Methods as QueueManager
use coilmq.Topic as TopicManager
use coilmq.Topic.{TopicState}

-- The engine's attributes, and what it shares with all others: the queue manager with the host, and
-- the topic manager's subscriptions. Its protocol object stands beside the session, in Versions.Link.
pub record Session (S : Type 0) : Type 0 where
  pub connected : Bool
  pub transactions : Dict String (List Frame)
  pub queue : QueueState S
  pub topics : Dict String (List ℕ)

-- An engine is made for one connection; an authenticator may be configured.
pub record Client : Type 1 where
  pub setup : Setup
  pub connection : ℕ
  pub authenticator : Option (Option String → Option String → Bool)

module _ (κ : Client) where
  abbrev pub State : Type 0
  State = Session κ.setup.store.State

  abbrev pub Method : Type 0 → Type 0
  Method A = Exec Error State A

  abbrev pub on_queue : {A : Type 0} → Exec Error (QueueState κ.setup.store.State) A → Method A
  on_queue = focus (λ s. s.queue) (λ q s. record s { queue = q })

  abbrev pub on_topics : {A : Type 0} → Exec Error TopicState A → Method A
  on_topics =
      focus (λ s. record { topics = s.topics; host = s.queue.host })
        (λ t s. record s { topics = t.topics; queue = record s.queue { host = t.host } })

  abbrev pub on_host : {A : Type 0} → Exec Error Host A → Method A
  on_host = focus (λ s. s.queue.host) (λ h s. record s { queue = record s.queue { host = h } })

  -- self.connection.send_frame(frame)
  abbrev pub reply : Frame → Method (Unit {0})
  reply frame = on_host (send_frame κ.setup.env κ.connection frame)

  unfoldable pub unbind : Method (Unit {0})
  unbind = do
    modify (λ s. record s { connected = false })
    on_queue (QueueManager.disconnect κ.setup κ.connection)
    on_topics (TopicManager.disconnect κ.connection)
