-- ===== src/Queue/State.antt =====
-- The attributes of QueueManager (coilmq/queue.py), and the steps on them that its methods share.
use coilmq.Prelude.{
  ℕ, String, Bool, true, false, Option, none, some, List, [], ◌∷◌, ◌++◌, is_empty, Exec, pure,
  ◌>>=◌, focus, nat_equality, string_equality, ◌==◌, if◌then◌else◌,
}
use coilmq.Dict.{Dict, put, remove, get_or, set_default, discard}
use coilmq.Frame.{Frame, Error}
use coilmq.Host.{Host, Environment, uuid4}
use coilmq.Store.Interface.{QueueStore}
use coilmq.Scheduler.{SubscriberScheduler, QueueScheduler}

-- What a QueueManager is made with: its store and its schedulers, and the world that it runs in.
pub record Setup : Type 1 where
  pub env : Environment
  pub store : QueueStore
  pub subscriber_scheduler : SubscriberScheduler
  pub queue_scheduler : QueueScheduler

-- The attributes of a QueueManager, and the host that all managers share.
pub record QueueState (S : Type 0) : Type 0 where
  pub messages : S
  pub queues : Dict String (List ℕ)
  pub transaction_frames : Dict ℕ (Dict String (List Frame))
  pub pending : Dict ℕ Frame
  pub host : Host

-- `message.cmd = 'message'` and `message.headers.setdefault('message-id', ...)`: the uuid is made
-- in any case.
unfoldable pub stamp : Environment → Frame → Exec Error Host Frame
stamp env message = do
  id ← uuid4 env
  pure (record message { cmd = "message"; headers = set_default message.headers "message-id" id })

-- `if connection in queues[dest]: queues[dest].remove(connection)` and
-- `if not queues[dest]: del queues[dest]`, the read of the defaultdict included.
unfoldable pub leave : ℕ → String → Dict String (List ℕ) → Dict String (List ℕ)
leave connection dest queues =
    let rest = discard connection (get_or queues dest []) in
    if is_empty rest then remove queues dest else put queues dest rest

-- The loop over `list(queues.keys())`.
unfoldable pub leave_all : ℕ → List String → Dict String (List ℕ) → Dict String (List ℕ)
leave_all connection [] queues = queues
leave_all connection (dest ∷ dests) queues =
    leave_all connection dests (leave connection dest queues)

-- `pending_frame.headers.get('message-id') != frame.headers.get('message-id')`, negated
abbrev pub same_id : Option String → Option String → Bool
same_id none none = true
same_id (some a) (some b) = a == b
same_id _ _ = false

-- `self._transaction_frames[connection][transaction].append(frame)`
unfoldable pub append_acked :
    ℕ → String → Frame → Dict ℕ (Dict String (List Frame)) → Dict ℕ (Dict String (List Frame))
append_acked c t frame acked =
    let inner = get_or acked c [] in put acked c (put inner t (get_or inner t [] ++ (frame ∷ [])))

module _ (σ : Setup) where
  abbrev pub State : Type 0
  State = QueueState σ.store.State

  abbrev pub Method : Type 0 → Type 0
  Method A = Exec Error State A

  abbrev pub on_store : {A : Type 0} → Exec Error σ.store.State A → Method A
  on_store = focus (λ q. q.messages) (λ s q. record q { messages = s })

  abbrev pub on_host : {A : Type 0} → Exec Error Host A → Method A
  on_host = focus (λ q. q.host) (λ h q. record q { host = h })
