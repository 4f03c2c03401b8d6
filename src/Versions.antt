-- ===== src/Versions.antt =====
-- STOMP11 and STOMP12 of coilmq/protocol/__init__.py. An engine begins with one protocol object and
-- gets another one when its client and it agree on another version. The objects are a store: the first
-- one stays in use for its timers and for the call of `connect` that replaced it.
pub mod Heartbeat
pub mod Connect
pub mod Dispatch
pub mod Welcome
pub mod Negotiation
pub mod Silence
pub mod Stale
pub mod StaleConnect
pub mod Unheard
pub mod Inherited
pub mod Depth
use coilmq.Prelude.{
  ℕ, ◌+◌, String, Bool, false, List, [], Exec, Result, ok, pure, gets, modify, ◌>>=◌, ◌>>◌, focus,
  nat_beq, if◌then◌else◌,
}
use coilmq.Frame.{Error}
use coilmq.Engine.{Session, Client, State, Method}
use coilmq.Timer.{Timer, new_timer}

pub data Version : Type 0 where
  v10 v11 v12 : Version

-- The keys of PROTOCOL_MAP
abbrev pub version_text : Version → String
version_text v10 = "1.0"
version_text v11 = "1.1"
version_text v12 = "1.2"

-- The methods that are scheduled.
pub data Job : Type 0 where
  send_job receive_job : Job

-- The attributes of a protocol object. A STOMP10 has the class alone. Intervals are in milliseconds,
-- times in microseconds.
pub record Handler : Type 0 where
  pub version : Version
  pub last_hb : ℕ
  pub last_hb_sent : ℕ
  pub timer : Timer Job
  pub send_heartbeat_interval : ℕ
  pub receive_heartbeat_interval : ℕ

-- STOMP11.__init__ with its default intervals
abbrev pub new_handler : Version → ℕ → ℕ → Handler
new_handler v now then_ = record {
  version = v;
  last_hb = now;
  last_hb_sent = then_;
  timer = new_timer;
  send_heartbeat_interval = 100;
  receive_heartbeat_interval = 100;
}

-- `datetime.now()` at its n-th call, `socket.getfqdn()`, and a set of versions joined in the order in
-- which Python iterates over it.
pub record Network : Type 0 where
  pub now : ℕ → ℕ
  pub fqdn : String
  pub joined : Version → String

-- The session, the protocol objects by their number with how many were made, the one that is
-- `engine.protocol`, and the calls of `datetime.now`.
pub record Link (S : Type 0) : Type 0 where
  pub session : Session S
  pub objects : ℕ → Handler
  pub made : ℕ
  pub protocol : ℕ
  pub reads : ℕ

abbrev pub put_object : ℕ → Handler → (ℕ → Handler) → ℕ → Handler
put_object id h objects j = if nat_beq j id then h else objects j

module _ (κ : Client) (net : Network) where
  abbrev pub Connection : Type 0
  Connection = Link κ.setup.store.State

  abbrev pub Action : Type 0 → Type 0
  Action A = Exec Error Connection A

  abbrev pub on_session : {A : Type 0} → Method κ A → Action A
  on_session = focus (λ l. l.session) (λ s l. record l { session = s })

  -- datetime.datetime.now()
  abbrev pub read_clock : Action ℕ
  read_clock l = (ok (net.now l.reads), record l { reads = l.reads + 1 })

  -- `self` as it is now, and an assignment to its attributes
  abbrev pub attributes : ℕ → Action Handler
  attributes self = gets (λ l. l.objects self)

  abbrev pub assign : ℕ → (Handler → Handler) → Action (Unit {0})
  assign self f =
      modify (λ l. record l { objects = put_object self (f (l.objects self)) l.objects })

  -- One more object, with its number
  abbrev pub add_object : Handler → Action ℕ
  add_object h = do
    id ← gets (λ l. l.made)
    modify (λ l. record l { objects = put_object id h l.objects; made = l.made + 1 })
    pure id

  -- protocol_class(self.engine); the constructor of STOMP10 does not ask for the time.
  unfoldable pub new_protocol : Version → Action ℕ
  new_protocol v10 = add_object (new_handler v10 0 0)
  new_protocol v = do now ← read_clock; then_ ← read_clock; add_object (new_handler v now then_)
