-- ===== src/Start.antt =====
-- coilmq/start.py: the server that a configuration describes, how it is run, and the command line.
pub mod Serve
pub mod Outcome
pub mod Configured
pub mod Override
use coilmq.Prelude.{
  String, Bool, true, false, Option, none, some, List, Exec, Result, ok, err, pure, ◌>>=◌, ◌>>◌,
  focus, if◌then◌else◌,
}
use coilmq.Frame.{Error}
use coilmq.Config.{Parser, LogCall}
use coilmq.Config.Names.{Importer, resolve_name}
use coilmq.Versions.{Version}
use coilmq.Server.Tcp.{Raised, failure, StompServer, TcpServer, new_server}

-- What the program works with. `call` calls an object without arguments. `logging` performs a call
-- of the logging module. `interval` is float(text), and whether it is not 0; `octal` is int(text, 8).
-- `is_nt` says whether the system is NT.
pub record Platform : Type 1 where
  pub parser : Parser
  pub importer : Importer
  pub tcp : TcpServer importer parser.Integer
  pub call : importer.Object → Exec Error importer.Modules importer.Object
  pub logging : LogCall → Result Error (Unit {0})
  pub interval : String → Result Error Bool
  pub octal : String → Result Error parser.Integer
  pub text_of : parser.Integer → String
  pub is_nt : Bool

-- The state of the program: the global configuration, the modules, the calls that set up logging,
-- the server that context_serve made, and whether its thread of diagnostics was started.
pub record Program (C M S : Type 0) : Type 0 where
  pub settings : C
  pub modules : M
  pub logged : List LogCall
  pub server : Option S
  pub diagnostics : Bool

module _ (ρ : Platform) where
  abbrev pub Server : Type 0
  Server = StompServer ρ.tcp.Base ρ.importer.Object ρ.parser.Integer

  abbrev pub State : Type 0
  State = Program ρ.parser.Settings ρ.importer.Modules Server

  abbrev pub Method : Type 0 → Type 0
  Method A = Exec Error State A

  abbrev pub on_settings : {A : Type 0} → Exec Error ρ.parser.Settings A → Method A
  on_settings = focus (λ p. p.settings) (λ c p. record p { settings = c })

  abbrev pub on_modules : {A : Type 0} → Exec Error ρ.importer.Modules A → Method A
  on_modules = focus (λ p. p.modules) (λ m p. record p { modules = m })

  -- A value of the section [coilmq].
  abbrev pub setting : String → Method String
  setting key p = (ρ.parser.get p.settings "coilmq" key, p)

  -- resolve_name(config.get('coilmq', key))
  abbrev pub factory : String → Method ρ.importer.Object
  factory key = do name ← setting key; on_modules (resolve_name ρ.importer name)

  abbrev pub make : ρ.importer.Object → Method ρ.importer.Object
  make o = on_modules (ρ.call o)

  abbrev pub make_authenticator : Bool → Method (Option ρ.importer.Object)
  make_authenticator false = pure none
  make_authenticator true = do
    authenticator_factory ← factory "auth.factory"
    authenticator ← make authenticator_factory
    pure (some authenticator)

  abbrev pub has_authenticator : State → Bool
  has_authenticator p = ρ.parser.has_option p.settings "coilmq" "auth.factory"

  -- The (address, port) of the settings.
  abbrev pub listen_address : Method (String × ρ.parser.Integer)
  listen_address = do
    addr ← setting "listen_addr"
    port ← (λ p. (ρ.parser.getint p.settings "coilmq" "listen_port", p))
    pure (addr, port)

  -- For the queue store, the scheduler of subscribers and the scheduler of queues.
  abbrev pub Three : Type 0
  Three = ρ.importer.Object × ρ.importer.Object × ρ.importer.Object

  abbrev pub factories : Method Three
  factories = do
    queue_store_factory ← factory "qstore.factory"
    subscriber_scheduler_factory ← factory "scheduler.subscriber_priority_factory"
    queue_scheduler_factory ← factory "scheduler.queue_priority_factory"
    pure (queue_store_factory, subscriber_scheduler_factory, queue_scheduler_factory)

  abbrev pub make_each : Three → Method Three
  make_each (queue_store_factory, subscriber_scheduler_factory, queue_scheduler_factory) = do
    store ← make queue_store_factory
    subscriber_scheduler ← make subscriber_scheduler_factory
    queue_scheduler ← make queue_scheduler_factory
    pure (store, subscriber_scheduler, queue_scheduler)

  abbrev pub create : Option ρ.importer.Object → String × ρ.parser.Integer → Three → Method Server
  create authenticator address (store, subscriber_scheduler, queue_scheduler) = on_modules (
      new_server ρ.tcp address store subscriber_scheduler queue_scheduler authenticator Version.v11)

  abbrev pub with_address :
      Three → Option ρ.importer.Object → String × ρ.parser.Integer → Method Server
  with_address three authenticator address = make_each three >>= create authenticator address

  abbrev pub with_authenticator : Three → Option ρ.importer.Object → Method Server
  with_authenticator three authenticator = listen_address >>= with_address three authenticator

  abbrev pub configured_authenticator : Method (Option ρ.importer.Object)
  configured_authenticator p = make_authenticator (has_authenticator p) p

  abbrev pub with_factories : Three → Method Server
  with_factories three = configured_authenticator >>= with_authenticator three

  unfoldable pub server_from_config : Method Server
  server_from_config = factories >>= with_factories

  -- A method that a Python program runs beside others that may end it.
  abbrev pub Run : Type 0
  Run = Exec Raised State (Unit {0})

  abbrev pub failing : {A : Type 0} → Result Error A × State → Result Raised A × State
  failing (ok a, p) = (ok a, p)
  failing (err e, p) = (err (failure e), p)

  abbrev pub lifted : {A : Type 0} → Method A → Exec Raised State A
  lifted m p = failing (m p)

  -- A `with` block's object: `leave` gets the exception, if any, and says whether it is dropped.
  pub record Context : Type 0 where
    pub enter : Run
    pub leave : Option Raised → Exec Raised State Bool

  -- contextmanager(lambda: (yield))()
  abbrev pub plain : Context
  plain = record { enter = pure tt; leave = λ _. pure false }

  abbrev pub left :
      Result Raised (Unit {0}) → Result Raised Bool × State → Result Raised (Unit {0}) × State
  left o (err x, p) = (err x, p)
  left (ok _) (ok dropped, p) = (ok tt, p)
  left (err x) (ok dropped, p) = (if dropped then ok tt else err x, p)

  abbrev pub raised_by : Result Raised (Unit {0}) → Option Raised
  raised_by (ok _) = none
  raised_by (err x) = some x

  -- with context: body
  abbrev pub within : Context → Run → Run
  within context body = do
    context.enter
    (λ p. let (o, q) = body p in left o (context.leave (raised_by o) q))
