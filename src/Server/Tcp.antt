-- ===== src/Server/Tcp.antt =====
-- StompServer of coilmq/server/socket_server.py: its attributes, and how it starts and stops. What
-- TCPServer does is a parameter. The stores and schedulers that the configuration names are objects,
-- on which Python's modules and objects (`Modules`) keep the state.
use coilmq.Prelude.{
  String, Bool, true, false, Option, none, some, Exec, pure, modify, ◌>>=◌, ◌>>◌, focus,
  if◌then◌else◌,
}
use coilmq.Frame.{Error}
use coilmq.Config.Names.{Importer}
use coilmq.Versions.{Version}

-- What ends a program: KeyboardInterrupt, SystemExit and the exceptions.
pub data Raised : Type 0 where
  keyboard_interrupt system_exit : Raised
  failure : Error → Raised

-- `B` are the attributes of TCPServer, `O` the objects and `N` the numbers of Python. The queue
-- manager is known by its three parts; the topic manager has none.
pub record StompServer (B O N : Type 0) : Type 0 where
  pub address : String × N
  pub store : O
  pub subscriber_scheduler : O
  pub queue_scheduler : O
  pub authenticator : Option O
  pub protocol : Version
  pub serving_event : Bool
  pub shutdown_request_event : Bool
  pub base : B

-- socketserver.TCPServer, and the method `close` of the objects that have one. `loop` is
-- TCPServer.serve_forever with all that the requests and the other threads do meanwhile.
pub record TcpServer (ι : Importer) (N : Type 0) : Type 1 where
  pub Base : Type 0
  pub bind : String × N → Exec Error ι.Modules Base
  pub close_socket : Exec Error Base (Unit {0})
  pub stop : Exec Error Base (Unit {0})
  pub loop : Exec Raised (StompServer Base ι.Object N × ι.Modules) (Unit {0})
  pub has_close : ι.Object → Bool
  pub close : ι.Object → Exec Error ι.Modules (Unit {0})

module _ {ι : Importer} {N : Type 0} (τ : TcpServer ι N) where
  abbrev pub State : Type 0
  State = StompServer τ.Base ι.Object N × ι.Modules

  abbrev pub Method : Type 0 → Type 0
  Method A = Exec Error State A

  abbrev pub on_base : Exec Error τ.Base (Unit {0}) → Method (Unit {0})
  on_base = focus (λ s. s.0.base) (λ b s. (record s.0 { base = b }, s.1))

  abbrev pub on_modules : {A : Type 0} → Exec Error ι.Modules A → Method A
  on_modules = focus (λ s. s.1) (λ m s. (s.0, m))

  -- __init__: TCPServer.__init__ binds the address at last.
  unfoldable pub new_server :
      String × N
      → ι.Object
      → ι.Object
      → ι.Object
      → Option ι.Object
      → Version
      → Exec Error ι.Modules (StompServer τ.Base ι.Object N)
  new_server address store subscriber_scheduler queue_scheduler authenticator protocol = do
    base ← τ.bind address
    pure (record {
      address = address;
      store = store;
      subscriber_scheduler = subscriber_scheduler;
      queue_scheduler = queue_scheduler;
      authenticator = authenticator;
      protocol = protocol;
      serving_event = false;
      shutdown_request_event = false;
      base = base;
    })

  -- if hasattr(object, 'close'): object.close()
  abbrev pub close_object : ι.Object → Method (Unit {0})
  close_object o = if τ.has_close o then on_modules (τ.close o) else pure tt

  abbrev pub close_authenticator : Option ι.Object → Method (Unit {0})
  close_authenticator none = pure tt
  close_authenticator (some o) = close_object o

  -- QueueManager.close, on the objects that the manager is made of
  abbrev pub close_queues : Method (Unit {0})
  close_queues s =
      (do
        close_object s.0.store
        close_object s.0.subscriber_scheduler
        close_object s.0.queue_scheduler)
        s

  abbrev pub stop_if : Bool → Method (Unit {0})
  stop_if false = pure tt
  stop_if true = do
    modify (λ s. (record s.0 { shutdown_request_event = true; serving_event = false }, s.1))
    on_base τ.stop

  unfoldable pub shutdown : Method (Unit {0})
  shutdown s = stop_if s.0.serving_event s

  -- The topic manager's `close` does nothing.
  unfoldable pub server_close : Method (Unit {0})
  unfolding shutdown
  server_close = do
    on_base τ.close_socket
    close_queues
    (λ s. close_authenticator s.0.authenticator s)
    shutdown

  unfoldable pub serve_forever : Exec Raised State (Unit {0})
  serve_forever = do
    modify (λ s. (record s.0 { serving_event = true; shutdown_request_event = false }, s.1))
    τ.loop
