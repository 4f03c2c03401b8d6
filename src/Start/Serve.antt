-- ===== src/Start/Serve.antt =====
-- context_serve and _main of coilmq/start.py.
use coilmq.Prelude.{
  ℕ, String, Bool, true, false, ◌&&◌, ◌||◌, not, raise, Option, none, some, [], ◌∷◌, ◌++◌, Exec,
  Result, ok, err, pure, raise_if, modify, ◌>>=◌, ◌>>◌, if◌then◌else◌,
}
use coilmq.Dict.{or_else}
use coilmq.Text.{is_truthy}
use coilmq.Frame.{Error, name_error, type_error}
use coilmq.Config.{LogCall, init_config, init_logging}
use coilmq.Server.Tcp.{Raised, system_exit, failure, server_close, serve_forever}
use coilmq.Start.{
  Platform, Server, State, Method, Run, Context, plain, on_settings, setting, server_from_config,
  lifted, within,
}

-- What context_serve and _main get from the command line; a daemon has a user, a group, a file with
-- its process id, a mask and a directory.
pub record Options (N : Type 0) : Type 0 where
  pub config : Option String
  pub host : Option String
  pub port : Option N
  pub logfile : Option String
  pub debug : Bool
  pub daemon : Bool
  pub uid : Option String
  pub gid : Option String
  pub pidfile : Option String
  pub umask : Option String
  pub rundir : Option String

module _ (ρ : Platform) where
  -- A call that sets up logging.
  abbrev pub log_call : LogCall → Method ρ (Unit {0})
  log_call call p = elim (ρ.logging call) [
    | ok _ ↦ (ok tt, record p { logged = p.logged ++ (call ∷ []) })
    | err e ↦ (err e, p)
  ]

  -- logging.DEBUG and logging.INFO
  abbrev pub level_of : Bool → ℕ
  level_of debug = if debug then 10 else 20

  -- `if debug:` the thread that writes the sizes of the queues to the log is started, unless the
  -- interval is 0.
  abbrev pub start_diagnostics : Bool → Method ρ (Unit {0})
  start_diagnostics false = pure tt
  start_diagnostics true = do
    text ← setting ρ "debug.stats_poll_interval"
    wanted ← (λ p. (ρ.interval text, p))
    modify (λ p. record p { diagnostics = wanted || p.diagnostics })

  -- Before the server serves.
  unfoldable pub prepare : Options ρ.parser.Integer → Method ρ (Server ρ)
  prepare options = do
    init_logging ρ.parser log_call options.logfile (level_of options.debug) options.config
    server ← server_from_config ρ
    modify (λ p. record p { server = some server })
    start_diagnostics options.debug
    pure server

  abbrev pub with_server :
      {A : Type 0} → State ρ → A × (Server ρ × ρ.importer.Modules) → A × State ρ
  with_server p (o, (server, m)) = (o, record p { server = some server; modules = m })

  abbrev pub serve : Server ρ → Run ρ
  serve server p = with_server p (serve_forever ρ.tcp (server, p.modules))

  -- The lines of the `with` block.
  unfoldable pub serve_block : Options ρ.parser.Integer → Run ρ
  unfolding prepare
  serve_block options = do server ← lifted ρ (prepare options); serve server

  -- Both `except` clauses end in `raise SystemExit()`.
  abbrev pub to_exit : {A : Type 0} → Result Raised A → Result Raised A
  to_exit (ok a) = ok a
  to_exit (err x) = err system_exit

  abbrev pub close_if : Option (Server ρ) → Method ρ (Unit {0})
  close_if none p = (ok tt, p)
  close_if (some server) p = with_server p (server_close ρ.tcp (server, p.modules))

  -- What server_close raises takes the place of what came before.
  abbrev pub after_close :
      Result Raised (Unit {0})
      → Result Error (Unit {0}) × State ρ
      → Result Raised (Unit {0}) × State ρ
  after_close o (ok _, p) = (o, p)
  after_close o (err e, p) = (err (failure e), p)

  -- `finally: if server: server.server_close()`
  abbrev pub finally_close : Result Raised (Unit {0}) → Run ρ
  finally_close o p = after_close o (close_if p.server p)

  unfoldable pub context_serve : Context ρ → Options ρ.parser.Integer → Run ρ
  unfolding serve_block
  context_serve context options p =
      let (o, q) = within ρ context (serve_block options) (record p { server = none }) in
      finally_close (to_exit o) q

  abbrev pub set_host : Option String → Method ρ (Unit {0})
  set_host none = pure tt
  set_host (some host) = on_settings ρ (ρ.parser.set "coilmq" "listen_addr" host)

  -- The module `warnings` is not imported.
  abbrev pub set_port : Bool → Option ρ.parser.Integer → Method ρ (Unit {0})
  set_port daemon none = pure tt
  set_port daemon (some port) = do
    on_settings ρ (ρ.parser.set "coilmq" "listen_port" (ρ.text_of port))
    raise_if (daemon && ρ.is_nt) (name_error "warnings")

  -- The lines of _main that change the configuration.
  unfoldable pub configure : Options ρ.parser.Integer → Method ρ (Unit {0})
  configure options = do
    on_settings ρ (init_config ρ.parser options.config)
    set_host options.host
    set_port options.daemon options.port

  -- pid.PidFile and pydaemon.DaemonContext
  pub record Daemons : Type 1 where
    pub PidFile : Type 0
    pub pid_file : String → Result Error PidFile
    pub context :
        Option String
        → Option String
        → Option PidFile
        → ρ.parser.Integer
        → Option String
        → Result Error (Context ρ)

module _ (ρ : Platform) (δ : Daemons ρ) where
  abbrev pub Made : Type 0 → Type 0
  Made A = Exec Error (State ρ) A

  abbrev pub answered : {A : Type 0} → Result Error A → Made A
  answered r p = (r, p)

  -- pid.PidFile(pidname=pidfile) if pidfile else None
  abbrev pub made_pid_file : Bool → String → Made (Option δ.PidFile)
  made_pid_file false pidfile = pure none
  made_pid_file true pidfile = do file ← answered (δ.pid_file pidfile); pure (some file)

  -- int(umask, 8), where None is no text
  abbrev pub mask_of : Option String → Made ρ.parser.Integer
  mask_of none = raise type_error
  mask_of (some umask) = answered (ρ.octal umask)

  -- The context: a daemon's, unless the system is NT.
  abbrev pub context_of : Bool → Options ρ.parser.Integer → Made (Context ρ)
  context_of false options = pure (plain ρ)
  context_of true options = do
    file ← made_pid_file (is_truthy options.pidfile) (or_else options.pidfile "")
    mask ← mask_of options.umask
    answered (δ.context options.uid options.gid file mask options.rundir)

  abbrev pub prepared : Options ρ.parser.Integer → Made (Context ρ)
  prepared options = do configure ρ options; context_of (options.daemon && not ρ.is_nt) options

  -- _main, and main, which calls it with the options
  unfoldable pub main : Options ρ.parser.Integer → Run ρ
  main options = do context ← lifted ρ (prepared options); context_serve ρ context options
