-- ===== src/Start/Override.antt =====
-- The options of the command line against the configuration file (_main of coilmq/start.py).
use coilmq.Config.Names.{mentions}
use coilmq.Prelude.{
  ℕ, eq_iff, String, ◌≡◌, refl, ap, sym, ◌∙◌, ◌≢◌, Bool, true, false, ◌&&◌, not, Option, none, some,
  ok, err, ◌>>◌, bind-returns, bind-ok, bind-continue, arith, raise_if,
}
use coilmq.Text.{lower}
use coilmq.Frame.{type_error, name_error}
use coilmq.Config.{Parser, init_config}
use coilmq.Server.Tcp.{failure}
use coilmq.Start.{Platform, Server, State, on_settings, server_from_config, lifted, failing}
use coilmq.Start.Serve.{
  Options, Daemons, configure, set_host, set_port, main, context_of, prepared, context_serve,
}
use coilmq.Start.Configured.{server_from_config-IsConfigured}

-- "%", which starts a reference to another value
abbrev percent : ℕ
percent = 37

-- What ConfigParser promises of the options of a section, of whose names it takes the lower case: an
-- integer that was set is there, and so is a text without references that was set, also when an option
-- of another name is set after it. `text_of` is str.
pub record KeepsSettings (π : Parser) (text_of : π.Integer → String) : Type 0 where
  pub getint_set :
      (section key : String) (n : π.Integer) (c d : π.Settings)
      → π.set section key (text_of n) c ≡ (ok tt, d)
      → π.getint d section key ≡ ok n
  pub get_set_other :
      (section key other value later : String) (c d e : π.Settings)
      → mentions percent value ≡ false
      → ◌≢◌ {A = String} (lower key) (lower other)
      → π.set section other value c ≡ (ok tt, d)
      → π.set section key later d ≡ (ok tt, e)
      → π.get e section other ≡ ok value

module _ (ρ : Platform) (laws : KeepsSettings ρ.parser ρ.text_of) where
  names_apart : ◌≢◌ {A = String} (lower "listen_port") (lower "listen_addr")
  unfolding lower
  names_apart = ground (arith, eq_iff "listen_port" "listen_addr")

  -- What `set_port` did, with the host that was set before it.
  port_set :
      (daemon : Bool) (host : String) (port : ρ.parser.Integer) (p q r : State ρ)
      → mentions percent host ≡ false
      → set_host ρ (some host) p ≡ (ok tt, q)
      → set_port ρ daemon (some port) q ≡ (ok tt, r)
      → (ρ.parser.getint r.settings "coilmq" "listen_port" ≡ ok port)
        × (ρ.parser.get r.settings "coilmq" "listen_addr" ≡ ok host)
  port_set daemon host port p q r plain first e =
      let (_, t, e1, e2) =
        bind-returns (on_settings ρ (ρ.parser.set "coilmq" "listen_port" (ρ.text_of port)))
          (λ _. raise_if (daemon && ρ.is_nt) (name_error "warnings")) q r tt e in
      let stored : ρ.parser.set "coilmq" "listen_port" (ρ.text_of port) q.settings
          ≡ (ok tt, r.settings) =
        ap (λ o. (o.0, o.1.settings)) e1 ∙ ap (λ o. (ok tt, o.1.settings)) e2 in
      (
        laws.getint_set "coilmq" "listen_port" port q.settings r.settings stored,
        laws.get_set_other "coilmq" "listen_port" "listen_addr" host (ρ.text_of port) p.settings
            q.settings r.settings plain names_apart (ap (λ o. (o.0, o.1.settings)) first) stored,
      )

  -- A host and a port on the command line override the configuration, whatever the file says: if
  -- the host has no "%", ConfigParser keeps what is set, and a server is made after the
  -- configuration is read and overridden, then it listens at that host and port.
  pub server_from_config-configure :
      (options : Options ρ.parser.Integer) (host : String) (port : ρ.parser.Integer)
      (server : Server ρ) (p q r : State ρ)
      → options.host ≡ some host
      → options.port ≡ some port
      → mentions percent host ≡ false
      → configure ρ options p ≡ (ok tt, q)
      → server_from_config ρ q ≡ (ok server, r)
      → server.address ≡ (host, port)
  unfolding configure
  server_from_config-configure options host port server p q r at_host at_port plain configured
        made =
      let (_, t, e1, e2) =
        bind-returns (on_settings ρ (init_config ρ.parser options.config))
          (λ _. set_host ρ options.host >> set_port ρ options.daemon options.port) p q tt
          configured in
      let (_, u, e3, e4) =
        bind-returns (set_host ρ options.host) (λ _. set_port ρ options.daemon options.port) t q tt
          e2 in
      let (here, there) =
        port_set options.daemon host port t u q plain (ap (λ o. set_host ρ o t) (sym at_host) ∙ e3)
          (ap (λ o. set_port ρ options.daemon o u) (sym at_port) ∙ e4) in
      let is = (server_from_config-IsConfigured ρ server q r made).0 in
      let same_host : server.address.0 ≡ host = ground (arith, is.addr, there) in
      let same_port : server.address.1 ≡ port = ground (arith, is.port, here) in
      λ i. (same_host i, same_port i)

module _ (ρ : Platform) (δ : Daemons ρ) where
  refused :
      (daemon : Bool) (pidfile umask : Option String) (options : Options ρ.parser.Integer)
      (q : State ρ)
      → daemon ≡ true
      → pidfile ≡ none
      → umask ≡ none
      → context_of ρ δ daemon (record options { pidfile = pidfile; umask = umask }) q
        ≡ (err type_error, q)
  refused false pidfile umask options q d f m = absurd (ground arith)
  refused true (some file) umask options q d f m = absurd (ground arith)
  refused true none (some mask) options q d f m = absurd (ground arith)
  refused true none none options q d f m = refl

  -- A daemon without the option umask never starts: once the configuration is read, _main raises a
  -- TypeError and makes no server. The system is not NT, and no file for the process id is asked for.
  pub main_without_umask :
      (options : Options ρ.parser.Integer) (p q : State ρ)
      → ρ.is_nt ≡ false
      → options.daemon ≡ true
      → options.umask ≡ none
      → options.pidfile ≡ none
      → configure ρ options p ≡ (ok tt, q)
      → main ρ δ options p ≡ (err (failure type_error), q)
  unfolding main
  main_without_umask options p q nt daemon mask file configured =
      let daemonic : (options.daemon && not ρ.is_nt) ≡ true = ground arith in
      bind-continue (lifted ρ (prepared ρ δ options)) (λ context. context_serve ρ context options) p
        (err (failure type_error), q)
        (ap (failing ρ) (
          bind-ok (configure ρ options)
            (λ _. context_of ρ δ (options.daemon && not ρ.is_nt) options) p q tt configured
          ∙ refused (options.daemon && not ρ.is_nt) options.pidfile options.umask options q daemonic
              file mask))
