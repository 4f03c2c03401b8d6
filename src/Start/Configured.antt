-- ===== src/Start/Configured.antt =====
-- Which server the configuration and the command line of coilmq/start.py describe.
use coilmq.Prelude.{
  String, ◌≡◌, ap, sym, ◌∙◌, Bool, true, false, Option, none, some, Result, ok, err, Exec, ◌>>=◌,
  bind-returns, continue, arith, pure,
}
use coilmq.Dict.{is_some}
use coilmq.Frame.{Error}
use coilmq.Config.Names.{resolve_name}
use coilmq.Versions.{Version}
use coilmq.Server.Tcp.{new_server}
use coilmq.Start.{
  Platform, Server, State, Method, on_modules, setting, factory, make, make_authenticator,
  has_authenticator, listen_address, server_from_config, factories, make_each, create, with_address,
  with_authenticator, configured_authenticator, with_factories, Three,
}

module _ (ρ : Platform) where
  -- What the settings say of the server.
  pub record IsConfigured (p : State ρ) (server : Server ρ) : Type 0 where
    pub addr : ρ.parser.get p.settings "coilmq" "listen_addr" ≡ ok server.address.0
    pub port : ρ.parser.getint p.settings "coilmq" "listen_port" ≡ ok server.address.1
    pub authenticated : is_some server.authenticator ≡ has_authenticator ρ p
    pub idle : server.serving_event ≡ false
    pub version : server.protocol ≡ Version.v11

  -- A method that returns leaves the settings alone.
  abbrev Keeps : {A : Type 0} → Method ρ A → Type 0
  Keeps {A} m = (a : A) (p q : State ρ) → m p ≡ (ok a, q) → q.settings ≡ p.settings

  bind-Keeps :
      {A B : Type 0} (m : Method ρ A) (f : A → Method ρ B)
      → Keeps m
      → ((a : A) → Keeps (f a))
      → Keeps (m >>= f)
  bind-Keeps m f first each b p q e =
      let (a, t, e', e'') = bind-returns m f p q b e in each a b t q e'' ∙ first a p t e'

  stay : {A : Type 0} (r : Result Error A) → Keeps (λ p. (r, p))
  stay r a p q e = ap (λ o. o.1.settings) (sym e)

  on_modules-Keeps : {A : Type 0} (m : Exec Error ρ.importer.Modules A) → Keeps (on_modules ρ m)
  on_modules-Keeps m a p q e = ap (λ o. o.1.settings) (sym e)

  setting-Keeps : (key : String) → Keeps (setting ρ key)
  setting-Keeps key a p q e = ap (λ o. o.1.settings) (sym e)

  factory-Keeps : (key : String) → Keeps (factory ρ key)
  factory-Keeps key =
      bind-Keeps (setting ρ key) (λ name. on_modules ρ (resolve_name ρ.importer name))
        (setting-Keeps key) (λ name. on_modules-Keeps (resolve_name ρ.importer name))

  factories-Keeps : Keeps (factories ρ)
  factories-Keeps =
      bind-Keeps (factory ρ "qstore.factory")
        (λ a.
          factory ρ "scheduler.subscriber_priority_factory"
          >>= (λ b. factory ρ "scheduler.queue_priority_factory" >>= (λ c. pure (a, b, c))))
        (factory-Keeps "qstore.factory")
        (λ a.
          bind-Keeps (factory ρ "scheduler.subscriber_priority_factory")
            (λ b. factory ρ "scheduler.queue_priority_factory" >>= (λ c. pure (a, b, c)))
            (factory-Keeps "scheduler.subscriber_priority_factory")
            (λ b.
              bind-Keeps (factory ρ "scheduler.queue_priority_factory") (λ c. pure (a, b, c))
                (factory-Keeps "scheduler.queue_priority_factory") (λ c. stay (ok (a, b, c)))))

  make_authenticator-Keeps :
      (wanted : Bool) (o : Option ρ.importer.Object) (p q : State ρ)
      → make_authenticator ρ wanted p ≡ (ok o, q)
      → (q.settings ≡ p.settings) × (is_some o ≡ wanted)
  make_authenticator-Keeps false o p q e = (stay (ok none) o p q e, ground arith)
  make_authenticator-Keeps true o p q e =
      let (f, t, e1, e2) =
        bind-returns (factory ρ "auth.factory") (λ f. make ρ f >>= (λ a. pure (some a))) p q o e in
      let (a, u, e3, e4) = bind-returns (make ρ f) (λ a. pure (some a)) t q o e2 in
      (
        stay (ok (some a)) o u q e4
            ∙ (on_modules-Keeps (ρ.call f) a t u e3 ∙ factory-Keeps "auth.factory" f p t e1),
        ground arith,
      )

  listen_address-settings :
      (address : String × ρ.parser.Integer) (p q : State ρ)
      → listen_address ρ p ≡ (ok address, q)
      → (ρ.parser.get p.settings "coilmq" "listen_addr" ≡ ok address.0)
        × (ρ.parser.getint p.settings "coilmq" "listen_port" ≡ ok address.1)
        × (q.settings ≡ p.settings)
  listen_address-settings address p q e =
      let (addr, t, e1, e2) =
        bind-returns (setting ρ "listen_addr") (λ addr. port >>= (λ n. pure (addr, n))) p q address
          e in
      let (n, u, e3, e4) = bind-returns port (λ n. pure (addr, n)) t q address e2 in
      (
        ap (λ o. o.0) e1 ∙ ground arith,
        ap (λ c. ρ.parser.getint c "coilmq" "listen_port") (ap (λ o. o.1.settings) e1)
            ∙ (ap (λ o. o.0) e3 ∙ ground arith),
        ap (λ o. o.1.settings) (sym e4)
            ∙ (ap (λ o. o.1.settings) (sym e3) ∙ ap (λ o. o.1.settings) (sym e1)),
      )
    where
      port : Method ρ ρ.parser.Integer
      port p = (ρ.parser.getint p.settings "coilmq" "listen_port", p)

  create-IsMade :
      (authenticator : Option ρ.importer.Object) (address : String × ρ.parser.Integer)
      (three : Three ρ) (server : Server ρ) (p q : State ρ)
      → create ρ authenticator address three p ≡ (ok server, q)
      → (server.address ≡ address)
        × (server.authenticator ≡ authenticator)
        × (server.serving_event ≡ false)
        × (server.protocol ≡ Version.v11)
  unfolding new_server
  create-IsMade authenticator address (a, b, c) server p q e =
      bound (ρ.tcp.bind address p.modules) e
    where
      made : ρ.tcp.Base → Server ρ
      made base = record {
        address = address;
        store = a;
        subscriber_scheduler = b;
        queue_scheduler = c;
        authenticator = authenticator;
        protocol = Version.v11;
        serving_event = false;
        shutdown_request_event = false;
        base = base;
      }

      stored : Result Error (Server ρ) × ρ.importer.Modules → Result Error (Server ρ) × State ρ
      stored (r, m) = (r, record p { modules = m })

      bound :
          (o : Result Error ρ.tcp.Base × ρ.importer.Modules)
          → stored (continue (λ base. pure (made base)) o) ≡ (ok server, q)
          → (server.address ≡ address)
            × (server.authenticator ≡ authenticator)
            × (server.serving_event ≡ false)
            × (server.protocol ≡ Version.v11)
      bound (ok base, m) e =
          let same : made base ≡ server = ground arith in
          (
            ap (λ sv. sv.address) (sym same),
            ap (λ sv. sv.authenticator) (sym same),
            ap (λ sv. sv.serving_event) (sym same),
            ap (λ sv. sv.protocol) (sym same),
          )
      bound (err x, m) e = absurd (ground arith)

  make_each-Keeps : (three : Three ρ) → Keeps (make_each ρ three)
  make_each-Keeps (f, g, h) =
      bind-Keeps (make ρ f) (λ a. make ρ g >>= (λ b. make ρ h >>= (λ c. pure (a, b, c))))
        (on_modules-Keeps (ρ.call f))
        (λ a.
          bind-Keeps (make ρ g) (λ b. make ρ h >>= (λ c. pure (a, b, c)))
            (on_modules-Keeps (ρ.call g))
            (λ b.
              bind-Keeps (make ρ h) (λ c. pure (a, b, c)) (on_modules-Keeps (ρ.call h))
                (λ c. stay (ok (a, b, c)))))

  -- A server that server_from_config makes listens at the address and the port of the settings,
  -- speaks STOMP 1.1 first, is not serving yet, and has an authenticator exactly if the settings
  -- have the option auth.factory. The settings stay as they were.
  pub server_from_config-IsConfigured :
      (server : Server ρ) (p q : State ρ)
      → server_from_config ρ p ≡ (ok server, q)
      → IsConfigured p server × (q.settings ≡ p.settings)
  unfolding server_from_config
  server_from_config-IsConfigured server p q e =
      let (three, p1, e1, f1) = bind-returns (factories ρ) (with_factories ρ) p q server e in
      let (o, p2, e2, f2) =
        bind-returns (configured_authenticator ρ) (with_authenticator ρ three) p1 q server f1 in
      let (address, p3, e3, f3) =
        bind-returns (listen_address ρ) (with_address ρ three o) p2 q server f2 in
      let (made, p4, e4, f4) =
        bind-returns (make_each ρ three) (create ρ o address) p3 q server f3 in
      let k1 = factories-Keeps three p p1 e1 in
      let (k2, wanted) = make_authenticator-Keeps (has_authenticator ρ p1) o p1 p2 e2 in
      let (addr, port, k3) = listen_address-settings address p2 p3 e3 in
      let (at, who, off, version) = create-IsMade o address made server p4 q f4 in
      let k4 = make_each-Keeps three made p3 p4 e4 in
      let k5 =
        on_modules-Keeps (new_server ρ.tcp address made.0 made.1 made.2 o Version.v11) server p4 q
          f4 in
      let kept : p2.settings ≡ p.settings = k2 ∙ k1 in
      (
        record {
          addr =
              ap (λ c. ρ.parser.get c "coilmq" "listen_addr") (sym kept)
              ∙ (addr ∙ ap (λ a. ok a.0) (sym at));
          port =
              ap (λ c. ρ.parser.getint c "coilmq" "listen_port") (sym kept)
              ∙ (port ∙ ap (λ a. ok a.1) (sym at));
          authenticated =
              ap is_some who
              ∙ (wanted ∙ ap (λ c. ρ.parser.has_option c "coilmq" "auth.factory") k1);
          idle = off;
          version = version;
        },
        k5 ∙ (k4 ∙ (k3 ∙ kept)),
      )
