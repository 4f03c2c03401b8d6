-- ===== src/Start/Outcome.antt =====
-- How context_serve and _main of coilmq/start.py end.
use mathlib.Core.Path.{subst}
use coilmq.Prelude.{
  ◌≡◌, refl, sym, ◌⊎◌, inl, inr, Bool, true, false, Option, none, some, Result, ok, err,
}
use coilmq.Server.Tcp.{Raised, system_exit}
use coilmq.Server.Closing.{ClosesQuietly, stopped, server_close-stopped}
use coilmq.Start.{Platform, Server, State, Context, within}
use coilmq.Start.Serve.{
  Options, to_exit, serve_block, close_if, with_server, after_close, finally_close, context_serve,
}

module _ (ρ : Platform) where
  -- There is no server, or it is no longer marked as serving.
  abbrev pub IsStopped : Option (Server ρ) → Type 0
  IsStopped none = Unit {0}
  IsStopped (some server) = server.serving_event ≡ false

  -- Nothing but SystemExit is raised.
  abbrev pub IsQuiet : Result Raised (Unit {0}) → Type 0
  IsQuiet o = (o ≡ ok tt) ⊎ (o ≡ err system_exit)

  to_exit-IsQuiet : (o : Result Raised (Unit {0})) → IsQuiet (to_exit ρ o)
  to_exit-IsQuiet (ok _) = inl refl
  to_exit-IsQuiet (err x) = inr refl

  module _ (quiet : ClosesQuietly ρ.tcp) where
    stopped-IsStopped :
        (b : Bool) (server : Server ρ)
        → server.serving_event ≡ b
        → (stopped ρ.tcp b server).serving_event ≡ false
    stopped-IsStopped false server e = e
    stopped-IsStopped true server e = refl

    after_close-IsStopped :
        (o : Result Raised (Unit {0})) (server : Option (Server ρ)) (p : State ρ)
        → p.server ≡ server
        → let (o', q) = after_close ρ o (close_if ρ server p) in (o' ≡ o) × IsStopped q.server
    after_close-IsStopped o none p e = rw e (refl, tt)
    after_close-IsStopped o (some sv) p e =
        subst
          (λ c. let (o', q) = after_close ρ o (with_server ρ p c) in (o' ≡ o) × IsStopped q.server)
          (sym (server_close-stopped ρ.tcp quiet sv p.modules))
          (refl, stopped-IsStopped sv.serving_event sv refl)

    -- If no closing of the socket, the store, the schedulers and the authenticator raises, then
    -- context_serve returns or raises SystemExit, whatever its context, the configuration, the
    -- server and the requests raise; and then there is no server, or it is not
    -- marked as serving.
    pub context_serve-IsStopped :
        (context : Context ρ) (options : Options ρ.parser.Integer) (p : State ρ)
        → IsQuiet (context_serve ρ context options p).0
          × IsStopped (context_serve ρ context options p).1.server
    unfolding context_serve
    context_serve-IsStopped context options p =
        ended (within ρ context (serve_block ρ options) (record p { server = none }))
      where
        ended :
            (o : Result Raised (Unit {0}) × State ρ)
            → IsQuiet (finally_close ρ (to_exit ρ o.0) o.1).0
              × IsStopped (finally_close ρ (to_exit ρ o.0) o.1).1.server
        ended (o, q) =
            let (same, off) = after_close-IsStopped (to_exit ρ o) q.server q refl in
            (rw same (to_exit-IsQuiet o), off)
