-- ===== src/Server/Closing.antt =====
-- What shutdown and server_close of StompServer (coilmq/server/socket_server.py) leave behind.
use coilmq.Prelude.{
  ◌≡◌, refl, ◌∙◌, Bool, true, false, Option, none, some, Result, ok, err, ◌>>◌, continue, bind-ok,
  bind-continue, Exec, Bool-cases, inl, inr, if◌then◌else◌,
}
use coilmq.Frame.{Error}
use coilmq.Config.Names.{Importer}
use coilmq.Server.Tcp.{
  StompServer, TcpServer, State, Method, on_base, close_object, close_authenticator, close_queues,
  stop_if, shutdown, server_close,
}

module _ {ι : Importer} {N : Type 0} (τ : TcpServer ι N) where
  again :
      (o : Result Error (Unit {0}) × State τ)
      → o.1.0.serving_event ≡ false
      → continue (λ _. shutdown τ) o ≡ o
  unfolding shutdown
  again (ok _, s) off = rw off refl
  again (err e, s) off = refl

  off_after :
      (b : Bool) (s : State τ) → s.0.serving_event ≡ b → (stop_if τ b s).1.0.serving_event ≡ false
  off_after false s at = at
  off_after true s at = refl

  -- To shut a server down twice is to shut it down once.
  pub shutdown_idem : (s : State τ) → (shutdown τ >> shutdown τ) s ≡ shutdown τ s
  unfolding shutdown
  shutdown_idem s = again (shutdown τ s) (off_after s.0.serving_event s refl)

  -- No closing raises.
  pub record ClosesQuietly : Type 0 where
    pub socket : (b : τ.Base) → (τ.close_socket b).0 ≡ ok tt
    pub stop : (b : τ.Base) → (τ.stop b).0 ≡ ok tt
    pub objects : (o : ι.Object) (m : ι.Modules) → τ.has_close o ≡ true → (τ.close o m).0 ≡ ok tt

  -- The modules after an object that has a `close` was closed.
  abbrev pub closed : ι.Object → ι.Modules → ι.Modules
  closed o m = if τ.has_close o then (τ.close o m).1 else m

  abbrev pub closed_option : Option ι.Object → ι.Modules → ι.Modules
  closed_option none m = m
  closed_option (some o) m = closed o m

  -- The server whose socket is closed, and which is told to stop if it was serving.
  abbrev pub stopped : Bool → StompServer τ.Base ι.Object N → StompServer τ.Base ι.Object N
  stopped false sv = record sv { base = (τ.close_socket sv.base).1 }
  stopped true sv = record sv {
    base = (τ.stop (τ.close_socket sv.base).1).1;
    shutdown_request_event = true;
    serving_event = false;
  }

  abbrev pub all_closed : StompServer τ.Base ι.Object N → ι.Modules → ι.Modules
  all_closed sv m =
      closed_option sv.authenticator
        (closed sv.queue_scheduler (closed sv.subscriber_scheduler (closed sv.store m)))

  on_base-quiet :
      (m : Exec Error τ.Base (Unit {0})) (s : State τ)
      → (m s.0.base).0 ≡ ok tt
      → on_base τ m s ≡ (ok tt, (record s.0 { base = (m s.0.base).1 }, s.1))
  on_base-quiet m s e = rw e refl

  module _ (quiet : ClosesQuietly) where
    close_object-closed :
        (o : ι.Object) (s : State τ) → close_object τ o s ≡ (ok tt, (s.0, closed o s.1))
    close_object-closed o s = elim (Bool-cases (τ.has_close o)) [
      | inl h ↦ rw (h, quiet.objects o s.1 h) refl
      | inr h ↦ rw h refl
    ]

    close_authenticator-closed :
        (o : Option ι.Object) (s : State τ)
        → close_authenticator τ o s ≡ (ok tt, (s.0, closed_option o s.1))
    close_authenticator-closed none s = refl
    close_authenticator-closed (some o) s = close_object-closed o s

    close_queues-closed :
        (s : State τ)
        → close_queues τ s ≡ (
          ok tt,
          (
            s.0,
            closed s.0.queue_scheduler (closed s.0.subscriber_scheduler (closed s.0.store s.1)),
          ),
        )
    close_queues-closed s =
        bind-ok (close_object τ s.0.store)
          (λ _. close_object τ s.0.subscriber_scheduler >> close_object τ s.0.queue_scheduler) s t
          tt (close_object-closed s.0.store s)
        ∙ (bind-ok (close_object τ s.0.subscriber_scheduler)
              (λ _. close_object τ s.0.queue_scheduler) t u tt
              (close_object-closed s.0.subscriber_scheduler t)
            ∙ close_object-closed s.0.queue_scheduler u)
      where
        t : State τ
        t = (s.0, closed s.0.store s.1)

        u : State τ
        u = (s.0, closed s.0.subscriber_scheduler t.1)

    stop_if-stopped :
        (b : Bool) (sv : StompServer τ.Base ι.Object N) (m : ι.Modules)
        → stop_if τ b (record sv { base = (τ.close_socket sv.base).1 }, m)
          ≡ (ok tt, (stopped b sv, m))
    stop_if-stopped false sv m = refl
    stop_if-stopped true sv m =
        on_base-quiet τ.stop
          (
            record sv {
              base = (τ.close_socket sv.base).1;
              shutdown_request_event = true;
              serving_event = false;
            },
            m,
          )
          (quiet.stop (τ.close_socket sv.base).1)

    -- If no closing raises, then server_close returns. It has closed the socket and each object of
    -- the queue manager and the authenticator that has a `close`, in this order; a server that was
    -- serving has its request for a shutdown set and is no longer marked as serving, and TCPServer
    -- was told to stop; for any other server TCPServer was not told.
    pub server_close-stopped :
        (sv : StompServer τ.Base ι.Object N) (m : ι.Modules)
        → server_close τ (sv, m) ≡ (ok tt, (stopped sv.serving_event sv, all_closed sv m))
    unfolding server_close shutdown
    server_close-stopped sv m =
        bind-ok (on_base τ τ.close_socket) (λ _. rest) (sv, m) (sv', m) tt
          (on_base-quiet τ.close_socket (sv, m) (quiet.socket sv.base))
        ∙ (bind-ok (close_queues τ) (λ _. last) (sv', m) (sv', m') tt (close_queues-closed (sv', m))
            ∙ (bind-ok (λ s. close_authenticator τ s.0.authenticator s) (λ _. shutdown τ) (sv', m')
                  (sv', all_closed sv m) tt (close_authenticator-closed sv.authenticator (sv', m'))
                ∙ stop_if-stopped sv.serving_event sv (all_closed sv m)))
      where
        sv' : StompServer τ.Base ι.Object N
        sv' = record sv { base = (τ.close_socket sv.base).1 }

        m' : ι.Modules
        m' = closed sv.queue_scheduler (closed sv.subscriber_scheduler (closed sv.store m))

        last : Method τ (Unit {0})
        last = (λ s. close_authenticator τ s.0.authenticator s) >> shutdown τ

        rest : Method τ (Unit {0})
        rest = close_queues τ >> last

  -- If closing the store raises, then server_close raises the same exception. A server that was
  -- serving is left serving, with no request for a shutdown set, and neither the schedulers nor the
  -- authenticator are closed. The socket was closed without an exception.
  pub server_close_fails :
      (sv : StompServer τ.Base ι.Object N) (m : ι.Modules) (e : Error)
      → (τ.close_socket sv.base).0 ≡ ok tt
      → τ.has_close sv.store ≡ true
      → (τ.close sv.store m).0 ≡ err e
      → server_close τ (sv, m)
        ≡ (err e, (record sv { base = (τ.close_socket sv.base).1 }, (τ.close sv.store m).1))
  unfolding server_close
  server_close_fails sv m e socket has fails =
      bind-ok (on_base τ τ.close_socket) (λ _. close_queues τ >> last) (sv, m) s tt
        (on_base-quiet τ.close_socket (sv, m) socket)
      ∙ bind-continue (close_queues τ) (λ _. last) s (err e, s')
          (bind-continue (close_object τ sv.store) (λ _. schedulers) s (err e, s')
            (rw (has, fails) refl))
    where
      s : State τ
      s = (record sv { base = (τ.close_socket sv.base).1 }, m)

      s' : State τ
      s' = (s.0, (τ.close sv.store m).1)

      schedulers : Method τ (Unit {0})
      schedulers = close_object τ sv.subscriber_scheduler >> close_object τ sv.queue_scheduler

      last : Method τ (Unit {0})
      last = (λ s. close_authenticator τ s.0.authenticator s) >> shutdown τ
