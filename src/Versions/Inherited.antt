-- ===== src/Versions/Inherited.antt =====
-- What the protocol objects of STOMP11 and STOMP12 (coilmq/protocol/__init__.py) inherit of STOMP10.
use coilmq.Prelude.{
  ℕ, suc, ◌≡◌, refl, sym, ap, ◌∙◌, inl, Bool, true, false, some, ok, err, pure, Result, arith, not,
  ◌&&◌, raise_if, ◌>>◌,
}
use coilmq.Text.{is_truthy}
use coilmq.Frame.{Frame, header, transaction, Error, protocol_error}
use coilmq.Engine.{Client, State, Method}
use coilmq.Protocol.Command.{Command, command_of, is_transactional, is_connect, begin, abort}
use coilmq.Protocol.Stomp10 as Stomp10
use coilmq.Protocol.Transactions.{process-ok, run-transactional}
use coilmq.Versions.{Version, v10, v11, v12, Network, Connection, Action, on_session}
use coilmq.Versions.Dispatch.{
  Process, run_method, run_or_keep, attempt, dispatch, process_as, process_by, process_frame,
}

module _ (κ : Client) (net : Network) where
  abbrev nothing : Frame → Method κ (Unit {0})
  nothing frame = pure tt

  -- The frame is treated alike by all classes, and no frame is processed for it.
  pub record Inherits (cmd : Command) (frame : Frame) : Type 0 where
    pub in_class :
        (process : Process κ net) (v : Version) (self : ℕ) (l : Connection κ net)
        → run_or_keep κ net process v self cmd frame l
          ≡ on_session κ net (Stomp10.run_or_keep κ nothing cmd frame) l
    pub alone :
        (process : Frame → Method κ (Unit {0})) (s : State κ)
        → Stomp10.run_or_keep κ process cmd frame s ≡ Stomp10.run_or_keep κ nothing cmd frame s

  attempt-returns :
      (body otherwise : Action κ net (Unit {0})) (l l' : Connection κ net)
      → body l ≡ (ok tt, l')
      → otherwise l' ≡ (ok tt, l')
      → attempt κ net body otherwise l ≡ (ok tt, l')
  attempt-returns body otherwise l l' runs quiet =
      ap
        (λ (o : Result Error (Unit {0}) × Connection κ net). elim o.0 [
          | ok _ ↦ otherwise o.1
          | err e ↦ on_session κ net (Stomp10.report κ e) o.1
        ])
        runs
      ∙ quiet

  pub let_through :
      (ready other : Bool) (e : Error) (body : Action κ net (Unit {0})) (l : Connection κ net)
      → ready ≡ true
      → (raise_if (not ready && other) e >> body) l ≡ body l
  let_through true other e body l up = refl
  let_through false other e body l up = absurd (ground arith)

  dispatch-inherited :
      (process : Process κ net) (v : Version) (self : ℕ) (frame : Frame) (cmd : Command)
      (l : Connection κ net) (s' : State κ)
      → command_of frame.cmd ≡ some cmd
      → l.session.connected ≡ true
      → is_truthy (header frame "receipt") ≡ false
      → Inherits cmd frame
      → Stomp10.run_or_keep κ nothing cmd frame l.session ≡ (ok tt, s')
      → dispatch κ net process v self frame l ≡ (ok tt, record l { session = s' })
  unfolding dispatch Stomp10.acknowledge_receipt
  dispatch-inherited process v self frame cmd l s' valid up quiet same runs =
      let l' = record l { session = s' } in
      let body = run_or_keep κ net process v self cmd frame in
      let otherwise = on_session κ net (Stomp10.acknowledge_receipt κ cmd frame) in
      rw valid (
        let_through l.session.connected (not (is_connect cmd)) (protocol_error "Not connected.")
          (attempt κ net body otherwise) l up
        ∙ attempt-returns body otherwise l l'
            (same.in_class process v self l ∙ ap (λ o. (o.0, record l { session = o.1 })) runs)
            (rw quiet))

  by_version :
      (v : Version) (depth : ℕ) (frame : Frame) (cmd : Command) (l : Connection κ net)
      (s' : State κ)
      → (l.objects l.protocol).version ≡ v
      → command_of frame.cmd ≡ some cmd
      → l.session.connected ≡ true
      → is_truthy (header frame "receipt") ≡ false
      → Inherits cmd frame
      → Stomp10.run_or_keep κ nothing cmd frame l.session ≡ (ok tt, s')
      → process_frame κ net (suc depth) frame l ≡ (ok tt, record l { session = s' })
  unfolding process_frame process_by
  by_version v10 depth frame cmd l s' at valid up quiet same runs = rw at (
      ap (λ o. (o.0, record l { session = o.1 }))
        (process-ok κ depth frame cmd l.session s' (valid, inl up) quiet
          (same.alone (Stomp10.process_frame κ depth) l.session ∙ runs)))
  by_version v11 depth frame cmd l s' at valid up quiet same runs = rw at (
      dispatch-inherited (process_as κ net v11 l.protocol depth) v11 l.protocol frame cmd l s' valid
        up quiet same runs)
  by_version v12 depth frame cmd l s' at valid up quiet same runs = rw at (
      dispatch-inherited (process_as κ net v12 l.protocol depth) v12 l.protocol frame cmd l s' valid
        up quiet same runs)

  -- Whatever protocol object the engine has, it does with such a frame, without a receipt and on a
  -- session that is connected, what STOMP10 does.
  pub process_frame-inherited :
      (depth : ℕ) (frame : Frame) (cmd : Command) (l : Connection κ net) (s' : State κ)
      → command_of frame.cmd ≡ some cmd
      → l.session.connected ≡ true
      → is_truthy (header frame "receipt") ≡ false
      → Inherits cmd frame
      → Stomp10.run_or_keep κ nothing cmd frame l.session ≡ (ok tt, s')
      → process_frame κ net (suc depth) frame l ≡ (ok tt, record l { session = s' })
  process_frame-inherited depth frame cmd l s' valid up quiet same runs =
      by_version (l.objects l.protocol).version depth frame cmd l s' refl valid up quiet same runs

  pub Inherits-kept :
      (cmd : Command) (frame : Frame)
      → is_transactional cmd ≡ false
      → is_truthy (transaction frame) ≡ true
      → Inherits cmd frame
  unfolding run_or_keep Stomp10.run_or_keep
  Inherits-kept cmd frame other within = record {
    in_class = λ process v self l. rw (within, other);
    alone = λ process s. rw (within, other);
  }

  pub transactional-runs :
      (process : Process κ net) (v : Version) (self : ℕ) (cmd : Command) (frame : Frame)
      (l : Connection κ net)
      → is_transactional cmd ≡ true
      → run_or_keep κ net process v self cmd frame l ≡ run_method κ net process v self cmd frame l
  unfolding run_or_keep
  transactional-runs process v self cmd frame l now = ground arith

  pub Inherits-begin : (frame : Frame) → Inherits begin frame
  unfolding run_method Stomp10.run_method
  Inherits-begin frame = record {
    in_class = λ process v self l.
        transactional-runs process v self begin frame l refl
        ∙ ap (λ o. (o.0, record l { session = o.1 }))
            (sym (run-transactional κ nothing begin frame l.session refl));
    alone = λ process s.
        run-transactional κ process begin frame s refl
        ∙ sym (run-transactional κ nothing begin frame s refl);
  }

  pub Inherits-abort : (frame : Frame) → Inherits abort frame
  unfolding run_method Stomp10.run_method
  Inherits-abort frame = record {
    in_class = λ process v self l.
        transactional-runs process v self abort frame l refl
        ∙ ap (λ o. (o.0, record l { session = o.1 }))
            (sym (run-transactional κ nothing abort frame l.session refl));
    alone = λ process s.
        run-transactional κ process abort frame s refl
        ∙ sym (run-transactional κ nothing abort frame s refl);
  }
