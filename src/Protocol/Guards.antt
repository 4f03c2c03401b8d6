-- ===== src/Protocol/Guards.antt =====
-- What `process_frame` (coilmq/protocol/__init__.py) lets through, and what it raises.
use coilmq.Prelude.{
  ℕ, suc, String, ◌≡◌, refl, ap, ◌∙◌, ◌⊎◌, inl, inr, true, false, ◌&&◌, none, some, ok, err, Result,
  string_equality, nat_equality, Bool-cases,
}
use coilmq.Dict.{or_else}
use coilmq.Text.{is_truthy, ◌+s◌, codes}
use coilmq.Frame.{Frame, header, error_frame, receipt_frame, Error, protocol_error}
use coilmq.Host.{send_frame}
use coilmq.Queue.Deliver.{accepted}
use coilmq.Engine.{Client, State, Method, reply}
use coilmq.Protocol.Command.{Command, command_of, is_connect, is_not_connect}
use coilmq.Protocol.Stomp10.{
  run_or_keep, acknowledge_receipt, attempt, report, dispatch, process_frame,
}

module _ (κ : Client) where
  -- A frame whose command is not valid, or that is no CONNECT although the session is not connected,
  -- is refused with a ProtocolError, and nothing has changed.
  pub refuses :
      (depth : ℕ) (frame : Frame) (s : State κ)
      → (command_of frame.cmd ≡ none)
        ⊎ ((cmd : Command) × (command_of frame.cmd ≡ some cmd)
            × (is_connect cmd ≡ false)
            × (s.connected ≡ false))
      → (text : String) × (process_frame κ (suc depth) frame s ≡ (err (protocol_error text), s))
  unfolding process_frame dispatch
  refuses depth frame s (inl invalid) = ("Invalid STOMP command: " +s frame.cmd, rw invalid)
  refuses depth frame s (inr (cmd, valid, other, down)) =
      ("Not connected.", rw (valid, other, down))

  -- The connection accepts every frame.
  abbrev pub IsOpen : Type 0
  IsOpen = (n : ℕ) (f : Frame) → κ.setup.env.delivers n κ.connection f ≡ true

  abbrev pub replied : Frame → State κ → State κ
  replied f s = record s { queue = record s.queue { host = accepted κ.connection f s.queue.host } }

  pub reply_accepted : (f : Frame) (s : State κ) → IsOpen → reply κ f s ≡ (ok tt, replied f s)
  unfolding send_frame
  reply_accepted f s open_ = rw (open_ s.queue.host.attempts f)

  -- What is done before the RECEIPT or ERROR frame.
  abbrev pub IsAdmitted : Frame → Command → State κ → Type 0
  IsAdmitted frame cmd s =
      (command_of frame.cmd ≡ some cmd) × ((s.connected ≡ true) ⊎ (is_connect cmd ≡ true))

  pub dispatch-attempt :
      (process : Frame → Method κ (Unit {0})) (frame : Frame) (cmd : Command) (s : State κ)
      → IsAdmitted frame cmd s
      → dispatch κ process frame s
        ≡ attempt κ (run_or_keep κ process cmd frame) (acknowledge_receipt κ cmd frame) s
  unfolding dispatch
  dispatch-attempt process frame cmd s (valid, inl up) = rw (valid, up)
  dispatch-attempt process frame cmd s (valid, inr first) = elim (Bool-cases s.connected) [
    | inl up ↦ rw (valid, up)
    | inr down ↦ rw (valid, down, first)
  ]

  pub process-attempt :
      (depth : ℕ) (frame : Frame) (cmd : Command) (s : State κ)
      → IsAdmitted frame cmd s
      → process_frame κ (suc depth) frame s
        ≡ attempt κ
            (run_or_keep κ (process_frame κ depth) cmd frame)
            (acknowledge_receipt κ cmd frame)
            s
  unfolding process_frame
  process-attempt depth = dispatch-attempt (process_frame κ depth)

  -- How `attempt` goes on from what its body came to.
  abbrev pub goes_on :
      Method κ (Unit {0}) → Result Error (Unit {0}) × State κ → Result Error (Unit {0}) × State κ
  goes_on otherwise (r, s') = elim r [ ok _ ↦ otherwise s' | err e ↦ report κ e s' ]

  pub attempt-goes_on :
      (body otherwise : Method κ (Unit {0})) (s : State κ)
      (done : Result Error (Unit {0}) × State κ)
      → body s ≡ done
      → attempt κ body otherwise s ≡ goes_on otherwise done
  unfolding attempt
  attempt-goes_on body otherwise s done e = ap (goes_on otherwise) e

  -- A method that raises is answered by an ERROR frame with the text of the exception.
  pub report_accepted :
      (e : Error) (s : State κ)
      → IsOpen
      → report κ e s
        ≡ (ok tt, replied (error_frame (κ.setup.env.render e) (codes (κ.setup.env.render e))) s)
  unfolding report send_frame
  report_accepted e s open_ = rw (
    open_ s.queue.host.attempts (error_frame (κ.setup.env.render e) (codes (κ.setup.env.render e))),
    report,
  )

  receipt_returns :
      (cmd : Command) (frame : Frame) (s : State κ)
      → IsOpen
      → (s' : State κ) × (acknowledge_receipt κ cmd frame s ≡ (ok tt, s'))
  unfolding acknowledge_receipt send_frame
  receipt_returns cmd frame s open_ =
      elim (Bool-cases (is_truthy (header frame "receipt") && is_not_connect cmd)) [
        | inl wanted ↦ (
          replied (receipt_frame (or_else (header frame "receipt") "")) s,
          rw (
            wanted,
            open_ s.queue.host.attempts (receipt_frame (or_else (header frame "receipt") "")),
          ),
        )
        | inr unwanted ↦ (s, rw unwanted)
      ]

  -- On a connection that accepts every frame, the ERROR or the RECEIPT included, a frame that is
  -- let through is processed without an exception, whatever its method raised.
  pub answers :
      (depth : ℕ) (frame : Frame) (cmd : Command) (s : State κ)
      → IsOpen
      → IsAdmitted frame cmd s
      → (s' : State κ) × (process_frame κ (suc depth) frame s ≡ (ok tt, s'))
  answers depth frame cmd s open_ let_through =
      let body = run_or_keep κ (process_frame κ depth) cmd frame in
      let (s', e) = goes_on_returns (body s) in
      (
        s',
        process-attempt depth frame cmd s let_through
            ∙ (attempt-goes_on body (acknowledge_receipt κ cmd frame) s (body s) refl ∙ e),
      )
    where
      goes_on_returns :
          (done : Result Error (Unit {0}) × State κ)
          → (s' : State κ) × (goes_on (acknowledge_receipt κ cmd frame) done ≡ (ok tt, s'))
      goes_on_returns (ok _, s') = receipt_returns cmd frame s' open_
      goes_on_returns (err e, s') = (
        replied (error_frame (κ.setup.env.render e) (codes (κ.setup.env.render e))) s',
        report_accepted e s' open_,
      )
