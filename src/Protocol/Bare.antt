-- ===== src/Protocol/Bare.antt =====
-- Frames without a transaction header (coilmq/protocol/__init__.py).
use coilmq.Prelude.{
  ℕ, zero, suc, ◌≡◌, refl, sym, ap, ◌∙◌, Bool, false, not, ◌&&◌, Option, none, some, ok, err,
  Result, ◌>>=◌, ◌>>◌, pure, gets, raise_if, string_equality, nat_equality,
}
use coilmq.Dict.{or_else}
use coilmq.Frame.{Frame, Error, header, transaction, receipt_frame, protocol_error}
use coilmq.Text.{is_truthy}
use coilmq.Engine.{Client, State, Method, reply}
use coilmq.Protocol.Command.{Command, command_of, is_connect}
use coilmq.Protocol.Stomp10.{
  on_begin, on_commit, on_abort, on_ack, run_method, run_or_keep, report, acknowledge_receipt,
  attempt, if_valid, dispatch, process_frame,
}
use coilmq.Protocol.Transactions.{run-plain}
use coilmq.Protocol.Ignores.{
  Transactions, back, Ignores, bind-Ignores, if-Ignores, on_connect-Ignores, on_send-Ignores,
  on_subscribe-Ignores, on_unsubscribe-Ignores, unbind-Ignores,
}

module _ (κ : Client) where
  -- A method that raises the same whatever the state.
  raises-Ignores :
      {A : Type 0} (m : Method κ A) (x : Error) → ((s : State κ) → m s ≡ (err x, s)) → Ignores κ m
  raises-Ignores m x each ts s =
      each (record s { transactions = ts }) ∙ sym (ap (back κ ts) (each s))

  run_method-Ignores :
      (process : Frame → Method κ (Unit {0})) (cmd : Command) (frame : Frame)
      → transaction frame ≡ none
      → Ignores κ (run_method κ process cmd frame)
  unfolding run_method on_begin on_commit on_abort on_ack
  run_method-Ignores process Command.connect frame bare = on_connect-Ignores κ frame
  run_method-Ignores process Command.stomp frame bare = on_connect-Ignores κ frame
  run_method-Ignores process Command.send frame bare = on_send-Ignores κ frame
  run_method-Ignores process Command.subscribe frame bare = on_subscribe-Ignores κ frame
  run_method-Ignores process Command.unsubscribe frame bare = on_unsubscribe-Ignores κ frame
  run_method-Ignores process Command.begin frame bare =
      raises-Ignores (on_begin κ frame) (protocol_error "Missing transaction for BEGIN command.")
        (λ s. rw bare refl)
  run_method-Ignores process Command.commit frame bare =
      raises-Ignores (on_commit κ process frame)
        (protocol_error "Missing transaction for COMMIT command.") (λ s. rw bare refl)
  run_method-Ignores process Command.abort frame bare =
      raises-Ignores (on_abort κ frame) (protocol_error "Missing transaction for ABORT command.")
        (λ s. rw bare refl)
  run_method-Ignores process Command.ack frame bare = λ ts s. refl
  run_method-Ignores process Command.disconnect frame bare = unbind-Ignores κ
  run_method-Ignores process Command.message frame bare = λ ts s. refl
  run_method-Ignores process Command.connected frame bare = λ ts s. refl
  run_method-Ignores process Command.error frame bare = λ ts s. refl
  run_method-Ignores process Command.nack frame bare = λ ts s. refl

  run_or_keep-Ignores :
      (process : Frame → Method κ (Unit {0})) (cmd : Command) (frame : Frame)
      → transaction frame ≡ none
      → Ignores κ (run_or_keep κ process cmd frame)
  run_or_keep-Ignores process cmd frame bare ts s =
      let plain : is_truthy (transaction frame) ≡ false = ap is_truthy bare in
      run-plain κ process cmd frame (record s { transactions = ts }) plain
      ∙ (run_method-Ignores process cmd frame bare ts s
          ∙ sym (ap (back κ ts) (run-plain κ process cmd frame s plain)))

  acknowledge_receipt-Ignores :
      (cmd : Command) (frame : Frame) → Ignores κ (acknowledge_receipt κ cmd frame)
  unfolding acknowledge_receipt
  acknowledge_receipt-Ignores cmd frame =
      if-Ignores κ _ (reply κ (receipt_frame (or_else (header frame "receipt") ""))) (pure tt)
        (λ ts s. refl) (λ ts s. refl)

  conclude :
      Method κ (Unit {0}) → Result Error (Unit {0}) × State κ → Result Error (Unit {0}) × State κ
  conclude otherwise (r, s) = elim r [ ok _ ↦ otherwise s | err e ↦ report κ e s ]

  conclude-back :
      (otherwise : Method κ (Unit {0})) (ts : Transactions κ)
      (o : Result Error (Unit {0}) × State κ)
      → Ignores κ otherwise
      → conclude otherwise (back κ ts o) ≡ back κ ts (conclude otherwise o)
  unfolding report conclude
  conclude-back otherwise ts (ok u, s) each = each ts s
  conclude-back otherwise ts (err e, s) each = refl

  attempt-Ignores :
      (body otherwise : Method κ (Unit {0}))
      → Ignores κ body
      → Ignores κ otherwise
      → Ignores κ (attempt κ body otherwise)
  unfolding attempt conclude
  attempt-Ignores body otherwise first each ts s =
      ap (conclude otherwise) (first ts s) ∙ conclude-back otherwise ts (body s) each

  if_valid-Ignores :
      (o : Option Command) (frame : Frame) (body : Command → Method κ (Unit {0}))
      → ((cmd : Command) → Ignores κ (body cmd))
      → Ignores κ (if_valid κ o frame body)
  if_valid-Ignores none frame body each = λ ts s. refl
  if_valid-Ignores (some cmd) frame body each = each cmd

  -- A frame without a transaction header leaves the transactions alone, and does not depend on them.
  pub process_frame-Ignores :
      (depth : ℕ) (frame : Frame)
      → transaction frame ≡ none
      → Ignores κ (process_frame κ depth frame)
  unfolding process_frame dispatch
  process_frame-Ignores zero frame bare = λ ts s. refl
  process_frame-Ignores (suc depth) frame bare =
      let run : Command → Method κ (Unit {0}) = λ cmd.
        attempt κ (run_or_keep κ (process_frame κ depth) cmd frame)
          (acknowledge_receipt κ cmd frame) in
      let admit : Command → Bool → Method κ (Unit {0}) = λ cmd ready.
        raise_if (not ready && not (is_connect cmd)) (protocol_error "Not connected.") >> run cmd in
      if_valid-Ignores (command_of frame.cmd) frame (λ cmd. gets (λ s. s.connected) >>= admit cmd)
        (λ cmd.
          bind-Ignores κ (gets (λ s. s.connected)) (admit cmd) (λ ts s. refl)
            (λ ready.
              bind-Ignores κ
                (raise_if (not ready && not (is_connect cmd)) (protocol_error "Not connected."))
                (λ _. run cmd) (λ ts s. refl)
                (λ _.
                  attempt-Ignores (run_or_keep κ (process_frame κ depth) cmd frame)
                    (acknowledge_receipt κ cmd frame)
                    (run_or_keep-Ignores (process_frame κ depth) cmd frame bare)
                    (acknowledge_receipt-Ignores cmd frame))))
