-- ===== src/Protocol/Transactions.antt =====
-- CONNECT, ACK and the frames of a transaction in `process_frame` (coilmq/protocol/__init__.py).
use coilmq.Prelude.{
  ℕ, suc, String, ◌≡◌, refl, ◌∙◌, inl, inr, Bool, true, false, Option, some, [], ◌∷◌, ◌++◌, ok, err,
  string_equality, nat_equality, Bool-cases,
}
use coilmq.Dict.{put, has, get_or}
use coilmq.Text.{is_truthy, codes}
use coilmq.Frame.{Frame, header, transaction, error_frame, Error, attribute_error, auth_error}
use coilmq.Engine.{Client, State, Method}
use coilmq.Protocol.Command.{Command, command_of, is_transactional, ack, connect}
use coilmq.Protocol.Stomp10.{
  run_or_keep, run_method, acknowledge_receipt, process_frame, on_ack, on_connect,
}
use coilmq.Protocol.Guards.{
  IsAdmitted, attempt-goes_on, process-attempt, replied, report_accepted, IsOpen,
}

module _ (κ : Client) where
  -- The state after an ERROR frame for the exception.
  abbrev pub told : Error → State κ → State κ
  told e = replied κ (error_frame (κ.setup.env.render e) (codes (κ.setup.env.render e)))

  -- A body that raises at once is answered with an ERROR frame and nothing else.
  pub process-err :
      (depth : ℕ) (frame : Frame) (cmd : Command) (e : Error) (s s' : State κ)
      → IsOpen κ
      → IsAdmitted κ frame cmd s
      → run_or_keep κ (process_frame κ depth) cmd frame s ≡ (err e, s')
      → process_frame κ (suc depth) frame s ≡ (ok tt, told e s')
  process-err depth frame cmd e s s' open_ let_through raises =
      process-attempt κ depth frame cmd s let_through
      ∙ (attempt-goes_on κ (run_or_keep κ (process_frame κ depth) cmd frame)
            (acknowledge_receipt κ cmd frame) s (err e, s') raises
          ∙ report_accepted κ e s' open_)

  pub process-ok :
      (depth : ℕ) (frame : Frame) (cmd : Command) (s s' : State κ)
      → IsAdmitted κ frame cmd s
      → is_truthy (header frame "receipt") ≡ false
      → run_or_keep κ (process_frame κ depth) cmd frame s ≡ (ok tt, s')
      → process_frame κ (suc depth) frame s ≡ (ok tt, s')
  unfolding acknowledge_receipt
  process-ok depth frame cmd s s' let_through quiet returns =
      process-attempt κ depth frame cmd s let_through
      ∙ (attempt-goes_on κ (run_or_keep κ (process_frame κ depth) cmd frame)
            (acknowledge_receipt κ cmd frame) s (ok tt, s') returns
          ∙ rw quiet)

  -- A frame outside a transaction is run at once.
  pub run-plain :
      (process : Frame → Method κ (Unit {0})) (cmd : Command) (frame : Frame) (s : State κ)
      → is_truthy (transaction frame) ≡ false
      → run_or_keep κ process cmd frame s ≡ run_method κ process cmd frame s
  unfolding run_or_keep
  run-plain process cmd frame s plain = rw plain

  pub run-transactional :
      (process : Frame → Method κ (Unit {0})) (cmd : Command) (frame : Frame) (s : State κ)
      → is_transactional cmd ≡ true
      → run_or_keep κ process cmd frame s ≡ run_method κ process cmd frame s
  unfolding run_or_keep
  run-transactional process cmd frame s now = elim (Bool-cases (is_truthy (transaction frame))) [
    | inl within ↦ rw (within, now)
    | inr plain ↦ rw plain
  ]

  pub run-kept :
      (process : Frame → Method κ (Unit {0})) (cmd : Command) (frame : Frame) (t : String)
      (s : State κ)
      → is_transactional cmd ≡ false
      → transaction frame ≡ some t
      → is_truthy (transaction frame) ≡ true
      → has s.transactions t ≡ true
      → run_or_keep κ process cmd frame s ≡ (
        ok tt,
        record s {
          transactions = put s.transactions t (get_or s.transactions t [] ++ (frame ∷ []));
        },
      )
  unfolding run_or_keep
  run-kept process cmd frame t s other named within known = rw (within, other, named, known)

  run_ack :
      (process : Frame → Method κ (Unit {0})) (frame : Frame) (s : State κ)
      → run_method κ process ack frame s ≡ (err (attribute_error "message_id"), s)
  unfolding run_method on_ack
  run_ack process frame s = refl

  run_rejected :
      (process : Frame → Method κ (Unit {0})) (accepts : Option String → Option String → Bool)
      (frame : Frame) (s : State κ)
      → κ.authenticator ≡ some accepts
      → accepts (header frame "login") (header frame "passcode") ≡ false
      → run_method κ process connect frame s ≡ (err (auth_error (header frame "login")), s)
  unfolding run_method on_connect
  run_rejected process accepts frame s configured wrong = rw (configured, wrong)

  -- While the session is connected, on a connection that accepts every frame, an ACK frame outside
  -- a transaction never reaches a queue: the client is told of an AttributeError, and nothing else
  -- changes.
  pub ack_never_reaches :
      (depth : ℕ) (frame : Frame) (s : State κ)
      → IsOpen κ
      → command_of frame.cmd ≡ some ack
      → s.connected ≡ true
      → is_truthy (transaction frame) ≡ false
      → process_frame κ (suc depth) frame s ≡ (ok tt, told (attribute_error "message_id") s)
  ack_never_reaches depth frame s open_ valid up plain =
      process-err depth frame ack (attribute_error "message_id") s s open_ (valid, inl up)
        (run-plain (process_frame κ depth) ack frame s plain
          ∙ run_ack (process_frame κ depth) frame s)

  -- On a connection that accepts every frame, a CONNECT frame outside a transaction whose login the
  -- authenticator refuses is answered with an ERROR frame for the AuthError, and nothing else
  -- changes: the session is connected afterwards only if it was.
  pub connect_rejected :
      (depth : ℕ) (accepts : Option String → Option String → Bool) (frame : Frame) (s : State κ)
      → IsOpen κ
      → command_of frame.cmd ≡ some connect
      → is_truthy (transaction frame) ≡ false
      → κ.authenticator ≡ some accepts
      → accepts (header frame "login") (header frame "passcode") ≡ false
      → process_frame κ (suc depth) frame s ≡ (ok tt, told (auth_error (header frame "login")) s)
  connect_rejected depth accepts frame s open_ valid plain configured wrong =
      process-err depth frame connect (auth_error (header frame "login")) s s open_
        (valid, inr refl)
        (run-plain (process_frame κ depth) connect frame s plain
          ∙ run_rejected (process_frame κ depth) accepts frame s configured wrong)

  -- A frame of a transaction that was begun, other than BEGIN, COMMIT and ABORT, that is let
  -- through and asks for no receipt is put at the end of the transaction's frames and not run: the
  -- queues, the topics and the host stay as they are.
  pub transaction_keeps :
      (depth : ℕ) (frame : Frame) (cmd : Command) (t : String) (s : State κ)
      → IsAdmitted κ frame cmd s
      → is_transactional cmd ≡ false
      → transaction frame ≡ some t
      → is_truthy (transaction frame) ≡ true
      → has s.transactions t ≡ true
      → is_truthy (header frame "receipt") ≡ false
      → process_frame κ (suc depth) frame s ≡ (
        ok tt,
        record s {
          transactions = put s.transactions t (get_or s.transactions t [] ++ (frame ∷ []));
        },
      )
  transaction_keeps depth frame cmd t s let_through other named within known quiet =
      process-ok depth frame cmd s _ let_through quiet
        (run-kept (process_frame κ depth) cmd frame t s other named within known)
