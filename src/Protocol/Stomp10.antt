-- ===== src/Protocol/Stomp10.antt =====
-- STOMP10 of coilmq/protocol/__init__.py: what a session does with a frame from its client.
use coilmq.Prelude.{
  ℕ, zero, suc, String, Bool, true, false, not, ◌&&◌, ◌||◌, Option, none, some, List, [], ◌∷◌, ◌++◌,
  ok, err, Result, pure, raise, gets, modify, ◌>>=◌, ◌>>◌, raise_if, ◌==◌, string_equality,
  nat_equality, if◌then◌else◌,
}
use coilmq.Dict.{put, remove, has, get_or, or_else}
use coilmq.Text.{is_truthy, is_queue, lower, ◌+s◌, codes}
use coilmq.Frame.{
  Frame, header, set_header, transaction, new_frame, error_frame, receipt_frame, Error,
  protocol_error, auth_error, attribute_error, key_error, not_callable,
}
use coilmq.Host.{uuid4}
use coilmq.Queue.Methods as QueueManager
use coilmq.Topic as TopicManager
use coilmq.Engine.{Client, State, Method, on_queue, on_topics, on_host, reply, unbind}
use coilmq.Protocol.Command.{
  Command, message, connect, connected, error, send, subscribe, unsubscribe, begin, commit, abort,
  ack, disconnect, nack, stomp, command_of, is_connect, is_transactional, is_not_connect,
}

module _ (κ : Client) where
  -- `if self.engine.authenticator: ... if not authenticate(login, passcode): raise AuthError`
  abbrev pub authenticate :
      Option (Option String → Option String → Bool) → Frame → Method κ (Unit {0})
  authenticate none frame = pure tt
  authenticate (some accepts) frame =
      raise_if (not (accepts (header frame "login") (header frame "passcode")))
        (auth_error (header frame "login"))

  unfoldable pub on_connect : Frame → Method κ (Unit {0})
  on_connect frame = do
    authenticate κ.authenticator frame
    modify (λ s. record s { connected = true })
    session ← on_host κ (uuid4 κ.setup.env)
    reply κ (set_header (new_frame "CONNECTED" [] []) "session" session)

  -- `dest = frame.headers.get('destination')`, with the ProtocolError for none
  abbrev pub with_destination :
      Frame → String → (String → Method κ (Unit {0})) → Method κ (Unit {0})
  with_destination frame what body = do
    raise_if (not (is_truthy (header frame "destination"))) (protocol_error what)
    body (or_else (header frame "destination") "")

  unfoldable pub on_send : Frame → Method κ (Unit {0})
  on_send frame = with_destination frame "Missing destination for SEND command." (λ dest.
      if is_queue dest
      then on_queue κ (QueueManager.send κ.setup frame)
      else on_topics κ (TopicManager.send κ.setup.env frame))

  -- `ack and ack.lower() == 'client'`
  abbrev pub wants_acks : Option String → Bool
  wants_acks none = false
  wants_acks (some mode) = lower mode == "client"

  unfoldable pub on_subscribe : Frame → Method κ (Unit {0})
  on_subscribe frame = do
    on_host κ (
        modify (λ h. record h {
          reliable = put h.reliable κ.connection (wants_acks (header frame "ack"));
        }))
    with_destination frame "Missing destination for SUBSCRIBE command." (λ dest.
        if is_queue dest
        then on_queue κ (QueueManager.subscribe κ.setup κ.connection dest)
        else on_topics κ (TopicManager.subscribe κ.connection dest))

  unfoldable pub on_unsubscribe : Frame → Method κ (Unit {0})
  on_unsubscribe frame =
      with_destination frame "Missing destination for UNSUBSCRIBE command." (λ dest.
        if is_queue dest
        then on_queue κ (QueueManager.unsubscribe κ.setup κ.connection dest)
        else on_topics κ (TopicManager.unsubscribe κ.connection dest))

  unfoldable pub on_begin : Frame → Method κ (Unit {0})
  on_begin frame = do
    raise_if (not (is_truthy (transaction frame)))
        (protocol_error "Missing transaction for BEGIN command.")
    modify (λ s. record s { transactions = put s.transactions (or_else (transaction frame) "") [] })

  -- The two guards of `commit` and `abort`.
  abbrev pub known_transaction : Frame → String → Method κ String
  known_transaction frame what = do
    raise_if (not (is_truthy (transaction frame))) (protocol_error what)
    known ← gets (λ s. has s.transactions (or_else (transaction frame) ""))
    raise_if (not known)
        (protocol_error ("Invalid transaction: " +s or_else (transaction frame) ""))
    pure (or_else (transaction frame) "")

  -- `del tframe.headers['transaction']`
  abbrev pub without_transaction : Frame → Frame
  without_transaction frame = record frame { headers = remove frame.headers "transaction" }

  -- The loop of `commit`. The frames of the transaction are changed where they stand: those that
  -- were processed have lost their transaction header. (`send` also changes their command and adds
  -- a message id, which nothing reads.)
  unfoldable pub commit_each :
      (Frame → Method κ (Unit {0})) → String → List Frame → List Frame → Method κ (Unit {0})
  commit_each process t done [] = pure tt
  commit_each process t done (frame ∷ frames) = do
    raise_if (not (has frame.headers "transaction")) (key_error "transaction")
    let bare = without_transaction frame
    modify (λ s. record s { transactions = put s.transactions t (done ++ (bare ∷ frames)) })
    process bare
    commit_each process t (done ++ (bare ∷ [])) frames

  unfoldable pub on_commit : (Frame → Method κ (Unit {0})) → Frame → Method κ (Unit {0})
  on_commit process frame = do
    t ← known_transaction frame "Missing transaction for COMMIT command."
    frames ← gets (λ s. get_or s.transactions t [])
    commit_each process t [] frames
    on_queue κ (QueueManager.clear_transaction_frames κ.setup κ.connection t)
    modify (λ s. record s { transactions = remove s.transactions t })

  unfoldable pub on_abort : Frame → Method κ (Unit {0})
  on_abort frame = do
    t ← known_transaction frame "Missing transaction for ABORT command."
    on_queue κ (QueueManager.resend_transaction_frames κ.setup κ.connection t)
    modify (λ s. record s { transactions = remove s.transactions t })

  -- `frame.message_id`: Frame has no such attribute.
  unfoldable pub on_ack : Frame → Method κ (Unit {0})
  on_ack frame = do
    id ← raise {A = Option String} (attribute_error "message_id")
    raise_if (not (is_truthy id)) (protocol_error "No message-id specified for ACK command.")
    on_queue κ (QueueManager.ack κ.setup κ.connection frame none)

  abbrev pub on_disconnect : Frame → Method κ (Unit {0})
  on_disconnect frame = unbind κ

  -- method(frame). STOMP10 has no method for the last four; `None(frame)` is a TypeError.
  unfoldable pub run_method : (Frame → Method κ (Unit {0})) → Command → Frame → Method κ (Unit {0})
  run_method process connect frame = on_connect frame
  run_method process stomp frame = on_connect frame
  run_method process send frame = on_send frame
  run_method process subscribe frame = on_subscribe frame
  run_method process unsubscribe frame = on_unsubscribe frame
  run_method process begin frame = on_begin frame
  run_method process commit frame = on_commit process frame
  run_method process abort frame = on_abort frame
  run_method process ack frame = on_ack frame
  run_method process disconnect frame = on_disconnect frame
  run_method process message frame = raise not_callable
  run_method process connected frame = raise not_callable
  run_method process error frame = raise not_callable
  run_method process nack frame = raise not_callable

  -- The body of `try`: a frame of a transaction is kept for the commit.
  unfoldable pub run_or_keep : (Frame → Method κ (Unit {0})) → Command → Frame → Method κ (Unit {0})
  run_or_keep process cmd frame =
      if not (is_truthy (transaction frame)) || is_transactional cmd
      then run_method process cmd frame
      else (do
        let t = or_else (transaction frame) ""
        known ← gets (λ s. has s.transactions t)
        raise_if (not known) (protocol_error ("Invalid transaction specified: " +s t))
        modify (λ s. record s {
          transactions = put s.transactions t (get_or s.transactions t [] ++ (frame ∷ []));
        }))

  -- `except Exception as e`: an ERROR frame; that it cannot be sent is only logged.
  unfoldable pub report : Error → State κ → Result Error (Unit {0}) × State κ
  report e s =
      let text = κ.setup.env.render e in
      let (r, s') = reply κ (error_frame text (codes text)) s in (ok tt, s')

  -- `else`: the receipt, if the client wants one
  unfoldable pub acknowledge_receipt : Command → Frame → Method κ (Unit {0})
  acknowledge_receipt cmd frame =
      if is_truthy (header frame "receipt") && is_not_connect cmd
      then reply κ (receipt_frame (or_else (header frame "receipt") ""))
      else pure tt

  -- `try: body  except Exception as e: report(e)  else: receipt`
  unfoldable pub attempt : Method κ (Unit {0}) → Method κ (Unit {0}) → Method κ (Unit {0})
  attempt body otherwise s =
      let (r, s') = body s in elim r [ ok _ ↦ otherwise s' | err e ↦ report e s' ]

  abbrev pub if_valid :
      Option Command → Frame → (Command → Method κ (Unit {0})) → Method κ (Unit {0})
  if_valid none frame body = raise (protocol_error ("Invalid STOMP command: " +s frame.cmd))
  if_valid (some cmd) frame body = body cmd

  unfoldable pub dispatch : (Frame → Method κ (Unit {0})) → Frame → Method κ (Unit {0})
  dispatch process frame = if_valid (command_of frame.cmd) frame (λ cmd. do
    ready ← gets (λ s. s.connected)
    raise_if (not ready && not (is_connect cmd)) (protocol_error "Not connected.")
    attempt (run_or_keep process cmd frame) (acknowledge_receipt cmd frame))

  -- process_frame. A commit processes the frames of its transaction in turn, so the call is
  -- recursive; the fuel bounds the depth.
  unfoldable pub process_frame : ℕ → Frame → Method κ (Unit {0})
  process_frame zero frame = raise (protocol_error "maximum recursion depth exceeded")
  process_frame (suc depth) frame = dispatch (process_frame depth) frame
