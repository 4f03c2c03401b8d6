-- ===== src/Versions/Dispatch.antt =====
-- process_frame of a STOMP11 or STOMP12 object (coilmq/protocol/__init__.py): that of STOMP10, with
-- the methods of the class.
use coilmq.Prelude.{
  ℕ, zero, suc, String, not, ◌&&◌, ◌||◌, Option, none, some, List, [], ◌∷◌, ◌++◌, ok, err, pure,
  raise, gets, modify, raise_if, ◌>>=◌, ◌>>◌, string_equality, if◌then◌else◌,
}
use coilmq.Dict.{put, remove, has, get_or}
use coilmq.Text.{is_truthy, ◌+s◌}
use coilmq.Frame.{Frame, transaction, protocol_error, key_error}
use coilmq.Queue.Methods as QueueManager
use coilmq.Engine.{Client, on_queue}
use coilmq.Protocol.Command.{Command, command_of, is_connect, is_transactional}
use coilmq.Protocol.Stomp10 as Stomp10
use coilmq.Versions.{Version, v10, v11, v12, Network, Action, on_session}
use coilmq.Versions.Connect.{connect, nack}

module _ (κ : Client) (net : Network) where
  abbrev pub Process : Type 0
  Process = Frame → Action κ net (Unit {0})

  -- The loop of `commit`, and `commit`, whose frames the same object processes.
  unfoldable pub commit_each : Process → String → List Frame → List Frame → Action κ net (Unit {0})
  commit_each process t done [] = pure tt
  commit_each process t done (frame ∷ frames) = do
    raise_if (not (has frame.headers "transaction")) (key_error "transaction")
    let bare = Stomp10.without_transaction κ frame
    on_session κ net
        (modify (λ s. record s { transactions = put s.transactions t (done ++ (bare ∷ frames)) }))
    process bare
    commit_each process t (done ++ (bare ∷ [])) frames

  unfoldable pub commit : Process → Frame → Action κ net (Unit {0})
  commit process frame = do
    t ←
        on_session κ net
          (Stomp10.known_transaction κ frame "Missing transaction for COMMIT command.")
    frames ← gets (λ l. get_or l.session.transactions t [])
    commit_each process t [] frames
    on_session κ net (on_queue κ (QueueManager.clear_transaction_frames κ.setup κ.connection t))
    on_session κ net (modify (λ s. record s { transactions = remove s.transactions t }))

  -- method(frame): CONNECT, STOMP, NACK and COMMIT depend on the class, the others are inherited.
  unfoldable pub run_method : Process → Version → ℕ → Command → Frame → Action κ net (Unit {0})
  run_method process v self Command.connect frame = connect κ net v self frame
  run_method process v self Command.stomp frame = connect κ net v self frame
  run_method process v self Command.nack frame = nack κ net frame
  run_method process v self Command.commit frame = commit process frame
  run_method process v self cmd frame =
      on_session κ net (Stomp10.run_method κ (λ f. pure tt) cmd frame)

  -- The body of `try`; a frame that is kept is processed by nobody.
  unfoldable pub run_or_keep : Process → Version → ℕ → Command → Frame → Action κ net (Unit {0})
  run_or_keep process v self cmd frame =
      if not (is_truthy (transaction frame)) || is_transactional cmd
      then run_method process v self cmd frame
      else on_session κ net (Stomp10.run_or_keep κ (λ f. pure tt) cmd frame)

  abbrev pub attempt : Action κ net (Unit {0}) → Action κ net (Unit {0}) → Action κ net (Unit {0})
  attempt body otherwise l =
      let (r, l') = body l in
      elim r [ ok _ ↦ otherwise l' | err e ↦ on_session κ net (Stomp10.report κ e) l' ]

  abbrev pub if_valid :
      Option Command → Frame → (Command → Action κ net (Unit {0})) → Action κ net (Unit {0})
  if_valid none frame body = raise (protocol_error ("Invalid STOMP command: " +s frame.cmd))
  if_valid (some cmd) frame body = body cmd

  unfoldable pub dispatch : Process → Version → ℕ → Frame → Action κ net (Unit {0})
  dispatch process v self frame = if_valid (command_of frame.cmd) frame (λ cmd. do
    ready ← gets (λ l. l.session.connected)
    raise_if (not ready && not (is_connect cmd)) (protocol_error "Not connected.")
    attempt (run_or_keep process v self cmd frame)
        (on_session κ net (Stomp10.acknowledge_receipt κ cmd frame)))

  -- process_frame of the object `self`; the fuel bounds the depth as for STOMP10.
  abbrev pub process_as : Version → ℕ → ℕ → Frame → Action κ net (Unit {0})
  process_as v self zero frame = raise (protocol_error "maximum recursion depth exceeded")
  process_as v self (suc depth) frame = dispatch (process_as v self depth) v self frame

  unfoldable pub process_by : ℕ → ℕ → Frame → Action κ net (Unit {0})
  process_by depth self frame l = of_version (l.objects self).version l
    where
      of_version : Version → Action κ net (Unit {0})
      of_version v10 = on_session κ net (Stomp10.process_frame κ depth frame)
      of_version v11 = process_as v11 self depth frame
      of_version v12 = process_as v12 self depth frame

  -- engine.process_frame, which is that of engine.protocol
  unfoldable pub process_frame : ℕ → Frame → Action κ net (Unit {0})
  process_frame depth frame l = process_by depth l.protocol frame l
