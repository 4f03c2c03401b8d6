-- ===== src/Protocol/Kept.antt =====
-- The handlers of STOMP10 (coilmq/protocol/__init__.py) put no COMMIT into a transaction.
use coilmq.Prelude.{
  String, true, false, not, List, [], ◌∷◌, ◌++◌, string_equality, nat_equality, ◌>>=◌, ◌>>◌, pure,
  raise_if, modify, gets,
}
use coilmq.Dict.{put, remove, has, get_or, or_else}
use coilmq.Frame.{Frame, header, transaction, new_frame, protocol_error, key_error, set_header}
use coilmq.Queue.Methods as QueueManager
use coilmq.Topic as TopicManager
use coilmq.Text.{is_truthy, ◌+s◌}
use coilmq.Host.{uuid4}
use coilmq.Topic.{TopicState}
use coilmq.Engine.{Client, Method, on_queue, on_topics, on_host, reply, unbind}
use coilmq.Protocol.Command.{Command}
use coilmq.Protocol.Stomp10.{
  authenticate, wants_acks, on_connect, on_send, on_subscribe, on_unsubscribe, on_begin,
  known_transaction, without_transaction, commit_each, on_commit, on_abort, on_ack, run_method,
}
use coilmq.Protocol.Depth.{NoCommit, commit_known, committed}
use coilmq.Protocol.Preserves.{
  NoCommit-append, put-KeepsNoCommit, remove-KeepsNoCommit, Preserves, continue-Preserves,
  bind-Preserves, authenticate-Preserves, guard-Preserves, managed-Preserves,
}

module _ (κ : Client) where
  on_connect-Preserves : (frame : Frame) → Preserves κ (on_connect κ frame)
  unfolding on_connect
  on_connect-Preserves frame =
      bind-Preserves κ (authenticate κ κ.authenticator frame)
        (λ _. do
          modify (λ s. record s { connected = true })
          session ← on_host κ (uuid4 κ.setup.env)
          reply κ (set_header (new_frame "CONNECTED" [] []) "session" session))
        (authenticate-Preserves κ κ.authenticator frame) (λ _ s keeps. keeps)

  on_begin-Preserves : (frame : Frame) → Preserves κ (on_begin κ frame)
  unfolding on_begin
  on_begin-Preserves frame =
      let t = or_else (transaction frame) "" in
      guard-Preserves κ (not (is_truthy (transaction frame)))
        (protocol_error "Missing transaction for BEGIN command.")
        (modify (λ s. record s { transactions = put s.transactions t [] }))
        (λ s keeps. put-KeepsNoCommit s.transactions t [] keeps tt)

  known_transaction-Preserves :
      (frame : Frame) (what : String) → Preserves κ (known_transaction κ frame what)
  known_transaction-Preserves frame what =
      let t = or_else (transaction frame) "" in
      guard-Preserves κ (not (is_truthy (transaction frame))) (protocol_error what)
        (do
          known ← gets (λ s. has s.transactions t)
          raise_if (not known) (protocol_error ("Invalid transaction: " +s t))
          pure t)
        (λ s.
          guard-Preserves κ (not (has s.transactions t))
            (protocol_error ("Invalid transaction: " +s t)) (pure t) (λ s keeps. keeps) s)

  -- A handler of a known transaction.
  known-Preserves :
      (frame : Frame) (what : String) (body : String → Method κ (Unit {0}))
      → ((t : String) → Preserves κ (body t))
      → Preserves κ (known_transaction κ frame what >>= body)
  known-Preserves frame what body each s keeps =
      continue-Preserves κ body (known_transaction κ frame what s) each
        (known_transaction-Preserves frame what s keeps)

  on_abort-Preserves : (frame : Frame) → Preserves κ (on_abort κ frame)
  unfolding on_abort
  on_abort-Preserves frame =
      known-Preserves frame "Missing transaction for ABORT command."
        (λ t. do
          on_queue κ (QueueManager.resend_transaction_frames κ.setup κ.connection t)
          modify (λ s. record s { transactions = remove s.transactions t }))
        (λ t.
          bind-Preserves κ
            (on_queue κ (QueueManager.resend_transaction_frames κ.setup κ.connection t))
            (λ _. modify (λ s. record s { transactions = remove s.transactions t }))
            (λ s keeps. keeps) (λ _ s keeps. remove-KeepsNoCommit s.transactions t keeps))

  unbind-Preserves : Preserves κ (unbind κ)
  unfolding unbind
  unbind-Preserves s keeps =
      bind-Preserves κ (on_queue κ (QueueManager.disconnect κ.setup κ.connection))
        (λ _. on_topics κ (TopicManager.disconnect κ.connection)) (λ s keeps. keeps)
        (λ _ s keeps. keeps) (record s { connected = false }) keeps

  commit_each-Preserves :
      (process : Frame → Method κ (Unit {0}))
      → ((f : Frame) → Preserves κ (process f))
      → (t : String) (done l : List Frame) → NoCommit done
      → NoCommit l
      → Preserves κ (commit_each κ process t done l)
  unfolding commit_each
  commit_each-Preserves process each t done [] u v = λ s keeps. keeps
  commit_each-Preserves process each t done (f ∷ l) u (v, vs) =
      let bare = without_transaction κ f in
      guard-Preserves κ (not (has f.headers "transaction")) (key_error "transaction")
        (do
          modify (λ s. record s { transactions = put s.transactions t (done ++ (bare ∷ l)) })
          process bare
          commit_each κ process t (done ++ (bare ∷ [])) l)
        (λ s keeps.
          bind-Preserves κ (process bare) (λ _. commit_each κ process t (done ++ (bare ∷ [])) l)
            (each bare)
            (λ _.
              commit_each-Preserves process each t (done ++ (bare ∷ [])) l
                (NoCommit-append done (bare ∷ []) u (v, tt)) vs)
            (record s { transactions = put s.transactions t (done ++ (bare ∷ l)) })
            (put-KeepsNoCommit s.transactions t (done ++ (bare ∷ l)) keeps
              (NoCommit-append done (bare ∷ l) u (v, vs))))

  committed-Preserves : (t : String) → Preserves κ (committed κ t)
  committed-Preserves t =
      bind-Preserves κ (on_queue κ (QueueManager.clear_transaction_frames κ.setup κ.connection t))
        (λ _. modify (λ s. record s { transactions = remove s.transactions t })) (λ s keeps. keeps)
        (λ _ s keeps. remove-KeepsNoCommit s.transactions t keeps)

  on_commit-Preserves :
      (process : Frame → Method κ (Unit {0})) (frame : Frame)
      → ((f : Frame) → Preserves κ (process f))
      → Preserves κ (on_commit κ process frame)
  unfolding on_commit
  on_commit-Preserves process frame each =
      known-Preserves frame "Missing transaction for COMMIT command." (commit_known κ process)
        (λ t s keeps.
          bind-Preserves κ (commit_each κ process t [] (get_or s.transactions t []))
            (λ _. committed κ t)
            (commit_each-Preserves process each t [] (get_or s.transactions t []) tt (keeps t))
            (λ _. committed-Preserves t) s keeps)

  on_subscribe-Preserves : (frame : Frame) → Preserves κ (on_subscribe κ frame)
  unfolding on_subscribe
  on_subscribe-Preserves frame s =
      managed-Preserves κ frame "Missing destination for SUBSCRIBE command."
        (QueueManager.subscribe κ.setup κ.connection) (TopicManager.subscribe κ.connection)
        (record s {
          queue = record s.queue {
            host = record s.queue.host {
              reliable = put s.queue.host.reliable κ.connection (wants_acks κ (header frame "ack"));
            };
          };
        })

  pub run_method-Preserves :
      (process : Frame → Method κ (Unit {0})) (cmd : Command) (frame : Frame)
      → ((f : Frame) → Preserves κ (process f))
      → Preserves κ (run_method κ process cmd frame)
  unfolding run_method on_send on_unsubscribe on_ack
  run_method-Preserves process Command.connect frame each = on_connect-Preserves frame
  run_method-Preserves process Command.stomp frame each = on_connect-Preserves frame
  run_method-Preserves process Command.send frame each =
      managed-Preserves κ frame "Missing destination for SEND command."
        (λ _. QueueManager.send κ.setup frame) (λ _. TopicManager.send κ.setup.env frame)
  run_method-Preserves process Command.subscribe frame each = on_subscribe-Preserves frame
  run_method-Preserves process Command.unsubscribe frame each =
      managed-Preserves κ frame "Missing destination for UNSUBSCRIBE command."
        (QueueManager.unsubscribe κ.setup κ.connection) (TopicManager.unsubscribe κ.connection)
  run_method-Preserves process Command.begin frame each = on_begin-Preserves frame
  run_method-Preserves process Command.commit frame each = on_commit-Preserves process frame each
  run_method-Preserves process Command.abort frame each = on_abort-Preserves frame
  run_method-Preserves process Command.ack frame each = λ s keeps. keeps
  run_method-Preserves process Command.disconnect frame each = unbind-Preserves
  run_method-Preserves process Command.message frame each = λ s keeps. keeps
  run_method-Preserves process Command.connected frame each = λ s keeps. keeps
  run_method-Preserves process Command.error frame each = λ s keeps. keeps
  run_method-Preserves process Command.nack frame each = λ s keeps. keeps
