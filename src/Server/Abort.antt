-- ===== src/Server/Abort.antt =====
-- A transaction that a client begins and aborts (coilmq/protocol/__init__.py), seen by the loop of
-- coilmq/server/socket_server.py.
use coilmq.Prelude.{
  String, arith, ◌≡◌, refl, ap, ◌∙◌, Bool, true, false, none, some, List, [], ◌∷◌, ◌++◌, ok, Result,
  ◌==◌, string_equality, nat_equality, if◌then◌else◌, ◌>>=◌, ◌>>◌, bind-continue, continue, modify,
  gets, pure,
}
use coilmq.Dict.{Dict, get, put, remove, has, get_or, set_default}
use coilmq.Dict.Laws.{get-put, get-remove, beq_self}
use coilmq.Text.{is_truthy}
use coilmq.Frame.{Frame, header, transaction, Error}
use coilmq.Queue.Methods as QueueManager
use coilmq.Queue.State.{QueueState}
use coilmq.Engine.{Client, State, Method, on_queue}
use coilmq.Versions.{Network, Connection, Action}
use coilmq.Versions.Dispatch.{process_frame}
use coilmq.Versions.Inherited.{
  process_frame-inherited, Inherits-kept, Inherits-begin, Inherits-abort,
}
use coilmq.Protocol.Command.{Command, command_of, is_transactional, begin, abort}
use coilmq.Protocol.Stomp10.{run_method, run_or_keep, on_begin, on_abort, known_transaction}
use coilmq.Protocol.Transactions.{run-transactional, run-kept}
use coilmq.Server.{read_loop}

-- A frame of the command for transaction `t`, without a receipt.
abbrev pub IsFrame : Command → String → Frame → Type 0
IsFrame cmd t f =
    (command_of f.cmd ≡ some cmd)
    × (transaction f ≡ some t)
    × (is_truthy (transaction f) ≡ true)
    × (is_truthy (header f "receipt") ≡ false)

-- Frames of any commands but BEGIN, COMMIT and ABORT.
abbrev pub AreKept : String → List Frame → Type 0
AreKept t [] = Unit {0}
AreKept t (f ∷ l) =
    ((cmd : Command) × IsFrame cmd t f × (is_transactional cmd ≡ false)) × AreKept t l

module _ (κ : Client) (net : Network) where
  read_loop-step :
      (f : Frame) (l : List Frame) (s s' : Connection κ net)
      → process_frame κ net 2 f s ≡ (ok tt, s')
      → s'.session.connected ≡ true
      → read_loop κ net (f ∷ l) s ≡ read_loop κ net l s'
  unfolding read_loop
  read_loop-step f l s s' done up =
      let next : Bool → Action κ net (Unit {0}) =
        λ ready. if ready then read_loop κ net l else pure tt in
      bind-continue (process_frame κ net 2 f) (λ _. do next (← gets (λ s. s.session.connected))) s
        (ok tt, s') done
      ∙ ap (λ b. next b s') up

  abbrev with_transactions : Dict String (List Frame) → State κ → State κ
  with_transactions ts s = record s { transactions = ts }

  begin-step :
      (t : String) (f : Frame) (s : State κ)
      → IsFrame begin t f
      → run_or_keep κ (λ g. pure tt) begin f s
        ≡ (ok tt, with_transactions (put s.transactions t []) s)
  unfolding run_method on_begin
  begin-step t f s (valid, named, truthy, quiet) =
      run-transactional κ (λ g. pure tt) begin f s refl ∙ rw (truthy, named)

  -- The queue state after an ABORT of a transaction in which nothing was acknowledged.
  abbrev resent : String → State κ → State κ
  resent t s = record s {
    queue = record s.queue {
      transaction_frames =
          put s.queue.transaction_frames κ.connection
            (set_default (get_or s.queue.transaction_frames κ.connection []) t []);
    };
    transactions = remove s.transactions t;
  }

  abbrev abort_known : String → Method κ (Unit {0})
  abort_known t = do
    on_queue κ (QueueManager.resend_transaction_frames κ.setup κ.connection t)
    modify (λ s. record s { transactions = remove s.transactions t })

  resend_transaction_frames-nothing :
      (t : String) (s : State κ)
      → get_or (get_or s.queue.transaction_frames κ.connection []) t [] ≡ []
      → QueueManager.resend_transaction_frames κ.setup κ.connection t s.queue
        ≡ (ok tt, (resent t s).queue)
  unfolding QueueManager.resend_transaction_frames QueueManager.send_each
  resend_transaction_frames-nothing t s nothing = rw nothing

  abort_known-resent :
      (t : String) (s : State κ)
      → get_or (get_or s.queue.transaction_frames κ.connection []) t [] ≡ []
      → abort_known t s ≡ (ok tt, resent t s)
  abort_known-resent t s nothing =
      ap
        (λ (o : Result Error (Unit {0}) × QueueState κ.setup.store.State).
          continue {B = Unit {0}}
            (λ _. modify (λ (s : State κ). record s { transactions = remove s.transactions t }))
            (o.0, record s { queue = o.1 }))
        (resend_transaction_frames-nothing t s nothing)

  abort-step :
      (t : String) (f : Frame) (s : State κ)
      → IsFrame abort t f
      → has s.transactions t ≡ true
      → get_or (get_or s.queue.transaction_frames κ.connection []) t [] ≡ []
      → run_or_keep κ (λ g. pure tt) abort f s ≡ (ok tt, resent t s)
  unfolding run_method on_abort
  abort-step t f s (valid, named, truthy, quiet) known nothing =
      (run-transactional κ (λ g. pure tt) abort f s refl
        ∙ (bind-continue (known_transaction κ f "Missing transaction for ABORT command.")
              abort_known s (ok t, s) (rw (truthy, named, known))
            ∙ abort_known-resent t s nothing))

  -- The transactions after some frames were kept for `t`.
  abbrev Keeps : String → Dict String (List Frame) → Dict String (List Frame) → Type 0
  Keeps t ts ts' =
      (has ts' t ≡ true) × ((u : String) → get ts' u ≡ (if t == u then get ts' u else get ts u))

  abbrev with_session : State κ → Connection κ net → Connection κ net
  with_session s l = record l { session = s }

  read_loop-kept :
      (t : String) (frames rest : List Frame) (ts : Dict String (List Frame)) (l : Connection κ net)
      → l.session.connected ≡ true
      → AreKept t frames
      → has ts t ≡ true
      → (ts' : Dict String (List Frame)) × Keeps t ts ts'
        × (read_loop κ net (frames ++ rest) (with_session (with_transactions ts l.session) l)
            ≡ read_loop κ net rest (with_session (with_transactions ts' l.session) l))
  read_loop-kept t [] rest ts l up kept known = (ts, (known, λ u. ground arith), refl)
  read_loop-kept t (f ∷ fs) rest ts l up ((cmd, (valid, named, truthy, quiet), other), kept) known =
      let next : Dict String (List Frame) = put ts t (get_or ts t [] ++ (f ∷ [])) in
      let at : (u : String)
          → get next u ≡ (if t == u then some (get_or ts t [] ++ (f ∷ [])) else get ts u) =
        λ u. get-put ts t u (get_or ts t [] ++ (f ∷ [])) in
      let (ts', (known', others), e) =
        read_loop-kept t fs rest next l up kept (ground (arith, at t, beq_self t)) in
      let before = with_session (with_transactions ts l.session) l in
      let after = with_session (with_transactions next l.session) l in
      (
        ts',
        (known', λ u. ground (arith, others u, at u)),
        read_loop-step f (fs ++ rest) before after
              (process_frame-inherited κ net 1 f cmd before (with_transactions next l.session) valid
                up quiet (Inherits-kept κ net cmd f other truthy)
                (run-kept κ (λ g. pure tt) cmd f t (with_transactions ts l.session) other named
                  truthy known))
              up
            ∙ e,
      )

  -- A client whose session is connected, in any version of the protocol, begins a transaction `t`,
  -- sends any frames in it but BEGIN, COMMIT and ABORT, and aborts it; it asks for no receipt, and
  -- nothing was acknowledged in `t`. Then the transaction is gone, and the frames have had no effect:
  -- the messages, the subscriptions, the pending frames and all that the connections got are as
  -- before, and so are the client's other transactions and its protocol objects. The session goes on
  -- with the frames that follow.
  pub aborted_transaction :
      (t : String) (first last : Frame) (frames rest : List Frame) (l : Connection κ net)
      → l.session.connected ≡ true
      → IsFrame begin t first
      → AreKept t frames
      → IsFrame abort t last
      → get_or (get_or l.session.queue.transaction_frames κ.connection []) t [] ≡ []
      → (s' : State κ) × (read_loop κ net (first ∷ frames ++ (last ∷ rest)) l
          ≡ read_loop κ net rest (with_session s' l))
        × ((u : String)
            → get s'.transactions u ≡ (if t == u then none else get l.session.transactions u))
        × (s'.connected ≡ true)
        × (s'.topics ≡ l.session.topics)
        × (s'.queue.messages ≡ l.session.queue.messages)
        × (s'.queue.queues ≡ l.session.queue.queues)
        × (s'.queue.pending ≡ l.session.queue.pending)
        × (s'.queue.host ≡ l.session.queue.host)
  aborted_transaction t first last frames rest l up begins kept aborts nothing =
      let (valid, named, truthy, quiet) = begins in
      let (valid', named', truthy', quiet') = aborts in
      let s = l.session in
      let begun = with_transactions (put s.transactions t []) s in
      let (ts, (known, others), e) =
        read_loop-kept t frames (last ∷ rest) (put s.transactions t []) l up kept
          (ground (arith, get-put s.transactions t t [], beq_self t)) in
      let full = with_transactions ts s in
      (
        resent t full,
        read_loop-step first (frames ++ (last ∷ rest)) l (with_session begun l)
              (process_frame-inherited κ net 1 first begin l begun valid up quiet
                (Inherits-begin κ net first) (begin-step t first s begins))
              up
            ∙ (e
                ∙ read_loop-step last rest (with_session full l) (with_session (resent t full) l)
                    (process_frame-inherited κ net 1 last abort (with_session full l)
                      (resent t full) valid' up quiet' (Inherits-abort κ net last)
                      (abort-step t last full aborts known nothing))
                    up),
        λ u. ground (arith, get-remove ts t u, others u, get-put s.transactions t u []),
        up,
        refl,
        refl,
        refl,
        refl,
        refl,
      )
