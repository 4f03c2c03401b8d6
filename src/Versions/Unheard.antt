-- ===== src/Versions/Unheard.antt =====
-- The timers of a client that sends frames, in STOMP11 and STOMP12 (coilmq/protocol/__init__.py).
use coilmq.Prelude.{
  ℕ, zero, suc, ◌+◌, ◌-◌, ◌*◌, ◌<◌, String, ◌≡◌, refl, Bool, true, false, not, ◌&&◌, ◌||◌, Option,
  none, some, List, [], ◌∷◌, ◌++◌, ok, err, Result, pure, modify, arith, ltb, if◌then◌else◌,
  string_equality,
}
use coilmq.Prelude.Triple.{
  result-Any, Triple-pure, Triple-raise, Triple-raise_if, Triple-bind, Triple-if,
}
use coilmq.Dict.{put, remove, has, get_or}
use coilmq.Text.{is_truthy}
use coilmq.Frame.{Frame, Error, protocol_error, key_error, header, transaction}
use coilmq.Queue.Methods as QueueManager
use coilmq.Store.Interface.{FifoLaws}
use coilmq.Protocol.Unbound.{IsReleased, unbind_releases}
use coilmq.Engine.{Client, Method, unbind, on_queue}
use coilmq.Protocol.Command.{Command, command_of, is_connect, is_transactional}
use coilmq.Protocol.Stomp10 as Stomp10
use coilmq.Timer.{expire, expired, nth, without}
use coilmq.Versions.{Version, v10, v11, v12, Job, Network, Connection, Action, on_session}
use coilmq.Versions.Heartbeat.{timer_of, with_timer_of, call, receive_heartbeat}
use coilmq.Versions.Connect.{nack}
use coilmq.Versions.Dispatch.{
  Process, commit_each, commit, run_method, run_or_keep, attempt, if_valid, dispatch, process_as,
  process_by, process_frame,
}
use coilmq.Versions.Stale.{IsStale, Stays, on_session-Stays, gets-Stays, timer-Stays, run_job-Stays}
use coilmq.Versions.StaleConnect.{connect-Keeps}

module _ (κ : Client) (net : Network) (self t r : ℕ) where
  abbrev Keeps : {A : Type 0} → Action κ net A → Type 0
  Keeps m = Stays κ net self t r m

  abbrev on : {A : Type 0} (m : Method κ A) → Keeps (on_session κ net m)
  on m = on_session-Stays κ net self t r m

  nack-Keeps : (frame : Frame) → Keeps (nack κ net frame)
  unfolding nack
  nack-Keeps frame =
      Triple-bind
        (Triple-raise_if (not (is_truthy (header frame "message-id")))
          (protocol_error "No message-id specified for NACK command."))
        (λ _ _.
          Triple-raise_if (not (is_truthy (header frame "subscription")))
            (protocol_error "No subscription specified for NACK command."))

  abbrev KeepsAll : Process κ net → Type 0
  KeepsAll process = (frame : Frame) → Keeps (process frame)

  commit_each-Keeps :
      (process : Process κ net) (name : String) (done frames : List Frame)
      → KeepsAll process
      → Keeps (commit_each κ net process name done frames)
  unfolding commit_each
  commit_each-Keeps process name done [] each = Triple-pure tt
  commit_each-Keeps process name done (frame ∷ frames) each =
      let bare = Stomp10.without_transaction κ frame in
      Triple-bind
        (Triple-raise_if (not (has frame.headers "transaction")) (key_error "transaction"))
        (λ _ _.
          Triple-bind
            (on (
              modify (λ s. record s {
                transactions = put s.transactions name (done ++ (bare ∷ frames));
              })))
            (λ _ _.
              Triple-bind (each bare)
                (λ _ _. commit_each-Keeps process name (done ++ (bare ∷ [])) frames each)))

  commit-Keeps :
      (process : Process κ net) (frame : Frame)
      → KeepsAll process
      → Keeps (commit κ net process frame)
  unfolding commit
  commit-Keeps process frame each =
      Triple-bind (on (Stomp10.known_transaction κ frame "Missing transaction for COMMIT command."))
        (λ name _.
          Triple-bind (gets-Stays κ net self t r (λ l. get_or l.session.transactions name []))
            (λ frames _. Triple-bind (commit_each-Keeps process name [] frames each) (λ _ _.
              Triple-bind
                (on (on_queue κ (QueueManager.clear_transaction_frames κ.setup κ.connection name)))
                (λ _ _.
                  on (modify (λ s. record s { transactions = remove s.transactions name }))))))

  run_method-Keeps :
      (process : Process κ net) (v : Version) (id : ℕ) (cmd : Command) (frame : Frame)
      → KeepsAll process
      → Keeps (run_method κ net process v id cmd frame)
  unfolding run_method
  run_method-Keeps process v id Command.connect frame each = connect-Keeps κ net self t r v id frame
  run_method-Keeps process v id Command.stomp frame each = connect-Keeps κ net self t r v id frame
  run_method-Keeps process v id Command.nack frame each = nack-Keeps frame
  run_method-Keeps process v id Command.commit frame each = commit-Keeps process frame each
  run_method-Keeps process v id _ frame each = on _

  run_or_keep-Keeps :
      (process : Process κ net) (v : Version) (id : ℕ) (cmd : Command) (frame : Frame)
      → KeepsAll process
      → Keeps (run_or_keep κ net process v id cmd frame)
  unfolding run_or_keep
  run_or_keep-Keeps process v id cmd frame each =
      Triple-if (not (is_truthy (transaction frame)) || is_transactional cmd)
        (run_method-Keeps process v id cmd frame each)
        (on (Stomp10.run_or_keep κ (λ f. pure tt) cmd frame))

  -- What `attempt` does with an outcome.
  abbrev after_attempt :
      Action κ net (Unit {0})
      → Result Error (Unit {0}) × Connection κ net
      → Result Error (Unit {0}) × Connection κ net
  after_attempt otherwise (r, l) = elim r [
    | ok _ ↦ otherwise l
    | err e ↦ on_session κ net (Stomp10.report κ e) l
  ]

  attempted-Keeps :
      (otherwise : Action κ net (Unit {0})) (o : Result Error (Unit {0}) × Connection κ net)
      → IsStale κ net self t r o.1
      → Keeps otherwise
      → IsStale κ net self t r (after_attempt otherwise o).1
  attempted-Keeps otherwise (ok _, l) h each = (each.run l h).0
  attempted-Keeps otherwise (err e, l) h each = ((on (Stomp10.report κ e)).run l h).0

  attempt-Keeps :
      (body otherwise : Action κ net (Unit {0}))
      → Keeps body
      → Keeps otherwise
      → Keeps (attempt κ net body otherwise)
  attempt-Keeps body otherwise first second = record {
    run = λ l h. (
      attempted-Keeps otherwise (body l) (first.run l h).0 second,
      result-Any (attempt κ net body otherwise l).0,
    );
  }

  if_valid-Keeps :
      (o : Option Command) (frame : Frame) (body : Command → Action κ net (Unit {0}))
      → ((cmd : Command) → Keeps (body cmd))
      → Keeps (if_valid κ net o frame body)
  if_valid-Keeps none frame body each = Triple-raise
  if_valid-Keeps (some cmd) frame body each = each cmd

  dispatch-Keeps :
      (process : Process κ net) (v : Version) (id : ℕ) (frame : Frame)
      → KeepsAll process
      → Keeps (dispatch κ net process v id frame)
  unfolding dispatch
  dispatch-Keeps process v id frame each = if_valid-Keeps (command_of frame.cmd) frame _ (λ cmd.
      Triple-bind (gets-Stays κ net self t r (λ l. l.session.connected)) (λ ready _.
        Triple-bind
          (Triple-raise_if (not ready && not (is_connect cmd)) (protocol_error "Not connected."))
          (λ _ _.
            attempt-Keeps (run_or_keep κ net process v id cmd frame)
              (on_session κ net (Stomp10.acknowledge_receipt κ cmd frame))
              (run_or_keep-Keeps process v id cmd frame each)
              (on (Stomp10.acknowledge_receipt κ cmd frame)))))

  process_as-Keeps : (v : Version) (id depth : ℕ) → KeepsAll (process_as κ net v id depth)
  process_as-Keeps v id zero frame = Triple-raise
  process_as-Keeps v id (suc depth) frame =
      dispatch-Keeps (process_as κ net v id depth) v id frame (process_as-Keeps v id depth)

  version-Keeps :
      (v : Version) (depth id : ℕ) (frame : Frame) (l : Connection κ net)
      → (l.objects id).version ≡ v
      → IsStale κ net self t r l
      → IsStale κ net self t r (process_by κ net depth id frame l).1
  unfolding process_by
  version-Keeps v10 depth id frame l at h =
      rw at ((on (Stomp10.process_frame κ depth frame)).run l h).0
  version-Keeps v11 depth id frame l at h = rw at ((process_as-Keeps v11 id depth frame).run l h).0
  version-Keeps v12 depth id frame l at h = rw at ((process_as-Keeps v12 id depth frame).run l h).0

  expired-Keeps :
      (id n : ℕ) (o : Option (ℕ × Job)) (l : Connection κ net)
      → IsStale κ net self t r l
      → IsStale κ net self t r
          (expired (timer_of κ net id) (with_timer_of κ net id) (call κ net id) n o l)
  expired-Keeps id n none l h = h
  expired-Keeps id n (some job) l h =
      let h' =
        ((timer-Stays κ net self t r id (λ x. record x { armed = without n x.armed })).run l h).0 in
      ((run_job-Stays κ net self t r id job).run _ h').0

-- What happens to a link: a frame arrives, or the n-th armed timer of an object expires.
pub data Event : Type 0 where
  arrives : Frame → Event
  expires : (id n : ℕ) → Event

module _ (κ : Client) (net : Network) where
  abbrev pub happens : Event → Connection κ net → Connection κ net
  happens (arrives frame) l = (process_frame κ net 2 frame l).1
  happens (expires id n) l = expire (timer_of κ net id) (with_timer_of κ net id) (call κ net id) n l

  abbrev pub happen : List Event → Connection κ net → Connection κ net
  happen [] l = l
  happen (e ∷ es) l = happen es (happens e l)

  happens-IsStale :
      (self t r : ℕ) (e : Event) (l : Connection κ net)
      → IsStale κ net self t r l
      → IsStale κ net self t r (happens e l)
  unfolding process_frame expire
  happens-IsStale self t r (arrives frame) l h =
      version-Keeps κ net self t r (l.objects l.protocol).version 2 l.protocol frame l refl h
  happens-IsStale self t r (expires id n) l h =
      expired-Keeps κ net self t r id n (nth n (timer_of κ net id l).armed) l h

  happen-IsStale :
      (self t r : ℕ) (es : List Event) (l : Connection κ net)
      → IsStale κ net self t r l
      → IsStale κ net self t r (happen es l)
  happen-IsStale self t r [] l h = h
  happen-IsStale self t r (e ∷ es) l h =
      happen-IsStale self t r es (happens e l) (happens-IsStale self t r e l h)

  late_unbinds :
      (fifo : FifoLaws κ.setup.store) (late : Bool) (l : Connection κ net)
      → late ≡ true
      → (((if late then on_session κ net (unbind κ) else pure tt) l).0 ≡ ok tt)
        × IsReleased κ fifo ((if late then on_session κ net (unbind κ) else pure tt) l).1.session
  late_unbinds fifo false l e = absurd (ground arith)
  late_unbinds fifo true l e = let done = unbind_releases κ fifo l.session in (done.0, done.1)

  -- With a lawful store, whatever frames the client sends, whatever timers expire, and in whatever
  -- order: the first call of receive_heartbeat later than the receive interval after an object was
  -- made, counted from its first last_hb and in the clock's microseconds, unbinds the session. The
  -- call returns, the session is not connected, and its connection holds no subscription and no
  -- pending frame.
  pub receive_heartbeat_unbinds :
      (fifo : FifoLaws κ.setup.store) (self : ℕ) (es : List Event) (l : Connection κ net)
      → self < l.made
      → (l.objects self).receive_heartbeat_interval * 1000
        < net.now (happen es l).reads - (l.objects self).last_hb
      → ((receive_heartbeat κ net self (happen es l)).0 ≡ ok tt)
        × IsReleased κ fifo (receive_heartbeat κ net self (happen es l)).1.session
  unfolding receive_heartbeat
  receive_heartbeat_unbinds fifo self es l there late =
      let h =
        happen-IsStale self (l.objects self).last_hb (l.objects self).receive_heartbeat_interval es
          l (record { last = refl; interval = refl; there = there }) in
      let handler = (happen es l).objects self in
      late_unbinds fifo
        (ltb (handler.receive_heartbeat_interval * 1000)
          (net.now (happen es l).reads - handler.last_hb))
        (record (happen es l) { reads = (happen es l).reads + 1 })
        (ground (arith, h.interval, h.last))
