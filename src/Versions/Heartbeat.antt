-- ===== src/Versions/Heartbeat.antt =====
-- The heart-beats of STOMP11 (coilmq/protocol/__init__.py).
use coilmq.Prelude.{
  ℕ, ◌-◌, ◌*◌, ◌%◌, String, Bool, true, false, ◌||◌, Option, none, some, List, [], ◌∷◌, ok, err,
  Result, pure, raise, ◌>>=◌, ◌>>◌, ltb, nat_beq, if◌then◌else◌,
}
use coilmq.Text.{decimal, ◌+s◌}
use coilmq.Frame.{Frame, Error, set_header, error_frame, type_error, overflow_error}
use coilmq.Engine.{Client, reply, unbind}
use coilmq.Timer.{Timer, schedule, start, stop}
use coilmq.Versions.{
  Job, send_job, receive_job, Handler, Network, put_object, Connection, Action, on_session,
  read_clock, attributes, assign,
}

-- max(interval, datetime.timedelta(milliseconds=n)) for an integer `n`, whose sign comes first; a
-- timedelta has 999999999 days at most.
abbrev pub at_least : ℕ → Bool × ℕ → Option ℕ
at_least interval (false, n) =
    if ltb n 86400000000000000 then some (if ltb interval n then n else interval) else none
at_least interval (true, n) = if ltb 86399999913600000 n then none else some interval

abbrev pub or_overflow : {S : Type 0} → Option ℕ → S → Result Error ℕ × S
or_overflow none s = (err overflow_error, s)
or_overflow (some n) s = (ok n, s)

module _ (κ : Client) (net : Network) where
  -- The timer of an object, as a part of the whole.
  abbrev pub timer_of : ℕ → Connection κ net → Timer Job
  timer_of self l = (l.objects self).timer

  abbrev pub with_timer_of : ℕ → Timer Job → Connection κ net → Connection κ net
  with_timer_of self t l = record l {
    objects = put_object self (record (l.objects self) { timer = t }) l.objects;
  }

  unfoldable pub send_heartbeat : Action κ net (Unit {0})
  send_heartbeat = on_session κ net (reply κ (error_frame "heartbeat" []))

  unfoldable pub receive_heartbeat : ℕ → Action κ net (Unit {0})
  receive_heartbeat self = do
    now ← read_clock κ net
    h ← attributes κ net self
    if ltb (h.receive_heartbeat_interval * 1000) (now - h.last_hb)
        then on_session κ net (unbind κ)
        else pure tt

  abbrev pub call : ℕ → Job → Action κ net (Unit {0})
  call self send_job = send_heartbeat
  call self receive_job = receive_heartbeat self

  abbrev pub schedule_job : ℕ → ℕ → Job → Action κ net (Unit {0})
  schedule_job self period job =
      assign κ net self (λ h. record h { timer = schedule period job h.timer })

  -- `if self.send_heartbeat_interval and cy`
  unfoldable pub enable_send : ℕ → Bool × ℕ → Action κ net (Unit {0})
  enable_send self cy = do
    h ← attributes κ net self
    if nat_beq h.send_heartbeat_interval 0 || nat_beq cy.1 0 then pure tt else (do
      interval ← or_overflow (at_least h.send_heartbeat_interval cy)
      assign κ net self (λ h. record h { send_heartbeat_interval = interval })
      period ← or_overflow (at_least interval cy)
      schedule_job self period send_job)

  -- `if self.receive_heartbeat_interval and cx`
  unfoldable pub enable_receive : ℕ → Bool × ℕ → Action κ net (Unit {0})
  enable_receive self cx = do
    h ← attributes κ net self
    if nat_beq h.receive_heartbeat_interval 0 || nat_beq cx.1 0 then pure tt else (do
      period ← or_overflow (at_least h.send_heartbeat_interval cx)
      schedule_job self period receive_job)

  -- int(interval.microseconds / 1000): the milliseconds beside the seconds
  abbrev pub announced : Handler → String
  announced h =
      decimal (h.send_heartbeat_interval % 1000)
      +s ","
      +s decimal (h.receive_heartbeat_interval % 1000)

  abbrev pub with_intervals : ℕ → Frame → Action κ net Frame
  with_intervals self response = do
    h ← attributes κ net self
    pure (set_header response "heart-beat" (announced h))

  -- enable_heartbeat, with the response that gets a header
  unfoldable pub enable_heartbeat : ℕ → List (Bool × ℕ) → Frame → Action κ net Frame
  enable_heartbeat self (cx ∷ cy ∷ []) response = do
    enable_send self cy
    enable_receive self cx
    start (timer_of self) (with_timer_of self) (call self)
    with_intervals self response
  enable_heartbeat self _ response = raise type_error

  unfoldable pub disable_heartbeat : ℕ → Action κ net (Unit {0})
  disable_heartbeat self = stop (timer_of self) (with_timer_of self) (call self)
