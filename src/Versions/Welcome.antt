-- ===== src/Versions/Welcome.antt =====
-- The steps of CONNECT of STOMP11 that send the response (coilmq/protocol/__init__.py).
use coilmq.Prelude.{
  ℕ, ◌+◌, ◌≡◌, refl, ap, ◌∙◌, arith, true, false, Option, [], ◌∷◌, ◌++◌, ok, Result, pure, ◌>>◌,
  continue, string_equality, nat_beq, if◌then◌else◌, Bool-cases, inl, inr,
}
use coilmq.Dict.{or_else}
use coilmq.Text.{is_truthy}
use coilmq.Frame.{Frame, Error, header, set_header}
use coilmq.Host.{send_frame}
use coilmq.Engine.{Client, State, reply}
use coilmq.Protocol.Stomp10.{authenticate}
use coilmq.Wire.Bytes.{text_equality, split_from, int_of, digits, strip, strip_left}
use coilmq.Timer.{run_each, start}
use coilmq.Versions.{Version, Handler, Network, put_object, Connection}
use coilmq.Versions.Heartbeat.{
  timer_of, with_timer_of, call, announced, with_intervals, enable_send, enable_receive,
  enable_heartbeat,
}
use coilmq.Versions.Connect.{
  welcome, connect_with, common, highest, agree, negotiate_protocol, integers, beat,
}

module _ (κ : Client) (net : Network) where
  -- The connection accepts what is sent to it.
  abbrev pub Receives : Type 0
  Receives = (n : ℕ) (f : Frame) → κ.setup.env.delivers n κ.connection f ≡ true

  -- The client's credentials are accepted, or none are asked for.
  abbrev pub IsAuthentic : Frame → Type 0
  IsAuthentic frame = (s : State κ) → authenticate κ κ.authenticator frame s ≡ (ok tt, s)

  -- The session once the connection has got a frame.
  abbrev pub got : Frame → State κ → State κ
  got f s = record s {
    queue = record s.queue {
      host = record s.queue.host {
        sent = s.queue.host.sent ++ ((κ.connection, f) ∷ []);
        attempts = s.queue.host.attempts + 1;
      };
    };
  }

  pub reply-got : (f : Frame) (s : State κ) → Receives → reply κ f s ≡ (ok tt, got f s)
  unfolding send_frame
  reply-got f s receives = rw (receives s.queue.host.attempts f) refl

  abbrev pub with_session : Frame → State κ → Frame
  with_session response s = set_header response "session" (κ.setup.env.uuid s.queue.host.uuids)

  -- The session once STOMP10.connect has answered.
  abbrev pub welcomed : Frame → State κ → State κ
  welcomed response s = got (with_session response s) (record s {
    connected = true;
    queue = record s.queue { host = record s.queue.host { uuids = s.queue.host.uuids + 1 } };
  })

  pub connect_with-welcomed :
      (frame response : Frame) (l : Connection κ net)
      → Receives
      → IsAuthentic frame
      → connect_with κ net frame response l
        ≡ (ok (with_session response l.session), record l { session = welcomed response l.session })
  unfolding connect_with
  connect_with-welcomed frame response l receives authentic =
      let s : State κ = l.session in
      let greeted : State κ = record s {
        connected = true;
        queue = record s.queue { host = record s.queue.host { uuids = s.queue.host.uuids + 1 } };
      } in
      let back : Result Error Frame × State κ → Result Error Frame × Connection κ net =
        λ o. (o.0, record l { session = o.1 }) in
      ap (λ o. back (continue (λ u. welcome κ net response) o)) (authentic s)
      ∙ ap (λ o. back (continue (λ u. pure (with_session response s)) o))
          (reply-got (with_session response s) greeted receives)

  pub negotiate_protocol-agree :
      (replace : Version → ℕ → Frame → Frame → _) (v : Version) (frame response : Frame)
      (o : Option Version) (l : Connection κ net)
      → is_truthy (header frame "accept-version") ≡ true
      → highest (common v (or_else (header frame "accept-version") "")) ≡ o
      → negotiate_protocol κ net replace v frame response l
        ≡ agree κ net replace v o frame response l
  unfolding negotiate_protocol
  negotiate_protocol-agree replace v frame response o l asked best =
      rw asked (ap (λ o. agree κ net replace v o frame response l) best)

  enable_send-zero :
      (self : ℕ) (l : Connection κ net) → enable_send κ net self (false, 0) l ≡ (ok tt, l)
  unfolding enable_send
  enable_send-zero self l = elim (Bool-cases (nat_beq (l.objects self).send_heartbeat_interval 0)) [
    | inl off ↦ rw off refl
    | inr on ↦ rw on refl
  ]

  enable_receive-zero :
      (self : ℕ) (l : Connection κ net) → enable_receive κ net self (false, 0) l ≡ (ok tt, l)
  unfolding enable_receive
  enable_receive-zero self l =
      elim (Bool-cases (nat_beq (l.objects self).receive_heartbeat_interval 0)) [
        | inl off ↦ rw off refl
        | inr on ↦ rw on refl
      ]

  -- The timer of an object that was started, with no job.
  abbrev pub started : ℕ → Connection κ net → Connection κ net
  started self l = with_timer_of κ net self (record (timer_of κ net self l) { running = true }) l

  pub object-put :
      (self : ℕ) (h : Handler) (objects : ℕ → Handler) → put_object self h objects self ≡ h
  object-put self h objects =
      ap (λ b. if b then h else objects self) {x = nat_beq self self} {y = true} (ground arith)

  start-idle :
      (self : ℕ) (l : Connection κ net)
      → (l.objects self).timer.jobs ≡ []
      → start (timer_of κ net self) (with_timer_of κ net self) (call κ net self) l
        ≡ (ok tt, started self l)
  unfolding start run_each
  start-idle self l idle =
      let h : Handler = l.objects self in
      let h' : Handler = record h { timer = record h.timer { running = true } } in
      ap
        (λ jobs.
          run_each (timer_of κ net self) (with_timer_of κ net self) (call κ net self) jobs
            (started self l))
        (ap (λ h. h.timer.jobs) (object-put self h' l.objects) ∙ idle)

  pub beat-zero :
      (self : ℕ) (response : Frame) (l : Connection κ net)
      → (l.objects self).timer.jobs ≡ []
      → beat κ net self "0,0" response l
        ≡ (ok (set_header response "heart-beat" (announced κ net (l.objects self))), started self l)
  unfolding beat integers split_from int_of strip strip_left digits enable_heartbeat
  beat-zero self response l idle =
      let h : Handler = l.objects self in
      let h' : Handler = record h { timer = record h.timer { running = true } } in
      let begin = start (timer_of κ net self) (with_timer_of κ net self) (call κ net self) in
      ap
        (continue (λ u.
          enable_receive κ net self (false, 0) >> (begin >> with_intervals κ net self response)))
        (enable_send-zero self l)
      ∙ (ap (continue (λ u. begin >> with_intervals κ net self response))
            (enable_receive-zero self l)
          ∙ (ap (continue (λ u. with_intervals κ net self response)) (start-idle self l idle)
              ∙ ap
                  (λ h. (ok (set_header response "heart-beat" (announced κ net h)), started self l))
                  (object-put self h' l.objects)))
