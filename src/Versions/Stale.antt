-- ===== src/Versions/Stale.antt =====
-- The attribute last_hb of STOMP11 (coilmq/protocol/__init__.py), which no method assigns.
use coilmq.Prelude.{
  ℕ, ◌-◌, ◌*◌, ◌<◌, ◌≡◌, refl, ap, sym, ◌∙◌, Bool, true, ◌||◌, Option, none, some, List, [], ◌∷◌,
  pure, gets, modify, nat_beq, nat_beq_iff, ltb, Bool-cases, inl, inr,
}
use coilmq.Prelude.Triple.{
  Triple, Any, result-Any, Triple-pure, Triple-raise, Triple-bind, Triple-if,
}
use coilmq.Frame.{Frame, set_header}
use coilmq.Engine.{Client, Method, unbind}
use coilmq.Timer.{Timer, run_job, run_each, start, schedule, arm}
use coilmq.Versions.{
  Job, send_job, receive_job, Handler, Network, put_object, Connection, Action, on_session,
  read_clock, assign,
}
use coilmq.Versions.Heartbeat.{
  announced, at_least, or_overflow, timer_of, with_timer_of, send_heartbeat, receive_heartbeat,
  call, schedule_job, enable_send, enable_receive, enable_heartbeat,
}

module _ (κ : Client) (net : Network) (self t r : ℕ) where
  -- The object `self` is there, and has this last_hb and this interval to receive.
  pub record IsStale (l : Connection κ net) : Type 0 where
    pub last : (l.objects self).last_hb ≡ t
    pub interval : (l.objects self).receive_heartbeat_interval ≡ r
    pub there : self < l.made

  abbrev pub Stays : {A : Type 0} → Action κ net A → Type 0
  Stays m = Triple IsStale m Any

  pub on_session-Stays : {A : Type 0} (m : Method κ A) → Stays (on_session κ net m)
  on_session-Stays m = record {
    run = λ l h. (
      record { last = h.last; interval = h.interval; there = h.there },
      result-Any (m l.session).0,
    );
  }

  pub read_clock-Stays : Stays (read_clock κ net)
  read_clock-Stays = record {
    run = λ l h. (record { last = h.last; interval = h.interval; there = h.there }, tt);
  }

  pub gets-Stays : {A : Type 0} (g : Connection κ net → A) → Stays (gets g)
  gets-Stays g = record { run = λ l h. (h, tt) }

  put_object-field :
      (id : ℕ) (h : Handler) (objects : ℕ → Handler) (field : Handler → ℕ)
      → field h ≡ field (objects id)
      → field (put_object id h objects self) ≡ field (objects self)
  put_object-field id h objects field same = elim (Bool-cases (nat_beq self id)) [
    | inl e ↦ rw e (same ∙ ap (λ j. field (objects j)) (sym ((nat_beq_iff self id).0 e)))
    | inr e ↦ rw e refl
  ]

  pub assign-Stays :
      (id : ℕ) (f : Handler → Handler)
      → ((h : Handler) → (f h).last_hb ≡ h.last_hb)
      → ((h : Handler) → (f h).receive_heartbeat_interval ≡ h.receive_heartbeat_interval)
      → Stays (assign κ net id f)
  assign-Stays id f kept_last kept_interval = record {
    run = λ l h. (
      record {
        last =
            put_object-field id (f (l.objects id)) l.objects (λ o. o.last_hb)
              (kept_last (l.objects id))
            ∙ h.last;
        interval =
            put_object-field id (f (l.objects id)) l.objects (λ o. o.receive_heartbeat_interval)
              (kept_interval (l.objects id))
            ∙ h.interval;
        there = h.there;
      },
      tt,
    );
  }

  pub receive_heartbeat-Stays : (id : ℕ) → Stays (receive_heartbeat κ net id)
  unfolding receive_heartbeat
  receive_heartbeat-Stays id = Triple-bind read_clock-Stays (λ now _.
      Triple-bind (gets-Stays (λ l. l.objects id)) (λ h _.
        Triple-if (ltb (h.receive_heartbeat_interval * 1000) (now - h.last_hb))
          (on_session-Stays (unbind κ)) (Triple-pure tt)))

  pub call-Stays : (id : ℕ) (job : Job) → Stays (call κ net id job)
  unfolding send_heartbeat
  call-Stays id send_job = on_session-Stays _
  call-Stays id receive_job = receive_heartbeat-Stays id

  -- A change of a timer.
  pub timer-Stays :
      (id : ℕ) (f : Timer Job → Timer Job)
      → Stays (modify (λ l. with_timer_of κ net id (f (timer_of κ net id l)) l))
  timer-Stays id f = assign-Stays id (λ h. record h { timer = f h.timer }) (λ h. refl) (λ h. refl)

  pub run_job-Stays :
      (id : ℕ) (job : ℕ × Job)
      → Stays (run_job (timer_of κ net id) (with_timer_of κ net id) (call κ net id) job)
  unfolding run_job
  run_job-Stays id (interval, job) =
      Triple-bind (gets-Stays (λ l. (timer_of κ net id l).running)) (λ running _.
        Triple-if running
          (Triple-bind {f = λ _. call κ net id job} (timer-Stays id (arm (interval, job)))
            (λ _ _. call-Stays id job))
          (Triple-pure tt))

  run_each-Stays :
      (id : ℕ) (jobs : List (ℕ × Job))
      → Stays (run_each (timer_of κ net id) (with_timer_of κ net id) (call κ net id) jobs)
  unfolding run_each
  run_each-Stays id [] = Triple-pure tt
  run_each-Stays id (job ∷ jobs) =
      Triple-bind (run_job-Stays id job) (λ _ _. run_each-Stays id jobs)

  start-Stays :
      (id : ℕ) → Stays (start (timer_of κ net id) (with_timer_of κ net id) (call κ net id))
  unfolding start
  start-Stays id = Triple-bind (timer-Stays id (λ x. record x { running = true })) (λ _ _.
      Triple-bind (gets-Stays (λ l. (timer_of κ net id l).jobs)) (λ jobs _. run_each-Stays id jobs))

  or_overflow-Stays : (o : Option ℕ) → Stays (or_overflow o)
  or_overflow-Stays none = record { run = λ l h. (h, tt) }
  or_overflow-Stays (some n) = record { run = λ l h. (h, tt) }

  schedule_job-Stays : (id period : ℕ) (job : Job) → Stays (schedule_job κ net id period job)
  schedule_job-Stays id period job =
      assign-Stays id (λ h. record h { timer = schedule period job h.timer }) (λ h. refl)
        (λ h. refl)

  enable_send-Stays : (id : ℕ) (cy : Bool × ℕ) → Stays (enable_send κ net id cy)
  unfolding enable_send
  enable_send-Stays id cy = Triple-bind (gets-Stays (λ l. l.objects id)) (λ h _.
      Triple-if (nat_beq h.send_heartbeat_interval 0 || nat_beq cy.1 0) (Triple-pure tt) (
        Triple-bind (or_overflow-Stays (at_least h.send_heartbeat_interval cy)) (λ interval _.
          Triple-bind
            (assign-Stays id (λ h. record h { send_heartbeat_interval = interval }) (λ h. refl)
              (λ h. refl))
            (λ _ _.
              Triple-bind (or_overflow-Stays (at_least interval cy))
                (λ period _. schedule_job-Stays id period send_job)))))

  enable_receive-Stays : (id : ℕ) (cx : Bool × ℕ) → Stays (enable_receive κ net id cx)
  unfolding enable_receive
  enable_receive-Stays id cx = Triple-bind (gets-Stays (λ l. l.objects id)) (λ h _.
      Triple-if (nat_beq h.receive_heartbeat_interval 0 || nat_beq cx.1 0) (Triple-pure tt) (
        Triple-bind (or_overflow-Stays (at_least h.send_heartbeat_interval cx))
          (λ period _. schedule_job-Stays id period receive_job)))

  pub enable_heartbeat-Stays :
      (id : ℕ) (ns : List (Bool × ℕ)) (response : Frame)
      → Stays (enable_heartbeat κ net id ns response)
  unfolding enable_heartbeat
  enable_heartbeat-Stays id [] response = Triple-raise
  enable_heartbeat-Stays id (cx ∷ []) response = Triple-raise
  enable_heartbeat-Stays id (cx ∷ cy ∷ []) response = Triple-bind (enable_send-Stays id cy) (λ _ _.
      Triple-bind (enable_receive-Stays id cx) (λ _ _. Triple-bind (start-Stays id) (λ _ _.
        Triple-bind {f = λ h. pure (set_header response "heart-beat" (announced κ net h))}
          (gets-Stays (λ l. l.objects id)) (λ h _. Triple-pure tt))))
  enable_heartbeat-Stays id (cx ∷ cy ∷ cz ∷ ns) response = Triple-raise
