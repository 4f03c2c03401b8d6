-- ===== src/Versions/Silence.antt =====
-- disable_heartbeat of STOMP11 (coilmq/protocol/__init__.py).
use coilmq.Prelude.{
  ℕ, ◌≡◌, refl, sym, ap, ◌∙◌, false, List, Bool-cases, inl, inr, nat_beq, nat_beq_iff,
}
use coilmq.Engine.{Client}
use coilmq.Timer.{expire_all}
use coilmq.Timer.Laws.{IsPart, without_all, expire_all-stop}
use coilmq.Versions.{Handler, Network, put_object, Connection}
use coilmq.Versions.Heartbeat.{timer_of, with_timer_of, call, disable_heartbeat}
use coilmq.Versions.Welcome.{object-put}

module _ (κ : Client) (net : Network) where
  put_object_self :
      (self : ℕ) (h : Handler) (objects : ℕ → Handler) (j : ℕ)
      → h ≡ objects self
      → put_object self h objects j ≡ objects j
  put_object_self self h objects j same = elim (Bool-cases (nat_beq j self)) [
    | inl here ↦ rw here (same ∙ ap objects (sym ((nat_beq_iff j self).0 here)))
    | inr there ↦ rw there refl
  ]

  put_object-put_object :
      (self : ℕ) (h k : Handler) (objects : ℕ → Handler) (j : ℕ)
      → put_object self h (put_object self k objects) j ≡ put_object self h objects j
  put_object-put_object self h k objects j = elim (Bool-cases (nat_beq j self)) [
    | inl here ↦ rw here refl
    | inr there ↦ rw there refl
  ]

  -- The timer of an object is a part of the whole.
  pub timer_of-IsPart : (self : ℕ) → IsPart (timer_of κ net self) (with_timer_of κ net self)
  timer_of-IsPart self = record {
    get_put = λ t l.
        ap (λ h. h.timer) (object-put κ net self (record (l.objects self) { timer = t }) l.objects);
    put_get = λ l.
        ap (λ os. record l { objects = os })
          (λ i j. put_object_self self (l.objects self) l.objects j refl i);
    put_put = λ t u l.
        let k : Handler = record (l.objects self) { timer = u } in
        ap
          (λ h. record l {
            objects = put_object self (record h { timer = t }) (put_object self k l.objects);
          })
          (object-put κ net self k l.objects)
        ∙ ap (λ os. record l { objects = os })
            (λ i j.
              put_object-put_object self (record (l.objects self) { timer = t }) k l.objects j i);
  }

  -- After disable_heartbeat, in whatever order the timers that are still armed expire, no heart-beat is
  -- sent and nobody is unbound: only the timer of the object has changed.
  pub expire_all-disable_heartbeat :
      (self : ℕ) (ns : List ℕ) (l : Connection κ net)
      → expire_all
          (timer_of κ net self)
          (with_timer_of κ net self)
          (call κ net self)
          ns
          (disable_heartbeat κ net self l).1
        ≡ with_timer_of κ net self
            (record (timer_of κ net self l) {
              running = false;
              armed = without_all ns (timer_of κ net self l).armed;
            })
            l
  unfolding disable_heartbeat
  expire_all-disable_heartbeat self ns l =
      expire_all-stop (timer_of κ net self) (with_timer_of κ net self) (call κ net self)
        (timer_of-IsPart self) ns l
