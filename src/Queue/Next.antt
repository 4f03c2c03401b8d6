-- ===== src/Queue/Next.antt =====
-- `_send_backlog` of QueueManager (coilmq/queue.py) where it chooses the destination itself.
use mathlib.Core.Path.{fun_ext}
use coilmq.Prelude.{
  ℕ, ◌+◌, String, ◌≡◌, refl, ap, ◌∙◌, ◌⊎◌, Bool, true, false, ◌&&◌, Option, none, some, List, [],
  ◌∷◌, ◌++◌, ok, Result, ◌>>=◌, arith, nat_equality, string_equality, ◌==◌, if◌then◌else◌,
  Bool-cases, inl, inr, is_empty,
}
use coilmq.Dict.{Dict, get, has, keys, contains}
use coilmq.Dict.Laws.{IsDict}
use coilmq.Frame.{Frame, Error}
use coilmq.Host.{Host, is_reliable}
use coilmq.Store.Interface.{FifoLaws}
use coilmq.Queue.State.{Setup, State}
use coilmq.Queue.Contract.{IsLawful}
use coilmq.Queue.Backlog.{send_backlog, send_backlog_of, eligible_queues, if_chosen}
use coilmq.Queue.Deliver.{after_accepted, get-tracked, messages-tracked, deliver_accepted}
use coilmq.Queue.Drain.{taken, deliver_or_requeue_done, contents-taken}
use coilmq.Queue.Leave.{is_member}
use coilmq.Queue.Subscribe.{backlog-deliver}
use coilmq.Queue.Eligible.{selected, selected-member, selected_none, eligible_queues-Selects}

module _ (σ : Setup) where
  abbrev drawn : State σ → State σ
  drawn q = record q { host = record q.host { draws = q.host.draws + 1 } }

  abbrev chosen : ℕ → Dict String (List ℕ) → State σ → Option String
  chosen c eligible q = σ.queue_scheduler (σ.env.draw q.host.draws) eligible c

  send_backlog-chosen :
      (c : ℕ) (eligible : Dict String (List ℕ)) (q : State σ)
      → (eligible_queues σ c q.queues q).0 ≡ ok eligible
      → let q' = (eligible_queues σ c q.queues q).1 in
        send_backlog σ c none q
        ≡ if_chosen σ (chosen c eligible q') (send_backlog_of σ c) (drawn q')
  unfolding send_backlog
  send_backlog-chosen c eligible q found = rw (found, ◌>>=◌)

and-false : (b : Bool) → (b && false) ≡ false
and-false true = refl
and-false false = refl

module _ (σ : Setup) (lawful : IsLawful σ) where
  abbrev fifo : FifoLaws σ.store
  fifo = lawful.fifo

  -- How an acknowledgement ends, by whether anything is left for `c`.
  abbrev pub Next : ℕ → State σ → Result Error (Unit {0}) × State σ → Type 0
  Next c q (r, q') =
      (r ≡ ok tt)
      × (((d : String)
              → is_member q.queues d c ≡ true
              → is_empty (fifo.contents q.messages d) ≡ true)
            × (q'.host.sent ≡ q.host.sent)
            × ((x : String) → fifo.contents q'.messages x ≡ fifo.contents q.messages x)
            × ((x : ℕ) → get q'.pending x ≡ get q.pending x)
          ⊎ ((d : String) × (f : Frame) × (l : List Frame) × (is_member q.queues d c ≡ true)
              × (fifo.contents q.messages d ≡ f ∷ l)
              × (q'.host.sent ≡ q.host.sent ++ ((c, f) ∷ []))
              × ((x : String)
                  → fifo.contents q'.messages x
                    ≡ (if d == x then l else fifo.contents q.messages x))
              × ((x : ℕ) → get q'.pending x ≡ (if c == x then some f else get q.pending x))))

  nothing-Next :
      (c : ℕ) (q q' : State σ)
      → is_empty (selected c (fifo.contents q.messages) q.queues) ≡ true
      → ((x : String) → fifo.contents q'.messages x ≡ fifo.contents q.messages x)
      → q'.pending ≡ q.pending
      → q'.host.sent ≡ q.host.sent
      → Next c q (ok tt, q')
  nothing-Next c q q' none_left kept waiting sent = (
    refl,
    inl (
      λ d member. selected_none c (fifo.contents q.messages) q.queues d none_left member,
      sent,
      kept,
      λ x. ap (λ (p : Dict ℕ Frame). get p x) waiting,
    ),
  )

  eq-nil : {A : Type 0} (l : List A) → is_empty l ≡ true → l ≡ []
  eq-nil [] h = refl
  eq-nil (x ∷ xs) h = cc

  uncons : {A : Type 0} (l : List A) → is_empty l ≡ false → (x : A) × (xs : List A) × (l ≡ x ∷ xs)
  uncons [] h = cc
  uncons (x ∷ xs) h = (x, xs, refl)

  -- The backlog of the chosen destination is not empty, so one frame goes to `c`.
  chosen-Next :
      (c : ℕ) (d : String) (q q' : State σ)
      → IsDict q.queues
      → contains d (keys (selected c (fifo.contents q.messages) q.queues)) ≡ true
      → fifo.contents q'.messages ≡ fifo.contents q.messages
      → q'.pending ≡ q.pending
      → q'.host ≡ (drawn σ q).host
      → is_reliable q.host c ≡ true
      → has q.pending c ≡ false
      → ((n : ℕ) (f : Frame) → σ.env.delivers n c f ≡ true)
      → Next c q (send_backlog_of σ c d q')
  chosen-Next c d q q' unique inside kept waiting host r idle up =
      let (member, filled) =
        selected-member c (fifo.contents q.messages) q.queues d unique inside in
      let (f, l, e) = uncons (fifo.contents q.messages d) filled in
      let here : fifo.contents q'.messages d ≡ f ∷ l =
        ap (λ (v : String → List Frame). v d) kept ∙ e in
      let whole =
        backlog-deliver σ fifo c d q' f l (rw host r) here
        ∙ deliver_or_requeue_done σ fifo c d f (taken σ d q') (after_accepted σ c f (taken σ d q'))
            (deliver_accepted σ c f (taken σ d q')
              (rw waiting (rw idle (and-false (is_reliable q'.host c)))) (up q'.host.attempts f)) in
      rw whole (
        refl,
        inr (
          d,
          f,
          l,
          member,
          e,
          ap (λ (h : Host). h.sent ++ ((c, f) ∷ [])) host,
          λ x. ground (
            arith,
            messages-tracked c f (taken σ d q'),
            contents-taken σ fifo d (f ∷ l) q' x here,
            ap (λ (v : String → List Frame). v x) kept,
          ),
          λ x. ground (
            arith,
            get-tracked c f (taken σ d q') x,
            ap (λ (h : Host). is_reliable h c) host,
            ap (λ (p : Dict ℕ Frame). get p x) waiting,
          ),
        ),
      )

  pub send_backlog-Next :
      (c : ℕ) (q : State σ)
      → IsDict q.queues
      → is_reliable q.host c ≡ true
      → has q.pending c ≡ false
      → ((n : ℕ) (f : Frame) → σ.env.delivers n c f ≡ true)
      → Next c q (send_backlog σ c none q)
  send_backlog-Next c q unique r idle up =
      let (found, kept, subscribed, waiting, acked, same) =
        eligible_queues-Selects σ fifo c q.queues q in
      let eligible = selected c (fifo.contents q.messages) q.queues in
      let q' = (eligible_queues σ c q.queues q).1 in
      rw (send_backlog-chosen σ c eligible q found) (elim (Bool-cases (is_empty eligible)) [
        | inl none_left ↦
            rw
              (ap (λ (e : Dict String (List ℕ)). chosen σ c e q') (eq-nil eligible none_left)
                ∙ lawful.queue.chooses_none (σ.env.draw q'.host.draws) c)
              (nothing-Next c q (drawn σ q') none_left kept waiting
                (ap (λ (h : Host). h.sent) same))
        | inr some_left ↦
            let (d, chosen, inside) =
              lawful.queue.chooses (σ.env.draw q'.host.draws) eligible c some_left in
            rw chosen (
              chosen-Next c d q (drawn σ q') unique inside (fun_ext kept) waiting
                (ap (λ (h : Host). record h { draws = h.draws + 1 }) same) r idle up)
      ])
