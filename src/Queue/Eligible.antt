-- ===== src/Queue/Eligible.antt =====
-- The queues among which `_send_backlog` (coilmq/queue.py) lets the scheduler choose.
use mathlib.Core.Path.{fun_ext}
use coilmq.Prelude.{
  ℕ, String, ◌≡◌, refl, ◌∙◌, Bool, true, false, not, ◌&&◌, ◌||◌, none, List, [], ◌∷◌, ok, Result,
  arith, eq_iff, nat_equality, string_equality, ◌==◌, if◌then◌else◌, Bool-cases, inl, inr, is_empty,
}
use coilmq.Dict.{Dict, get, keys, contains}
use coilmq.Dict.Laws.{IsDict}
use coilmq.Frame.{Frame, Error}
use coilmq.Store.Interface.{FifoLaws}
use coilmq.Queue.State.{Setup, State}
use coilmq.Queue.Backlog.{eligible_queues}
use coilmq.Queue.Leave.{is_member}

-- A destination that `c` subscribes to and that has messages.
abbrev pub is_eligible : ℕ → (String → List Frame) → String × List ℕ → Bool
is_eligible c waiting (d, q) = contains c q && not (is_empty (waiting d))

abbrev pub selected : ℕ → (String → List Frame) → Dict String (List ℕ) → Dict String (List ℕ)
selected c waiting [] = []
selected c waiting ((d, q) ∷ qs) =
    let rest = selected c waiting qs in if is_eligible c waiting (d, q) then (d, q) ∷ rest else rest

contains-keys_nil : (d : String) → contains d (keys {V = List ℕ} []) ≡ false
unfolding contains
contains-keys_nil d = refl

contains-keys_cons :
    (d e : String) (s : List ℕ) (qs : Dict String (List ℕ))
    → contains d (keys ((e, s) ∷ qs)) ≡ (e == d || contains d (keys qs))
unfolding contains
contains-keys_cons d e s qs = refl

is_member-cons :
    (e : String) (s : List ℕ) (qs : Dict String (List ℕ)) (d : String) (c : ℕ)
    → is_member ((e, s) ∷ qs) d c ≡ (if e == d then contains c s else is_member qs d c)
unfolding get
is_member-cons e s qs d c = ground arith

is_member-none :
    (qs : Dict String (List ℕ)) (d : String) (c : ℕ) → get qs d ≡ none → is_member qs d c ≡ false
unfolding contains
is_member-none qs d c h = rw h

is_member-nil : (d : String) (c : ℕ) → is_member [] d c ≡ false
unfolding get contains
is_member-nil d c = refl

-- `c` subscribes to what is selected, and there are messages.
pub selected-member :
    (c : ℕ) (waiting : String → List Frame) (qs : Dict String (List ℕ)) (d : String)
    → IsDict qs
    → contains d (keys (selected c waiting qs)) ≡ true
    → (is_member qs d c ≡ true) × (is_empty (waiting d) ≡ false)
selected-member c waiting [] d u h = cc (contains-keys_nil d)
selected-member c waiting ((e, s) ∷ qs) d u h = ground (
  arith,
  selected-member c waiting qs d u.1,
  contains-keys_cons d e s (selected c waiting qs),
  is_member-cons e s qs d c,
  is_member-none qs e c u.0,
  eq_iff e d,
)

-- Whatever `c` subscribes to and has messages is selected.
pub selected_none :
    (c : ℕ) (waiting : String → List Frame) (qs : Dict String (List ℕ)) (d : String)
    → is_empty (selected c waiting qs) ≡ true
    → is_member qs d c ≡ true
    → is_empty (waiting d) ≡ true
selected_none c waiting [] d h m = cc (is_member-nil d c)
selected_none c waiting ((e, s) ∷ qs) d h m =
    ground (arith, selected_none c waiting qs d, is_member-cons e s qs d c, eq_iff e d)

module _ (σ : Setup) (fifo : FifoLaws σ.store) where
  abbrev pub Selects :
      ℕ → Dict String (List ℕ) → State σ → Result Error (Dict String (List ℕ)) × State σ → Type 0
  Selects c queues q (r, q') =
      (r ≡ ok (selected c (fifo.contents q.messages) queues))
      × ((x : String) → fifo.contents q'.messages x ≡ fifo.contents q.messages x)
      × (q'.queues ≡ q.queues)
      × (q'.pending ≡ q.pending)
      × (q'.transaction_frames ≡ q.transaction_frames)
      × (q'.host ≡ q.host)

  abbrev looked : String → State σ → State σ
  looked d q = record q { messages = (σ.store.has_frames d q.messages).1 }

  eligible_queues-cons :
      (c : ℕ) (d : String) (s : List ℕ) (queues rest : Dict String (List ℕ)) (q : State σ)
      → contains c s ≡ true
      → (eligible_queues σ c queues (looked d q)).0 ≡ ok rest
      → eligible_queues σ c ((d, s) ∷ queues) q ≡ (
        ok (if not (is_empty (fifo.contents q.messages d)) then (d, s) ∷ rest else rest),
        (eligible_queues σ c queues (looked d q)).1,
      )
  unfolding eligible_queues
  eligible_queues-cons c d s queues rest q mine others =
      ground (arith, fifo.has_frames_ok d q.messages)

  eligible_queues-other :
      (c : ℕ) (d : String) (s : List ℕ) (queues : Dict String (List ℕ)) (q : State σ)
      → contains c s ≡ false
      → eligible_queues σ c ((d, s) ∷ queues) q ≡ eligible_queues σ c queues q
  unfolding eligible_queues
  eligible_queues-other c d s queues q other = rw other

  -- The eligible queues are those to which `c` subscribes and that have messages; looking for them
  -- changes no queue.
  pub eligible_queues-Selects :
      (c : ℕ) (queues : Dict String (List ℕ)) (q : State σ)
      → Selects c queues q (eligible_queues σ c queues q)
  unfolding eligible_queues
  eligible_queues-Selects c [] q = (refl, λ x. refl, refl, refl, refl, refl)
  eligible_queues-Selects c ((d, s) ∷ queues) q =
      let (found, kept, subscribed, waiting, acked, same) =
        eligible_queues-Selects c queues (looked d q) in
      let view : fifo.contents (looked d q).messages ≡ fifo.contents q.messages =
        fun_ext (fifo.contents-has_frames d q.messages) in
      elim (Bool-cases (contains c s)) [
        | inl mine ↦ rw (eligible_queues-cons c d s queues _ q mine (rw view at found)) (
          rw mine,
          λ x. kept x ∙ fifo.contents-has_frames d q.messages x,
          subscribed,
          waiting,
          acked,
          same,
        )
        | inr other ↦
            rw (eligible_queues-other c d s queues q other, other)
              (eligible_queues-Selects c queues q)
      ]
