-- ===== src/Queue/Filed.antt =====
-- The invariant of QueueManager (coilmq/queue.py): where messages are, and how they look.
use mathlib.Core.Path.{subst}
use coilmq.Prelude.{
  ℕ, String, ◌≡◌, ap, sym, ◌∙◌, Bool, true, false, Option, none, some, List, [], ◌∷◌, ◌++◌, Exec,
  modify, gets, arith, eq_iff, nat_equality, string_equality, ◌==◌, if◌then◌else◌, Bool-cases, inl,
  inr,
}
use coilmq.Prelude.Triple.{Triple, Gives, Any}
use coilmq.Dict.{Dict, get, put, remove}
use coilmq.Dict.Laws.{IsDict, get-put, get-remove}
use coilmq.Text.{is_truthy}
use coilmq.Frame.{Frame, Error, header}
use coilmq.Host.{Host}
use coilmq.Store.Interface.{FifoLaws, head?, tail}
use coilmq.Queue.State.{Setup, State, Method, on_store, on_host}

-- A MESSAGE for `d`: it names `d`, which is not empty, and it has an id.
pub record IsMessage (d : String) (f : Frame) : Type 0 where
  pub command : f.cmd ≡ "message"
  pub named : header f "destination" ≡ some d
  pub proper : is_truthy (some d) ≡ true
  pub id : String
  pub identified : header f "message-id" ≡ some id

-- All frames of a list are messages for `d`.
abbrev pub AreMessages : String → List Frame → Type 0
AreMessages d [] = Unit {0}
AreMessages d (f ∷ fs) = IsMessage d f × AreMessages d fs

abbrev pub MaybeMessage : String → Option Frame → Type 0
MaybeMessage d none = Unit {0}
MaybeMessage d (some f) = IsMessage d f

AreMessages-append :
    (d : String) (fs : List Frame) (f : Frame)
    → AreMessages d fs
    → IsMessage d f
    → AreMessages d (fs ++ (f ∷ []))
AreMessages-append d [] f h m = (m, tt)
AreMessages-append d (g ∷ fs) f h m = (h.0, AreMessages-append d fs f h.1 m)

tail-AreMessages : (d : String) (fs : List Frame) → AreMessages d fs → AreMessages d (tail fs)
tail-AreMessages d [] h = tt
tail-AreMessages d (f ∷ fs) h = h.1

head?-MaybeMessage : (d : String) (fs : List Frame) → AreMessages d fs → MaybeMessage d (head? fs)
head?-MaybeMessage d [] h = tt
head?-MaybeMessage d (f ∷ fs) h = h.0

module _ (σ : Setup) (fifo : FifoLaws σ.store) where
  -- What waits in the store for a destination names that destination, and so does what is pending
  -- for a connection name one; each destination has one set of subscribers.
  pub record Filed (q : State σ) : Type 0 where
    pub subscribed : IsDict q.queues
    pub waiting : (d : String) → AreMessages d (fifo.contents q.messages d)
    pub unacknowledged :
        (c : ℕ) (f : Frame) → get q.pending c ≡ some f → (d : String) × IsMessage d f

  -- A method that keeps the invariant, whether it returns or raises.
  abbrev pub Safe : {A : Type 0} → Method σ A → (A → Type 0) → Type 0
  Safe m R = Triple Filed m R

  -- A change of the subscriptions.
  pub queues-Filed :
      (g : State σ → Dict String (List ℕ))
      → ((q : State σ) → IsDict q.queues → IsDict (g q))
      → Safe (modify (λ q. record q { queues = g q })) Any
  queues-Filed g keeps = record {
    run = λ q h. (
      record {
        subscribed = keeps q h.subscribed;
        waiting = h.waiting;
        unacknowledged = h.unacknowledged;
      },
      tt,
    );
  }

  -- What a manager reads of its state.
  pub gets-Filed : {A : Type 0} (g : State σ → A) → Safe (gets g) Any
  gets-Filed g = record { run = λ q h. (h, tt) }

  -- A method of the host.
  pub on_host-Filed :
      {A : Type 0} (m : Exec Error Host A) (R : A → Type 0)
      → ((h : Host) → Gives R (m h).0)
      → Safe (on_host σ m) R
  on_host-Filed m R gives = record {
    run = λ q h. (
      record { subscribed = h.subscribed; waiting = h.waiting; unacknowledged = h.unacknowledged },
      gives q.host,
    );
  }

  -- A method of the store, which keeps the messages of each destination messages for it.
  on_store-Filed :
      {A : Type 0} (m : Exec Error σ.store.State A) (R : A → Type 0)
      → ((s : σ.store.State)
          → ((d : String) → AreMessages d (fifo.contents s d))
          → ((d : String) → AreMessages d (fifo.contents (m s).1 d)) × Gives R (m s).0)
      → Safe (on_store σ m) R
  on_store-Filed m R keeps = record {
    run = λ q h.
        let (waiting, gives) = keeps q.messages h.waiting in
        (
          record {
            subscribed = h.subscribed;
            waiting = waiting;
            unacknowledged = h.unacknowledged;
          },
          gives,
        );
  }

  filed :
      (d : String) (f : Frame) (s : σ.store.State)
      → IsMessage d f
      → ((x : String) → AreMessages x (fifo.contents s x))
      → (x : String) → AreMessages x (fifo.contents (σ.store.enqueue d f s).1 x)
  filed d f s m h x = elim (Bool-cases (d == x)) [
    | inl e ↦
        subst (AreMessages x)
          (sym (
            fifo.contents-enqueue d f s x
            ∙ ap (λ b. if b then fifo.contents s x ++ (f ∷ []) else fifo.contents s x) e))
          (AreMessages-append x (fifo.contents s x) f (h x)
            (subst (λ y. IsMessage y f) ((eq_iff d x).0 e) m))
    | inr e ↦
        subst (AreMessages x)
          (sym (
            fifo.contents-enqueue d f s x
            ∙ ap (λ b. if b then fifo.contents s x ++ (f ∷ []) else fifo.contents s x) e))
          (h x)
  ]

  pub enqueue-Filed :
      (d : String) (f : Frame) → IsMessage d f → Safe (on_store σ (σ.store.enqueue d f)) Any
  enqueue-Filed d f m =
      on_store-Filed (σ.store.enqueue d f) Any
        (λ s h. (filed d f s m h, subst (Gives Any) (sym (fifo.enqueue_ok d f s)) tt))

  pub requeue-Filed :
      (d : String) (f : Frame) → IsMessage d f → Safe (on_store σ (σ.store.requeue d f)) Any
  requeue-Filed d f m = on_store-Filed (σ.store.requeue d f) Any (λ s h.
      subst (λ o. ((x : String) → AreMessages x (fifo.contents o.1 x)) × Gives Any o.0)
        (sym (fifo.requeue_eq d f s))
        (filed d f s m h, subst (Gives Any) (sym (fifo.enqueue_ok d f s)) tt))

  unfiled :
      (d : String) (s : σ.store.State)
      → ((x : String) → AreMessages x (fifo.contents s x))
      → (x : String) → AreMessages x (fifo.contents (σ.store.dequeue d s).1 x)
  unfiled d s h x = elim (Bool-cases (d == x)) [
    | inl e ↦
        subst (AreMessages x)
          (sym (
            fifo.contents-dequeue d s x
            ∙ ap (λ b. if b then tail (fifo.contents s x) else fifo.contents s x) e))
          (tail-AreMessages x (fifo.contents s x) (h x))
    | inr e ↦
        subst (AreMessages x)
          (sym (
            fifo.contents-dequeue d s x
            ∙ ap (λ b. if b then tail (fifo.contents s x) else fifo.contents s x) e))
          (h x)
  ]

  pub dequeue-Filed : (d : String) → Safe (on_store σ (σ.store.dequeue d)) (MaybeMessage d)
  dequeue-Filed d = on_store-Filed (σ.store.dequeue d) (MaybeMessage d) (λ s h. (
    unfiled d s h,
    subst (Gives (MaybeMessage d)) (sym (fifo.dequeue_head d s))
        (head?-MaybeMessage d (fifo.contents s d) (h d)),
  ))

  pub has_frames-Filed : (d : String) → Safe (on_store σ (σ.store.has_frames d)) Any
  has_frames-Filed d = on_store-Filed (σ.store.has_frames d) Any (λ s h. (
    λ x. subst (AreMessages x) (sym (fifo.contents-has_frames d s x)) (h x),
    subst (Gives Any) (sym (fifo.has_frames_ok d s)) tt,
  ))

  -- A frame becomes pending.
  pub note_pending-Filed :
      (c : ℕ) (d : String) (f : Frame) (reliable : Bool)
      → IsMessage d f
      → Safe (modify (λ q. if reliable then record q { pending = put q.pending c f } else q)) Any
  note_pending-Filed c d f false m = record { run = λ q h. (h, tt) }
  note_pending-Filed c d f true m = record {
    run = λ q h. (
      record {
        subscribed = h.subscribed;
        waiting = h.waiting;
        unacknowledged = λ x g e. elim (Bool-cases (c == x)) [
          | inl same ↦ (d, subst (IsMessage d) (ground (arith, get-put q.pending c x f)) m)
          | inr other ↦ h.unacknowledged x g (ground (arith, get-put q.pending c x f))
        ];
      },
      tt,
    );
  }

  -- A frame is pending no more.
  pub drop_pending-Filed :
      (c : ℕ) → Safe (modify (λ q. record q { pending = remove q.pending c })) Any
  drop_pending-Filed c = record {
    run = λ q h. (
      record {
        subscribed = h.subscribed;
        waiting = h.waiting;
        unacknowledged = λ x g e. h.unacknowledged x g (ground (arith, get-remove q.pending c x));
      },
      tt,
    );
  }

  -- The frames of the transactions do not matter.
  pub acked-Filed :
      (g : State σ → Dict ℕ (Dict String (List Frame)))
      → Safe (modify (λ q. record q { transaction_frames = g q })) Any
  acked-Filed g = record {
    run = λ q h. (
      record { subscribed = h.subscribed; waiting = h.waiting; unacknowledged = h.unacknowledged },
      tt,
    );
  }
