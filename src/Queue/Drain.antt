-- ===== src/Queue/Drain.antt =====
-- The loop of `_send_backlog` over `self.store.frames(destination)` (coilmq/queue.py).
use mathlib.Core.List.{append_assoc, append-nil}
use coilmq.Prelude.{
  ℕ, zero, suc, ◌<◌, String, ◌≡◌, refl, eq_iff, sym, ◌∙◌, true, false, List, [], ◌∷◌, ◌++◌, map, ok,
  err, Result, length, arith, nat_equality, string_equality, ◌==◌, if◌then◌else◌,
}
use coilmq.Dict.Laws.{beq_self}
use coilmq.Frame.{Frame, Error}
use coilmq.Host.{is_reliable}
use coilmq.Store.Interface.{FifoLaws, tail}
use coilmq.Queue.State.{Setup, State}
use coilmq.Queue.Backlog.{deliver, deliver_or_requeue, drain}
use coilmq.Queue.Deliver.{accepted, deliver_plain}

module _ (σ : Setup) where
  -- The state after a `dequeue`, and after a `requeue`.
  abbrev pub taken : String → State σ → State σ
  taken d q = record q { messages = (σ.store.dequeue d q.messages).1 }

  abbrev pub put_back : String → Frame → State σ → State σ
  put_back d f q = record q { messages = (σ.store.enqueue d f q.messages).1 }

module _ (σ : Setup) (fifo : FifoLaws σ.store) where
  -- A failed delivery puts the frame at the end of the queue, and raises again.
  pub deliver_or_requeue_failed :
      (c : ℕ) (d : String) (f : Frame) (q q' : State σ) (x : Error)
      → deliver σ c f q ≡ (err x, q')
      → deliver_or_requeue σ c d f q ≡ (err x, put_back σ d f q')
  unfolding deliver_or_requeue
  deliver_or_requeue_failed c d f q q' x e =
      ground (arith, fifo.requeue_eq d f q'.messages, fifo.enqueue_ok d f q'.messages)

  pub deliver_or_requeue_done :
      (c : ℕ) (d : String) (f : Frame) (q q' : State σ)
      → deliver σ c f q ≡ (ok tt, q')
      → deliver_or_requeue σ c d f q ≡ (ok tt, q')
  unfolding deliver_or_requeue
  deliver_or_requeue_done c d f q q' e = ground arith

  pub drain-nil :
      (fuel c : ℕ) (d : String) (q : State σ)
      → fifo.contents q.messages d ≡ []
      → drain σ (suc fuel) c d q ≡ (ok tt, taken σ d q)
  unfolding drain
  drain-nil fuel c d q e = ground (arith, fifo.dequeue_head d q.messages)

  pub drain-cons :
      (fuel c : ℕ) (d : String) (f : Frame) (l : List Frame) (q q' : State σ)
      → fifo.contents q.messages d ≡ f ∷ l
      → deliver σ c f (taken σ d q) ≡ (ok tt, q')
      → drain σ (suc fuel) c d q ≡ drain σ fuel c d q'
  unfolding drain
  drain-cons fuel c d f l q q' e done =
      ground (arith, fifo.dequeue_head d q.messages, deliver_or_requeue_done c d f (taken σ d q) q')

  -- What is left of the queue `d` after a `dequeue`.
  pub contents-taken :
      (d : String) (l : List Frame) (q : State σ) (x : String)
      → fifo.contents q.messages d ≡ l
      → fifo.contents (taken σ d q).messages x
        ≡ (if d == x then tail l else fifo.contents q.messages x)
  contents-taken d l q x e = ground (arith, fifo.contents-dequeue d q.messages x, eq_iff d x)

  abbrev pub Drained :
      ℕ → String → List Frame → State σ → Result Error (Unit {0}) × State σ → Type 0
  Drained c d l q (r, q') =
      (r ≡ ok tt)
      × (q'.host.sent ≡ q.host.sent ++ map (λ f. (c, f)) l)
      × ((x : String)
          → fifo.contents q'.messages x ≡ (if d == x then [] else fifo.contents q.messages x))
      × (q'.pending ≡ q.pending)
      × (q'.queues ≡ q.queues)

  abbrev passed : ℕ → Frame → String → State σ → State σ
  passed c f d q = record (taken σ d q) { host = accepted c f q.host }

  Drained-cons :
      (c : ℕ) (d : String) (f : Frame) (l : List Frame) (q q' : State σ)
      (r : Result Error (Unit {0}))
      → Drained c d l (passed c f d q) (r, q')
      → Drained c d (f ∷ l) q (r, q')
  Drained-cons c d f l q q' r (done, sent, left, waiting, subscribed) = (
    done,
    sent ∙ append_assoc q.host.sent ((c, f) ∷ []) (map (λ g. (c, g)) l),
    λ x. ground (arith, left x, fifo.contents-dequeue d q.messages x),
    waiting,
    subscribed,
  )

  -- With enough fuel the loop empties the queue: an unreliable connection that accepts gets every
  -- frame, in order.
  pub drain_all :
      (fuel c : ℕ) (d : String) (l : List Frame) (q : State σ)
      → fifo.contents q.messages d ≡ l
      → length l < fuel
      → is_reliable q.host c ≡ false
      → ((n : ℕ) (f : Frame) → σ.env.delivers n c f ≡ true)
      → Drained c d l q (drain σ fuel c d q)
  drain_all zero c d l q e enough plain up = elim enough [ ]
  drain_all (suc fuel) c d [] q e enough plain up =
      rw (drain-nil fuel c d q e)
        (refl, sym (append-nil q.host.sent), λ x. contents-taken d [] q x e, refl, refl)
  drain_all (suc fuel) c d (f ∷ l) q e enough plain up =
      let next = contents-taken d (f ∷ l) q d e in
      let rest =
        drain_all fuel c d l (passed c f d q) (ground (arith, next, beq_self d)) (omega arith) plain
          up in
      let (r, q') = drain σ fuel c d (passed c f d q) in
      rw
        (drain-cons fuel c d f l q (passed c f d q) e
          (deliver_plain σ c f (taken σ d q) plain (up q.host.attempts f)))
        (Drained-cons c d f l q q' r rest)
