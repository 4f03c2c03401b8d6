-- ===== src/Timer.antt =====
-- coilmq/util/concurrency.py: CoilTimerBase and CoilThreadingTimer.
pub mod Laws
use coilmq.Prelude.{
  ℕ, zero, suc, Bool, true, false, Option, none, some, List, [], ◌∷◌, ◌++◌, Exec, Result, ok, err,
  pure, gets, modify, ◌>>=◌, ◌>>◌, if◌then◌else◌,
}

-- `jobs` is what was scheduled, with its period; `armed` are the threading.Timers that were started and
-- have not expired, with the arguments of `run_job`.
pub record Timer (J : Type 0) : Type 0 where
  pub jobs : List (ℕ × J)
  pub running : Bool
  pub armed : List (ℕ × J)

abbrev pub new_timer : {J : Type 0} → Timer J
new_timer = record { jobs = []; running = false; armed = [] }

-- schedule(period, callback)
abbrev pub schedule : {J : Type 0} → ℕ → J → Timer J → Timer J
schedule period job t = record t { jobs = t.jobs ++ ((period, job) ∷ []) }

-- threading.Timer(interval, run_job, args=(interval, callback)).start()
abbrev pub arm : {J : Type 0} → ℕ × J → Timer J → Timer J
arm job t = record t { armed = t.armed ++ (job ∷ []) }

unfoldable pub without : {A : Type 0} → ℕ → List A → List A
without n [] = []
without zero (x ∷ xs) = xs
without (suc n) (x ∷ xs) = x ∷ without n xs

unfoldable pub nth : {A : Type 0} → ℕ → List A → Option A
nth n [] = none
nth zero (x ∷ xs) = some x
nth (suc n) (x ∷ xs) = nth n xs

-- The timer is a part of a state on which the callbacks work.
module _ {X S J : Type 0} (timer : S → Timer J) (with_timer : Timer J → S → S)
    (call : J → Exec X S (Unit {0})) where
  abbrev pub on_timer : (Timer J → Timer J) → Exec X S (Unit {0})
  on_timer f = modify (λ s. with_timer (f (timer s)) s)

  unfoldable pub run_job : ℕ × J → Exec X S (Unit {0})
  run_job (interval, job) = do
    running ← gets (λ s. (timer s).running)
    if running then on_timer (arm (interval, job)) >> call job else pure tt

  unfoldable pub run_each : List (ℕ × J) → Exec X S (Unit {0})
  run_each [] = pure tt
  run_each (job ∷ jobs) = do run_job job; run_each jobs

  abbrev pub run : Exec X S (Unit {0})
  run = do jobs ← gets (λ s. (timer s).jobs); run_each jobs

  unfoldable pub start : Exec X S (Unit {0})
  start = do on_timer (λ t. record t { running = true }); run

  unfoldable pub stop : Exec X S (Unit {0})
  stop = on_timer (λ t. record t { running = false })

  -- What an exception does in a thread: the thread ends.
  abbrev pub in_thread : Exec X S (Unit {0}) → S → S
  in_thread m s = (m s).1

  abbrev pub expired : ℕ → Option (ℕ × J) → S → S
  expired n none s = s
  expired n (some job) s =
      in_thread (run_job job)
        (with_timer (record (timer s) { armed = without n (timer s).armed }) s)

  -- The n-th armed timer expires: its thread calls run_job.
  unfoldable pub expire : ℕ → S → S
  expire n s = expired n (nth n (timer s).armed) s

  unfoldable pub expire_all : List ℕ → S → S
  expire_all [] s = s
  expire_all (n ∷ ns) s = expire_all ns (expire n s)
