-- ===== src/Timer/Laws.antt =====
-- What CoilThreadingTimer calls, and what it no longer calls (coilmq/util/concurrency.py).
use coilmq.Prelude.{
  ℕ, zero, suc, ◌≡◌, refl, sym, ap, ◌∙◌, arith, false, Option, none, some, List, [], ◌∷◌, Exec, ok,
}
use coilmq.Timer.{Timer, without, nth, run_job, stop, expired, expire, expire_all}

-- The timer is a part of the state that is read as it was written.
pub record IsPart {S J : Type 0} (timer : S → Timer J) (with_timer : Timer J → S → S) : Type 0 where
  pub get_put : (t : Timer J) (s : S) → timer (with_timer t s) ≡ t
  pub put_get : (s : S) → with_timer (timer s) s ≡ s
  pub put_put : (t u : Timer J) (s : S) → with_timer t (with_timer u s) ≡ with_timer t s

-- The timers that are left when some have expired.
abbrev pub without_all : {A : Type 0} → List ℕ → List A → List A
without_all [] xs = xs
without_all (n ∷ ns) xs = without_all ns (without n xs)

without-none : {A : Type 0} (n : ℕ) (xs : List A) → nth n xs ≡ none → without n xs ≡ xs
unfolding nth without
without-none n [] e = refl
without-none zero (x ∷ xs) e = absurd (ground arith)
without-none (suc n) (x ∷ xs) e = ap (λ l. x ∷ l) (without-none n xs e)

module _ {X S J : Type 0} (timer : S → Timer J) (with_timer : Timer J → S → S)
    (call : J → Exec X S (Unit {0})) (part : IsPart timer with_timer) where
  -- The state with the given timers armed.
  abbrev pub armed_with : List (ℕ × J) → S → S
  armed_with armed s = with_timer (record (timer s) { armed = armed }) s

  run_job-stopped :
      (job : ℕ × J) (s : S)
      → (timer s).running ≡ false
      → run_job timer with_timer call job s ≡ (ok tt, s)
  unfolding run_job
  run_job-stopped (interval, job) s e = rw e refl

  running-armed_with :
      (armed : List (ℕ × J)) (s : S) → (timer (armed_with armed s)).running ≡ (timer s).running
  running-armed_with armed s =
      ap (λ t. t.running) (part.get_put (record (timer s) { armed = armed }) s)

  armed_with-armed_with :
      (left more : List (ℕ × J)) (s : S) → armed_with left (armed_with more s) ≡ armed_with left s
  armed_with-armed_with left more s =
      ap (λ t. with_timer (record t { armed = left }) (armed_with more s))
        (part.get_put (record (timer s) { armed = more }) s)
      ∙ part.put_put (record (timer s) { armed = left }) (record (timer s) { armed = more }) s

  expired-stopped :
      (n : ℕ) (o : Option (ℕ × J)) (s : S)
      → nth n (timer s).armed ≡ o
      → (timer s).running ≡ false
      → expired timer with_timer call n o s ≡ armed_with (without n (timer s).armed) s
  expired-stopped n none s none_ e =
      sym (ap (λ l. armed_with l s) (without-none n (timer s).armed none_) ∙ part.put_get s)
  expired-stopped n (some job) s some_ e =
      ap (λ o. o.1)
        (run_job-stopped job (armed_with (without n (timer s).armed) s)
          (running-armed_with (without n (timer s).armed) s ∙ e))

  expire_all-stopped :
      (ns : List ℕ) (s : S)
      → (timer s).running ≡ false
      → expire_all timer with_timer call ns s ≡ armed_with (without_all ns (timer s).armed) s
  unfolding expire_all expire
  expire_all-stopped [] s e = sym (part.put_get s)
  expire_all-stopped (n ∷ ns) s e =
      let left : List (ℕ × J) = without n (timer s).armed in
      ap (λ s. expire_all timer with_timer call ns s)
        (expired-stopped n (nth n (timer s).armed) s refl e)
      ∙ (expire_all-stopped ns (armed_with left s) (running-armed_with left s ∙ e)
          ∙ (ap (λ t. armed_with (without_all ns t.armed) (armed_with left s))
                (part.get_put (record (timer s) { armed = left }) s)
              ∙ armed_with-armed_with (without_all ns left) left s))

  -- Once a timer was stopped, no callback is called, in whatever order the threading.Timers that are
  -- armed expire: the state is that of `stop`, with the others still armed.
  pub expire_all-stop :
      (ns : List ℕ) (s : S)
      → expire_all timer with_timer call ns (stop timer with_timer call s).1
        ≡ with_timer
            (record (timer s) { running = false; armed = without_all ns (timer s).armed })
            s
  unfolding stop
  expire_all-stop ns s =
      let stopped : S = with_timer (record (timer s) { running = false }) s in
      let same : timer stopped ≡ record (timer s) { running = false } =
        part.get_put (record (timer s) { running = false }) s in
      expire_all-stopped ns stopped (ap (λ t. t.running) same)
      ∙ (ap (λ t. with_timer (record t { armed = without_all ns t.armed }) stopped) same
          ∙ part.put_put
              (record (timer s) { running = false; armed = without_all ns (timer s).armed })
              (record (timer s) { running = false }) s)
