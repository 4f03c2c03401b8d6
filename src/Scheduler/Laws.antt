-- ===== src/Scheduler/Laws.antt =====
-- What a scheduler promises to the queue manager, and that the schedulers of the library keep it.
use coilmq.Prelude.{
  ℕ, suc, zero, ◌%◌, ◌<◌, String, ◌≡◌, refl, ap, inl, inr, Bool, true, false, none, some, List, [],
  ◌∷◌, keep, get_elem?, length, is_empty, arith, nat_equality, string_equality, Equality,
  Bool-cases, if◌then◌else◌,
}
use coilmq.Dict.{Dict, keys, contains}
use coilmq.Dict.Laws.{beq_self}
use coilmq.Frame.{Frame}
use coilmq.Scheduler.{
  SubscriberScheduler, QueueScheduler, random_choice, random_subscriber, favor_reliable,
  random_queue,
}

-- Out of some subscribers one of them is chosen.
pub record ChoosesSubscriber (choice : SubscriberScheduler) : Type 0 where
  pub chooses :
      (n : ℕ) (reliable : ℕ → Bool) (subscribers : List ℕ) (message : Frame)
      → is_empty subscribers ≡ false
      → (c : ℕ) × (choice n reliable subscribers message ≡ some c) × (contains c subscribers ≡ true)

-- Out of some queues one is chosen, and out of none, none.
pub record ChoosesQueue (choice : QueueScheduler) : Type 0 where
  pub chooses :
      (n : ℕ) (queues : Dict String (List ℕ)) (connection : ℕ)
      → is_empty queues ≡ false
      → (d : String) × (choice n queues connection ≡ some d) × (contains d (keys queues) ≡ true)
  pub chooses_none : (n connection : ℕ) → choice n [] connection ≡ none

get_elem?-contains :
    {A : Type 0} ⦃e : Equality A⦄ (xs : List A) (i : ℕ)
    → i < length xs
    → (a : A) × (get_elem? xs i ≡ some a) × (contains a xs ≡ true)
unfolding contains
get_elem?-contains [] i h = elim h [ ]
get_elem?-contains ⦃e⦄ (x ∷ xs) zero h = (x, refl, ground (arith, e.test_iff x x))
get_elem?-contains ⦃e⦄ (x ∷ xs) (suc i) h =
    let (a, found, inside) = get_elem?-contains xs i (omega arith) in
    (a, found, ground (arith, inside))

random_choice-contains :
    {A : Type 0} ⦃e : Equality A⦄ (n : ℕ) (xs : List A)
    → is_empty xs ≡ false
    → (a : A) × (random_choice n xs ≡ some a) × (contains a xs ≡ true)
random_choice-contains n [] h = cc
random_choice-contains n (x ∷ xs) h =
    get_elem?-contains (x ∷ xs) (n % suc (length xs)) (omega arith)

-- `keep` selects the members that pass the test.
pub contains-keep :
    (test : ℕ → Bool) (c : ℕ) (xs : List ℕ)
    → contains c (keep test xs) ≡ (if test c then contains c xs else false)
unfolding contains
contains-keep test c [] = ground arith
contains-keep test c (x ∷ xs) = ground (arith, contains-keep test c xs, ap test {x = x} {y = c})

pub is_empty-keep :
    (test : ℕ → Bool) (c : ℕ) (xs : List ℕ)
    → contains c xs ≡ true
    → test c ≡ true
    → is_empty (keep test xs) ≡ false
unfolding contains
is_empty-keep test c [] h t = cc
is_empty-keep test c (x ∷ xs) h t = ground (arith, is_empty-keep test c xs, ap test {x = x} {y = c})

is_empty-contains : (c : ℕ) (xs : List ℕ) → contains c xs ≡ true → is_empty xs ≡ false
unfolding contains
is_empty-contains c [] h = cc
is_empty-contains c (x ∷ xs) h = refl

-- Where no member passes the test, `keep` selects nothing.
pub is_empty-keep_none :
    (test : ℕ → Bool) (xs : List ℕ)
    → ((c : ℕ) → contains c xs ≡ true → test c ≡ false)
    → is_empty (keep test xs) ≡ true
unfolding contains
is_empty-keep_none test [] h = refl
is_empty-keep_none test (x ∷ xs) h =
    rw (h x (ground (arith, beq_self x)))
      (is_empty-keep_none test xs (λ c inside. h c (ground (arith, inside))))

pub random_subscriber-ChoosesSubscriber : ChoosesSubscriber random_subscriber
unfolding random_subscriber
random_subscriber-ChoosesSubscriber = record {
  chooses = λ n reliable subscribers message h. rw h (random_choice-contains n subscribers h);
}

-- The default scheduler chooses a subscriber.
pub favor_reliable-ChoosesSubscriber : ChoosesSubscriber favor_reliable
unfolding favor_reliable
favor_reliable-ChoosesSubscriber = record {
  chooses = λ n reliable subscribers message h.
      elim (Bool-cases (is_empty (keep reliable subscribers))) [
        | inl nobody ↦ rw (h, nobody) (random_choice-contains n subscribers h)
        | inr some_reliable ↦
            rw (h, some_reliable)
              (let (c, chosen, inside) =
                  random_choice-contains n (keep reliable subscribers) some_reliable in
                (c, chosen, ground (arith, inside, contains-keep reliable c subscribers)))
      ];
}

-- If any of the subscribers is reliable, then so is the one that the default scheduler chooses.
pub favor_reliable-reliable :
    (n : ℕ) (reliable : ℕ → Bool) (subscribers : List ℕ) (message : Frame) (r : ℕ)
    → contains r subscribers ≡ true
    → reliable r ≡ true
    → (c : ℕ) × (favor_reliable n reliable subscribers message ≡ some c)
      × (contains c subscribers ≡ true)
      × (reliable c ≡ true)
unfolding favor_reliable
favor_reliable-reliable n reliable subscribers message r member trusted =
    let occupied = is_empty-keep reliable r subscribers member trusted in
    let (c, chosen, inside) = random_choice-contains n (keep reliable subscribers) occupied in
    (
      c,
      rw (is_empty-contains r subscribers member, occupied) chosen,
      ground (arith, inside, contains-keep reliable c subscribers),
      ground (arith, inside, contains-keep reliable c subscribers),
    )

pub random_queue-ChoosesQueue : ChoosesQueue random_queue
unfolding random_queue
random_queue-ChoosesQueue = record {
  chooses = λ n queues connection h.
      rw h (random_choice-contains n (keys queues) (is_empty-keys queues h));
  chooses_none = λ n connection. refl;
}
  where
    is_empty-keys : (d : Dict String (List ℕ)) → is_empty d ≡ false → is_empty (keys d) ≡ false
    is_empty-keys [] h = cc
    is_empty-keys (x ∷ d) h = refl
