-- ===== src/Scheduler.antt =====
-- coilmq/scheduler.py. A call of `choice` takes the random number that it uses; a scheduler sees a
-- subscriber's `reliable_subscriber` through `reliable`.
pub mod Laws
use coilmq.Prelude.{
  ℕ, ◌%◌, String, Bool, true, false, Option, none, some, List, [], ◌∷◌, keep, get_elem?, length,
  is_empty, if◌then◌else◌,
}
use coilmq.Dict.{Dict, keys}
use coilmq.Frame.{Frame}

-- SubscriberPriorityScheduler.choice and QueuePriorityScheduler.choice
abbrev pub SubscriberScheduler : Type 0
SubscriberScheduler = ℕ → (ℕ → Bool) → List ℕ → Frame → Option ℕ

abbrev pub QueueScheduler : Type 0
QueueScheduler = ℕ → Dict String (List ℕ) → ℕ → Option String

-- random.choice(xs), where xs is not empty
abbrev random_choice : {A : Type 0} → ℕ → List A → Option A
random_choice n xs = get_elem? xs (n % length xs)

-- RandomSubscriberScheduler.choice
unfoldable pub random_subscriber : SubscriberScheduler
random_subscriber n reliable subscribers message =
    if is_empty subscribers then none else random_choice n subscribers

-- FavorReliableSubscriberScheduler.choice
unfoldable pub favor_reliable : SubscriberScheduler
favor_reliable n reliable subscribers message =
    let reliable_subscribers = keep reliable subscribers in
    if is_empty subscribers
    then none
    else if is_empty reliable_subscribers
    then random_choice n subscribers
    else random_choice n reliable_subscribers

-- RandomQueueScheduler.choice
unfoldable pub random_queue : QueueScheduler
random_queue n queues connection = if is_empty queues then none else random_choice n (keys queues)
