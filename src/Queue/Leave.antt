-- ===== src/Queue/Leave.antt =====
-- The subscriber sets when a connection leaves one destination or all (coilmq/queue.py; the topic
-- manager has the same lines).
use coilmq.Prelude.{
  ℕ, String, ◌≡◌, refl, Bool, true, false, ◌&&◌, none, List, [], ◌∷◌, is_empty, arith, eq_iff,
  nat_equality, string_equality, ◌==◌, if◌then◌else◌,
}
use coilmq.Dict.{Dict, get, get_or, keys, contains, discard}
use coilmq.Dict.Laws.{get-put, get-remove, contains-discard}
use coilmq.Queue.State.{leave, leave_all}

abbrev pub Subscriptions : Type 0
Subscriptions = Dict String (List ℕ)

-- `x` subscribes to `d`.
abbrev pub is_member : Subscriptions → String → ℕ → Bool
is_member queues d x = contains x (get_or queues d [])

contains-nil : (x : ℕ) (s : List ℕ) → is_empty s ≡ true → contains x s ≡ false
unfolding contains
contains-nil x [] h = refl
contains-nil x (y ∷ s) h = cc

pub is_member-leave :
    (c : ℕ) (d : String) (queues : Subscriptions) (e : String) (x : ℕ)
    → is_member (leave c d queues) e x ≡ (if d == e && c == x then false else is_member queues e x)
unfolding leave
is_member-leave c d queues e x =
    let rest = discard c (get_or queues d []) in
    ground (
      arith,
      get-put queues d e rest,
      get-remove queues d e,
      contains-nil x rest,
      contains-nil x [] refl,
      contains-discard c x (get_or queues d []),
      eq_iff d e,
    )

pub is_member-leave_all :
    (c : ℕ) (ds : List String) (queues : Subscriptions) (e : String) (x : ℕ)
    → is_member (leave_all c ds queues) e x
      ≡ (if contains e ds && c == x then false else is_member queues e x)
unfolding leave_all contains
is_member-leave_all c [] queues e x = refl
is_member-leave_all c (d ∷ ds) queues e x =
    ground (arith, is_member-leave_all c ds (leave c d queues) e x, is_member-leave c d queues e x)

get-none :
    (queues : Subscriptions) (e : String) → contains e (keys queues) ≡ false → get queues e ≡ none
unfolding get contains
get-none [] e h = refl
get-none ((d, s) ∷ queues) e h = ground (arith, get-none queues e)

-- Over all the keys, `c` leaves every destination, and nobody else leaves one.
pub is_member-leave_keys :
    (c : ℕ) (queues : Subscriptions) (e : String) (x : ℕ)
    → is_member (leave_all c (keys queues) queues) e x
      ≡ (if c == x then false else is_member queues e x)
is_member-leave_keys c queues e x = ground (
  arith,
  is_member-leave_all c (keys queues) queues e x,
  get-none queues e,
  contains-nil x [] refl,
)
