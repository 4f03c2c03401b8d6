-- ===== src/Tests/Tables.antt =====
-- A table in memory, and the theorem of Store.Sa on it.
use coilmq.Prelude.{
  ℕ, suc, String, ◌≡◌, refl, ap, ◌∙◌, arith, false, not, none, some, List, [], ◌∷◌, ok, length,
  is_empty, ◌==◌, string_equality, inl, inr, ◌⊎◌, ◌↔◌, Bool-cases, ltb, if◌then◌else◌,
}
use coilmq.Store.Sa as Sa
use coilmq.Store.Sa.{Row, Table, Session}
use coilmq.Store.Sa.Laws.{Among, IsOrdered, IsTable, TakesOldest, sa_oldest_first}
use coilmq.Tests.{queue_a, queue_b, message}

-- A row before the first one that was queued later.
abbrev place : Row → List Row → List Row
place r [] = r ∷ []
place r (x ∷ l) = let rest = place r l in if ltb x.queued r.queued then x ∷ rest else r ∷ x ∷ l

Among-place : (x r : Row) (l : List Row) → Among x (place r l) ↔ ((x ≡ r) ⊎ Among x l)
Among-place x r [] = (λ h. h, λ h. h)
Among-place x r (y ∷ l) = elim (Bool-cases (ltb y.queued r.queued)) [
  | inr before ↦ rw before (λ h. h, λ h. h)
  | inl behind ↦
      let (to, from) = Among-place x r l in
      rw behind (
        λ h. elim h [
          | inl same ↦ inr (inl same)
          | inr later ↦ elim (to later) [ inl e ↦ inl e | inr a ↦ inr (inr a) ]
        ],
        λ h. elim h [
          | inl e ↦ inr (from (inl e))
          | inr there ↦ elim there [ inl same ↦ inl same | inr a ↦ inr (from (inr a)) ]
        ],
      )
]

place-IsOrdered : (r : Row) (l : List Row) → IsOrdered l → IsOrdered (place r l)
place-IsOrdered r [] h = (λ x a. absurd a, tt)
place-IsOrdered r (y ∷ l) (least, ordered) = elim (Bool-cases (ltb y.queued r.queued)) [
  | inr before ↦ rw before (
    λ x a. elim a [
      | inl same ↦ ground (arith, ap (λ z. z.queued) same)
      | inr later ↦ ground (arith, least x later)
    ],
    (least, ordered),
  )
  | inl behind ↦ rw behind (
    λ x a. elim ((Among-place x r l).0 a) [
      | inl same ↦ ground (arith, ap (λ z. z.queued) same)
      | inr there ↦ least x there
    ],
    place-IsOrdered r l ordered,
  )
]

-- Each row with its destination, the newest first.
abbrev Rows : Type 0
Rows = List (String × Row)

abbrev selected : String → Rows → List Row
selected d [] = []
selected d ((x, r) ∷ rows) = let rest = selected d rows in if x == d then place r rest else rest

abbrev without_id : String → Rows → Rows
without_id id [] = []
without_id id ((x, r) ∷ rows) =
    let rest = without_id id rows in if r.message_id == id then rest else (x, r) ∷ rest

selected-IsOrdered : (d : String) (rows : Rows) → IsOrdered (selected d rows)
selected-IsOrdered d [] = tt
selected-IsOrdered d ((x, r) ∷ rows) = elim (Bool-cases (x == d)) [
  | inl same ↦ rw same (place-IsOrdered r (selected d rows) (selected-IsOrdered d rows))
  | inr other ↦ rw other (selected-IsOrdered d rows)
]

Among-selected :
    (d x : String) (r row : Row) (rows : Rows)
    → Among r (selected x ((d, row) ∷ rows))
      ↔ (Among r (selected x rows) ⊎ ((◌≡◌ {A = String} d x) × (r ≡ row)))
Among-selected d x r row rows = elim (Bool-cases (d == x)) [
  | inl same ↦
      let (to, from) = Among-place r row (selected x rows) in
      rw same (
        λ h. elim (to h) [ inl e ↦ inr ((string_equality.test_iff d x).1 same, e) | inr a ↦ inl a ],
        λ h. elim h [ inl a ↦ from (inr a) | inr (there, e) ↦ from (inl e) ],
      )
  | inr other ↦ rw other (
    λ h. inl h,
    λ h. elim h [
      | inl a ↦ a
      | inr (there, e) ↦ absurd (ground (arith, other, (string_equality.test_iff d x).0 there))
    ],
  )
]

Among-without_id :
    (id x : String) (r : Row) (rows : Rows)
    → Among r (selected x (without_id id rows))
      ↔ (Among r (selected x rows) × ((r.message_id == id) ≡ false))
Among-without_id id x r [] = (λ h. absurd h, λ (h, e). h)
Among-without_id id x r ((d, row) ∷ rows) =
    let (to, from) = Among-without_id id x r rows in
    let (into, out) = Among-selected d x r row rows in
    elim (Bool-cases (row.message_id == id)) [
      | inl gone ↦ rw gone (
        λ h. let (a, e) = to h in (out (inl a), e),
        λ (h, e). elim (into h) [
          | inl a ↦ from (a, e)
          | inr (there, same) ↦ absurd (ground (arith, gone, e, ap (λ y. y.message_id == id) same))
        ],
      )
      | inr kept ↦
          let (into', out') = Among-selected d x r row (without_id id rows) in
          rw kept (
            λ h. elim (into' h) [
              | inl a ↦ let (b, e) = to a in (out (inl b), e)
              | inr (there, same) ↦
                  (out (inr (there, same)), ap (λ y. y.message_id == id) same ∙ kept)
            ],
            λ (h, e). elim (into h) [
              | inl a ↦ out' (inl (from (a, e)))
              | inr both ↦ out' (inr both)
            ],
          )
    ]

-- The time, and the rows; each insert takes a second.
abbrev table : Table
table = record {
  Database = ℕ × Rows;
  insert = λ id d f (now, rows).
      some
        (suc now, (d, record { message_id = id; frame = f; queued = now; sequence = none }) ∷ rows);
  select = λ d columns (now, rows). selected d rows;
  delete = λ id (now, rows). some (now, without_id id rows);
  count = λ d (now, rows). length (selected d rows);
  distinct_destinations = λ (now, rows). queue_a ∷ queue_b ∷ [];
}

abbrev lawful_table : IsTable table
lawful_table = record {
  select_ordered = λ d columns (now, rows). selected-IsOrdered d rows;
  select_same = λ d columns others s r a. a;
  insert_fresh = λ id d f (now, rows) fresh.
      let row : Row = record { message_id = id; frame = f; queued = now; sequence = none } in
      ((suc now, (d, row) ∷ rows), row, refl, refl, refl, λ x r. Among-selected d x r row rows);
  delete_rows =
      λ id (now, rows). ((now, without_id id rows), refl, λ x r. Among-without_id id x r rows);
  count_length = λ d s. refl;
}

-- Two messages wait for one destination.
abbrev old_row : Row
old_row = record { message_id = "m1"; frame = message "m1"; queued = 4; sequence = none }

abbrev new_row : Row
new_row = record { message_id = "m2"; frame = message "m2"; queued = 5; sequence = none }

abbrev waiting : ℕ × Rows
waiting = (6, (queue_a, new_row) ∷ (queue_a, old_row) ∷ [])

abbrev session : Session (ℕ × Rows)
session = record { committed = waiting; current = waiting }

fresh_id : (x : String) (r : Row) → Among r (selected x waiting.1) → (r.message_id == "m3") ≡ false
fresh_id x r a = elim ((Among-selected queue_a x r new_row ((queue_a, old_row) ∷ [])).0 a) [
  | inr (there, e) ↦ ap (λ y. y.message_id == "m3") e
  | inl b ↦ elim ((Among-selected queue_a x r old_row []).0 b) [
    | inr (there, e) ↦ ap (λ y. y.message_id == "m3") e
    | inl none_ ↦ absurd none_
  ]
]

sa_oldest_first_example :
    ((row : Row) × ((Sa.enqueue table queue_a (message "m3") session).0 ≡ ok tt)
      × (row.message_id ≡ "m3")
      × (row.frame ≡ message "m3")
      × ((Sa.enqueue table queue_a (message "m3") session).1.committed
          ≡ (Sa.enqueue table queue_a (message "m3") session).1.current)
      × ((x : String) (r : Row)
          → Among r (selected x (Sa.enqueue table queue_a (message "m3") session).1.committed.1)
            ↔ (Among r (selected x waiting.1) ⊎ ((◌≡◌ {A = String} queue_a x) × (r ≡ row)))))
    × (selected queue_a waiting.1 ≡ [] → Sa.dequeue table queue_a session ≡ (ok none, session))
    × ((r : Row)
        → Among r (selected queue_a waiting.1)
        → TakesOldest table lawful_table queue_a session)
    × ((Sa.size table queue_a session).0 ≡ ok (length (selected queue_a waiting.1)))
    × ((Sa.has_frames table queue_a session).0 ≡ ok (not (is_empty (selected queue_a waiting.1))))
unfolding coilmq.Dict.get
sa_oldest_first_example =
    sa_oldest_first table lawful_table queue_a "m3" (message "m3") session refl refl fresh_id
