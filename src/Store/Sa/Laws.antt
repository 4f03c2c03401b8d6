-- ===== src/Store/Sa/Laws.antt =====
-- What SAQueue (coilmq/store/sa/__init__.py) does with the rows of its table.
use mathlib.Core.Path.{subst}
use coilmq.Prelude.{
  ◌≤◌, String, ◌≡◌, refl, sym, ap, ◌∙◌, arith, true, false, not, none, some, List, [], ◌∷◌, ok,
  length, is_empty, ◌==◌, string_equality, inl, inr, ◌⊎◌, ◌↔◌,
}
use coilmq.Text.{is_truthy}
use coilmq.Frame.{Frame, header}
use coilmq.Store.Sa.{
  Row, Column, by_queued, by_sequence, Table, Session, with_first, deleted, enqueue, dequeue, size,
  has_frames,
}

abbrev pub Among : Row → List Row → Type 0
Among r [] = ⊥
Among r (x ∷ rows) = (r ≡ x) ⊎ Among r rows

-- Each row was queued no later than those behind it.
abbrev pub IsOrdered : List Row → Type 0
IsOrdered [] = Unit {0}
IsOrdered (r ∷ rows) = ((x : Row) → Among x rows → r.queued ≤ x.queued) × IsOrdered rows

-- What a database promises of the statements on a table whose key is the message id. ORDER BY puts
-- the rows in the order of the first column, and leaves open in which order rows come where it is
-- the same.
pub record IsTable (τ : Table) : Type 0 where
  pub select_ordered :
      (d : String) (columns : List Column) (s : τ.Database)
      → IsOrdered (τ.select d (by_queued ∷ columns) s)
  pub select_same :
      (d : String) (columns others : List Column) (s : τ.Database) (r : Row)
      → Among r (τ.select d columns s)
      → Among r (τ.select d others s)
  pub insert_fresh :
      (id d : String) (f : Frame) (s : τ.Database)
      → ((x : String) (r : Row) → Among r (τ.select x [] s) → (r.message_id == id) ≡ false)
      → (s' : τ.Database) × (row : Row) × (τ.insert id d f s ≡ some s')
        × (row.message_id ≡ id)
        × (row.frame ≡ f)
        × ((x : String) (r : Row)
            → Among r (τ.select x [] s')
              ↔ (Among r (τ.select x [] s) ⊎ ((◌≡◌ {A = String} d x) × (r ≡ row))))
  pub delete_rows :
      (id : String) (s : τ.Database)
      → (s' : τ.Database) × (τ.delete id s ≡ some s')
        × ((x : String) (r : Row)
            → Among r (τ.select x [] s')
              ↔ (Among r (τ.select x [] s) × ((r.message_id == id) ≡ false)))
  pub count_length : (d : String) (s : τ.Database) → τ.count d s ≡ length (τ.select d [] s)

module _ (τ : Table) (good : IsTable τ) where
  -- The rows of a destination, in some order
  abbrev pub rows : String → τ.Database → List Row
  rows d db = τ.select d [] db

  -- The frame is that of an oldest row, which is taken away from what was there, and this is committed.
  abbrev pub TakesOldest : String → Session τ.Database → Type 0
  TakesOldest d s =
      (r : Row) × ((dequeue τ d s).0 ≡ ok (some r.frame))
      × Among r (rows d s.current)
      × ((x : Row) → Among x (rows d s.current) → r.queued ≤ x.queued)
      × ((dequeue τ d s).1.committed ≡ (dequeue τ d s).1.current)
      × ((x : String) (other : Row)
          → Among other (rows x (dequeue τ d s).1.committed)
            ↔ (Among other (rows x s.current) × ((other.message_id == r.message_id) ≡ false)))

  first-oldest :
      (r x : Row) (l : List Row) → IsOrdered (r ∷ l) → Among x (r ∷ l) → r.queued ≤ x.queued
  first-oldest r x l (least, ordered) (inl same) = ground (arith, ap (λ y. y.queued) same)
  first-oldest r x l (least, ordered) (inr later) = least x later

  -- `dequeue`, given the rows that its select found.
  dequeue-found :
      (d : String) (s : Session τ.Database) (found : List Row)
      → τ.select d (by_queued ∷ by_sequence ∷ []) s.current ≡ found
      → (r : Row) → Among r (rows d s.current)
      → TakesOldest d s
  unfolding dequeue
  dequeue-found d s [] e r there =
      absurd (subst (Among r) e (good.select_same d [] _ s.current r there))
  dequeue-found d s (first ∷ others) e r there =
      let (db, done, left) = good.delete_rows first.message_id s.current in
      let ordered = subst IsOrdered e (good.select_ordered d (by_sequence ∷ []) s.current) in
      let taken : dequeue τ d s ≡ (ok (some first.frame), record { committed = db; current = db }) =
        ap (λ l. with_first τ l s) e ∙ ap (λ o. deleted τ first.frame o s) done in
      (
        first,
        ap (λ o. o.0) taken,
        good.select_same d _ [] s.current first (subst (Among first) (sym e) (inl refl)),
        λ x among.
            first-oldest first x others ordered
              (subst (Among x) e (good.select_same d [] _ s.current x among)),
        ap (λ o. o.1.committed) taken ∙ sym (ap (λ o. o.1.current) taken),
        λ x other.
            subst
              (λ t. Among other (rows x t) ↔ (
                Among other (rows x s.current) × ((other.message_id == first.message_id) ≡ false)))
              (sym (ap (λ o. o.1.committed) taken)) (left x other),
      )

  -- Without rows `dequeue` returns None and changes nothing.
  dequeue-nothing :
      (d : String) (s : Session τ.Database) (found : List Row)
      → τ.select d (by_queued ∷ by_sequence ∷ []) s.current ≡ found
      → rows d s.current ≡ []
      → dequeue τ d s ≡ (ok none, s)
  unfolding dequeue
  dequeue-nothing d s [] e empty = ap (λ l. with_first τ l s) e
  dequeue-nothing d s (first ∷ others) e empty = absurd (
      subst (Among first) empty
        (good.select_same d _ [] s.current first (subst (Among first) (sym e) (inl refl))))

  enqueue_inserts :
      (d id : String) (f : Frame) (s : Session τ.Database)
      → header f "message-id" ≡ some id
      → is_truthy (header f "message-id") ≡ true
      → ((x : String) (r : Row) → Among r (rows x s.current) → (r.message_id == id) ≡ false)
      → (row : Row) × ((enqueue τ d f s).0 ≡ ok tt)
        × (row.message_id ≡ id)
        × (row.frame ≡ f)
        × ((enqueue τ d f s).1.committed ≡ (enqueue τ d f s).1.current)
        × ((x : String) (r : Row)
            → Among r (rows x (enqueue τ d f s).1.committed)
              ↔ (Among r (rows x s.current) ⊎ ((◌≡◌ {A = String} d x) × (r ≡ row))))
  unfolding enqueue
  enqueue_inserts d id f s named filled fresh =
      let (db, row, done, is, holds, inserted) = good.insert_fresh id d f s.current fresh in
      (
        row,
        rw (filled, named, done) refl,
        is,
        holds,
        rw (filled, named, done) refl,
        rw (filled, named, done) inserted,
      )

  -- On a table whose key is the message id, with a database that keeps what ORDER BY promises.
  -- `enqueue` of a frame with a new message id commits one more row, in its destination. `dequeue`
  -- returns None and changes nothing where there are no rows; else it returns the frame of a row that
  -- was queued no later than any other of the destination, and commits that this row alone is gone.
  -- `size` is the number of the rows, and `has_frames` tells whether there are some.
  pub sa_oldest_first :
      (d id : String) (f : Frame) (s : Session τ.Database)
      → header f "message-id" ≡ some id
      → is_truthy (header f "message-id") ≡ true
      → ((x : String) (r : Row) → Among r (rows x s.current) → (r.message_id == id) ≡ false)
      → ((row : Row) × ((enqueue τ d f s).0 ≡ ok tt)
          × (row.message_id ≡ id)
          × (row.frame ≡ f)
          × ((enqueue τ d f s).1.committed ≡ (enqueue τ d f s).1.current)
          × ((x : String) (r : Row)
              → Among r (rows x (enqueue τ d f s).1.committed)
                ↔ (Among r (rows x s.current) ⊎ ((◌≡◌ {A = String} d x) × (r ≡ row)))))
        × (rows d s.current ≡ [] → dequeue τ d s ≡ (ok none, s))
        × ((r : Row) → Among r (rows d s.current) → TakesOldest d s)
        × ((size τ d s).0 ≡ ok (length (rows d s.current)))
        × ((has_frames τ d s).0 ≡ ok (not (is_empty (rows d s.current))))
  unfolding size has_frames
  sa_oldest_first d id f s named filled fresh = (
    enqueue_inserts d id f s named filled fresh,
    dequeue-nothing d s _ refl,
    dequeue-found d s _ refl,
    ap ok (good.count_length d s.current),
    refl,
  )
