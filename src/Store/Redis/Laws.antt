-- ===== src/Store/Redis/Laws.antt =====
-- RedisQueueStore (coilmq/store/rds.py) is a store of first-in first-out queues.
use coilmq.Prelude.{
  suc, String, ◌≡◌, refl, sym, ap, ◌∙◌, arith, Bool, true, false, not, some, List, [], ◌∷◌, ◌++◌,
  map, ok, length, is_empty, ltb, ◌==◌, string_equality, if◌then◌else◌,
}
use coilmq.Frame.{Frame}
use coilmq.Store.Interface.{head?, tail}
use coilmq.Store.Redis.{Backend, with_item, enqueue, dequeue, requeue, size, has_frames}

-- The documented behaviour of the commands on lists, and of pickle on what it made itself.
pub record IsBackend (β : Backend) : Type 0 where
  pub list_at : β.Database → String → List β.Item
  pub list_at-rpush :
      (k : String) (v : β.Item) (s : β.Database) (x : String)
      → list_at (β.rpush k v s) x ≡ (if k == x then list_at s x ++ (v ∷ []) else list_at s x)
  pub lpop_head : (k : String) (s : β.Database) → (β.lpop k s).0 ≡ head? (list_at s k)
  pub list_at-lpop :
      (k : String) (s : β.Database) (x : String)
      → list_at (β.lpop k s).1 x ≡ (if k == x then tail (list_at s x) else list_at s x)
  pub llen_length : (k : String) (s : β.Database) → β.llen k s ≡ length (list_at s k)
  pub loads-dumps : (f : Frame) → β.loads (β.dumps f) ≡ some f
  pub dumps_true : (f : Frame) → β.is_true (β.dumps f) ≡ true

module _ (β : Backend) (good : IsBackend β) where
  -- The database holds the frames of each destination, oldest first, and nothing else.
  abbrev pub Holds : β.Database → (String → List Frame) → Type 0
  Holds s queue = (x : String) → good.list_at s x ≡ map β.dumps (queue x)

  map-append :
      (fs : List Frame) (f : Frame)
      → map β.dumps (fs ++ (f ∷ [])) ≡ map β.dumps fs ++ (β.dumps f ∷ [])
  map-append [] f = refl
  map-append (g ∷ fs) f = ap (λ l. β.dumps g ∷ l) (map-append fs f)

  map-tail : (fs : List Frame) → tail (map β.dumps fs) ≡ map β.dumps (tail fs)
  map-tail [] = refl
  map-tail (f ∷ fs) = refl

  length-map : (fs : List Frame) → length (map β.dumps fs) ≡ length fs
  length-map [] = refl
  length-map (f ∷ fs) = ap suc (length-map fs)

  with_item-head :
      (fs : List Frame) (s : β.Database)
      → with_item β (head? (map β.dumps fs)) s ≡ (ok (head? fs), s)
  with_item-head [] s = refl
  with_item-head (f ∷ fs) s = rw (good.dumps_true f, good.loads-dumps f) refl

  map-if_append :
      (test : Bool) (l : List β.Item) (fs : List Frame) (f : Frame)
      → l ≡ map β.dumps fs
      → (if test then l ++ (β.dumps f ∷ []) else l)
        ≡ map β.dumps (if test then fs ++ (f ∷ []) else fs)
  map-if_append true l fs f e = ap (λ l. l ++ (β.dumps f ∷ [])) e ∙ sym (map-append fs f)
  map-if_append false l fs f e = e

  map-if_tail :
      (test : Bool) (l : List β.Item) (fs : List Frame)
      → l ≡ map β.dumps fs
      → (if test then tail l else l) ≡ map β.dumps (if test then tail fs else fs)
  map-if_tail true l fs e = ap tail e ∙ map-tail fs
  map-if_tail false l fs e = e

  enqueue-Holds :
      (d : String) (f : Frame) (s : β.Database) (queue : String → List Frame)
      → Holds s queue
      → Holds (enqueue β d f s).1 (λ x. if d == x then queue x ++ (f ∷ []) else queue x)
  unfolding enqueue
  enqueue-Holds d f s queue h x =
      good.list_at-rpush d (β.dumps f) s x
      ∙ map-if_append (d == x) (good.list_at s x) (queue x) f (h x)

  dequeue_head :
      (d : String) (s : β.Database) (queue : String → List Frame)
      → Holds s queue
      → dequeue β d s ≡ (ok (head? (queue d)), (β.lpop d s).1)
  unfolding dequeue
  dequeue_head d s queue h =
      ap (λ o. with_item β o (β.lpop d s).1) (good.lpop_head d s ∙ ap head? (h d))
      ∙ with_item-head (queue d) (β.lpop d s).1

  lpop-Holds :
      (d : String) (s : β.Database) (queue : String → List Frame)
      → Holds s queue
      → Holds (β.lpop d s).1 (λ x. if d == x then tail (queue x) else queue x)
  lpop-Holds d s queue h x =
      good.list_at-lpop d s x ∙ map-if_tail (d == x) (good.list_at s x) (queue x) (h x)

  ltb-is_empty : (fs : List Frame) → ltb 0 (length fs) ≡ not (is_empty fs)
  ltb-is_empty [] = refl
  ltb-is_empty (f ∷ fs) = ground arith

  -- If the database holds the frames of each destination in a list, oldest first, then `enqueue` and
  -- `requeue` put a frame behind the others of its destination, `dequeue` returns the oldest frame, or
  -- None, and takes it away, and `size` and `has_frames` tell how many there are; what another
  -- destination holds stays.
  pub redis_is_fifo :
      (d : String) (f : Frame) (s : β.Database) (queue : String → List Frame)
      → Holds s queue
      → Holds (enqueue β d f s).1 (λ x. if d == x then queue x ++ (f ∷ []) else queue x)
        × (requeue β d f s ≡ enqueue β d f s)
        × ((dequeue β d s).0 ≡ ok (head? (queue d)))
        × Holds (dequeue β d s).1 (λ x. if d == x then tail (queue x) else queue x)
        × ((size β d s).0 ≡ ok (length (queue d)))
        × ((has_frames β d s).0 ≡ ok (not (is_empty (queue d))))
  unfolding requeue size has_frames
  redis_is_fifo d f s queue h =
      let count : β.llen d s ≡ length (queue d) =
        good.llen_length d s ∙ (ap length (h d) ∙ length-map (queue d)) in
      let taken = dequeue_head d s queue h in
      (
        enqueue-Holds d f s queue h,
        refl,
        ap (λ o. o.0) taken,
        λ x. ap (λ o. good.list_at o.1 x) taken ∙ lpop-Holds d s queue h x,
        ap ok count,
        ap (λ n. ok (ltb 0 n)) count ∙ ap ok (ltb-is_empty (queue d)),
      )
