-- ===== src/Protocol/Preserves.antt =====
-- Methods of a session (coilmq/protocol/__init__.py) that put no COMMIT into a transaction.
use coilmq.Prelude.{
  String, Bool, true, false, not, Option, none, some, List, [], ◌∷◌, ◌++◌, ok, err, Result, ◌==◌,
  string_equality, nat_equality, if◌then◌else◌, Bool-cases, inl, inr, ◌>>=◌, ◌>>◌, continue,
  raise_if, Exec,
}
use coilmq.Dict.{Dict, put, remove, get_or, or_else}
use coilmq.Dict.Laws.{get-put, get-remove}
use coilmq.Frame.{Frame, Error, header, protocol_error}
use coilmq.Text.{is_truthy, is_queue}
use coilmq.Queue.State.{QueueState}
use coilmq.Topic.{TopicState}
use coilmq.Engine.{Client, State, Method, on_queue, on_topics}
use coilmq.Protocol.Stomp10.{authenticate, with_destination}
use coilmq.Protocol.Depth.{NoCommit}

pub NoCommit-append : (l r : List Frame) → NoCommit l → NoCommit r → NoCommit (l ++ r)
NoCommit-append [] r u v = v
NoCommit-append (f ∷ l) r (u, us) v = (u, NoCommit-append l r us v)

-- No transaction keeps a COMMIT.
abbrev pub KeepsNoCommit : Dict String (List Frame) → Type 0
KeepsNoCommit ts = (t : String) → NoCommit (get_or ts t [])

pub put-KeepsNoCommit :
    (ts : Dict String (List Frame)) (t : String) (l : List Frame)
    → KeepsNoCommit ts
    → NoCommit l
    → KeepsNoCommit (put ts t l)
put-KeepsNoCommit ts t l keeps good u = elim (Bool-cases (t == u)) [
  | inl same ↦ rw (get-put ts t u l, same) good
  | inr other ↦ rw (get-put ts t u l, other) (keeps u)
]

pub remove-KeepsNoCommit :
    (ts : Dict String (List Frame)) (t : String) → KeepsNoCommit ts → KeepsNoCommit (remove ts t)
remove-KeepsNoCommit ts t keeps u = elim (Bool-cases (t == u)) [
  | inl same ↦ rw (get-remove ts t u, same) tt
  | inr other ↦ rw (get-remove ts t u, other) (keeps u)
]

module _ (κ : Client) where
  -- A method that leaves no COMMIT in a transaction, if there was none.
  abbrev pub Preserves : {A : Type 0} → Method κ A → Type 0
  Preserves m = (s : State κ) → KeepsNoCommit s.transactions → KeepsNoCommit (m s).1.transactions

  pub continue-Preserves :
      {A B : Type 0} (f : A → Method κ B) (o : Result Error A × State κ)
      → ((a : A) → Preserves (f a))
      → KeepsNoCommit o.1.transactions
      → KeepsNoCommit (continue f o).1.transactions
  continue-Preserves f (ok a, s) each keeps = each a s keeps
  continue-Preserves f (err x, s) each keeps = keeps

  pub bind-Preserves :
      {A B : Type 0} (m : Method κ A) (f : A → Method κ B)
      → Preserves m
      → ((a : A) → Preserves (f a))
      → Preserves (m >>= f)
  bind-Preserves m f first each s keeps = continue-Preserves f (m s) each (first s keeps)

  pub authenticate-Preserves :
      (a : Option (Option String → Option String → Bool)) (frame : Frame)
      → Preserves (authenticate κ a frame)
  authenticate-Preserves none frame s keeps = keeps
  authenticate-Preserves (some accepts) frame s keeps = keeps

  pub if-Preserves :
      (test : Bool) (m n : Method κ (Unit {0}))
      → Preserves m
      → Preserves n
      → Preserves (if test then m else n)
  if-Preserves true m n u v = u
  if-Preserves false m n u v = v

  -- A guard raises and changes nothing.
  pub guard-Preserves :
      {A : Type 0} (test : Bool) (e : Error) (m : Method κ A)
      → Preserves m
      → Preserves (raise_if test e >> m)
  guard-Preserves test e m u = bind-Preserves (raise_if test e) (λ _. m) (λ s keeps. keeps) (λ _. u)

  -- A handler with a destination that calls one of the managers: they do not see the transactions.
  pub managed-Preserves :
      (frame : Frame) (what : String)
      (queue_method : String → Exec Error (QueueState κ.setup.store.State) (Unit {0}))
      (topic_method : String → Exec Error TopicState (Unit {0}))
      → Preserves (
          with_destination κ frame what (λ dest.
            if is_queue dest
            then on_queue κ (queue_method dest)
            else on_topics κ (topic_method dest)))
  managed-Preserves frame what queue_method topic_method =
      let dest = or_else (header frame "destination") "" in
      guard-Preserves (not (is_truthy (header frame "destination"))) (protocol_error what)
        (if is_queue dest then on_queue κ (queue_method dest) else on_topics κ (topic_method dest))
        (if-Preserves (is_queue dest) (on_queue κ (queue_method dest))
          (on_topics κ (topic_method dest)) (λ s keeps. keeps) (λ s keeps. keeps))
