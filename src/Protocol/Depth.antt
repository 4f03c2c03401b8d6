-- ===== src/Protocol/Depth.antt =====
-- The recursion of `process_frame` (coilmq/protocol/__init__.py) through `commit`.
use coilmq.Prelude.{
  ℕ, suc, String, ◌≡◌, refl, sym, ap, ◌∙◌, inl, inr, Bool, true, false, Option, none, some, List,
  [], ◌∷◌, ◌++◌, ok, err, Result, arith, string_equality, nat_equality, Bool-cases, Option-cases,
  ◌>>=◌, ◌>>◌, bind-agree, continue, bind-continue, gets, ◌&&◌, modify,
}
use coilmq.Dict.{put, remove, has, get_or, or_else}
use coilmq.Text.{is_truthy, ◌+s◌}
use coilmq.Frame.{Frame, transaction, Error, protocol_error}
use coilmq.Engine.{Client, State, Method, on_queue}
use coilmq.Queue.Methods as QueueManager
use coilmq.Protocol.Guards.{goes_on, dispatch-attempt}
use coilmq.Protocol.Transactions.{run-transactional}
use coilmq.Protocol.Command.{Command, command_of, commit}
use coilmq.Protocol.Stomp10.{
  run_or_keep, run_method, acknowledge_receipt, attempt, dispatch, process_frame, commit_each,
  on_commit, known_transaction, without_transaction,
}

-- Nothing but a commit runs other frames.
abbrev pub is_commit : Option Command → Bool
is_commit (some commit) = true
is_commit _ = false

-- No frame of the list is a COMMIT.
abbrev pub NoCommit : List Frame → Type 0
NoCommit [] = Unit {0}
NoCommit (f ∷ l) = (is_commit (command_of f.cmd) ≡ false) × NoCommit l

pub is_commit-some : (c : Option Command) → is_commit c ≡ true → c ≡ some commit
is_commit-some none n = ground arith
is_commit-some (some cmd) n =
    elim cmd as (λ c. is_commit (some c) ≡ true → some c ≡ some commit) [
      | commit ↦ λ n. refl
      | _ ↦ λ n. ground arith
    ]
      n

module _ (κ : Client) where
  abbrev pub Process : Type 0
  Process = Frame → Method κ (Unit {0})

  run_method-other :
      (p r : Process) (cmd : Command) (frame : Frame)
      → is_commit (some cmd) ≡ false
      → run_method κ p cmd frame ≡ run_method κ r cmd frame
  unfolding run_method
  run_method-other p r cmd frame other =
      elim cmd
          as (λ c. is_commit (some c) ≡ false → run_method κ p c frame ≡ run_method κ r c frame) [
            | commit ↦ λ n. ground arith
            | _ ↦ λ n. refl
          ]
        other

  dispatch-other :
      (p r : Process) (frame : Frame) (s : State κ)
      → is_commit (command_of frame.cmd) ≡ false
      → dispatch κ p frame s ≡ dispatch κ r frame s
  unfolding dispatch run_or_keep
  dispatch-other p r frame s other = elim (Option-cases (command_of frame.cmd)) [
    | inl invalid ↦ rw invalid
    | inr (cmd, valid) ↦
        rw (valid, run_method-other p r cmd frame (ap is_commit (sym valid) ∙ other))
  ]

  commit_each-agree :
      (p r : Process) (t : String) (done l : List Frame) (s : State κ)
      → ((f : Frame) (s : State κ) → is_commit (command_of f.cmd) ≡ false → p f s ≡ r f s)
      → NoCommit l
      → commit_each κ p t done l s ≡ commit_each κ r t done l s
  unfolding commit_each
  commit_each-agree p r t done [] s same none_ = refl
  commit_each-agree p r t done (f ∷ l) s same (other, rest) =
      elim (Bool-cases (has f.headers "transaction")) [
        | inl there ↦ rw there (
            bind-agree (p (without_transaction κ f)) (r (without_transaction κ f))
              (λ _. commit_each κ p t (done ++ (without_transaction κ f ∷ [])) l)
              (λ _. commit_each κ r t (done ++ (without_transaction κ f ∷ [])) l)
              (record s {
                transactions = put s.transactions t (done ++ (without_transaction κ f ∷ l));
              })
              (same (without_transaction κ f)
                (record s {
                  transactions = put s.transactions t (done ++ (without_transaction κ f ∷ l));
                })
                other)
              (λ _ s'.
                commit_each-agree p r t (done ++ (without_transaction κ f ∷ [])) l s' same rest))
        | inr gone ↦ rw gone
      ]

  pub known_transaction-ok :
      (frame : Frame) (what : String) (s : State κ)
      → is_truthy (transaction frame) ≡ true
      → has s.transactions (or_else (transaction frame) "") ≡ true
      → known_transaction κ frame what s ≡ (ok (or_else (transaction frame) ""), s)
  known_transaction-ok frame what s named known = ground (arith, named, known)

  pub known_transaction-err :
      (frame : Frame) (what : String) (s : State κ)
      → ((is_truthy (transaction frame) && has s.transactions (or_else (transaction frame) ""))
          ≡ false)
      → (e : Error) × (known_transaction κ frame what s ≡ (err e, s))
  known_transaction-err frame what s bad = elim (Bool-cases (is_truthy (transaction frame))) [
    | inl named ↦ (
      protocol_error ("Invalid transaction: " +s or_else (transaction frame) ""),
      ground (arith, named, bad),
    )
    | inr unnamed ↦ (protocol_error what, ground (arith, unnamed))
  ]

  -- What `commit` does once it knows its transaction.
  abbrev pub commit_known : Process → String → Method κ (Unit {0})
  commit_known p t = do
    frames ← gets (λ s. get_or s.transactions t [])
    commit_each κ p t [] frames
    on_queue κ (QueueManager.clear_transaction_frames κ.setup κ.connection t)
    modify (λ s. record s { transactions = remove s.transactions t })

  abbrev pub committed : String → Method κ (Unit {0})
  committed t = do
    on_queue κ (QueueManager.clear_transaction_frames κ.setup κ.connection t)
    modify (λ s. record s { transactions = remove s.transactions t })

  commit_known-agree :
      (p r : Process) (t : String) (s : State κ)
      → ((f : Frame) (s : State κ) → is_commit (command_of f.cmd) ≡ false → p f s ≡ r f s)
      → NoCommit (get_or s.transactions t [])
      → commit_known p t s ≡ commit_known r t s
  commit_known-agree p r t s same none_ =
      bind-agree (commit_each κ p t [] (get_or s.transactions t []))
        (commit_each κ r t [] (get_or s.transactions t [])) (λ _. committed t) (λ _. committed t) s
        (commit_each-agree p r t [] (get_or s.transactions t []) s same none_) (λ _ s'. refl)

  pub on_commit-continue :
      (p : Process) (frame : Frame) (s : State κ) (o : Result Error String × State κ)
      → known_transaction κ frame "Missing transaction for COMMIT command." s ≡ o
      → on_commit κ p frame s ≡ continue (commit_known p) o
  unfolding on_commit
  on_commit-continue p frame s o e =
      bind-continue (known_transaction κ frame "Missing transaction for COMMIT command.")
        (commit_known p) s o e

  on_commit-agree :
      (p r : Process) (frame : Frame) (s : State κ)
      → ((f : Frame) (s : State κ) → is_commit (command_of f.cmd) ≡ false → p f s ≡ r f s)
      → ((t : String) → NoCommit (get_or s.transactions t []))
      → on_commit κ p frame s ≡ on_commit κ r frame s
  on_commit-agree p r frame s same none_ =
      let t = or_else (transaction frame) "" in
      let what : String = "Missing transaction for COMMIT command." in
      elim (Bool-cases (is_truthy (transaction frame) && has s.transactions t)) [
        | inl good ↦
            let e = known_transaction-ok frame what s (ground arith) (ground arith) in
            on_commit-continue p frame s (ok t, s) e
            ∙ (commit_known-agree p r t s same (none_ t)
                ∙ sym (on_commit-continue r frame s (ok t, s) e))
        | inr bad ↦
            let (x, e) = known_transaction-err frame what s bad in
            on_commit-continue p frame s (err x, s) e
            ∙ sym (on_commit-continue r frame s (err x, s) e)
      ]

  run_method-commit :
      (p : Process) (frame : Frame) → run_method κ p commit frame ≡ on_commit κ p frame
  unfolding run_method
  run_method-commit p frame = refl

  dispatch-down :
      (p r : Process) (frame : Frame) (s : State κ)
      → command_of frame.cmd ≡ some commit
      → s.connected ≡ false
      → dispatch κ p frame s ≡ dispatch κ r frame s
  unfolding dispatch
  dispatch-down p r frame s valid down = rw (valid, down)

  dispatch-commit :
      (p r : Process) (frame : Frame) (s : State κ)
      → command_of frame.cmd ≡ some commit
      → on_commit κ p frame s ≡ on_commit κ r frame s
      → dispatch κ p frame s ≡ dispatch κ r frame s
  unfolding attempt
  dispatch-commit p r frame s valid same =
      let runs : run_or_keep κ p commit frame s ≡ run_or_keep κ r commit frame s =
        run-transactional κ p commit frame s refl
        ∙ (ap (λ m. m s) (run_method-commit p frame)
            ∙ (same
                ∙ (sym (ap (λ m. m s) (run_method-commit r frame))
                    ∙ sym (run-transactional κ r commit frame s refl)))) in
      elim (Bool-cases s.connected) [
        | inl up ↦
            dispatch-attempt κ p frame commit s (valid, inl up)
            ∙ (ap (goes_on κ (acknowledge_receipt κ commit frame)) runs
                ∙ sym (dispatch-attempt κ r frame commit s (valid, inl up)))
        | inr down ↦ dispatch-down p r frame s valid down
      ]

  -- `commit` runs the frames of its transaction by `process_frame`. If no COMMIT is among the
  -- frames that are kept, two levels of that are enough for every frame: more levels change
  -- nothing.
  pub depth_suffices :
      (depth : ℕ) (frame : Frame) (s : State κ)
      → ((t : String) → NoCommit (get_or s.transactions t []))
      → process_frame κ (suc (suc depth)) frame s ≡ process_frame κ 2 frame s
  unfolding process_frame
  depth_suffices depth frame s none_ =
      let p = process_frame κ (suc depth) in
      let r = process_frame κ 1 in
      elim (Bool-cases (is_commit (command_of frame.cmd))) [
        | inl yes_ ↦ dispatch-commit p r frame s (is_commit-some (command_of frame.cmd) yes_) (
            on_commit-agree p r frame s (dispatch-other (process_frame κ depth) (process_frame κ 0))
              none_)
        | inr other ↦ dispatch-other p r frame s other
      ]
