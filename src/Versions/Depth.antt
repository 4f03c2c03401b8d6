-- ===== src/Versions/Depth.antt =====
-- The recursion of `process_frame` through `commit` for the protocol objects of all versions
-- (coilmq/protocol/__init__.py).
use coilmq.Prelude.{
  ℕ, suc, String, ◌≡◌, refl, sym, ap, ◌∙◌, true, false, ◌&&◌, some, List, [], ◌∷◌, ◌++◌, ok, err,
  Result, arith, string_equality, Bool-cases, Option-cases, inl, inr, gets, modify, ◌>>=◌, ◌>>◌,
  bind-agree, continue,
}
use coilmq.Dict.{put, remove, has, get_or, or_else}
use coilmq.Text.{is_truthy}
use coilmq.Frame.{Frame, transaction, Error, protocol_error}
use coilmq.Engine.{Client, on_queue}
use coilmq.Queue.Methods as QueueManager
use coilmq.Protocol.Command.{Command, command_of}
use coilmq.Protocol.Stomp10 as Stomp10
use coilmq.Protocol.Depth.{
  is_commit, NoCommit, is_commit-some, known_transaction-ok, known_transaction-err, depth_suffices,
}
use coilmq.Versions.{Version, v10, v11, v12, Network, Connection, Action, on_session}
use coilmq.Versions.Inherited.{let_through, transactional-runs}
use coilmq.Versions.Dispatch.{
  Process, commit_each, commit, run_method, run_or_keep, attempt, dispatch, process_as, process_by,
  process_frame,
}

module _ (κ : Client) (net : Network) where
  run_method-other :
      (p r : Process κ net) (v : Version) (self : ℕ) (cmd : Command) (frame : Frame)
      → is_commit (some cmd) ≡ false
      → run_method κ net p v self cmd frame ≡ run_method κ net r v self cmd frame
  unfolding run_method
  run_method-other p r v self cmd frame other =
      elim cmd
          as (λ c.
            is_commit (some c) ≡ false
            → run_method κ net p v self c frame ≡ run_method κ net r v self c frame) [
              | Command.commit ↦ λ n. ground arith
              | _ ↦ λ n. refl
            ]
        other

  dispatch-other :
      (p r : Process κ net) (v : Version) (self : ℕ) (frame : Frame) (l : Connection κ net)
      → is_commit (command_of frame.cmd) ≡ false
      → dispatch κ net p v self frame l ≡ dispatch κ net r v self frame l
  unfolding dispatch run_or_keep
  dispatch-other p r v self frame l other = elim (Option-cases (command_of frame.cmd)) [
    | inl invalid ↦ rw invalid
    | inr (cmd, valid) ↦
        rw (valid, run_method-other p r v self cmd frame (ap is_commit (sym valid) ∙ other))
  ]

  -- The processes do the same with every frame but a COMMIT.
  abbrev Agree : Process κ net → Process κ net → Type 0
  Agree p r =
      (f : Frame) (l : Connection κ net) → is_commit (command_of f.cmd) ≡ false → p f l ≡ r f l

  abbrev with_kept : String → List Frame → Connection κ net → Connection κ net
  with_kept t frames l = record l {
    session = record l.session { transactions = put l.session.transactions t frames };
  }

  commit_each-Agree :
      (p r : Process κ net) (t : String) (done frames : List Frame) (l : Connection κ net)
      → Agree p r
      → NoCommit frames
      → commit_each κ net p t done frames l ≡ commit_each κ net r t done frames l
  unfolding commit_each
  commit_each-Agree p r t done [] l same none_ = refl
  commit_each-Agree p r t done (f ∷ fs) l same (other, rest) =
      let bare = Stomp10.without_transaction κ f in
      elim (Bool-cases (has f.headers "transaction")) [
        | inl there ↦ rw there (
            bind-agree (p bare) (r bare) (λ _. commit_each κ net p t (done ++ (bare ∷ [])) fs)
              (λ _. commit_each κ net r t (done ++ (bare ∷ [])) fs)
              (with_kept t (done ++ (bare ∷ fs)) l)
              (same bare (with_kept t (done ++ (bare ∷ fs)) l) other)
              (λ _ l'. commit_each-Agree p r t (done ++ (bare ∷ [])) fs l' same rest))
        | inr gone ↦ rw gone
      ]

  abbrev committed : String → Action κ net (Unit {0})
  committed t = do
    on_session κ net (on_queue κ (QueueManager.clear_transaction_frames κ.setup κ.connection t))
    on_session κ net (modify (λ s. record s { transactions = remove s.transactions t }))

  -- What `commit` does once it knows its transaction.
  abbrev commit_known : Process κ net → String → Action κ net (Unit {0})
  commit_known p t = do
    frames ← gets (λ l. get_or l.session.transactions t [])
    commit_each κ net p t [] frames
    on_session κ net (on_queue κ (QueueManager.clear_transaction_frames κ.setup κ.connection t))
    on_session κ net (modify (λ s. record s { transactions = remove s.transactions t }))

  commit_known-Agree :
      (p r : Process κ net) (t : String) (l : Connection κ net)
      → Agree p r
      → NoCommit (get_or l.session.transactions t [])
      → commit_known p t l ≡ commit_known r t l
  commit_known-Agree p r t l same none_ =
      let frames = get_or l.session.transactions t [] in
      bind-agree (commit_each κ net p t [] frames) (commit_each κ net r t [] frames)
        (λ _. committed t) (λ _. committed t) l (commit_each-Agree p r t [] frames l same none_)
        (λ _ l'. refl)

  commit-continue :
      (p : Process κ net) (frame : Frame) (l : Connection κ net)
      (o : Result Error String × Connection κ net)
      → on_session κ net
          (Stomp10.known_transaction κ frame "Missing transaction for COMMIT command.")
          l
        ≡ o
      → commit κ net p frame l ≡ continue (commit_known p) o
  unfolding commit
  commit-continue p frame l o e = ap (continue (commit_known p)) e

  commit-Agree :
      (p r : Process κ net) (frame : Frame) (l : Connection κ net)
      → Agree p r
      → ((t : String) → NoCommit (get_or l.session.transactions t []))
      → commit κ net p frame l ≡ commit κ net r frame l
  commit-Agree p r frame l same none_ =
      let s = l.session in
      let t = or_else (transaction frame) "" in
      let what : String = "Missing transaction for COMMIT command." in
      elim (Bool-cases (is_truthy (transaction frame) && has s.transactions t)) [
        | inl good ↦
            let e =
              ap (λ o. (o.0, record l { session = o.1 }))
                (known_transaction-ok κ frame what s (ground arith) (ground arith)) in
            commit-continue p frame l (ok t, l) e
            ∙ (commit_known-Agree p r t l same (none_ t)
                ∙ sym (commit-continue r frame l (ok t, l) e))
        | inr bad ↦
            let (x, d) = known_transaction-err κ frame what s bad in
            let e = ap (λ o. (o.0, record l { session = o.1 })) d in
            commit-continue p frame l (err x, l) e ∙ sym (commit-continue r frame l (err x, l) e)
      ]

  run-commit :
      (p r : Process κ net) (v : Version) (self : ℕ) (frame : Frame) (l : Connection κ net)
      → commit κ net p frame l ≡ commit κ net r frame l
      → run_or_keep κ net p v self Command.commit frame l
        ≡ run_or_keep κ net r v self Command.commit frame l
  unfolding run_method
  run-commit p r v self frame l same =
      transactional-runs κ net p v self Command.commit frame l refl
      ∙ (same ∙ sym (transactional-runs κ net r v self Command.commit frame l refl))

  attempt-agree :
      (p r otherwise : Action κ net (Unit {0})) (l : Connection κ net)
      → p l ≡ r l
      → attempt κ net p otherwise l ≡ attempt κ net r otherwise l
  attempt-agree p r otherwise l e =
      ap
        (λ (o : Result Error (Unit {0}) × Connection κ net). elim o.0 [
          | ok _ ↦ otherwise o.1
          | err e ↦ on_session κ net (Stomp10.report κ e) o.1
        ])
        e

  dispatch-commit :
      (p r : Process κ net) (v : Version) (self : ℕ) (frame : Frame) (l : Connection κ net)
      → command_of frame.cmd ≡ some Command.commit
      → commit κ net p frame l ≡ commit κ net r frame l
      → dispatch κ net p v self frame l ≡ dispatch κ net r v self frame l
  unfolding dispatch
  dispatch-commit p r v self frame l valid same =
      let otherwise = on_session κ net (Stomp10.acknowledge_receipt κ Command.commit frame) in
      let through : (q : Process κ net) → Action κ net (Unit {0}) =
        λ q. attempt κ net (run_or_keep κ net q v self Command.commit frame) otherwise in
      let e : Error = protocol_error "Not connected." in
      let up = l.session.connected in
      elim (Bool-cases up) [
        | inl ready ↦ rw valid (
            let_through κ net up true e (through p) l ready
            ∙ (attempt-agree (run_or_keep κ net p v self Command.commit frame)
                  (run_or_keep κ net r v self Command.commit frame) otherwise l
                  (run-commit p r v self frame l same)
                ∙ sym (let_through κ net up true e (through r) l ready)))
        | inr down ↦ rw (valid, down) refl
      ]

  process_as-agree :
      (v : Version) (self depth : ℕ) (frame : Frame) (l : Connection κ net)
      → ((t : String) → NoCommit (get_or l.session.transactions t []))
      → process_as κ net v self (suc (suc depth)) frame l ≡ process_as κ net v self 2 frame l
  process_as-agree v self depth frame l none_ =
      let p = process_as κ net v self (suc depth) in
      let r = process_as κ net v self 1 in
      elim (Bool-cases (is_commit (command_of frame.cmd))) [
        | inl yes_ ↦
            dispatch-commit p r v self frame l (is_commit-some (command_of frame.cmd) yes_) (
              commit-Agree p r frame l
                (dispatch-other (process_as κ net v self depth) (process_as κ net v self 0) v self)
                none_)
        | inr other ↦ dispatch-other p r v self frame l other
      ]

  by_version :
      (v : Version) (depth : ℕ) (frame : Frame) (l : Connection κ net)
      → (l.objects l.protocol).version ≡ v
      → ((t : String) → NoCommit (get_or l.session.transactions t []))
      → process_frame κ net (suc (suc depth)) frame l ≡ process_frame κ net 2 frame l
  unfolding process_frame process_by
  by_version v10 depth frame l at none_ =
      rw at
        (ap (λ o. (o.0, record l { session = o.1 })) (depth_suffices κ depth frame l.session none_))
  by_version v11 depth frame l at none_ =
      rw at (process_as-agree v11 l.protocol depth frame l none_)
  by_version v12 depth frame l at none_ =
      rw at (process_as-agree v12 l.protocol depth frame l none_)

  -- Whatever protocol object the engine has: if no COMMIT is among the frames that are kept, two
  -- levels of `process_frame` are enough for every frame.
  two_levels :
      (depth : ℕ) (frame : Frame) (l : Connection κ net)
      → ((t : String) → NoCommit (get_or l.session.transactions t []))
      → process_frame κ net (suc (suc depth)) frame l ≡ process_frame κ net 2 frame l
  two_levels depth frame l none_ =
      by_version (l.objects l.protocol).version depth frame l refl none_
