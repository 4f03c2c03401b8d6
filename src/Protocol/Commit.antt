-- ===== src/Protocol/Commit.antt =====
-- What COMMIT comes to (coilmq/protocol/__init__.py): the frames of the transaction, one after another.
use coilmq.Prelude.{
  ℕ, suc, String, ◌≡◌, refl, ap, ◌∙◌, arith, true, false, none, some, List, [], ◌∷◌, ◌++◌, ok, err,
  Result, ◌>>◌, continue, pure, inl, string_equality, nat_equality,
}
use coilmq.Dict.{Dict, get, put, remove, has, is_some, or_else}
use coilmq.Dict.Laws.{get-remove, beq_self}
use coilmq.Frame.{Frame, Error, header, transaction}
use coilmq.Text.{is_truthy}
use coilmq.Queue.Methods as QueueManager
use coilmq.Engine.{Client, State, Method}
use coilmq.Protocol.Command as Command
use coilmq.Protocol.Command.{command_of}
use coilmq.Protocol.Stomp10.{without_transaction, commit_each, on_commit, run_method, process_frame}
use coilmq.Protocol.Transactions.{process-ok, run-transactional}
use coilmq.Protocol.Depth.{commit_known, committed, on_commit-continue, known_transaction-ok}
use coilmq.Protocol.Ignores.{Transactions, back, Ignores, bind-Ignores}
use coilmq.Protocol.Bare.{process_frame-Ignores}

remove-put :
    {V : Type 0} (d : Dict String V) (k : String) (v : V) → remove (put d k v) k ≡ remove d k
unfolding put remove
remove-put [] k v = ground (arith, beq_self k)
remove-put ((j, w) ∷ d) k v = ground (arith, remove-put d k v)

-- Every frame has a transaction header.
abbrev pub AreInTransaction : List Frame → Type 0
AreInTransaction [] = Unit {0}
AreInTransaction (f ∷ fs) = (has f.headers "transaction" ≡ true) × AreInTransaction fs

module _ (κ : Client) where
  -- Each frame in turn, as it is outside a transaction.
  unfoldable pub run_each : (Frame → Method κ (Unit {0})) → List Frame → Method κ (Unit {0})
  run_each process [] = pure tt
  run_each process (f ∷ fs) = process (without_transaction κ f) >> run_each process fs

  abbrev IgnoresAll : (Frame → Method κ (Unit {0})) → Type 0
  IgnoresAll process = (f : Frame) → transaction f ≡ none → Ignores κ (process f)

  without_transaction-none : (f : Frame) → transaction (without_transaction κ f) ≡ none
  without_transaction-none f = get-remove f.headers "transaction" "transaction"

  run_each-Ignores :
      (process : Frame → Method κ (Unit {0})) (fs : List Frame)
      → IgnoresAll process
      → Ignores κ (run_each process fs)
  unfolding run_each
  run_each-Ignores process [] each = λ ts s. refl
  run_each-Ignores process (f ∷ fs) each =
      bind-Ignores κ (process (without_transaction κ f)) (λ _. run_each process fs)
        (each (without_transaction κ f) (without_transaction-none f))
        (λ _. run_each-Ignores process fs each)

  -- The loop of COMMIT does what its frames do in turn; what it writes into the transactions stands
  -- at the key of its own transaction.
  abbrev Agrees :
      (Frame → Method κ (Unit {0})) → String → List Frame → List Frame → State κ → Type 0
  Agrees process t done fs s =
      (ts : Transactions κ) × (commit_each κ process t done fs s
        ≡ back κ ts (run_each process fs s))
      × (remove ts t ≡ remove s.transactions t)

  commit_each-step :
      (process : Frame → Method κ (Unit {0})) (t : String) (done fs : List Frame)
      (ts : Transactions κ) (o : Result Error (Unit {0}) × State κ)
      → IgnoresAll process
      → ((s : State κ) → Agrees process t done fs s)
      → (us : Transactions κ) × (continue (λ _. commit_each κ process t done fs) (back κ ts o)
          ≡ back κ us (continue (λ _. run_each process fs) o))
        × (remove us t ≡ remove ts t)
  commit_each-step process t done fs ts (ok u, s) each next =
      let (us, same, left) = next (record s { transactions = ts }) in
      (us, same ∙ ap (back κ us) (run_each-Ignores process fs each ts s), left)
  commit_each-step process t done fs ts (err x, s) each next = (ts, refl, refl)

  commit_each-Agrees :
      (process : Frame → Method κ (Unit {0})) (t : String) (done fs : List Frame) (s : State κ)
      → IgnoresAll process
      → AreInTransaction fs
      → Agrees process t done fs s
  unfolding commit_each run_each
  commit_each-Agrees process t done [] s each within = (s.transactions, refl, refl)
  commit_each-Agrees process t done (f ∷ fs) s each (here, within) =
      let bare : Frame = without_transaction κ f in
      let ts : Transactions κ = put s.transactions t (done ++ (bare ∷ fs)) in
      let (us, same, left) =
        commit_each-step process t (done ++ (bare ∷ [])) fs ts (process bare s) each
          (λ s. commit_each-Agrees process t (done ++ (bare ∷ [])) fs s each within) in
      (
        us,
        rw here (
            ap (continue (λ _. commit_each κ process t (done ++ (bare ∷ [])) fs))
              (each bare (without_transaction-none f) ts s)
            ∙ same),
        left ∙ remove-put s.transactions t (done ++ (bare ∷ fs)),
      )

  -- The state once the transaction is gone, with what was acknowledged in it.
  abbrev pub without : String → Dict String (List Frame) → State κ → State κ
  without t ts s = record s {
    transactions = remove ts t;
    queue = (QueueManager.clear_transaction_frames κ.setup κ.connection t s.queue).1;
  }

  committed-without :
      (t : String) (ts us : Transactions κ) (s : State κ)
      → remove ts t ≡ remove us t
      → committed κ t (record s { transactions = ts }) ≡ (ok tt, without t us s)
  unfolding QueueManager.clear_transaction_frames
  committed-without t ts us s same =
      ap
        (λ d. (
          ok tt,
          record s {
            transactions = d;
            queue = (QueueManager.clear_transaction_frames κ.setup κ.connection t s.queue).1;
          },
        ))
        same

  on_commit-run_each :
      (process : Frame → Method κ (Unit {0})) (frame : Frame) (t : String) (frames : List Frame)
      (s s' : State κ)
      → IgnoresAll process
      → transaction frame ≡ some t
      → is_truthy (transaction frame) ≡ true
      → get s.transactions t ≡ some frames
      → AreInTransaction frames
      → run_each process frames s ≡ (ok tt, s')
      → on_commit κ process frame s ≡ (ok tt, without t s.transactions s')
  on_commit-run_each process frame t frames s s' each named filled known within done =
      let (ts, same, left) = commit_each-Agrees process t [] frames s each within in
      on_commit-continue κ process frame s (ok (or_else (transaction frame) ""), s)
        (known_transaction-ok κ frame "Missing transaction for COMMIT command." s filled
          (ap (λ o. is_some (get s.transactions (or_else o ""))) named ∙ ap is_some known))
      ∙ (ap (λ o. commit_known κ process (or_else o "") s) named
          ∙ (ap (λ o. continue (λ _. committed κ t) (commit_each κ process t [] (or_else o []) s))
                known
              ∙ (ap (continue (λ _. committed κ t)) (same ∙ ap (back κ ts) done)
                  ∙ committed-without t ts s.transactions s' left)))

  -- A client whose session is connected commits a transaction `t` that has frames, each of which names
  -- a transaction, and asks for no receipt. If the frames without that header, processed one after
  -- another, return, then so does the COMMIT, and the state is the same, except that `t` and what was
  -- acknowledged in it are gone.
  pub process_frame-run_each :
      (depth : ℕ) (frame : Frame) (t : String) (frames : List Frame) (s s' : State κ)
      → command_of frame.cmd ≡ some Command.commit
      → s.connected ≡ true
      → is_truthy (header frame "receipt") ≡ false
      → transaction frame ≡ some t
      → is_truthy (transaction frame) ≡ true
      → get s.transactions t ≡ some frames
      → AreInTransaction frames
      → run_each (process_frame κ depth) frames s ≡ (ok tt, s')
      → process_frame κ (suc depth) frame s ≡ (ok tt, without t s.transactions s')
  unfolding run_method
  process_frame-run_each depth frame t frames s s' valid up quiet named filled known within done =
      process-ok κ depth frame Command.commit s (without t s.transactions s') (valid, inl up) quiet
        (run-transactional κ (process_frame κ depth) Command.commit frame s refl
          ∙ on_commit-run_each (process_frame κ depth) frame t frames s s'
              (process_frame-Ignores κ depth) named filled known within done)
