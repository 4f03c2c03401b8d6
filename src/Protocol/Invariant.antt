-- ===== src/Protocol/Invariant.antt =====
-- `process_frame` (coilmq/protocol/__init__.py) puts no COMMIT into a transaction.
use coilmq.Prelude.{
  ℕ, zero, suc, arith, ◌≡◌, refl, false, not, ◌&&◌, ◌||◌, some, [], ◌∷◌, ◌++◌, ok, err, Result,
  string_equality, nat_equality, Bool-cases, Option-cases, inl, inr, pure, modify,
}
use coilmq.Dict.{put, has, get_or, or_else}
use coilmq.Frame.{Frame, Error, header, transaction, protocol_error, receipt_frame}
use coilmq.Text.{is_truthy, ◌+s◌}
use coilmq.Engine.{Client, State, Method, reply}
use coilmq.Protocol.Guards.{goes_on}
use coilmq.Protocol.Command.{Command, command_of, is_transactional, is_connect, is_not_connect}
use coilmq.Protocol.Stomp10.{
  run_or_keep, report, acknowledge_receipt, attempt, dispatch, process_frame,
}
use coilmq.Protocol.Depth.{is_commit}
use coilmq.Protocol.Preserves.{
  NoCommit-append, KeepsNoCommit, put-KeepsNoCommit, Preserves, if-Preserves, guard-Preserves,
}
use coilmq.Protocol.Kept.{run_method-Preserves}

module _ (κ : Client) where
  is_commit-is_transactional :
      (cmd : Command) → is_transactional cmd ≡ false → is_commit (some cmd) ≡ false
  is_commit-is_transactional cmd =
      elim cmd as (λ c. is_transactional c ≡ false → is_commit (some c) ≡ false) [
        | Command.commit ↦ λ n. ground arith
        | _ ↦ λ n. refl
      ]

  run_or_keep-Preserves :
      (process : Frame → Method κ (Unit {0})) (cmd : Command) (frame : Frame)
      → ((f : Frame) → Preserves κ (process f))
      → command_of frame.cmd ≡ some cmd
      → Preserves κ (run_or_keep κ process cmd frame)
  unfolding run_or_keep
  run_or_keep-Preserves process cmd frame each valid =
      elim (Bool-cases (not (is_truthy (transaction frame)) || is_transactional cmd)) [
        | inl now ↦ rw now (run_method-Preserves κ process cmd frame each)
        | inr kept ↦ rw kept (λ s.
            let t = or_else (transaction frame) "" in
            guard-Preserves κ (not (has s.transactions t))
              (protocol_error ("Invalid transaction specified: " +s t))
              (modify (λ s. record s {
                transactions = put s.transactions t (get_or s.transactions t [] ++ (frame ∷ []));
              }))
              (λ s keeps.
                put-KeepsNoCommit s.transactions t (get_or s.transactions t [] ++ (frame ∷ []))
                  keeps
                  (NoCommit-append (get_or s.transactions t []) (frame ∷ []) (keeps t)
                    (rw valid (is_commit-is_transactional cmd (ground arith)), tt)))
              s)
      ]

  report-Preserves : (e : Error) → Preserves κ (report κ e)
  unfolding report
  report-Preserves e s keeps = keeps

  acknowledge_receipt-Preserves :
      (cmd : Command) (frame : Frame) → Preserves κ (acknowledge_receipt κ cmd frame)
  unfolding acknowledge_receipt
  acknowledge_receipt-Preserves cmd frame =
      if-Preserves κ (is_truthy (header frame "receipt") && is_not_connect cmd)
        (reply κ (receipt_frame (or_else (header frame "receipt") ""))) (pure tt) (λ s keeps. keeps)
        (λ s keeps. keeps)

  goes_on-Preserves :
      (otherwise : Method κ (Unit {0})) (done : Result Error (Unit {0}) × State κ)
      → Preserves κ otherwise
      → KeepsNoCommit done.1.transactions
      → KeepsNoCommit (goes_on κ otherwise done).1.transactions
  goes_on-Preserves otherwise (ok _, s) u keeps = u s keeps
  goes_on-Preserves otherwise (err e, s) u keeps = report-Preserves e s keeps

  attempt-Preserves :
      (body otherwise : Method κ (Unit {0}))
      → Preserves κ body
      → Preserves κ otherwise
      → Preserves κ (attempt κ body otherwise)
  unfolding attempt
  attempt-Preserves body otherwise u v s keeps = goes_on-Preserves otherwise (body s) v (u s keeps)

  dispatch-Preserves :
      (process : Frame → Method κ (Unit {0})) (frame : Frame)
      → ((f : Frame) → Preserves κ (process f))
      → Preserves κ (dispatch κ process frame)
  unfolding dispatch
  dispatch-Preserves process frame each = elim (Option-cases (command_of frame.cmd)) [
    | inl invalid ↦ rw invalid (λ s keeps. keeps)
    | inr (cmd, valid) ↦ rw valid (λ s.
        guard-Preserves κ (not s.connected && not (is_connect cmd))
          (protocol_error "Not connected.")
          (attempt κ (run_or_keep κ process cmd frame) (acknowledge_receipt κ cmd frame))
          (attempt-Preserves (run_or_keep κ process cmd frame) (acknowledge_receipt κ cmd frame)
            (run_or_keep-Preserves process cmd frame each valid)
            (acknowledge_receipt-Preserves cmd frame))
          s)
  ]

  -- Whatever a frame does, and whether it is processed or raises: if no transaction of the session keeps
  -- a COMMIT, none does afterwards.
  pub process_frame-KeepsNoCommit :
      (depth : ℕ) (frame : Frame) (s : State κ)
      → KeepsNoCommit s.transactions
      → KeepsNoCommit (process_frame κ depth frame s).1.transactions
  unfolding process_frame
  process_frame-KeepsNoCommit zero frame s keeps = keeps
  process_frame-KeepsNoCommit (suc depth) frame s keeps =
      dispatch-Preserves (process_frame κ depth) frame (process_frame-KeepsNoCommit depth) s keeps
