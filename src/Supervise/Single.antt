-- ===== src/Supervise/Single.antt =====
-- src/execution.rs and src/lib.rs: one attempt from its claim to its commit, and the attempts of a
-- fresh run.
pub mod Results
pub mod Committed
pub mod Bounded
use brgr.Base.{
  Bool, Option, Result, String, [], err, false, if◌then◌else◌, list_eq, ltb, map_err, nat_eq, none,
  not, ok, option_eq, some, store_of, string_eq, suc, true, zero, ℕ, ◌&&◌, ◌+◌, ◌==◌, ◌>>=◌, ◌>>◌,
  ◌||◌,
}
use brgr.Protocol.{
  AttemptId, ResultEnvelope, ResultId, TaskSpec, cancel_requested, cancelled, outcome_eq, running,
  starting, state_eq,
}
use brgr.Core.{TaskRevision, freeze, new_attempt, record_terminal}
use brgr.Store.{
  Platform, RunnerIdentity, Store, StoreError, cancelled, run_state_eq, running, takeover_state_eq,
}
use brgr.Store.Attempts.{
  claim_attempt, grant_pre_spawn_retry, record_launch_intent, record_runner_identity, retryable,
}
use brgr.Store.Attempts.Terminal.{commit_terminal_result, commit_terminal_result_final}
use brgr.Store.Delegation.{cancellation_requested}
use brgr.Store.Tasks.{record_task}
use brgr.Supervise.{SessionModel, apply_session_model, result_for_attempt}
use brgr.Supervise.Run.{
  ExecutionOutput, Harness, Run, RunnerError, SupervisorError, Workspace, core, delegates,
  finish_execution_result, is_retryable_spawn_failure, no_attempt, store, supervised_transition,
}

-- What one attempt is given: its ids, the control files and the process, which may act on the store.
pub record Control : Type 0 where
  pub attempt_id : AttemptId
  pub nonce : String
  pub epoch : ℕ
  pub cancel_file : Bool
  pub identity : Option RunnerIdentity
  pub execute : Store → Store × Result RunnerError ExecutionOutput

abbrev pub is_one_shot : Harness → Bool
is_one_shot h = not (delegates h)

abbrev pub record_identity :
    Store → AttemptId → String → Option RunnerIdentity → Result StoreError Store
record_identity s id nonce none = ok s
record_identity s id nonce (some i) = store_of (record_runner_identity s id nonce i)

-- The commit, which closes the run unless another attempt follows, and the grant of the next one.
unfoldable pub commit_result :
    Platform
    → TaskSpec
    → ℕ
    → Store
    → ResultEnvelope
    → Bool
    → Result SupervisorError ((ResultEnvelope × Bool) × Store)
commit_result p spec number s r retryable = do
  done ← map_err store (
      if retryable && ltb number spec.budget.max_attempts
      then commit_terminal_result p s spec.owner_id r
      else commit_terminal_result_final p s spec.owner_id r)
  u ← (if retryable then map_err store (grant_pre_spawn_retry done.1 r.attempt_id) else ok done.1)
  ok ((r, retryable), u)

module _ (p : Platform) (w : Workspace) (read : SessionModel) (fresh : AttemptId → ResultId)
    (event_ids : ℕ → ℕ) where
  unfoldable pub cancel_before_spawn :
      TaskSpec → Run → Result SupervisorError ((ResultEnvelope × Bool) × Store)
  cancel_before_spawn spec run = do
    cancelling ← supervised_transition event_ids run cancel_requested
    let r =
        result_for_attempt (fresh run.attempt.id) spec run.attempt.id cancelled []
          (some "cancelled before process spawn")
    recorded ← map_err core (record_terminal cancelling.attempt r)
    done ← map_err store (commit_terminal_result_final p cancelling.held spec.owner_id r)
    ok ((r, false), done.1)

  unfoldable pub execute_attempt :
      TaskSpec
      → Harness
      → ℕ
      → Control
      → Run
      → Result SupervisorError ((ResultEnvelope × Bool) × Store)
  execute_attempt spec h number c run = do
    launched ← map_err store (record_launch_intent run.held c.attempt_id c.nonce c.epoch)
    identified ← map_err store (record_identity launched c.attempt_id c.nonce c.identity)
    started ← supervised_transition event_ids (record run { held = identified }) running
    let world = c.execute started.held
    let retryable = is_one_shot h && is_retryable_spawn_failure world.1
    finished ←
        finish_execution_result w fresh event_ids spec h (record started { held = world.0 }) world.1
    let r = apply_session_model finished.0 read spec c.attempt_id
    recorded ← map_err core (record_terminal finished.1.attempt r)
    commit_result p spec number finished.1.held r retryable

  unfoldable pub run_single_attempt :
      Store
      → TaskRevision
      → Harness
      → ℕ
      → Control
      → Result SupervisorError ((ResultEnvelope × Bool) × Store)
  run_single_attempt s revision h number c = do
    attempt ← map_err core (new_attempt revision c.attempt_id number)
    claimed ←
        map_err store (claim_attempt s revision.spec.task_id revision.spec.revision c.attempt_id)
    run ←
        supervised_transition event_ids
          (record { held = claimed; attempt = attempt; producer_seq = 0 }) starting
    if c.cancel_file || cancellation_requested run.held revision.spec.task_id
        then cancel_before_spawn revision.spec run
        else execute_attempt revision.spec h number c run

  -- `for number in 1..=max_attempts`, with the attempts that are left; each has its own control.
  unfoldable pub attempts_from :
      ℕ
      → ℕ
      → Store
      → TaskRevision
      → Harness
      → (ℕ → Control)
      → Result SupervisorError (ResultEnvelope × Store)
  attempts_from zero number s revision h controls = err no_attempt
  attempts_from (suc left) number s revision h controls = do
    done ← run_single_attempt s revision h number (controls number)
    elim (done.0.1 && not (number == revision.spec.budget.max_attempts)) [
      | true ↦ attempts_from left (number + 1) done.1 revision h controls
      | false ↦ ok (done.0.0, done.1)
    ]

  -- `run_fresh_controlled`, after its check of the route against the manifest.
  unfoldable pub run_fresh_controlled :
      Store
      → TaskSpec
      → String
      → Harness
      → (ℕ → Control)
      → Result SupervisorError (ResultEnvelope × Store)
  run_fresh_controlled s spec digest h controls = do
    revision ← map_err core (freeze spec)
    recorded ← map_err store (record_task p s spec digest none none)
    attempts_from spec.budget.max_attempts 1 recorded.1 revision h controls
