-- ===== src/Core.antt =====
-- crates/brgr-core/src/state.rs: task revisions and the state machine of one attempt.
-- A method on `&mut self` returns the new record, or the error with which it changes nothing.
pub mod Lifecycle
pub mod Trace
pub mod Revisions
use brgr.Base.{
  Bool, Option, Result, err, false, if◌then◌else◌, ltb, map_err, nat_eq, none, not, ok, ok_or,
  option_eq, refuse, some, string_eq, true, ℕ, ◌+◌, ◌==◌, ◌>>=◌, ◌>>◌, ◌||◌,
}
use brgr.Protocol.{
  AttemptId, AttemptState, ProtocolError, ResultEnvelope, ResultId, TaskId, TaskSpec,
  TerminalOutcome, blocked, cancel_requested, cancelled, candidate, collecting, outcome_eq, queued,
  running, starting, state_eq, terminal,
}
use brgr.Protocol.Validate.{validate_stored}

pub data CoreError : Type 0 where
  invalid_task : ProtocolError → CoreError
  invalid_revision : ℕ → CoreError
  revision_overflow : CoreError
  revision_task_mismatch : TaskId → TaskId → CoreError
  revision_not_next : ℕ → ℕ → CoreError
  invalid_attempt_number : ℕ → ℕ → CoreError
  invalid_transition : AttemptState → AttemptState → CoreError
  terminal_requires_result : CoreError
  attempt_already_terminal : ResultId → CoreError
  terminal_invariant_violated : CoreError
  terminal_result_already_recorded : ResultId → ResultId → CoreError
  result_task_mismatch : TaskId → TaskId → CoreError
  result_revision_mismatch : ℕ → ℕ → CoreError
  result_attempt_mismatch : AttemptId → AttemptId → CoreError
  outcome_not_allowed : AttemptState → TerminalOutcome → CoreError

pub record TaskRevision : Type 0 where
  pub spec : TaskSpec

abbrev pub u32_max : ℕ
u32_max = 4294967295

-- `u32::checked_add(1)`
abbrev pub checked_succ : ℕ → Option ℕ
checked_succ n = if ltb n u32_max then some (n + 1) else none

-- `TaskRevision::new`
unfoldable pub freeze : TaskSpec → Result CoreError TaskRevision
freeze spec = do
  map_err invalid_task (validate_stored spec)
  refuse (spec.revision == 0) (invalid_revision 0)
  ok (record { spec = spec })

unfoldable pub revise : TaskRevision → TaskSpec → Result CoreError TaskRevision
revise task replacement = do
  refuse (not (replacement.task_id == task.spec.task_id))
      (revision_task_mismatch task.spec.task_id replacement.task_id)
  expected ← ok_or (checked_succ task.spec.revision) revision_overflow
  refuse (not (replacement.revision == expected))
      (revision_not_next task.spec.revision replacement.revision)
  freeze replacement

pub record Attempt : Type 0 where
  pub id : AttemptId
  pub number : ℕ
  pub task : TaskRevision
  pub state : AttemptState
  pub terminal_result : Option ResultEnvelope

-- `Attempt::new`
unfoldable pub new_attempt : TaskRevision → AttemptId → ℕ → Result CoreError Attempt
new_attempt task id number =
    let max = task.spec.budget.max_attempts in
    if number == 0 || ltb max number
    then err (invalid_attempt_number number max)
    else ok
        (record { id = id; number = number; task = task; state = queued; terminal_result = none })

-- The `match` of `transition`.
unfoldable pub legal : AttemptState → AttemptState → Bool
legal queued starting = true
legal queued cancel_requested = true
legal starting running = true
legal starting cancel_requested = true
legal running blocked = true
legal running collecting = true
legal running cancel_requested = true
legal blocked running = true
legal blocked collecting = true
legal blocked cancel_requested = true
legal collecting cancel_requested = true
legal _ _ = false

no_result : Option ResultEnvelope → Result CoreError (Unit {0})
no_result none = ok tt
no_result (some r) = err (attempt_already_terminal r.result_id)

unfoldable pub transition : Attempt → AttemptState → Result CoreError Attempt
unfolding no_result legal
transition a next = do
  refuse (next == terminal) terminal_requires_result
  no_result a.terminal_result
  refuse (a.state == terminal) terminal_invariant_violated
  refuse (not (legal a.state next)) (invalid_transition a.state next)
  ok (record a { state = next })

unfoldable pub outcome_allowed : AttemptState → TerminalOutcome → Bool
outcome_allowed collecting candidate = true
outcome_allowed _ candidate = false
outcome_allowed cancel_requested cancelled = true
outcome_allowed _ cancelled = false
outcome_allowed queued _ = false
outcome_allowed terminal _ = false
outcome_allowed _ _ = true

first_result : Option ResultEnvelope → ResultEnvelope → Result CoreError (Unit {0})
first_result none result = ok tt
first_result (some existing) result =
    err (terminal_result_already_recorded existing.result_id result.result_id)

unfoldable pub record_terminal : Attempt → ResultEnvelope → Result CoreError Attempt
unfolding first_result outcome_allowed
record_terminal a result = do
  first_result a.terminal_result result
  refuse (not (result.task_id == a.task.spec.task_id))
      (result_task_mismatch a.task.spec.task_id result.task_id)
  refuse (not (result.revision == a.task.spec.revision))
      (result_revision_mismatch a.task.spec.revision result.revision)
  refuse (not (result.attempt_id == a.id)) (result_attempt_mismatch a.id result.attempt_id)
  refuse (not (outcome_allowed a.state result.outcome)) (outcome_not_allowed a.state result.outcome)
  ok (record a { state = terminal; terminal_result = some result })
