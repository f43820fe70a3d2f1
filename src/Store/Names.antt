-- ===== src/Store/Names.antt =====
-- The texts that the state columns hold: lib.rs `state_name`, `parse_state`, and `as_str` and
-- `parse` of the states of takeover.rs and workflow.rs.
use text.Mathlib.TextEquality.{eq_iff}
use brgr.Base.{
  Result, String, arith, err, if◌then◌else◌, nat_eq, ok, option_eq, refl, string_eq, sym, ◌==◌, ◌↔◌,
  ◌≡◌,
}
use brgr.Protocol.{
  AttemptState, cancel_requested, collecting, outcome_eq, queued, starting, state_eq, terminal,
}
use brgr.Store.{
  StoreError, TakeoverState, WorkflowRunState, aborted, committed, invalid_attempt_state,
  invalid_takeover_state, invalid_workflow_run_state, prepared, requested, resumed, retire_failed,
  retired, run_state_eq, superseded, takeover_state_eq,
}

unfoldable pub state_name : AttemptState → String
state_name queued = "queued"
state_name starting = "starting"
state_name AttemptState.running = "running"
state_name AttemptState.blocked = "blocked"
state_name collecting = "collecting"
state_name cancel_requested = "cancel_requested"
state_name terminal = "terminal"

unfoldable pub parse_state : String → Result StoreError AttemptState
parse_state value =
    if value == "queued"
    then ok queued
    else if value == "starting"
    then ok starting
    else if value == "running"
    then ok AttemptState.running
    else if value == "blocked"
    then ok AttemptState.blocked
    else if value == "collecting"
    then ok collecting
    else if value == "cancel_requested"
    then ok cancel_requested
    else if value == "terminal"
    then ok terminal
    else err (invalid_attempt_state value)

unfoldable pub takeover_name : TakeoverState → String
takeover_name requested = "requested"
takeover_name prepared = "prepared"
takeover_name committed = "committed"
takeover_name resumed = "resumed"
takeover_name retired = "retired"
takeover_name retire_failed = "retire_failed"
takeover_name aborted = "aborted"
takeover_name superseded = "superseded"

unfoldable pub parse_takeover : String → Result StoreError TakeoverState
parse_takeover value =
    if value == "requested"
    then ok requested
    else if value == "prepared"
    then ok prepared
    else if value == "committed"
    then ok committed
    else if value == "resumed"
    then ok resumed
    else if value == "retired"
    then ok retired
    else if value == "retire_failed"
    then ok retire_failed
    else if value == "aborted"
    then ok aborted
    else if value == "superseded"
    then ok superseded
    else err (invalid_takeover_state value)

unfoldable pub run_name : WorkflowRunState → String
run_name WorkflowRunState.running = "running"
run_name WorkflowRunState.blocked = "blocked"
run_name WorkflowRunState.completed = "completed"
run_name WorkflowRunState.failed = "failed"
run_name WorkflowRunState.cancelled = "cancelled"

unfoldable pub parse_run : String → Result StoreError WorkflowRunState
parse_run value =
    if value == "running"
    then ok WorkflowRunState.running
    else if value == "blocked"
    then ok WorkflowRunState.blocked
    else if value == "completed"
    then ok WorkflowRunState.completed
    else if value == "failed"
    then ok WorkflowRunState.failed
    else if value == "cancelled"
    then ok WorkflowRunState.cancelled
    else err (invalid_workflow_run_state value)

state-back : (v : String) (s : AttemptState) → parse_state v ≡ ok s → state_name s ≡ v
unfolding parse_state state_name
state-back v s h = ground (
  arith,
  eq_iff v "queued",
  eq_iff v "starting",
  eq_iff v "running",
  eq_iff v "blocked",
  eq_iff v "collecting",
  eq_iff v "cancel_requested",
  eq_iff v "terminal",
)

parse_state-name : (s : AttemptState) → parse_state (state_name s) ≡ ok s
unfolding parse_state state_name
parse_state-name queued = refl
parse_state-name _ = refl

takeover-back : (v : String) (s : TakeoverState) → parse_takeover v ≡ ok s → takeover_name s ≡ v
unfolding parse_takeover takeover_name
takeover-back v s h = ground (
  arith,
  eq_iff v "requested",
  eq_iff v "prepared",
  eq_iff v "committed",
  eq_iff v "resumed",
  eq_iff v "retired",
  eq_iff v "retire_failed",
  eq_iff v "aborted",
  eq_iff v "superseded",
)

parse_takeover-name : (s : TakeoverState) → parse_takeover (takeover_name s) ≡ ok s
unfolding parse_takeover takeover_name
parse_takeover-name requested = refl
parse_takeover-name _ = refl

run-back : (v : String) (s : WorkflowRunState) → parse_run v ≡ ok s → run_name s ≡ v
unfolding parse_run run_name
run-back v s h = ground (
  arith,
  eq_iff v "running",
  eq_iff v "blocked",
  eq_iff v "completed",
  eq_iff v "failed",
  eq_iff v "cancelled",
)

parse_run-name : (s : WorkflowRunState) → parse_run (run_name s) ≡ ok s
unfolding parse_run run_name
parse_run-name WorkflowRunState.running = refl
parse_run-name _ = refl

-- A state column of an attempt, a takeover or a workflow run reads as a state exactly when it
-- holds the text that the store writes for that state; every other text is an error.
pub parse-name :
    ((v : String) (s : AttemptState) → (parse_state v ≡ ok s) ↔ (v ≡ state_name s))
    × ((v : String) (s : TakeoverState) → (parse_takeover v ≡ ok s) ↔ (v ≡ takeover_name s))
    × ((v : String) (s : WorkflowRunState) → (parse_run v ≡ ok s) ↔ (v ≡ run_name s))
parse-name = (
  λ v s. (λ h. sym (state-back v s h), λ e. rw e (parse_state-name s)),
  λ v s. (λ h. sym (takeover-back v s h), λ e. rw e (parse_takeover-name s)),
  λ v s. (λ h. sym (run-back v s h), λ e. rw e (parse_run-name s)),
)
