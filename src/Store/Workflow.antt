-- ===== src/Store/Workflow.antt =====
-- src/workflow.rs: workflow runs, the steps they launch and the notices to their owner.
pub mod Frozen
use brgr.Base.{
  Bool, List, Option, Result, String, [], any, count, err, false, find?, if◌then◌else◌, leb,
  list_eq, map_err, nat_eq, none, not, ok, ok_or, option_eq, refuse, some, string_eq, true, update,
  ℕ, ◌&&◌, ◌+◌, ◌==◌, ◌>>=◌, ◌>>◌, ◌∷◌,
}
use brgr.Protocol.{
  OwnerId, TaskId, TaskSpec, TerminalOutcome, blocked, cancelled, failed, outcome_eq, running,
  state_eq,
}
use brgr.Protocol.Validate.{validate}
use brgr.Store.{
  Platform, Store, StoreError, WorkflowNoticeRow, WorkflowRun, WorkflowRunState, WorkflowStep,
  blocked, cancelled, completed, constraint_violation, database, failed,
  invalid_workflow_max_parallel, protocol, run_state_eq, running, takeover_state_eq,
  workflow_parallel_limit, workflow_retry_predecessor, workflow_run_conflict,
  workflow_run_not_found, workflow_run_not_running, workflow_run_terminal, workflow_step_diverged,
  workflow_step_owner_mismatch,
}
use brgr.Store.Owner.{cleared}
use brgr.Store.Settle.{latest_result_of, result_of}
use brgr.Store.Delegation.{latest_revision, max_revision}
use brgr.Store.StepKey.{Bytes, retry_predecessor}
use brgr.Store.Tasks.{record_in_transaction, validate_digest}
use Prim.Native.Nat.{max}

unfoldable pub is_final : WorkflowRunState → Bool
is_final completed = true
is_final failed = true
is_final cancelled = true
is_final _ = false

unfoldable pub notifies_owner : WorkflowRunState → Bool
notifies_owner running = false
notifies_owner _ = true

unfoldable pub is_active_run : WorkflowRunState → Bool
is_active_run running = true
is_active_run blocked = true
is_active_run _ = false

unfoldable pub allows_run : WorkflowRunState → WorkflowRunState → Bool
allows_run running blocked = true
allows_run running completed = true
allows_run running failed = true
allows_run running cancelled = true
allows_run blocked running = true
allows_run blocked completed = true
allows_run blocked failed = true
allows_run blocked cancelled = true
allows_run _ _ = false

-- `load_run_optional`
unfoldable pub run_of : Store → String → Option WorkflowRun
run_of s id = find? (λ r. r.run_id == id) s.workflow_runs

unfoldable pub load_run : Store → String → Result StoreError WorkflowRun
load_run s id = ok_or (run_of s id) (workflow_run_not_found id)

unfoldable pub create_run :
    Store → String → OwnerId → String → ℕ → Result StoreError (WorkflowRun × Store)
create_run s id owner digest max_parallel = do
  validate_digest digest
  refuse (not (leb 1 max_parallel && leb max_parallel 64)) invalid_workflow_max_parallel
  elim (run_of s id) [
    | some existing ↦
        if existing.owner_id == owner
          && existing.script_digest == digest
          && existing.max_parallel == max_parallel
        then ok (existing, s)
        else err (workflow_run_conflict id)
    | none ↦
        let run : WorkflowRun = record {
          run_id = id;
          owner_id = owner;
          script_digest = digest;
          max_parallel = max_parallel;
          state = running;
        } in
        ok (run, record s { workflow_runs = run ∷ s.workflow_runs })
  ]

unfoldable pub step_of : Store → String → Bytes → Option WorkflowStep
step_of s run key = find? (λ w. w.run_id == run && w.step_key == key) s.workflow_steps

abbrev pub lacks_result : Store → TaskId → Option ℕ → Bool
lacks_result s task none = true
lacks_result s task (some n) = not (any (result_of task n) s.results)

unfoldable pub unfinished_steps : Store → String → ℕ
unfinished_steps s run =
    count (λ w. w.run_id == run && lacks_result s w.task_id (max_revision s.tasks w.task_id))
      s.workflow_steps

-- `latest_step_outcome`
unfoldable pub latest_outcome : Store → TaskId → Result StoreError (Option TerminalOutcome)
latest_outcome s task = do
  revision ← latest_revision s task
  ok (elim (latest_result_of s task revision) [ none ↦ none | some r ↦ some r.envelope.outcome ])

unfoldable pub require_failed_predecessor : Store → String → Bytes → Result StoreError (Unit {0})
require_failed_predecessor s run key = do
  before ← retry_predecessor key
  elim before [
    | none ↦ ok tt
    | some q ↦ do
      w ← ok_or (step_of s run q) (workflow_retry_predecessor run key)
      outcome ← latest_outcome s w.task_id
      refuse (not (outcome == some TerminalOutcome.failed)) (workflow_retry_predecessor run key)
  ]

pub data StepOutcome : Type 0 where
  created existing : TaskId → ℕ → StepOutcome

unfoldable pub add_step : Store → WorkflowStep → Store
add_step s w = record s { workflow_steps = w ∷ s.workflow_steps }

abbrev pub last_notice : List WorkflowNoticeRow → String → ℕ
last_notice [] run = 0
last_notice (n ∷ ns) run =
    let rest = last_notice ns run in if n.run_id == run then max n.seq rest else rest

-- `insert_run_notice`
unfoldable pub insert_notice : Store → WorkflowRun → WorkflowRunState → Store
insert_notice s run state = if not (notifies_owner state) then s else record s {
  workflow_notifications =
      record {
        run_id = run.run_id;
        seq = last_notice s.workflow_notifications run.run_id + 1;
        state = state;
        owner_id = run.owner_id;
        resolved = false;
        delivery = cleared;
        attempts = 0;
        last_error = none;
      }
      ∷ s.workflow_notifications;
}

unfoldable pub set_state : Store → String → WorkflowRunState → Store
set_state s id state = record s {
  workflow_runs = update (λ r. r.run_id == id) (λ r. record r { state = state }) s.workflow_runs;
}

unfoldable pub set_run_state :
    Store → String → WorkflowRunState → Result StoreError (WorkflowRun × Store)
set_run_state s id state = do
  current ← load_run s id
  refuse (is_final current.state) (workflow_run_terminal id)
  if current.state == state then ok (current, s) else do
    refuse (not (allows_run current.state state)) (workflow_run_terminal id)
    let done = set_state (insert_notice s current state) id state
    run ← load_run done id
    ok (run, done)

module _ (platform : Platform) where
  unfoldable pub first_step :
      Store
      → WorkflowRun
      → Bytes
      → String
      → TaskSpec
      → String
      → Result StoreError (StepOutcome × Store)
  first_step s run key input task digest = do
    require_failed_predecessor s run.run_id key
    refuse (leb run.max_parallel (unfinished_steps s run.run_id)) workflow_parallel_limit
    map_err protocol (validate task)
    validate_digest digest
    p ← record_in_transaction platform s task digest none none
    refuse (any (λ w. w.run_id == run.run_id && w.step_key == key) p.1.workflow_steps)
        (database constraint_violation)
    ok (
      created task.task_id task.revision,
      add_step p.1 (record {
        run_id = run.run_id;
        step_key = key;
        input_digest = input;
        task_id = task.task_id;
        revision = task.revision;
      }),
    )

  -- `record_workflow_step` and `record_step_in_transaction`
  unfoldable pub record_step :
      Store → String → Bytes → String → TaskSpec → String → Result StoreError (StepOutcome × Store)
  record_step s id key input task digest = do
    validate_digest input
    run ← load_run s id
    refuse (not (is_active_run run.state)) (workflow_run_not_running id)
    refuse (not (task.owner_id == run.owner_id)) (workflow_step_owner_mismatch id)
    elim (step_of s id key) [
      | some w ↦
          if w.input_digest == input
          then ok (existing w.task_id w.revision, s)
          else err (workflow_step_diverged id key)
      | none ↦ first_step s run key input task digest
    ]
