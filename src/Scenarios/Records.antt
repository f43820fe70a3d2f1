-- ===== src/Scenarios/Records.antt =====
-- The same task in the state machine of the core, at admission and in a workflow.
use brgr.Base.{
  All, List, [], arith, codes, err, false, is_blank, none, ok, refl, some, true, ℕ, ◌++◌, ◌+◌, ◌↔◌,
  ◌∷◌, ◌≡◌, ◌≤◌,
}
use brgr.Protocol.{TaskSpec, candidate, collecting, lost, queued, running, starting, terminal}
use brgr.Protocol.Paths.{components, escapes}
use brgr.Protocol.Validate.{
  acceptance_criteria_exceed_size, bad_criteria, bad_evidence, bad_instructions, blank_selector,
  total_from, validate, validate_stored,
}
use brgr.Protocol.Admission.{IsAdmissible, validate_iff}
use brgr.Protocol.Confined.{NoGit, escapes-confined, resolve}
use brgr.Core.{Attempt, TaskRevision, freeze, new_attempt, revise, u32_max}
use brgr.Core.Lifecycle.{
  Call, IsConsistent, IsRefused, answer, answers, attempt-IsConsistent, drive, drive-terminal,
  finish, move_to,
}
use brgr.Core.Trace.{asked, candidate_needs}
use brgr.Core.Revisions.{revise_all, revise_all-chain}
use brgr.Store.{
  Store, StoreError, WorkflowRun, WorkflowRunState, already_applied, inserted, running,
}
use brgr.Store.Attempts.{attempt_of, task_row}
use brgr.Store.Attempts.Terminal.{task_of_attempt}
use brgr.Store.Delegation.{
  active_child_count, cancellation_requested, edge_of, max_revision, recorded_parent,
  validate_new_parent, validated_parent_depth,
}
use brgr.Store.Subtree.{
  SubtreeNode, levels, next_level, put_intent, query_subtree, record_cancellation_intents,
  record_each, root_node,
}
use brgr.Store.Subtree.Covered.{
  Leads, record_cancellation_intents-covers, validated_parent_depth-cancelled,
}
use brgr.Store.Debates.{task_spec}
use brgr.Store.StepKey.{
  Bytes, new_step_key, parse_retry_suffix, retry_key, retry_of, retry_predecessor, split_tilde,
  token_byte, valid_token,
}
use brgr.Store.StepKey.Retry.{retry_predecessor_lem}
use brgr.Store.Tasks.{
  assert_author, first_task, insert_edge, insert_task, record_idempotency, record_in_transaction,
  record_task, validate_digest,
}
use brgr.Store.Tasks.Depth.{IsForest, record_task-IsForest}
use brgr.Store.Tasks.Replay.{record_task-replay}
use brgr.Store.Workflow.{is_final, run_of}
use brgr.Store.Workflow.Frozen.{Frozen, WorkflowCall, after, after-Frozen, create, launch, move}
use brgr.Scenarios.Data.{alice, envelope, platform, spec, spec_at, task_store}

validate_iff_example : (validate spec ≡ ok tt) ↔ IsAdmissible spec
validate_iff_example = validate_iff spec

stays_inside : escapes (codes "docs/./log.txt") ≡ false
unfolding escapes
stays_inside = refl

escapes-confined_example :
    (names : List (List ℕ)) × (resolve (codes "srv" ∷ []) (components (codes "docs/./log.txt"))
      ≡ names ++ (codes "srv" ∷ []))
    × NoGit names
escapes-confined_example = escapes-confined (codes "srv" ∷ []) (codes "docs/./log.txt") stays_inside

abbrev task : TaskRevision
task = record { spec = spec }

abbrev first : Attempt
first = record { id = 5; number = 1; task = task; state = queued; terminal_result = none }

is_first : new_attempt task 5 1 ≡ ok first
unfolding new_attempt
is_first = refl

abbrev calls : List Call
calls =
    move_to starting
    ∷ move_to collecting
    ∷ move_to running
    ∷ move_to collecting
    ∷ finish (envelope 9 candidate)
    ∷ finish (envelope 10 lost)
    ∷ []

attempt-IsConsistent_example : IsConsistent (drive first calls)
attempt-IsConsistent_example = attempt-IsConsistent task 5 1 calls is_first

abbrev ended : Attempt
ended = record first { state = terminal; terminal_result = some (envelope 9 candidate) }

drive-terminal_example :
    All IsRefused (answers ended (finish (envelope 10 lost) ∷ []))
    × (drive ended (finish (envelope 10 lost) ∷ []) ≡ ended)
drive-terminal_example =
    drive-terminal ended (finish (envelope 10 lost) ∷ []) (envelope 9 candidate) refl

drives : (drive first calls).terminal_result ≡ some (envelope 9 candidate)
unfolding drive answer
drives = refl

candidate_needs_example :
    (asked starting calls ≡ true) × (asked running calls ≡ true) × (asked collecting calls ≡ true)
candidate_needs_example =
    candidate_needs task 5 1 calls first (envelope 9 candidate) is_first drives refl

revises : revise_all task (spec_at 2 ∷ spec_at 3 ∷ []) ≡ ok (record { spec = spec_at 3 })
unfolding revise_all revise freeze validate_stored is_blank blank_selector bad_criteria
    bad_instructions bad_evidence
revises = refl

revise_all-chain_example :
    ((spec_at 3).task_id ≡ 1) × ((spec_at 3).revision ≡ 1 + 2) × ((spec_at 3).revision ≤ u32_max)
revise_all-chain_example =
    revise_all-chain task (spec_at 2 ∷ spec_at 3 ∷ []) (record { spec = spec_at 3 }) (omega arith)
      revises

retry_key_parses : parse_retry_suffix (codes "build~retry2") ≡ some (codes "build", 2)
unfolding parse_retry_suffix split_tilde retry_of valid_token token_byte
retry_key_parses = refl

test_predecessor : retry_predecessor (codes "build~retry2") ≡ ok (some (codes "build~retry1"))
unfolding parse_retry_suffix split_tilde retry_of valid_token token_byte retry_predecessor
    new_step_key
test_predecessor = refl

retry_predecessor_lem_example :
    (q : Bytes) × (retry_predecessor (codes "build~retry2") ≡ ok (some q))
    × (new_step_key q ≡ ok q)
    × (q ≡ retry_key (codes "build") 1)
    × (parse_retry_suffix q ≡ some (codes "build", 1))
retry_predecessor_lem_example =
    retry_predecessor_lem (codes "build~retry2") (codes "build") 2 retry_key_parses

-- A worker's attempt that delegates to a child.
abbrev parent_store : Store
parent_store = record task_store {
  attempts = record { attempt_id = 5; task_id = 1; revision = 1; state = running } ∷ [];
}

abbrev child : TaskSpec
child = record spec { task_id = 2; create_request_id = "req-2"; owner_id = "worker:5" }

abbrev child_store : Store
child_store = record parent_store {
  tasks =
      record {
        task_id = 2;
        revision = 1;
        owner_id = "worker:5";
        create_request_id = "req-2";
        request_digest = "d2";
        spec = child;
      }
      ∷ parent_store.tasks;
  idempotency_requests = record { request_id = "req-2"; request_digest = "d2" } ∷ [];
  delegation_edges =
      record { child_task_id = 2; parent_task_id = 1; parent_attempt_id = 5; depth = 1 } ∷ [];
}

records :
    record_task platform parent_store child "d2" (some (1, 5)) none ≡ ok (inserted, child_store)
unfolding record_task validate validate_stored validate_digest record_in_transaction assert_author
    record_idempotency recorded_parent edge_of first_task validate_new_parent validated_parent_depth
    attempt_of active_child_count insert_task insert_edge is_blank blank_selector bad_criteria
    bad_instructions bad_evidence acceptance_criteria_exceed_size total_from task_of_attempt
    task_row
records = refl

record_task-replay_example :
    record_task platform child_store child "d2" (some (1, 5)) none
    ≡ ok (already_applied, child_store)
record_task-replay_example =
    record_task-replay platform parent_store child_store child "d2" (some (1, 5)) inserted records

no_edges : IsForest parent_store.tasks parent_store.delegation_edges
unfolding IsForest
no_edges = tt

record_task-IsForest_example : IsForest child_store.tasks child_store.delegation_edges
record_task-IsForest_example =
    record_task-IsForest platform parent_store child_store child "d2" (some (1, 5)) none inserted
      no_edges records

abbrev both : List SubtreeNode
both = record { task_id = 2; parent_task_id = some 1; depth = 1 } ∷ root_node 1 ∷ []

abbrev cancelled_store : Store
cancelled_store = record child_store {
  cancellation_intents =
      record { task_id = 1; revision = 1 } ∷ record { task_id = 2; revision = 1 } ∷ [];
}

cancels : record_cancellation_intents child_store 1 true none ≡ ok (both, cancelled_store)
unfolding record_cancellation_intents task_spec max_revision task_row query_subtree levels
    next_level record_each put_intent
cancels = refl

delegated : Leads child_store.delegation_edges 1 1 2
unfolding Leads
delegated = (2, refl, refl)

record_cancellation_intents-covers_example : cancellation_requested cancelled_store 2 ≡ true
record_cancellation_intents-covers_example =
    record_cancellation_intents-covers child_store cancelled_store 1 2 none both 1 cancels
      (omega arith) delegated

root_cancelled : cancellation_requested cancelled_store 1 ≡ true
unfolding cancellation_requested max_revision
root_cancelled = refl

parent_attempt :
    attempt_of cancelled_store 5
    ≡ some (record { attempt_id = 5; task_id = 1; revision = 1; state = running })
unfolding attempt_of
parent_attempt = refl

parent_latest : max_revision cancelled_store.tasks 1 ≡ some 1
unfolding max_revision
parent_latest = refl

validated_parent_depth-cancelled_example :
    (e : StoreError) × (validated_parent_depth platform cancelled_store child (some (1, 5)) ≡ err e)
validated_parent_depth-cancelled_example =
    validated_parent_depth-cancelled platform cancelled_store child 1 5
      (record { attempt_id = 5; task_id = 1; revision = 1; state = running }) root_cancelled
      parent_attempt parent_latest

abbrev run : WorkflowRun
run = record {
  run_id = "nightly";
  owner_id = alice;
  script_digest = "d";
  max_parallel = 2;
  state = WorkflowRunState.completed;
}

abbrev run_store : Store
run_store = record task_store { workflow_runs = run ∷ [] }

found_run : run_of run_store "nightly" ≡ some run
unfolding run_of
found_run = refl

abbrev late_calls : List WorkflowCall
late_calls =
    move "nightly" WorkflowRunState.running
    ∷ create "other" alice "d" 1
    ∷ launch "nightly" (codes "build") "in" child "d2"
    ∷ []

is_over : is_final run.state ≡ true
unfolding is_final
is_over = refl

after-Frozen_example : Frozen run_store "nightly" run (after platform run_store late_calls)
after-Frozen_example = after-Frozen platform run_store late_calls "nightly" run found_run is_over
