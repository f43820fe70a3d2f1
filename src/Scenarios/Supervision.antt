-- ===== src/Scenarios/Supervision.antt =====
-- A worker that gives a report, a run that is cancelled before its process, and a restart after
-- which the runner is not found.
use brgr.Base.{
  List, Option, Result, String, [], arith, err, false, is_blank, is_empty, none, ok, refl, some,
  true, ℕ, ◌+◌, ◌∷◌, ◌≡◌, ◌≢◌, ◌⊎◌,
}
use brgr.Protocol.{
  AttemptId, AttemptState, ResultEnvelope, TaskSpec, cancelled, candidate, collecting, failed,
  harness_jsonl, running, terminal, unavailable,
}
use brgr.Protocol.Validate.{
  acceptance_criteria_exceed_size, bad_criteria, bad_evidence, bad_instructions, blank_selector,
  total_from, validate, validate_stored,
}
use brgr.Rows.{collecting, running, terminal}
use brgr.Core.{freeze, new_attempt, record_terminal, transition}
use brgr.Store.{AttemptRow, Store, StoreError, cancelled, failed, running}
use brgr.Store.Settle.{is_active, latest_result_of, of_revision}
use brgr.Store.Attempts.{
  allowed, attempt_of, attempt_state_by_id, claim_attempt, compare_and_set, insert_attempt,
  launch_of, prior_allows, result_for, set_attempt, set_attempt_state, task_row,
}
use brgr.Store.Attempts.Writes.{
  complete, insert_completion_notification, insert_inbox_item, insert_result,
  insert_route_observation, insert_run_completion, insert_terminal_event, write_terminal,
}
use brgr.Store.Attempts.Terminal.{
  UnfinishedAttempt, commit_guarded, commit_once, commit_recovered_lost,
  commit_terminal_result_final, prepare_terminal_result, task_of_attempt, terminal_attempt,
  validate_recovery, validate_schema, validate_terminal_result, verify_candidate,
}
use brgr.Store.Attempts.Rows.Digested.{Stored}
use brgr.Store.Delegation.{
  active_child_count, cancellation_requested, edge_of, max_revision, recorded_parent,
  unsettled_child_tasks, validate_new_parent, validated_parent_depth,
}
use brgr.Store.Tasks.{
  assert_author, first_task, insert_edge, insert_task, record_idempotency, record_in_transaction,
  record_task, validate_digest,
}
use brgr.Store.Messages.{unsettled_questions}
use brgr.Supervise.{
  ExecutionObservation, apply_session_model, exactly_alive, lost_result, no_observation,
  not_observed, reconcile_after_restart, reconcile_each, result_for_attempt, unfinished_of,
}
use brgr.Supervise.Run.{
  ExecutionOutput, Harness, Run, SupervisorError, Workspace, collect, event_of,
  finish_execution_result, no_attempt, one_shot, record_event, route_observation, succeeded,
  supervised_transition, unsettled_worker_reason,
}
use brgr.Supervise.Run.Recorded.{finish-recorded}
use brgr.Supervise.Single.{
  Control, attempts_from, cancel_before_spawn, run_fresh_controlled, run_single_attempt,
}
use brgr.Supervise.Single.Bounded.{run_fresh-Stored, run_fresh-answers}
use brgr.Supervise.Recover.{
  IsReported, contents_of, latest_result, recover_external_report, recover_external_report-Stored,
  recover_unfinished,
}
use brgr.Scenarios.Data.{bound_store, envelope, platform, report, spec, task_store}

abbrev attempt_row : AttemptState → AttemptRow
attempt_row state = record { attempt_id = 5; task_id = 1; revision = 1; state = state }

abbrev working : Store
working = record task_store { attempts = attempt_row running ∷ [] }

abbrev workspace : Workspace
workspace = record {
  reason_text = λ u. "delegated work is not settled";
  failure_reason = λ o. "the harness failed";
  lost_reason = λ o. "the worker did not report";
  error_text = λ e. "the process could not be spawned";
  seal_requested_logs = λ t o. ok [];
  with_failure = λ a b. a;
  seal_unreported_diff = λ t. ok none;
  stash_notes = λ t. [];
  seal_requested_evidence = λ t o. ok ([], []);
  seal_result = λ t bytes. ok report;
  configured_model = none;
}

abbrev harness : Harness
harness = record { mode = one_shot; success_exit_codes = 0 ∷ [] }

abbrev output : ExecutionOutput
output = record {
  exit_code = some 0;
  stdout = 111 ∷ 107 ∷ [];
  stderr = [];
  result = 111 ∷ 107 ∷ [];
  observed_model = some "fixture-1";
  timed_out = false;
  cancelled = false;
  output_truncated = false;
  slept_seconds = none;
}

abbrev started : Run
started = record {
  held = working;
  attempt = record {
    id = 5;
    number = 1;
    task = record { spec = spec };
    state = running;
    terminal_result = none;
  };
  producer_seq = 2;
}

abbrev no_model : TaskSpec → AttemptId → Option String
no_model t id = none

abbrev id_of : ℕ → ℕ
id_of n = n + 100

abbrev finished : Result SupervisorError (ResultEnvelope × Run)
finished = finish_execution_result workspace id_of id_of spec harness started (ok output)

abbrev sealed : ResultEnvelope
sealed = record (envelope 105 candidate) {
  route_observation = some (record {
    model = some "fixture-1";
    model_source = harness_jsonl;
    effort = none;
    effort_source = unavailable;
  });
}

abbrev collected : Run
collected = record {
  held = record working {
    attempts = attempt_row collecting ∷ [];
    events = event_of id_of 5 3 collecting ∷ [];
  };
  attempt = record started.attempt { state = collecting };
  producer_seq = 3;
}

finishes : finished ≡ ok (sealed, collected)
unfolding finish_execution_result succeeded collect supervised_transition transition compare_and_set
    attempt_of allowed set_attempt_state set_attempt record_event unsettled_worker_reason
    unsettled_child_tasks unsettled_questions result_for_attempt route_observation is_blank
finishes = refl

finish-recorded_example :
    record_terminal collected.attempt (apply_session_model sealed no_model spec 5)
    ≡ ok (record collected.attempt {
      state = terminal;
      terminal_result = some (apply_session_model sealed no_model spec 5);
    })
finish-recorded_example =
    finish-recorded workspace id_of id_of harness started collected (ok output) sealed no_model 5
      refl refl finishes

-- The cancel file is there before the process is spawned.
abbrev stopping : ℕ → Control
stopping n = record {
  attempt_id = n + 4;
  nonce = "nonce";
  epoch = 1;
  cancel_file = true;
  identity = none;
  execute = λ s. (s, ok output);
}

abbrev fresh_run : Result SupervisorError (ResultEnvelope × Store)
fresh_run =
    run_fresh_controlled platform workspace no_model id_of id_of bound_store spec "d1" harness
      stopping

run_fresh-answers_example : fresh_run ≢ err no_attempt
run_fresh-answers_example =
    run_fresh-answers platform workspace no_model id_of id_of bound_store spec "d1" harness stopping
      (ground arith)

abbrev stopped : ResultEnvelope
stopped = record (envelope 105 cancelled) {
  artifacts = [];
  error = some "cancelled before process spawn";
  route_observation = some no_observation;
}

abbrev left_by : {A : Type 0} → Result SupervisorError (A × Store) → Store
left_by (ok p) = p.1
left_by (err e) = bound_store

cancels : fresh_run ≡ ok (stopped, left_by fresh_run)
unfolding run_fresh_controlled freeze attempts_from run_single_attempt new_attempt
    cancel_before_spawn cancellation_requested record_terminal claim_attempt insert_attempt
    supervised_transition transition compare_and_set attempt_of allowed set_attempt_state
    set_attempt record_event result_for_attempt commit_terminal_result_final commit_guarded
    prepare_terminal_result validate_terminal_result validate_schema task_of_attempt task_row
    verify_candidate commit_once validate_recovery result_for terminal_attempt write_terminal
    insert_result insert_route_observation insert_inbox_item insert_completion_notification complete
    insert_terminal_event of_revision prior_allows is_active record_task validate validate_stored
    validate_digest record_in_transaction assert_author record_idempotency recorded_parent edge_of
    first_task validate_new_parent validated_parent_depth active_child_count insert_task insert_edge
    is_blank blank_selector bad_criteria bad_instructions bad_evidence
    acceptance_criteria_exceed_size total_from insert_run_completion
cancels = refl

run_fresh-Stored_example : Stored platform (left_by fresh_run) stopped
run_fresh-Stored_example =
    run_fresh-Stored platform workspace no_model id_of id_of bound_store (left_by fresh_run) spec
      "d1" harness stopping stopped tt (λ n t rows. rows) cancels

-- The runner of the attempt is not found after the restart.
abbrev absent : UnfinishedAttempt → ExecutionObservation
absent a = not_observed

abbrev left_running : UnfinishedAttempt
left_running = record { task = spec; attempt_id = 5; state = running; launch = none }

abbrev quiet : UnfinishedAttempt → Store → Store
quiet a t = t

abbrev restarted : Store × Result StoreError (List ResultEnvelope)
restarted = reconcile_after_restart platform no_model absent quiet id_of working

-- A runner that moves on while it is looked for keeps its attempt.
abbrev advances : UnfinishedAttempt → Store → Store
advances a t = record t { attempts = attempt_row collecting ∷ [] }

yields :
    reconcile_after_restart platform no_model absent advances id_of working
    ≡ (record working { attempts = attempt_row collecting ∷ [] }, ok [])
unfolding reconcile_after_restart reconcile_each unfinished_of exactly_alive lost_result
    apply_session_model result_for_attempt commit_recovered_lost launch_of commit_guarded
    prepare_terminal_result validate_terminal_result validate_schema task_of_attempt task_row
    attempt_of verify_candidate commit_once validate_recovery result_for attempt_state_by_id
yields = refl

-- A report of the session of that attempt comes back after its collector was gone.
abbrev report_text : List ℕ
report_text = 111 ∷ 107 ∷ []

abbrev reported : ResultEnvelope
reported = record (envelope 105 candidate) { route_observation = some no_observation }

abbrev recovered : Result SupervisorError (ResultEnvelope × Store)
recovered = recover_external_report platform workspace no_model id_of working 1 5 report_text

recovers : recovered ≡ ok (reported, left_by recovered)
unfolding recover_external_report latest_result recover_unfinished unfinished_of compare_and_set
    attempt_of allowed set_attempt_state contents_of max_revision latest_result_of
    unsettled_worker_reason unsettled_child_tasks unsettled_questions apply_session_model
    result_for_attempt launch_of commit_terminal_result_final commit_guarded prepare_terminal_result
    validate_terminal_result validate_schema task_of_attempt task_row verify_candidate commit_once
    validate_recovery result_for terminal_attempt write_terminal insert_result
    insert_route_observation insert_inbox_item insert_completion_notification complete set_attempt
    insert_terminal_event attempt_state_by_id insert_run_completion
recovers = refl

recover_external_report-Stored_example :
    ((latest_result working 1 ≡ ok reported)
      × (reported.attempt_id ≡ 5)
      × (left_by recovered ≡ working))
    ⊎ ((¬ (IsReported working 1 5))
        × Stored platform (left_by recovered) reported
        × (reported.attempt_id ≡ 5)
        × ((reported.outcome ≡ failed) ⊎ (is_empty report_text ≡ false)))
recover_external_report-Stored_example =
    recover_external_report-Stored platform workspace no_model id_of working (left_by recovered) 1 5
      report_text reported tt recovers
