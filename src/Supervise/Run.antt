-- ===== src/Supervise/Run.antt =====
-- src/execution.rs: one attempt, from its claim to its sealed result. The process itself, the sealing
-- of its files and the wording of reasons are parameters. An error ends the run with what was written
-- before it; only the error is modelled.
pub mod Recorded
use brgr.Base.{
  Bool, List, Option, Result, String, [], any, err, false, find?, if◌then◌else◌, is_blank, is_empty,
  list_eq, ltb, map_err, nat_eq, none, not, ok, ok_or, option_eq, refuse, some, string_eq, true, ℕ,
  ◌&&◌, ◌++◌, ◌+◌, ◌==◌, ◌>>=◌, ◌>>◌, ◌||◌, ◌∷◌,
}
use brgr.Protocol.{
  ArtifactRef, AttemptId, AttemptState, ResultEnvelope, ResultId, RouteObservation, TaskId,
  TaskSpec, TerminalOutcome, blocked, cancel_requested, cancelled, candidate, collecting, failed,
  harness_config, harness_jsonl, lost, outcome_eq, queued, running, starting, state_eq, terminal,
  unavailable,
}
use brgr.Rows.{
  EventKind, EventRow, blocked, cancel_requested, collecting, direction_eq, kind_eq, running,
  same_event, starting, terminal,
}
use brgr.Core.{Attempt, CoreError, invalid_transition, transition}
use brgr.Store.{
  Store, StoreError, WriteOutcome, already_applied, blocked, event_conflict, failed, inserted,
  invalid_event, run_state_eq, running, takeover_state_eq, to_i64,
}
use brgr.Store.Attempts.{compare_and_set}
use brgr.Store.Attempts.Writes.{is_terminal_key}
use brgr.Store.Delegation.{unsettled_child_tasks}
use brgr.Store.Messages.{on_some, unsettled_questions}
use brgr.Supervise.{result_for_attempt}

pub data SupervisorError : Type 0 where
  no_attempt : SupervisorError
  core : CoreError → SupervisorError
  store : StoreError → SupervisorError

pub data ExecutionMode : Type 0 where
  one_shot delegated_external : ExecutionMode

-- What the supervisor reads of a harness manifest.
pub record Harness : Type 0 where
  pub mode : ExecutionMode
  pub success_exit_codes : List ℕ

pub record ExecutionOutput : Type 0 where
  pub exit_code : Option ℕ
  pub stdout : List ℕ
  pub stderr : List ℕ
  pub result : List ℕ
  pub observed_model : Option String
  pub timed_out : Bool
  pub cancelled : Bool
  pub output_truncated : Bool
  pub slept_seconds : Option ℕ

pub data RunnerError : Type 0 where
  spawn_interrupted spawn_would_block spawn_timed_out other_error : RunnerError

-- Why a worker that succeeded is held back: its children, or its questions.
pub data Unsettled : Type 0 where
  children : List TaskId → Unsettled
  questions : ℕ → Unsettled

-- What the supervisor takes from the file system, git and its own texts.
pub record Workspace : Type 0 where
  pub reason_text : Unsettled → String
  pub failure_reason : ExecutionOutput → String
  pub lost_reason : Option ExecutionOutput → String
  pub error_text : RunnerError → String
  pub seal_requested_logs : TaskSpec → ExecutionOutput → Result String (List ArtifactRef)
  pub with_failure : String → String → String
  pub seal_unreported_diff : TaskSpec → Result String (Option ArtifactRef)
  pub stash_notes : TaskSpec → List String
  pub seal_requested_evidence :
      TaskSpec → ExecutionOutput → Result String (List ArtifactRef × List String)
  pub seal_result : TaskSpec → List ℕ → Result StoreError ArtifactRef
  pub configured_model : Option String

-- `ExecutionOutput::succeeded`
unfoldable pub succeeded : ExecutionOutput → Harness → Bool
succeeded o h =
    not o.timed_out
    && not o.output_truncated
    && on_some (λ code. any (λ c. c == code) h.success_exit_codes) o.exit_code

unfoldable pub is_retryable_spawn_failure : Result RunnerError ExecutionOutput → Bool
is_retryable_spawn_failure (ok o) = false
is_retryable_spawn_failure (err spawn_interrupted) = true
is_retryable_spawn_failure (err spawn_would_block) = true
is_retryable_spawn_failure (err spawn_timed_out) = true
is_retryable_spawn_failure (err other_error) = false

-- `record_event_once`, under the keys of the table.
unfoldable pub record_event : Store → EventRow → Result StoreError (WriteOutcome × Store)
record_event s e = do
  refuse (is_blank e.producer || e.producer_seq == 0) invalid_event
  seq ← to_i64 e.producer_seq
  elim (find? (λ x. x.event_id == e.event_id) s.events) [
    | some stored ↦ if same_event stored e then ok (already_applied, s) else err event_conflict
    | none ↦ do
      refuse
          (any
              (λ x.
                x.attempt_id == e.attempt_id && x.producer == e.producer && x.producer_seq == seq)
              s.events
            || is_terminal_key e.attempt_id e && any (λ id. id == e.attempt_id) s.terminal_events
            || not (any (λ a. a.attempt_id == e.attempt_id) s.attempts))
          event_conflict
      ok (inserted, record s { events = e ∷ s.events })
  ]

abbrev pub event_kind : AttemptState → Option EventKind
event_kind starting = some starting
event_kind running = some running
event_kind blocked = some blocked
event_kind collecting = some collecting
event_kind cancel_requested = some cancel_requested
event_kind queued = none
event_kind terminal = none

-- The store, the attempt in memory and the sequence of its events.
pub record Run : Type 0 where
  pub held : Store
  pub attempt : Attempt
  pub producer_seq : ℕ

abbrev pub event_of : (ℕ → ℕ) → AttemptId → ℕ → EventKind → EventRow
event_of event_ids id seq kind = record {
  event_id = event_ids seq;
  attempt_id = id;
  producer = "brgr.supervisor";
  producer_seq = seq;
  kind = kind;
}

-- `transition` of src/execution.rs: the attempt in memory, the store, then the event.
unfoldable pub supervised_transition : (ℕ → ℕ) → Run → AttemptState → Result SupervisorError Run
supervised_transition event_ids run next = do
  moved ← map_err core (transition run.attempt next)
  s ← map_err store (compare_and_set run.held run.attempt.id run.attempt.state next)
  kind ← ok_or (event_kind next) (core (invalid_transition moved.state next))
  told ← map_err store (record_event s (event_of event_ids moved.id (run.producer_seq + 1) kind))
  ok (record { held = told.1; attempt = moved; producer_seq = run.producer_seq + 1 })

unfoldable pub unsettled_worker_reason : Store → TaskId → AttemptId → Option Unsettled
unsettled_worker_reason s task attempt =
    let open_children = unsettled_child_tasks s attempt in
    let open_questions = unsettled_questions s task attempt in
    if not (is_empty open_children)
    then some (children open_children)
    else if ltb 0 open_questions
    then some (questions open_questions)
    else none

abbrev pub is_failed_or_lost : TerminalOutcome → Bool
is_failed_or_lost failed = true
is_failed_or_lost lost = true
is_failed_or_lost _ = false

abbrev pub no_report_exit : ℕ
no_report_exit = 3

abbrev pub may_still_run : String
may_still_run =
    "The separately launched worker may still be running or may have caused external effects"

abbrev pub delegates : Harness → Bool
delegates h = elim (h.mode) [ one_shot ↦ false | delegated_external ↦ true ]

abbrev pub gave_result : Harness → ExecutionOutput → Bool
gave_result h o = succeeded o h && not (is_empty o.result)

module _ (w : Workspace) (fresh : AttemptId → ResultId) (event_ids : ℕ → ℕ) where
  -- The logs, and the texts of what could not be sealed.
  abbrev pub requested_logs : TaskSpec → String → Option ExecutionOutput → List ArtifactRef × String
  requested_logs spec reason none = ([], reason)
  requested_logs spec reason (some o) = elim (w.seal_requested_logs spec o) [
    | ok artifacts ↦ (artifacts, reason)
    | err log_error ↦ ([], w.with_failure reason log_error)
  ]

  abbrev pub with_diff : TaskSpec → List ArtifactRef × String → List ArtifactRef × String
  with_diff spec p = elim (w.seal_unreported_diff spec) [
    | ok none ↦ p
    | ok (some reference) ↦ (p.0 ++ (reference ∷ []), p.1)
    | err diff_error ↦ (p.0, w.with_failure p.1 diff_error)
  ]

  unfoldable pub terminal_with_requested_logs :
      TaskSpec → AttemptId → TerminalOutcome → String → Option ExecutionOutput → ResultEnvelope
  terminal_with_requested_logs spec attempt outcome reason output =
      let seals = is_failed_or_lost outcome && spec.evidence.capture_diff in
      let logs = requested_logs spec reason output in
      let sealed = if seals then with_diff spec logs else logs in
      record (result_for_attempt (fresh attempt) spec attempt outcome sealed.0 (some sealed.1)) {
        unresolved_effects = if seals then w.stash_notes spec else [];
        slept_seconds = elim output [ none ↦ none | some o ↦ o.slept_seconds ];
      }

  -- A run of a separately launched worker without a result: a known end only where the agent stopped
  -- by itself.
  unfoldable pub delegated_failure : TaskSpec → AttemptId → Option ExecutionOutput → ResultEnvelope
  delegated_failure spec attempt output =
      let reason = w.lost_reason output in
      let lost_ = terminal_with_requested_logs spec attempt lost reason output in
      if on_some (λ o. o.exit_code == some no_report_exit && not o.cancelled && not o.timed_out)
        output
      then terminal_with_requested_logs spec attempt failed reason output
      else record lost_ { unresolved_effects = lost_.unresolved_effects ++ (may_still_run ∷ []) }

  -- The model that the run's stream named, else the one of the harness's own settings.
  unfoldable pub route_observation : Option String → Option RouteObservation
  route_observation (some model) = some (record {
    model = some model;
    model_source = harness_jsonl;
    effort = none;
    effort_source = unavailable;
  })
  route_observation none = elim (w.configured_model) [
    | none ↦ none
    | some model ↦ some (record {
      model = some model;
      model_source = harness_config;
      effort = none;
      effort_source = unavailable;
    })
  ]

  abbrev pub observed : Option RouteObservation → ResultEnvelope → ResultEnvelope
  observed none r = r
  observed (some o) r = record r { route_observation = some o }

  abbrev pub candidate_result :
      TaskSpec
      → AttemptId
      → ExecutionOutput
      → ArtifactRef
      → List ArtifactRef × List String
      → ResultEnvelope
  candidate_result spec attempt o artifact extra =
      record (result_for_attempt (fresh attempt) spec attempt candidate (artifact ∷ extra.0) none) {
        slept_seconds = o.slept_seconds;
        unresolved_effects = extra.1;
      }

  -- A worker that gave a result: a candidate, unless something is unsettled or cannot be sealed.
  unfoldable pub collect :
      TaskSpec → Run → ExecutionOutput → Result SupervisorError (ResultEnvelope × Run)
  collect spec run o = do
    collecting_run ← supervised_transition event_ids run collecting
    elim (unsettled_worker_reason collecting_run.held spec.task_id run.attempt.id) [
      | some reason ↦ ok (
        terminal_with_requested_logs spec run.attempt.id failed (w.reason_text reason) (some o),
        collecting_run,
      )
      | none ↦ elim (w.seal_requested_evidence spec o) [
        | err reason ↦ ok (
          terminal_with_requested_logs spec run.attempt.id failed reason (some o),
          collecting_run,
        )
        | ok extra ↦ do
          artifact ← map_err store (w.seal_result spec o.result)
          ok (
            observed (route_observation o.observed_model)
                (candidate_result spec run.attempt.id o artifact extra),
            collecting_run,
          )
      ]
    ]

  unfoldable pub finish_execution_result :
      TaskSpec
      → Harness
      → Run
      → Result RunnerError ExecutionOutput
      → Result SupervisorError (ResultEnvelope × Run)
  finish_execution_result spec h run (err e) =
      if delegates h
      then ok (delegated_failure spec run.attempt.id none, run)
      else ok (
        result_for_attempt (fresh run.attempt.id) spec run.attempt.id failed []
            (some (w.error_text e)),
        run,
      )
  finish_execution_result spec h run (ok o) =
      let collects = collect spec run o in
      if delegates h && not (not o.cancelled && gave_result h o)
      then ok (delegated_failure spec run.attempt.id (some o), run)
      else if o.cancelled
      then (do
        cancelling ← supervised_transition event_ids run cancel_requested
        ok (
          terminal_with_requested_logs spec run.attempt.id cancelled
              "cancellation requested by owner" (some o),
          cancelling,
        ))
      else if gave_result h o
      then collects
      else ok (
        terminal_with_requested_logs spec run.attempt.id failed (w.failure_reason o) (some o),
        run,
      )
