-- ===== src/Supervise.antt =====
-- crates/brgr-core: src/lib.rs and src/execution.rs, supervision over the store: reconciliation after
-- a restart. Each attempt that a former supervisor left unfinished is observed; it goes on if its
-- runner is alive and the very one recorded, and it is lost otherwise.
pub mod Run
pub mod Single
pub mod Stale
pub mod Restart
pub mod Recover
use brgr.Base.{
  Bool, List, Option, Result, String, [], err, false, if◌then◌else◌, list_eq, nat_eq, none, ok,
  option_beq, option_eq, some, string_eq, true, ◌&&◌, ◌++◌, ◌==◌, ◌∷◌,
}
use brgr.Protocol.{
  ArtifactRef, AttemptId, ResultEnvelope, ResultId, RouteObservation, TaskSpec, TerminalOutcome,
  harness_session_log, lost, outcome_eq, schema_v1, state_eq, terminal, unavailable,
}
use brgr.Store.{
  AttemptRow, LaunchIntent, Platform, RunnerIdentity, Store, StoreError, recovery_observation_stale,
  run_state_eq, takeover_state_eq,
}
use brgr.Store.Attempts.{launch_of, same_identity, task_row, valid_identity}
use brgr.Store.Attempts.Terminal.{UnfinishedAttempt, commit_recovered_lost}
use brgr.Store.Messages.{is_some}

pub data ExecutionObservation : Type 0 where
  alive supervisor_alive external_alive : RunnerIdentity → ExecutionObservation
  not_observed unknown : ExecutionObservation

abbrev pub is_valid : RunnerIdentity → Bool
is_valid i = elim (valid_identity i) [ ok u ↦ true | err e ↦ false ]

abbrev pub recorded_runner : Option LaunchIntent → Option RunnerIdentity
recorded_runner none = none
recorded_runner (some l) = l.runner_identity

-- The runner that is alive is the recorded one; a supervisor may not be recorded yet, and an external
-- session is the adapter's to identify.
unfoldable pub exactly_alive : ExecutionObservation → Option LaunchIntent → Bool
unfolding valid_identity
exactly_alive (alive i) none = false
exactly_alive (alive i) (some l) = option_beq same_identity l.runner_identity (some i) && is_valid i
exactly_alive (supervisor_alive i) launch =
    is_valid i
    && elim (recorded_runner launch) [ none ↦ true | some expected ↦ same_identity expected i ]
exactly_alive (external_alive i) launch = is_valid i
exactly_alive not_observed launch = false
exactly_alive unknown launch = false

abbrev pub lost_reason : ExecutionObservation → String
lost_reason (alive i) = "runner identity did not match the durable launch receipt"
lost_reason (supervisor_alive i) = "runner identity did not match the durable launch receipt"
lost_reason (external_alive i) = "runner identity did not match the durable launch receipt"
lost_reason not_observed = "original runner was not observed after supervisor restart"
lost_reason unknown = "original runner state could not be established after supervisor restart"

abbrev pub unresolved_effect : String
unresolved_effect =
    "External side effects of the original run are unresolved; do not retry automatically"

-- `RouteObservation::unavailable`
abbrev pub no_observation : RouteObservation
no_observation = record {
  model = none;
  model_source = unavailable;
  effort = none;
  effort_source = unavailable;
}

-- The id is a fresh one.
unfoldable pub result_for_attempt :
    ResultId
    → TaskSpec
    → AttemptId
    → TerminalOutcome
    → List ArtifactRef
    → Option String
    → ResultEnvelope
result_for_attempt id spec attempt outcome artifacts error = record {
  schema = schema_v1;
  task_id = spec.task_id;
  revision = spec.revision;
  attempt_id = attempt;
  result_id = id;
  outcome = outcome;
  artifacts = artifacts;
  error = error;
  legacy_embedded_route_observation = none;
  route_observation = some no_observation;
  unresolved_effects = [];
  slept_seconds = none;
}

-- The model that the worker's own session record names, if any.
abbrev pub SessionModel : Type 0
SessionModel = TaskSpec → AttemptId → Option String

abbrev pub has_model : Option RouteObservation → Bool
has_model none = false
has_model (some o) = is_some o.model

unfoldable pub apply_session_model :
    ResultEnvelope → SessionModel → TaskSpec → AttemptId → ResultEnvelope
apply_session_model r read spec attempt =
    if has_model r.route_observation then r else elim (read spec attempt) [
      | none ↦ r
      | some model ↦ record r {
        route_observation = some (record {
          model = some model;
          model_source = harness_session_log;
          effort = none;
          effort_source = unavailable;
        });
      }
    ]

unfoldable pub lost_result :
    SessionModel → ResultId → UnfinishedAttempt → ExecutionObservation → ResultEnvelope
lost_result read id a seen =
    apply_session_model
      (record (result_for_attempt id a.task a.attempt_id lost [] (some (lost_reason seen))) {
        unresolved_effects = unresolved_effect ∷ [];
      })
      read a.task a.attempt_id

-- `unfinished_attempts`: the attempts that have not ended, the oldest first, each with its task and
-- its launch.
unfoldable pub unfinished_of : Store → List AttemptRow → List UnfinishedAttempt
unfinished_of s [] = []
unfinished_of s (a ∷ rows) =
    let rest = unfinished_of s rows in
    elim (task_row s a.task_id a.revision) [
      | none ↦ rest
      | some t ↦
          if a.state == terminal
          then rest
          else (rest
              ++ (record {
                task = t.spec;
                attempt_id = a.attempt_id;
                state = a.state;
                launch = launch_of s a.attempt_id;
              }
                  ∷ []))
    ]

abbrev pub unfinished_attempts : Store → List UnfinishedAttempt
unfinished_attempts s = unfinished_of s s.attempts

abbrev pub is_stale : StoreError → Bool
is_stale (recovery_observation_stale id) = true
is_stale _ = false

-- `meanwhile` is what other writers do to the store between the turn of the attempt before, or the
-- read of the attempts, and the commit of this one.
module _ (platform : Platform) (read : SessionModel)
    (observe : UnfinishedAttempt → ExecutionObservation)
    (meanwhile : UnfinishedAttempt → Store → Store) (fresh : AttemptId → ResultId) where
  -- The loop: what it returns, with what the commits before an error have left in the store.
  unfoldable pub reconcile_each :
      Store
      → List UnfinishedAttempt
      → List ResultEnvelope
      → Store × Result StoreError (List ResultEnvelope)
  reconcile_each s [] recovered = (s, ok recovered)
  reconcile_each s (a ∷ rest) recovered =
      let seen = observe a in
      let now = meanwhile a s in
      let r = lost_result read (fresh a.attempt_id) a seen in
      let skipped = reconcile_each now rest recovered in
      if exactly_alive seen a.launch
      then skipped
      else elim (commit_recovered_lost platform now a r) [
        | ok p ↦ reconcile_each p.1 rest (recovered ++ (r ∷ []))
        | err e ↦ if is_stale e then skipped else (now, err e)
      ]

  unfoldable pub reconcile_after_restart : Store → Store × Result StoreError (List ResultEnvelope)
  reconcile_after_restart s = reconcile_each s (unfinished_attempts s) []
