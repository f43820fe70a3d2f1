-- ===== src/Store/Attempts/Terminal.antt =====
-- src/attempt.rs and src/lib.rs: the commit of the one terminal result of an attempt, with the
-- owner's inbox item, the notice, the completion of the run and the terminal event.
use brgr.Base.{
  Bool, List, Option, Result, String, [], err, false, find?, if◌then◌else◌, is_empty, list_eq,
  nat_eq, none, not, ok, ok_or, option_beq, option_eq, refuse, some, string_eq, true, ℕ, ◌&&◌, ◌==◌,
  ◌>>=◌, ◌>>◌, ◌||◌, ◌∷◌,
}
use brgr.Protocol.{
  ArtifactRef, AttemptId, AttemptState, OwnerId, ResultEnvelope, ResultId, RouteObservation,
  TaskSpec, candidate, lost, outcome_eq, schema_v1, state_eq, terminal, unsupported_schema,
}
use brgr.Store.{
  AttemptRow, LaunchIntent, Platform, Store, StoreError, TaskRow, WriteOutcome, already_applied,
  attempt_not_found, attempt_result_mismatch, attempt_transition_invalid,
  candidate_requires_artifact, inserted, protocol, recovery_observation_stale,
  recovery_requires_lost, result_owner_mismatch, route_observation_conflict, run_state_eq,
  takeover_state_eq, task_spec_changed_during_commit, terminal_result_conflict,
}
use brgr.Store.Attempts.Writes.{PreparedTerminal, complete, sealed, write_terminal}
use brgr.Store.Attempts.{
  attempt_of, attempt_state_by_id, launch_of, result_for, same_launch, task_row,
}

unfoldable pub validate_schema : String → Result StoreError (Unit {0})
validate_schema schema = refuse (not (schema == schema_v1)) (protocol (unsupported_schema schema))

unfoldable pub validate_terminal_result : ResultEnvelope → Result StoreError (Unit {0})
validate_terminal_result r = do
  validate_schema r.schema
  refuse (r.outcome == candidate && is_empty r.artifacts) candidate_requires_artifact

pub record UnfinishedAttempt : Type 0 where
  pub task : TaskSpec
  pub attempt_id : AttemptId
  pub state : AttemptState
  pub launch : Option LaunchIntent

-- attempts a JOIN tasks t
unfoldable pub task_of_attempt : Store → AttemptId → Option (AttemptRow × TaskRow)
task_of_attempt s id = elim (attempt_of s id) [
  | none ↦ none
  | some a ↦ elim (task_row s a.task_id a.revision) [ none ↦ none | some t ↦ some (a, t) ]
]

unfoldable pub terminal_attempt : Store → AttemptId → Result StoreError (AttemptRow × TaskRow)
terminal_attempt s id = ok_or (task_of_attempt s id) (attempt_not_found id)

abbrev pub verify_all :
    (ArtifactRef → ℕ → Result StoreError (Unit {0}))
    → ℕ
    → List ArtifactRef
    → Result StoreError (Unit {0})
verify_all read bound [] = ok tt
verify_all read bound (a ∷ rest) = read a bound >> verify_all read bound rest

-- `verify_candidate_artifacts`
unfoldable pub verify_candidate :
    (ArtifactRef → ℕ → Result StoreError (Unit {0}))
    → ResultEnvelope
    → TaskSpec
    → Result StoreError (Unit {0})
verify_candidate read r spec =
    if r.outcome == candidate
    then verify_all read spec.artifact_contract.max_bytes r.artifacts
    else ok tt

-- `validate_recovery_observation`
unfoldable pub validate_recovery : Store → Option UnfinishedAttempt → Result StoreError (Unit {0})
validate_recovery s none = ok tt
validate_recovery s (some o) = do
  state ← attempt_state_by_id s o.attempt_id
  refuse
      (not (state == o.state) || not (option_beq same_launch (launch_of s o.attempt_id) o.launch))
      (recovery_observation_stale o.attempt_id)

unfoldable pub observation_of : Store → ResultId → Option String
observation_of s id = elim (find? (λ o. o.result_id == id) s.route_observations) [
  | none ↦ none
  | some o ↦ some o.observation_digest
]

unfoldable pub verify_replayed_observation :
    Store → ResultId → Option (String × RouteObservation) → Result StoreError (Unit {0})
verify_replayed_observation s id none = ok tt
verify_replayed_observation s id (some p) =
    refuse (not (observation_of s id == some p.0)) (route_observation_conflict id)

module _ (platform : Platform) where
  pub observed_pair : Option RouteObservation → Option (String × RouteObservation)
  observed_pair none = none
  observed_pair (some o) = some (platform.observation_digest o, o)

  unfoldable pub prepare_terminal_result :
      Store → ResultEnvelope → Result StoreError PreparedTerminal
  unfolding observed_pair
  prepare_terminal_result s r = do
    validate_terminal_result r
    found ← ok_or (task_of_attempt s r.attempt_id) (attempt_not_found r.attempt_id)
    verify_candidate platform.read_verified r found.1.spec
    ok (record {
      digest = platform.envelope_digest (sealed r);
      observation = observed_pair r.route_observation;
      verified_spec = platform.spec_text found.1.spec;
    })

  unfoldable pub commit_once :
      Store
      → OwnerId
      → ResultEnvelope
      → PreparedTerminal
      → Option UnfinishedAttempt
      → Bool
      → Result StoreError (WriteOutcome × Store)
  commit_once s owner r ready observed complete_run = do
    validate_recovery s observed
    elim (result_for s r.attempt_id) [
      | some stored ↦
          if stored.result_id == r.result_id && stored.result_digest == ready.digest
          then (do
            verify_replayed_observation s r.result_id ready.observation
            u ← complete complete_run s r
            ok (already_applied, u))
          else err (terminal_result_conflict r.attempt_id)
      | none ↦ do
        found ← terminal_attempt s r.attempt_id
        refuse (not (found.0.task_id == r.task_id) || not (found.0.revision == r.revision))
            attempt_result_mismatch
        refuse (not (found.1.owner_id == owner)) result_owner_mismatch
        refuse (found.0.state == terminal) (attempt_transition_invalid found.0.state terminal)
        refuse (not (platform.spec_text found.1.spec == ready.verified_spec))
            task_spec_changed_during_commit
        u ← write_terminal s owner r ready found.0.state complete_run
        ok (inserted, u)
    ]

  -- `commit_terminal_result_guarded`, in one piece: nothing comes between the two halves.
  unfoldable pub commit_guarded :
      Store
      → OwnerId
      → ResultEnvelope
      → Option UnfinishedAttempt
      → Bool
      → Result StoreError (WriteOutcome × Store)
  commit_guarded s owner r observed complete_run = do
    ready ← prepare_terminal_result s r
    commit_once s owner r ready observed complete_run

  unfoldable pub commit_terminal_result :
      Store → OwnerId → ResultEnvelope → Result StoreError (WriteOutcome × Store)
  commit_terminal_result s owner r = commit_guarded s owner r none false

  unfoldable pub commit_terminal_result_final :
      Store → OwnerId → ResultEnvelope → Result StoreError (WriteOutcome × Store)
  commit_terminal_result_final s owner r = commit_guarded s owner r none true

  unfoldable pub commit_recovered_lost :
      Store → UnfinishedAttempt → ResultEnvelope → Result StoreError (WriteOutcome × Store)
  commit_recovered_lost s observed r = do
    refuse (not (r.outcome == lost)) recovery_requires_lost
    commit_guarded s observed.task.owner_id r (some observed) true
