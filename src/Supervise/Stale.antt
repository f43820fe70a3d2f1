-- ===== src/Supervise/Stale.antt =====
-- The commit of a lost result is stale only where its observation is.
use brgr.Base.{
  Bool, Option, Option-cases, Result-cases, String, arith, bind-fails, err, false, find?, inl, inr,
  list_eq, nat_eq, none, ok, option_eq, some, string_eq, true, ◌&&◌, ◌==◌, ◌≡◌, ◌≢◌,
}
use brgr.Protocol.{
  AttemptId, AttemptState, OwnerId, ResultEnvelope, ResultId, RouteObservation, lost, outcome_eq,
  state_eq,
}
use brgr.Store.{
  CompletionRow, Platform, Store, recovery_observation_stale, run_state_eq, takeover_state_eq,
}
use brgr.Store.Attempts.{result_for}
use brgr.Store.Attempts.Writes.{
  PreparedTerminal, complete, insert_completion_notification, insert_inbox_item, insert_result,
  insert_route_observation, insert_run_completion, insert_terminal_event, write_terminal,
}
use brgr.Store.Attempts.Terminal.{
  UnfinishedAttempt, commit_guarded, commit_once, commit_recovered_lost, prepare_terminal_result,
  task_of_attempt, terminal_attempt, validate_recovery, validate_schema, validate_terminal_result,
  verify_candidate, verify_replayed_observation,
}

complete-fresh :
    (b : Bool) (s : Store) (r : ResultEnvelope) (id : AttemptId)
    → complete b s r ≢ err (recovery_observation_stale id)
unfolding complete insert_run_completion
complete-fresh false s r id h = absurd (ground arith)
complete-fresh true s r id h =
    elim (Option-cases (
      find? (λ (c : CompletionRow). c.task_id == r.task_id && c.revision == r.revision)
        s.run_completions)) [
          | inl new ↦ absurd (ground arith)
          | inr (c, old) ↦ absurd (ground arith)
        ]

observation-fresh :
    (s : Store) (id : ResultId) (o : Option (String × RouteObservation)) (at : AttemptId)
    → insert_route_observation s id o ≢ err (recovery_observation_stale at)
unfolding insert_route_observation
observation-fresh s id none at h = absurd (ground arith)
observation-fresh s id (some p) at h = absurd (ground arith)

replay-fresh :
    (s : Store) (id : ResultId) (o : Option (String × RouteObservation)) (at : AttemptId)
    → verify_replayed_observation s id o ≢ err (recovery_observation_stale at)
unfolding verify_replayed_observation
replay-fresh s id none at h = absurd (ground arith)
replay-fresh s id (some p) at h = absurd (ground arith)

write-fresh :
    (s : Store) (owner : OwnerId) (r : ResultEnvelope) (ready : PreparedTerminal) (a : AttemptState)
    (b : Bool) (id : AttemptId)
    → write_terminal s owner r ready a b ≢ err (recovery_observation_stale id)
unfolding write_terminal insert_result insert_inbox_item insert_completion_notification
    insert_terminal_event
write-fresh s owner r ready a b id =
    bind-fails (insert_result s r ready.digest) _ (recovery_observation_stale id)
      (λ h. absurd (ground arith))
      (λ s1.
        bind-fails (insert_route_observation s1 r.result_id ready.observation) _ _
          (observation-fresh s1 r.result_id ready.observation id)
          (λ s2.
            bind-fails (insert_inbox_item s2 owner r.result_id) _ _ (λ h. absurd (ground arith))
              (λ s3.
                bind-fails (insert_completion_notification s3 owner r) _ _
                  (λ h. absurd (ground arith))
                  (λ s4.
                    bind-fails (complete b s4 r) _ _ (complete-fresh b s4 r id)
                      (λ s5 h. absurd (ground arith))))))

prepare-fresh :
    (p : Platform) (s : Store) (r : ResultEnvelope) (id : AttemptId)
    → r.outcome ≡ lost
    → prepare_terminal_result p s r ≢ err (recovery_observation_stale id)
unfolding prepare_terminal_result validate_terminal_result validate_schema verify_candidate
prepare-fresh p s r id is h = elim (Option-cases (task_of_attempt s r.attempt_id)) [
  | inl missing ↦ absurd (ground arith)
  | inr (found, known) ↦ absurd (ground arith)
]

-- A commit of a lost result is stale only when the observation is.
pub stale-only :
    (p : Platform) (s : Store) (o : UnfinishedAttempt) (r : ResultEnvelope) (id : AttemptId)
    → validate_recovery s (some o) ≡ ok tt
    → r.outcome ≡ lost
    → commit_recovered_lost p s o r ≢ err (recovery_observation_stale id)
unfolding commit_recovered_lost commit_guarded commit_once terminal_attempt
stale-only p s o r id current is h = elim (Result-cases (prepare_terminal_result p s r)) [
  | inr (x, bad) ↦ prepare-fresh p s r id is (ground arith)
  | inl (ready, made) ↦ elim (Option-cases (result_for s r.attempt_id)) [
    | inr (stored, old) ↦
        elim (Result-cases (verify_replayed_observation s r.result_id ready.observation)) [
          | inr (x, bad) ↦ replay-fresh s r.result_id ready.observation id (ground arith)
          | inl (tt, same) ↦ elim (Result-cases (complete true s r)) [
            | inr (x, bad) ↦ complete-fresh true s r id (ground arith)
            | inl (v, closed) ↦ absurd (ground arith)
          ]
        ]
    | inl new ↦ elim (Option-cases (task_of_attempt s r.attempt_id)) [
      | inl missing ↦ absurd (ground arith)
      | inr ((a, t), found) ↦
          elim (Result-cases (write_terminal s o.task.owner_id r ready a.state true)) [
            | inr (x, bad) ↦ write-fresh s o.task.owner_id r ready a.state true id (ground arith)
            | inl (v, written) ↦ absurd (ground arith)
          ]
    ]
  ]
]
