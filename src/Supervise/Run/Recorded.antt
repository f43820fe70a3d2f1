-- ===== src/Supervise/Run/Recorded.antt =====
-- Whatever a process does, its result is one that the state machine of the attempt takes.
use brgr.Base.{
  >>=-eq-ok, Bool-cases, List, Option, Option-cases, Result, Result-cases, String, [], arith, err,
  find?, inl, inr, list_eq, nat_beq_iff, nat_eq, none, not, ok, option_eq, refl, some, string_eq,
  subst, sym, true, ℕ, ◌&&◌, ◌+◌, ◌==◌, ◌≡◌,
}
use brgr.Protocol.{
  ArtifactRef, AttemptId, AttemptState, ResultEnvelope, ResultId, RouteObservation, TaskSpec,
  TerminalOutcome, cancel_requested, cancelled, collecting, failed, harness_session_log, outcome_eq,
  running, state_eq, terminal, unavailable,
}
use brgr.Rows.{EventRow, cancel_requested, collecting, direction_eq, kind_eq, running, terminal}
use brgr.Core.{Attempt, outcome_allowed, record_terminal, transition}
use brgr.Store.{Store, WriteOutcome, cancelled, failed, run_state_eq, running, takeover_state_eq}
use brgr.Store.Attempts.{compare_and_set}
use brgr.Supervise.{SessionModel, apply_session_model, has_model, result_for_attempt}
use brgr.Supervise.Run.{
  ExecutionOutput, Harness, Run, RunnerError, Workspace, candidate_result, collect,
  delegated_failure, delegates, event_kind, event_of, finish_execution_result, gave_result,
  observed, record_event, route_observation, supervised_transition, terminal_with_requested_logs,
  unsettled_worker_reason,
}

-- A result of this attempt, with an outcome that its state allows.
pub record Fits (a : Attempt) (r : ResultEnvelope) : Type 0 where
  pub task : r.task_id ≡ a.task.spec.task_id
  pub revision : r.revision ≡ a.task.spec.revision
  pub attempt : r.attempt_id ≡ a.id
  pub outcome : outcome_allowed a.state r.outcome ≡ true
  pub first : a.terminal_result ≡ none

Fits-recorded :
    (a : Attempt) (r : ResultEnvelope)
    → Fits a r
    → record_terminal a r ≡ ok (record a { state = terminal; terminal_result = some r })
unfolding record_terminal
Fits-recorded a r f = ground (
  arith,
  nat_beq_iff r.task_id a.task.spec.task_id,
  nat_beq_iff r.revision a.task.spec.revision,
  nat_beq_iff r.attempt_id a.id,
  f.task,
  f.revision,
  f.attempt,
  f.outcome,
  f.first,
)

stepped :
    (a b : Attempt) (next : AttemptState) → transition a next ≡ ok b → b ≡ record a { state = next }
unfolding transition
stepped a b next h = ground arith

event_attempts :
    (s u : Store) (e : EventRow) (w : WriteOutcome)
    → record_event s e ≡ ok (w, u)
    → u.attempts ≡ s.attempts
unfolding record_event
event_attempts s u e w h = elim (Option-cases (find? (λ x. x.event_id == e.event_id) s.events)) [
  | inl new ↦ ground arith
  | inr (old, there) ↦ ground arith
]

-- A transition that goes through has gone through in memory and in the store.
pub transition-both :
    (event_ids : ℕ → ℕ) (run after_run : Run) (next : AttemptState)
    → supervised_transition event_ids run next ≡ ok after_run
    → (after_run.attempt ≡ record run.attempt { state = next })
      × ((s : Store) × (compare_and_set run.held run.attempt.id run.attempt.state next ≡ ok s)
          × (after_run.held.attempts ≡ s.attempts))
unfolding supervised_transition
transition-both event_ids run after_run next h = elim (Result-cases (transition run.attempt next)) [
  | inr (e, bad) ↦ absurd (ground arith)
  | inl (b, moved) ↦
      elim (Result-cases (compare_and_set run.held run.attempt.id run.attempt.state next)) [
        | inr (e, bad) ↦ absurd (ground arith)
        | inl (s, written) ↦ elim (Option-cases (event_kind next)) [
          | inl none_ ↦ absurd (ground arith)
          | inr (kind, known) ↦
              let e = event_of event_ids b.id (run.producer_seq + 1) kind in
              elim (Result-cases (record_event s e)) [
                | inr (x, bad) ↦ absurd (ground arith)
                | inl ((w, u), told) ↦
                    let is = stepped run.attempt b next moved in
                    let rows = event_attempts s u e w told in
                    (ground arith, (s, written, ground arith))
              ]
        ]
      ]
]

logs-fit :
    (w : Workspace) (fresh : AttemptId → ResultId) (event_ids : ℕ → ℕ) (a : Attempt)
    (outcome : TerminalOutcome) (reason : String) (o : Option ExecutionOutput)
    → outcome_allowed a.state outcome ≡ true
    → a.terminal_result ≡ none
    → Fits a (terminal_with_requested_logs w fresh event_ids a.task.spec a.id outcome reason o)
unfolding terminal_with_requested_logs result_for_attempt
logs-fit w fresh event_ids a outcome reason o allows first = record {
  task = refl;
  revision = refl;
  attempt = refl;
  outcome = allows;
  first = first;
}

delegated-Fits :
    (w : Workspace) (fresh : AttemptId → ResultId) (event_ids : ℕ → ℕ) (a : Attempt)
    (o : Option ExecutionOutput)
    → a.state ≡ running
    → a.terminal_result ≡ none
    → Fits a (delegated_failure w fresh event_ids a.task.spec a.id o)
unfolding delegated_failure terminal_with_requested_logs result_for_attempt outcome_allowed
delegated-Fits w fresh event_ids a o runs first = record {
  task = ground arith;
  revision = ground arith;
  attempt = ground arith;
  outcome = ground arith;
  first = first;
}

candidate-Fits :
    (w : Workspace) (fresh : AttemptId → ResultId) (event_ids : ℕ → ℕ) (a : Attempt)
    (o : ExecutionOutput) (artifact : ArtifactRef) (extra : List ArtifactRef × List String)
    (obs : Option RouteObservation)
    → a.state ≡ collecting
    → a.terminal_result ≡ none
    → Fits a (
        observed w fresh event_ids obs
          (candidate_result w fresh event_ids a.task.spec a.id o artifact extra))
unfolding result_for_attempt outcome_allowed
candidate-Fits w fresh event_ids a o artifact extra none state first = record {
  task = refl;
  revision = refl;
  attempt = refl;
  outcome = ground arith;
  first = first;
}
candidate-Fits w fresh event_ids a o artifact extra (some x) state first = record {
  task = refl;
  revision = refl;
  attempt = refl;
  outcome = ground arith;
  first = first;
}

-- A result seen after a transition fits the attempt that the transition left.
collect-Fits :
    (w : Workspace) (fresh : AttemptId → ResultId) (event_ids : ℕ → ℕ) (run after_run : Run)
    (o : ExecutionOutput) (r : ResultEnvelope)
    → run.attempt.terminal_result ≡ none
    → collect w fresh event_ids run.attempt.task.spec run o ≡ ok (r, after_run)
    → Fits after_run.attempt r
unfolding collect outcome_allowed
collect-Fits w fresh event_ids run after_run o r first h =
    let spec = run.attempt.task.spec in
    let (mid, moved, rest) = >>=-eq-ok (supervised_transition event_ids run collecting) _ h in
    let is = (transition-both event_ids run mid collecting moved).0 in
    let at : Attempt = record run.attempt { state = collecting } in
    elim (Option-cases (unsettled_worker_reason mid.held spec.task_id run.attempt.id)) [
      | inr (reason, held_back) ↦
          let state : after_run.attempt ≡ at = ground arith in
          let result : r
              ≡ terminal_with_requested_logs w fresh event_ids spec run.attempt.id failed
                  (w.reason_text reason) (some o) =
            ground arith in
          rw (state, result)
            (logs-fit w fresh event_ids at failed (w.reason_text reason) (some o) refl first)
      | inl settled ↦ elim (Result-cases (w.seal_requested_evidence spec o)) [
        | inr (reason, bad) ↦
            let state : after_run.attempt ≡ at = ground arith in
            let result : r
                ≡ terminal_with_requested_logs w fresh event_ids spec run.attempt.id failed reason
                    (some o) =
              ground arith in
            rw (state, result) (logs-fit w fresh event_ids at failed reason (some o) refl first)
        | inl (extra, sealed) ↦ elim (Result-cases (w.seal_result spec o.result)) [
          | inr (e, bad) ↦ absurd (ground arith)
          | inl (artifact, kept_) ↦
              let obs = route_observation w fresh event_ids o.observed_model in
              let state : after_run.attempt ≡ at = ground arith in
              let result : r
                  ≡ observed w fresh event_ids obs
                      (candidate_result w fresh event_ids spec run.attempt.id o artifact extra) =
                ground arith in
              rw (state, result)
                (candidate-Fits w fresh event_ids at o artifact extra obs refl first)
        ]
      ]
    ]

finish-Fits :
    (w : Workspace) (fresh : AttemptId → ResultId) (event_ids : ℕ → ℕ) (h : Harness)
    (run after_run : Run) (e : Result RunnerError ExecutionOutput) (r : ResultEnvelope)
    → run.attempt.state ≡ running
    → run.attempt.terminal_result ≡ none
    → finish_execution_result w fresh event_ids run.attempt.task.spec h run e ≡ ok (r, after_run)
    → Fits after_run.attempt r
unfolding finish_execution_result outcome_allowed result_for_attempt
finish-Fits w fresh event_ids h run after_run (err e) r runs first done =
    let a = run.attempt in
    let state : after_run.attempt ≡ a = ground arith in
    elim (Bool-cases (delegates h)) [
      | inl apart ↦
          let result : r ≡ delegated_failure w fresh event_ids a.task.spec a.id none =
            ground arith in
          rw (state, result) (delegated-Fits w fresh event_ids a none runs first)
      | inr ours ↦
          let result : r
              ≡ result_for_attempt (fresh a.id) a.task.spec a.id failed [] (some (w.error_text e)) =
            ground arith in
          rw (state, result)
            (record {
              task = refl;
              revision = refl;
              attempt = refl;
              outcome = ground arith;
              first = first;
            })
    ]
finish-Fits w fresh event_ids h run after_run (ok o) r runs first done =
    let a = run.attempt in
    elim (Bool-cases (delegates h && not (not o.cancelled && gave_result h o))) [
      | inl apart ↦
          let state : after_run.attempt ≡ a = ground arith in
          let result : r ≡ delegated_failure w fresh event_ids a.task.spec a.id (some o) =
            ground arith in
          rw (state, result) (delegated-Fits w fresh event_ids a (some o) runs first)
      | inr ours ↦ elim (Bool-cases o.cancelled) [
        | inl stopped ↦ elim (Result-cases (supervised_transition event_ids run cancel_requested)) [
          | inr (x, bad) ↦ absurd (ground arith)
          | inl (mid, moved) ↦
              let at : Attempt = record a { state = cancel_requested } in
              let is = (transition-both event_ids run mid cancel_requested moved).0 in
              let state : after_run.attempt ≡ at = ground arith in
              let result : r
                  ≡ terminal_with_requested_logs w fresh event_ids a.task.spec a.id cancelled
                      "cancellation requested by owner" (some o) =
                ground arith in
              rw (state, result)
                (logs-fit w fresh event_ids at cancelled "cancellation requested by owner" (some o)
                  refl first)
        ]
        | inr went_on ↦ elim (Bool-cases (gave_result h o)) [
          | inl gave ↦ collect-Fits w fresh event_ids run after_run o r first (ground arith)
          | inr nothing ↦
              let state : after_run.attempt ≡ a = ground arith in
              let result : r
                  ≡ terminal_with_requested_logs w fresh event_ids a.task.spec a.id failed
                      (w.failure_reason o) (some o) =
                ground arith in
              rw (state, result)
                (logs-fit w fresh event_ids a failed (w.failure_reason o) (some o) (ground arith)
                  first)
        ]
      ]
    ]

model-Fits :
    (a : Attempt) (r : ResultEnvelope) (read : SessionModel) (spec : TaskSpec) (id : AttemptId)
    → Fits a r
    → Fits a (apply_session_model r read spec id)
unfolding apply_session_model
model-Fits a r read spec id f = elim (Bool-cases (has_model r.route_observation)) [
  | inl named ↦
      let same : apply_session_model r read spec id ≡ r = ground arith in
      subst (Fits a) (sym same) f
  | inr silent ↦ elim (Option-cases (read spec id)) [
    | inl none_ ↦
        let same : apply_session_model r read spec id ≡ r = ground arith in
        subst (Fits a) (sym same) f
    | inr (model, known) ↦
        let told : ResultEnvelope = record r {
          route_observation = some (record {
            model = some model;
            model_source = harness_session_log;
            effort = none;
            effort_source = unavailable;
          });
        } in
        let same : apply_session_model r read spec id ≡ told = ground arith in
        subst (Fits a) (sym same) (record {
          task = f.task;
          revision = f.revision;
          attempt = f.attempt;
          outcome = f.outcome;
          first = f.first;
        })
  ]
]

-- However the process of a running attempt ends, with a result, without one, cancelled, timed out or
-- never spawned, and whatever its children, questions and files are: the result that is made of it,
-- with the model of the session log, is one that the attempt's state machine records.
pub finish-recorded :
    (w : Workspace) (fresh : AttemptId → ResultId) (event_ids : ℕ → ℕ) (h : Harness)
    (run after_run : Run) (e : Result RunnerError ExecutionOutput) (r : ResultEnvelope)
    (read : SessionModel) (id : AttemptId)
    → run.attempt.state ≡ running
    → run.attempt.terminal_result ≡ none
    → finish_execution_result w fresh event_ids run.attempt.task.spec h run e ≡ ok (r, after_run)
    → record_terminal after_run.attempt (apply_session_model r read run.attempt.task.spec id)
      ≡ ok (record after_run.attempt {
        state = terminal;
        terminal_result = some (apply_session_model r read run.attempt.task.spec id);
      })
finish-recorded w fresh event_ids h run after_run e r read id runs first done =
    Fits-recorded after_run.attempt (apply_session_model r read run.attempt.task.spec id) (
      model-Fits after_run.attempt r read run.attempt.task.spec id
        (finish-Fits w fresh event_ids h run after_run e r runs first done))
