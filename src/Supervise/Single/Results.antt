-- ===== src/Supervise/Single/Results.antt =====
-- What a run writes before its commit leaves the results of the store alone.
use brgr.Base.{
  >>=-eq-ok, Bool-cases, Option, Option-cases, Result, Result-cases, String, ap, arith, err, inl,
  inr, map_err, none, not, ok, ok_or, some, sym, ℕ, ◌&&◌, ◌+◌, ◌∙◌, ◌≡◌,
}
use brgr.Protocol.{
  AttemptId, AttemptState, ResultEnvelope, ResultId, TaskId, TaskSpec, cancel_requested, collecting,
  running, starting,
}
use brgr.Rows.{EventRow, cancel_requested, collecting, running, starting}
use brgr.Core.{invalid_transition, transition}
use brgr.Store.{Platform, RunnerIdentity, Store, WriteOutcome, running}
use brgr.Store.Attempts.{
  attach, claim_attempt, compare_and_set, grant_pre_spawn_retry, insert_attempt,
  record_launch_intent, record_runner_identity, set_attempt, set_attempt_state,
}
use brgr.Store.Tasks.{
  assert_author, first_task, insert_edge, insert_task, record_idempotency, record_in_transaction,
  record_task,
}
use brgr.Supervise.Run.{
  ExecutionOutput, Harness, Run, RunnerError, Workspace, collect, core, delegates, event_kind,
  event_of, finish_execution_result, gave_result, record_event, store, supervised_transition,
  unsettled_worker_reason,
}
use brgr.Supervise.Single.{Control, record_identity}

claim_results :
    (s u : Store) (task : TaskId) (n : ℕ) (id : AttemptId)
    → claim_attempt s task n id ≡ ok u
    → u.results ≡ s.results
unfolding claim_attempt insert_attempt
claim_results s u task n id h = ground arith

launch_results :
    (s u : Store) (id : AttemptId) (nonce : String) (epoch : ℕ)
    → record_launch_intent s id nonce epoch ≡ ok u
    → u.results ≡ s.results
unfolding record_launch_intent
launch_results s u id nonce epoch h = ground arith

identity_results :
    (s u : Store) (id : AttemptId) (nonce : String) (i : Option RunnerIdentity)
    → record_identity s id nonce i ≡ ok u
    → u.results ≡ s.results
unfolding record_runner_identity attach
identity_results s u id nonce none h = ground arith
identity_results s u id nonce (some i) h = ground arith

event_results :
    (s u : Store) (e : EventRow) (w : WriteOutcome)
    → record_event s e ≡ ok (w, u)
    → u.results ≡ s.results
unfolding record_event
event_results s u e w h = ground arith

pub state_results :
    (s u : Store) (id : AttemptId) (from to : AttemptState)
    → compare_and_set s id from to ≡ ok u
    → u.results ≡ s.results
unfolding compare_and_set set_attempt_state set_attempt
state_results s u id from to h = ground arith

pub transition_results :
    (event_ids : ℕ → ℕ) (run next_run : Run) (next : AttemptState)
    → supervised_transition event_ids run next ≡ ok next_run
    → next_run.held.results ≡ run.held.results
unfolding supervised_transition
transition_results event_ids run next_run next h =
    let (moved, legal_, h1) = >>=-eq-ok (map_err core (transition run.attempt next)) _ h in
    let (s, set, h2) =
      >>=-eq-ok (map_err store (compare_and_set run.held run.attempt.id run.attempt.state next)) _
        h1 in
    let (kind, is, h3) =
      >>=-eq-ok (ok_or (event_kind next) (core (invalid_transition moved.state next))) _ h2 in
    let (told, noted, h4) =
      >>=-eq-ok
        (map_err store (record_event s (event_of event_ids moved.id (run.producer_seq + 1) kind))) _
        h3 in
    let first = state_results run.held s run.attempt.id run.attempt.state next (ground arith) in
    let last =
      event_results s told.1 (event_of event_ids moved.id (run.producer_seq + 1) kind) told.0
        (ground arith) in
    ground arith

pub task_results :
    (p : Platform) (s u : Store) (spec : TaskSpec) (digest : String) (w : WriteOutcome)
    → record_task p s spec digest none none ≡ ok (w, u)
    → u.results ≡ s.results
unfolding record_task record_in_transaction assert_author record_idempotency first_task insert_task
    insert_edge
task_results p s u spec digest w h = ground arith

pub grant_results :
    (s u : Store) (id : AttemptId) → grant_pre_spawn_retry s id ≡ ok u → u.results ≡ s.results
unfolding grant_pre_spawn_retry
grant_results s u id h = ground arith

pub claimed_results :
    (event_ids : ℕ → ℕ) (s c : Store) (task : TaskId) (n : ℕ) (id : AttemptId) (run started : Run)
    → claim_attempt s task n id ≡ ok c
    → run.held ≡ c
    → supervised_transition event_ids run starting ≡ ok started
    → started.held.results ≡ s.results
claimed_results event_ids s c task n id run started claimed held moved =
    transition_results event_ids run started starting moved
    ∙ ap (λ z. z.results) held
    ∙ claim_results s c task n id claimed

pub started_results :
    (event_ids : ℕ → ℕ) (run started : Run) (s1 s2 : Store) (c : Control)
    → record_launch_intent run.held c.attempt_id c.nonce c.epoch ≡ ok s1
    → record_identity s1 c.attempt_id c.nonce c.identity ≡ ok s2
    → supervised_transition event_ids (record run { held = s2 }) running ≡ ok started
    → started.held.results ≡ run.held.results
started_results event_ids run started s1 s2 c launched identified moved =
    transition_results event_ids (record run { held = s2 }) started running moved
    ∙ identity_results s1 s2 c.attempt_id c.nonce c.identity identified
    ∙ launch_results run.held s1 c.attempt_id c.nonce c.epoch launched

module _ (w : Workspace) (fresh : AttemptId → ResultId) (event_ids : ℕ → ℕ) where
  collect_results :
      (spec : TaskSpec) (run after_run : Run) (o : ExecutionOutput) (r : ResultEnvelope)
      → collect w fresh event_ids spec run o ≡ ok (r, after_run)
      → after_run.held.results ≡ run.held.results
  unfolding collect
  collect_results spec run after_run o r h =
      let (mid, moved, h1) = >>=-eq-ok (supervised_transition event_ids run collecting) _ h in
      let rows = transition_results event_ids run mid collecting moved in
      let same : mid ≡ after_run =
        elim (Option-cases (unsettled_worker_reason mid.held spec.task_id run.attempt.id)) [
          | inr (reason, held_back) ↦ ground arith
          | inl settled ↦ elim (Result-cases (w.seal_requested_evidence spec o)) [
            | inr (reason, bad) ↦ ground arith
            | inl (extra, sealed) ↦ elim (Result-cases (w.seal_result spec o.result)) [
              | inr (e, bad) ↦ absurd (ground arith)
              | inl (artifact, kept_) ↦ ground arith
            ]
          ]
        ] in
      ap (λ z. z.held.results) (sym same) ∙ rows

  pub finish_results :
      (spec : TaskSpec) (h : Harness) (run after_run : Run) (e : Result RunnerError ExecutionOutput)
      (r : ResultEnvelope)
      → finish_execution_result w fresh event_ids spec h run e ≡ ok (r, after_run)
      → after_run.held.results ≡ run.held.results
  unfolding finish_execution_result
  finish_results spec h run after_run (err e) r done = elim (Bool-cases (delegates h)) [
    | inl apart ↦ let same : run ≡ after_run = ground arith in ap (λ z. z.held.results) (sym same)
    | inr ours ↦ let same : run ≡ after_run = ground arith in ap (λ z. z.held.results) (sym same)
  ]
  finish_results spec h run after_run (ok o) r done =
      elim (Bool-cases (delegates h && not (not o.cancelled && gave_result h o))) [
        | inl apart ↦
            let same : run ≡ after_run = ground arith in ap (λ z. z.held.results) (sym same)
        | inr ours ↦ elim (Bool-cases o.cancelled) [
          | inl stopped ↦
              elim (Result-cases (supervised_transition event_ids run cancel_requested)) [
                | inr (x, refused) ↦ absurd (ground arith)
                | inl (mid, moved) ↦
                    let same : mid ≡ after_run = ground arith in
                    ap (λ z. z.held.results) (sym same)
                    ∙ transition_results event_ids run mid cancel_requested moved
              ]
          | inr went_on ↦ elim (Bool-cases (gave_result h o)) [
            | inl gave ↦ collect_results spec run after_run o r (ground arith)
            | inr nothing ↦
                let same : run ≡ after_run = ground arith in ap (λ z. z.held.results) (sym same)
          ]
        ]
      ]
