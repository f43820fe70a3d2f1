-- ===== src/Supervise/Recover.antt =====
-- src/lib.rs: `recover_external_report`, which settles an attempt whose external session came back
-- with a report after its collector was gone.
use brgr.Base.{
  >>=-eq-ok, Bool, Bool-cases, List, Option, Option-cases, Result, Result-cases, String, [], ap,
  arith, err, false, find?, if◌then◌else◌, inl, inr, is_empty, list_eq, map_err, nat_eq, none, not,
  ok, ok_or, option_eq, refl, refuse, some, string_eq, subst, sym, true, ℕ, ◌&&◌, ◌==◌, ◌>>=◌, ◌>>◌,
  ◌∙◌, ◌∷◌, ◌≡◌, ◌⊎◌,
}
use brgr.Protocol.{
  ArtifactRef, AttemptId, AttemptState, ResultEnvelope, ResultId, TaskId, TaskSpec, blocked,
  candidate, collecting, failed, outcome_eq, running, state_eq,
}
use brgr.Store.{
  Platform, Store, StoreError, attempt_not_found, blocked, failed, no_result_yet, run_state_eq,
  running, takeover_state_eq,
}
use brgr.Store.Settle.{latest_result_of}
use brgr.Store.Attempts.{attempt_state_by_id, compare_and_set}
use brgr.Store.Attempts.Terminal.{commit_guarded, commit_terminal_result_final}
use brgr.Store.Attempts.Rows.Digested.{IsDigested, Stored, commit_guarded-Stored, same-IsDigested}
use brgr.Store.Delegation.{max_revision}
use brgr.Store.Messages.{is_some}
use brgr.Supervise.{
  SessionModel, apply_session_model, has_model, result_for_attempt, unfinished_attempts,
}
use brgr.Supervise.Run.{
  ExecutionOutput, SupervisorError, Unsettled, Workspace, store, unsettled_worker_reason,
}
use brgr.Supervise.Single.Results.{state_results}

-- `latest_result` of the store.
unfoldable pub latest_result : Store → TaskId → Result StoreError ResultEnvelope
latest_result s task = elim (max_revision s.tasks task) [
  | none ↦ err (no_result_yet task)
  | some n ↦ elim (latest_result_of s task n) [
    | none ↦ err (no_result_yet task)
    | some r ↦ ok r.envelope
  ]
]

abbrev pub known_report : AttemptId → Result StoreError ResultEnvelope → Option ResultEnvelope
known_report attempt (err e) = none
known_report attempt (ok r) = if r.attempt_id == attempt then some r else none

abbrev pub may_report : AttemptState → Bool
may_report running = true
may_report collecting = true
may_report blocked = true
may_report _ = false

-- The output that stands for a report.
abbrev pub output_of : List ℕ → ExecutionOutput
output_of report = record {
  exit_code = none;
  stdout = report;
  stderr = [];
  result = report;
  observed_model = none;
  timed_out = false;
  cancelled = false;
  output_truncated = false;
  slept_seconds = none;
}

-- The artifacts, the error and the unresolved effects of the result.
abbrev pub Contents : Type 0
Contents = List ArtifactRef × (Option String × List String)

unfoldable pub contents_of :
    Workspace → TaskSpec → List ℕ → Option Unsettled → Result SupervisorError Contents
contents_of w spec report settlement =
    if is_empty report
    then ok ([], (some "external session returned an empty report", []))
    else elim settlement [
      | some reason ↦ ok ([], (some (w.reason_text reason), []))
      | none ↦ do
        reference ← map_err store (w.seal_result spec report)
        elim (w.seal_requested_evidence spec (output_of report)) [
          | ok extra ↦ ok (reference ∷ extra.0, (none, extra.1))
          | err error ↦ ok (reference ∷ [], (some error, []))
        ]
    ]

abbrev pub recovered_result :
    SessionModel → ResultId → TaskSpec → AttemptId → Contents → ResultEnvelope
recovered_result read id spec attempt c =
    apply_session_model
      (record (result_for_attempt id spec attempt (if is_some c.1.0 then failed else candidate) c.0
        c.1.0) { unresolved_effects = c.1.1 })
      read spec attempt

model-outcome :
    (r : ResultEnvelope) (read : SessionModel) (spec : TaskSpec) (id : AttemptId)
    → (apply_session_model r read spec id).outcome ≡ r.outcome
unfolding apply_session_model
model-outcome r read spec id = elim (Bool-cases (has_model r.route_observation)) [
  | inl known ↦ ground arith
  | inr unknown_ ↦ elim (Option-cases (read spec id)) [
    | inl silent ↦ ground arith
    | inr (model, told) ↦ ground arith
  ]
]

model-attempt :
    (r : ResultEnvelope) (read : SessionModel) (spec : TaskSpec) (id : AttemptId)
    → (apply_session_model r read spec id).attempt_id ≡ r.attempt_id
unfolding apply_session_model
model-attempt r read spec id = elim (Bool-cases (has_model r.route_observation)) [
  | inl known ↦ ground arith
  | inr unknown_ ↦ elim (Option-cases (read spec id)) [
    | inl silent ↦ ground arith
    | inr (model, told) ↦ ground arith
  ]
]

recovered-outcome :
    (read : SessionModel) (id : ResultId) (spec : TaskSpec) (attempt : AttemptId) (c : Contents)
    → ((recovered_result read id spec attempt c).outcome
        ≡ (if is_some c.1.0 then failed else candidate))
      × ((recovered_result read id spec attempt c).attempt_id ≡ attempt)
unfolding result_for_attempt
recovered-outcome read id spec attempt c =
    (model-outcome _ read spec attempt, model-attempt _ read spec attempt)

collected_results :
    (s t : Store) (attempt : AttemptId) (state : AttemptState)
    → (if state == collecting
        then ok s
        else map_err store (compare_and_set s attempt state collecting))
      ≡ ok t
    → t.results ≡ s.results
collected_results s t attempt state h = elim (Bool-cases (state == collecting)) [
  | inl there ↦ let same : s ≡ t = ground arith in ap (λ z. z.results) (sym same)
  | inr before ↦ state_results s t attempt state collecting (ground arith)
]

empty-failed :
    (w : Workspace) (spec : TaskSpec) (report : List ℕ) (settlement : Option Unsettled)
    (c : Contents)
    → contents_of w spec report settlement ≡ ok c
    → (is_some c.1.0 ≡ true) ⊎ (is_empty report ≡ false)
unfolding contents_of
empty-failed w spec report settlement c h = elim (Bool-cases (is_empty report)) [
  | inl empty ↦
      let made : ([], (some "external session returned an empty report", [])) ≡ c = ground arith in
      inl (subst (λ x. is_some x.1.0 ≡ true) made refl)
  | inr given ↦ inr given
]

-- The latest result of the task is of the attempt.
abbrev pub IsReported : Store → TaskId → AttemptId → Type 0
IsReported s task attempt =
    (old : ResultEnvelope) × (latest_result s task ≡ ok old) × (old.attempt_id ≡ attempt)

module _ (p : Platform) (w : Workspace) (read : SessionModel) (fresh : AttemptId → ResultId) where
  -- An attempt without a result so far.
  unfoldable pub recover_unfinished :
      Store → TaskId → AttemptId → List ℕ → Result SupervisorError (ResultEnvelope × Store)
  recover_unfinished s task attempt report = do
    found ←
        ok_or
          (find? (λ a. a.task.task_id == task && a.attempt_id == attempt) (unfinished_attempts s))
          (store (attempt_not_found attempt))
    state ← map_err store (attempt_state_by_id s attempt)
    refuse (not (may_report state)) (store (attempt_not_found attempt))
    t ←
        (if state == collecting
          then ok s
          else map_err store (compare_and_set s attempt state collecting))
    contents ← contents_of w found.task report (unsettled_worker_reason t task attempt)
    let r = recovered_result read (fresh attempt) found.task attempt contents
    done ← map_err store (commit_terminal_result_final p t found.task.owner_id r)
    ok (r, done.1)

  unfoldable pub recover_external_report :
      Store → TaskId → AttemptId → List ℕ → Result SupervisorError (ResultEnvelope × Store)
  recover_external_report s task attempt report =
      elim (known_report attempt (latest_result s task)) [
        | some existing ↦ ok (existing, s)
        | none ↦ recover_unfinished s task attempt report
      ]

  unfinished-Stored :
      (s u : Store) (task : TaskId) (attempt : AttemptId) (report : List ℕ) (q : ResultEnvelope)
      → IsDigested p s
      → recover_unfinished s task attempt report ≡ ok (q, u)
      → Stored p u q × (q.attempt_id ≡ attempt) × ((q.outcome ≡ failed) ⊎ (is_empty report ≡ false))
  unfolding recover_unfinished commit_terminal_result_final
  unfinished-Stored s u task attempt report q rows h =
      let (found, listed, h1) =
        >>=-eq-ok
          (ok_or
            (find? (λ a. a.task.task_id == task && a.attempt_id == attempt) (unfinished_attempts s))
            (store (attempt_not_found attempt)))
          _ h in
      let (state, is, h2) = >>=-eq-ok (map_err store (attempt_state_by_id s attempt)) _ h1 in
      let (x, may, h3) =
        >>=-eq-ok (refuse (not (may_report state)) (store (attempt_not_found attempt))) _ h2 in
      let (t, moved, h4) =
        >>=-eq-ok
          (if state == collecting
            then ok s
            else map_err store (compare_and_set s attempt state collecting))
          _ h3 in
      let (c, made, h5) =
        >>=-eq-ok (contents_of w found.task report (unsettled_worker_reason t task attempt)) _ h4 in
      let r = recovered_result read (fresh attempt) found.task attempt c in
      let before = same-IsDigested p s t (collected_results s t attempt state moved) rows in
      elim (Result-cases (commit_guarded p t found.task.owner_id r none true)) [
        | inr (e, bad) ↦ absurd (ground arith)
        | inl ((o, v), done) ↦
            let last : v ≡ u = ground arith in
            let same : r ≡ q = ground arith in
            let kept_ =
              subst (λ z. Stored p z r) last
                ((commit_guarded-Stored p t v found.task.owner_id r none true o before done).1) in
            let (outcome, own) = recovered-outcome read (fresh attempt) found.task attempt c in
            let why : (r.outcome ≡ failed) ⊎ (is_empty report ≡ false) =
              elim (empty-failed w found.task report (unsettled_worker_reason t task attempt) c
                made) [ inl names_error ↦ inl (outcome ∙ ground arith) | inr given ↦ inr given ] in
            subst
              (λ z.
                Stored p u z
                × (z.attempt_id ≡ attempt)
                × ((z.outcome ≡ failed) ⊎ (is_empty report ≡ false)))
              same (kept_, own, why)
      ]

  -- An answer to an external report is the latest result of the task, with nothing written, when that
  -- one is of the attempt. When it is not, the answer is of the attempt and is in the store, in the
  -- row of the attempt, under its id and with an envelope of the same digest; and an empty report has
  -- only given a failed one. The rows of the store had their digests before.
  pub recover_external_report-Stored :
      (s u : Store) (task : TaskId) (attempt : AttemptId) (report : List ℕ) (r : ResultEnvelope)
      → IsDigested p s
      → recover_external_report s task attempt report ≡ ok (r, u)
      → ((latest_result s task ≡ ok r) × (r.attempt_id ≡ attempt) × (u ≡ s))
        ⊎ ((¬ (IsReported s task attempt))
            × Stored p u r
            × (r.attempt_id ≡ attempt)
            × ((r.outcome ≡ failed) ⊎ (is_empty report ≡ false)))
  unfolding recover_external_report
  recover_external_report-Stored s u task attempt report r rows h =
      elim (Result-cases (latest_result s task)) [
        | inr (e, none_) ↦
            let (its, own, why) = unfinished-Stored s u task attempt report r rows (ground arith) in
            inr ((λ there. absurd (ground (arith, there.1))), its, own, why)
        | inl (old, latest) ↦ elim (Bool-cases (old.attempt_id == attempt)) [
          | inl ours ↦
              let same : old ≡ r = ground arith in
              inl (
                latest ∙ ap ok same,
                ap (λ z. z.attempt_id) (sym same) ∙ ground arith,
                ground arith,
              )
          | inr other ↦
              let (its, own, why) =
                unfinished-Stored s u task attempt report r rows (ground arith) in
              inr (
                (λ there.
                    let (x, known, mine) = there in
                    let is : x ≡ old = ground arith in
                    let at = subst (λ z. z.attempt_id ≡ attempt) is mine in absurd (ground arith)),
                its,
                own,
                why,
              )
        ]
      ]
