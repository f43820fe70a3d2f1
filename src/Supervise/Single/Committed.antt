-- ===== src/Supervise/Single/Committed.antt =====
-- An attempt that was run has its result in the store.
use brgr.Base.{
  >>=-eq-ok, Bool, Bool-cases, Result-cases, [], arith, false, inl, inr, list_eq, ltb, map_err,
  nat_eq, none, not, ok, option_eq, refl, some, string_eq, subst, suc, sym, true, zero, ℕ, ◌&&◌,
  ◌+◌, ◌==◌, ◌>>=◌, ◌||◌, ◌≡◌,
}
use brgr.Protocol.{
  AttemptId, ResultEnvelope, ResultId, TaskSpec, cancel_requested, cancelled, outcome_eq, running,
  starting, state_eq,
}
use brgr.Core.{TaskRevision, new_attempt, record_terminal}
use brgr.Store.{Platform, Store, cancelled, run_state_eq, running, takeover_state_eq}
use brgr.Store.Attempts.{claim_attempt, grant_pre_spawn_retry, record_launch_intent}
use brgr.Store.Attempts.Terminal.{
  commit_guarded, commit_terminal_result, commit_terminal_result_final,
}
use brgr.Store.Attempts.Rows.Digested.{
  IsDigested, Stored, commit_guarded-Stored, same-IsDigested, same-Stored,
}
use brgr.Store.Delegation.{cancellation_requested}
use brgr.Supervise.{SessionModel, apply_session_model, result_for_attempt}
use brgr.Supervise.Run.{
  Harness, Run, Workspace, core, finish_execution_result, is_retryable_spawn_failure, store,
  supervised_transition,
}
use brgr.Supervise.Single.{
  Control, attempts_from, cancel_before_spawn, commit_result, execute_attempt, is_one_shot,
  record_identity, run_single_attempt,
}
use brgr.Supervise.Single.Results.{
  claimed_results, finish_results, grant_results, started_results, transition_results,
}

-- What a run leaves: rows with their digests, and its result in the row of its attempt.
abbrev pub Kept : Platform → Store → ResultEnvelope → Type 0
Kept p u r = IsDigested p u × Stored p u r

retried-Kept :
    (p : Platform) (spec : TaskSpec) (s u : Store) (r : ResultEnvelope) (b : Bool)
    → IsDigested p s
    → (do
      done ← map_err store (commit_guarded p s spec.owner_id r none b)
      map_err store (grant_pre_spawn_retry done.1 r.attempt_id))
      ≡ ok u
    → Kept p u r
retried-Kept p spec s u r b rows h =
    elim (Result-cases (commit_guarded p s spec.owner_id r none b)) [
      | inr (e, bad) ↦ absurd (ground arith)
      | inl ((w, v), done) ↦ elim (Result-cases (grant_pre_spawn_retry v r.attempt_id)) [
        | inr (e, bad) ↦ absurd (ground arith)
        | inl (x, granted) ↦
            let last : x ≡ u = ground arith in
            let (kept_, its) = commit_guarded-Stored p s v spec.owner_id r none b w rows done in
            let same = grant_results v x r.attempt_id granted in
            subst (λ t. Kept p t r) last
              (same-IsDigested p v x same kept_, same-Stored p v x r same its)
      ]
    ]

commit-Kept :
    (p : Platform) (spec : TaskSpec) (number : ℕ) (s u : Store) (r q : ResultEnvelope)
    (retry again : Bool)
    → IsDigested p s
    → commit_result p spec number s r retry ≡ ok ((q, again), u)
    → (q ≡ r) × Kept p u r
unfolding commit_result commit_terminal_result commit_terminal_result_final
commit-Kept p spec number s u r q true again rows h =
    elim (Bool-cases (ltb number spec.budget.max_attempts)) [
      | inl more ↦ (ground arith, retried-Kept p spec s u r false rows (ground arith))
      | inr last_one ↦ (ground arith, retried-Kept p spec s u r true rows (ground arith))
    ]
commit-Kept p spec number s u r q false again rows h =
    elim (Result-cases (commit_guarded p s spec.owner_id r none true)) [
      | inr (e, bad) ↦ absurd (ground arith)
      | inl ((w, v), done) ↦
          let last : v ≡ u = ground arith in
          (
            ground arith,
            subst (λ t. Kept p t r) last
                (commit_guarded-Stored p s v spec.owner_id r none true w rows done),
          )
    ]

-- The process of an attempt keeps the digests of the rows.
abbrev pub Respects : Platform → Control → Type 0
Respects p c = (t : Store) → IsDigested p t → IsDigested p (c.execute t).0

module _ (p : Platform) (w : Workspace) (read : SessionModel) (fresh : AttemptId → ResultId)
    (event_ids : ℕ → ℕ) where
  cancelled-Kept :
      (spec : TaskSpec) (run : Run) (u : Store) (q : ResultEnvelope) (again : Bool)
      → IsDigested p run.held
      → cancel_before_spawn p w read fresh event_ids spec run ≡ ok ((q, again), u)
      → Kept p u q
  unfolding cancel_before_spawn commit_terminal_result_final
  cancelled-Kept spec run u q again rows h =
      let r =
        result_for_attempt (fresh run.attempt.id) spec run.attempt.id cancelled []
          (some "cancelled before process spawn") in
      let (mid, moved, h1) = >>=-eq-ok (supervised_transition event_ids run cancel_requested) _ h in
      let (b, recorded, h2) = >>=-eq-ok (map_err core (record_terminal mid.attempt r)) _ h1 in
      let mid_rows =
        same-IsDigested p run.held mid.held
          (transition_results event_ids run mid cancel_requested moved) rows in
      elim (Result-cases (commit_guarded p mid.held spec.owner_id r none true)) [
        | inr (e, bad) ↦ absurd (ground arith)
        | inl ((x, v), done) ↦
            let last : v ≡ u = ground arith in
            let same : r ≡ q = ground arith in
            subst (Kept p u) same (
              subst (λ t. Kept p t r) last
                (commit_guarded-Stored p mid.held v spec.owner_id r none true x mid_rows done))
      ]

  executed-Kept :
      (spec : TaskSpec) (h : Harness) (number : ℕ) (c : Control) (run : Run) (u : Store)
      (q : ResultEnvelope) (again : Bool)
      → Respects p c
      → IsDigested p run.held
      → execute_attempt p w read fresh event_ids spec h number c run ≡ ok ((q, again), u)
      → Kept p u q
  unfolding execute_attempt
  executed-Kept spec h number c run u q again respects rows done =
      let (s1, a1, h1) =
        >>=-eq-ok (map_err store (record_launch_intent run.held c.attempt_id c.nonce c.epoch)) _
          done in
      let (s2, a2, h2) =
        >>=-eq-ok (map_err store (record_identity s1 c.attempt_id c.nonce c.identity)) _ h1 in
      let (started, a3, h3) =
        >>=-eq-ok (supervised_transition event_ids (record run { held = s2 }) running) _ h2 in
      let world = c.execute started.held in
      let retry = is_one_shot h && is_retryable_spawn_failure world.1 in
      let ran : Run = record started { held = world.0 } in
      let (finished, a4, h4) =
        >>=-eq-ok (finish_execution_result w fresh event_ids spec h ran world.1) _ h3 in
      let r = apply_session_model finished.0 read spec c.attempt_id in
      let (b, a5, h5) = >>=-eq-ok (map_err core (record_terminal finished.1.attempt r)) _ h4 in
      let before = started_results event_ids run started s1 s2 c (ground arith) (ground arith) a3 in
      let after_rows =
        respects started.held (same-IsDigested p run.held started.held before rows) in
      let last_rows =
        same-IsDigested p world.0 finished.1.held
          (finish_results w fresh event_ids spec h ran finished.1 world.1 finished.0 a4)
          after_rows in
      let (same, kept_) =
        commit-Kept p spec number finished.1.held u r q retry again last_rows h5 in
      subst (Kept p u) (sym same) kept_

  run-Kept :
      (s u : Store) (revision : TaskRevision) (h : Harness) (number : ℕ) (c : Control)
      (q : ResultEnvelope) (again : Bool)
      → Respects p c
      → IsDigested p s
      → run_single_attempt p w read fresh event_ids s revision h number c ≡ ok ((q, again), u)
      → Kept p u q
  unfolding run_single_attempt
  run-Kept s u revision h number c q again respects rows done =
      let (a, made, h1) =
        >>=-eq-ok (map_err core (new_attempt revision c.attempt_id number)) _ done in
      let (claimed, a2, h2) =
        >>=-eq-ok
          (map_err store
            (claim_attempt s revision.spec.task_id revision.spec.revision c.attempt_id))
          _ h1 in
      let first : Run = record { held = claimed; attempt = a; producer_seq = 0 } in
      let (run, a3, h3) = >>=-eq-ok (supervised_transition event_ids first starting) _ h2 in
      let same =
        claimed_results event_ids s claimed revision.spec.task_id revision.spec.revision
          c.attempt_id first run (ground arith) refl a3 in
      let run_rows = same-IsDigested p s run.held same rows in
      elim (Bool-cases (c.cancel_file || cancellation_requested run.held revision.spec.task_id)) [
        | inl stop ↦ cancelled-Kept revision.spec run u q again run_rows (ground arith)
        | inr go ↦
            executed-Kept revision.spec h number c run u q again respects run_rows (ground arith)
      ]

  pub attempts-Kept :
      (left number : ℕ) (s u : Store) (revision : TaskRevision) (h : Harness)
      (controls : ℕ → Control) (q : ResultEnvelope)
      → ((n : ℕ) → Respects p (controls n))
      → IsDigested p s
      → attempts_from p w read fresh event_ids left number s revision h controls ≡ ok (q, u)
      → Kept p u q
  unfolding attempts_from
  attempts-Kept zero number s u revision h controls q respects rows done = absurd (ground arith)
  attempts-Kept (suc left) number s u revision h controls q respects rows done =
      elim (Result-cases
        (run_single_attempt p w read fresh event_ids s revision h number (controls number))) [
          | inr (e, bad) ↦ absurd (ground arith)
          | inl (((r, again), v), ran) ↦
              let here =
                run-Kept s v revision h number (controls number) r again (respects number) rows
                  ran in
              elim (Bool-cases (again && not (number == revision.spec.budget.max_attempts))) [
                | inl more ↦
                    attempts-Kept left (number + 1) v u revision h controls q respects here.0
                      (ground arith)
                | inr enough ↦
                    let last : v ≡ u = ground arith in
                    let same : r ≡ q = ground arith in
                    subst (Kept p u) same (subst (λ t. Kept p t r) last here)
              ]
        ]
