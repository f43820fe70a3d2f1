-- ===== src/Supervise/Single/Bounded.antt =====
-- A fresh run answers with one of its attempts.
use brgr.Base.{
  >>=-eq-ok, Bool, Bool-cases, Option, Option-cases, Result, Result-cases, String, [], arith,
  bind-fails, err, false, if◌then◌else◌, inl, inr, list_eq, map_err, nat_eq, none, not, ok, ok_or,
  option_eq, some, string_eq, suc, true, zero, ℕ, ◌&&◌, ◌+◌, ◌<◌, ◌==◌, ◌>>=◌, ◌||◌, ◌≡◌, ◌≢◌,
}
use brgr.Protocol.{
  AttemptId, AttemptState, ResultEnvelope, ResultId, TaskSpec, cancel_requested, cancelled,
  collecting, outcome_eq, running, starting, state_eq,
}
use brgr.Rows.{EventKind, cancel_requested, collecting, direction_eq, kind_eq, running, starting}
use brgr.Core.{
  CoreError, TaskRevision, freeze, invalid_transition, new_attempt, record_terminal, transition,
}
use brgr.Store.{Platform, Store, StoreError, cancelled, run_state_eq, running, takeover_state_eq}
use brgr.Store.Attempts.{
  claim_attempt, compare_and_set, grant_pre_spawn_retry, record_launch_intent,
}
use brgr.Store.Attempts.Terminal.{commit_terminal_result_final}
use brgr.Store.Attempts.Rows.Digested.{IsDigested, Stored, same-IsDigested}
use brgr.Store.Delegation.{cancellation_requested}
use brgr.Store.Tasks.{record_task}
use brgr.Supervise.{SessionModel, apply_session_model, result_for_attempt}
use brgr.Supervise.Run.{
  ExecutionOutput, Harness, Run, RunnerError, SupervisorError, Workspace, collect, core, delegates,
  event_kind, event_of, finish_execution_result, gave_result, is_retryable_spawn_failure,
  no_attempt, record_event, store, supervised_transition, unsettled_worker_reason,
}
use brgr.Supervise.Single.{
  Control, attempts_from, cancel_before_spawn, commit_result, execute_attempt, is_one_shot,
  record_identity, run_fresh_controlled, run_single_attempt,
}
use brgr.Supervise.Single.Results.{task_results}
use brgr.Supervise.Single.Committed.{Respects, attempts-Kept}

core-named : {A : Type 0} (m : Result CoreError A) → map_err core m ≢ err no_attempt
core-named (ok a) h = absurd (ground arith)
core-named (err e) h = absurd (ground arith)

store-named : {A : Type 0} (m : Result StoreError A) → map_err store m ≢ err no_attempt
store-named (ok a) h = absurd (ground arith)
store-named (err e) h = absurd (ground arith)

kind-named : (k : Option EventKind) (e : CoreError) → ok_or k (core e) ≢ err no_attempt
kind-named none e h = absurd (ground arith)
kind-named (some k) e h = absurd (ground arith)

from-store :
    {A B : Type 0} (m : Result StoreError A) (k : A → Result SupervisorError B)
    → ((a : A) → k a ≢ err no_attempt)
    → (map_err store m >>= k) ≢ err no_attempt
from-store m k later = bind-fails (map_err store m) k no_attempt (store-named m) later

from-core :
    {A B : Type 0} (m : Result CoreError A) (k : A → Result SupervisorError B)
    → ((a : A) → k a ≢ err no_attempt)
    → (map_err core m >>= k) ≢ err no_attempt
from-core m k later = bind-fails (map_err core m) k no_attempt (core-named m) later

frozen-spec : (spec : TaskSpec) {r : TaskRevision} → freeze spec ≡ ok r → r.spec ≡ spec
unfolding freeze
frozen-spec spec h = ground arith

transition-named :
    (event_ids : ℕ → ℕ) (run : Run) (next : AttemptState)
    → supervised_transition event_ids run next ≢ err no_attempt
unfolding supervised_transition
transition-named event_ids run next = from-core (transition run.attempt next) _ (λ moved.
    from-store (compare_and_set run.held run.attempt.id run.attempt.state next) _ (λ s.
      bind-fails (ok_or (event_kind next) (core (invalid_transition moved.state next))) _ no_attempt
        (kind-named (event_kind next) (invalid_transition moved.state next))
        (λ kind.
          let e = event_of event_ids moved.id (run.producer_seq + 1) kind in
          from-store (record_event s e) _ (λ told h. absurd (ground arith)))))

grant-named :
    (b : Bool) (s : Store) (id : AttemptId)
    → (if b then map_err store (grant_pre_spawn_retry s id) else ok s) ≢ err no_attempt
grant-named true s id h = store-named (grant_pre_spawn_retry s id) h
grant-named false s id h = absurd (ground arith)

commit-named :
    (p : Platform) (spec : TaskSpec) (number : ℕ) (s : Store) (r : ResultEnvelope) (retry : Bool)
    → commit_result p spec number s r retry ≢ err no_attempt
unfolding commit_result
commit-named p spec number s r retry =
    bind-fails (map_err store _) _ no_attempt (store-named _) (λ done.
      bind-fails
        (if retry then map_err store (grant_pre_spawn_retry done.1 r.attempt_id) else ok done.1) _
        no_attempt (grant-named retry done.1 r.attempt_id) (λ u h. absurd (ground arith)))

module _ (p : Platform) (w : Workspace) (read : SessionModel) (fresh : AttemptId → ResultId)
    (event_ids : ℕ → ℕ) where
  collect-named :
      (spec : TaskSpec) (run : Run) (o : ExecutionOutput)
      → collect w fresh event_ids spec run o ≢ err no_attempt
  unfolding collect
  collect-named spec run o =
      bind-fails (supervised_transition event_ids run collecting) _ no_attempt
        (transition-named event_ids run collecting)
        (λ mid h.
          elim (Option-cases (unsettled_worker_reason mid.held spec.task_id run.attempt.id)) [
            | inr (reason, held_back) ↦ absurd (ground arith)
            | inl settled ↦ elim (Result-cases (w.seal_requested_evidence spec o)) [
              | inr (reason, bad) ↦ absurd (ground arith)
              | inl (extra, sealed) ↦ elim (Result-cases (w.seal_result spec o.result)) [
                | inr (e, bad) ↦ absurd (ground arith)
                | inl (artifact, kept_) ↦ absurd (ground arith)
              ]
            ]
          ])

  finish-named :
      (spec : TaskSpec) (h : Harness) (run : Run) (e : Result RunnerError ExecutionOutput)
      → finish_execution_result w fresh event_ids spec h run e ≢ err no_attempt
  unfolding finish_execution_result
  finish-named spec h run (err e) bad = absurd (ground arith)
  finish-named spec h run (ok o) bad =
      elim (Bool-cases (delegates h && not (not o.cancelled && gave_result h o))) [
        | inl apart ↦ absurd (ground arith)
        | inr ours ↦ elim (Bool-cases o.cancelled) [
          | inl stopped ↦
              elim (Result-cases (supervised_transition event_ids run cancel_requested)) [
                | inl (mid, moved) ↦ absurd (ground arith)
                | inr (x, refused) ↦ transition-named event_ids run cancel_requested (ground arith)
              ]
          | inr went_on ↦ elim (Bool-cases (gave_result h o)) [
            | inl gave ↦ collect-named spec run o (ground arith)
            | inr nothing ↦ absurd (ground arith)
          ]
        ]
      ]

  cancel-named :
      (spec : TaskSpec) (run : Run)
      → cancel_before_spawn p w read fresh event_ids spec run ≢ err no_attempt
  unfolding cancel_before_spawn
  cancel-named spec run =
      let r =
        result_for_attempt (fresh run.attempt.id) spec run.attempt.id cancelled []
          (some "cancelled before process spawn") in
      bind-fails (supervised_transition event_ids run cancel_requested) _ no_attempt
        (transition-named event_ids run cancel_requested)
        (λ mid. from-core (record_terminal mid.attempt r) _ (λ recorded.
          from-store (commit_terminal_result_final p mid.held spec.owner_id r) _
            (λ done h. absurd (ground arith))))

  execute-named :
      (spec : TaskSpec) (h : Harness) (number : ℕ) (c : Control) (run : Run)
      → execute_attempt p w read fresh event_ids spec h number c run ≢ err no_attempt
  unfolding execute_attempt
  execute-named spec h number c run =
      from-store (record_launch_intent run.held c.attempt_id c.nonce c.epoch) _ (λ s1.
        from-store (record_identity s1 c.attempt_id c.nonce c.identity) _ (λ s2.
          bind-fails (supervised_transition event_ids (record run { held = s2 }) running) _
            no_attempt (transition-named event_ids (record run { held = s2 }) running)
            (λ started.
              let world = c.execute started.held in
              let retry = is_one_shot h && is_retryable_spawn_failure world.1 in
              bind-fails
                (finish_execution_result w fresh event_ids spec h
                  (record started { held = world.0 }) world.1)
                _ no_attempt (finish-named spec h (record started { held = world.0 }) world.1)
                (λ finished.
                  let r = apply_session_model finished.0 read spec c.attempt_id in
                  bind-fails (map_err core (record_terminal finished.1.attempt r)) _ no_attempt
                    (core-named (record_terminal finished.1.attempt r))
                    (λ b. commit-named p spec number finished.1.held r retry)))))

  run-named :
      (s : Store) (revision : TaskRevision) (h : Harness) (number : ℕ) (c : Control)
      → run_single_attempt p w read fresh event_ids s revision h number c ≢ err no_attempt
  unfolding run_single_attempt
  run-named s revision h number c = from-core (new_attempt revision c.attempt_id number) _ (λ a.
      from-store (claim_attempt s revision.spec.task_id revision.spec.revision c.attempt_id) _
        (λ claimed.
          let run0 : Run = record { held = claimed; attempt = a; producer_seq = 0 } in
          bind-fails (supervised_transition event_ids run0 starting) _ no_attempt
            (transition-named event_ids run0 starting)
            (λ run bad.
              elim (Bool-cases
                (c.cancel_file || cancellation_requested run.held revision.spec.task_id)) [
                  | inl stop ↦ cancel-named revision.spec run (ground arith)
                  | inr go ↦ execute-named revision.spec h number c run (ground arith)
                ])))

  attempts-end :
      (left number : ℕ) (s : Store) (revision : TaskRevision) (h : Harness) (controls : ℕ → Control)
      → number + left ≡ revision.spec.budget.max_attempts + 1
      → 0 < left
      → attempts_from p w read fresh event_ids left number s revision h controls ≢ err no_attempt
  unfolding attempts_from
  attempts-end zero number s revision h controls sum some_ done = absurd (ground arith)
  attempts-end (suc left) number s revision h controls sum some_ done =
      elim (Result-cases
        (run_single_attempt p w read fresh event_ids s revision h number (controls number))) [
          | inr (e, bad) ↦ run-named s revision h number (controls number) (ground arith)
          | inl (((r, again), v), ran) ↦
              elim (Bool-cases (again && not (number == revision.spec.budget.max_attempts))) [
                | inl more ↦
                    attempts-end left (number + 1) v revision h controls (ground arith)
                      (ground arith) (ground arith)
                | inr enough ↦ absurd (ground arith)
              ]
        ]

  -- A fresh run of a task whose budget has an attempt ends with the answer of one of its attempts, a
  -- result or an error of the store or of the attempt: its loop never runs out of attempts without one.
  pub run_fresh-answers :
      (s : Store) (spec : TaskSpec) (digest : String) (h : Harness) (controls : ℕ → Control)
      → 0 < spec.budget.max_attempts
      → run_fresh_controlled p w read fresh event_ids s spec digest h controls ≢ err no_attempt
  unfolding run_fresh_controlled
  run_fresh-answers s spec digest h controls some_ done = elim (Result-cases (freeze spec)) [
    | inr (e, bad) ↦ absurd (ground arith)
    | inl (revision, frozen) ↦ elim (Result-cases (record_task p s spec digest none none)) [
      | inr (e, bad) ↦ absurd (ground arith)
      | inl (recorded, kept_) ↦
          let same = frozen-spec spec frozen in
          attempts-end spec.budget.max_attempts 1 recorded.1 revision h controls (ground arith)
            some_ (ground arith)
    ]
  ]

  -- A result that a fresh run ends with is in the store, in the row of its attempt, under its id and
  -- with an envelope of the same digest, whatever the processes did to the store, as long as they
  -- kept the digests of the rows, as the store's own commits do.
  pub run_fresh-Stored :
      (s u : Store) (spec : TaskSpec) (digest : String) (h : Harness) (controls : ℕ → Control)
      (q : ResultEnvelope)
      → IsDigested p s
      → ((n : ℕ) → Respects p (controls n))
      → run_fresh_controlled p w read fresh event_ids s spec digest h controls ≡ ok (q, u)
      → Stored p u q
  unfolding run_fresh_controlled
  run_fresh-Stored s u spec digest h controls q rows respects done =
      let (revision, frozen, h1) = >>=-eq-ok (map_err core (freeze spec)) _ done in
      let (recorded, kept_, h2) =
        >>=-eq-ok (map_err store (record_task p s spec digest none none)) _ h1 in
      let same = task_results p s recorded.1 spec digest recorded.0 (ground arith) in
      (attempts-Kept p w read fresh event_ids spec.budget.max_attempts 1 recorded.1 u revision h
        controls q respects (same-IsDigested p s recorded.1 same rows) h2).1
