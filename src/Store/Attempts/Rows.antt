-- ===== src/Store/Attempts/Rows.antt =====
-- Every write to attempts and results, seen as one step on the rows of the two tables.
pub mod Sound
pub mod Ended
pub mod Kept
pub mod Settled
pub mod First
pub mod Digested
use brgr.Base.{
  >>=-eq-ok, Bool, List, Option, Option-cases, Result, Result-cases, String, any, arith, count,
  false, inl, inr, leb, list_eq, nat_eq, none, ok, option_eq, refl, some, store_of, string_eq, true,
  update, ℕ, ◌&&◌, ◌==◌, ◌∷◌, ◌≡◌,
}
use brgr.Protocol.{
  AttemptId, AttemptState, OwnerId, ResultEnvelope, ResultId, RouteObservation, TaskId, outcome_eq,
  queued, state_eq, terminal,
}
use brgr.Store.{
  AttemptRow, Platform, ResultRow, RunnerIdentity, Store, StoreError, TaskRow, run_state_eq,
  takeover_state_eq,
}
use brgr.Store.Settle.{is_active, of_revision}
use brgr.Store.Attempts.{
  allowed, attach, attempt_of, claim_attempt, compare_and_set, grant_pre_spawn_retry,
  insert_attempt, prior_allows, record_launch_intent, record_runner_identity, result_for,
  set_attempt, task_row,
}
use brgr.Store.Attempts.Writes.{
  PreparedTerminal, complete, insert_completion_notification, insert_inbox_item, insert_result,
  insert_route_observation, insert_run_completion, insert_terminal_event, sealed, write_terminal,
}
use brgr.Store.Attempts.Terminal.{
  UnfinishedAttempt, commit_guarded, commit_once, commit_recovered_lost, prepare_terminal_result,
  task_of_attempt, terminal_attempt,
}

-- A call of the store that writes an attempt or its result.
pub data AttemptCall : Type 0 where
  claim : TaskId → ℕ → AttemptId → AttemptCall
  grant : AttemptId → AttemptCall
  launch : AttemptId → String → ℕ → AttemptCall
  identify : AttemptId → String → RunnerIdentity → AttemptCall
  advance : AttemptId → AttemptState → AttemptState → AttemptCall
  finish : OwnerId → ResultEnvelope → Bool → AttemptCall
  recover : UnfinishedAttempt → ResultEnvelope → AttemptCall

unfoldable pub apply : Platform → Store → AttemptCall → Result StoreError Store
apply p s (claim task revision id) = claim_attempt s task revision id
apply p s (grant id) = grant_pre_spawn_retry s id
apply p s (launch id nonce epoch) = record_launch_intent s id nonce epoch
apply p s (identify id nonce identity) = store_of (record_runner_identity s id nonce identity)
apply p s (advance id expected next) = compare_and_set s id expected next
apply p s (finish owner r complete_run) = store_of (commit_guarded p s owner r none complete_run)
apply p s (recover observed r) = store_of (commit_recovered_lost p s observed r)

abbrev pub moved_attempt :
    AttemptId → AttemptState → AttemptState → List AttemptRow → List AttemptRow
moved_attempt id expected next =
    update (λ a. a.attempt_id == id && a.state == expected) (λ a. record a { state = next })

-- One step from `s` to `u`, as far as attempts and results go.
pub data Step (s u : Store) : Type 0 where
  idle : u.attempts ≡ s.attempts → u.results ≡ s.results → Step s u
  add :
      (row : AttemptRow) (t : TaskRow)
      → row.state ≡ queued
      → task_row s row.task_id row.revision ≡ some t
      → leb t.spec.budget.max_attempts (count (of_revision row.task_id row.revision) s.attempts)
        ≡ false
      → prior_allows s row.task_id row.revision ≡ ok tt
      → any (is_active row.task_id row.revision) s.attempts ≡ false
      → any (λ a. a.attempt_id == row.attempt_id) s.attempts ≡ false
      → u.attempts ≡ row ∷ s.attempts
      → u.results ≡ s.results
      → Step s u
  move :
      (id : AttemptId) (expected next : AttemptState)
      → allowed expected next ≡ true
      → u.attempts ≡ moved_attempt id expected next s.attempts
      → u.results ≡ s.results
      → Step s u
  settle :
      (r : ResultRow) (a : AttemptRow)
      → result_for s r.attempt_id ≡ none
      → attempt_of s r.attempt_id ≡ some a
      → (a.state == terminal) ≡ false
      → a.task_id ≡ r.task_id
      → a.revision ≡ r.revision
      → u.attempts ≡ moved_attempt r.attempt_id a.state terminal s.attempts
      → u.results ≡ r ∷ s.results
      → Step s u

-- What a commit of a result does to the rows: nothing, or it ends its attempt.
pub data Ends (s u : Store) : Type 0 where
  as_before : u.attempts ≡ s.attempts → u.results ≡ s.results → Ends s u
  ends :
      (r : ResultRow) (a : AttemptRow)
      → result_for s r.attempt_id ≡ none
      → attempt_of s r.attempt_id ≡ some a
      → (a.state == terminal) ≡ false
      → a.task_id ≡ r.task_id
      → a.revision ≡ r.revision
      → u.attempts ≡ moved_attempt r.attempt_id a.state terminal s.attempts
      → u.results ≡ r ∷ s.results
      → Ends s u

Ends-Step : (s u : Store) → Ends s u → Step s u
Ends-Step s u (as_before rows results) = idle rows results
Ends-Step s u (ends r a new found open_ task revision rows results) =
    settle r a new found open_ task revision rows results

claim-Step :
    (s u : Store) (task : TaskId) (revision : ℕ) (id : AttemptId)
    → claim_attempt s task revision id ≡ ok u
    → (u.tasks ≡ s.tasks) × Step s u
unfolding claim_attempt insert_attempt
claim-Step s u task revision id h = elim (Option-cases (task_row s task revision)) [
  | inl missing ↦ cc (rw missing at h)
  | inr (t, found) ↦ elim (Result-cases (prior_allows s task revision)) [
    | inr (x, refused) ↦ absurd (ground arith)
    | inl (tt, fine) ↦ (
      ground arith,
      add (record { attempt_id = id; task_id = task; revision = revision; state = queued }) t refl
          found (ground arith) fine (ground arith) (ground arith) (ground arith) (ground arith),
    )
  ]
]

grant-Step :
    (s u : Store) (id : AttemptId)
    → grant_pre_spawn_retry s id ≡ ok u
    → (u.tasks ≡ s.tasks) × Step s u
unfolding grant_pre_spawn_retry
grant-Step s u id h = (ground arith, idle (ground arith) (ground arith))

launch-Step :
    (s u : Store) (id : AttemptId) (nonce : String) (epoch : ℕ)
    → record_launch_intent s id nonce epoch ≡ ok u
    → (u.tasks ≡ s.tasks) × Step s u
unfolding record_launch_intent
launch-Step s u id nonce epoch h = (ground arith, idle (ground arith) (ground arith))

identify-Step :
    (s u : Store) (id : AttemptId) (nonce : String) (identity : RunnerIdentity)
    → store_of (record_runner_identity s id nonce identity) ≡ ok u
    → (u.tasks ≡ s.tasks) × Step s u
unfolding record_runner_identity attach
identify-Step s u id nonce identity h = (ground arith, idle (ground arith) (ground arith))

advance-Step :
    (s u : Store) (id : AttemptId) (expected next : AttemptState)
    → compare_and_set s id expected next ≡ ok u
    → (u.tasks ≡ s.tasks) × Step s u
unfolding compare_and_set set_attempt
advance-Step s u id expected next h =
    (ground arith, move id expected next (ground arith) (ground arith) (ground arith))

pub complete_rows :
    (b : Bool) (s u : Store) (r : ResultEnvelope)
    → complete b s r ≡ ok u
    → (u.tasks ≡ s.tasks) × (u.attempts ≡ s.attempts) × (u.results ≡ s.results)
unfolding complete insert_run_completion
complete_rows true s u r h = (ground arith, ground arith, ground arith)
complete_rows false s u r h = (ground arith, ground arith, ground arith)

pub observation_rows :
    (s u : Store) (id : ResultId) (o : Option (String × RouteObservation))
    → insert_route_observation s id o ≡ ok u
    → (u.tasks ≡ s.tasks) × (u.attempts ≡ s.attempts) × (u.results ≡ s.results)
unfolding insert_route_observation
observation_rows s u id none h = (ground arith, ground arith, ground arith)
observation_rows s u id (some p) h = (ground arith, ground arith, ground arith)

write-Ends :
    (s u : Store) (owner : OwnerId) (r : ResultEnvelope) (ready : PreparedTerminal) (a : AttemptRow)
    (b : Bool)
    → result_for s r.attempt_id ≡ none
    → attempt_of s r.attempt_id ≡ some a
    → (a.state == terminal) ≡ false
    → a.task_id ≡ r.task_id
    → a.revision ≡ r.revision
    → write_terminal s owner r ready a.state b ≡ ok u
    → (u.tasks ≡ s.tasks) × Ends s u
unfolding write_terminal insert_result insert_inbox_item insert_completion_notification
    insert_terminal_event set_attempt
write-Ends s u owner r ready a b fresh found open_ task revision h =
    let (s1, made1, h1) = >>=-eq-ok (insert_result s r ready.digest) _ h in
    let (s2, made2, h2) =
      >>=-eq-ok (insert_route_observation s1 r.result_id ready.observation) _ h1 in
    let (s3, made3, h3) = >>=-eq-ok (insert_inbox_item s2 owner r.result_id) _ h2 in
    let (s4, made4, h4) = >>=-eq-ok (insert_completion_notification s3 owner r) _ h3 in
    let (s5, made5, h5) = >>=-eq-ok (complete b s4 r) _ h4 in
    let rows2 = observation_rows s1 s2 r.result_id ready.observation made2 in
    let rows5 = complete_rows b s4 s5 r made5 in
    (
      ground arith,
      ends
          (record {
            result_id = r.result_id;
            attempt_id = r.attempt_id;
            task_id = r.task_id;
            revision = r.revision;
            result_digest = ready.digest;
            envelope = sealed r;
          })
          a fresh found open_ task revision (ground arith) (ground arith),
    )

pub commit-Ends :
    (p : Platform) (s u : Store) (owner : OwnerId) (r : ResultEnvelope)
    (observed : Option UnfinishedAttempt) (b : Bool)
    → store_of (commit_guarded p s owner r observed b) ≡ ok u
    → (u.tasks ≡ s.tasks) × Ends s u
unfolding commit_guarded commit_once terminal_attempt task_of_attempt
commit-Ends p s u owner r observed b h = elim (Result-cases (prepare_terminal_result p s r)) [
  | inr (x, bad) ↦ cc (rw bad at h)
  | inl (ready, made) ↦ elim (Option-cases (result_for s r.attempt_id)) [
    | inr (stored, old) ↦ elim (Result-cases (complete b s r)) [
      | inr (x, clash) ↦ absurd (ground arith)
      | inl (w, closed) ↦
          let rows = complete_rows b s w r closed in
          (ground arith, as_before (ground arith) (ground arith))
    ]
    | inl new ↦ elim (Option-cases (attempt_of s r.attempt_id)) [
      | inl missing ↦ absurd (ground arith)
      | inr (a, found) ↦ elim (Result-cases (write_terminal s owner r ready a.state b)) [
        | inr (x, clash) ↦ absurd (ground arith)
        | inl (w, written) ↦
            write-Ends s u owner r ready a b new found (ground arith) (ground arith) (ground arith)
              (ground arith)
      ]
    ]
  ]
]

-- Whatever call goes through, it leaves the tasks as they are and is one such step: an attempt
-- starts queued, in a slot that is free, within the budget and where the prior result allows it; it
-- moves along the graph of states; and a result comes with the end of its attempt, of the same task
-- and revision, that had no result and had not ended.
pub apply-Step :
    (p : Platform) (s u : Store) (c : AttemptCall)
    → apply p s c ≡ ok u
    → (u.tasks ≡ s.tasks) × Step s u
unfolding apply commit_recovered_lost
apply-Step p s u (claim task revision id) h = claim-Step s u task revision id h
apply-Step p s u (grant id) h = grant-Step s u id h
apply-Step p s u (launch id nonce epoch) h = launch-Step s u id nonce epoch h
apply-Step p s u (identify id nonce identity) h = identify-Step s u id nonce identity h
apply-Step p s u (advance id expected next) h = advance-Step s u id expected next h
apply-Step p s u (finish owner r b) h =
    let (tasks, step) = commit-Ends p s u owner r none b h in (tasks, Ends-Step s u step)
apply-Step p s u (recover observed r) h =
    let (tasks, step) =
      commit-Ends p s u observed.task.owner_id r (some observed) true (ground arith) in
    (tasks, Ends-Step s u step)
