-- ===== src/Store/Attempts.antt =====
-- src/attempt.rs: the attempts of a task revision, up to the terminal result: the claim of the one
-- active slot, the grant of a retry, the launch receipt, and the guarded change of state. The clock
-- of an attempt is left out.
pub mod Writes
pub mod Terminal
pub mod Rows
pub mod Agreement
use brgr.Base.{
  Bool, Option, Result, String, any, count, err, false, find?, if◌then◌else◌, is_blank, leb, nat_eq,
  none, not, ok, ok_or, option_beq, option_eq, refuse, some, string_eq, true, update, ℕ, ◌&&◌, ◌==◌,
  ◌>>=◌, ◌>>◌, ◌||◌, ◌∷◌,
}
use brgr.Protocol.{
  AttemptId, AttemptState, TaskId, blocked, cancel_requested, cancelled, candidate, collecting,
  failed, lost, outcome_eq, queued, running, starting, state_eq, terminal,
}
use brgr.Store.{
  AttemptRow, LaunchIntent, ResultRow, RunnerIdentity, Store, StoreError, TaskRow, WriteOutcome,
  active_attempt_exists, already_applied, attempt_budget_exhausted, attempt_not_found,
  attempt_state_conflict, attempt_transition_invalid, blocked, cancelled, constraint_violation,
  database, failed, inserted, invalid_launch_intent, invalid_runner_identity,
  launch_intent_conflict, launch_intent_not_found, non_retryable_prior_attempt,
  retry_grant_requires_failed_attempt, run_state_eq, runner_identity_conflict, running,
  takeover_state_eq, task_not_found, to_i64, unresolved_prior_attempt,
}
use brgr.Store.Settle.{is_active, is_granted, of_revision}

unfoldable pub task_row : Store → TaskId → ℕ → Option TaskRow
task_row s task revision = find? (λ t. t.task_id == task && t.revision == revision) s.tasks

unfoldable pub attempt_of : Store → AttemptId → Option AttemptRow
attempt_of s id = find? (λ a. a.attempt_id == id) s.attempts

unfoldable pub result_for : Store → AttemptId → Option ResultRow
result_for s id = find? (λ r. r.attempt_id == id) s.results

-- results r JOIN attempts a ON a.attempt_id = r.attempt_id, for one revision.
unfoldable pub joins : Store → TaskId → ℕ → ResultRow → Bool
joins s task revision r = elim (attempt_of s r.attempt_id) [
  | none ↦ false
  | some a ↦ of_revision task revision a
]

-- What the latest result of the revision says about one more attempt.
unfoldable pub retryable : Store → TaskId → ℕ → ResultRow → Result StoreError (Unit {0})
retryable s task revision r = elim (r.envelope.outcome) [
  | lost ↦ err (unresolved_prior_attempt task revision)
  | candidate ↦ err (non_retryable_prior_attempt task revision)
  | cancelled ↦ err (non_retryable_prior_attempt task revision)
  | failed ↦ refuse (not (is_granted s r.attempt_id)) (non_retryable_prior_attempt task revision)
]

unfoldable pub prior_allows : Store → TaskId → ℕ → Result StoreError (Unit {0})
unfolding joins
prior_allows s task revision = elim (find? (joins s task revision) s.results) [
  | none ↦ ok tt
  | some r ↦ retryable s task revision r
]

-- INSERT INTO attempts, under its primary key and the index `one_active_attempt_per_revision`.
unfoldable pub insert_attempt : Store → TaskId → ℕ → AttemptId → Result StoreError Store
insert_attempt s task revision id = do
  refuse (any (is_active task revision) s.attempts) (active_attempt_exists task revision)
  refuse (any (λ a. a.attempt_id == id) s.attempts) (database constraint_violation)
  ok (record s {
    attempts =
        record { attempt_id = id; task_id = task; revision = revision; state = queued }
        ∷ s.attempts;
  })

-- `claim_attempt_once`
unfoldable pub claim_attempt : Store → TaskId → ℕ → AttemptId → Result StoreError Store
unfolding task_row of_revision
claim_attempt s task revision id = do
  row ← ok_or (task_row s task revision) (task_not_found task)
  refuse (leb row.spec.budget.max_attempts (count (of_revision task revision) s.attempts))
      (attempt_budget_exhausted task revision)
  prior_allows s task revision
  insert_attempt s task revision id

-- `grant_pre_spawn_retry_once`
unfoldable pub grant_pre_spawn_retry : Store → AttemptId → Result StoreError Store
unfolding result_for
grant_pre_spawn_retry s id = elim (result_for s id) [
  | none ↦ err (retry_grant_requires_failed_attempt id)
  | some r ↦ do
    refuse (not (r.envelope.outcome == failed)) (retry_grant_requires_failed_attempt id)
    ok (record s {
      retry_grants =
          if any (λ g. g == id) s.retry_grants then s.retry_grants else id ∷ s.retry_grants;
    })
]

unfoldable pub attempt_state_by_id : Store → AttemptId → Result StoreError AttemptState
unfolding attempt_of
attempt_state_by_id s id = do a ← ok_or (attempt_of s id) (attempt_not_found id); ok a.state

-- `record_launch_intent_once`
unfoldable pub record_launch_intent : Store → AttemptId → String → ℕ → Result StoreError Store
record_launch_intent s id nonce supervisor_epoch = do
  refuse (is_blank nonce || supervisor_epoch == 0) invalid_launch_intent
  epoch ← to_i64 supervisor_epoch
  state ← attempt_state_by_id s id
  refuse (not (state == starting)) (attempt_state_conflict starting state)
  refuse (any (λ l. l.attempt_id == id || l.intent.nonce == nonce) s.launch_intents)
      (launch_intent_conflict id)
  ok (record s {
    launch_intents =
        record {
          attempt_id = id;
          intent = record { nonce = nonce; supervisor_epoch = epoch; runner_identity = none };
        }
        ∷ s.launch_intents;
  })

unfoldable pub valid_identity : RunnerIdentity → Result StoreError (Unit {0})
valid_identity i =
    refuse (is_blank i.namespace || is_blank i.handle || is_blank i.birth_marker)
      invalid_runner_identity

-- The derived `PartialEq` of `RunnerIdentity` and of `LaunchIntent`.
abbrev pub same_identity : RunnerIdentity → RunnerIdentity → Bool
same_identity i j =
    i.namespace == j.namespace && i.handle == j.handle && i.birth_marker == j.birth_marker

abbrev pub same_launch : LaunchIntent → LaunchIntent → Bool
same_launch l m =
    l.nonce == m.nonce
    && l.supervisor_epoch == m.supervisor_epoch
    && option_beq same_identity l.runner_identity m.runner_identity

unfoldable pub launch_of : Store → AttemptId → Option LaunchIntent
launch_of s id = elim (find? (λ l. l.attempt_id == id) s.launch_intents) [
  | none ↦ none
  | some l ↦ some l.intent
]

abbrev pub lacks_runner : LaunchIntent → Bool
lacks_runner l = elim (l.runner_identity) [ none ↦ true | some i ↦ false ]

-- The UPDATE of `record_runner_identity_once`.
unfoldable pub attach : Store → AttemptId → String → RunnerIdentity → Store
attach s id nonce identity = record s {
  launch_intents =
      update (λ l. l.attempt_id == id && l.intent.nonce == nonce && lacks_runner l.intent)
        (λ l. record l { intent = record l.intent { runner_identity = some identity } })
        s.launch_intents;
}

unfoldable pub record_runner_identity :
    Store → AttemptId → String → RunnerIdentity → Result StoreError (WriteOutcome × Store)
record_runner_identity s id nonce identity = do
  valid_identity identity
  stored ← ok_or (launch_of s id) (launch_intent_not_found id)
  refuse (not (stored.nonce == nonce)) (launch_intent_conflict id)
  elim (stored.runner_identity) [
    | some existing ↦
        if same_identity existing identity
        then ok (already_applied, s)
        else err (runner_identity_conflict id)
    | none ↦ do
      state ← attempt_state_by_id s id
      refuse (state == terminal) (attempt_state_conflict running state)
      ok (inserted, attach s id nonce identity)
  ]

-- `allowed_attempt_transition`
unfoldable pub allowed : AttemptState → AttemptState → Bool
allowed queued next = next == starting || next == cancel_requested
allowed starting next = next == running || next == cancel_requested
allowed running next = next == blocked || next == collecting || next == cancel_requested
allowed blocked next = next == running || next == collecting || next == cancel_requested
allowed collecting next = next == cancel_requested
allowed cancel_requested next = false
allowed terminal next = false

-- UPDATE attempts SET state = … WHERE attempt_id = … AND state = …
unfoldable pub set_attempt : Store → AttemptId → AttemptState → AttemptState → Store
set_attempt s id expected next = record s {
  attempts =
      update (λ a. a.attempt_id == id && a.state == expected) (λ a. record a { state = next })
        s.attempts;
}

-- `compare_and_set_attempt_state_once`
unfoldable pub compare_and_set :
    Store → AttemptId → AttemptState → AttemptState → Result StoreError Store
compare_and_set s id expected next = do
  refuse (not (allowed expected next)) (attempt_transition_invalid expected next)
  if count (λ a. a.attempt_id == id && a.state == expected) s.attempts == 1
      then ok (set_attempt s id expected next)
      else (do actual ← attempt_state_by_id s id; err (attempt_state_conflict expected actual))

-- `set_attempt_state`
unfoldable pub set_attempt_state : Store → AttemptId → AttemptState → Result StoreError Store
set_attempt_state s id state = do
  current ← attempt_state_by_id s id
  compare_and_set s id current state
