-- ===== src/Supervise/Restart.antt =====
-- After a restart every attempt that was left is alive, has its one result, or was moved on.
use brgr.Base.{
  List, Option, [], list_eq, nat_eq, none, ok, option_eq, some, string_eq, ◌∷◌, ◌≡◌, ◌≢◌, ◌⊎◌,
}
use brgr.Protocol.{AttemptId, ResultEnvelope, ResultId, lost, outcome_eq, state_eq}
use brgr.Store.{
  LaunchIntent, Platform, ResultRow, RunnerIdentity, Store, WriteOutcome, run_state_eq,
  takeover_state_eq,
}
use brgr.Store.Attempts.{attempt_state_by_id, launch_of, result_for, valid_identity}
use brgr.Store.Attempts.Terminal.{UnfinishedAttempt, commit_recovered_lost}
use brgr.Supervise.{
  ExecutionObservation, SessionModel, alive, external_alive, recorded_runner, supervisor_alive,
}

abbrev pub HasResult : Store → AttemptId → Type 0
HasResult s id = (r : ResultRow) × (result_for s id ≡ some r)

-- The observed runner is the recorded one, alive. A supervisor may have no runner recorded, and an
-- external session is the one that its adapter names; both identities are well formed.
pub data StillRuns (seen : ExecutionObservation) (launch : Option LaunchIntent) : Type 0 where
  runner :
      (i : RunnerIdentity) (l : LaunchIntent)
      → seen ≡ alive i
      → launch ≡ some l
      → l.runner_identity ≡ some i
      → valid_identity i ≡ ok tt
      → StillRuns seen launch
  supervisor :
      (i : RunnerIdentity)
      → seen ≡ supervisor_alive i
      → (recorded_runner launch ≡ none) ⊎ (recorded_runner launch ≡ some i)
      → valid_identity i ≡ ok tt
      → StillRuns seen launch
  external :
      (i : RunnerIdentity)
      → seen ≡ external_alive i
      → valid_identity i ≡ ok tt
      → StillRuns seen launch

-- In this store the attempt is not what was read of it: its state or its launch is another one.
abbrev pub MovedOn : Store → UnfinishedAttempt → Type 0
MovedOn t a =
    (attempt_state_by_id t a.attempt_id ≢ ok a.state) ⊎ (launch_of t a.attempt_id ≢ a.launch)

module _ (p : Platform) (read : SessionModel) (observe : UnfinishedAttempt → ExecutionObservation)
    (meanwhile : UnfinishedAttempt → Store → Store) (fresh : AttemptId → ResultId) where
  -- The turns of the attempts from a store on, up to the store `u`, with the results made: a runner
  -- that goes on is left alone; any other attempt is lost, and then has a result in the end, or was
  -- moved on by another writer.
  pub data Reconciled (u : Store)
      : Store → List UnfinishedAttempt → List ResultEnvelope → Type 0 where
    finished : Reconciled u u [] []
    left_alone :
        {s : Store} {a : UnfinishedAttempt} {xs : List UnfinishedAttempt} {rs : List ResultEnvelope}
        → StillRuns (observe a) a.launch
        → Reconciled u (meanwhile a s) xs rs
        → Reconciled u s (a ∷ xs) rs
    found_lost :
        {s v : Store} {a : UnfinishedAttempt} {xs : List UnfinishedAttempt}
        {rs : List ResultEnvelope} (r : ResultEnvelope) (w : WriteOutcome)
        → ¬ StillRuns (observe a) a.launch
        → (r.outcome ≡ lost) × (r.attempt_id ≡ a.attempt_id)
        → commit_recovered_lost p (meanwhile a s) a r ≡ ok (w, v)
        → HasResult u a.attempt_id
        → Reconciled u v xs rs
        → Reconciled u s (a ∷ xs) (r ∷ rs)
    moved_on :
        {s : Store} {a : UnfinishedAttempt} {xs : List UnfinishedAttempt} {rs : List ResultEnvelope}
        → ¬ StillRuns (observe a) a.launch
        → MovedOn (meanwhile a s) a
        → Reconciled u (meanwhile a s) xs rs
        → Reconciled u s (a ∷ xs) rs
