-- ===== src/Store/Tasks.antt =====
-- src/task.rs and `record_idempotency` of src/lib.rs: the admission of a task revision.
pub mod Replay
pub mod Depth
use brgr.Base.{
  Bool, Option, Result, String, any, err, false, find?, if◌then◌else◌, is_blank, list_eq, map_err,
  nat_eq, none, not, ok, option_beq, option_eq, refuse, some, string_eq, ℕ, ◌&&◌, ◌==◌, ◌>>=◌, ◌>>◌,
  ◌||◌, ◌∷◌,
}
use brgr.Protocol.{TaskId, TaskSpec, outcome_eq, state_eq}
use brgr.Protocol.Validate.{validate}
use brgr.Store.{
  Platform, Store, StoreError, TaskRow, WriteOutcome, already_applied, constraint_violation,
  database, idempotency_conflict, inserted, invalid_delegation_parent, invalid_request_digest,
  owner_proof_mismatch, protocol, run_state_eq, takeover_state_eq,
}
use brgr.Store.Owner.{OwnerProof}
use brgr.Store.Takeovers.{assert_owner_proof, note_owner_action}
use brgr.Store.Delegation.{
  Parent, recorded_parent, same_parent, validate_new_parent, validated_parent_depth,
}

unfoldable pub validate_digest : String → Result StoreError (Unit {0})
validate_digest digest = refuse (is_blank digest) invalid_request_digest

-- `record_idempotency`
unfoldable pub record_idempotency :
    Store → String → String → Result StoreError (WriteOutcome × Store)
record_idempotency s request digest =
    elim (find? (λ i. i.request_id == request) s.idempotency_requests) [
      | some stored ↦
          if stored.request_digest == digest
          then ok (already_applied, s)
          else err (idempotency_conflict request)
      | none ↦ ok (
        inserted,
        record s {
          idempotency_requests =
              record { request_id = request; request_digest = digest } ∷ s.idempotency_requests;
        },
      )
    ]

-- The owner-side proof of a bound admission.
unfoldable pub assert_author : Store → TaskSpec → Option OwnerProof → Result StoreError Store
assert_author s task none = ok s
assert_author s task (some proof) = do
  u ← assert_owner_proof s proof
  refuse (not (task.owner_id == proof.owner_id)) owner_proof_mismatch
  note_owner_action u proof.owner_id proof.session_id proof.binding_epoch

abbrev pub is_request : TaskSpec → Option TaskRow → Bool
is_request task none = false
is_request task (some t) = t.task_id == task.task_id && t.revision == task.revision

abbrev pub names_other : Option Parent → Option Parent → Bool
names_other recorded none = false
names_other recorded (some q) = not (option_beq same_parent recorded (some q))

-- `replayed_task`
unfoldable pub replayed_task :
    Store → TaskSpec → Option Parent → Option Parent → Result StoreError (Unit {0})
replayed_task s task recorded wanted = do
  refuse
      (not (is_request task (find? (λ t. t.create_request_id == task.create_request_id) s.tasks)))
      (idempotency_conflict task.create_request_id)
  refuse (names_other recorded wanted) invalid_delegation_parent

-- INSERT INTO tasks, under its two keys.
unfoldable pub insert_task : Store → TaskSpec → String → Result StoreError Store
insert_task s task digest = do
  refuse
      (any
        (λ t.
          t.task_id == task.task_id && t.revision == task.revision
          || t.create_request_id == task.create_request_id)
        s.tasks)
      (database constraint_violation)
  ok (record s {
    tasks =
        record {
          task_id = task.task_id;
          revision = task.revision;
          owner_id = task.owner_id;
          create_request_id = task.create_request_id;
          request_digest = digest;
          spec = task;
        }
        ∷ s.tasks;
  })

add_edge : Store → TaskId → Parent → ℕ → Store
add_edge s child p depth = record s {
  delegation_edges =
      record { child_task_id = child; parent_task_id = p.0; parent_attempt_id = p.1; depth = depth }
      ∷ s.delegation_edges;
}

-- The edge is inserted with a parent and a depth, and when none is recorded.
unfoldable pub insert_edge : Store → TaskId → Option Parent → Option ℕ → Option Parent → Store
unfolding add_edge
insert_edge s child (some p) (some depth) none = add_edge s child p depth
insert_edge s child _ _ _ = s

module _ (platform : Platform) where
  unfoldable pub first_task :
      Store
      → TaskSpec
      → String
      → Option Parent
      → Option Parent
      → Result StoreError (WriteOutcome × Store)
  first_task s task digest recorded parent = do
    validate_new_parent s task.task_id recorded parent
    depth ← validated_parent_depth platform s task parent
    u ← insert_task s task digest
    ok (inserted, insert_edge u task.task_id parent depth recorded)

  -- `record_task_in_transaction`
  unfoldable pub record_in_transaction :
      Store
      → TaskSpec
      → String
      → Option Parent
      → Option OwnerProof
      → Result StoreError (WriteOutcome × Store)
  record_in_transaction s task digest parent proof = do
    v ← assert_author s task proof
    p ← record_idempotency v task.create_request_id digest
    elim (p.0) [
      | already_applied ↦ do
        replayed_task p.1 task (recorded_parent p.1 task.task_id) parent
        ok (already_applied, p.1)
      | inserted ↦ first_task p.1 task digest (recorded_parent p.1 task.task_id) parent
    ]

  -- `record_task_with_parent`, which every public admission calls.
  unfoldable pub record_task :
      Store
      → TaskSpec
      → String
      → Option Parent
      → Option OwnerProof
      → Result StoreError (WriteOutcome × Store)
  record_task s task digest parent proof = do
    map_err protocol (validate task)
    validate_digest digest
    record_in_transaction s task digest parent proof
