-- ===== src/Store/Handoff.antt =====
-- src/takeover.rs: what a handoff may carry, which is references to work that is still owed.
pub mod Owned
use brgr.Base.{
  Bool, Eq, List, Option, Result, String, [], any, false, filter, find?, if◌then◌else◌, is_blank,
  len, length, list_eq, ltb, map, nat_eq, none, not, ok, option_eq, refuse, some, string_eq, true,
  ℕ, ◌&&◌, ◌++◌, ◌==◌, ◌>>=◌, ◌>>◌, ◌||◌, ◌∷◌,
}
use brgr.Protocol.{OwnerId, ResultId, TaskId, outcome_eq, state_eq}
use brgr.Rows.{MessageRow, direction_eq, worker_to_owner}
use brgr.Store.{
  AttemptRow, HandoffManifest, ManifestFault, ManifestTask, Store, StoreError, TaskRow,
  attempt_mismatch, goal_size, invalid_handoff_manifest, list_size, message_not_pending,
  message_twice, notes_size, origin_mismatch, origin_size, result_not_pending, result_twice,
  run_state_eq, takeover_state_eq, task_not_owned, task_settled, task_twice,
}
use brgr.Store.Settle.{
  Settlement, acknowledged, decided, has_decision, is_active, of_revision, revision_settlement,
  still_open,
}

abbrev pub max_goal_bytes : ℕ
max_goal_bytes = 4096

abbrev pub max_notes_bytes : ℕ
max_notes_bytes = 8192

abbrev pub max_session_bytes : ℕ
max_session_bytes = 256

abbrev pub max_key_bytes : ℕ
max_key_bytes = 128

abbrev pub max_refs : ℕ
max_refs = 256

-- `handoff_revision_is_open`
abbrev pub settlement_is_open : Settlement → Bool
settlement_is_open decided = false
settlement_is_open (acknowledged o) = false
settlement_is_open (still_open r) = true

unfoldable pub pending_result_ids : Store → OwnerId → List ResultId
pending_result_ids s owner =
    map (λ i. i.result_id)
      (filter (λ i. i.owner_id == owner && not i.acknowledged && not (has_decision s i.result_id))
        s.inbox_items)

-- The attempt of a message, joined to its task revision, which says whose the message is.
unfoldable pub message_owner : Store → MessageRow → Option OwnerId
message_owner s m = elim (find? (λ a. a.attempt_id == m.attempt_id) s.attempts) [
  | none ↦ none
  | some a ↦ elim (find? (λ t. t.task_id == a.task_id && t.revision == a.revision) s.tasks) [
    | none ↦ none
    | some t ↦ some t.owner_id
  ]
]

unfoldable pub pending_message_ids : Store → OwnerId → List String
pending_message_ids s owner =
    map (λ m. m.message_id)
      (filter
        (λ m.
          m.direction == worker_to_owner && not m.acknowledged && message_owner s m == some owner)
        s.task_messages)

-- The attempt that a manifest names for a revision: the unfinished one, or the latest.
unfoldable pub named_attempt : Store → TaskId → ℕ → Option AttemptRow
named_attempt s task revision = elim (find? (is_active task revision) s.attempts) [
  | some a ↦ some a
  | none ↦ find? (of_revision task revision) s.attempts
]

abbrev task_reference : TaskRow → Option AttemptRow → List ManifestTask
task_reference t none = []
task_reference t (some a) =
    record { task_id = t.task_id; revision = t.revision; attempt_id = a.attempt_id } ∷ []

unfoldable pub open_references : Store → OwnerId → List TaskRow → List ManifestTask
open_references s owner [] = []
open_references s owner (t ∷ ts) =
    let rest = open_references s owner ts in
    if t.owner_id == owner && settlement_is_open (revision_settlement s t.task_id t.revision)
    then task_reference t (named_attempt s t.task_id t.revision) ++ rest
    else rest

pub record HandoffReferences : Type 0 where
  pub tasks : List ManifestTask
  pub pending_result_ids : List ResultId
  pub pending_message_ids : List String

unfoldable pub handoff_references : Store → OwnerId → HandoffReferences
handoff_references s owner = record {
  tasks = open_references s owner s.tasks;
  pending_result_ids = pending_result_ids s owner;
  pending_message_ids = pending_message_ids s owner;
}

abbrev pub invalid : ManifestFault → StoreError
invalid fault = invalid_handoff_manifest fault

-- The loops of the three validators: `seen` holds what was named before.
unfoldable pub validate_task_references :
    Store → OwnerId → List ManifestTask → List ManifestTask → Result StoreError (Unit {0})
validate_task_references s owner seen [] = ok tt
validate_task_references s owner seen (r ∷ rs) =
    let rest = validate_task_references s owner (r ∷ seen) rs in
    do
      refuse (any (λ n. n.task_id == r.task_id && n.revision == r.revision) seen)
          (invalid task_twice)
      refuse
          (not (
            any (λ t. t.task_id == r.task_id && t.revision == r.revision && t.owner_id == owner)
              s.tasks))
          (invalid task_not_owned)
      refuse
          (not (
            any (λ a. a.attempt_id == r.attempt_id && of_revision r.task_id r.revision a)
              s.attempts))
          (invalid attempt_mismatch)
      refuse (not (settlement_is_open (revision_settlement s r.task_id r.revision)))
          (invalid task_settled)
      rest

unfoldable pub validate_references :
    {A : Type 0} ⦃e : Eq A⦄
    → StoreError
    → StoreError
    → List A
    → List A
    → List A
    → Result StoreError (Unit {0})
validate_references twice missing pending seen [] = ok tt
validate_references twice missing pending seen (x ∷ xs) =
    let rest = validate_references twice missing pending (x ∷ seen) xs in
    do refuse (any (λ y. y == x) seen) twice; refuse (not (any (λ y. y == x) pending)) missing; rest

unfoldable pub validate_manifest :
    Store → OwnerId → String → HandoffManifest → Result StoreError (Unit {0})
validate_manifest s owner from_session m = do
  refuse (is_blank m.goal || ltb max_goal_bytes (len m.goal)) (invalid goal_size)
  refuse (ltb max_notes_bytes (len m.decision_notes)) (invalid notes_size)
  refuse (is_blank m.origin_session || ltb max_session_bytes (len m.origin_session))
      (invalid origin_size)
  refuse (not (m.origin_session == from_session)) (invalid origin_mismatch)
  refuse
      (ltb max_refs (length m.tasks)
        || ltb max_refs (length m.pending_result_ids)
        || ltb max_refs (length m.pending_message_ids))
      (invalid list_size)
  validate_task_references s owner [] m.tasks
  validate_references (invalid result_twice) (invalid result_not_pending)
      (pending_result_ids s owner) [] m.pending_result_ids
  validate_references (invalid message_twice) (invalid message_not_pending)
      (pending_message_ids s owner) [] m.pending_message_ids
