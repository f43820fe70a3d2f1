-- ===== src/Store/Handoff/Owned.antt =====
-- A manifest that is accepted points only at open work of the owner.
use brgr.Base.{
  All, Bool, Eq, List, String, [], any, arith, false, length, list_eq, nat_eq, ok, option_eq,
  string_eq, true, ◌&&◌, ◌==◌, ◌∷◌, ◌≡◌, ◌≤◌,
}
use brgr.Protocol.{OwnerId, outcome_eq, state_eq}
use brgr.Store.{
  HandoffManifest, ManifestTask, Store, StoreError, message_not_pending, message_twice,
  result_not_pending, result_twice, run_state_eq, takeover_state_eq,
}
use brgr.Store.Settle.{of_revision, revision_settlement}
use brgr.Store.Handoff.{
  invalid, max_refs, pending_message_ids, pending_result_ids, settlement_is_open, validate_manifest,
  validate_references, validate_task_references,
}

-- What is asked of a task that a manifest names.
pub record IsOwed (s : Store) (owner : OwnerId) (r : ManifestTask) : Type 0 where
  pub owned :
      any (λ t. t.task_id == r.task_id && t.revision == r.revision && t.owner_id == owner) s.tasks
      ≡ true
  pub attempted :
      any (λ a. a.attempt_id == r.attempt_id && of_revision r.task_id r.revision a) s.attempts
      ≡ true
  pub still_owed : settlement_is_open (revision_settlement s r.task_id r.revision) ≡ true

abbrev pub names : ManifestTask → ManifestTask → Bool
names r n = n.task_id == r.task_id && n.revision == r.revision

-- No entry of the list matches an entry before it, nor one of `seen`.
abbrev pub Distinct {ℓ} : {A : Type ℓ} → (A → A → Bool) → List A → List A → Type 0
Distinct same seen [] = Unit
Distinct same seen (x ∷ xs) = (any (same x) seen ≡ false) × Distinct same (x ∷ seen) xs

tasks-IsOwed :
    (s : Store) (owner : OwnerId) (seen rs : List ManifestTask)
    → validate_task_references s owner seen rs ≡ ok tt
    → All (IsOwed s owner) rs × Distinct names seen rs
unfolding validate_task_references
tasks-IsOwed s owner seen [] h = (tt, tt)
tasks-IsOwed s owner seen (r ∷ rs) h =
    let rest = tasks-IsOwed s owner (r ∷ seen) rs (ground arith) in
    (
      (
        record { owned = ground arith; attempted = ground arith; still_owed = ground arith },
        rest.0,
      ),
      (ground arith, rest.1),
    )

references_pending :
    {A : Type 0} ⦃e : Eq A⦄ (twice missing : StoreError) (pending seen xs : List A)
    → validate_references twice missing pending seen xs ≡ ok tt
    → All (λ x. any (λ y. y == x) pending ≡ true) xs × Distinct (λ x y. y == x) seen xs
unfolding validate_references
references_pending twice missing pending seen [] h = (tt, tt)
references_pending twice missing pending seen (x ∷ xs) h =
    let rest = references_pending twice missing pending (x ∷ seen) xs (ground arith) in
    ((ground arith, rest.0), (ground arith, rest.1))

-- What the incoming session is handed: bounded lists, each without repetition, of the owner's own
-- open task revisions with attempts of theirs, and of the owner's pending results and messages.
pub record IsHonest (s : Store) (owner : OwnerId) (m : HandoffManifest) : Type 0 where
  pub bounded :
      (length m.tasks ≤ max_refs)
      × (length m.pending_result_ids ≤ max_refs)
      × (length m.pending_message_ids ≤ max_refs)
  pub tasks_owed : All (IsOwed s owner) m.tasks × Distinct names [] m.tasks
  pub results_pending :
      All (λ x. any (λ y. y == x) (pending_result_ids s owner) ≡ true) m.pending_result_ids
      × Distinct (λ x y. y == x) [] m.pending_result_ids
  pub messages_pending :
      All (λ x. any (λ y. y == x) (pending_message_ids s owner) ≡ true) m.pending_message_ids
      × Distinct (λ x y. y == x) [] m.pending_message_ids

-- A manifest that passes, whatever it says, hands over bounded lists without repetitions, of task
-- revisions that the owner has and that are not settled, each with an attempt of that revision, and
-- of results and messages that the owner has pending.
pub validate_manifest-IsHonest :
    (s : Store) (owner : OwnerId) (from_session : String) (m : HandoffManifest)
    → validate_manifest s owner from_session m ≡ ok tt
    → IsHonest s owner m
unfolding validate_manifest
validate_manifest-IsHonest s owner from_session m h = record {
  bounded = (ground arith, ground arith, ground arith);
  tasks_owed = tasks-IsOwed s owner [] m.tasks (ground arith);
  results_pending =
      references_pending (invalid result_twice) (invalid result_not_pending)
        (pending_result_ids s owner) [] m.pending_result_ids (ground arith);
  messages_pending =
      references_pending (invalid message_twice) (invalid message_not_pending)
        (pending_message_ids s owner) [] m.pending_message_ids (ground arith);
}
