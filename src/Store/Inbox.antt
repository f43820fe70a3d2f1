-- ===== src/Store/Inbox.antt =====
-- src/result.rs and `record_decision_in_transaction` of src/lib.rs: acknowledgement of results and
-- the sole decision on a candidate.
pub mod Sole
use brgr.Base.{
  Bool, List, Option, Result, String, [], any, count, err, false, filter, find?, if◌then◌else◌,
  is_empty, leb, list_eq, nat_eq, none, not, ok, ok_or, option_eq, refuse, some, string_eq, true,
  update, ℕ, ◌&&◌, ◌==◌, ◌>>=◌, ◌>>◌, ◌||◌, ◌∷◌,
}
use brgr.Protocol.{
  Decision, DecisionVerdict, OwnerId, ResultId, TaskId, TerminalOutcome, accepted, candidate,
  failed, lost, outcome_eq, rejected, state_eq,
}
use brgr.Store.{
  InboxRow, Platform, ResultRow, Store, StoreError, WriteOutcome, already_applied,
  constraint_violation, database, decision_conflict, decision_owner_mismatch,
  decision_requires_candidate, decision_requires_sealed_artifact, decision_result_mismatch, failed,
  inbox_item_not_found, inserted, result_digest_mismatch, result_not_found, run_state_eq,
  takeover_state_eq,
}
use brgr.Store.Owner.{assert_owner_binding}
use brgr.Store.Takeovers.{note_owner_action}
use brgr.Store.Attempts.{task_row}
use brgr.Store.Attempts.Terminal.{validate_schema, verify_all}

abbrev pub in_inbox : OwnerId → ResultId → InboxRow → Bool
in_inbox owner id i = i.owner_id == owner && i.result_id == id

-- The two UPDATEs of an acknowledgement.
unfoldable pub mark_acknowledged : Store → OwnerId → ResultId → Store
mark_acknowledged s owner id = record s {
  inbox_items = update (in_inbox owner id) (λ i. record i { acknowledged = true }) s.inbox_items;
  completion_notifications =
      update (λ n. n.result_id == id)
        (λ n. record n {
          resolved = true;
          delivery = record n.delivery { claim_token = none; claim_until = 0 };
        })
        s.completion_notifications;
}

unfoldable pub acknowledge : Store → OwnerId → ResultId → Result StoreError Store
acknowledge s owner id = do
  refuse (count (in_inbox owner id) s.inbox_items == 0) inbox_item_not_found
  ok (mark_acknowledged s owner id)

unfoldable pub acknowledge_bound : Store → OwnerId → ResultId → String → ℕ → Result StoreError Store
acknowledge_bound s owner id session epoch = do
  assert_owner_binding s owner (some session) (some epoch)
  u ← note_owner_action s owner session epoch
  acknowledge u owner id

abbrev pub is_failure : TerminalOutcome → Bool
is_failure failed = true
is_failure lost = true
is_failure _ = false

-- The unacknowledged results in the owner's inbox, of the task and up to the revision, that failed.
unfoldable pub failures_through : Store → OwnerId → TaskId → ℕ → List ResultRow
failures_through s owner task through =
    filter
      (λ r.
        any (λ i. in_inbox owner r.result_id i && not i.acknowledged) s.inbox_items
        && r.task_id == task
        && leb r.revision through
        && is_failure r.envelope.outcome)
      s.results

abbrev pub acknowledge_all : OwnerId → List ResultRow → Store → Store
acknowledge_all owner [] s = s
acknowledge_all owner (r ∷ rs) s = acknowledge_all owner rs (mark_acknowledged s owner r.result_id)

unfoldable pub acknowledge_failures :
    Store → OwnerId → TaskId → ℕ → String → ℕ → Result StoreError Store
acknowledge_failures s owner task through session epoch = do
  assert_owner_binding s owner (some session) (some epoch)
  u ← note_owner_action s owner session epoch
  ok (acknowledge_all owner (failures_through u owner task through) u)

abbrev pub same_verdict : DecisionVerdict → DecisionVerdict → Bool
same_verdict accepted accepted = true
same_verdict rejected rejected = true
same_verdict _ _ = false

-- `decisions_equal_except_id`
unfoldable pub same_decision : Decision → Decision → Bool
same_decision d e =
    d.schema == e.schema
    && d.owner_id == e.owner_id
    && d.task_id == e.task_id
    && d.revision == e.revision
    && d.result_id == e.result_id
    && d.result_digest == e.result_digest
    && d.session_id == e.session_id
    && d.binding_epoch == e.binding_epoch
    && same_verdict d.verdict e.verdict
    && d.reason == e.reason

unfoldable pub decision_for_result : Store → ResultId → Option Decision
decision_for_result s id = elim (find? (λ d. d.result_id == id) s.decisions) [
  | none ↦ none
  | some d ↦ some d.decision
]

unfoldable pub result_row : Store → ResultId → Option ResultRow
result_row s id = find? (λ r. r.result_id == id) s.results

unfoldable pub inbox_row : Store → ResultId → Option InboxRow
inbox_row s id = find? (λ i. i.result_id == id) s.inbox_items

-- What the note of the owner's action needs of a decision.
unfoldable pub note_decider : Store → Decision → Result StoreError Store
note_decider s d = elim (d.session_id) [
  | none ↦ ok s
  | some session ↦ elim (d.binding_epoch) [
    | none ↦ ok s
    | some epoch ↦ note_owner_action s d.owner_id session epoch
  ]
]

unfoldable pub insert_decision : Store → Decision → Result StoreError (WriteOutcome × Store)
insert_decision s d = do
  refuse
      (any (λ x. x.result_id == d.result_id || x.decision.decision_id == d.decision_id) s.decisions)
      (database constraint_violation)
  ok (
    inserted,
    record s { decisions = record { result_id = d.result_id; decision = d } ∷ s.decisions },
  )

module _ (platform : Platform) where
  -- The guards on a first decision, then its row.
  unfoldable pub first_decision : Store → Decision → Result StoreError (WriteOutcome × Store)
  first_decision s d = do
    r ← ok_or (result_row s d.result_id) (result_not_found d.result_id)
    i ← ok_or (inbox_row s d.result_id) (result_not_found d.result_id)
    t ← ok_or (task_row s r.task_id r.revision) (result_not_found d.result_id)
    refuse (not (r.envelope.outcome == candidate)) decision_requires_candidate
    refuse (is_empty r.envelope.artifacts) decision_requires_sealed_artifact
    refuse (not (r.result_digest == d.result_digest)) result_digest_mismatch
    refuse (not (i.owner_id == d.owner_id)) decision_owner_mismatch
    refuse (not (r.task_id == d.task_id) || not (r.revision == d.revision)) decision_result_mismatch
    verify_all platform.read_verified t.spec.artifact_contract.max_bytes r.envelope.artifacts
    insert_decision s d

  -- `record_decision_in_transaction`
  unfoldable pub record_decision : Store → Decision → Result StoreError (WriteOutcome × Store)
  record_decision s d = do
    validate_schema d.schema
    assert_owner_binding s d.owner_id d.session_id d.binding_epoch
    u ← note_decider s d
    elim (decision_for_result u d.result_id) [
      | some stored ↦
          if same_decision stored d
          then ok (already_applied, u)
          else err (decision_conflict d.result_id)
      | none ↦ first_decision u d
    ]

  unfoldable pub record_decision_and_ack :
      Store → Decision → Result StoreError (WriteOutcome × Store)
  record_decision_and_ack s d = do
    p ← record_decision s d
    refuse (not (count (in_inbox d.owner_id d.result_id) p.1.inbox_items == 1)) inbox_item_not_found
    ok (p.0, mark_acknowledged p.1 d.owner_id d.result_id)
