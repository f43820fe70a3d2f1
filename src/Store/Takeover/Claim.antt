-- ===== src/Store/Takeover/Claim.antt =====
-- src/takeover.rs: `claim_abandoned_takeover`, which moves an owner away from a head that is gone. The
-- insert of `prepared` and the two changes of state after it are the writes of one transaction.
use brgr.Base.{
  Option, Result, String, any, is_blank, len, list_eq, ltb, nat_eq, none, not, ok, option_eq,
  refuse, some, string_eq, ℕ, ◌==◌, ◌>>=◌, ◌>>◌, ◌||◌,
}
use brgr.Protocol.{OwnerId, outcome_eq, state_eq}
use brgr.Store.{
  BindingRow, HandoffManifest, Platform, Store, StoreError, TakeoverRow, committed,
  constraint_violation, database, goal_or_notes, invalid_handoff_manifest, owner_binding_conflict,
  prepared, requested, resumed, run_state_eq, superseded, takeover_binding_conflict,
  takeover_idempotency_conflict, takeover_in_progress, takeover_state_conflict, takeover_state_eq,
  to_i64,
}
use brgr.Store.Owner.{rebind_in_transaction}
use brgr.Store.Takeovers.{
  Takeover, append_event, committed_epoch, load_takeover, read_binding, set_state,
}
use brgr.Store.Handoff.{handoff_references, max_goal_bytes, max_notes_bytes, validate_manifest}
use brgr.Store.Takeover.{
  insert_manifest, insert_takeover, open_takeover, validate_request, with_key,
}

pub record AbandonedClaim : Type 0 where
  pub from_session : String
  pub to_session : String
  pub idempotency_key : String
  pub goal : String
  pub notes : String
  pub expected_epoch : ℕ

-- One text after another.
unfoldable pub joined : String → String → String
joined String.[] tail = tail
joined (String.◌∷◌ c text) tail = String.◌∷◌ c (joined text tail)

-- `replay_claim`
unfoldable pub replay_claim :
    Store → BindingRow → AbandonedClaim → Takeover → Result StoreError (Takeover × Store)
replay_claim s b c t = do
  refuse (not (t.to_session == c.to_session)) (takeover_idempotency_conflict c.idempotency_key)
  refuse (not (t.state == committed)) (takeover_state_conflict t.takeover_id t.state committed)
  refuse (not (b.session_id == c.to_session) || not (b.binding_epoch == committed_epoch t.row))
      (takeover_binding_conflict t.takeover_id)
  ok (t, s)

-- `supersede_in_transaction`
unfoldable pub supersede : Store → ℕ → String → Store
supersede s id to_session =
    let reason = some (joined "superseded by abandoned claim to " to_session) in
    append_event (set_state s id superseded reason) id superseded reason

-- A takeover that the claim leaves behind was committed, and is the one of the present binding.
unfoldable pub supersede_open :
    Store → BindingRow → String → Option TakeoverRow → Result StoreError Store
supersede_open s b to_session none = ok s
supersede_open s b to_session (some old) = do
  refuse
      (not (old.state == committed || old.state == resumed)
        || not (old.to_session == b.session_id)
        || not (committed_epoch old == b.binding_epoch))
      (takeover_in_progress old.takeover_id)
  ok (supersede s old.takeover_id to_session)

module _ (platform : Platform) where
  -- `insert_claim_in_transaction`
  unfoldable pub insert_claim : Store → ℕ → ℕ → OwnerId → AbandonedClaim → Result StoreError Store
  unfolding insert_manifest
  insert_claim s manifest_id id owner c = do
    let references = handoff_references s owner
    let m : HandoffManifest = record {
      goal = c.goal;
      decision_notes = c.notes;
      origin_session = c.from_session;
      tasks = references.tasks;
      pending_result_ids = references.pending_result_ids;
      pending_message_ids = references.pending_message_ids;
    }
    validate_manifest s owner c.from_session m
    epoch ← to_i64 c.expected_epoch
    refuse (any (λ t. t.takeover_id == id) s.head_takeovers) (database constraint_violation)
    let row : TakeoverRow = record {
      takeover_id = id;
      owner_id = owner;
      from_session = c.from_session;
      from_epoch = epoch;
      to_session = c.to_session;
      state = prepared;
      idempotency_key = c.idempotency_key;
      failure_reason = none;
    }
    let started = append_event (insert_takeover s row) id requested none
    let ready =
        append_event (set_state started id prepared none) id prepared (some "abandoned claim")
    ok (insert_manifest platform ready manifest_id id m)

  first_claim :
      Store → BindingRow → ℕ → ℕ → OwnerId → AbandonedClaim → Result StoreError (Takeover × Store)
  first_claim s b manifest_id id owner c = do
    refuse (not (b.binding_epoch == c.expected_epoch)) owner_binding_conflict
    refuse (not (b.session_id == c.from_session)) owner_binding_conflict
    left ← supersede_open s b c.to_session (open_takeover s owner)
    claimed ← insert_claim left manifest_id id owner c
    bound ← rebind_in_transaction claimed owner c.to_session
    let done = append_event (set_state bound.1 id committed none) id committed none
    t ← load_takeover done id
    ok (t, done)

  unfoldable pub claim_abandoned_takeover :
      Store → ℕ → ℕ → OwnerId → AbandonedClaim → Result StoreError (Takeover × Store)
  unfolding first_claim
  claim_abandoned_takeover s manifest_id id owner c = do
    validate_request c.from_session c.to_session c.idempotency_key
    refuse (is_blank c.goal || ltb max_goal_bytes (len c.goal) || ltb max_notes_bytes (len c.notes))
        (invalid_handoff_manifest goal_or_notes)
    b ← read_binding s owner
    elim (with_key s owner c.idempotency_key) [
      | some recorded ↦ load_takeover s recorded.takeover_id >>= replay_claim s b c
      | none ↦ first_claim s b manifest_id id owner c
    ]
