-- ===== src/Store/Takeover.antt =====
-- src/takeover.rs: the operations on handoffs. A fresh id is an argument. The unique indices on
-- `head_takeovers` are not tested here; Takeover/OneOpen shows that no operation could break one.
pub mod Closing
pub mod Claim
pub mod Moves
pub mod Trail
pub mod OneOpen
pub mod Commit
use text.Mathlib.Text.{is_char_boundary}
use Prim.Native.String.{slice}
use brgr.Base.{
  Bool, Option, Result, String, err, false, find?, if◌then◌else◌, is_blank, is_empty, leb, len,
  list_eq, ltb, nat_eq, none, not, ok, ok_or, option_eq, refuse, some, string_eq, suc, true, zero,
  ℕ, ◌&&◌, ◌==◌, ◌>>=◌, ◌>>◌, ◌||◌, ◌∷◌,
}
use brgr.Protocol.{OwnerId, outcome_eq, state_eq}
use brgr.Store.{
  HandoffManifest, ManifestRow, Platform, RequestFault, Store, StoreError, TakeoverRow,
  TakeoverState, aborted, committed, constraint_violation, database, empty_reason,
  handoff_manifest_conflict, incoming_session, invalid_takeover_request, outgoing_session,
  owner_binding_conflict, prepared, requested, resumed, retire_failed, retired, run_state_eq,
  same_session, takeover_binding_conflict, takeover_has_open_work, takeover_idempotency_conflict,
  takeover_in_progress, takeover_not_found, takeover_state_conflict, takeover_state_eq, to_i64,
}
use brgr.Store.Owner.{assert_owner_binding, rebind_in_transaction}
use brgr.Store.Takeovers.{
  Takeover, append_event, committed_epoch, is_terminal, load_takeover, manifest_row,
  note_owner_action, read_binding, require_transition, row_of, set_state,
}
use brgr.Store.Handoff.{
  HandoffReferences, handoff_references, max_key_bytes, max_session_bytes, pending_message_ids,
  pending_result_ids, validate_manifest,
}

unfoldable pub validate_request : String → String → String → Result StoreError (Unit {0})
validate_request from to key = do
  refuse (is_blank from || ltb max_session_bytes (len from))
      (invalid_takeover_request outgoing_session)
  refuse (is_blank to || ltb max_session_bytes (len to)) (invalid_takeover_request incoming_session)
  refuse (from == to) (invalid_takeover_request same_session)
  refuse (is_blank key || ltb max_key_bytes (len key))
      (invalid_takeover_request RequestFault.idempotency_key)

abbrev pub max_reason_bytes : ℕ
max_reason_bytes = 512

-- `while !reason.is_char_boundary(end) { end -= 1 }`
unfoldable pub boundary_below : String → ℕ → ℕ
boundary_below s zero = 0
boundary_below s (suc end) =
    let rest = boundary_below s end in if is_char_boundary s (suc end) then suc end else rest

unfoldable pub bounded_reason : String → Result StoreError String
bounded_reason reason =
    if is_blank reason
    then err (invalid_takeover_request empty_reason)
    else if leb (len reason) max_reason_bytes
    then ok reason
    else ok (slice reason 0 (boundary_below reason max_reason_bytes))

unfoldable pub with_key : Store → OwnerId → String → Option TakeoverRow
with_key s owner key = find? (λ t. t.owner_id == owner && t.idempotency_key == key) s.head_takeovers

unfoldable pub open_takeover : Store → OwnerId → Option TakeoverRow
open_takeover s owner =
    find? (λ t. t.owner_id == owner && not (is_terminal t.state)) s.head_takeovers

unfoldable pub insert_takeover : Store → TakeoverRow → Store
insert_takeover s row = record s { head_takeovers = row ∷ s.head_takeovers }

replay_request : Store → String → String → String → Takeover → Result StoreError (Takeover × Store)
replay_request s from to key t =
    if t.from_session == from && t.to_session == to
    then ok (t, s)
    else err (takeover_idempotency_conflict key)

no_open : Option TakeoverRow → Result StoreError (Unit {0})
no_open none = ok tt
no_open (some t) = err (takeover_in_progress t.takeover_id)

-- The primary key: an id that is taken is refused by the INSERT.
no_row : Option TakeoverRow → Result StoreError (Unit {0})
no_row none = ok tt
no_row (some t) = err (database constraint_violation)

start_request :
    Store → ℕ → OwnerId → String → String → String → Result StoreError (Takeover × Store)
unfolding no_open no_row
start_request s id owner from to key = do
  b ← read_binding s owner
  refuse (not (b.session_id == from)) owner_binding_conflict
  no_open (open_takeover s owner)
  stored ← to_i64 b.binding_epoch
  no_row (row_of s id)
  let row : TakeoverRow = record {
    takeover_id = id;
    owner_id = owner;
    from_session = from;
    from_epoch = stored;
    to_session = to;
    state = requested;
    idempotency_key = key;
    failure_reason = none;
  }
  let done = append_event (insert_takeover s row) id requested none
  t ← load_takeover done id
  ok (t, done)

unfoldable pub request_takeover :
    Store → ℕ → OwnerId → String → String → String → Result StoreError (Takeover × Store)
unfolding replay_request start_request
request_takeover s id owner from to key = do
  validate_request from to key
  elim (with_key s owner key) [
    | none ↦ start_request s id owner from to key
    | some t ↦ load_takeover s t.takeover_id >>= replay_request s from to key
  ]

module _ (platform : Platform) where
  pub insert_manifest : Store → ℕ → ℕ → HandoffManifest → Store
  insert_manifest s manifest_id id m = record s {
    handoff_manifests =
        record {
          manifest_id = manifest_id;
          takeover_id = id;
          manifest = m;
          digest = platform.manifest_digest m;
        }
        ∷ s.handoff_manifests;
  }

  -- A manifest is there already: a replay, unless the handoff was aborted.
  replay_prepare :
      Store → ℕ → HandoffManifest → Takeover → ManifestRow → Result StoreError (Takeover × Store)
  replay_prepare s id m t stored = do
    refuse (t.state == aborted) (takeover_state_conflict id t.state prepared)
    refuse (not (stored.digest == platform.manifest_digest m)) (handoff_manifest_conflict id)
    ok (t, s)

  first_prepare : Store → ℕ → ℕ → HandoffManifest → Takeover → Result StoreError (Takeover × Store)
  unfolding insert_manifest
  first_prepare s manifest_id id m t = do
    require_transition id t.state prepared
    validate_manifest s t.owner_id t.from_session m
    let written = insert_manifest s manifest_id id m
    let done = append_event (set_state written id prepared none) id prepared none
    u ← load_takeover done id
    ok (u, done)

  unfoldable pub prepare_takeover :
      Store → ℕ → ℕ → HandoffManifest → Result StoreError (Takeover × Store)
  unfolding replay_prepare first_prepare
  prepare_takeover s manifest_id id m = do
    t ← load_takeover s id
    elim (manifest_row s id) [
      | some stored ↦ replay_prepare s id m t stored
      | none ↦ first_prepare s manifest_id id m t
    ]

-- The states in which a repeated commit reports the record as it stands.
unfoldable pub past_commit : TakeoverState → Bool
past_commit committed = true
past_commit resumed = true
past_commit retired = true
past_commit retire_failed = true
past_commit _ = false

move_head : Store → ℕ → Takeover → Result StoreError (Takeover × Store)
move_head s id t = do
  b ← read_binding s t.owner_id
  refuse (not (b.session_id == t.from_session) || not (b.binding_epoch == t.from_epoch))
      (takeover_binding_conflict id)
  (epoch, bound) ← rebind_in_transaction s t.owner_id t.to_session
  let done = append_event (set_state bound id committed none) id committed none
  u ← load_takeover done id
  ok (u, done)

unfoldable pub commit_takeover : Store → ℕ → Result StoreError (Takeover × Store)
unfolding move_head
commit_takeover s id = do
  t ← load_takeover s id
  if t.state == prepared
      then move_head s id t
      else if past_commit t.state
      then ok (t, s)
      else err (takeover_state_conflict id t.state committed)

unfoldable pub has_open_work : HandoffReferences → Bool
has_open_work r =
    not (is_empty r.tasks)
    || not (is_empty r.pending_result_ids)
    || not (is_empty r.pending_message_ids)

-- The states in which a repeated resume by the incoming session reports the record.
unfoldable pub past_resume : TakeoverState → Bool
past_resume resumed = true
past_resume retired = true
past_resume retire_failed = true
past_resume _ = false

resume_committed : Store → ℕ → String → Takeover → Result StoreError (Takeover × Store)
resume_committed s id session t = do
  refuse (not (t.state == committed)) (takeover_state_conflict id t.state resumed)
  refuse (not (t.to_session == session)) (takeover_binding_conflict id)
  refuse (has_open_work (handoff_references s t.owner_id)) (takeover_has_open_work id)
  assert_owner_binding s t.owner_id (some session) (some (committed_epoch t.row))
  done ← note_owner_action s t.owner_id session (committed_epoch t.row)
  u ← load_takeover done id
  ok (u, done)

unfoldable pub resume_idle_takeover : Store → ℕ → String → Result StoreError (Takeover × Store)
unfolding resume_committed
resume_idle_takeover s id session = do
  row ← ok_or (row_of s id) (takeover_not_found id)
  t ← load_takeover s id
  if past_resume t.state && t.to_session == session
      then ok (t, s)
      else resume_committed s id session t
