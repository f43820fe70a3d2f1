-- ===== src/Store/Takeovers.antt =====
-- src/takeover.rs: the graph of a handoff's states, its row and its trail, and the step to
-- `resumed`, which the store takes when the incoming head acts. Times are left out of the rows.
use Prim.Native.Nat.{max}
pub mod Frame
use brgr.Base.{
  Bool, List, Option, Result, String, [], err, false, find?, if◌then◌else◌, nat_eq, none, ok, ok_or,
  option_eq, some, string_eq, true, update, ℕ, ◌&&◌, ◌+◌, ◌==◌, ◌>>=◌, ◌>>◌, ◌∷◌,
}
use brgr.Protocol.{OwnerId, outcome_eq, state_eq}
use brgr.Store.{
  BindingRow, ManifestRow, Store, StoreError, TakeoverEventRow, TakeoverRow, TakeoverState, aborted,
  committed, database, no_rows, owner_unbound, prepared, requested, resumed, retire_failed, retired,
  run_state_eq, superseded, takeover_state_conflict, takeover_state_eq, to_i64,
}
use brgr.Store.Owner.{OwnerProof, assert_owner_binding, binding_of}

unfoldable pub is_terminal : TakeoverState → Bool
is_terminal retired = true
is_terminal retire_failed = true
is_terminal aborted = true
is_terminal superseded = true
is_terminal _ = false

unfoldable pub allows : TakeoverState → TakeoverState → Bool
allows requested prepared = true
allows requested aborted = true
allows prepared committed = true
allows prepared aborted = true
allows committed resumed = true
allows committed superseded = true
allows resumed retired = true
allows resumed retire_failed = true
allows resumed superseded = true
allows _ _ = false

-- What `load_takeover` reads; the id of the manifest comes from the joined table.
pub record Takeover : Type 0 where
  pub row : TakeoverRow
  pub open row use *
  pub manifest_id : Option ℕ

-- `Takeover::committed_epoch`; the epochs stay below `i64::MAX`, where `saturating_add` is exact.
abbrev pub committed_epoch : TakeoverRow → ℕ
committed_epoch t = t.from_epoch + 1

unfoldable pub row_of : Store → ℕ → Option TakeoverRow
row_of s id = find? (λ t. t.takeover_id == id) s.head_takeovers

unfoldable pub manifest_row : Store → ℕ → Option ManifestRow
manifest_row s id = find? (λ m. m.takeover_id == id) s.handoff_manifests

abbrev pub manifest_id_of : Option ManifestRow → Option ℕ
manifest_id_of none = none
manifest_id_of (some m) = some m.manifest_id

-- `load_takeover`: a missing row is the database's own error.
unfoldable pub load_takeover : Store → ℕ → Result StoreError Takeover
load_takeover s id = do
  row ← ok_or (row_of s id) (database no_rows)
  ok (record { row = row; manifest_id = manifest_id_of (manifest_row s id) })

unfoldable pub require_transition : ℕ → TakeoverState → TakeoverState → Result StoreError (Unit {0})
require_transition id from to =
    if allows from to then ok tt else err (takeover_state_conflict id from to)

unfoldable pub set_state : Store → ℕ → TakeoverState → Option String → Store
set_state s id to reason = record s {
  head_takeovers =
      update (λ t. t.takeover_id == id) (λ t. record t { state = to; failure_reason = reason })
        s.head_takeovers;
}

-- COALESCE(MAX(seq), 0)
unfoldable pub last_seq : List TakeoverEventRow → ℕ → ℕ
last_seq [] id = 0
last_seq (e ∷ es) id =
    let rest = last_seq es id in if e.takeover_id == id then max e.seq rest else rest

unfoldable pub append_event : Store → ℕ → TakeoverState → Option String → Store
append_event s id kind detail = record s {
  takeover_events =
      record {
        takeover_id = id;
        seq = last_seq s.takeover_events id + 1;
        kind = kind;
        detail = detail;
      }
      ∷ s.takeover_events;
}

-- The committed takeover that an action of this session at this epoch resumes.
unfoldable pub awaiting : Store → OwnerId → String → ℕ → Option TakeoverRow
awaiting s owner session epoch =
    find?
      (λ t.
        t.owner_id == owner
        && t.state == committed
        && t.to_session == session
        && t.from_epoch + 1 == epoch)
      s.head_takeovers

-- The UPDATE of `note_owner_action`, which names the state that it expects and keeps the reason.
unfoldable pub mark_resumed : Store → ℕ → Store
mark_resumed s id = record s {
  head_takeovers =
      update (λ t. t.takeover_id == id && t.state == committed) (λ t. record t { state = resumed })
        s.head_takeovers;
}

unfoldable pub note_owner_action : Store → OwnerId → String → ℕ → Result StoreError Store
note_owner_action s owner session epoch = do
  bounded ← to_i64 epoch
  elim (awaiting s owner session bounded) [
    | none ↦ ok s
    | some t ↦ ok (append_event (mark_resumed s t.takeover_id) t.takeover_id resumed none)
  ]

unfoldable pub assert_owner_proof : Store → OwnerProof → Result StoreError Store
assert_owner_proof s proof = do
  assert_owner_binding s proof.owner_id (some proof.session_id) (some proof.binding_epoch)
  note_owner_action s proof.owner_id proof.session_id proof.binding_epoch

-- `read_binding`
unfoldable pub read_binding : Store → OwnerId → Result StoreError BindingRow
read_binding s owner = ok_or (binding_of s owner) (owner_unbound owner)
