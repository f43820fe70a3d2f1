-- ===== src/Store/Owner.antt =====
-- src/owner.rs: which session owns an owner's work, and the epoch that makes a move explicit.
pub mod Binding
pub mod Epoch
use brgr.Base.{
  Option, Result, String, any, err, find?, if◌then◌else◌, is_blank, ltb, nat_eq, none, not, ok,
  ok_or, option_eq, refuse, some, string_eq, update, ℕ, ◌&&◌, ◌+◌, ◌==◌, ◌>>=◌, ◌>>◌, ◌||◌, ◌∷◌,
}
use brgr.Protocol.{OwnerId, outcome_eq, state_eq}
use brgr.Store.{
  BindingRow, Delivery, Store, StoreError, WriteOutcome, already_applied, i64_max, inserted,
  invalid_owner_binding, numeric_overflow, owner_binding_conflict, owner_unbound, run_state_eq,
  takeover_state_eq, to_i64,
}

pub record OwnerProof : Type 0 where
  pub owner_id : OwnerId
  pub session_id : String
  pub binding_epoch : ℕ

-- `OwnerProof::new`
unfoldable pub new_proof : OwnerId → String → ℕ → Result StoreError OwnerProof
new_proof owner session epoch =
    if is_blank session || epoch == 0
    then err invalid_owner_binding
    else ok (record { owner_id = owner; session_id = session; binding_epoch = epoch })

unfoldable pub binding_of : Store → OwnerId → Option BindingRow
binding_of s owner = find? (λ b. b.owner_id == owner) s.owner_bindings

-- INSERT INTO owner_bindings … ON CONFLICT(owner_id) DO UPDATE
unfoldable pub put_binding : Store → BindingRow → Store
put_binding s row = record s {
  owner_bindings =
      if any (λ b. b.owner_id == row.owner_id) s.owner_bindings
      then update (λ b. b.owner_id == row.owner_id) (λ b. row) s.owner_bindings
      else row ∷ s.owner_bindings;
}

unfoldable pub bind_owner : Store → OwnerId → String → ℕ → Result StoreError (WriteOutcome × Store)
bind_owner s owner session epoch = do
  refuse (is_blank session || epoch == 0) invalid_owner_binding
  stored ← to_i64 epoch
  elim (binding_of s owner) [
    | some b ↦
        if b.session_id == session then ok (already_applied, s) else err owner_binding_conflict
    | none ↦ ok (
      inserted,
      put_binding s (record { owner_id = owner; session_id = session; binding_epoch = stored }),
    )
  ]

abbrev pub cleared : Delivery
cleared = record { session = none; epoch = none; pane = none; claim_token = none; claim_until = 0 }

-- The first UPDATE of `rebind_in_transaction`: unresolved notices whose result is in the owner's
-- inbox and not acknowledged.
unfoldable pub requeue_completions : Store → OwnerId → Store
requeue_completions s owner = record s {
  completion_notifications =
      update
        (λ n.
          n.owner_id == owner
          && not n.resolved
          && any (λ i. i.result_id == n.result_id && i.owner_id == owner && not i.acknowledged)
              s.inbox_items)
        (λ n. record n { delivery = cleared }) s.completion_notifications;
}

unfoldable pub requeue_workflows : Store → OwnerId → Store
requeue_workflows s owner = record s {
  workflow_notifications =
      update (λ n. n.owner_id == owner && not n.resolved) (λ n. record n { delivery = cleared })
        s.workflow_notifications;
}

-- `epoch.checked_add(1)` over `i64`; the first binding has epoch 1.
abbrev pub next_epoch : Option BindingRow → Result StoreError ℕ
next_epoch none = ok 1
next_epoch (some b) =
    if ltb b.binding_epoch i64_max then ok (b.binding_epoch + 1) else err numeric_overflow

unfoldable pub move_binding : Store → OwnerId → String → Result StoreError (ℕ × Store)
move_binding s owner session = do
  epoch ← next_epoch (binding_of s owner)
  let bound =
      put_binding s (record { owner_id = owner; session_id = session; binding_epoch = epoch })
  ok (epoch, requeue_workflows (requeue_completions bound owner) owner)

unfoldable pub rebind_in_transaction : Store → OwnerId → String → Result StoreError (ℕ × Store)
rebind_in_transaction s owner session = elim (binding_of s owner) [
  | none ↦ move_binding s owner session
  | some b ↦
      if b.session_id == session then ok (b.binding_epoch, s) else move_binding s owner session
]

unfoldable pub rebind_owner : Store → OwnerId → String → Result StoreError (ℕ × Store)
rebind_owner s owner session = do
  refuse (is_blank session) invalid_owner_binding
  rebind_in_transaction s owner session

unfoldable pub assert_owner_binding :
    Store → OwnerId → Option String → Option ℕ → Result StoreError (Unit {0})
assert_owner_binding s owner session epoch = do
  b ← ok_or (binding_of s owner) (owner_unbound owner)
  refuse (not (session == some b.session_id) || not (epoch == some b.binding_epoch))
      owner_binding_conflict
