-- ===== src/Store/Owner/Binding.antt =====
-- What a written or moved binding reads back as.
use text.Mathlib.TextEquality.{eq_iff}
use brgr.Base.{
  Bool, List, Result, Result-cases, String, [], any, arith, find?, if◌then◌else◌, inl, inr, list_eq,
  nat_eq, none, ok, option_eq, refl, some, string_eq, update, ℕ, ◌+◌, ◌==◌, ◌∷◌, ◌≡◌, ◌≢◌,
}
use brgr.Protocol.{OwnerId, outcome_eq, state_eq}
use brgr.Store.{BindingRow, Store, StoreError, run_state_eq, takeover_state_eq}
use brgr.Store.Owner.{
  binding_of, move_binding, next_epoch, put_binding, rebind_in_transaction, requeue_completions,
  requeue_workflows,
}

owned : OwnerId → BindingRow → Bool
owned owner b = b.owner_id == owner

find-update :
    (bs : List BindingRow) (row : BindingRow) (o : OwnerId)
    → find? (owned o) (update (owned row.owner_id) (λ b. row) bs) ≡ (
        if row.owner_id == o
        then (if any (owned row.owner_id) bs then some row else none)
        else find? (owned o) bs)
unfolding owned
find-update [] row o = ground arith
find-update (b ∷ bs) row o = ground (
  arith,
  find-update bs row o,
  eq_iff b.owner_id row.owner_id,
  eq_iff b.owner_id o,
  eq_iff row.owner_id o,
)

-- What is read back after a binding is written: the new row for its owner, and for every other
-- owner what was there.
pub binding_of-put :
    (s : Store) (row : BindingRow) (o : OwnerId)
    → binding_of (put_binding s row) o ≡ (if row.owner_id == o then some row else binding_of s o)
unfolding binding_of put_binding owned
binding_of-put s row o = ground (arith, find-update s.owner_bindings row o, eq_iff row.owner_id o)

binding_of-requeue :
    (s : Store) (o owner : OwnerId)
    → binding_of (requeue_workflows (requeue_completions s o) o) owner ≡ binding_of s owner
unfolding binding_of requeue_workflows requeue_completions
binding_of-requeue s o owner = refl

-- The binding that `move_binding` leaves.
binding_of-move :
    (s : Store) (o x : OwnerId) (session : String) (e : ℕ) (t : Store)
    → move_binding s o session ≡ ok (e, t)
    → binding_of t x ≡ (
        if o == x
        then some (record { owner_id = o; session_id = session; binding_epoch = e })
        else binding_of s x)
unfolding move_binding
binding_of-move s o x session e t h = elim (Result-cases (next_epoch (binding_of s o))) [
  | inl (n, found) ↦
      let row : BindingRow = record { owner_id = o; session_id = session; binding_epoch = n } in
      let done : ◌≡◌ {A = Result StoreError (ℕ × Store)} (ok (n, moved row)) (ok (e, t)) =
        rw found at h in
      ground (arith, binding_of-requeue (put_binding s row) o x, binding_of-put s row x)
  | inr (x, found) ↦ cc (rw found at h)
]
  where
    moved : BindingRow → Store
    moved row = requeue_workflows (requeue_completions (put_binding s row) o) o

move_epoch :
    (s : Store) (o : OwnerId) (session : String) (e : ℕ) (t : Store)
    → move_binding s o session ≡ ok (e, t)
    → next_epoch (binding_of s o) ≡ ok e
unfolding move_binding
move_epoch s o session e t h = ground arith

-- A transfer that goes through: the same session keeps its epoch and changes nothing; another
-- session gets the next epoch, the first being 1; no other owner's binding is touched.
pub rebind_lem :
    (s : Store) (o : OwnerId) (session : String) (e : ℕ) (t : Store)
    → rebind_in_transaction s o session ≡ ok (e, t)
    → ((b : BindingRow)
        → binding_of s o ≡ some b
        → b.session_id ≡ session
        → (e ≡ b.binding_epoch) × (t ≡ s))
      × ((b : BindingRow)
          → binding_of s o ≡ some b
          → b.session_id ≢ session
          → (e ≡ b.binding_epoch + 1)
            × (binding_of t o
                ≡ some (record { owner_id = o; session_id = session; binding_epoch = e })))
      × (binding_of s o ≡ none
          → (e ≡ 1)
            × (binding_of t o
                ≡ some (record { owner_id = o; session_id = session; binding_epoch = e })))
      × ((x : OwnerId) → x ≢ o → binding_of t x ≡ binding_of s x)
unfolding rebind_in_transaction
rebind_lem s o session e t h = (
  λ b found same. ground (arith, eq_iff b.session_id session),
  λ b found other.
      let moved : move_binding s o session ≡ ok (e, t) =
        ground (arith, eq_iff b.session_id session) in
      ground (
        arith,
        move_epoch s o session e t moved,
        binding_of-move s o o session e t moved,
        eq_iff o o,
      ),
  λ found.
      let moved : move_binding s o session ≡ ok (e, t) = ground arith in
      ground (
        arith,
        move_epoch s o session e t moved,
        binding_of-move s o o session e t moved,
        eq_iff o o,
      ),
  λ x other. ground (
    arith,
    λ (m : move_binding s o session ≡ ok (e, t)). binding_of-move s o x session e t m,
    eq_iff o x,
  ),
)
