-- ===== src/Store/Takeover/Commit.antt =====
-- The commit of a handoff: what it binds, whom it shuts out, and that it may be repeated.
use text.Mathlib.TextEquality.{eq_iff}
use brgr.Base.{
  Bool-cases, List, Option, Option-cases, Result-cases, String, [], ap, arith, err, find?, inl, inr,
  list_eq, nat_eq, none, ok, option_eq, refl, some, string_eq, subst, sym, true, ℕ, ◌+◌, ◌==◌, ◌∙◌,
  ◌∷◌, ◌≡◌, ◌≢◌,
}
use brgr.Protocol.{OwnerId, outcome_eq, state_eq}
use brgr.Store.{
  Store, TakeoverRow, TakeoverState, committed, owner_binding_conflict, prepared, run_state_eq,
  takeover_beq_iff, takeover_state_eq,
}
use brgr.Store.Owner.{assert_owner_binding, binding_of, rebind_in_transaction}
use brgr.Store.Owner.Binding.{rebind_lem}
use brgr.Store.Takeovers.{Takeover, append_event, load_takeover, read_binding, row_of, set_state}
use brgr.Store.Takeover.{commit_takeover, past_commit}
use brgr.Store.Takeover.Moves.{moved}
use brgr.Store.Takeover.OneOpen.{has_id}

moved_state :
    (id : ℕ) (to : TakeoverState) (reason : Option String) (xs : List TakeoverRow) (x : TakeoverRow)
    → find? (has_id id) (moved id to reason xs) ≡ some x
    → x.state ≡ to
moved_state id to reason [] x h = cc
moved_state id to reason (y ∷ ys) x h = elim (Bool-cases (y.takeover_id == id)) [
  | inl hit ↦ ground arith
  | inr out ↦ moved_state id to reason ys x (ground arith)
]

done_row :
    (w : Store) (id : ℕ) (to : TakeoverState) (reason detail : Option String) (t : Takeover)
    → load_takeover (append_event (set_state w id to reason) id to detail) id ≡ ok t
    → t.state ≡ to
unfolding load_takeover row_of set_state append_event
done_row w id to reason detail t h = moved_state id to reason w.head_takeovers t.row (ground arith)

done_binding :
    (w : Store) (id : ℕ) (to : TakeoverState) (reason detail : Option String) (o : OwnerId)
    → binding_of (append_event (set_state w id to reason) id to detail) o ≡ binding_of w o
unfolding binding_of set_state append_event
done_binding w id to reason detail o = refl

-- A commit that goes through from `prepared`, between two different sessions: the handoff is
-- committed; the owner is bound to the incoming session at the epoch after the one the handoff
-- started from; and the proof of the outgoing session is a conflict.
pub commit-hands_over :
    (s u : Store) (id : ℕ) (row : TakeoverRow) (t : Takeover)
    → row_of s id ≡ some row
    → row.state ≡ prepared
    → row.from_session ≢ row.to_session
    → commit_takeover s id ≡ ok (t, u)
    → (t.state ≡ committed)
      × (binding_of u row.owner_id
          ≡ some (record {
            owner_id = row.owner_id;
            session_id = row.to_session;
            binding_epoch = row.from_epoch + 1;
          }))
      × (assert_owner_binding u row.owner_id (some row.from_session) (some row.from_epoch)
          ≡ err owner_binding_conflict)
unfolding commit_takeover load_takeover read_binding assert_owner_binding
commit-hands_over s u id row t found ready apart h =
    elim (Option-cases (binding_of s row.owner_id)) [
      | inl unbound ↦ absurd (ground (arith, takeover_beq_iff row.state prepared))
      | inr (b, bound) ↦ elim (Result-cases (rebind_in_transaction s row.owner_id row.to_session)) [
        | inr (x, big) ↦ absurd (ground (arith, takeover_beq_iff row.state prepared))
        | inl ((e, w), rebound) ↦
            let same_session : b.session_id ≡ row.from_session =
              ground (
                arith,
                takeover_beq_iff row.state prepared,
                eq_iff b.session_id row.from_session,
              ) in
            let same_epoch : b.binding_epoch ≡ row.from_epoch =
              ground (arith, takeover_beq_iff row.state prepared) in
            let moved_on =
              (rebind_lem s row.owner_id row.to_session e w rebound).1 b bound
                (λ same. apart (sym same_session ∙ same)) in
            let done : append_event (set_state w id committed none) id committed none ≡ u =
              ground (arith, takeover_beq_iff row.state prepared) in
            let loaded : load_takeover
                  (append_event (set_state w id committed none) id committed none) id
                ≡ ok t =
              ground (arith, takeover_beq_iff row.state prepared) in
            let here : binding_of u row.owner_id ≡ binding_of w row.owner_id =
              ap (λ z. binding_of z row.owner_id) (sym done)
              ∙ done_binding w id committed none none row.owner_id in
            let next : e ≡ row.from_epoch + 1 = ground arith in
            let now = here ∙ moved_on.1 in
            (
              done_row w id committed none none t loaded,
              ground arith,
              ground (arith, eq_iff row.from_session row.to_session),
            )
      ]
    ]

past_committed : (a : TakeoverState) → a ≡ committed → past_commit a ≡ true
unfolding past_commit
past_committed a h = ground arith

-- A commit that went through, repeated on what it left, reports the same record and changes nothing.
commit-again :
    (s u : Store) (id : ℕ) (t : Takeover)
    → commit_takeover s id ≡ ok (t, u)
    → commit_takeover u id ≡ ok (t, u)
unfolding commit_takeover
commit-again s u id t h = elim (Result-cases (load_takeover s id)) [
  | inr (x, missing) ↦ cc (rw missing at h)
  | inl (r, loaded) ↦ elim (Bool-cases (r.state == prepared)) [
    | inr other ↦
        let same : s ≡ u = ground arith in subst (λ z. commit_takeover z id ≡ ok (t, u)) same h
    | inl ready ↦ elim (Result-cases (rebind_in_transaction s r.owner_id r.to_session)) [
      | inr (x, big) ↦ absurd (ground arith)
      | inl ((e, w), rebound) ↦
          let done : append_event (set_state w id committed none) id committed none ≡ u =
            ground arith in
          let loaded2 : load_takeover
                (append_event (set_state w id committed none) id committed none) id
              ≡ ok t =
            ground arith in
          let there : load_takeover u id ≡ ok t =
            ap (λ z. load_takeover z id) (sym done) ∙ loaded2 in
          let now = done_row w id committed none none t loaded2 in
          let past = past_committed t.state now in ground arith
    ]
  ]
]
