-- ===== src/Store/Owner/Epoch.antt =====
-- The epoch of a binding identifies its session for good, so a proof that went stale stays stale.
use text.Mathlib.TextEquality.{eq_iff}
use brgr.Base.{
  Bool-cases, List, Option, Option-cases, Result, Result-cases, String, [], ap, arith, err, find?,
  inl, inr, is_blank, list_eq, nat_beq_iff, nat_eq, none, ok, option_eq, refl, some, store_of,
  string_eq, subst, sym, ℕ, ◌==◌, ◌∙◌, ◌∷◌, ◌≡◌, ◌≢◌, ◌≤◌,
}
use brgr.Protocol.{OwnerId, outcome_eq, state_eq}
use brgr.Store.{
  BindingRow, Platform, Store, StoreError, TakeoverRow, WriteOutcome, owner_binding_conflict,
  prepared, run_state_eq, takeover_state_eq,
}
use brgr.Store.Owner.{
  assert_owner_binding, bind_owner, binding_of, rebind_in_transaction, rebind_owner,
}
use brgr.Store.Owner.Binding.{binding_of-put, rebind_lem}
use brgr.Store.Takeovers.{append_event, load_takeover, read_binding, set_state}
use brgr.Store.Takeover.{commit_takeover, insert_takeover, open_takeover, with_key}
use brgr.Store.Takeover.Claim.{
  AbandonedClaim, claim_abandoned_takeover, insert_claim, replay_claim, supersede, supersede_open,
}

-- A call that may move a binding.
pub data BindingCall : Type 0 where
  bind : OwnerId → String → ℕ → BindingCall
  rebind : OwnerId → String → BindingCall
  commit_handoff : ℕ → BindingCall
  claim_abandoned : Platform → ℕ → ℕ → OwnerId → AbandonedClaim → BindingCall

abbrev pub after {ℓ} : {A : Type ℓ} {B : Type ℓ} → A → Result B A → A
after s (ok t) = t
after s (err e) = s

abbrev second {ℓ} : {E A : Type ℓ} {B : Type ℓ} → Result E (B × A) → Result E A
second (ok p) = ok p.1
second (err e) = err e

unfoldable pub perform : Store → BindingCall → Result StoreError Store
perform s (bind owner session epoch) = second (bind_owner s owner session epoch)
perform s (rebind owner session) = second (rebind_owner s owner session)
perform s (commit_handoff id) = store_of (commit_takeover s id)
perform s (claim_abandoned p manifest_id id owner c) =
    store_of (claim_abandoned_takeover p s manifest_id id owner c)

-- Calls in any order, the refused ones included.
unfoldable pub bindings_after : Store → List BindingCall → Store
bindings_after s [] = s
bindings_after s (c ∷ cs) = bindings_after (after s (perform s c)) cs

-- `b` may be followed by `c`: the epoch does not fall, and one epoch has one session.
abbrev pub Follows : BindingRow → BindingRow → Type 0
Follows b c =
    (b.binding_epoch ≤ c.binding_epoch)
    × (c.binding_epoch ≡ b.binding_epoch → c.session_id ≡ b.session_id)

-- The owner's binding in the second store is one that may follow `b`.
abbrev pub Bound : Store → OwnerId → BindingRow → Type 0
Bound s owner b = (c : BindingRow) × (binding_of s owner ≡ some c) × Follows b c

Follows-trans : (a b c : BindingRow) → Follows a b → Follows b c → Follows a c
Follows-trans a b c h k =
    (omega arith, λ e. k.1 (omega (arith, h.0, k.0)) ∙ h.1 (omega (arith, h.0, k.0)))

rebind-Bound :
    (s : Store) (o owner : OwnerId) (session : String) (b : BindingRow) (e : ℕ) (t : Store)
    → binding_of s owner ≡ some b
    → rebind_in_transaction s o session ≡ ok (e, t)
    → Bound t owner b
rebind-Bound s o owner session b e t found h =
    let (same, other, fresh, rest) = rebind_lem s o session e t h in
    elim (Bool-cases (o == owner)) [
      | inr apart ↦
          (b, rest owner (λ p. ground (arith, eq_iff o owner)) ∙ found, (omega arith, λ x. refl))
      | inl here ↦
          let mine : binding_of s o ≡ some b = rw ((eq_iff o owner).0 here) found in
          elim (Bool-cases (b.session_id == session)) [
            | inl stays ↦
                let kept = (same b mine ((eq_iff b.session_id session).0 stays)).1 in
                (b, rw kept found, (omega arith, λ x. refl))
            | inr moves ↦
                let moved = other b mine (λ p. ground (arith, eq_iff b.session_id session)) in
                (
                  record { owner_id = o; session_id = session; binding_epoch = e },
                  rw (← (eq_iff o owner).0 here) moved.1,
                  (omega (arith, moved.0), λ x. absurd (omega (arith, moved.0))),
                )
          ]
    ]

bind-Bound :
    (s : Store) (o owner : OwnerId) (session : String) (n : ℕ) (b : BindingRow) (w : WriteOutcome)
    (t : Store)
    → binding_of s owner ≡ some b
    → bind_owner s o session n ≡ ok (w, t)
    → Bound t owner b
unfolding bind_owner
bind-Bound s o owner session n b w t found h = elim (Option-cases (binding_of s o)) [
  | inl new ↦
      let row : BindingRow = record { owner_id = o; session_id = session; binding_epoch = n } in
      elim (Bool-cases (o == owner)) [
        | inl here ↦
            let mine : binding_of s o ≡ some b = rw ((eq_iff o owner).0 here) found in
            absurd (ground (arith, new, mine))
        | inr apart ↦
            (b, ground (arith, new, apart, binding_of-put s row owner), (omega arith, λ x. refl))
      ]
  | inr (c, old) ↦ (b, ground (arith, eq_iff c.session_id session), (omega arith, λ x. refl))
]

-- The commit of a handoff moves the binding of its owner, and no other one.
commit-Bound :
    (s u : Store) (id : ℕ) (owner : OwnerId) (b : BindingRow)
    → binding_of s owner ≡ some b
    → store_of (commit_takeover s id) ≡ ok u
    → Bound u owner b
unfolding commit_takeover set_state append_event binding_of
commit-Bound s u id owner b found h = elim (Result-cases (load_takeover s id)) [
  | inr (x, missing) ↦ absurd (ground arith)
  | inl (t, loaded) ↦ elim (Bool-cases (t.state == prepared)) [
    | inr other ↦
        let same : u ≡ s = ground arith in
        subst (λ z. Bound z owner b) (sym same) (b, found, (omega arith, λ x. refl))
    | inl ready ↦ elim (Result-cases (rebind_in_transaction s t.owner_id t.to_session)) [
      | inr (x, big) ↦ absurd (ground arith)
      | inl ((e, w), bound) ↦
          let (c, now, follows) = rebind-Bound s t.owner_id owner t.to_session b e w found bound in
          let rows : u.owner_bindings ≡ w.owner_bindings = ground arith in
          (c, ap (find? (λ x. x.owner_id == owner)) rows ∙ now, follows)
    ]
  ]
]

opened_bindings :
    (s u : Store) (b : BindingRow) (to_session : String) (o : Option TakeoverRow)
    → supersede_open s b to_session o ≡ ok u
    → u.owner_bindings ≡ s.owner_bindings
unfolding supersede_open supersede set_state append_event
opened_bindings s u b to_session none h = ground arith
opened_bindings s u b to_session (some old) h = ground arith

inserted_bindings :
    (p : Platform) (s u : Store) (manifest_id id : ℕ) (owner : OwnerId) (c : AbandonedClaim)
    → insert_claim p s manifest_id id owner c ≡ ok u
    → u.owner_bindings ≡ s.owner_bindings
unfolding insert_claim set_state append_event insert_takeover
inserted_bindings p s u manifest_id id owner c h = ground arith

-- The claim of an abandoned head moves the binding of its owner, and no other one.
claim-Bound :
    (p : Platform) (s u : Store) (manifest_id id : ℕ) (o owner : OwnerId) (c : AbandonedClaim)
    (b : BindingRow)
    → binding_of s owner ≡ some b
    → store_of (claim_abandoned_takeover p s manifest_id id o c) ≡ ok u
    → Bound u owner b
unfolding claim_abandoned_takeover replay_claim set_state append_event binding_of
claim-Bound p s u manifest_id id o owner c b found h = elim (Result-cases (read_binding s o)) [
  | inr (x, unbound) ↦ absurd (ground arith)
  | inl (held, reads) ↦ elim (Option-cases (with_key s o c.idempotency_key)) [
    | inr (t, old) ↦
        let same : u ≡ s = ground arith in
        subst (λ z. Bound z owner b) (sym same) (b, found, (omega arith, λ x. refl))
    | inl new ↦ elim (Result-cases (supersede_open s held c.to_session (open_takeover s o))) [
      | inr (x, busy) ↦ absurd (ground arith)
      | inl (left, opened) ↦ elim (Result-cases (insert_claim p left manifest_id id o c)) [
        | inr (x, bad) ↦ absurd (ground arith)
        | inl (claimed, put) ↦ elim (Result-cases (rebind_in_transaction claimed o c.to_session)) [
          | inr (x, big) ↦ absurd (ground arith)
          | inl ((e, w), bound) ↦
              let kept_ : claimed.owner_bindings ≡ s.owner_bindings =
                inserted_bindings p left claimed manifest_id id o c put
                ∙ opened_bindings s left held c.to_session (open_takeover s o) opened in
              let (d, now, follows) =
                rebind-Bound claimed o owner c.to_session b e w
                  (ap (find? (λ x. x.owner_id == owner)) kept_ ∙ found) bound in
              let rows : u.owner_bindings ≡ w.owner_bindings = ground arith in
              (d, ap (find? (λ x. x.owner_id == owner)) rows ∙ now, follows)
        ]
      ]
    ]
  ]
]

perform-Bound :
    (s : Store) (owner : OwnerId) (b : BindingRow) (c : BindingCall)
    → binding_of s owner ≡ some b
    → Bound (after s (perform s c)) owner b
unfolding perform rebind_owner
perform-Bound s owner b (bind o session n) found = elim (Result-cases (bind_owner s o session n)) [
  | inl ((w, t), done) ↦ rw done (bind-Bound s o owner session n b w t found done)
  | inr (e, refused) ↦ rw refused (b, found, (omega arith, λ x. refl))
]
perform-Bound s owner b (rebind o session) found = elim (Bool-cases (is_blank session)) [
  | inl blank ↦ rw blank (b, found, (omega arith, λ x. refl))
  | inr given ↦ elim (Result-cases (rebind_in_transaction s o session)) [
    | inl ((e, t), done) ↦ rw (given, done) (rebind-Bound s o owner session b e t found done)
    | inr (e, refused) ↦ rw (given, refused) (b, found, (omega arith, λ x. refl))
  ]
]
perform-Bound s owner b (commit_handoff id) found =
    elim (Result-cases (store_of (commit_takeover s id))) [
      | inl (u, done) ↦ rw done (commit-Bound s u id owner b found done)
      | inr (e, refused) ↦ rw refused (b, found, (omega arith, λ x. refl))
    ]
perform-Bound s owner b (claim_abandoned p manifest_id id o c) found =
    elim (Result-cases (store_of (claim_abandoned_takeover p s manifest_id id o c))) [
      | inl (u, done) ↦ rw done (claim-Bound p s u manifest_id id o owner c b found done)
      | inr (e, refused) ↦ rw refused (b, found, (omega arith, λ x. refl))
    ]

-- After any calls that bind owners, rebind them, commit handoffs or claim an abandoned head, an owner
-- once bound is still bound, its epoch has not fallen, and if the epoch is the same the session is
-- the same.
pub bindings_after-Follows :
    (s : Store) (owner : OwnerId) (b : BindingRow) (cs : List BindingCall)
    → binding_of s owner ≡ some b
    → Bound (bindings_after s cs) owner b
unfolding bindings_after
bindings_after-Follows s owner b [] found = (b, found, (omega arith, λ x. refl))
bindings_after-Follows s owner b (c ∷ cs) found =
    let (m, now, first) = perform-Bound s owner b c found in
    let (d, last, rest) = bindings_after-Follows (after s (perform s c)) owner m cs now in
    (d, last, Follows-trans b m d first rest)

-- A session that has lost an owner to another session is refused from then on: whatever calls
-- bind owners, rebind them, commit handoffs or claim an abandoned head later, even back to it, its
-- old proof is a binding conflict.
pub stale-refused :
    (s t : Store) (owner : OwnerId) (b c : BindingRow) (cs ds : List BindingCall)
    → binding_of s owner ≡ some b
    → t ≡ bindings_after s cs
    → binding_of t owner ≡ some c
    → c.session_id ≢ b.session_id
    → assert_owner_binding (bindings_after t ds) owner (some b.session_id) (some b.binding_epoch)
      ≡ err owner_binding_conflict
unfolding assert_owner_binding
stale-refused s t owner b c cs ds found reached taken other =
    let (c', now, first) = bindings_after-Follows s owner b cs found in
    let same : c' ≡ c = ground (arith, rw (← reached) at now) in
    let (d, last, later) = bindings_after-Follows t owner c ds taken in
    let step : Follows b c = rw same at first in
    let moved : b.binding_epoch ≢ c.binding_epoch = λ e. other (step.1 (sym e)) in
    ground (arith, last, step.0, later.0, moved, nat_beq_iff b.binding_epoch d.binding_epoch)
