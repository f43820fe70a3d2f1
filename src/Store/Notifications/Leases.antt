-- ===== src/Store/Notifications/Leases.antt =====
-- A notice of a result has one claimant at a time.
use brgr.Base.{
  ==_refl, ==→≡, All, All-map, All→any, Bool, Bool-cases, Option-cases, String, any, arith,
  count-none, err, false, find?, found-All, found_id, inl, inr, list_eq, ltb, nat_eq, not, ok,
  option_eq, some, some_inj, string_eq, subst, sym, true, update, update-holds, ℕ, ◌&&◌, ◌+◌, ◌<◌,
  ◌==◌, ◌||◌, ◌∙◌, ◌≡◌, ◌≢◌, ◌≤◌,
}
use brgr.Protocol.{ResultId, outcome_eq, state_eq}
use brgr.Rows.{SurfaceRow, direction_eq, kind_eq}
use brgr.Store.{
  BindingRow, NotificationRow, Store, i64_max, notification_claim_stale, run_state_eq,
  takeover_state_eq,
}
use brgr.Store.Notifications.{
  NotificationTarget, claim_is_held, claim_notification, claim_set, deliverable, is_pending,
  lease_end, mark_notification_delivered, surface_of,
}

abbrev pub claimed_as : ResultId → String → ℕ → NotificationRow → NotificationRow
claimed_as id token until n = record n {
  delivery = claim_set token until n.delivery;
  attempts = n.attempts + 1;
}

abbrev pub has_id : ResultId → NotificationRow → Bool
has_id id n = n.result_id == id

abbrev pub waits : Store → ResultId → NotificationRow → Bool
waits s id n = n.result_id == id && is_pending s n

-- A claim that was given: its row, which no other claim held, its target and what it wrote.
pub record Given (s u : Store) (id : ResultId) (token : String) (now lease : ℕ)
    (t : NotificationTarget) : Type 0 where
  pub row : NotificationRow
  pub bound : BindingRow
  pub surface : SurfaceRow
  pub found : find? (waits s id) s.completion_notifications ≡ some row
  pub at : surface_of s row.owner_id ≡ some (bound, surface)
  pub free : claim_is_held row.delivery token now ≡ false
  pub is : t.result_id ≡ id
  pub owner : t.owner_id ≡ row.owner_id
  pub session : t.session_id ≡ bound.session_id
  pub epoch : t.binding_epoch ≡ bound.binding_epoch
  pub made : u ≡ record s {
    completion_notifications =
        update (has_id id) (claimed_as id token (lease_end now lease)) s.completion_notifications;
  }

pub claim-Given :
    (s u : Store) (id : ResultId) (token : String) (now lease : ℕ) (t : NotificationTarget)
    → claim_notification s id token now lease ≡ ok (some t, u)
    → Given s u id token now lease t
unfolding claim_notification
claim-Given s u id token now lease t h =
    elim (Option-cases (find? (waits s id) s.completion_notifications)) [
      | inl idle_ ↦ absurd (ground arith)
      | inr (n, found) ↦ elim (Option-cases (surface_of s n.owner_id)) [
        | inl nowhere ↦ absurd (ground arith)
        | inr ((b, x), at) ↦ record {
          row = n;
          bound = b;
          surface = x;
          found = found;
          at = at;
          free = ground arith;
          is = ground arith;
          owner = ground arith;
          session = ground arith;
          epoch = ground arith;
          made = ground arith;
        }
      ]
    ]

-- The rows of a result, once its notice is claimed, all carry the claim.
claimed-rows :
    (s u : Store) (id : ResultId) (token : String) (now lease : ℕ) (t : NotificationTarget)
    → Given s u id token now lease t
    → All
        (λ n.
          not (has_id id n)
            || n.delivery.claim_token == some token && n.delivery.claim_until == lease_end now lease
          ≡ true)
        u.completion_notifications
claimed-rows s u id token now lease t g =
    let until = lease_end now lease in
    let own = ==_refl (some token) in
    let same = ==_refl until in
    let hers : NotificationRow → Bool =
      λ n. n.delivery.claim_token == some token && n.delivery.claim_until == until in
    let rows =
      update-holds (has_id id) hers (claimed_as id token until) s.completion_notifications
        (λ n. ground arith) in
    rw (g.made) rows

-- While a claim on a result lasts, a claim with another token gets nothing.
pub claim-excludes :
    (s u v : Store) (id : ResultId) (a b : String) (now later lease term : ℕ)
    (t w : NotificationTarget)
    → claim_notification s id a now lease ≡ ok (some t, u)
    → b ≢ a
    → later < lease_end now lease
    → claim_notification u id b later term ≢ ok (some w, v)
unfolding claim_is_held
claim-excludes s u v id a b now later lease term t w first other soon second =
    let g = claim-Given s u id a now lease t first in
    let k = claim-Given u v id b later term w second in
    let rows = claimed-rows s u id a now lease t g in
    let held =
      found-All
        (λ n.
          not (has_id id n)
            || n.delivery.claim_token == some a && n.delivery.claim_until == lease_end now lease
          ≡ true)
        (waits u id) u.completion_notifications k.row k.found rows in
    let it = found_id (waits u id) u.completion_notifications k.row k.found in
    let free = k.free in
    let d = k.row.delivery in
    let hers = ==→≡ d.claim_token (some a) (ground arith) in
    let until = ==→≡ d.claim_until (lease_end now lease) (ground arith) in
    let lasts : ltb later d.claim_until ≡ true = rw until (ground arith) in
    let his = ==→≡ d.claim_token (some b) (ground arith) in other (some_inj b a (sym his ∙ hers))

not_deliverable :
    (s u : Store) (id : ResultId) (b a : String) (now lease : ℕ) (t old : NotificationTarget)
    → Given s u id b now lease t
    → old.result_id ≡ id
    → a ≢ b
    → any (deliverable u old a) u.completion_notifications ≡ false
unfolding deliverable
not_deliverable s u id b a now lease t old g same other =
    let rows = claimed-rows s u id b now lease t g in
    All→any (deliverable u old a) u.completion_notifications (
      All-map u.completion_notifications
        (λ n claimed. elim (Bool-cases (deliverable u old a n)) [
          | inr out ↦ out
          | inl hit ↦
              let mine : (n.result_id == id) ≡ true =
                subst (λ i. (n.result_id == i) ≡ true) same (ground arith) in
              let his = ==→≡ n.delivery.claim_token (some a) (ground arith) in
              let hers = ==→≡ n.delivery.claim_token (some b) (ground arith) in
              absurd (other (some_inj a b (sym his ∙ hers)))
        ])
        rows)

-- A claimant whose claim was taken over after its lease cannot mark the notice delivered.
overtaken-stale :
    (s u : Store) (id : ResultId) (a b : String) (now lease : ℕ) (t old : NotificationTarget)
    → claim_notification s id b now lease ≡ ok (some t, u)
    → old.result_id ≡ id
    → old.binding_epoch ≤ i64_max
    → a ≢ b
    → mark_notification_delivered u old a ≡ err notification_claim_stale
unfolding mark_notification_delivered
overtaken-stale s u id a b now lease t old claimed same small other =
    let none_ =
      not_deliverable s u id b a now lease t old (claim-Given s u id b now lease t claimed) same
        other in
    let zero_ = count-none (deliverable u old a) u.completion_notifications none_ in ground arith
