-- ===== src/Store/Notifications/Once.antt =====
-- A notice is delivered once while its owner is not transferred.
use brgr.Base.{
  All, All-map, All→any, Bool, Bool-cases, List, Option, Result-cases, String, [], arith, count,
  count-none, count-sole, false, found-All, found_id, inl, inr, kept, list_eq, nat_eq, none, not,
  ok, option_eq, refl, some, store_of, string_eq, subst, sym, true, update, update-turns, ℕ, ◌&&◌,
  ◌==◌, ◌∷◌, ◌≡◌, ◌≢◌, ◌≤◌,
}
use brgr.Protocol.{OwnerId, ResultId, outcome_eq, state_eq}
use brgr.Rows.{direction_eq, kind_eq}
use brgr.Store.{NotificationRow, Store, run_state_eq, takeover_state_eq, to_i64}
use brgr.Store.Messages.{is_some}
use brgr.Store.Notifications.{
  NotificationTarget, claim_notification, deliverable, delivered_set, is_pending, lease_end,
  mark_notification_delivered, put_surface, register_owner_surface, release_notification_claim,
  release_set, take_chars,
}
use brgr.Store.Notifications.Leases.{claim-Given, claimed_as, has_id, waits}

delivered-rows :
    (s u : Store) (t : NotificationTarget) (token : String)
    → count (has_id t.result_id) s.completion_notifications ≤ 1
    → mark_notification_delivered s t token ≡ ok u
    → All
        (λ n. has_id t.result_id n && not (is_some n.delivery.session) ≡ false)
        u.completion_notifications
unfolding mark_notification_delivered deliverable
delivered-rows s u t token sole h =
    let within : (n : NotificationRow)
        → deliverable s t token n && not (has_id t.result_id n) ≡ false =
      λ n. ground arith in
    let one : count (deliverable s t token) s.completion_notifications ≡ 1 = ground arith in
    let same =
      count-sole (deliverable s t token) (has_id t.result_id) s.completion_notifications within sole
        one in
    elim (Result-cases (to_i64 t.binding_epoch)) [
      | inr (e, bad) ↦ absurd (ground arith)
      | inl (epoch, fits) ↦
          let turned =
            update-turns (deliverable s t token) (has_id t.result_id)
              (λ n. record n {
                delivery = delivered_set t.session_id epoch t.pane_id;
                last_error = none;
              })
              (λ n. is_some n.delivery.session) s.completion_notifications (λ n. refl) same in
          let made : u ≡ record s {
            completion_notifications =
                update (deliverable s t token)
                  (λ n. record n {
                    delivery = delivered_set t.session_id epoch t.pane_id;
                    last_error = none;
                  })
                  s.completion_notifications;
          } =
            ground arith in
          rw made turned
    ]

-- The calls on notices of results; a transfer of the owner, which clears deliveries, is not one.
pub data NoticeCall : Type 0 where
  claim : ResultId → String → ℕ → ℕ → NoticeCall
  mark : NotificationTarget → String → NoticeCall
  release : ResultId → String → String → NoticeCall
  register : OwnerId → String → ℕ → String → Option String → String → NoticeCall

-- What a call leaves, which is the store as it was where the call is refused.
unfoldable pub perform : Store → NoticeCall → Store
perform s (claim id token now lease) = kept s (store_of (claim_notification s id token now lease))
perform s (mark t token) = kept s (mark_notification_delivered s t token)
perform s (release id token error) = release_notification_claim s id token error
perform s (register owner session epoch pane herdr_session herdr_bin) =
    kept s (register_owner_surface s owner session epoch pane herdr_session herdr_bin)

unfoldable pub notices_after : Store → List NoticeCall → Store
notices_after s [] = s
notices_after s (c ∷ cs) = notices_after (perform s c) cs

-- Every notice of the result is told.
abbrev Told : ResultId → List NotificationRow → Type 0
Told id = All (λ n. has_id id n && not (is_some n.delivery.session) ≡ false)

All-update :
    (P : NotificationRow → Type 0) (p : NotificationRow → Bool)
    (f : NotificationRow → NotificationRow) (xs : List NotificationRow)
    → ((n : NotificationRow) → P n → P (f n))
    → All P xs
    → All P (update p f xs)
All-update P p f [] keeps h = tt
All-update P p f (x ∷ xs) keeps h =
    let rest = All-update P p f xs keeps h.1 in
    elim (Bool-cases (p x)) [
      | inl hit ↦ (rw hit (keeps x h.0), rest)
      | inr out ↦ (rw out h.0, rest)
    ]

perform-Told :
    (s : Store) (id : ResultId) (c : NoticeCall)
    → Told id s.completion_notifications
    → Told id (perform s c).completion_notifications
unfolding perform claim_notification mark_notification_delivered release_notification_claim
    register_owner_surface put_surface
perform-Told s id (claim other token now lease) h =
    elim (Result-cases (claim_notification s other token now lease)) [
      | inr (e, bad) ↦ rw bad h
      | inl ((none, u), idle_) ↦
          let same : u ≡ s = ground arith in
          rw idle_ (subst (λ z. Told id z.completion_notifications) (sym same) h)
      | inl ((some t, u), given) ↦
          let made = (claim-Given s u other token now lease t given).made in
          rw given (
            subst (λ z. Told id z.completion_notifications) (sym made)
              (All-update _ (has_id other) (claimed_as other token (lease_end now lease))
                s.completion_notifications (λ n told. told) h))
    ]
perform-Told s id (mark t token) h = elim (Result-cases (to_i64 t.binding_epoch)) [
  | inr (e, bad) ↦ rw bad h
  | inl (epoch, fits) ↦
      elim (Bool-cases (count (deliverable s t token) s.completion_notifications == 1)) [
        | inr stale ↦ rw (fits, stale) h
        | inl sole ↦
            rw (fits, sole)
              (All-update _ (deliverable s t token)
                (λ n. record n {
                  delivery = delivered_set t.session_id epoch t.pane_id;
                  last_error = none;
                })
                s.completion_notifications (λ n told. ground arith) h)
      ]
]
perform-Told s id (release other token error) h =
    All-update _
      (λ n. n.result_id == other && n.delivery.claim_token == some token && not n.resolved)
      (λ n. record n {
        delivery = release_set n.delivery;
        last_error = some (take_chars 512 error);
      })
      s.completion_notifications (λ n told. told) h
perform-Told s id (register owner session epoch pane herdr_session herdr_bin) h =
    elim (Result-cases
      (register_owner_surface s owner session epoch pane herdr_session herdr_bin)) [
        | inr (e, bad) ↦ rw bad h
        | inl (u, done) ↦
            let same : u.completion_notifications ≡ s.completion_notifications = ground arith in
            rw done (subst (Told id) (sym same) h)
      ]

after-Told :
    (s : Store) (id : ResultId) (cs : List NoticeCall)
    → Told id s.completion_notifications
    → Told id (notices_after s cs).completion_notifications
unfolding notices_after
after-Told s id [] h = h
after-Told s id (c ∷ cs) h = after-Told (perform s c) id cs (perform-Told s id c h)

Told-claim :
    (u v : Store) (id : ResultId) (w : NotificationTarget) (other : String) (now lease : ℕ)
    → Told id u.completion_notifications
    → claim_notification u id other now lease ≢ ok (some w, v)
unfolding is_pending
Told-claim u v id w other now lease rows claimed =
    let g = claim-Given u v id other now lease w claimed in
    let it = found_id (waits u id) u.completion_notifications (g.row) (g.found) in
    let out =
      found-All (λ n. has_id id n && not (is_some n.delivery.session) ≡ false) (waits u id)
        u.completion_notifications (g.row) (g.found) rows in
    absurd (ground arith)

Told-mark :
    (u v : Store) (id : ResultId) (w : NotificationTarget) (other : String)
    → w.result_id ≡ id
    → Told id u.completion_notifications
    → mark_notification_delivered u w other ≢ ok v
unfolding mark_notification_delivered deliverable
Told-mark u v id w other same rows again =
    let none_ = All→any (deliverable u w other) u.completion_notifications (
      All-map u.completion_notifications
        (λ n told. elim (Bool-cases (deliverable u w other n)) [
          | inr out ↦ out
          | inl hit ↦
              let mine : (n.result_id == id) ≡ true =
                subst (λ i. (n.result_id == i) ≡ true) same (ground arith) in
              absurd (ground arith)
        ])
        rows) in
    let zero_ = count-none (deliverable u w other) u.completion_notifications none_ in
    absurd (ground arith)

-- While its owner is not transferred, a notice that is delivered stays so: after any claims, marks,
-- releases and registrations of surfaces it is neither claimed again nor marked again. A transfer
-- of the owner clears the delivery, and is not among the calls.
pub delivered-once :
    (s u v : Store) (t w : NotificationTarget) (token other : String) (now lease : ℕ)
    (cs : List NoticeCall)
    → count (has_id t.result_id) s.completion_notifications ≤ 1
    → mark_notification_delivered s t token ≡ ok u
    → w.result_id ≡ t.result_id
    → (claim_notification (notices_after u cs) t.result_id other now lease ≢ ok (some w, v))
      × (mark_notification_delivered (notices_after u cs) w other ≢ ok v)
delivered-once s u v t w token other now lease cs sole done same =
    let rows = after-Told u t.result_id cs (delivered-rows s u t token sole done) in
    (
      Told-claim (notices_after u cs) v t.result_id w other now lease rows,
      Told-mark (notices_after u cs) v t.result_id w other same rows,
    )
