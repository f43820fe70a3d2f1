-- ===== src/Store/Notifications.antt =====
-- src/notification.rs: telling the pane of an owner's current session of results, of workflow runs
-- and of questions. A notice is claimed with a token for a lease, then delivered or released. Times
-- are seconds.
pub mod Leases
pub mod Once
use brgr.Base.{
  Bool, List, Option, Result, String, [], any, count, false, filter, find?, if◌then◌else◌, is_blank,
  list_eq, ltb, nat_eq, none, not, ok, option_eq, refuse, some, string_eq, suc, true, update, zero,
  ℕ, ◌&&◌, ◌+◌, ◌==◌, ◌>>=◌, ◌>>◌, ◌||◌, ◌∷◌,
}
use brgr.Protocol.{OwnerId, ResultId, TaskId, outcome_eq, state_eq}
use brgr.Rows.{MessageRow, SurfaceRow, direction_eq, kind_eq, note, question, worker_to_owner}
use brgr.Store.{
  BindingRow, Delivery, NotificationRow, Store, StoreError, WorkflowNoticeRow, WorkflowRunState,
  constraint_violation, database, i64_max, invalid_notification, invalid_owner_surface,
  notification_claim_stale, run_state_eq, takeover_state_eq, to_i64,
}
use brgr.Store.Owner.{assert_owner_binding, binding_of}
use brgr.Store.Messages.{attempt_owner, is_reply_to, is_some, is_withdrawn}

pub record NotificationTarget : Type 0 where
  pub result_id : ResultId
  pub task_id : TaskId
  pub owner_id : OwnerId
  pub session_id : String
  pub binding_epoch : ℕ
  pub pane_id : String
  pub herdr_session : Option String
  pub herdr_bin : String

pub record WorkflowTarget : Type 0 where
  pub run_id : String
  pub seq : ℕ
  pub state : WorkflowRunState
  pub owner_id : OwnerId
  pub session_id : String
  pub binding_epoch : ℕ
  pub pane_id : String
  pub herdr_session : Option String
  pub herdr_bin : String

-- `claim_is_held`; a row without a claim has the empty token.
unfoldable pub claim_is_held : Delivery → String → ℕ → Bool
claim_is_held d token now = ltb now d.claim_until && not (d.claim_token == some token)

-- `SURFACE_JOIN`: the pane of an owner's binding, at its session and epoch.
abbrev pub on_binding : BindingRow → SurfaceRow → Bool
on_binding b x =
    x.owner_id == b.owner_id && x.session_id == b.session_id && x.binding_epoch == b.binding_epoch

unfoldable pub surface_of : Store → OwnerId → Option (BindingRow × SurfaceRow)
surface_of s owner = elim (binding_of s owner) [
  | none ↦ none
  | some b ↦ elim (find? (on_binding b) s.owner_surfaces) [ none ↦ none | some x ↦ some (b, x) ]
]

-- `owner_surface_matches`
unfoldable pub surface_matches : Store → OwnerId → String → ℕ → String → Bool
surface_matches s owner session epoch pane = elim (surface_of s owner) [
  | none ↦ false
  | some p ↦ p.0.session_id == session && p.0.binding_epoch == epoch && p.1.pane_id == pane
]

-- `now_seconds.saturating_add(lease_seconds)`
abbrev pub lease_end : ℕ → ℕ → ℕ
lease_end now lease = if ltb i64_max (now + lease) then i64_max else now + lease

-- `CLAIM_SET`, `DELIVERED_SET` and `RELEASE_SET`; the count of attempts and the last error stand
-- beside them.
abbrev pub claim_set : String → ℕ → Delivery → Delivery
claim_set token until d = record d { claim_token = some token; claim_until = until }

abbrev pub delivered_set : String → ℕ → String → Delivery
delivered_set session epoch pane = record {
  session = some session;
  epoch = some epoch;
  pane = some pane;
  claim_token = none;
  claim_until = 0;
}

abbrev pub release_set : Delivery → Delivery
release_set d = record d { claim_token = none; claim_until = 0 }

-- `error.chars().take(n)`
unfoldable pub take_chars : ℕ → String → String
take_chars zero text = String.[]
take_chars (suc n) String.[] = String.[]
take_chars (suc n) (String.◌∷◌ c text) = String.◌∷◌ c (take_chars n text)

unfoldable pub run_completed : Store → ResultId → Bool
run_completed s id = any (λ c. c.result_id == id) s.run_completions

unfoldable pub put_surface : Store → SurfaceRow → Store
put_surface s row = record s {
  owner_surfaces =
      if any (λ x. x.owner_id == row.owner_id) s.owner_surfaces
      then update (λ x. x.owner_id == row.owner_id) (λ x. row) s.owner_surfaces
      else row ∷ s.owner_surfaces;
}

unfoldable pub register_owner_surface :
    Store → OwnerId → String → ℕ → String → Option String → String → Result StoreError Store
register_owner_surface s owner session epoch pane herdr_session herdr_bin = do
  refuse (is_blank pane || is_blank herdr_bin) invalid_owner_surface
  assert_owner_binding s owner (some session) (some epoch)
  stored ← to_i64 epoch
  ok (
      put_surface s (record {
        owner_id = owner;
        session_id = session;
        binding_epoch = stored;
        pane_id = pane;
        herdr_session = herdr_session;
        herdr_bin = herdr_bin;
      }))

-- A notice of a result that is to be told: not resolved, not delivered, and unread in the inbox.
unfoldable pub is_pending : Store → NotificationRow → Bool
is_pending s n =
    not n.resolved
    && not (is_some n.delivery.session)
    && any (λ i. i.result_id == n.result_id && i.owner_id == n.owner_id && not i.acknowledged)
        s.inbox_items

unfoldable pub pending_notifications_for_task : Store → TaskId → List NotificationRow
pending_notifications_for_task s task =
    filter (λ n. n.task_id == task && is_pending s n) s.completion_notifications

unfoldable pub claim_notification :
    Store → ResultId → String → ℕ → ℕ → Result StoreError (Option NotificationTarget × Store)
claim_notification s id token now lease = do
  refuse (token == "" || lease == 0) invalid_notification
  elim (find? (λ n. n.result_id == id && is_pending s n) s.completion_notifications) [
    | none ↦ ok (none, s)
    | some n ↦ elim (surface_of s n.owner_id) [
      | none ↦ ok (none, s)
      | some p ↦
          if claim_is_held n.delivery token now
          then ok (none, s)
          else ok (
            some (record {
              result_id = id;
              task_id = n.task_id;
              owner_id = n.owner_id;
              session_id = p.0.session_id;
              binding_epoch = p.0.binding_epoch;
              pane_id = p.1.pane_id;
              herdr_session = p.1.herdr_session;
              herdr_bin = p.1.herdr_bin;
            }),
            record s {
              completion_notifications =
                  update (λ x. x.result_id == id)
                    (λ x. record x {
                      delivery = claim_set token (lease_end now lease) x.delivery;
                      attempts = x.attempts + 1;
                    })
                    s.completion_notifications;
            },
          )
    ]
  ]

unfoldable pub deliverable : Store → NotificationTarget → String → NotificationRow → Bool
deliverable s t token n =
    n.result_id == t.result_id
    && n.delivery.claim_token == some token
    && not n.resolved
    && not (is_some n.delivery.session)
    && surface_matches s n.owner_id t.session_id t.binding_epoch t.pane_id

unfoldable pub mark_notification_delivered :
    Store → NotificationTarget → String → Result StoreError Store
mark_notification_delivered s t token = do
  epoch ← to_i64 t.binding_epoch
  refuse (not (count (deliverable s t token) s.completion_notifications == 1))
      notification_claim_stale
  ok (record s {
    completion_notifications =
        update (deliverable s t token)
          (λ n. record n {
            delivery = delivered_set t.session_id epoch t.pane_id;
            last_error = none;
          })
          s.completion_notifications;
  })

unfoldable pub release_notification_claim : Store → ResultId → String → String → Store
release_notification_claim s id token error = record s {
  completion_notifications =
      update (λ n. n.result_id == id && n.delivery.claim_token == some token && not n.resolved)
        (λ n. record n {
          delivery = release_set n.delivery;
          last_error = some (take_chars 512 error);
        })
        s.completion_notifications;
}

abbrev pub is_notice : String → ℕ → WorkflowNoticeRow → Bool
is_notice run seq n = n.run_id == run && n.seq == seq

unfoldable pub claim_workflow_notification :
    Store → String → ℕ → String → ℕ → ℕ → Result StoreError (Option WorkflowTarget × Store)
claim_workflow_notification s run seq token now lease = do
  refuse (token == "" || lease == 0) invalid_notification
  stored ← to_i64 seq
  elim (find? (λ n. is_notice run stored n && not n.resolved && not (is_some n.delivery.session))
      s.workflow_notifications) [
        | none ↦ ok (none, s)
        | some n ↦ elim (surface_of s n.owner_id) [
          | none ↦ ok (none, s)
          | some p ↦
              if claim_is_held n.delivery token now
              then ok (none, s)
              else ok (
                some (record {
                  run_id = run;
                  seq = seq;
                  state = n.state;
                  owner_id = n.owner_id;
                  session_id = p.0.session_id;
                  binding_epoch = p.0.binding_epoch;
                  pane_id = p.1.pane_id;
                  herdr_session = p.1.herdr_session;
                  herdr_bin = p.1.herdr_bin;
                }),
                record s {
                  workflow_notifications =
                      update (is_notice run stored)
                        (λ x. record x {
                          delivery = claim_set token (lease_end now lease) x.delivery;
                          attempts = x.attempts + 1;
                        })
                        s.workflow_notifications;
                },
              )
        ]
      ]

unfoldable pub workflow_deliverable : Store → WorkflowTarget → String → WorkflowNoticeRow → Bool
workflow_deliverable s t token n =
    is_notice t.run_id t.seq n
    && n.delivery.claim_token == some token
    && not n.resolved
    && not (is_some n.delivery.session)
    && surface_matches s n.owner_id t.session_id t.binding_epoch t.pane_id

unfoldable pub mark_workflow_notification_delivered :
    Store → WorkflowTarget → String → Result StoreError Store
mark_workflow_notification_delivered s t token = do
  epoch ← to_i64 t.binding_epoch
  stored ← to_i64 t.seq
  refuse (not (count (workflow_deliverable s t token) s.workflow_notifications == 1))
      notification_claim_stale
  ok (record s {
    workflow_notifications =
        update (workflow_deliverable s t token)
          (λ n. record n {
            delivery = delivered_set t.session_id epoch t.pane_id;
            last_error = none;
          })
          s.workflow_notifications;
  })

unfoldable pub release_workflow_notification_claim :
    Store → String → ℕ → String → String → Result StoreError Store
release_workflow_notification_claim s run seq token error = do
  stored ← to_i64 seq
  ok (record s {
    workflow_notifications =
        update
          (λ n. is_notice run stored n && n.delivery.claim_token == some token && not n.resolved)
          (λ n. record n {
            delivery = release_set n.delivery;
            last_error = some (take_chars 512 error);
          })
          s.workflow_notifications;
  })

unfoldable pub resolve_workflow_notification : Store → String → ℕ → Result StoreError Store
resolve_workflow_notification s run seq = do
  stored ← to_i64 seq
  ok (record s {
    workflow_notifications =
        update (is_notice run stored)
          (λ n. record n { resolved = true; delivery = release_set n.delivery })
          s.workflow_notifications;
  })

abbrev pub is_told : Store → String → String → Bool
is_told s id session = any (λ n. n.message_id == id && n.session_id == session) s.question_notices

-- A worker's question or note that the owner's current session has not been told of.
unfoldable pub is_pending_question : Store → TaskId → MessageRow → Bool
is_pending_question s task q =
    q.task_id == task
    && (q.kind == question || q.kind == note)
    && q.direction == worker_to_owner
    && not q.acknowledged
    && not (any (is_reply_to (some q.message_id)) s.task_messages)
    && not (is_withdrawn s q.message_id)
    && elim (attempt_owner s q.attempt_id) [
      | none ↦ false
      | some owner ↦ elim (surface_of s owner) [
        | none ↦ false
        | some p ↦ not (is_told s q.message_id p.0.session_id)
      ]
    ]

unfoldable pub pending_question_notices : Store → TaskId → List MessageRow
pending_question_notices s task = filter (is_pending_question s task) s.task_messages

-- INSERT OR IGNORE, under the foreign key to task_messages.
unfoldable pub record_question_notice : Store → String → String → Result StoreError Store
record_question_notice s id session = if is_told s id session then ok s else do
  refuse (not (any (λ m. m.message_id == id) s.task_messages)) (database constraint_violation)
  ok (record s {
    question_notices = record { message_id = id; session_id = session } ∷ s.question_notices;
  })
