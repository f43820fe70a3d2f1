-- ===== src/Scenarios/Notices.antt =====
-- A debate of two siblings, a native delivery, and a notice of a result.
use brgr.Base.{
  Bool, List, String, [], ap, arith, err, false, is_blank, list_eq, nat_eq, none, ok, option_eq,
  refl, some, string_eq, true, ℕ, ◌==◌, ◌∷◌, ◌≡◌, ◌≢◌,
}
use brgr.Protocol.{AttemptId, TaskId, outcome_eq, running, state_eq}
use brgr.Rows.{direction_eq, kind_eq, question}
use brgr.Store.{
  AttemptRow, Delivery, NotificationRow, Store, StoreError, TaskRow, run_state_eq, running,
  takeover_state_eq,
}
use brgr.Store.Owner.{binding_of, cleared}
use brgr.Store.Attempts.{attempt_of, task_row}
use brgr.Store.Delegation.{edge_of, max_revision}
use brgr.Store.Messages.{active_message_attempt}
use brgr.Store.Debates.{
  PeerDraft, check_peer_reply, check_side, claim_native_delivery, create_debate_with_proof, debate,
  group_of, is_running, joining, peer_value, post_peer_message_with_proof, stop_debate_with_proof,
  store_debate, store_peer, task_spec, validate_peer,
}
use brgr.Store.Debates.Calls.{DebateCall, create, debates_after, post_peer, read_peer}
use brgr.Store.Debates.Stopped.{stopped-refuses}
use brgr.Store.Debates.Seated.{Seated, debates_after-Seated}
use brgr.Store.Debates.Native.{ended, finished-never_again, native_after, release}
use brgr.Store.Notifications.{
  NotificationTarget, claim_is_held, claim_notification, claim_set, deliverable, delivered_set,
  is_pending, mark_notification_delivered, surface_matches, surface_of,
}
use brgr.Store.Notifications.Leases.{claim-excludes}
use brgr.Store.Notifications.Once.{NoticeCall, claim, delivered-once, mark, notices_after, release}
use brgr.Scenarios.Data.{alice, platform, spec, task_store}

abbrev sibling : TaskRow
sibling = record {
  task_id = 2;
  revision = 1;
  owner_id = alice;
  create_request_id = "req-2";
  request_digest = "d2";
  spec = record spec { task_id = 2 };
}

abbrev row_for : AttemptId → TaskId → AttemptRow
row_for id task = record { attempt_id = id; task_id = task; revision = 1; state = running }

abbrev siblings : Store
siblings = record task_store {
  tasks = sibling ∷ task_store.tasks;
  attempts = row_for 6 2 ∷ row_for 5 1 ∷ [];
}

abbrev debating : Bool → Store
debating open_ = record siblings {
  debate_groups = record { group_id = "g"; owner_id = alice; active = open_ } ∷ [];
  debate_members =
      record { group_id = "g"; task_id = 1; attempt_id = 5 }
      ∷ record { group_id = "g"; task_id = 2; attempt_id = 6 }
      ∷ [];
}

abbrev draft : PeerDraft
draft = record {
  id = "p1";
  group = "g";
  from_task = 1;
  to_task = 2;
  kind = question;
  body = "agreed?";
  reply_to = none;
}

creates :
    create_debate_with_proof platform siblings "g" (1 ∷ 2 ∷ []) none
    ≡ ok (record { id = "g"; owner = alice; active = true; members = 1 ∷ 2 ∷ [] }, debating true)
unfolding create_debate_with_proof task_spec max_revision task_row joining edge_of
    active_message_attempt store_debate group_of debate
creates = refl

posts :
    post_peer_message_with_proof platform (debating true) draft 5 none
    ≡ ok
        (peer_value draft 5 6, record (debating true) { peer_messages = peer_value draft 5 6 ∷ [] })
unfolding post_peer_message_with_proof validate_peer is_blank debate group_of active_message_attempt
    check_side is_running attempt_of check_peer_reply store_peer
posts = refl

stops_ : stop_debate_with_proof (debating true) "g" none ≡ ok (debating false)
unfolding stop_debate_with_proof debate group_of
stops_ = refl

stopped-refuses_example :
    (e : StoreError) × (post_peer_message_with_proof platform
        (debates_after platform (debating false) (create "g" (1 ∷ 2 ∷ []) none ∷ []))
        draft
        5
        none
      ≡ err e)
stopped-refuses_example =
    stopped-refuses platform (debating true) (debating false) "g" none none
      (create "g" (1 ∷ 2 ∷ []) none ∷ []) draft 5 stops_ refl

no_peers : Seated siblings.debate_members siblings.peer_messages
unfolding Seated
no_peers = tt

abbrev debate_calls : List DebateCall
debate_calls = create "g" (1 ∷ 2 ∷ []) none ∷ post_peer draft 5 none ∷ read_peer "p1" 2 6 none ∷ []

debates_after-Seated_example :
    Seated
      (debates_after platform siblings debate_calls).debate_members
      (debates_after platform siblings debate_calls).peer_messages
debates_after-Seated_example = debates_after-Seated platform siblings debate_calls no_peers

claims_native : (claim_native_delivery siblings "q1" 5 "pane").0 ≡ true
unfolding claim_native_delivery
claims_native = refl

finished-never_again_example :
    (claim_native_delivery
      (native_after (ended siblings "q1" 5 "pane" none) (release "q1" ∷ []))
      "q1"
      5
      "pane").0
    ≡ false
finished-never_again_example =
    finished-never_again siblings "q1" 5 5 "pane" "pane" none (release "q1" ∷ []) claims_native

abbrev notice : Delivery → ℕ → NotificationRow
notice d n = record {
  result_id = 9;
  task_id = 1;
  owner_id = alice;
  resolved = false;
  delivery = d;
  attempts = n;
  last_error = none;
}

abbrev noticed : Delivery → ℕ → Store
noticed d n = record task_store {
  completion_notifications = notice d n ∷ [];
  inbox_items = record { owner_id = alice; result_id = 9; acknowledged = false } ∷ [];
  owner_surfaces =
      record {
        owner_id = alice;
        session_id = "s1";
        binding_epoch = 1;
        pane_id = "pane";
        herdr_session = none;
        herdr_bin = "herdr";
      }
      ∷ [];
}

abbrev target : NotificationTarget
target = record {
  result_id = 9;
  task_id = 1;
  owner_id = alice;
  session_id = "s1";
  binding_epoch = 1;
  pane_id = "pane";
  herdr_session = none;
  herdr_bin = "herdr";
}

abbrev by : String → ℕ → Delivery
by token until = claim_set token until cleared

claims :
    claim_notification (noticed cleared 0) 9 "a" 100 30 ≡ ok (some target, noticed (by "a" 130) 1)
unfolding claim_notification is_pending surface_of binding_of claim_is_held
claims = refl

apart : ◌≢◌ {A = String} "b" "a"
apart e =
    let text : String → Bool = λ t. t == "b" in let same : text "b" ≡ text "a" = ap text e in cc

claim-excludes_example :
    claim_notification (noticed (by "a" 130) 1) 9 "b" 110 30
    ≢ ok (some target, noticed (by "b" 140) 2)
claim-excludes_example =
    claim-excludes (noticed cleared 0) (noticed (by "a" 130) 1) (noticed (by "b" 140) 2) 9 "a" "b"
      100 110 30 30 target target claims apart (omega arith)

marks :
    mark_notification_delivered (noticed (by "b" 230) 2) target "b"
    ≡ ok (noticed (delivered_set "s1" 1 "pane") 2)
unfolding mark_notification_delivered deliverable surface_matches surface_of binding_of
marks = refl

abbrev told : Store
told = noticed (delivered_set "s1" 1 "pane") 2

abbrev notice_calls : List NoticeCall
notice_calls = claim 9 "b" 300 30 ∷ mark target "b" ∷ release 9 "b" "late" ∷ []

delivered-once_example :
    (claim_notification (notices_after told notice_calls) 9 "a" 500 30
      ≢ ok (some target, noticed cleared 0))
    × (mark_notification_delivered (notices_after told notice_calls) target "a"
        ≢ ok (noticed cleared 0))
delivered-once_example =
    delivered-once (noticed (by "b" 230) 2) told (noticed cleared 0) target target "b" "a" 500 30
      notice_calls (omega arith) marks refl
