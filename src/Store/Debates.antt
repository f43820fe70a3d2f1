-- ===== src/Store/Debates.antt =====
-- src/debate.rs: conversations between sibling tasks of one owner, and the receipts of native
-- deliveries. The order of a group's members is left out, and the time of a message.
pub mod Calls
pub mod Stopped
pub mod Seated
pub mod Native
use brgr.Base.{
  Bool, List, Option, Result, String, [], all, any, count, err, false, filter, find?, if◌then◌else◌,
  is_blank, len, length, list_eq, ltb, map, nat_eq, none, not, ok, ok_or, option_eq, refuse, some,
  string_eq, true, update, ◌&&◌, ◌++◌, ◌==◌, ◌>>=◌, ◌>>◌, ◌||◌, ◌∷◌,
}
use brgr.Protocol.{AttemptId, OwnerId, TaskId, TaskSpec, outcome_eq, state_eq}
use brgr.Rows.{
  DeliveryState, GroupRow, MemberRow, MessageKind, PeerRow, delivered, direction_eq, kind_eq,
  question, reply, sending, uncertain,
}
use brgr.Store.{
  EdgeRow, Platform, Store, StoreError, database, invalid_task_message, no_rows,
  owner_proof_mismatch, run_state_eq, takeover_state_eq, task_message_conflict,
  task_message_not_found, task_not_found,
}
use brgr.Store.Owner.{OwnerProof}
use brgr.Store.Takeovers.{assert_owner_proof}
use brgr.Store.Attempts.{attempt_of, task_row}
use brgr.Store.Delegation.{edge_of, max_revision}
use brgr.Store.Messages.{active_message_attempt, can_talk, differ, is_some, max_body_bytes, on_some}

-- `Store::task`: the specification of the latest revision.
unfoldable pub task_spec : Store → TaskId → Result StoreError TaskSpec
task_spec s task = elim (max_revision s.tasks task) [
  | none ↦ err (task_not_found task)
  | some n ↦ elim (task_row s task n) [ none ↦ err (task_not_found task) | some t ↦ ok t.spec ]
]

-- `Store::delegation_parent`
abbrev pub same_edge : Option EdgeRow → Option EdgeRow → Bool
same_edge none none = true
same_edge (some a) (some b) =
    a.parent_task_id == b.parent_task_id
    && a.parent_attempt_id == b.parent_attempt_id
    && a.depth == b.depth
same_edge _ _ = false

pub record DebateGroup : Type 0 where
  pub id : String
  pub owner : OwnerId
  pub active : Bool
  pub members : List TaskId

pub record PeerDraft : Type 0 where
  pub id : String
  pub group : String
  pub from_task : TaskId
  pub to_task : TaskId
  pub kind : MessageKind
  pub body : String
  pub reply_to : Option String

unfoldable pub group_of : Store → String → Option GroupRow
group_of s id = find? (λ g. g.group_id == id) s.debate_groups

unfoldable pub debate : Store → String → Result StoreError DebateGroup
debate s id = do
  g ← ok_or (group_of s id) (task_message_not_found id)
  ok (record {
    id = id;
    owner = g.owner_id;
    active = g.active;
    members = map (λ m. m.task_id) (filter (λ m. m.group_id == id) s.debate_members);
  })

abbrev pub check_proof : Store → Option OwnerProof → Result StoreError Store
check_proof s none = ok s
check_proof s (some proof) = assert_owner_proof s proof

-- The tasks that a proof speaks for.
unfoldable pub assert_owned_tasks : Store → OwnerId → List TaskId → Result StoreError (Unit {0})
assert_owned_tasks s owner [] = ok tt
assert_owned_tasks s owner (t ∷ ts) =
    let rest = assert_owned_tasks s owner ts in
    do spec ← task_spec s t; refuse (not (spec.owner_id == owner)) owner_proof_mismatch; rest

abbrev pub assert_tasks : Store → Option OwnerProof → List TaskId → Result StoreError (Unit {0})
assert_tasks s none tasks = ok tt
assert_tasks s (some proof) tasks = assert_owned_tasks s proof.owner_id tasks

abbrev pub subset : List TaskId → List TaskId → Bool
subset xs ys = all (λ x. any (λ y. y == x) ys) xs

abbrev pub same_members : List TaskId → List TaskId → Bool
same_members xs ys = subset xs ys && subset ys xs

abbrev pub is_member : String → TaskId → AttemptId → MemberRow → Bool
is_member group task attempt m = m.group_id == group && m.task_id == task && m.attempt_id == attempt

-- `debate_membership`
unfoldable pub debate_membership : Store → TaskId → AttemptId → Bool
debate_membership s task attempt =
    any
      (λ m.
        m.task_id == task
        && m.attempt_id == attempt
        && any (λ g. g.group_id == m.group_id && g.active) s.debate_groups)
      s.debate_members

unfoldable pub stop_debate_with_proof : Store → String → Option OwnerProof → Result StoreError Store
stop_debate_with_proof s id proof = do
  u ← check_proof s proof
  group ← debate u id
  refuse (on_some (λ (o : OwnerProof). not (group.owner == o.owner_id)) proof) owner_proof_mismatch
  ok (record u {
    debate_groups =
        update (λ g. g.group_id == id) (λ g. record g { active = false }) u.debate_groups;
  })

unfoldable pub is_running : Store → AttemptId → Result StoreError Bool
is_running s id = do a ← ok_or (attempt_of s id) (database no_rows); ok (can_talk a.state)

-- One side of a message: seated in the group with this attempt, which is still running.
unfoldable pub check_side : Store → String → TaskId → AttemptId → Result StoreError (Unit {0})
check_side s group task attempt = do
  refuse (not (any (is_member group task attempt) s.debate_members)) invalid_task_message
  r ← is_running s attempt
  refuse (not r) invalid_task_message

abbrev pub is_asked : PeerDraft → String → PeerRow → Bool
is_asked d id p =
    p.message_id == id
    && p.group_id == d.group
    && p.from_task == d.to_task
    && p.to_task == d.from_task
    && p.kind == question

unfoldable pub check_peer_reply : Store → PeerDraft → Result StoreError (Unit {0})
check_peer_reply s d =
    refuse (on_some (λ id. not (any (is_asked d id) s.peer_messages)) d.reply_to)
      invalid_task_message

abbrev pub peer_value : PeerDraft → AttemptId → AttemptId → PeerRow
peer_value d from to = record {
  message_id = d.id;
  group_id = d.group;
  from_task = d.from_task;
  to_task = d.to_task;
  from_attempt = from;
  to_attempt = to;
  kind = d.kind;
  body = d.body;
  in_reply_to = d.reply_to;
  acknowledged = false;
}

unfoldable pub same_peer : PeerRow → PeerRow → Bool
same_peer p q =
    p.group_id == q.group_id
    && p.from_task == q.from_task
    && p.to_task == q.to_task
    && p.body == q.body
    && p.kind == q.kind
    && p.in_reply_to == q.in_reply_to
    && p.from_attempt == q.from_attempt
    && p.to_attempt == q.to_attempt

-- The replay, which is rolled back to the store before the call, or the row.
unfoldable pub store_peer : Store → Store → PeerRow → Result StoreError (PeerRow × Store)
store_peer s u value = elim (find? (λ p. p.message_id == value.message_id) u.peer_messages) [
  | some p ↦
      if same_peer p value
      then ok (record value { acknowledged = p.acknowledged }, s)
      else err (task_message_conflict value.message_id)
  | none ↦ ok (value, record u { peer_messages = value ∷ u.peer_messages })
]

abbrev pub is_received : String → TaskId → AttemptId → PeerRow → Bool
is_received id task attempt p = p.message_id == id && p.to_task == task && p.to_attempt == attempt

abbrev pub group_owner : Store → String → Option OwnerId
group_owner s id = elim (find? (λ p. p.message_id == id) s.peer_messages) [
  | none ↦ none
  | some p ↦ elim (group_of s p.group_id) [ none ↦ none | some g ↦ some g.owner_id ]
]

abbrev pub assert_peer_owner :
    Store → Option OwnerProof → String → TaskId → Result StoreError (Unit {0})
assert_peer_owner s none id task = ok tt
assert_peer_owner s (some proof) id task = do
  refuse (not (group_owner s id == some proof.owner_id)) owner_proof_mismatch
  assert_owned_tasks s proof.owner_id (task ∷ [])

unfoldable pub acknowledge_peer_with_proof :
    Store → String → TaskId → AttemptId → Option OwnerProof → Result StoreError Store
acknowledge_peer_with_proof s id task attempt proof = do
  u ← check_proof s proof
  assert_peer_owner u proof id task
  refuse (not (count (is_received id task attempt) u.peer_messages == 1))
      (task_message_not_found id)
  ok (record u {
    peer_messages =
        update (is_received id task attempt) (λ p. record p { acknowledged = true })
          u.peer_messages;
  })

abbrev pub assert_group_owner :
    Store → Option OwnerProof → DebateGroup → PeerDraft → Result StoreError (Unit {0})
assert_group_owner s none group d = ok tt
assert_group_owner s (some proof) group d = do
  refuse (not (group.owner == proof.owner_id)) owner_proof_mismatch
  assert_owned_tasks s proof.owner_id (d.from_task ∷ d.to_task ∷ [])

abbrev pub seat : String → TaskId × AttemptId → MemberRow
seat id m = record { group_id = id; task_id = m.0; attempt_id = m.1 }

module _ (platform : Platform) where
  -- The members, each with the attempt it joins with: distinct, of one owner and one parent.
  unfoldable pub joining :
      Store
      → OwnerId
      → Option EdgeRow
      → List TaskId
      → List TaskId
      → Result StoreError (List (TaskId × AttemptId))
  joining s owner parent seen [] = ok []
  joining s owner parent seen (t ∷ ts) =
      let rest = joining s owner parent (t ∷ seen) ts in
      do
        refuse (any (λ x. x == t) seen) invalid_task_message
        spec ← task_spec s t
        refuse (not (spec.owner_id == owner) || not (same_edge (edge_of s t) parent))
            invalid_task_message
        attempt ← active_message_attempt platform s t
        others ← rest
        ok ((t, attempt) ∷ others)

  -- The end of the creation, with the members known.
  unfoldable pub store_debate :
      Store
      → Store
      → String
      → OwnerId
      → List TaskId
      → List (TaskId × AttemptId)
      → Result StoreError (DebateGroup × Store)
  store_debate s u id owner tasks members = elim (group_of u id) [
    | some g ↦ do
      group ← debate s id
      refuse (not (same_members group.members tasks)) invalid_task_message
      ok (group, s)
    | none ↦ do
      let v = record u {
        debate_groups = record { group_id = id; owner_id = owner; active = true } ∷ u.debate_groups;
        debate_members = map (seat id) members ++ u.debate_members;
      }
      group ← debate v id
      ok (group, v)
  ]

  abbrev pub create_for :
      Store → Store → String → List TaskId → Result StoreError (DebateGroup × Store)
  create_for s u id [] = err invalid_task_message
  create_for s u id (t ∷ ts) = do
    first ← task_spec u t
    members ← joining u first.owner_id (edge_of u t) [] (t ∷ ts)
    store_debate s u id first.owner_id (t ∷ ts) members

  unfoldable pub create_debate_with_proof :
      Store → String → List TaskId → Option OwnerProof → Result StoreError (DebateGroup × Store)
  create_debate_with_proof s id tasks proof = do
    refuse (not (platform.is_uuid id) || ltb (length tasks) 2 || ltb 32 (length tasks))
        invalid_task_message
    u ← check_proof s proof
    assert_tasks u proof tasks
    create_for s u id tasks

  unfoldable pub validate_peer : PeerDraft → Result StoreError (Unit {0})
  validate_peer d =
      refuse
        (not (platform.is_uuid d.id)
          || is_blank d.body
          || ltb max_body_bytes (len d.body)
          || d.from_task == d.to_task
          || differ (d.kind == reply) (is_some d.reply_to))
        invalid_task_message

  -- The source asks for the group's flag twice in the transaction; the row is the same.
  unfoldable pub post_peer_message_with_proof :
      Store → PeerDraft → AttemptId → Option OwnerProof → Result StoreError (PeerRow × Store)
  post_peer_message_with_proof s d from proof = do
    validate_peer d
    u ← check_proof s proof
    group ← debate u d.group
    assert_group_owner u proof group d
    refuse
        (not group.active
          || not (any (λ t. t == d.from_task) group.members)
          || not (any (λ t. t == d.to_task) group.members))
        invalid_task_message
    to ← active_message_attempt platform u d.to_task
    check_side u d.group d.from_task from
    check_side u d.group d.to_task to
    check_peer_reply u d
    store_peer s u (peer_value d from to)

-- INSERT OR IGNORE INTO native_message_deliveries: whether the claim is new.
unfoldable pub claim_native_delivery : Store → String → AttemptId → String → Bool × Store
claim_native_delivery s id attempt pane =
    if any (λ n. n.message_id == id) s.native_message_deliveries then (false, s) else (
      true,
      record s {
        native_message_deliveries =
            record {
              message_id = id;
              attempt_id = attempt;
              pane_id = pane;
              state = sending;
              error = none;
            }
            ∷ s.native_message_deliveries;
      },
    )

unfoldable pub finish_native_delivery : Store → String → Option String → Store
finish_native_delivery s id error = record s {
  native_message_deliveries =
      update (λ n. n.message_id == id)
        (λ n. record n { state = if is_some error then uncertain else delivered; error = error })
        s.native_message_deliveries;
}

abbrev pub is_sending : DeliveryState → Bool
is_sending sending = true
is_sending _ = false

unfoldable pub release_native_delivery : Store → String → Store
release_native_delivery s id = record s {
  native_message_deliveries =
      filter (λ n. not (n.message_id == id && is_sending n.state)) s.native_message_deliveries;
}
