-- ===== src/Store/Messages.antt =====
-- src/message.rs: messages between an owner and the worker on one attempt: posting, with or without
-- a proof of the binding, acknowledging, and the questions that wait for an answer.
pub mod Threads
pub mod Questions
use brgr.Base.{
  Bool, Option, Result, String, any, count, err, false, find?, if◌then◌else◌, is_blank, len,
  list_eq, ltb, nat_eq, none, not, ok, ok_or, option_eq, refuse, some, string_eq, true, update, ℕ,
  ◌&&◌, ◌==◌, ◌>>=◌, ◌>>◌, ◌||◌, ◌∷◌,
}
use brgr.Protocol.{AttemptId, AttemptState, OwnerId, TaskId, blocked, outcome_eq, running, state_eq}
use brgr.Rows.{
  MessageDirection, MessageKind, MessageRow, direction_eq, kind_eq, opposite, owner_to_worker,
  question, reply, worker_to_owner,
}
use brgr.Store.{
  Platform, Store, StoreError, blocked, constraint_violation, database, invalid_task_message,
  owner_proof_mismatch, run_state_eq, running, takeover_state_eq, task_message_conflict,
  task_message_not_found,
}
use brgr.Store.Owner.{OwnerProof}
use brgr.Store.Takeovers.{assert_owner_proof}
use brgr.Store.Attempts.{attempt_of, task_row}
use brgr.Store.Delegation.{max_revision}

abbrev pub max_body_bytes : ℕ
max_body_bytes = 8192

pub record MessageDraft : Type 0 where
  pub message_id : String
  pub task_id : TaskId
  pub attempt_id : AttemptId
  pub direction : MessageDirection
  pub kind : MessageKind
  pub body : String
  pub in_reply_to : Option String

abbrev pub is_some {ℓ} : {A : Type ℓ} → Option A → Bool
is_some none = false
is_some (some a) = true

abbrev pub on_some {ℓ} : {A : Type ℓ} → (A → Bool) → Option A → Bool
on_some p none = false
on_some p (some a) = p a

abbrev pub differ : Bool → Bool → Bool
differ true b = not b
differ false b = b

-- `matches!(state, "running" | "blocked")`
abbrev pub can_talk : AttemptState → Bool
can_talk running = true
can_talk blocked = true
can_talk _ = false

unfoldable pub load_message : Store → String → Option MessageRow
load_message s id = find? (λ m. m.message_id == id) s.task_messages

unfoldable pub message_matches_draft : MessageRow → MessageDraft → Bool
message_matches_draft m d =
    m.task_id == d.task_id
    && m.attempt_id == d.attempt_id
    && m.direction == d.direction
    && m.kind == d.kind
    && m.body == d.body
    && m.in_reply_to == d.in_reply_to

-- The owner of the revision that an attempt works on.
unfoldable pub attempt_owner : Store → AttemptId → Option OwnerId
attempt_owner s id = elim (attempt_of s id) [
  | none ↦ none
  | some a ↦ elim (task_row s a.task_id a.revision) [ none ↦ none | some t ↦ some t.owner_id ]
]

unfoldable pub assert_owner_message : Store → OwnerProof → MessageDraft → Result StoreError Store
assert_owner_message s proof d = do
  refuse (not (d.direction == owner_to_worker)) invalid_task_message
  refuse (not (attempt_owner s d.attempt_id == some proof.owner_id)) owner_proof_mismatch
  assert_owner_proof s proof

-- The owner of the latest revision of a task.
unfoldable pub task_owner : Store → TaskId → Option OwnerId
task_owner s task = elim (max_revision s.tasks task) [
  | none ↦ none
  | some n ↦ elim (task_row s task n) [ none ↦ none | some t ↦ some t.owner_id ]
]

unfoldable pub assert_task_owner : Store → OwnerProof → TaskId → Result StoreError Store
assert_task_owner s proof task = do
  u ← assert_owner_proof s proof
  refuse (not (task_owner u task == some proof.owner_id)) owner_proof_mismatch
  ok u

unfoldable pub validate_active_attempt : Store → MessageDraft → Result StoreError (Unit {0})
validate_active_attempt s d =
    refuse
      (not (on_some (λ a. a.task_id == d.task_id && can_talk a.state) (attempt_of s d.attempt_id)))
      invalid_task_message

-- The question that a reply names: of the same attempt, and from the other side.
abbrev pub answers : MessageRow → MessageDraft → Bool
answers original d =
    original.task_id == d.task_id
    && original.attempt_id == d.attempt_id
    && original.direction == opposite d.direction
    && original.kind == question

unfoldable pub validate_reply : Store → MessageDraft → Result StoreError (Unit {0})
validate_reply s d = elim (d.in_reply_to) [
  | none ↦ ok tt
  | some id ↦ do
    original ← ok_or (load_message s id) (task_message_not_found id)
    refuse (not (answers original d)) invalid_task_message
]

abbrev pub unread : MessageDraft → MessageRow
unread d = record {
  message_id = d.message_id;
  task_id = d.task_id;
  attempt_id = d.attempt_id;
  direction = d.direction;
  kind = d.kind;
  body = d.body;
  in_reply_to = d.in_reply_to;
  acknowledged = false;
}

abbrev pub is_reply_to : Option String → MessageRow → Bool
is_reply_to id m = m.kind == reply && m.in_reply_to == id

-- INSERT INTO task_messages, under the index `task_message_one_reply`; the caller has looked for
-- the key.
unfoldable pub insert_message : Store → MessageRow → Result StoreError Store
insert_message s m = do
  refuse
      (m.kind == reply && is_some m.in_reply_to && any (is_reply_to m.in_reply_to) s.task_messages)
      (database constraint_violation)
  ok (record s { task_messages = m ∷ s.task_messages })

unfoldable pub first_message : Store → MessageDraft → Result StoreError (MessageRow × Store)
first_message s d = do
  validate_active_attempt s d
  validate_reply s d
  u ← insert_message s (unread d)
  ok (unread d, u)

abbrev pub check_message_proof : Store → Option OwnerProof → MessageDraft → Result StoreError Store
check_message_proof s none d = ok s
check_message_proof s (some proof) d = assert_owner_message s proof d

abbrev pub addressed : TaskId → AttemptId → MessageDirection → String → MessageRow → Bool
addressed task attempt direction id m =
    m.message_id == id && m.task_id == task && m.attempt_id == attempt && m.direction == direction

abbrev pub mark_read : MessageRow → MessageRow
mark_read m = record m { acknowledged = true }

-- UPDATE task_messages SET acknowledged = 1 …, which has to change one row.
unfoldable pub acknowledge_message :
    Store → TaskId → AttemptId → MessageDirection → String → Result StoreError Store
acknowledge_message s task attempt direction id = do
  refuse (not (count (addressed task attempt direction id) s.task_messages == 1))
      (task_message_not_found id)
  ok (record s {
    task_messages = update (addressed task attempt direction id) mark_read s.task_messages;
  })

unfoldable pub acknowledge_message_bound :
    Store → TaskId → AttemptId → MessageDirection → String → OwnerProof → Result StoreError Store
acknowledge_message_bound s task attempt direction id proof = do
  refuse (not (direction == worker_to_owner)) invalid_task_message
  u ← assert_task_owner s proof task
  acknowledge_message u task attempt direction id

abbrev pub own_question : TaskId → AttemptId → String → MessageRow → Bool
own_question task attempt id m =
    m.message_id == id
    && m.task_id == task
    && m.attempt_id == attempt
    && m.kind == question
    && m.direction == worker_to_owner

abbrev pub is_withdrawn : Store → String → Bool
is_withdrawn s id = any (λ w. w == id) s.withdrawn_questions

-- INSERT OR IGNORE of the worker's own question; what was withdrawn before stays so.
unfoldable pub withdraw_question : Store → TaskId → AttemptId → String → Result StoreError Store
withdraw_question s task attempt id =
    if is_withdrawn s id
    then if any (λ q. q.message_id == id && q.task_id == task && q.attempt_id == attempt)
        s.task_messages
      then ok s
      else err (task_message_not_found id)
    else if any (own_question task attempt id) s.task_messages
    then ok (record s { withdrawn_questions = id ∷ s.withdrawn_questions })
    else err (task_message_not_found id)

-- A question without a reply that was not withdrawn.
unfoldable pub is_unsettled : Store → TaskId → AttemptId → MessageRow → Bool
is_unsettled s task attempt q =
    q.task_id == task
    && q.attempt_id == attempt
    && q.kind == question
    && not (any (is_reply_to (some q.message_id)) s.task_messages)
    && not (is_withdrawn s q.message_id)

unfoldable pub unsettled_questions : Store → TaskId → AttemptId → ℕ
unsettled_questions s task attempt = count (is_unsettled s task attempt) s.task_messages

module _ (platform : Platform) where
  unfoldable pub validate_draft : MessageDraft → Result StoreError (Unit {0})
  validate_draft d =
      refuse
        (not (platform.is_uuid d.message_id)
          || is_blank d.body
          || ltb max_body_bytes (len d.body)
          || differ (d.kind == reply) (is_some d.in_reply_to)
          || on_some (λ id. not (platform.is_uuid id)) d.in_reply_to)
        invalid_task_message

  -- A replay returns the stored message and leaves its transaction open, to be rolled back.
  unfoldable pub post_message_with_proof :
      Store → MessageDraft → Option OwnerProof → Result StoreError (MessageRow × Store)
  post_message_with_proof s d proof = do
    validate_draft d
    u ← check_message_proof s proof d
    elim (load_message u d.message_id) [
      | some m ↦
          if message_matches_draft m d then ok (m, s) else err (task_message_conflict d.message_id)
      | none ↦ first_message u d
    ]

  unfoldable pub latest_message_attempt : Store → TaskId → Result StoreError AttemptId
  latest_message_attempt s task = do
    a ←
        ok_or (find? (λ a. a.task_id == task) s.attempts)
          (task_message_not_found (platform.task_text task))
    ok a.attempt_id

  unfoldable pub active_message_attempt : Store → TaskId → Result StoreError AttemptId
  active_message_attempt s task = do
    a ←
        ok_or (find? (λ a. a.task_id == task && can_talk a.state) s.attempts)
          (task_message_not_found (platform.task_text task))
    ok a.attempt_id
