-- ===== src/Store.antt =====
-- crates/brgr-store: the durable store. Each table of src/schema.rs is a list of rows, the newest
-- first, so that `ORDER BY rowid DESC LIMIT 1` is the first match. A write transaction is a
-- function from the store to its result and the new store; an error carries no store, since the
-- transaction is rolled back. A JSON column holds the value itself, and a state column the state.
pub mod Contention
pub mod Owner
pub mod Names
pub mod Takeovers
pub mod Settle
pub mod Handoff
pub mod Takeover
pub mod Attempts
pub mod Inbox
pub mod StepKey
pub mod Delegation
pub mod Tasks
pub mod Workflow
pub mod Messages
pub mod Debates
pub mod Subtree
pub mod Notifications
use brgr.Base.{
  Bool, Eq, List, Option, Result, String, [], ap, arith, err, if◌then◌else◌, ltb, nat_beq,
  nat_beq_iff, ok, true, ℕ, ◌↔◌, ◌≡◌,
}
use brgr.Rows.{
  EventRow, GroupRow, MemberRow, MessageRow, NativeRow, PeerRow, QuestionNoticeRow, SurfaceRow,
}
use brgr.Protocol.{
  ArtifactRef, AttemptId, AttemptState, Decision, OwnerId, ProtocolError, ResultEnvelope, ResultId,
  RouteObservation, TaskId, TaskSpec,
}

-- ErrorCode of SQLite, as far as the store looks at it.
pub data DatabaseError : Type 0 where
  no_rows constraint_violation database_busy database_locked invalid_column : DatabaseError

pub data TakeoverState : Type 0 where
  requested prepared committed resumed retired retire_failed aborted superseded : TakeoverState

-- The fixed texts of `InvalidTakeoverRequest` and `InvalidHandoffManifest`, by what they name.
pub data RequestFault : Type 0 where
  outgoing_session incoming_session same_session idempotency_key empty_reason : RequestFault

pub data ManifestFault : Type 0 where
  goal_or_notes goal_size notes_size origin_size origin_mismatch list_size : ManifestFault
  task_twice task_not_owned attempt_mismatch task_settled : ManifestFault
  result_twice result_not_pending message_twice message_not_pending : ManifestFault

pub data StoreError : Type 0 where
  database : DatabaseError → StoreError
  protocol : ProtocolError → StoreError
  artifact_unreadable : ArtifactRef → StoreError
  idempotency_conflict : String → StoreError
  invalid_request_digest invalid_delegation_parent delegation_depth_exceeded : StoreError
  delegation_parent_cancelled concurrent_child_limit subtree_too_large : StoreError
  invalid_notification : StoreError
  attempt_not_found : AttemptId → StoreError
  invalid_launch_intent : StoreError
  launch_intent_not_found launch_intent_conflict : AttemptId → StoreError
  invalid_runner_identity : StoreError
  runner_identity_conflict recovery_observation_stale : AttemptId → StoreError
  recovery_requires_lost : StoreError
  active_attempt_exists : TaskId → ℕ → StoreError
  attempt_state_conflict attempt_transition_invalid : AttemptState → AttemptState → StoreError
  task_not_found no_result_yet : TaskId → StoreError
  attempt_budget_exhausted unresolved_prior_attempt : TaskId → ℕ → StoreError
  non_retryable_prior_attempt : TaskId → ℕ → StoreError
  numeric_overflow attempt_result_mismatch result_owner_mismatch : StoreError
  terminal_result_conflict retry_grant_requires_failed_attempt : AttemptId → StoreError
  route_observation_conflict result_not_found decision_conflict : ResultId → StoreError
  task_spec_changed_during_commit candidate_requires_artifact : StoreError
  result_digest_mismatch decision_owner_mismatch decision_result_mismatch : StoreError
  decision_requires_candidate decision_requires_sealed_artifact inbox_item_not_found : StoreError
  invalid_owner_binding owner_binding_conflict owner_proof_mismatch : StoreError
  owner_unbound : OwnerId → StoreError
  takeover_not_found takeover_has_open_work takeover_binding_conflict : ℕ → StoreError
  takeover_in_progress handoff_manifest_conflict : ℕ → StoreError
  takeover_state_conflict : ℕ → TakeoverState → TakeoverState → StoreError
  takeover_idempotency_conflict : String → StoreError
  invalid_takeover_request : RequestFault → StoreError
  invalid_handoff_manifest : ManifestFault → StoreError
  invalid_attempt_state invalid_takeover_state invalid_workflow_run_state : String → StoreError
  invalid_workflow_run_id invalid_workflow_step_key : List ℕ → StoreError
  invalid_workflow_max_parallel workflow_parallel_limit : StoreError
  workflow_run_not_found workflow_run_not_running workflow_run_conflict : String → StoreError
  workflow_step_owner_mismatch workflow_run_terminal : String → StoreError
  invalid_event event_conflict invalid_task_message invalid_owner_surface notification_claim_stale :
      StoreError
  task_message_conflict task_message_not_found : String → StoreError
  workflow_step_diverged workflow_retry_predecessor : String → List ℕ → StoreError

pub data WriteOutcome : Type 0 where
  inserted already_applied : WriteOutcome

pub record RunnerIdentity : Type 0 where
  pub namespace : String
  pub handle : String
  pub birth_marker : String

pub record LaunchIntent : Type 0 where
  pub nonce : String
  pub supervisor_epoch : ℕ
  pub runner_identity : Option RunnerIdentity

pub record TaskRow : Type 0 where
  pub task_id : TaskId
  pub revision : ℕ
  pub owner_id : OwnerId
  pub create_request_id : String
  pub request_digest : String
  pub spec : TaskSpec

pub record AttemptRow : Type 0 where
  pub attempt_id : AttemptId
  pub task_id : TaskId
  pub revision : ℕ
  pub state : AttemptState

pub record LaunchRow : Type 0 where
  pub attempt_id : AttemptId
  pub intent : LaunchIntent

pub record ResultRow : Type 0 where
  pub result_id : ResultId
  pub attempt_id : AttemptId
  pub task_id : TaskId
  pub revision : ℕ
  pub result_digest : String
  pub envelope : ResultEnvelope

pub record ObservationRow : Type 0 where
  pub result_id : ResultId
  pub observation_digest : String
  pub observation : RouteObservation

pub record InboxRow : Type 0 where
  pub owner_id : OwnerId
  pub result_id : ResultId
  pub acknowledged : Bool

pub record DecisionRow : Type 0 where
  pub result_id : ResultId
  pub decision : Decision

pub record IdempotencyRow : Type 0 where
  pub request_id : String
  pub request_digest : String

pub record BindingRow : Type 0 where
  pub owner_id : OwnerId
  pub session_id : String
  pub binding_epoch : ℕ

pub record EdgeRow : Type 0 where
  pub child_task_id : TaskId
  pub parent_task_id : TaskId
  pub parent_attempt_id : AttemptId
  pub depth : ℕ

pub record CancellationRow : Type 0 where
  pub task_id : TaskId
  pub revision : ℕ

pub record CompletionRow : Type 0 where
  pub task_id : TaskId
  pub revision : ℕ
  pub result_id : ResultId

-- What `CLEAR_DELIVERY` resets, in both tables of notifications.
pub record Delivery : Type 0 where
  pub session : Option String
  pub epoch : Option ℕ
  pub pane : Option String
  pub claim_token : Option String
  pub claim_until : ℕ

pub record NotificationRow : Type 0 where
  pub result_id : ResultId
  pub task_id : TaskId
  pub owner_id : OwnerId
  pub resolved : Bool
  pub delivery : Delivery
  pub attempts : ℕ
  pub last_error : Option String

pub record TakeoverRow : Type 0 where
  pub takeover_id : ℕ
  pub owner_id : OwnerId
  pub from_session : String
  pub from_epoch : ℕ
  pub to_session : String
  pub state : TakeoverState
  pub idempotency_key : String
  pub failure_reason : Option String

pub record TakeoverEventRow : Type 0 where
  pub takeover_id : ℕ
  pub seq : ℕ
  pub kind : TakeoverState
  pub detail : Option String

pub record ManifestTask : Type 0 where
  pub task_id : TaskId
  pub revision : ℕ
  pub attempt_id : AttemptId

pub record HandoffManifest : Type 0 where
  pub goal : String
  pub decision_notes : String
  pub origin_session : String
  pub tasks : List ManifestTask
  pub pending_result_ids : List ResultId
  pub pending_message_ids : List String

pub record ManifestRow : Type 0 where
  pub manifest_id : ℕ
  pub takeover_id : ℕ
  pub manifest : HandoffManifest
  pub digest : String

pub data WorkflowRunState : Type 0 where
  running blocked completed failed cancelled : WorkflowRunState

pub record WorkflowRun : Type 0 where
  pub run_id : String
  pub owner_id : OwnerId
  pub script_digest : String
  pub max_parallel : ℕ
  pub state : WorkflowRunState

pub record WorkflowStep : Type 0 where
  pub run_id : String
  pub step_key : List ℕ
  pub input_digest : String
  pub task_id : TaskId
  pub revision : ℕ

pub record WorkflowNoticeRow : Type 0 where
  pub run_id : String
  pub seq : ℕ
  pub state : WorkflowRunState
  pub owner_id : OwnerId
  pub resolved : Bool
  pub delivery : Delivery
  pub attempts : ℕ
  pub last_error : Option String

pub record Store : Type 0 where
  pub tasks : List TaskRow
  pub attempts : List AttemptRow
  pub launch_intents : List LaunchRow
  pub results : List ResultRow
  pub route_observations : List ObservationRow
  pub retry_grants : List AttemptId
  pub inbox_items : List InboxRow
  pub decisions : List DecisionRow
  pub idempotency_requests : List IdempotencyRow
  pub owner_bindings : List BindingRow
  pub delegation_edges : List EdgeRow
  pub cancellation_intents : List CancellationRow
  pub run_completions : List CompletionRow
  pub completion_notifications : List NotificationRow
  pub task_messages : List MessageRow
  pub head_takeovers : List TakeoverRow
  pub takeover_events : List TakeoverEventRow
  pub handoff_manifests : List ManifestRow
  pub workflow_runs : List WorkflowRun
  pub workflow_steps : List WorkflowStep
  pub workflow_notifications : List WorkflowNoticeRow
  pub terminal_events : List AttemptId
  pub events : List EventRow
  pub withdrawn_questions : List String
  pub owner_surfaces : List SurfaceRow
  pub question_notices : List QuestionNoticeRow
  pub native_message_deliveries : List NativeRow
  pub debate_groups : List GroupRow
  pub debate_members : List MemberRow
  pub peer_messages : List PeerRow

-- What the store takes from elsewhere: serialised values and their digests, the text of an id, which
-- texts are ids, and the check of a sealed artifact on disk against its reference and a bound on its
-- bytes.
pub record Platform : Type 0 where
  pub envelope_digest : ResultEnvelope → String
  pub manifest_digest : HandoffManifest → String
  pub observation_digest : RouteObservation → String
  pub spec_text : TaskSpec → String
  pub worker_owner : AttemptId → OwnerId
  pub task_text : TaskId → String
  pub is_uuid : String → Bool
  pub read_verified : ArtifactRef → ℕ → Result StoreError (Unit {0})

abbrev pub i64_max : ℕ
i64_max = 9223372036854775807

-- `i64::try_from`
abbrev pub to_i64 : ℕ → Result StoreError ℕ
to_i64 n = if ltb i64_max n then err numeric_overflow else ok n

abbrev pub empty_store : Store
empty_store = record {
  tasks = [];
  attempts = [];
  launch_intents = [];
  results = [];
  route_observations = [];
  retry_grants = [];
  inbox_items = [];
  decisions = [];
  idempotency_requests = [];
  owner_bindings = [];
  delegation_edges = [];
  cancellation_intents = [];
  run_completions = [];
  completion_notifications = [];
  task_messages = [];
  head_takeovers = [];
  takeover_events = [];
  handoff_manifests = [];
  workflow_runs = [];
  workflow_steps = [];
  workflow_notifications = [];
  terminal_events = [];
  events = [];
  withdrawn_questions = [];
  owner_surfaces = [];
  question_notices = [];
  native_message_deliveries = [];
  debate_groups = [];
  debate_members = [];
  peer_messages = [];
}

abbrev pub takeover_rank : TakeoverState → ℕ
takeover_rank requested = 0
takeover_rank prepared = 1
takeover_rank committed = 2
takeover_rank resumed = 3
takeover_rank retired = 4
takeover_rank retire_failed = 5
takeover_rank aborted = 6
takeover_rank superseded = 7

takeover_rank-injective : (a b : TakeoverState) → takeover_rank a ≡ takeover_rank b → a ≡ b
takeover_rank-injective a b h = ground arith

pub takeover_beq_iff :
    (a b : TakeoverState) → (nat_beq (takeover_rank a) (takeover_rank b) ≡ true) ↔ (a ≡ b)
takeover_beq_iff a b = (
  λ h. takeover_rank-injective a b ((nat_beq_iff _ _).0 h),
  λ h. (nat_beq_iff _ _).1 (ap takeover_rank h),
)

instance abbrev pub takeover_state_eq : Eq TakeoverState
takeover_state_eq = record {
  beq = λ a b. nat_beq (takeover_rank a) (takeover_rank b);
  beq_iff = takeover_beq_iff;
}

abbrev pub run_rank : WorkflowRunState → ℕ
run_rank running = 0
run_rank blocked = 1
run_rank completed = 2
run_rank failed = 3
run_rank cancelled = 4

run_rank-injective : (a b : WorkflowRunState) → run_rank a ≡ run_rank b → a ≡ b
run_rank-injective a b h = ground arith

pub run_beq_iff : (a b : WorkflowRunState) → (nat_beq (run_rank a) (run_rank b) ≡ true) ↔ (a ≡ b)
run_beq_iff a b =
    (λ h. run_rank-injective a b ((nat_beq_iff _ _).0 h), λ h. (nat_beq_iff _ _).1 (ap run_rank h))

instance abbrev pub run_state_eq : Eq WorkflowRunState
run_state_eq = record { beq = λ a b. nat_beq (run_rank a) (run_rank b); beq_iff = run_beq_iff }
