-- ===== src/Protocol.antt =====
-- crates/brgr-protocol/src/lib.rs: the types that every component shares, and their bounds.
-- An id is a UUID, a number here; a text is a `String`; the machine integers are numbers.
pub mod Paths
pub mod Validate
pub mod Admission
pub mod Confined
use brgr.Base.{
  ℕ, ◌≡◌, Bool, ◌||◌, List, Option, String, Result, ok, err, if◌then◌else◌, is_blank, len, ltb, Eq,
  nat_beq, nat_beq_iff, ◌↔◌, true, ap, arith,
}

abbrev pub TaskId : Type 0
TaskId = ℕ

abbrev pub AttemptId : Type 0
AttemptId = ℕ

abbrev pub ResultId : Type 0
ResultId = ℕ

abbrev pub OwnerId : Type 0
OwnerId = String

abbrev pub schema_v1 : String
schema_v1 = "brgr/v1"

abbrev pub max_objective_bytes : ℕ
max_objective_bytes = 262144

abbrev pub max_acceptance_criteria : ℕ
max_acceptance_criteria = 32

abbrev pub max_criterion_bytes : ℕ
max_criterion_bytes = 4096

abbrev pub max_criteria_total_bytes : ℕ
max_criteria_total_bytes = 65536

pub data AttemptState : Type 0 where
  queued starting running blocked collecting cancel_requested terminal : AttemptState

pub data TerminalOutcome : Type 0 where
  candidate failed cancelled lost : TerminalOutcome

pub data DecisionVerdict : Type 0 where
  accepted rejected : DecisionVerdict

pub record Route : Type 0 where
  pub harness_id : String
  pub requested_model : Option String
  pub requested_effort : Option String

pub record ArtifactContract : Type 0 where
  pub media_type : String
  pub max_bytes : ℕ

pub record AttemptBudget : Type 0 where
  pub deadline_seconds : ℕ
  pub max_attempts : ℕ

pub record TaskInstructions : Type 0 where
  pub scope : List String
  pub role : List String
  pub forward_criteria : Bool

pub record EvidenceSpec : Type 0 where
  pub capture_diff : Bool
  pub capture_logs : Bool
  pub files : List String
  pub base_commit : Option String
  pub base_tree : Option String

pub data PermissionLevel : Type 0 where
  read_only edits full : PermissionLevel

pub record TaskSpec : Type 0 where
  pub schema : String
  pub task_id : TaskId
  pub revision : ℕ
  pub create_request_id : String
  pub owner_id : OwnerId
  pub objective : String
  pub workspace : String
  pub route : Route
  pub required_capabilities : List String
  pub artifact_contract : ArtifactContract
  pub acceptance_criteria : List String
  pub budget : AttemptBudget
  pub instructions : TaskInstructions
  pub evidence : EvidenceSpec
  pub max_concurrent_children : Option ℕ
  pub permission : Option PermissionLevel

pub record ArtifactRef : Type 0 where
  pub digest : String
  pub bytes : ℕ
  pub media_type : String
  pub store_relative_path : String

pub data ObservationSource : Type 0 where
  harness_jsonl harness_session_log harness_config unavailable : ObservationSource

pub record RouteObservation : Type 0 where
  pub model : Option String
  pub model_source : ObservationSource
  pub effort : Option String
  pub effort_source : ObservationSource

pub record ResultEnvelope : Type 0 where
  pub schema : String
  pub task_id : TaskId
  pub revision : ℕ
  pub attempt_id : AttemptId
  pub result_id : ResultId
  pub outcome : TerminalOutcome
  pub artifacts : List ArtifactRef
  pub error : Option String
  pub legacy_embedded_route_observation : Option RouteObservation
  pub route_observation : Option RouteObservation
  pub unresolved_effects : List String
  pub slept_seconds : Option ℕ

pub record Decision : Type 0 where
  pub schema : String
  pub decision_id : ℕ
  pub owner_id : OwnerId
  pub task_id : TaskId
  pub revision : ℕ
  pub result_id : ResultId
  pub result_digest : String
  pub session_id : Option String
  pub binding_epoch : Option ℕ
  pub verdict : DecisionVerdict
  pub reason : String

pub data ProtocolError : Type 0 where
  invalid_owner_id : ProtocolError
  unsupported_schema : String → ProtocolError
  empty_objective objective_too_long acceptance_criteria_too_large : ProtocolError
  empty_workspace empty_harness empty_route_selector : ProtocolError
  invalid_acceptance_criteria invalid_task_instructions invalid_evidence_spec : ProtocolError
  invalid_child_limit invalid_budget invalid_attempt_count : ProtocolError

-- `OwnerId::new`
unfoldable pub new_owner_id : String → Result ProtocolError OwnerId
new_owner_id value =
    if is_blank value || ltb 256 (len value) then err invalid_owner_id else ok value

-- The derived `PartialEq` of the enums, by the place of the variant.
abbrev pub state_rank : AttemptState → ℕ
state_rank queued = 0
state_rank starting = 1
state_rank running = 2
state_rank blocked = 3
state_rank collecting = 4
state_rank cancel_requested = 5
state_rank terminal = 6

state_rank-injective : (a b : AttemptState) → state_rank a ≡ state_rank b → a ≡ b
state_rank-injective a b h = ground arith

pub state_beq_iff : (a b : AttemptState) → (nat_beq (state_rank a) (state_rank b) ≡ true) ↔ (a ≡ b)
state_beq_iff a b = (
  λ h. state_rank-injective a b ((nat_beq_iff _ _).0 h),
  λ h. (nat_beq_iff _ _).1 (ap state_rank h),
)

instance abbrev pub state_eq : Eq AttemptState
state_eq = record { beq = λ a b. nat_beq (state_rank a) (state_rank b); beq_iff = state_beq_iff }

abbrev pub outcome_rank : TerminalOutcome → ℕ
outcome_rank candidate = 0
outcome_rank failed = 1
outcome_rank cancelled = 2
outcome_rank lost = 3

outcome_rank-injective : (a b : TerminalOutcome) → outcome_rank a ≡ outcome_rank b → a ≡ b
outcome_rank-injective a b h = ground arith

pub outcome_beq_iff :
    (a b : TerminalOutcome) → (nat_beq (outcome_rank a) (outcome_rank b) ≡ true) ↔ (a ≡ b)
outcome_beq_iff a b = (
  λ h. outcome_rank-injective a b ((nat_beq_iff _ _).0 h),
  λ h. (nat_beq_iff _ _).1 (ap outcome_rank h),
)

instance abbrev pub outcome_eq : Eq TerminalOutcome
outcome_eq = record {
  beq = λ a b. nat_beq (outcome_rank a) (outcome_rank b);
  beq_iff = outcome_beq_iff;
}
