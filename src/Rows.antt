-- ===== src/Rows.antt =====
-- crates/brgr-store: the rows of messages, debates, the panes of owners and the events of attempts.
use brgr.Base.{
  Bool, Eq, Option, String, ap, arith, list_eq, nat_beq, nat_beq_iff, nat_eq, option_eq, string_eq,
  true, ℕ, ◌&&◌, ◌==◌, ◌↔◌, ◌≡◌,
}
use brgr.Protocol.{AttemptId, OwnerId, TaskId, outcome_eq, state_eq}

pub data MessageDirection : Type 0 where
  owner_to_worker worker_to_owner : MessageDirection

pub data MessageKind : Type 0 where
  question reply note : MessageKind

abbrev pub opposite : MessageDirection → MessageDirection
opposite owner_to_worker = worker_to_owner
opposite worker_to_owner = owner_to_worker

abbrev direction_rank : MessageDirection → ℕ
direction_rank owner_to_worker = 0
direction_rank worker_to_owner = 1

direction_rank-injective : (a b : MessageDirection) → direction_rank a ≡ direction_rank b → a ≡ b
direction_rank-injective a b h = ground arith

pub direction_beq_iff :
    (a b : MessageDirection) → (nat_beq (direction_rank a) (direction_rank b) ≡ true) ↔ (a ≡ b)
direction_beq_iff a b = (
  λ h. direction_rank-injective a b ((nat_beq_iff _ _).0 h),
  λ h. (nat_beq_iff _ _).1 (ap direction_rank h),
)

instance abbrev pub direction_eq : Eq MessageDirection
direction_eq = record {
  beq = λ a b. nat_beq (direction_rank a) (direction_rank b);
  beq_iff = direction_beq_iff;
}

abbrev kind_rank : MessageKind → ℕ
kind_rank question = 0
kind_rank reply = 1
kind_rank note = 2

kind_rank-injective : (a b : MessageKind) → kind_rank a ≡ kind_rank b → a ≡ b
kind_rank-injective a b h = ground arith

pub kind_beq_iff : (a b : MessageKind) → (nat_beq (kind_rank a) (kind_rank b) ≡ true) ↔ (a ≡ b)
kind_beq_iff a b = (
  λ h. kind_rank-injective a b ((nat_beq_iff _ _).0 h),
  λ h. (nat_beq_iff _ _).1 (ap kind_rank h),
)

instance abbrev pub kind_eq : Eq MessageKind
kind_eq = record { beq = λ a b. nat_beq (kind_rank a) (kind_rank b); beq_iff = kind_beq_iff }

-- `TaskMessage`
pub record MessageRow : Type 0 where
  pub message_id : String
  pub task_id : TaskId
  pub attempt_id : AttemptId
  pub direction : MessageDirection
  pub kind : MessageKind
  pub body : String
  pub in_reply_to : Option String
  pub acknowledged : Bool

pub record GroupRow : Type 0 where
  pub group_id : String
  pub owner_id : OwnerId
  pub active : Bool

pub record MemberRow : Type 0 where
  pub group_id : String
  pub task_id : TaskId
  pub attempt_id : AttemptId

-- `PeerMessage`
pub record PeerRow : Type 0 where
  pub message_id : String
  pub group_id : String
  pub from_task : TaskId
  pub to_task : TaskId
  pub from_attempt : AttemptId
  pub to_attempt : AttemptId
  pub kind : MessageKind
  pub body : String
  pub in_reply_to : Option String
  pub acknowledged : Bool

pub data DeliveryState : Type 0 where
  sending delivered uncertain : DeliveryState

pub record NativeRow : Type 0 where
  pub message_id : String
  pub attempt_id : AttemptId
  pub pane_id : String
  pub state : DeliveryState
  pub error : Option String

pub record SurfaceRow : Type 0 where
  pub owner_id : OwnerId
  pub session_id : String
  pub binding_epoch : ℕ
  pub pane_id : String
  pub herdr_session : Option String
  pub herdr_bin : String

pub record QuestionNoticeRow : Type 0 where
  pub message_id : String
  pub session_id : String

pub data EventKind : Type 0 where
  starting running blocked collecting cancel_requested terminal : EventKind

-- `Event`, without its schema and payload.
pub record EventRow : Type 0 where
  pub event_id : ℕ
  pub attempt_id : AttemptId
  pub producer : String
  pub producer_seq : ℕ
  pub kind : EventKind

abbrev event_rank : EventKind → ℕ
event_rank starting = 0
event_rank running = 1
event_rank blocked = 2
event_rank collecting = 3
event_rank cancel_requested = 4
event_rank terminal = 5

abbrev pub same_event : EventRow → EventRow → Bool
same_event e f =
    e.attempt_id == f.attempt_id
    && e.producer == f.producer
    && e.producer_seq == f.producer_seq
    && event_rank e.kind == event_rank f.kind
