-- ===== src/Storage/Messages.antt =====
-- proto/durable/storage/v1/storage.proto: the messages that the stores write, as Go sees them. `S` is
-- the type of time stamps, and a field of a message type may be absent. Bytes and strings that are
-- absent are empty, a repeated field is a list, a map is one with its entries in the order of visits.
-- A field of an enumeration holds a named value.
use durable.Base.{ℕ, Bool, Option, List, String}
use durable.Base.Map.{Map}
use durable.Driver.{Bytes}

pub data PbPhase : Type 0 where
  pb_phase_unspecified pb_phase_forward pb_phase_unwind pb_phase_done : PbPhase

pub data PbOutcome : Type 0 where
  pb_outcome_unspecified pb_outcome_success pb_outcome_failure : PbOutcome

pub data PbOpStatus : Type 0 where
  pb_status_unspecified pb_status_unresolved pb_status_succeeded pb_status_failed : PbOpStatus

pub data PbFailureKind : Type 0 where
  pb_kind_unspecified pb_kind_system pb_kind_user pb_kind_canceled : PbFailureKind

pub data PbAwaitMode : Type 0 where
  pb_mode_unspecified pb_mode_all pb_mode_any : PbAwaitMode

pub record PbRunMeta (S : Type 0) : Type 0 where
  pub run_id : String
  pub pipeline_id : String
  pub resource_id : String
  pub created_at : Option S
  pub annotations : Map String String

pub record PbAwait (S : Type 0) : Type 0 where
  pub mode : PbAwaitMode
  pub run_ids : List String
  pub deadline : Option S
  pub cancel_cascade : Bool

pub record PbWake : Type 0 where
  pub targets : List String
  pub done : List String
  pub expired : Bool

pub record PbCursor (S : Type 0) : Type 0 where
  pub phase : PbPhase
  pub step_id : String
  pub attempts : ℕ
  pub next_attempt_at : Option S
  pub last_error : String
  pub last_reason : String
  pub last_error_at : Option S
  pub updated_at : Option S
  pub awaiting : Option (PbAwait S)
  pub awaited : Option PbWake
  pub started_at : Option S

pub record PbFailure (S : Type 0) : Type 0 where
  pub step_id : String
  pub phase : PbPhase
  pub attempt : ℕ
  pub message : String
  pub at : Option S
  pub kind : PbFailureKind
  pub reason : String

pub record PbOperation (S : Type 0) : Type 0 where
  pub status : PbOpStatus
  pub attempts : ℕ
  pub state : Bytes
  pub failure : Option (PbFailure S)
  pub order : ℕ

pub record PbCancel (S : Type 0) : Type 0 where
  pub cause : String
  pub at : Option S

pub record PbTerminal (S : Type 0) : Type 0 where
  pub outcome : PbOutcome
  pub output : Bytes
  pub run_id : String
  pub pipeline_id : String
  pub resource_id : String
  pub created_at : Option S
  pub annotations : Map String String
  pub phase : PbPhase
  pub committed_at : Option S
  pub failed_unwinds : Map String (PbOperation S)
  pub failure : Option (PbFailure S)
  pub cancel : Option (PbCancel S)
  pub output_beside : Bool
  pub started_at : Option S
