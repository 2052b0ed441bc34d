-- ===== src/Storage.antt =====
-- store/internal/storagepb/convert.go: the records of the stores as stored messages, and back. The
-- time stamps and the wire format are protobuf's, parameters here: `make` is `timestamppb.New`,
-- `as_time` is `AsTime`, `encode` is `proto.Marshal` and `decode` is `proto.Unmarshal`, which may fail.
pub mod Messages
pub mod Records
pub mod Fields
pub mod Roundtrip
pub mod TerminalRow
mod Tests
use durable.Storage.Messages.{
  PbPhase, pb_phase_unspecified, pb_phase_forward, pb_phase_unwind, pb_phase_done, PbOutcome,
  pb_outcome_unspecified, pb_outcome_success, pb_outcome_failure, PbOpStatus, pb_status_unspecified,
  pb_status_unresolved, pb_status_succeeded, pb_status_failed, PbFailureKind, pb_kind_unspecified,
  pb_kind_system, pb_kind_user, pb_kind_canceled, PbAwaitMode, pb_mode_unspecified, pb_mode_all,
  pb_mode_any, PbRunMeta, PbAwait, PbWake, PbCursor, PbFailure, PbOperation, PbCancel, PbTerminal,
}
use durable.Base.{
  ℕ, Bool, true, false, Option, none, some, List, [], ◌∷◌, String, String_comparable, length, leb,
  if◌then◌else◌,
}
use durable.Base.Map.{Map, put}
use durable.Kernel.{
  RunId, StepId, Time, Phase, unset, phase_forward, phase_unwind, phase_done, AwaitMode, no_mode,
  await_mode_all, await_mode_any, Await, Wake, Outcome, no_outcome, outcome_success,
  outcome_failure, FailureKind, kind_system, kind_user, kind_canceled, Failure,
}
use durable.Driver.{
  Bytes, OpStatus, op_none, op_unresolved, op_succeeded, op_failed, OperationRecord, StepRecord,
  no_step, CancelRequest, Cursor, RunRecord, is_failed, step_of,
}

pub record Stamps (S : Type 0) : Type 0 where
  pub make : Time → S
  pub as_time : S → Time

pub record Codec (M : Type 0) : Type 0 where
  pub encode : M → Option Bytes
  pub decode : Bytes → Option M

pub data StorageError : Type 0 where
  no_outcome_set encoding decoding : StorageError

pub data Coded (A : Type 0) : Type 0 where
  ok : A → Coded A
  fails : StorageError → Coded A

module _ {M : Type 0} ⦃c : Codec M⦄ where
  unfoldable pub marshal : M → Coded Bytes
  marshal m = elim (c.encode m) [ none ↦ fails encoding | some b ↦ ok b ]

  unfoldable pub unmarshal : Bytes → Coded M
  unmarshal b = elim (c.decode b) [ none ↦ fails decoding | some m ↦ ok m ]

-- The value of a result, converted.
unfoldable pub then_ok : {A B : Type 0} → Coded A → (A → B) → Coded B
then_ok (ok a) f = ok (f a)
then_ok (fails e) f = fails e

unfoldable pub phase_to_proto : Phase → PbPhase
phase_to_proto phase_forward = pb_phase_forward
phase_to_proto phase_unwind = pb_phase_unwind
phase_to_proto phase_done = pb_phase_done
phase_to_proto unset = pb_phase_unspecified

unfoldable pub phase_from_proto : PbPhase → Phase
phase_from_proto pb_phase_forward = phase_forward
phase_from_proto pb_phase_unwind = phase_unwind
phase_from_proto pb_phase_done = phase_done
phase_from_proto pb_phase_unspecified = unset

unfoldable pub outcome_to_proto : Outcome → PbOutcome
outcome_to_proto outcome_success = pb_outcome_success
outcome_to_proto outcome_failure = pb_outcome_failure
outcome_to_proto no_outcome = pb_outcome_unspecified

unfoldable pub outcome_from_proto : PbOutcome → Outcome
outcome_from_proto pb_outcome_success = outcome_success
outcome_from_proto pb_outcome_failure = outcome_failure
outcome_from_proto pb_outcome_unspecified = no_outcome

unfoldable pub op_status_to_proto : OpStatus → PbOpStatus
op_status_to_proto op_unresolved = pb_status_unresolved
op_status_to_proto op_succeeded = pb_status_succeeded
op_status_to_proto op_failed = pb_status_failed
op_status_to_proto op_none = pb_status_unspecified

unfoldable pub op_status_from_proto : PbOpStatus → OpStatus
op_status_from_proto pb_status_unresolved = op_unresolved
op_status_from_proto pb_status_succeeded = op_succeeded
op_status_from_proto pb_status_failed = op_failed
op_status_from_proto pb_status_unspecified = op_none

unfoldable pub kind_to_proto : FailureKind → PbFailureKind
kind_to_proto kind_user = pb_kind_user
kind_to_proto kind_canceled = pb_kind_canceled
kind_to_proto kind_system = pb_kind_system

unfoldable pub kind_from_proto : PbFailureKind → FailureKind
kind_from_proto pb_kind_user = kind_user
kind_from_proto pb_kind_canceled = kind_canceled
kind_from_proto pb_kind_system = kind_system
kind_from_proto pb_kind_unspecified = kind_system

unfoldable pub await_mode_to_proto : AwaitMode → PbAwaitMode
await_mode_to_proto await_mode_all = pb_mode_all
await_mode_to_proto await_mode_any = pb_mode_any
await_mode_to_proto no_mode = pb_mode_unspecified

unfoldable pub await_mode_from_proto : PbAwaitMode → AwaitMode
await_mode_from_proto pb_mode_any = await_mode_any
await_mode_from_proto pb_mode_all = await_mode_all
await_mode_from_proto pb_mode_unspecified = await_mode_all

-- The loop of `runIDsToProto`, and that of `runIDsFromProto`.
unfoldable pub run_ids_to_proto : List RunId → List String
run_ids_to_proto [] = []
run_ids_to_proto (id ∷ ids) = id ∷ run_ids_to_proto ids

unfoldable pub run_ids_from_proto : List String → List RunId
run_ids_from_proto [] = []
run_ids_from_proto (id ∷ ids) = id ∷ run_ids_from_proto ids

unfoldable pub wake_to_proto : Option Wake → Option PbWake
wake_to_proto none = none
wake_to_proto (some w) = some (record {
  targets = run_ids_to_proto w.targets;
  done = run_ids_to_proto w.done;
  expired = w.expired;
})

unfoldable pub wake_from_proto : Option PbWake → Option Wake
wake_from_proto none = none
wake_from_proto (some w) = some (record {
  targets = run_ids_from_proto w.targets;
  done = run_ids_from_proto w.done;
  expired = w.expired;
})

module _ {S : Type 0} ⦃st : Stamps S⦄ where
  -- `ts` and `fromTS`: the zero time is an absent stamp.
  unfoldable pub ts : Time → Option S
  ts t = if leb t 0 then none else some (st.make t)

  unfoldable pub from_ts : Option S → Time
  from_ts none = 0
  from_ts (some s) = st.as_time s

  unfoldable pub await_to_proto : Option Await → Option (PbAwait S)
  await_to_proto none = none
  await_to_proto (some a) = some (record {
    mode = await_mode_to_proto a.mode;
    run_ids = run_ids_to_proto a.targets;
    deadline = ts a.deadline;
    cancel_cascade = a.cancel_cascade;
  })

  unfoldable pub await_from_proto : Option (PbAwait S) → Option Await
  await_from_proto none = none
  await_from_proto (some a) = some (record {
    mode = await_mode_from_proto a.mode;
    targets = run_ids_from_proto a.run_ids;
    deadline = from_ts a.deadline;
    cancel_cascade = a.cancel_cascade;
  })

  unfoldable pub failure_to_proto : Failure → PbFailure S
  failure_to_proto f = record {
    step_id = f.step_id;
    phase = phase_to_proto f.phase;
    attempt = f.attempt;
    message = f.message;
    at = ts f.at;
    kind = kind_to_proto f.kind;
    reason = f.reason;
  }

  unfoldable pub failure_from_proto : PbFailure S → Failure
  failure_from_proto f = record {
    step_id = f.step_id;
    phase = phase_from_proto f.phase;
    attempt = f.attempt;
    message = f.message;
    at = from_ts f.at;
    kind = kind_from_proto f.kind;
    reason = f.reason;
  }

  -- A failure that may be absent, converted where it is there.
  unfoldable pub failures_to_proto : Option Failure → Option (PbFailure S)
  failures_to_proto none = none
  failures_to_proto (some f) = some (failure_to_proto f)

  unfoldable pub failures_from_proto : Option (PbFailure S) → Option Failure
  failures_from_proto none = none
  failures_from_proto (some f) = some (failure_from_proto f)

  unfoldable pub operation_to_proto : OperationRecord → PbOperation S
  operation_to_proto op = record {
    status = op_status_to_proto op.status;
    attempts = op.attempts;
    state = op.state;
    failure = failures_to_proto op.failure;
    order = op.order;
  }

  unfoldable pub operation_from_proto : PbOperation S → OperationRecord
  operation_from_proto op = record {
    status = op_status_from_proto op.status;
    attempts = op.attempts;
    state = op.state;
    failure = failures_from_proto op.failure;
    order = op.order;
  }
