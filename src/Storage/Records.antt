-- ===== src/Storage/Records.antt =====
-- store/internal/storagepb/convert.go: the exported functions, which encode and decode a record each.
use durable.Storage.Messages.{PbRunMeta, PbCursor, PbFailure, PbOperation, PbCancel, PbTerminal}
use durable.Base.{
  Bool, Option, none, some, [], ◌∷◌, String, String_comparable, length, leb, if◌then◌else◌,
}
use durable.Base.Map.{Map, put}
use durable.Kernel.{StepId, Failure, Outcome}
use durable.Driver.{
  Bytes, OperationRecord, StepRecord, CancelRequest, Cursor, RunRecord, is_failed, step_of,
}
use durable.Storage.{
  Stamps, Codec, Coded, fails, no_outcome_set, marshal, unmarshal, then_ok, phase_to_proto,
  phase_from_proto, outcome_to_proto, outcome_from_proto, wake_to_proto, wake_from_proto, ts,
  from_ts, await_to_proto, await_from_proto, failure_to_proto, failure_from_proto,
  failures_to_proto, operation_to_proto, operation_from_proto,
}

-- Annotations replace those of the record where there are any.
unfoldable pub annotate : Map String String → Map String String → Map String String
annotate old new = if leb (length new) 0 then old else new

-- `rec.Step(id).Unwind = op`
unfoldable pub with_unwind : RunRecord → StepId → OperationRecord → RunRecord
with_unwind r id op = record r { steps = put r.steps id (record (step_of r id) { unwind = op }) }

module _ {S : Type 0} ⦃st : Stamps S⦄ where
  unfoldable pub run_meta : RunRecord → PbRunMeta S
  run_meta r = record {
    run_id = r.run_id;
    pipeline_id = r.pipeline_id;
    resource_id = r.resource_id;
    created_at = ts r.created_at;
    annotations = r.annotations;
  }

  unfoldable pub with_run_meta : RunRecord → PbRunMeta S → RunRecord
  with_run_meta r pb = record r {
    run_id = pb.run_id;
    pipeline_id = pb.pipeline_id;
    resource_id = pb.resource_id;
    created_at = from_ts pb.created_at;
    annotations = annotate r.annotations pb.annotations;
  }

  unfoldable pub cursor_to_proto : Cursor → PbCursor S
  cursor_to_proto c = record {
    phase = phase_to_proto c.phase;
    step_id = c.step_id;
    attempts = c.attempts;
    next_attempt_at = ts c.next_attempt_at;
    last_error = c.last_error;
    last_reason = c.last_reason;
    last_error_at = ts c.last_error_at;
    updated_at = ts c.updated_at;
    awaiting = await_to_proto c.awaiting;
    awaited = wake_to_proto c.awaited;
    started_at = ts c.started_at;
  }

  unfoldable pub cursor_from_proto : PbCursor S → Cursor
  cursor_from_proto pb = record {
    phase = phase_from_proto pb.phase;
    step_id = pb.step_id;
    attempts = pb.attempts;
    next_attempt_at = from_ts pb.next_attempt_at;
    last_error = pb.last_error;
    last_reason = pb.last_reason;
    last_error_at = from_ts pb.last_error_at;
    updated_at = from_ts pb.updated_at;
    awaiting = await_from_proto pb.awaiting;
    awaited = wake_from_proto pb.awaited;
    started_at = from_ts pb.started_at;
  }

  unfoldable pub cancel_to_proto : CancelRequest → PbCancel S
  cancel_to_proto c = record { cause = c.cause; at = ts c.at }

  unfoldable pub cancel_from_proto : PbCancel S → CancelRequest
  cancel_from_proto pb = record { cause = pb.cause; at = from_ts pb.at }

  unfoldable pub cancels_to_proto : Option CancelRequest → Option (PbCancel S)
  cancels_to_proto none = none
  cancels_to_proto (some c) = some (cancel_to_proto c)

  -- The loop of `MarshalTerminal` over the steps. The keys are distinct, as those of a map.
  unfoldable pub failed_unwinds : Map StepId StepRecord → Map String (PbOperation S)
  failed_unwinds [] = []
  failed_unwinds ((id, sr) ∷ m) =
      let rest = failed_unwinds m in
      if is_failed sr.unwind.status then (id, operation_to_proto sr.unwind) ∷ rest else rest

  unfoldable pub terminal_to_proto : RunRecord → Outcome → Bool → PbTerminal S
  terminal_to_proto r o beside = record {
    outcome = outcome_to_proto o;
    output = if beside then [] else r.output;
    run_id = r.run_id;
    pipeline_id = r.pipeline_id;
    resource_id = r.resource_id;
    created_at = ts r.created_at;
    annotations = r.annotations;
    phase = phase_to_proto r.phase;
    committed_at = ts r.updated_at;
    failed_unwinds = failed_unwinds r.steps;
    failure = failures_to_proto r.failure;
    cancel = cancels_to_proto r.cancel;
    output_beside = beside;
    started_at = ts r.started_at;
  }

  -- The loop of `UnmarshalTerminalInto` over the failed unwinds.
  unfoldable pub with_unwinds : RunRecord → Map String (PbOperation S) → RunRecord
  with_unwinds r [] = r
  with_unwinds r ((id, op) ∷ m) = with_unwinds (with_unwind r id (operation_from_proto op)) m

  unfoldable pub with_failure : RunRecord → Option (PbFailure S) → RunRecord
  with_failure r none = r
  with_failure r (some f) = record r { failure = some (failure_from_proto f) }

  unfoldable pub with_cancel : RunRecord → Option (PbCancel S) → RunRecord
  with_cancel r none = r
  with_cancel r (some c) = record r { cancel = some (cancel_from_proto c) }

  unfoldable pub with_terminal : RunRecord → PbTerminal S → RunRecord
  with_terminal r pb =
      let q : RunRecord = record r {
        run_id = pb.run_id;
        pipeline_id = pb.pipeline_id;
        resource_id = pb.resource_id;
        created_at = from_ts pb.created_at;
        annotations = annotate r.annotations pb.annotations;
        phase = phase_from_proto pb.phase;
        updated_at = from_ts pb.committed_at;
        started_at = from_ts pb.started_at;
        outcome = some (outcome_from_proto pb.outcome);
        output = pb.output;
      } in
      with_cancel (with_failure (with_unwinds q pb.failed_unwinds) pb.failure) pb.cancel

module _ (S : Type 0) ⦃st : Stamps S⦄ where
  unfoldable pub marshal_run_meta : ⦃c : Codec (PbRunMeta S)⦄ → RunRecord → Coded Bytes
  marshal_run_meta r = marshal (run_meta {S = S} r)

  unfoldable pub unmarshal_run_meta_into :
      ⦃c : Codec (PbRunMeta S)⦄ → Bytes → RunRecord → Coded RunRecord
  unmarshal_run_meta_into b r = then_ok (unmarshal b) (with_run_meta {S = S} r)

  unfoldable pub marshal_cursor : ⦃c : Codec (PbCursor S)⦄ → Cursor → Coded Bytes
  marshal_cursor c = marshal (cursor_to_proto {S = S} c)

  unfoldable pub unmarshal_cursor : ⦃c : Codec (PbCursor S)⦄ → Bytes → Coded Cursor
  unmarshal_cursor b = then_ok (unmarshal b) (cursor_from_proto {S = S})

  unfoldable pub marshal_operation : ⦃c : Codec (PbOperation S)⦄ → OperationRecord → Coded Bytes
  marshal_operation op = marshal (operation_to_proto {S = S} op)

  unfoldable pub unmarshal_operation : ⦃c : Codec (PbOperation S)⦄ → Bytes → Coded OperationRecord
  unmarshal_operation b = then_ok (unmarshal b) (operation_from_proto {S = S})

  unfoldable pub marshal_failure : ⦃c : Codec (PbFailure S)⦄ → Failure → Coded Bytes
  marshal_failure f = marshal (failure_to_proto {S = S} f)

  unfoldable pub unmarshal_failure : ⦃c : Codec (PbFailure S)⦄ → Bytes → Coded Failure
  unmarshal_failure b = then_ok (unmarshal b) (failure_from_proto {S = S})

  unfoldable pub marshal_terminal : ⦃c : Codec (PbTerminal S)⦄ → RunRecord → Bool → Coded Bytes
  marshal_terminal r beside = elim r.outcome [
    | none ↦ fails no_outcome_set
    | some o ↦ marshal (terminal_to_proto {S = S} r o beside)
  ]

  -- The record, and whether the output is kept beside the row.
  unfoldable pub unmarshal_terminal_into :
      ⦃c : Codec (PbTerminal S)⦄ → Bytes → RunRecord → Coded (RunRecord × Bool)
  unmarshal_terminal_into b r =
      then_ok (unmarshal b) (λ pb. (with_terminal {S = S} r pb, pb.output_beside))

  unfoldable pub marshal_cancel : ⦃c : Codec (PbCancel S)⦄ → CancelRequest → Coded Bytes
  marshal_cancel c = marshal (cancel_to_proto {S = S} c)

  unfoldable pub unmarshal_cancel : ⦃c : Codec (PbCancel S)⦄ → Bytes → Coded CancelRequest
  unmarshal_cancel b = then_ok (unmarshal b) (cancel_from_proto {S = S})
