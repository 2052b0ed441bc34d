-- ===== src/Storage/TerminalRow.antt =====
-- The terminal row of store/internal/storagepb/convert.go: what is left of a terminal record comes
-- back.
use durable.Storage.Messages.{PbTerminal}
use durable.Base.{
  ◌≡◌, refl, sym, ◌∙◌, ap, subst, Bool, false, Option, none, some, [], ◌∷◌, ◌++◌, String_comparable,
  if◌then◌else◌, contains, arith, Bool-cases, inl, inr,
}
use durable.Base.Map.{Map, get, keys, IsMap, contains-keys}
use durable.Kernel.{StepId, Failure, Outcome, unset}
use durable.Driver.{
  Bytes, OperationRecord, StepRecord, CancelRequest, RunRecord, no_op, is_failed, step_of, kept,
  compact_terminal, clone_op,
}
use durable.Driver.Compact.{clone_op-same}
use durable.Driver.Copies.{put_new, IsNew, IsNew-first, IsNew-rest, IsNew-append}
use mathlib.Core.List.{append-nil, append_assoc}
use durable.Storage.{
  Stamps, Codec, ok, fails, marshal, operation_to_proto, operation_from_proto, failures_to_proto,
  no_outcome_set,
}
use durable.Storage.Fields.{
  AreExact, phase_back, outcome_back, ts_back, failure_back, operation_back,
}
use durable.Storage.Records.{
  cancels_to_proto, failed_unwinds, terminal_to_proto, with_unwind, with_unwinds, with_failure,
  with_cancel, with_terminal, marshal_terminal, unmarshal_terminal_into,
}
use durable.Storage.Roundtrip.{Inverts, unmarshal-marshal, annotate-none, cancel_back}

-- `&driver.RunRecord{}`
abbrev pub no_run : RunRecord
no_run = record {
  run_id = "";
  pipeline_id = "";
  resource_id = "";
  annotations = [];
  input = [];
  phase = unset;
  steps = [];
  failure = none;
  output = [];
  outcome = none;
  next_attempt_at = 0;
  awaiting = none;
  awaited = none;
  last_error = "";
  last_reason = "";
  last_error_at = 0;
  cancel = none;
  created_at = 0;
  updated_at = 0;
  started_at = 0;
}

-- A record whose output is kept beside the row comes without it.
abbrev pub row_output : Bool → RunRecord → Bytes
row_output beside r = if beside then [] else r.output

module _ {S : Type 0} ⦃st : Stamps S⦄ (h : AreExact st) where
  with_unwind-new :
      (q : RunRecord) (id : StepId) (sr : StepRecord)
      → contains (keys q.steps) id ≡ false
      → with_unwind q id (operation_from_proto {S = S} (operation_to_proto sr.unwind)) ≡ record q {
        steps = q.steps ++ (id, record { forward = no_op; unwind = clone_op sr.unwind }) ∷ [];
      }
  unfolding with_unwind step_of
  with_unwind-new q id sr n =
      let g : get q.steps id ≡ none = ground (arith, contains-keys q.steps id) in
      let op : OperationRecord = operation_from_proto {S = S} (operation_to_proto sr.unwind) in
      let k : op ≡ clone_op sr.unwind =
        operation_back h sr.unwind ∙ sym (clone_op-same sr.unwind) in
      let v : StepRecord = record (step_of q id) { unwind = op } in
      let e : v ≡ record { forward = no_op; unwind = clone_op sr.unwind } =
        rw (g, step_of) (rw k refl) in
      let stored : Map StepId StepRecord → RunRecord = λ x. record q { steps = x } in
      ap stored (put_new q.steps id v n ∙ ap (λ x. q.steps ++ (id, x) ∷ []) e)

  with_unwinds-kept :
      (m : Map StepId StepRecord) (q : RunRecord)
      → IsMap m
      → IsNew q.steps m
      → with_unwinds q (failed_unwinds {S = S} m) ≡ record q { steps = q.steps ++ kept m }
  unfolding with_unwinds failed_unwinds kept
  with_unwinds-kept [] q d n =
      let stored : Map StepId StepRecord → RunRecord = λ x. record q { steps = x } in
      ap stored (sym (append-nil q.steps))
  with_unwinds-kept ((id, sr) ∷ m) q d n = elim (Bool-cases (is_failed sr.unwind.status)) [
    | inl e ↦
        let fresh : contains (keys q.steps) id ≡ false = IsNew-first q.steps m id sr n in
        let x : StepId × StepRecord =
          (id, record { forward = no_op; unwind = clone_op sr.unwind }) in
        let p : RunRecord = record q { steps = q.steps ++ x ∷ [] } in
        let new : IsNew p.steps m = IsNew-append q.steps m id sr x.1 n d in
        let stored : Map StepId StepRecord → RunRecord = λ y. record q { steps = y } in
        let rest : with_unwinds p (failed_unwinds {S = S} m)
            ≡ record p { steps = p.steps ++ kept m } =
          with_unwinds-kept m p d.1 new in
        rw e (
          rw (with_unwind-new q id sr fresh, with_unwinds)
            (rest ∙ ap stored (append_assoc q.steps (x ∷ []) (kept m))))
    | inr e ↦ rw e (with_unwinds-kept m q d.1 (IsNew-rest q.steps m id sr n))
  ]

  with_failure_back :
      (q : RunRecord) (f : Option Failure)
      → q.failure ≡ none
      → with_failure {S = S} q (failures_to_proto f) ≡ record q { failure = f }
  unfolding with_failure failures_to_proto
  with_failure_back q none e =
      let p : Option Failure → RunRecord = λ x. record q { failure = x } in ap p e
  with_failure_back q (some f) e =
      let p : Failure → RunRecord = λ x. record q { failure = some x } in ap p (failure_back h f)

  with_cancel_back :
      (q : RunRecord) (c : Option CancelRequest)
      → q.cancel ≡ none
      → with_cancel {S = S} q (cancels_to_proto c) ≡ record q { cancel = c }
  unfolding with_cancel cancels_to_proto
  with_cancel_back q none e =
      let p : Option CancelRequest → RunRecord = λ x. record q { cancel = x } in ap p e
  with_cancel_back q (some c) e =
      let p : CancelRequest → RunRecord = λ x. record q { cancel = some x } in
      ap p (cancel_back h c)

  terminal_back :
      (r : RunRecord) (o : Outcome) (beside : Bool)
      → IsMap r.steps
      → r.outcome ≡ some o
      → with_terminal {S = S} no_run (terminal_to_proto r o beside)
        ≡ record (compact_terminal r) { output = row_output beside r }
  unfolding with_terminal terminal_to_proto compact_terminal contains
  terminal_back r o beside d e =
      let q : RunRecord = record no_run {
        run_id = r.run_id;
        pipeline_id = r.pipeline_id;
        resource_id = r.resource_id;
        created_at = r.created_at;
        annotations = r.annotations;
        phase = r.phase;
        updated_at = r.updated_at;
        started_at = r.started_at;
        outcome = some o;
        output = row_output beside r;
      } in
      let u = with_unwinds-kept r.steps q d (λ k g. refl) in
      let p : RunRecord = record q { steps = kept r.steps } in
      let f = with_failure_back p r.failure refl in
      let c = with_cancel_back (record p { failure = r.failure }) r.cancel refl in
      let ended : Option Outcome → RunRecord =
        λ x. record (compact_terminal r) { outcome = x; output = row_output beside r } in
      rw (phase_back r.phase) (
        rw (outcome_back o) (
          rw (annotate-none [] r.annotations refl) (
            rw (ts_back h r.created_at) (
              rw (ts_back h r.updated_at)
                (rw (ts_back h r.started_at) (rw u (rw f (c ∙ ap ended (sym e)))))))))

  -- Let the time stamps be exact for times other than zero, and the wire format decode what it
  -- encoded of this message. A record with an outcome that MarshalTerminal encodes is decoded
  -- by UnmarshalTerminalInto, into an empty record, as what CompactTerminal leaves of it,
  -- without the output if this is kept beside the row, and with the mark whether it is.
  pub terminal-roundtrip :
      (r : RunRecord) (beside : Bool) (b : Bytes) (o : Outcome) ⦃w : Codec (PbTerminal S)⦄
      → Inverts w (terminal_to_proto r o beside)
      → IsMap r.steps
      → r.outcome ≡ some o
      → marshal_terminal S r beside ≡ ok b
      → unmarshal_terminal_into S b no_run
        ≡ ok (record (compact_terminal r) { output = row_output beside r }, beside)
  unfolding unmarshal_terminal_into marshal_terminal terminal_to_proto
  terminal-roundtrip r beside b o i d e m =
      let k : marshal (terminal_to_proto r o beside) ≡ ok b =
        subst
          (λ x.
            elim x [
              | none ↦ fails no_outcome_set
              | some y ↦ marshal (terminal_to_proto {S = S} r y beside)
            ]
            ≡ ok b)
          e m in
      unmarshal-marshal (terminal_to_proto r o beside) b
        (λ pb. (with_terminal no_run pb, pb.output_beside)) i k
      ∙ ap (λ x. ok (x, beside)) (terminal_back r o beside d e)
