-- ===== src/Storage/Fields.antt =====
-- The conversions of fields in store/internal/storagepb/convert.go come back.
use durable.Base.{◌≡◌, refl, ap, false, Option, none, some, List, [], ◌∷◌, leb, zero, suc, arith}
use durable.Kernel.{
  RunId, Time, Phase, unset, phase_forward, phase_unwind, phase_done, AwaitMode, no_mode,
  await_mode_all, await_mode_any, Await, Wake, Outcome, no_outcome, outcome_success,
  outcome_failure, FailureKind, kind_system, kind_user, kind_canceled, Failure,
}
use durable.Driver.{OpStatus, op_none, op_unresolved, op_succeeded, op_failed, OperationRecord}
use durable.Storage.{
  Stamps, phase_to_proto, phase_from_proto, outcome_to_proto, outcome_from_proto,
  op_status_to_proto, op_status_from_proto, kind_to_proto, kind_from_proto, await_mode_to_proto,
  await_mode_from_proto, run_ids_to_proto, run_ids_from_proto, wake_to_proto, wake_from_proto, ts,
  from_ts, await_to_proto, await_from_proto, failure_to_proto, failure_from_proto,
  failures_to_proto, failures_from_proto, operation_to_proto, operation_from_proto,
}

pub phase_back : (p : Phase) → phase_from_proto (phase_to_proto p) ≡ p
unfolding phase_from_proto phase_to_proto
phase_back unset = refl
phase_back phase_forward = refl
phase_back phase_unwind = refl
phase_back phase_done = refl

pub outcome_back : (o : Outcome) → outcome_from_proto (outcome_to_proto o) ≡ o
unfolding outcome_from_proto outcome_to_proto
outcome_back no_outcome = refl
outcome_back outcome_success = refl
outcome_back outcome_failure = refl

op_status_back : (s : OpStatus) → op_status_from_proto (op_status_to_proto s) ≡ s
unfolding op_status_from_proto op_status_to_proto
op_status_back op_none = refl
op_status_back op_unresolved = refl
op_status_back op_succeeded = refl
op_status_back op_failed = refl

kind_back : (k : FailureKind) → kind_from_proto (kind_to_proto k) ≡ k
unfolding kind_from_proto kind_to_proto
kind_back kind_system = refl
kind_back kind_user = refl
kind_back kind_canceled = refl

-- A mode that is not set comes back as the one for all targets.
pub settled_mode : AwaitMode → AwaitMode
settled_mode no_mode = await_mode_all
settled_mode await_mode_all = await_mode_all
settled_mode await_mode_any = await_mode_any

await_mode_back : (m : AwaitMode) → await_mode_from_proto (await_mode_to_proto m) ≡ settled_mode m
unfolding await_mode_from_proto await_mode_to_proto settled_mode
await_mode_back no_mode = refl
await_mode_back await_mode_all = refl
await_mode_back await_mode_any = refl

pub settled_await : Option Await → Option Await
settled_await none = none
settled_await (some a) = some (record a { mode = settled_mode a.mode })

run_ids_back : (ids : List RunId) → run_ids_from_proto (run_ids_to_proto ids) ≡ ids
unfolding run_ids_from_proto run_ids_to_proto
run_ids_back [] = refl
run_ids_back (id ∷ ids) = ap (λ l. id ∷ l) (run_ids_back ids)

pub wake_back : (w : Option Wake) → wake_from_proto (wake_to_proto w) ≡ w
unfolding wake_from_proto wake_to_proto
wake_back none = refl
wake_back (some w) = rw (run_ids_back w.targets) (rw (run_ids_back w.done) refl)

-- A time that is not zero comes back from its stamp.
pub record AreExact {S : Type 0} (st : Stamps S) : Type 0 where
  pub as_time-make : (t : Time) → st.as_time (st.make (suc t)) ≡ suc t

module _ {S : Type 0} ⦃st : Stamps S⦄ (h : AreExact st) where
  pub ts_back : (t : Time) → from_ts {S = S} (ts t) ≡ t
  unfolding from_ts ts
  ts_back zero = refl
  ts_back (suc t) = let e : leb (suc t) 0 ≡ false = ground arith in rw (e, ts) (h.as_time-make t)

  pub await_back :
      (a : Option Await) → await_from_proto {S = S} (await_to_proto a) ≡ settled_await a
  unfolding await_from_proto await_to_proto settled_await
  await_back none = refl
  await_back (some a) =
      rw (await_mode_back a.mode) (rw (run_ids_back a.targets) (rw (ts_back a.deadline) refl))

  pub failure_back : (f : Failure) → failure_from_proto {S = S} (failure_to_proto f) ≡ f
  unfolding failure_from_proto failure_to_proto
  failure_back f = rw (phase_back f.phase) (rw (ts_back f.at) (rw (kind_back f.kind) refl))

  pub failures_back : (f : Option Failure) → failures_from_proto {S = S} (failures_to_proto f) ≡ f
  unfolding failures_from_proto failures_to_proto
  failures_back none = refl
  failures_back (some f) = ap some (failure_back f)

  pub operation_back :
      (op : OperationRecord) → operation_from_proto {S = S} (operation_to_proto op) ≡ op
  unfolding operation_from_proto operation_to_proto
  operation_back op = rw (op_status_back op.status) (rw (failures_back op.failure) refl)
