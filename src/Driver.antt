-- ===== src/Driver.antt =====
-- store/driver/driver.go: the record of a run, its transitions, and the rules that the stores share.
-- A pointer that may be nil is an `Option`, a nil map is the empty one, a nil slice the empty list.
-- The maps hold step records by pointer, each reached through its map alone. `Order` is a uint32 and
-- wraps around; `Attempts` is a uint64 that only counts up, a natural number here.
pub mod Orders
pub mod Compact
pub mod Copies
pub mod Failures
mod Tests
use durable.Base.{
  ℕ, zero, suc, ◌+◌, ◌%◌, ◌^◌, Bool, true, false, not, ◌&&◌, Option, none, some, List, [], ◌∷◌,
  String, String_comparable, Comparable, ltb, leb, if◌then◌else◌, is_some, max, map,
}
use durable.Base.Map.{Map, get, put}
use durable.Kernel.{
  PipelineId, ResourceId, RunId, StepId, Time, Phase, unset, phase_forward, phase_unwind,
  phase_done, Await, Wake, Outcome, Failure, clone_await, clone_wake,
}

abbrev pub Bytes : Type 0
Bytes = List ℕ

pub data OpStatus : Type 0 where
  op_none op_unresolved op_succeeded op_failed : OpStatus

pub record OperationRecord : Type 0 where
  pub status : OpStatus
  pub attempts : ℕ
  pub state : Bytes
  pub failure : Option Failure
  pub order : ℕ

pub record StepRecord : Type 0 where
  pub forward : OperationRecord
  pub unwind : OperationRecord

-- `OperationRecord{}` and `StepRecord{}`
abbrev pub no_op : OperationRecord
no_op = record { status = op_none; attempts = 0; state = []; failure = none; order = 0 }

abbrev pub no_step : StepRecord
no_step = record { forward = no_op; unwind = no_op }

-- `sr.Op(phase)`, read and written through.
unfoldable pub op_of : StepRecord → Phase → OperationRecord
op_of sr phase_unwind = sr.unwind
op_of sr phase_forward = sr.forward
op_of sr phase_done = sr.forward
op_of sr unset = sr.forward

unfoldable pub set_op : StepRecord → Phase → OperationRecord → StepRecord
set_op sr phase_unwind op = record sr { unwind = op }
set_op sr phase_forward op = record sr { forward = op }
set_op sr phase_done op = record sr { forward = op }
set_op sr unset op = record sr { forward = op }

pub record CancelRequest : Type 0 where
  pub cause : String
  pub at : Time

pub record Cursor : Type 0 where
  pub phase : Phase
  pub step_id : StepId
  pub attempts : ℕ
  pub awaiting : Option Await
  pub awaited : Option Wake
  pub next_attempt_at : Time
  pub last_error : String
  pub last_reason : String
  pub last_error_at : Time
  pub updated_at : Time
  pub started_at : Time

pub record OpWrite : Type 0 where
  pub step_id : StepId
  pub phase : Phase
  pub op : OperationRecord

pub record Transition : Type 0 where
  pub cursor : Cursor
  pub ops : List OpWrite
  pub failure : Option Failure
  pub output : Bytes
  pub outcome : Option Outcome

pub record RunRecord : Type 0 where
  pub run_id : RunId
  pub pipeline_id : PipelineId
  pub resource_id : ResourceId
  pub annotations : Map String String
  pub input : Bytes
  pub phase : Phase
  pub steps : Map StepId StepRecord
  pub failure : Option Failure
  pub output : Bytes
  pub outcome : Option Outcome
  pub next_attempt_at : Time
  pub awaiting : Option Await
  pub awaited : Option Wake
  pub last_error : String
  pub last_reason : String
  pub last_error_at : Time
  pub cancel : Option CancelRequest
  pub created_at : Time
  pub updated_at : Time
  pub started_at : Time

-- `OperationRecord.clone`
unfoldable pub clone_op : OperationRecord → OperationRecord
clone_op o = elim o.failure [ none ↦ o | some f ↦ record o { failure = some f } ]

abbrev pub terminal : RunRecord → Bool
terminal r = is_some r.outcome

unfoldable pub is_failed : OpStatus → Bool
is_failed op_failed = true
is_failed op_none = false
is_failed op_unresolved = false
is_failed op_succeeded = false

-- The loop of `CompactTerminal`.
unfoldable pub kept : Map StepId StepRecord → Map StepId StepRecord
kept [] = []
kept ((id, sr) ∷ m) =
    let rest = kept m in
    if is_failed sr.unwind.status
    then (id, record { forward = no_op; unwind = clone_op sr.unwind }) ∷ rest
    else rest

unfoldable pub compact_terminal : RunRecord → RunRecord
compact_terminal r = record r {
  input = [];
  next_attempt_at = 0;
  last_error_at = 0;
  last_error = "";
  last_reason = "";
  awaiting = none;
  awaited = none;
  steps = kept r.steps;
}

-- `r.Step(id)`: the record, a zero one if there is none.
unfoldable pub step_of : RunRecord → StepId → StepRecord
step_of r id = elim (get r.steps id) [ none ↦ no_step | some sr ↦ sr ]

-- `*r.Step(id).Op(phase) = op`
unfoldable pub write_op : RunRecord → StepId → Phase → OperationRecord → RunRecord
write_op r id p op = record r { steps = put r.steps id (set_op (step_of r id) p op) }

-- An unwind failure with the order of its operation.
pub record Found : Type 0 where
  pub order : ℕ
  pub failure : Failure

-- The failure of a step's unwind, where it failed with one.
unfoldable pub failed_unwind : StepRecord → Option Found
failed_unwind sr = elim sr.unwind.failure [
  | none ↦ none
  | some f ↦
      if is_failed sr.unwind.status
      then some (record { order = sr.unwind.order; failure = f })
      else none
]

-- The loop of `UnwindFailures`.
unfoldable pub found : Map StepId StepRecord → List Found
found [] = []
found ((id, sr) ∷ m) =
    let rest = found m in elim (failed_unwind sr) [ none ↦ rest | some f ↦ f ∷ rest ]

-- `sort.Slice` by `order`; it leaves the places of equal orders open.
unfoldable pub insert_found : Found → List Found → List Found
insert_found f [] = f ∷ []
insert_found f (g ∷ gs) = if leb f.order g.order then f ∷ g ∷ gs else g ∷ insert_found f gs

unfoldable pub sort_found : List Found → List Found
sort_found [] = []
sort_found (f ∷ fs) = insert_found f (sort_found fs)

unfoldable pub failures_of : List Found → List Failure
failures_of [] = []
failures_of (f ∷ fs) = f.failure ∷ failures_of fs

unfoldable pub unwind_failures : RunRecord → List Failure
unwind_failures r = failures_of (sort_found (found r.steps))

-- `maxU32(a, b, c)`
unfoldable pub max_u32 : ℕ → ℕ → ℕ → ℕ
max_u32 a b c = let d = if ltb a b then b else a in if ltb d c then c else d

-- The loop of `NextOrder`.
unfoldable pub max_order : ℕ → Map StepId StepRecord → ℕ
max_order n [] = n
max_order n ((id, sr) ∷ m) = max_order (max_u32 n sr.forward.order sr.unwind.order) m

unfoldable pub next_order : RunRecord → ℕ
next_order r = (max_order 0 r.steps + 1) % 2 ^ 32

unfoldable pub clone_step : StepRecord → StepRecord
clone_step sr = record { forward = clone_op sr.forward; unwind = clone_op sr.unwind }

-- The loop that copies a map into another, the values by `f`.
unfoldable pub copy_into :
    {K V : Type 0} → ⦃c : Comparable K⦄ → (V → V) → Map K V → Map K V → Map K V
copy_into f to [] = to
copy_into f to ((k, v) ∷ m) = copy_into f (put to k (f v)) m

unfoldable pub clone : RunRecord → RunRecord
clone r = record r {
  steps = copy_into clone_step [] r.steps;
  annotations = copy_into (λ (v : String). v) [] r.annotations;
  awaiting = clone_await r.awaiting;
  awaited = clone_wake r.awaited;
}
