-- ===== src/Memstore.antt =====
-- store/mem/mem.go: the store that keeps its runs in memory, the reference of the store's contract.
-- The mutex makes a method one step. A call that the code answers with an error leaves the store as
-- it was. `panics` is the dereference of a nil pointer. A limit is a natural number, since a
-- negative one acts as 0. The context and the never set errors are left out.
pub mod Keys
pub mod Written
pub mod Invariant
pub mod Transit
pub mod Reap
pub mod Spec
pub mod Refines
pub mod Heads
pub mod Listing
pub mod Histories
pub mod Applies
pub mod Sorting
mod Tests
use Prim.Native.String.{◌++◌}
use durable.Base.{
  ℕ, ◌+◌, ◌≡◌, Bool, true, false, ◌&&◌, not, Option, none, some, List, [], ◌∷◌, String,
  String_comparable, String_discrete, ◌≟◌, ite, ltb, leb, if◌then◌else◌, is_some,
}
use durable.Base.Map.{Map, get, put, delete}
use durable.Kernel.{
  PipelineId, ResourceId, RunId, StepId, Time, Phase, Outcome, Failure, clone_await, clone_wake,
}
use durable.Driver.{
  Bytes, op_unresolved, OperationRecord, StepRecord, CancelRequest, Cursor, OpWrite, Transition,
  RunRecord, no_op, op_of, terminal, clone, clone_op, compact_terminal, step_of, write_op,
}

pub record State : Type 0 where
  pub runs : Map RunId RunRecord
  pub slots : Map String RunId
  pub inflight : Map RunId StepId

-- `kernel.ErrRunNotFound` and `kernel.ErrRunTerminal`
pub data StoreError : Type 0 where
  run_not_found run_terminal : StoreError

pub data Result (A : Type 0) : Type 0 where
  ok : A → Result A
  fails : StoreError → Result A
  panics : Result A

abbrev pub new : State
new = record { runs = []; slots = []; inflight = [] }

unfoldable pub slot_key : PipelineId → ResourceId → String
slot_key pipeline resource = pipeline ++ "\0" ++ resource

-- What `CreateRun` returns beside the error: nothing and true, or the occupying record and false.
pub data Created : Type 0 where
  created : Created
  existing : RunRecord → Created

-- `s.runs[active].Clone()`
unfoldable pub occupant : State → RunId → Result (State × Created)
occupant s active = elim (get s.runs active) [ none ↦ panics | some r ↦ ok (s, existing (clone r)) ]

-- The loop of `CreateRun` over the excluding pipelines.
unfoldable pub excluded : Map String RunId → ResourceId → List PipelineId → Option RunId
excluded slots resource [] = none
excluded slots resource (p ∷ ps) =
    let rest = excluded slots resource ps in
    elim (get slots (slot_key p resource)) [ none ↦ rest | some active ↦ some active ]

-- The record as it is stored.
unfoldable pub seed : RunRecord → RunRecord
seed r = let c = clone r in if terminal c then compact_terminal c else c

unfoldable pub persist : State → RunRecord → State
persist s r = record s {
  runs = put s.runs r.run_id (seed r);
  slots = put s.slots (slot_key r.pipeline_id r.resource_id) r.run_id;
}

unfoldable pub create_run : State → RunRecord → List PipelineId → Result (State × Created)
create_run s r excluding = elim (get s.slots (slot_key r.pipeline_id r.resource_id)) [
  | some active ↦ occupant s active
  | none ↦ elim (excluded s.slots r.resource_id excluding) [
    | some active ↦ occupant s active
    | none ↦ ok (persist s r, created)
  ]
]

unfoldable pub get_active_run_id : State → PipelineId → ResourceId → Option RunId
get_active_run_id s pipeline resource = get s.slots (slot_key pipeline resource)

unfoldable pub get_run : State → RunId → Result RunRecord
get_run s id = elim (get s.runs id) [ none ↦ fails run_not_found | some r ↦ ok (clone r) ]

-- The in-flight operation of a head, with its number of attempts alone.
unfoldable pub in_flight : OperationRecord → OperationRecord
in_flight op = record no_op { status = op_unresolved; attempts = op.attempts }

unfoldable pub head : State → RunRecord → Result RunRecord
head s r =
    let h = record (clone r) { input = []; output = [] } in
    let h' = record h { steps = [] } in
    if terminal r then ok h else elim (get s.inflight r.run_id) [
      | none ↦ ok h'
      | some step ↦ elim (get r.steps step) [
        | none ↦ panics
        | some sr ↦ ok (write_op h' step r.phase (in_flight (op_of sr r.phase)))
      ]
    ]

unfoldable pub get_run_head : State → RunId → Result RunRecord
get_run_head s id = elim (get s.runs id) [ none ↦ fails run_not_found | some r ↦ head s r ]

-- The loop over the operation writes.
unfoldable pub write_ops : RunRecord → List OpWrite → RunRecord
write_ops r [] = r
write_ops r (w ∷ ws) = write_ops (write_op r w.step_id w.phase (clone_op w.op)) ws

-- The scheduling state of the cursor.
unfoldable pub schedule : RunRecord → Cursor → RunRecord
schedule r c = record r {
  phase = c.phase;
  next_attempt_at = c.next_attempt_at;
  last_error = c.last_error;
  last_reason = c.last_reason;
  last_error_at = c.last_error_at;
  awaiting = clone_await c.awaiting;
  awaited = clone_wake c.awaited;
  updated_at = c.updated_at;
  started_at = c.started_at;
}

unfoldable pub is_idle : Cursor → Bool
is_idle c = ite (c.step_id ≟ "") true false

-- The operation of the cursor is unresolved.
unfoldable pub open_op : RunRecord → Cursor → RunRecord
open_op r c =
    write_op r c.step_id c.phase (record (op_of (step_of r c.step_id) c.phase) {
      status = op_unresolved;
      attempts = c.attempts;
    })

unfoldable pub overlay : RunRecord → Cursor → RunRecord
overlay r c = if is_idle c then r else open_op r c

unfoldable pub point : Map RunId StepId → RunId → Cursor → Map RunId StepId
point m id c = if is_idle c then delete m id else put (delete m id) id c.step_id

unfoldable pub fail : RunRecord → Option Failure → RunRecord
fail r none = r
fail r (some f) = record r { failure = some f }

-- The slot is released if it is the run's.
unfoldable pub free_slot : Map String RunId → String → RunId → Map String RunId
free_slot slots key id = elim (get slots key) [
  | none ↦ slots
  | some active ↦ ite (active ≟ id) (delete slots key) slots
]

-- The record after the writes of a transition, without its outcome.
unfoldable pub written : RunRecord → Transition → RunRecord
written r t = fail (overlay (schedule (write_ops r t.ops) t.cursor) t.cursor) t.failure

-- The record with its outcome, and compact.
unfoldable pub finish : RunRecord → Outcome → Bytes → RunRecord
finish r o output = compact_terminal (record r { outcome = some o; output = output })

-- The store with a record as a transition has written it, and with its outcome if it has one.
unfoldable pub settle : State → RunId → RunRecord → Transition → Option Outcome → State
settle s id w t none = record s { runs = put s.runs id w; inflight = point s.inflight id t.cursor }
settle s id w t (some o) = record {
  runs = put s.runs id (finish w o t.output);
  slots = free_slot s.slots (slot_key w.pipeline_id w.resource_id) id;
  inflight = delete (point s.inflight id t.cursor) id;
}

-- The transition of a record that is there and not terminal.
unfoldable pub transit : State → RunId → RunRecord → Transition → State
transit s id r t = settle s id (written r t) t t.outcome

unfoldable pub apply_transition : State → RunId → Transition → Result State
apply_transition s id t = elim (get s.runs id) [
  | none ↦ fails run_not_found
  | some r ↦ if terminal r then fails run_terminal else ok (transit s id r t)
]

abbrev pub reapable : Time → RunRecord → Bool
reapable before r = terminal r && ltb r.updated_at before

-- The loop of `ReapTerminal`, over the entries that are left to visit.
unfoldable pub reap_loop :
    Time → ℕ → Map RunId RunRecord → ℕ → Map RunId RunRecord → Map RunId RunRecord × ℕ
reap_loop before limit runs deleted [] = (runs, deleted)
reap_loop before limit runs deleted ((id, r) ∷ es) =
    let hit = reapable before r in
    let rest =
      reap_loop before limit (if hit then delete runs id else runs)
        (if hit then deleted + 1 else deleted) es in
    if leb limit deleted then (runs, deleted) else rest

unfoldable pub reap_terminal : State → Time → ℕ → State × ℕ
reap_terminal s before limit =
    let d = reap_loop before limit s.runs 0 s.runs in (record s { runs = d.0 }, d.1)

unfoldable pub request_cancel : State → RunId → CancelRequest → Result (State × Bool)
request_cancel s id req = elim (get s.runs id) [
  | none ↦ fails run_not_found
  | some r ↦
      if terminal r
      then fails run_terminal
      else if is_some r.cancel
      then ok (s, false)
      else ok (record s { runs = put s.runs id (record r { cancel = some req }) }, true)
]

-- The loop of `ListNonterminal`; `none` where a head panics.
unfoldable pub heads : State → Map RunId RunRecord → Option (List RunRecord)
heads s [] = some []
heads s ((id, r) ∷ es) =
    let rest = heads s es in
    if terminal r then rest else elim (head s r) [
      | panics ↦ none
      | fails e ↦ none
      | ok h ↦ elim rest [ none ↦ none | some hs ↦ some (h ∷ hs) ]
    ]

unfoldable pub list_nonterminal : State → Option (List RunRecord)
list_nonterminal s = heads s s.runs

-- The inner loop of `sortRecords`: the record moves ahead of the later created ones. The records
-- that stand before it are given last first.
unfoldable pub swap_back : RunRecord → List RunRecord → List RunRecord
swap_back r [] = r ∷ []
swap_back r (q ∷ qs) = if ltb r.created_at q.created_at then q ∷ swap_back r qs else r ∷ q ∷ qs

-- The outer loop, over the records that are sorted, last first, and those that are not.
unfoldable pub sort_loop : List RunRecord → List RunRecord → List RunRecord
sort_loop sorted [] = sorted
sort_loop sorted (r ∷ rs) = sort_loop (swap_back r sorted) rs

unfoldable pub last_first : List RunRecord → List RunRecord → List RunRecord
last_first [] out = out
last_first (r ∷ rs) out = last_first rs (r ∷ out)

unfoldable pub sort_records : List RunRecord → List RunRecord
sort_records rs = last_first (sort_loop [] rs) []

unfoldable pub copies : Map RunId RunRecord → List RunRecord
copies [] = []
copies ((id, r) ∷ es) = clone r ∷ copies es

unfoldable pub all_runs : State → List RunRecord
all_runs s = sort_records (copies s.runs)
