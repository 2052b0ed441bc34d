-- ===== src/Driver/Compact.antt =====
-- `CompactTerminal` of store/driver/driver.go: what a terminal record keeps.
use durable.Base.{
  ◌≡◌, refl, false, Option, none, some, [], ◌∷◌, String_comparable, if◌then◌else◌, contains, arith,
}
use durable.Base.Map.{Map, get, keys, IsMap, contains-keys}
use durable.Kernel.{StepId}
use durable.Driver.{
  OperationRecord, StepRecord, RunRecord, no_op, clone_op, is_failed, kept, compact_terminal,
  failed_unwind, found, unwind_failures,
}

pub clone_op-same : (o : OperationRecord) → clone_op o ≡ o
unfolding clone_op
clone_op-same o = ground arith

-- The permanently failed unwind of a step, alone.
abbrev pub kept_step : Option StepRecord → Option StepRecord
kept_step o = elim o [
  | none ↦ none
  | some sr ↦
      if is_failed sr.unwind.status
      then some (record { forward = no_op; unwind = sr.unwind })
      else none
]

kept-keys :
    (m : Map StepId StepRecord) (id : StepId)
    → contains (keys m) id ≡ false
    → contains (keys (kept m)) id ≡ false
unfolding kept contains
kept-keys [] id h = refl
kept-keys ((j, sr) ∷ m) id h = ground (arith, kept-keys m id)

pub kept-IsMap : (m : Map StepId StepRecord) → IsMap m → IsMap (kept m)
unfolding kept
kept-IsMap [] d = tt
kept-IsMap ((j, sr) ∷ m) d = ground (arith, kept-IsMap m d.1, kept-keys m j)

pub get-kept :
    (m : Map StepId StepRecord) (id : StepId) → IsMap m → get (kept m) id ≡ kept_step (get m id)
unfolding kept get
get-kept [] id d = refl
get-kept ((j, sr) ∷ m) id d =
    ground (arith, get-kept m id d.1, clone_op-same sr.unwind, contains-keys m j, d.0)

kept-kept : (m : Map StepId StepRecord) → kept (kept m) ≡ kept m
unfolding kept
kept-kept [] = refl
kept-kept ((j, sr) ∷ m) = ground (arith, kept-kept m, clone_op-same sr.unwind)

found-kept : (m : Map StepId StepRecord) → found (kept m) ≡ found m
unfolding kept found failed_unwind
found-kept [] = refl
found-kept ((j, sr) ∷ m) = ground (arith, found-kept m, clone_op-same sr.unwind)

-- What is left of a record: all but the input, the scheduling fields, and the operations other than
-- the failed unwinds.
pub record Compacts (r q : RunRecord) : Type 0 where
  pub failures : unwind_failures q ≡ unwind_failures r
  pub again : compact_terminal q ≡ q
  pub steps : (id : StepId) → get q.steps id ≡ kept_step (get r.steps id)
  pub rest :
      record r {
        input = [];
        next_attempt_at = 0;
        last_error_at = 0;
        last_error = "";
        last_reason = "";
        awaiting = none;
        awaited = none;
        steps = q.steps;
      }
      ≡ q

-- CompactTerminal keeps of the steps exactly those whose unwind failed, each with its unwind
-- operation alone, and empties the input, the times of the next attempt and the last error, the
-- last error and its reason, and the park; all other fields stay. UnwindFailures answers as
-- before, and a second CompactTerminal changes nothing.
pub compact_terminal-Compacts : (r : RunRecord) → IsMap r.steps → Compacts r (compact_terminal r)
unfolding compact_terminal unwind_failures
compact_terminal-Compacts r d = record {
  failures = rw (found-kept r.steps) refl;
  again = rw (kept-kept r.steps) refl;
  steps = λ id. get-kept r.steps id d;
  rest = refl;
}
