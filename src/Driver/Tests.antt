-- ===== src/Driver/Tests.antt =====
-- Runs of store/driver/driver.go, and its theorems at them.
use mathlib.Core.List.{Permᴰ}
use durable.Base.{
  ℕ, ◌<◌, ◌^◌, ◌≡◌, refl, none, some, [], ◌∷◌, String_discrete, ℕ_discrete, contains, arith,
}
use durable.Base.Map.{Map}
use durable.Kernel.{StepId, phase_unwind, phase_done, Failure, kind_user, outcome_failure}
use durable.Driver.{
  StepRecord, RunRecord, op_succeeded, op_failed, no_op, is_failed, clone_op, kept,
  compact_terminal, found, failed_unwind, insert_found, sort_found, failures_of, unwind_failures,
  max_u32, max_order, next_order,
}
use durable.Driver.Orders.{AllBelow, next_order-AllBelow}
use durable.Driver.Compact.{Compacts, compact_terminal-Compacts}
use durable.Driver.Failures.{unwind_failures-permᴰ}

program : Unit {0}
unfolding String_discrete ℕ_discrete contains is_failed clone_op kept compact_terminal found
    failed_unwind insert_found sort_found failures_of unwind_failures max_u32 max_order next_order
program = tt

abbrev failure_of : StepId → Failure
failure_of id = record {
  step_id = id;
  phase = phase_unwind;
  attempt = 1;
  message = "refused";
  at = 7;
  kind = kind_user;
  reason = "";
}

abbrev failed : StepId → ℕ → StepRecord
failed id n = record {
  forward = record no_op { status = op_succeeded; attempts = 1; state = 1 ∷ []; order = 1 };
  unwind = record no_op {
    status = op_failed;
    attempts = 2;
    failure = some (failure_of id);
    order = n;
  };
}

abbrev undone : StepRecord
undone = record {
  forward = record no_op { status = op_succeeded; order = 2 };
  unwind = record no_op { status = op_succeeded; order = 3 };
}

abbrev with_steps : Map StepId StepRecord → RunRecord
with_steps m = record {
  run_id = "run";
  pipeline_id = "deploy";
  resource_id = "host";
  annotations = ("team", "core") ∷ [];
  input = 1 ∷ 2 ∷ [];
  phase = phase_done;
  steps = m;
  failure = some (failure_of "c");
  output = [];
  outcome = some outcome_failure;
  next_attempt_at = 4;
  awaiting = none;
  awaited = none;
  last_error = "late";
  last_reason = "";
  last_error_at = 3;
  cancel = none;
  created_at = 1;
  updated_at = 9;
  started_at = 2;
}

abbrev ended : RunRecord
ended = with_steps (("a", failed "a" 5) ∷ ("b", undone) ∷ ("c", failed "c" 4) ∷ [])

abbrev visited : RunRecord
visited = with_steps (("b", undone) ∷ ("a", failed "a" 5) ∷ ("c", failed "c" 4) ∷ [])

unwind_failures-ended : unwind_failures ended ≡ failure_of "c" ∷ failure_of "a" ∷ []
unfolding program
unwind_failures-ended = refl

next_order-AllBelow_example :
    AllBelow (next_order ended) ended.steps × (0 < next_order ended) × (next_order ended < 2 ^ 32)
next_order-AllBelow_example = next_order-AllBelow ended (omega arith)

compact_terminal-Compacts_example : Compacts ended (compact_terminal ended)
unfolding program
compact_terminal-Compacts_example = compact_terminal-Compacts ended (refl, (refl, (refl, tt)))

unwind_failures-permᴰ_example : unwind_failures ended ≡ unwind_failures visited
unfolding program
unwind_failures-permᴰ_example =
    unwind_failures-permᴰ ended visited (Permᴰ.swap refl refl) (refl, (refl, tt))
