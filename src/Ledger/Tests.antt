-- ===== src/Ledger/Tests.antt =====
-- Runs of internal/ledger/ledger.go, and its theorems at them.
use durable.Base.{
  ◌≡◌, refl, true, false, inr, [], ◌∷◌, String, String_discrete, String_comparable, contains, arith,
  length,
}
use durable.Base.Map.{Map, get, put, IsMap}
use durable.Ledger.{
  OpState, op_unresolved, op_succeeded, op_failed, Topology, Facts, decide_step, run_forward,
  run_unwind, forward_complete, unwind_complete, status, index_from, sorted_ids,
  forward_violation_loop, forward_violation, unwind_violation_loop, unwind_violation, scan_forward,
  scan_unwind, forward_frontier, select_forward, pinned, next_forward, unwind_frontier, is_eligible,
  select_unwind, next_unwind, invalid_for,
}
use durable.Base.Order.{text_le}
use durable.Ledger.Order.{insert, sort}
use durable.Ledger.Forward.{Frontier, Selects, beyond_forward, next_forward-Selects}
use durable.Ledger.Drive.{drive, succeed, no_facts, drive-live}
use durable.Ledger.Outcomes.{HasIds, unresolved_ids, has_failed}
use durable.Ledger.Decides.{Decides, next_forward-Decides}
use durable.Ledger.Violations.{Violates, next_forward-Violates}
use durable.Ledger.Determinism.{next_forward-Perm}
use durable.Ledger.Unwind
use durable.Ledger.Rollback.{rollback, settle, targets}
use durable.Ledger.Undo.{rollback-targets}
use mathlib.Core.List.Perm

program : Unit {0}
unfolding String_discrete contains get put status index_from sorted_ids forward_violation_loop
    forward_violation unwind_violation_loop unwind_violation scan_forward scan_unwind
    forward_frontier select_forward pinned next_forward unwind_frontier is_eligible select_unwind
    next_unwind text_le insert sort drive succeed rollback settle targets unresolved_ids has_failed
program = tt

-- The second step is retired, the first and the third declare an unwind.
abbrev topology : Topology
topology =
    record { id = "select"; unwind = true; retired = false }
    ∷ record { id = "legacy"; unwind = false; retired = true }
    ∷ record { id = "create"; unwind = true; retired = false }
    ∷ record { id = "report"; unwind = false; retired = false }
    ∷ []

abbrev halfway : Map String OpState
halfway = ("create", op_succeeded) ∷ ("select", op_succeeded) ∷ []

abbrev forward_facts : Map String OpState → Facts
forward_facts m = record { forward = m; unwind = [] }

next_forward-halfway :
    next_forward topology (forward_facts halfway) ≡ decide_step run_forward "report"
unfolding program
next_forward-halfway = refl

abbrev broken : Map String OpState
broken = ("select", op_unresolved) ∷ ("create", op_unresolved) ∷ []

abbrev broken_again : Map String OpState
broken_again = ("create", op_unresolved) ∷ ("select", op_unresolved) ∷ []

next_forward-broken :
    next_forward topology (forward_facts broken)
    ≡ invalid_for "multiple unresolved forward operations: create, select"
unfolding program
next_forward-broken = refl

broken_ids : HasIds broken
broken_ids = ((λ e. cc), ((λ e. cc), tt))

broken-IsMap : IsMap broken
unfolding program
broken-IsMap = (refl, (refl, tt))

next_forward-Selects_example :
    Frontier halfway topology (forward_frontier halfway 0 0 topology)
    × Selects halfway
        (beyond_forward topology halfway)
        (next_forward topology (forward_facts halfway))
next_forward-Selects_example =
    next_forward-Selects topology (forward_facts halfway) (refl, (refl, tt))

drive-live_example :
    drive 4 topology no_facts
    ≡ ("select" ∷ "create" ∷ "report" ∷ [], decide_step forward_complete "")
unfolding program
drive-live_example = drive-live 4 topology (refl, (refl, (refl, (refl, tt)))) (omega arith)

-- One operation is unresolved, of a step that the topology has, and of one that it has not.
abbrev pinning : Map String OpState
pinning = ("select", op_succeeded) ∷ ("create", op_unresolved) ∷ []

abbrev dangling : Map String OpState
dangling = ("gone", op_unresolved) ∷ []

next_forward-Decides_example :
    Decides topology
      (forward_facts pinning)
      (has_failed pinning)
      (unresolved_ids pinning)
      (next_forward topology (forward_facts pinning))
next_forward-Decides_example =
    next_forward-Decides topology (forward_facts pinning) ((λ e. cc), ((λ e. cc), tt))

next_forward-pinning :
    next_forward topology (forward_facts pinning) ≡ decide_step run_forward "create"
unfolding program
next_forward-pinning = refl

next_forward-dangling :
    next_forward topology (forward_facts dangling)
    ≡ invalid_for "unresolved forward step gone is not present in the current pipeline definition"
unfolding program
next_forward-dangling = refl

next_forward-Violates_example : Violates broken (next_forward topology (forward_facts broken))
unfolding program
next_forward-Violates_example =
    next_forward-Violates topology (forward_facts broken) broken_ids broken-IsMap
      (inr (omega arith))

next_forward-Perm_example :
    next_forward topology (forward_facts broken)
    ≡ next_forward topology (forward_facts broken_again)
next_forward-Perm_example =
    next_forward-Perm topology (forward_facts broken) (forward_facts broken_again) broken_ids
      broken-IsMap (Perm.swap ("create", op_unresolved) ("select", op_unresolved) [])

-- The unwind of "create" failed.
abbrev unwinding : Facts
unwinding = record { forward = halfway; unwind = ("create", op_failed) ∷ [] }

next_unwind-unwinding : next_unwind topology unwinding ≡ decide_step run_unwind "select"
unfolding program
next_unwind-unwinding = refl

unwinding-Passes : Unwind.Passes unwinding
unfolding program
unwinding-Passes = ("", refl)

next_unwind-Selects_example :
    Unwind.Frontier unwinding.unwind topology
      (unwind_frontier unwinding.unwind 0 (length topology) topology)
    × Unwind.Selects unwinding
        (Unwind.below_unwind topology unwinding.unwind)
        (next_unwind topology unwinding)
next_unwind-Selects_example = Unwind.next_unwind-Selects topology unwinding unwinding-Passes

rollback-targets_example :
    rollback (λ id. false) 4 topology (forward_facts halfway)
    ≡ ("create" ∷ "select" ∷ [], decide_step unwind_complete "")
unfolding program
rollback-targets_example =
    rollback-targets (λ id. false) 4 topology halfway (refl, (refl, (refl, (refl, tt))))
      (omega arith)
