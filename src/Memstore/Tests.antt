-- ===== src/Memstore/Tests.antt =====
-- Runs of store/mem/mem.go, and its theorems at them.

use mathlib.Core.Bool.{false≢true}
use durable.Base.{
  ℕ, ◌≡◌, ◌⊎◌, refl, sym, ap, true, false, none, some, List, [], ◌∷◌, String, String_discrete,
  ℕ_discrete, String_comparable, ◌≟◌, ite, contains,
}
use durable.Base.Map.{get, put, delete}
use durable.Kernel.{
  RunId, phase_forward, phase_done, outcome_success, clone_ids, clone_await, clone_wake,
}
use durable.Driver.{
  Cursor, Transition, RunRecord, clone_op, clone_step, copy_into, clone, kept, compact_terminal,
  step_of, op_of, set_op, write_op, is_failed,
}
use durable.Memstore.{
  State, ok, new, slot_key, occupant, excluded, seed, persist, create_run, get_active_run_id,
  get_run, in_flight, head, get_run_head, write_ops, schedule, is_idle, open_op, overlay, point,
  fail, free_slot, written, finish, settle, transit, apply_transition, reap_loop, reap_terminal,
  request_cancel, heads, list_nonterminal, swap_back, sort_loop, last_first, sort_records, copies,
  all_runs,
}
use durable.Memstore.Keys.{is_nul_free}
use durable.Memstore.Invariant.{IsValid, IsFresh, new-IsValid, persist-IsValid}
use durable.Memstore.Transit.{transit-IsValid}
use durable.Memstore.Reap.{Reaped, reap_terminal-Reaped}
use durable.Memstore.Spec.{is_live, find_live, first_live}
use durable.Memstore.Refines.{
  Call, creates, applies, reaps, asks, Answer, made, occupied, done, reaped, active, AreAllowed,
  settled, spec_step, spec_run, after_create, after_apply, after_cancel, after_read, step, run,
  run-refines,
}
use durable.Memstore.Heads.{head_after, apply_transition-head}
use durable.Memstore.Listing.{live_heads, list_nonterminal-live_heads}
use durable.Memstore.Histories.{clash, run-exclusive, is_creation, has_creation, run-kept}
use durable.Memstore.Applies.{Applies, apply_transition-Applies}

program : Unit {0}
unfolding String_discrete ℕ_discrete contains get put delete clone_ids clone_await clone_wake
    clone_op clone_step copy_into clone kept compact_terminal step_of op_of set_op write_op
    is_failed slot_key occupant excluded seed persist create_run get_active_run_id get_run in_flight
    head get_run_head write_ops schedule is_idle open_op overlay point fail free_slot written finish
    settle transit apply_transition reap_loop reap_terminal request_cancel heads list_nonterminal
    swap_back sort_loop last_first sort_records copies all_runs is_nul_free is_live find_live
    first_live settled spec_step spec_run after_create after_apply after_cancel after_read step run
    clash is_creation has_creation
program = tt

abbrev run_of : RunId → String → ℕ → RunRecord
run_of id pipeline at = record {
  run_id = id;
  pipeline_id = pipeline;
  resource_id = "host";
  annotations = [];
  input = 1 ∷ [];
  phase = phase_forward;
  steps = [];
  failure = none;
  output = [];
  outcome = none;
  next_attempt_at = 0;
  awaiting = none;
  awaited = none;
  last_error = "";
  last_reason = "";
  last_error_at = 0;
  cancel = none;
  created_at = at;
  updated_at = at;
  started_at = 0;
}

abbrev cursor_at : String → Cursor
cursor_at id = record {
  phase = phase_forward;
  step_id = id;
  attempts = 2;
  awaiting = none;
  awaited = none;
  next_attempt_at = 0;
  last_error = "";
  last_reason = "";
  last_error_at = 0;
  updated_at = 5;
  started_at = 4;
}

abbrev begins : Transition
begins = record {
  cursor = cursor_at "build";
  ops = [];
  failure = none;
  output = [];
  outcome = none;
}

abbrev succeeds : Transition
succeeds = record {
  cursor = record (cursor_at "") { phase = phase_done };
  ops = [];
  failure = none;
  output = 7 ∷ [];
  outcome = some outcome_success;
}

abbrev first : RunRecord
first = run_of "r1" "deploy" 1

abbrev second : RunRecord
second = run_of "r2" "repair" 3

abbrev one_run : State
one_run = persist new first

first-IsFresh : IsFresh [] first
unfolding program
first-IsFresh = record { live = refl; absent = refl; nul_free = refl; steps = tt; annotations = tt }

second-IsFresh : IsFresh (("r1", first) ∷ []) second
unfolding program
second-IsFresh = record {
  live = refl;
  absent = refl;
  nul_free = refl;
  steps = tt;
  annotations = tt;
}

-- The second run finds the resource taken by an excluding pipeline until the first one ends.
abbrev calls : List Call
calls =
    creates first []
    ∷ creates second ("deploy" ∷ [])
    ∷ applies "r1" begins
    ∷ asks "deploy" "host"
    ∷ applies "r1" succeeds
    ∷ asks "deploy" "host"
    ∷ reaps 9 3
    ∷ []

calls-AreAllowed : AreAllowed new.runs calls
unfolding program
calls-AreAllowed =
    ((first-IsFresh, tt), ((second-IsFresh, (refl, tt)), (tt, (refl, (tt, (refl, (tt, tt)))))))

calls-answers :
    (spec_run new.runs calls).1
    ≡ made ∷ occupied first ∷ done ∷ active (some "r1") ∷ done ∷ active none ∷ reaped 1 ∷ []
unfolding program
calls-answers = refl

run-refines_example :
    (t : State) × (run new calls ≡ some (t, (spec_run new.runs calls).1))
    × (t.runs ≡ (spec_run new.runs calls).0)
    × IsValid t
run-refines_example = run-refines new calls new-IsValid calls-AreAllowed

one_run-IsValid : IsValid one_run
unfolding program
one_run-IsValid = persist-IsValid new first new-IsValid first-IsFresh refl

r1≢r2 : Path String "r1" "r2" → ⊥
unfolding program
r1≢r2 p = false≢true (sym (ap (λ s. ite (s ≟ "r1") true false) p))

run-exclusive_example :
    (t : State) × (answers : List Answer) × (run new calls ≡ some (t, answers))
    × (clash (get t.runs "r1") (get t.runs "r2") ≡ false)
run-exclusive_example = run-exclusive new calls "r1" "r2" new-IsValid calls-AreAllowed r1≢r2

apply_transition-Applies_example : Applies one_run "r1" begins (get one_run.runs "r1")
apply_transition-Applies_example = apply_transition-Applies one_run "r1" begins one_run-IsValid

apply_transition-head_example :
    (u : State) × (apply_transition one_run "r1" begins ≡ ok u)
    × (get_run_head u "r1" ≡ ok (head_after first begins))
unfolding program
apply_transition-head_example =
    apply_transition-head one_run "r1" first begins one_run-IsValid refl refl refl

list_nonterminal-live_heads_example :
    list_nonterminal one_run ≡ some (live_heads one_run one_run.runs)
list_nonterminal-live_heads_example = list_nonterminal-live_heads one_run one_run-IsValid

abbrev ended_run : State
ended_run = transit one_run "r1" first succeeds

ended_run-IsValid : IsValid ended_run
unfolding program
ended_run-IsValid = transit-IsValid one_run "r1" first succeeds one_run-IsValid refl refl

abbrev ended : RunRecord
ended = finish (written first succeeds) outcome_success (7 ∷ [])

reap_terminal-Reaped_example :
    Reaped ended_run 9 3 (reap_terminal ended_run 9 3).0 (reap_terminal ended_run 9 3).1
unfolding program
reap_terminal-Reaped_example = reap_terminal-Reaped ended_run 9 3 (refl, tt)

abbrev later_calls : List Call
later_calls = creates second [] ∷ applies "r1" begins ∷ asks "deploy" "host" ∷ []

second-IsFresh_later : IsFresh ended_run.runs second
unfolding program
second-IsFresh_later = record {
  live = refl;
  absent = refl;
  nul_free = refl;
  steps = tt;
  annotations = tt;
}

run-kept_example :
    (t : State) × (answers : List Answer) × (run ended_run later_calls ≡ some (t, answers))
    × ((get t.runs "r1" ≡ some ended) ⊎ (get t.runs "r1" ≡ none))
unfolding program
run-kept_example =
    run-kept ended_run later_calls "r1" ended ended_run-IsValid
      ((second-IsFresh_later, tt), (tt, (refl, tt))) refl refl refl
