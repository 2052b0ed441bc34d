-- ===== src/Ledger.antt =====
-- internal/ledger/ledger.go: reconciliation of a run's facts with the current topology.
-- A Go map is an association list (`Base/Map.antt`): a loop over it visits the entries in the
-- list's order, whatever it is. Early returns of a loop are the constructor `stop` of `Scan`.
-- The forward frontier starts at -1 in the source; `after` below is the frontier plus one.
mod Order
mod Forward
mod Drive
mod Outcomes
mod Decides
mod Violations
mod Determinism
mod Unwind
mod Rollback
mod Undo
mod Tests
use durable.Base.{
  ℕ, zero, suc, ◌+◌, ite, Bool, true, false, Option, none, some, List, [], ◌∷◌, String,
  String_comparable, Comparable, ◌≟◌, ltb, if◌then◌else◌, length, take, drop,
}
use durable.Base.Map.{Map, get, keys}
use Prim.Native.String.{◌++◌}
use mathlib.Core.List.{reverse}
use Order.{sort}

pub data OpState : Type 0 where
  op_none op_unresolved op_succeeded op_failed : OpState

pub record Step : Type 0 where
  pub id : String
  pub unwind : Bool
  pub retired : Bool

abbrev pub Topology : Type 0
Topology = List Step

pub record Facts : Type 0 where
  pub forward : Map String OpState
  pub unwind : Map String OpState

pub data Kind : Type 0 where
  run_forward forward_complete run_unwind unwind_complete invalid : Kind

pub record Decision : Type 0 where
  pub kind : Kind
  pub step : String
  pub reason : String

-- `Decision{Kind: kind, Step: step}`
abbrev pub decide_step : Kind → String → Decision
decide_step k s = record { kind = k; step = s; reason = "" }

abbrev pub invalid_for : String → Decision
invalid_for reason = record { kind = invalid; step = ""; reason = reason }

-- `m[id]`, with the zero value for a missing key.
unfoldable pub status : Map String OpState → String → OpState
status m id = elim (get m id) [ none ↦ op_none | some s ↦ s ]

-- `t.index(id)`, from position `i` on.
pub index_from : ℕ → Topology → String → Option ℕ
index_from i [] id = none
index_from i (s ∷ t) id = ite (s.id ≟ id) (some i) (index_from (suc i) t id)

abbrev pub index : Topology → String → Option ℕ
index t id = index_from 0 t id

pub sorted_ids : Map String OpState → List String
sorted_ids m = sort (keys m)

-- The loop of `forwardViolation`.
pub forward_violation_loop : Map String OpState → String → List String → Decision
forward_violation_loop m unresolved [] =
    invalid_for "unreachable: forward violation vanished on re-derivation"
forward_violation_loop m unresolved (id ∷ ids) = elim (status m id) [
  | op_unresolved ↦
      ite (unresolved ≟ "") (forward_violation_loop m id ids)
        (invalid_for ("multiple unresolved forward operations: " ++ (unresolved ++ (", " ++ id))))
  | op_failed ↦ invalid_for (
      "forward facts contain a permanent failure for step "
      ++ (id ++ " but the run is in the forward phase"))
  | _ ↦ forward_violation_loop m unresolved ids
]

pub forward_violation : Facts → Decision
unfolding forward_violation_loop
forward_violation f = forward_violation_loop f.forward "" (sorted_ids f.forward)

-- The loop of `unwindViolation`.
pub unwind_violation_loop : Map String OpState → String → List String → Decision
unwind_violation_loop m seen [] =
    invalid_for "unreachable: unwind violation vanished on re-derivation"
unwind_violation_loop m seen (id ∷ ids) = elim (status m id) [
  | op_unresolved ↦
      ite (seen ≟ "") (unwind_violation_loop m id ids)
        (invalid_for ("multiple unresolved unwind operations: " ++ (seen ++ (", " ++ id))))
  | _ ↦ unwind_violation_loop m seen ids
]

pub unwind_violation : Facts → Decision
unfolding unwind_violation_loop
unwind_violation f = unwind_violation_loop f.unwind "" (sorted_ids f.unwind)

-- How a loop over the facts ends: early, with a decision, or with its variable.
pub data Scan : Type 0 where
  stop : Decision → Scan
  done : String → Scan

-- The first loop of `NextForward`.
pub scan_forward : Facts → String → Map String OpState → Scan
scan_forward f unresolved [] = done unresolved
scan_forward f unresolved ((id, op_unresolved) ∷ m) =
    ite (unresolved ≟ "") (scan_forward f id m) (stop (forward_violation f))
scan_forward f unresolved ((id, op_failed) ∷ m) = stop (forward_violation f)
scan_forward f unresolved ((id, op_none) ∷ m) = scan_forward f unresolved m
scan_forward f unresolved ((id, op_succeeded) ∷ m) = scan_forward f unresolved m

-- The first loop of `NextUnwind`.
pub scan_unwind : Facts → String → Map String OpState → Scan
scan_unwind f seen [] = done seen
scan_unwind f seen ((id, op_unresolved) ∷ m) =
    ite (seen ≟ "") (scan_unwind f id m) (stop (unwind_violation f))
scan_unwind f seen ((id, _) ∷ m) = scan_unwind f seen m

abbrev pub is_succeeded : OpState → Bool
is_succeeded op_succeeded = true
is_succeeded _ = false

abbrev pub is_resolved : OpState → Bool
is_resolved op_succeeded = true
is_resolved op_failed = true
is_resolved _ = false

-- The frontier loop of `NextForward`, at position `i`.
pub forward_frontier : Map String OpState → ℕ → ℕ → Topology → ℕ
forward_frontier m i after [] = after
forward_frontier m i after (s ∷ t) =
    forward_frontier m (suc i)
      (if is_succeeded (status m s.id) then if ltb after (suc i) then suc i else after else after) t

-- The selection loop of `NextForward`, over the steps beyond the frontier.
pub select_forward : Map String OpState → Topology → Decision
select_forward m [] = decide_step forward_complete ""
select_forward m (s ∷ t) = elim s.retired [
  | true ↦ select_forward m t
  | false ↦ elim (status m s.id) [
    | op_none ↦ decide_step run_forward s.id
    | _ ↦ invalid_for ("inconsistent forward facts for step " ++ s.id)
  ]
]

-- The pinned step, if it is still in the topology.
pub pinned : Topology → String → Decision
pinned topo id = elim (index topo id) [
  | none ↦
      invalid_for
        ("unresolved forward step " ++ (id ++ " is not present in the current pipeline definition"))
  | some i ↦ decide_step run_forward id
]

pub next_forward : Topology → Facts → Decision
next_forward topo f = elim (scan_forward f "" f.forward) [
  | stop d ↦ d
  | done unresolved ↦
      ite (unresolved ≟ "")
        (select_forward f.forward (drop (forward_frontier f.forward 0 0 topo) topo))
        (pinned topo unresolved)
]

-- The frontier loop of `NextUnwind`, at position `i`.
pub unwind_frontier : Map String OpState → ℕ → ℕ → Topology → ℕ
unwind_frontier m i frontier [] = frontier
unwind_frontier m i frontier (s ∷ t) =
    unwind_frontier m (suc i)
      (if is_resolved (status m s.id) then if ltb i frontier then i else frontier else frontier) t

-- The tests of the selection loop of `NextUnwind`.
pub is_eligible : Facts → Step → Bool
is_eligible f s = elim s.unwind [
  | false ↦ false
  | true ↦ elim (status f.forward s.id) [
    | op_succeeded ↦ elim (status f.unwind s.id) [
      | op_none ↦ true
      | op_unresolved ↦ true
      | _ ↦ false
    ]
    | _ ↦ false
  ]
]

-- That loop, over the steps below the frontier, the last one first.
pub select_unwind : Facts → Topology → Decision
select_unwind f [] = decide_step unwind_complete ""
select_unwind f (s ∷ t) =
    let rest = select_unwind f t in if is_eligible f s then decide_step run_unwind s.id else rest

pub next_unwind : Topology → Facts → Decision
next_unwind topo f = elim (scan_unwind f "" f.unwind) [
  | stop d ↦ d
  | done seen ↦
      select_unwind f (reverse (take (unwind_frontier f.unwind 0 (length topo) topo) topo))
]
