-- ===== src/Ledger/Outcomes.antt =====
-- The first loop of `NextForward` in internal/ledger/ledger.go, in whatever order Go visits the map.
use durable.Base.{
  ◌≡◌, ◌≢◌, refl, Bool, true, false, List, [], ◌∷◌, String, String_comparable, All, arith, drop,
}
use durable.Base.Map.{Map}
use durable.Ledger.{
  OpState, op_none, op_unresolved, op_succeeded, op_failed, Topology, Facts, Decision, next_forward,
  forward_frontier, Scan, stop, done, scan_forward, forward_violation, select_forward, pinned,
}

-- Step ids are not empty: the source takes the empty text for "none yet".
abbrev pub HasIds : Map String OpState → Type 0
HasIds [] = Unit {0}
HasIds ((id, s) ∷ m) = (id ≢ "") × HasIds m

-- The unresolved operations, and whether one failed.
unfoldable pub unresolved_ids : Map String OpState → List String
unresolved_ids [] = []
unresolved_ids ((id, op_unresolved) ∷ m) = id ∷ unresolved_ids m
unresolved_ids ((id, op_none) ∷ m) = unresolved_ids m
unresolved_ids ((id, op_succeeded) ∷ m) = unresolved_ids m
unresolved_ids ((id, op_failed) ∷ m) = unresolved_ids m

unfoldable pub has_failed : Map String OpState → Bool
has_failed [] = false
has_failed ((id, op_failed) ∷ m) = true
has_failed ((id, op_none) ∷ m) = has_failed m
has_failed ((id, op_succeeded) ∷ m) = has_failed m
has_failed ((id, op_unresolved) ∷ m) = has_failed m

-- A failed operation, or more than one unresolved one, is a violation.
abbrev at_most_one : Facts → List String → Scan
at_most_one f [] = done ""
at_most_one f (u ∷ []) = done u
at_most_one f (u ∷ v ∷ us) = stop (forward_violation f)

abbrev outcome : Facts → Bool → List String → Scan
outcome f true us = stop (forward_violation f)
outcome f false us = at_most_one f us

scan_forward_from :
    (f : Facts) (u : String) (m : Map String OpState)
    → HasIds m
    → u ≢ ""
    → scan_forward f u m ≡ outcome f (has_failed m) (u ∷ unresolved_ids m)
unfolding scan_forward unresolved_ids has_failed
scan_forward_from f u [] h n = refl
scan_forward_from f u ((id, op_none) ∷ m) h n = scan_forward_from f u m h.1 n
scan_forward_from f u ((id, op_succeeded) ∷ m) h n = scan_forward_from f u m h.1 n
scan_forward_from f u ((id, op_failed) ∷ m) h n = refl
scan_forward_from f u ((id, op_unresolved) ∷ m) h n = ground arith

pub scan_forward-outcome :
    (f : Facts) (m : Map String OpState)
    → HasIds m
    → scan_forward f "" m ≡ outcome f (has_failed m) (unresolved_ids m)
unfolding scan_forward unresolved_ids has_failed
scan_forward-outcome f [] h = refl
scan_forward-outcome f ((id, op_none) ∷ m) h = scan_forward-outcome f m h.1
scan_forward-outcome f ((id, op_succeeded) ∷ m) h = scan_forward-outcome f m h.1
scan_forward-outcome f ((id, op_failed) ∷ m) h = refl
scan_forward-outcome f ((id, op_unresolved) ∷ m) h =
    ground (arith, scan_forward_from f id m h.1 h.0)

-- What `NextForward` answers, from the failed and the unresolved operations.
unfoldable pub verdict : Topology → Facts → Bool → List String → Decision
verdict topo f true us = forward_violation f
verdict topo f false [] = select_forward f.forward (drop (forward_frontier f.forward 0 0 topo) topo)
verdict topo f false (u ∷ []) = pinned topo u
verdict topo f false (u ∷ v ∷ us) = forward_violation f

unresolved_ids-HasIds : (m : Map String OpState) → HasIds m → All (λ u. u ≢ "") (unresolved_ids m)
unfolding unresolved_ids
unresolved_ids-HasIds [] h = tt
unresolved_ids-HasIds ((id, op_none) ∷ m) h = unresolved_ids-HasIds m h.1
unresolved_ids-HasIds ((id, op_succeeded) ∷ m) h = unresolved_ids-HasIds m h.1
unresolved_ids-HasIds ((id, op_failed) ∷ m) h = unresolved_ids-HasIds m h.1
unresolved_ids-HasIds ((id, op_unresolved) ∷ m) h = (h.0, unresolved_ids-HasIds m h.1)

-- NextForward in the terms of its own parts, without the first loop.
pub next_forward-verdict :
    (topo : Topology) (f : Facts)
    → HasIds f.forward
    → next_forward topo f ≡ verdict topo f (has_failed f.forward) (unresolved_ids f.forward)
unfolding next_forward verdict
next_forward-verdict topo f h =
    ground (arith, scan_forward-outcome f f.forward h, unresolved_ids-HasIds f.forward h)
