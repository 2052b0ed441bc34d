-- ===== src/Ledger/Rollback.antt =====
-- The unwinding of a run by the ledger of internal/ledger/ledger.go, operation by operation.
use durable.Base.{
  ℕ, zero, suc, ◌≡◌, refl, sym, ap, ◌∙◌, Bool, true, false, ◌&&◌, List, [], ◌∷◌, ◌++◌, String,
  String_comparable, if◌then◌else◌, take, All, contains, arith,
}
use durable.Base.Map.{Map, put, get-put}
use durable.Ledger.{
  OpState, op_none, op_unresolved, op_succeeded, op_failed, Step, Topology, Facts, run_unwind,
  Decision, status, is_succeeded, is_resolved, next_unwind, scan_unwind, done,
}
use durable.Ledger.Unwind.{below_unwind, first_resolved, unwind_frontier-eq}
use durable.Ledger.Drive.{ids}
use mathlib.Core.List.{append_assoc, append-nil}

-- The facts once the unwind operation of `id` resolved, well or not.
unfoldable pub settle : Facts → String → Bool → Facts
settle f id ok = record f { unwind = put f.unwind id (if ok then op_succeeded else op_failed) }

-- Executes what the ledger decides, `fuel` operations at most; `ok` tells how each one ends.
unfoldable pub rollback : (String → Bool) → ℕ → Topology → Facts → List String × Decision
rollback ok zero topo f = ([], next_unwind topo f)
rollback ok (suc fuel) topo f =
    let d = next_unwind topo f in
    let rest = rollback ok fuel topo (settle f d.step (ok d.step)) in
    elim d.kind [ run_unwind ↦ (d.step ∷ rest.0, rest.1) | _ ↦ ([], d) ]

-- The steps to unwind, the last one first.
abbrev pub undone : Map String OpState → Step → Bool
undone m s = s.unwind && is_succeeded (status m s.id)

unfoldable pub targets : Map String OpState → Topology → List String
targets m [] = []
targets m (s ∷ t) = targets m t ++ (if undone m s then s.id ∷ [] else [])

pub targets-append :
    (m : Map String OpState) (t u : Topology) → targets m (t ++ u) ≡ targets m u ++ targets m t
unfolding targets
targets-append m [] u = sym (append-nil (targets m u))
targets-append m (s ∷ t) u =
    ap (λ l. l ++ (if undone m s then s.id ∷ [] else [])) (targets-append m t u)
    ∙ append_assoc (targets m u) (targets m t) (if undone m s then s.id ∷ [] else [])

-- Every unwind operation on record is resolved.
abbrev pub AllResolved : Map String OpState → Type 0
AllResolved [] = Unit {0}
AllResolved ((id, s) ∷ m) = (is_resolved s ≡ true) × AllResolved m

pub scan-AllResolved :
    (f : Facts) (m : Map String OpState) → AllResolved m → scan_unwind f "" m ≡ done ""
unfolding scan_unwind
scan-AllResolved f [] a = refl
scan-AllResolved f ((id, op_succeeded) ∷ m) a = scan-AllResolved f m a.1
scan-AllResolved f ((id, op_failed) ∷ m) a = scan-AllResolved f m a.1
scan-AllResolved f ((id, op_none) ∷ m) a = absurd (ground arith)
scan-AllResolved f ((id, op_unresolved) ∷ m) a = absurd (ground arith)

pub put-AllResolved :
    (m : Map String OpState) (id : String) (s : OpState)
    → is_resolved s ≡ true
    → AllResolved m
    → AllResolved (put m id s)
unfolding put
put-AllResolved [] id s h a = (h, tt)
put-AllResolved ((i, r) ∷ m) id s h a = ground (arith, put-AllResolved m id s h a.1)

abbrev pub IsFresh : Map String OpState → Step → Type 0
IsFresh m s = status m s.id ≡ op_none

pub put-IsFresh :
    (m : Map String OpState) (id : String) (r : OpState) (t : Topology)
    → contains (ids t) id ≡ false
    → All (IsFresh m) t
    → All (IsFresh (put m id r)) t
unfolding contains status
put-IsFresh m id r [] h a = tt
put-IsFresh m id r (s ∷ t) h a =
    (ground (arith, get-put m id r s.id), put-IsFresh m id r t (ground arith) a.1)

-- The steps before the first one that resolved are those below the frontier.
take-first_resolved :
    (m : Map String OpState) (before : Topology) (s : Step) (t : Topology)
    → is_resolved (status m s.id) ≡ true
    → All (IsFresh m) before
    → take (first_resolved m (before ++ s ∷ t)) (before ++ s ∷ t) ≡ before
unfolding first_resolved
take-first_resolved m [] s t y a = ground arith
take-first_resolved m (b ∷ before) s t y a = ground (arith, take-first_resolved m before s t y a.1)

pub below_unwind-settled :
    (m : Map String OpState) (before : Topology) (s : Step) (t : Topology)
    → is_resolved (status m s.id) ≡ true
    → All (IsFresh m) before
    → below_unwind (before ++ s ∷ t) m ≡ before
below_unwind-settled m before s t y a =
    ap (λ n. take n (before ++ s ∷ t)) (unwind_frontier-eq m (before ++ s ∷ t))
    ∙ take-first_resolved m before s t y a

pub take-first_fresh :
    (m : Map String OpState) (t : Topology) → All (IsFresh m) t → take (first_resolved m t) t ≡ t
unfolding first_resolved
take-first_fresh m [] a = refl
take-first_fresh m (s ∷ t) a = ground (arith, take-first_fresh m t a.1)
