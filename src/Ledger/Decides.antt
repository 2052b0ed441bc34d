-- ===== src/Ledger/Decides.antt =====
-- What `NextForward` of internal/ledger/ledger.go decides, by the unresolved operations.
use durable.Base.{
  ℕ, suc, ◌≡◌, ite, refl, ◌∙◌, Bool, true, false, List, [], ◌∷◌, String, String_comparable, ◌≟◌,
  if◌then◌else◌, is_some, arith,
}
use durable.Base.Map.{Map}
use durable.Ledger.{
  OpState, op_none, op_unresolved, op_succeeded, op_failed, Topology, Facts, run_forward, invalid,
  Decision, next_forward, forward_violation, forward_violation_loop, sorted_ids, index_from, pinned,
  forward_frontier,
}
use durable.Ledger.Outcomes.{HasIds, unresolved_ids, has_failed, verdict, next_forward-verdict}
use durable.Ledger.Forward.{IsClear, Frontier, Selects, beyond_forward, next_forward-Selects}

-- Whether the topology has a step with the id.
pub has_step : Topology → String → Bool
has_step [] id = false
has_step (s ∷ t) id = let rest = has_step t id in ite (s.id ≟ id) true rest

-- A decision to run the step, if the topology has it.
pub record Pins (topo : Topology) (id : String) (d : Decision) : Type 0 where
  pub kind : d.kind ≡ (if has_step topo id then run_forward else invalid)
  pub step : d.step ≡ (if has_step topo id then id else "")

-- The decision, from whether an operation failed and which ones are unresolved.
pub Decides : Topology → Facts → Bool → List String → Decision → Type 0
Decides topo f true us d = d.kind ≡ invalid
Decides topo f false [] d =
    Frontier f.forward topo (forward_frontier f.forward 0 0 topo)
    × Selects f.forward (beyond_forward topo f.forward) d
Decides topo f false (u ∷ []) d = Pins topo u d
Decides topo f false (u ∷ v ∷ us) d = d.kind ≡ invalid

forward_violation_loop-invalid :
    (m : Map String OpState) (u : String) (ids : List String)
    → (forward_violation_loop m u ids).kind ≡ invalid
unfolding forward_violation_loop
forward_violation_loop-invalid m u [] = refl
forward_violation_loop-invalid m u (id ∷ ids) =
    ground (arith, forward_violation_loop-invalid m u ids, forward_violation_loop-invalid m id ids)

index_from-has_step :
    (i : ℕ) (t : Topology) (id : String) → is_some (index_from i t id) ≡ has_step t id
unfolding index_from has_step
index_from-has_step i [] id = refl
index_from-has_step i (s ∷ t) id = ground (arith, index_from-has_step (suc i) t id)

pinned-Pins : (topo : Topology) (id : String) → Pins topo id (pinned topo id)
unfolding pinned
pinned-Pins topo id = record {
  kind = ground (arith, index_from-has_step 0 topo id);
  step = ground (arith, index_from-has_step 0 topo id);
}

-- Facts with no failed and no unresolved operation.
settled-IsClear :
    (m : Map String OpState) → has_failed m ≡ false → unresolved_ids m ≡ [] → IsClear m
unfolding has_failed unresolved_ids
settled-IsClear [] h e = tt
settled-IsClear ((id, op_none) ∷ m) h e = (refl, settled-IsClear m h e)
settled-IsClear ((id, op_succeeded) ∷ m) h e = (refl, settled-IsClear m h e)
settled-IsClear ((id, op_failed) ∷ m) h e = absurd (ground (arith, h))
settled-IsClear ((id, op_unresolved) ∷ m) h e = absurd (ground (arith, e))

next_forward-verdict_at :
    (topo : Topology) (f : Facts) (b : Bool) (us : List String)
    → HasIds f.forward
    → has_failed f.forward ≡ b
    → unresolved_ids f.forward ≡ us
    → next_forward topo f ≡ verdict topo f b us
next_forward-verdict_at topo f b us i h e = next_forward-verdict topo f i ∙ rw h (rw e refl)

verdict-Decides :
    (topo : Topology) (f : Facts) (b : Bool) (us : List String)
    → HasIds f.forward
    → has_failed f.forward ≡ b
    → unresolved_ids f.forward ≡ us
    → Decides topo f b us (next_forward topo f)
unfolding verdict forward_violation Decides
verdict-Decides topo f true us i h e =
    rw (next_forward-verdict_at topo f true us i h e)
      (forward_violation_loop-invalid f.forward "" (sorted_ids f.forward))
verdict-Decides topo f false [] i h e = next_forward-Selects topo f (settled-IsClear f.forward h e)
verdict-Decides topo f false (u ∷ []) i h e =
    rw (next_forward-verdict_at topo f false (u ∷ []) i h e) (pinned-Pins topo u)
verdict-Decides topo f false (u ∷ v ∷ us) i h e =
    rw (next_forward-verdict_at topo f false (u ∷ v ∷ us) i h e)
      (forward_violation_loop-invalid f.forward "" (sorted_ids f.forward))

-- Let the ids of the forward facts not be empty. NextForward decides that the facts are invalid
-- if an operation failed or two are unresolved. If none failed and one alone is unresolved, it
-- decides to run the step of this one if the topology has it, and that the facts are invalid,
-- naming no step, if not. Otherwise the frontier is the position behind the last succeeded step
-- of the topology, and NextForward chooses the first step behind it that is not retired, which
-- never started, or reports the forward phase complete if all steps there are retired.
pub next_forward-Decides :
    (topo : Topology) (f : Facts)
    → HasIds f.forward
    → Decides topo f (has_failed f.forward) (unresolved_ids f.forward) (next_forward topo f)
next_forward-Decides topo f h =
    verdict-Decides topo f (has_failed f.forward) (unresolved_ids f.forward) h refl refl
