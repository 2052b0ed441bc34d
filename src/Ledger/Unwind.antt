-- ===== src/Ledger/Unwind.antt =====
-- `NextUnwind` of internal/ledger/ledger.go.
use durable.Base.{
  ℕ, suc, ◌+◌, ◌≤◌, ◌≡◌, ◌⊎◌, refl, sym, subst, ap, ◌∙◌, inl, inr, true, false, some, [], ◌∷◌, ◌++◌,
  String, String_comparable, if◌then◌else◌, length, take, get_elem?, All, All-append, arith,
  Bool-cases,
}
use durable.Base.Map.{Map}
use durable.Ledger.{
  OpState, Step, Topology, Facts, Decision, decide_step, run_unwind, unwind_complete, status, done,
  scan_unwind, is_resolved, unwind_frontier, is_eligible, select_unwind, next_unwind,
}
use mathlib.Core.List.{reverse, reverse-cons, reverse-reverse, append_assoc}

-- No unwind operation is pending beside another: the loop over the facts does not stop.
abbrev pub Passes : Facts → Type 0
Passes f = (seen : String) × (scan_unwind f "" f.unwind ≡ done seen)

abbrev pub IsUntouched : Map String OpState → Step → Type 0
IsUntouched m s = is_resolved (status m s.id) ≡ false

-- Position `n` is the first whose unwind operation resolved, or the end.
pub record Frontier (m : Map String OpState) (t : Topology) (n : ℕ) : Type 0 where
  pub within : n ≤ length t
  pub below : All (IsUntouched m) (take n t)
  pub first :
      (n ≡ length t)
      ⊎ ((s : Step) × (get_elem? t n ≡ some s) × (is_resolved (status m s.id) ≡ true))

-- The same number, by recursion.
unfoldable pub first_resolved : Map String OpState → Topology → ℕ
first_resolved m [] = 0
first_resolved m (s ∷ t) = if is_resolved (status m s.id) then 0 else suc (first_resolved m t)

unwind_frontier_low :
    (m : Map String OpState) (i frontier : ℕ) (t : Topology)
    → frontier ≤ i
    → unwind_frontier m i frontier t ≡ frontier
unfolding unwind_frontier
unwind_frontier_low m i frontier [] h = refl
unwind_frontier_low m i frontier (s ∷ t) h =
    ground (arith, unwind_frontier_low m (suc i) frontier t)

unwind_frontier-first :
    (m : Map String OpState) (i : ℕ) (t : Topology) (n : ℕ)
    → n ≡ i + length t
    → unwind_frontier m i n t ≡ i + first_resolved m t
unfolding unwind_frontier first_resolved
unwind_frontier-first m i [] n h = h
unwind_frontier-first m i (s ∷ t) n h =
    ground (arith, unwind_frontier-first m (suc i) t n, unwind_frontier_low m (suc i) i t)

first_resolved-Frontier :
    (m : Map String OpState) (t : Topology) → Frontier m t (first_resolved m t)
unfolding first_resolved
first_resolved-Frontier m [] = record { within = omega arith; below = tt; first = inl refl }
first_resolved-Frontier m (s ∷ t) = elim (Bool-cases (is_resolved (status m s.id))) [
  | inl y ↦ rw y (record { within = omega arith; below = tt; first = inr (s, refl, y) })
  | inr n ↦
      let f = first_resolved-Frontier m t in
      rw n (record {
        within = omega (arith, f.within);
        below = (n, f.below);
        first = elim f.first [ inl e ↦ inl (ap suc e) | inr x ↦ inr x ];
      })
]

pub unwind_frontier-eq :
    (m : Map String OpState) (t : Topology) → unwind_frontier m 0 (length t) t ≡ first_resolved m t
unwind_frontier-eq m t = ground (arith, unwind_frontier-first m 0 t (length t))

abbrev pub below_unwind : Topology → Map String OpState → Topology
below_unwind topo m = take (unwind_frontier m 0 (length topo) topo) topo

-- The last step that is eligible is the decision.
pub data Selects (f : Facts) (t : Topology) (d : Decision) : Type 0 where
  complete :
      All (λ s. is_eligible f s ≡ false) t → d ≡ decide_step unwind_complete "" → Selects f t d
  step :
      (before : Topology) (s : Step) (skipped : Topology)
      → t ≡ before ++ s ∷ skipped
      → is_eligible f s ≡ true
      → All (λ s. is_eligible f s ≡ false) skipped
      → d ≡ decide_step run_unwind s.id
      → Selects f t d

All-reverse : (P : Step → Type 0) (t : Topology) → All P t → All P (reverse t)
All-reverse P [] a = a
All-reverse P (s ∷ t) a =
    subst (All P) (sym (reverse-cons s t))
      (All-append P (reverse t) (s ∷ []) (All-reverse P t a.1) (a.0, tt))

select_unwind-Selects : (f : Facts) (r : Topology) → Selects f (reverse r) (select_unwind f r)
unfolding select_unwind
select_unwind-Selects f [] = complete tt refl
select_unwind-Selects f (s ∷ r) = elim (Bool-cases (is_eligible f s)) [
  | inl y ↦ step (reverse r) s [] (reverse-cons s r) y tt (ground arith)
  | inr n ↦ skip (select_unwind-Selects f r) n (ground arith)
]
  where
    skip :
        {d d' : Decision}
        → Selects f (reverse r) d
        → is_eligible f s ≡ false
        → d' ≡ d
        → Selects f (reverse (s ∷ r)) d'
    skip (complete a e) n e' =
        complete
          (subst (All (λ s. is_eligible f s ≡ false)) (sym (reverse-cons s r))
            (All-append (λ s. is_eligible f s ≡ false) (reverse r) (s ∷ []) a (n, tt)))
          (e' ∙ e)
    skip (step before x skipped split y a e) n e' =
        step before x (skipped ++ s ∷ [])
          (reverse-cons s r
            ∙ ap (λ u. u ++ s ∷ []) split
            ∙ append_assoc before (x ∷ skipped) (s ∷ []))
          y (All-append (λ s. is_eligible f s ≡ false) skipped (s ∷ []) a (n, tt)) (e' ∙ e)

-- Where the loop over the unwind facts finds no two unresolved operations, the frontier is the
-- first position whose unwind operation resolved, or the end, and NextUnwind chooses the last
-- eligible step below it (an unwind declared, succeeded forward, its unwind not resolved); if
-- there is none, it reports the unwinding complete.
pub next_unwind-Selects :
    (topo : Topology) (f : Facts)
    → Passes f
    → Frontier f.unwind topo (unwind_frontier f.unwind 0 (length topo) topo)
      × Selects f (below_unwind topo f.unwind) (next_unwind topo f)
unfolding next_unwind
next_unwind-Selects topo f (seen, p) =
    let t = below_unwind topo f.unwind in
    let e : next_unwind topo f ≡ select_unwind f (reverse t) = ground (arith, p) in
    (
      subst (Frontier f.unwind topo) (sym (unwind_frontier-eq f.unwind topo))
          (first_resolved-Frontier f.unwind topo),
      subst (λ d. Selects f t d) (sym e)
          (subst (λ u. Selects f u (select_unwind f (reverse t))) (reverse-reverse t)
            (select_unwind-Selects f (reverse t))),
    )
