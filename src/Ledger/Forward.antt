-- ===== src/Ledger/Forward.antt =====
-- `NextForward` of internal/ledger/ledger.go where no forward operation is unresolved or failed.
use durable.Base.{
  ℕ, zero, suc, ◌+◌, ◌≤◌, ◌≡◌, ◌⊎◌, refl, sym, subst, ap, ◌∙◌, inl, inr, Bool, true, false, some,
  [], ◌∷◌, ◌++◌, String, String_comparable, if◌then◌else◌, length, drop, get_elem?, All, arith,
  Bool-cases,
}
use durable.Base.Map.{Map, get}
use durable.Ledger.{
  OpState, op_none, op_unresolved, op_succeeded, op_failed, Step, Topology, Facts, Decision,
  decide_step, run_forward, forward_complete, status, done, scan_forward, is_succeeded,
  forward_frontier, select_forward, next_forward,
}

-- The operations that may stand in the facts while another step is to be chosen.
abbrev pub is_settled : OpState → Bool
is_settled op_none = true
is_settled op_succeeded = true
is_settled _ = false

abbrev pub IsClear : Map String OpState → Type 0
IsClear [] = Unit {0}
IsClear ((id, s) ∷ m) = (is_settled s ≡ true) × IsClear m

status-IsClear :
    (m : Map String OpState) (id : String)
    → IsClear m
    → (status m id ≡ op_none) ⊎ (status m id ≡ op_succeeded)
unfolding status get
status-IsClear [] id c = inl refl
status-IsClear ((i, s) ∷ m) id c = ground (arith, status-IsClear m id c.1)

scan_forward-IsClear :
    (f : Facts) (u : String) (m : Map String OpState) → IsClear m → scan_forward f u m ≡ done u
unfolding scan_forward
scan_forward-IsClear f u [] c = refl
scan_forward-IsClear f u ((id, op_none) ∷ m) c = scan_forward-IsClear f u m c.1
scan_forward-IsClear f u ((id, op_succeeded) ∷ m) c = scan_forward-IsClear f u m c.1
scan_forward-IsClear f u ((id, op_unresolved) ∷ m) c = absurd (ground arith)
scan_forward-IsClear f u ((id, op_failed) ∷ m) c = absurd (ground arith)

abbrev pub IsNew : Map String OpState → Step → Type 0
IsNew m s = is_succeeded (status m s.id) ≡ false

-- The first `n` steps reach up to the last one that succeeded.
pub record Frontier (m : Map String OpState) (t : Topology) (n : ℕ) : Type 0 where
  pub within : n ≤ length t
  pub beyond : All (IsNew m) (drop n t)
  pub last :
      (n ≡ 0)
      ⊎ ((k : ℕ) × (s : Step) × (n ≡ suc k)
          × (get_elem? t k ≡ some s)
          × (is_succeeded (status m s.id) ≡ true))

-- The same number, from the end of the topology.
reach : Map String OpState → Topology → ℕ
reach m [] = 0
reach m (s ∷ t) = elim (reach m t) [
  | zero ↦ if is_succeeded (status m s.id) then 1 else 0
  | suc n ↦ suc (suc n)
]

forward_frontier-reach :
    (m : Map String OpState) (i after : ℕ) (t : Topology)
    → after ≤ i
    → forward_frontier m i after t ≡ elim (reach m t) [ zero ↦ after | suc n ↦ i + suc n ]
unfolding forward_frontier reach
forward_frontier-reach m i after [] h = refl
forward_frontier-reach m i after (s ∷ t) h = elim (Bool-cases (is_succeeded (status m s.id))) [
  | inl y ↦ ground (arith, forward_frontier-reach m (suc i) (suc i) t)
  | inr n ↦ ground (arith, forward_frontier-reach m (suc i) after t)
]

reach_step :
    (m : Map String OpState) (s : Step) (t : Topology) (n : ℕ)
    → Frontier m t n
    → Frontier m
        (s ∷ t)
        (elim n [ zero ↦ if is_succeeded (status m s.id) then 1 else 0 | suc n ↦ suc (suc n) ])
reach_step m s t zero f = elim (Bool-cases (is_succeeded (status m s.id))) [
  | inl y ↦
      rw y (record { within = omega arith; beyond = f.beyond; last = inr (0, s, refl, refl, y) })
  | inr n ↦ rw n (record { within = omega arith; beyond = (n, f.beyond); last = inl refl })
]
reach_step m s t (suc n) f = record {
  within = omega (arith, f.within);
  beyond = f.beyond;
  last = elim f.last [
    | inl z ↦ absurd (omega arith)
    | inr (k, s', e, at, y) ↦ inr (suc k, s', ap suc e, at, y)
  ];
}

reach-Frontier : (m : Map String OpState) (t : Topology) → Frontier m t (reach m t)
unfolding reach
reach-Frontier m [] = record { within = omega arith; beyond = tt; last = inl refl }
reach-Frontier m (s ∷ t) = reach_step m s t (reach m t) (reach-Frontier m t)

pub forward_frontier-Frontier :
    (m : Map String OpState) (t : Topology) → Frontier m t (forward_frontier m 0 0 t)
forward_frontier-Frontier m t =
    let e : forward_frontier m 0 0 t ≡ reach m t = ground (arith, forward_frontier-reach m 0 0 t) in
    subst (Frontier m t) (sym e) (reach-Frontier m t)

-- The first step that is not retired, if any: it never started, and it is the decision.
pub data Selects (m : Map String OpState) (t : Topology) (d : Decision) : Type 0 where
  complete : All (λ s. s.retired ≡ true) t → d ≡ decide_step forward_complete "" → Selects m t d
  step :
      (skipped : Topology) (s : Step) (rest : Topology)
      → t ≡ skipped ++ s ∷ rest
      → All (λ s. s.retired ≡ true) skipped
      → s.retired ≡ false
      → status m s.id ≡ op_none
      → d ≡ decide_step run_forward s.id
      → Selects m t d

select_forward-Selects :
    (m : Map String OpState) (t : Topology)
    → IsClear m
    → All (IsNew m) t
    → Selects m t (select_forward m t)
unfolding select_forward
select_forward-Selects m [] c h = complete tt refl
select_forward-Selects m (s ∷ t) c h = elim (Bool-cases s.retired) [
  | inl y ↦ skip_retired (select_forward-Selects m t c h.1) y (ground arith)
  | inr n ↦
      let e : status m s.id ≡ op_none = ground (arith, status-IsClear m s.id c, h.0) in
      step [] s t refl tt n e (ground arith)
]
  where
    skip_retired :
        {s : Step} {t : Topology} {d d' : Decision}
        → Selects m t d
        → s.retired ≡ true
        → d' ≡ d
        → Selects m (s ∷ t) d'
    skip_retired (complete all e) y e' = complete (y, all) (e' ∙ e)
    skip_retired {s} (step skipped x rest split all live new e) y e' =
        step (s ∷ skipped) x rest (ap (◌∷◌ s) split) (y, all) live new (e' ∙ e)

abbrev pub beyond_forward : Topology → Map String OpState → Topology
beyond_forward topo m = drop (forward_frontier m 0 0 topo) topo

-- With every forward operation on record succeeded or not started, the frontier is the position
-- behind the last succeeded step of the topology, and NextForward chooses the first step behind
-- it that is not retired, which never started; if all steps there are retired, it reports the
-- forward phase complete.
pub next_forward-Selects :
    (topo : Topology) (f : Facts)
    → IsClear f.forward
    → Frontier f.forward topo (forward_frontier f.forward 0 0 topo)
      × Selects f.forward (beyond_forward topo f.forward) (next_forward topo f)
unfolding next_forward
next_forward-Selects topo f c =
    let t = beyond_forward topo f.forward in
    let e : next_forward topo f ≡ select_forward f.forward t =
      ground (arith, scan_forward-IsClear f "" f.forward c) in
    let found = forward_frontier-Frontier f.forward topo in
    (found, subst (Selects f.forward t) (sym e) (select_forward-Selects f.forward t c found.beyond))

-- A step that succeeded with none behind it is the frontier.
reach-new : (m : Map String OpState) (t : Topology) → All (IsNew m) t → reach m t ≡ 0
unfolding reach
reach-new m [] h = refl
reach-new m (s ∷ t) h = ground (arith, reach-new m t h.1)

drop-reach :
    (m : Map String OpState) (before : Topology) (s : Step) (t : Topology)
    → is_succeeded (status m s.id) ≡ true
    → All (IsNew m) t
    → (k : ℕ) × (reach m (before ++ s ∷ t) ≡ suc k) × (drop (suc k) (before ++ s ∷ t) ≡ t)
unfolding reach
drop-reach m [] s t y h = (0, ground (arith, reach-new m t h), refl)
drop-reach m (b ∷ before) s t y h =
    let (k, e, d) = drop-reach m before s t y h in (suc k, ground (arith, e), d)

pub beyond_forward-new :
    (m : Map String OpState) (before : Topology) (s : Step) (t : Topology)
    → is_succeeded (status m s.id) ≡ true
    → All (IsNew m) t
    → beyond_forward (before ++ s ∷ t) m ≡ t
beyond_forward-new m before s t y h =
    let topo = before ++ s ∷ t in
    let (k, e, d) = drop-reach m before s t y h in
    let e' : forward_frontier m 0 0 topo ≡ suc k =
      ground (arith, forward_frontier-reach m 0 0 topo, e) in
    ap (λ (n : ℕ). drop n topo) e' ∙ d

pub beyond_forward-start :
    (m : Map String OpState) (t : Topology) → All (IsNew m) t → beyond_forward t m ≡ t
beyond_forward-start m t h =
    let e : forward_frontier m 0 0 t ≡ 0 =
      ground (arith, forward_frontier-reach m 0 0 t, reach-new m t h) in
    ap (λ (n : ℕ). drop n t) e
