-- ===== src/Ledger/Determinism.antt =====
-- `NextForward` of internal/ledger/ledger.go answers by the facts alone, and not by the order in
-- which Go visits the map.
use mathlib.Core.HLevel.{hedberg}
use durable.Base.{
  ℕ, suc, ◌≡◌, refl, sym, ap, ◌∙◌, Bool, true, false, List, [], ◌∷◌, String, String_comparable,
  String_discrete, length, contains, arith, drop,
}
use durable.Base.Perms.{keys-permᴰ, get-permᴰ}
use durable.Base.Map.{Map, get, keys, IsMap}
use durable.Ledger.{
  OpState, op_none, op_unresolved, op_succeeded, op_failed, Topology, Facts, Decision, status,
  next_forward, forward_frontier, forward_violation, forward_violation_loop, select_forward,
  sorted_ids,
}
use durable.Ledger.Order.{sort, sort-permᴰ}
use durable.Ledger.Outcomes.{HasIds, unresolved_ids, has_failed, verdict, next_forward-verdict}
use mathlib.Core.List.{Permᴰ, Perm}
use mathlib.Core.Logic.{∥∥₁_elim}

HasIds-permᴰ : {m n : Map String OpState} → Permᴰ m n → HasIds m → HasIds n
HasIds-permᴰ Permᴰ.nil h = h
HasIds-permᴰ (Permᴰ.cons {a = (i, s)} {b = (j, t)} e p) h = (ground arith, HasIds-permᴰ p h.1)
HasIds-permᴰ (Permᴰ.swap {a = (i, s)} {b = (j, t)} {a' = (i', s')} {b' = (j', t')} e e') h =
    (ground arith, (ground arith, h.1.1))
HasIds-permᴰ (Permᴰ.trans p q) h = HasIds-permᴰ q (HasIds-permᴰ p h)

one_failed : OpState → Bool → Bool
one_failed op_failed b = true
one_failed _ b = b

has_failed-cons :
    (id : String) (s : OpState) (m : Map String OpState)
    → has_failed ((id, s) ∷ m) ≡ one_failed s (has_failed m)
unfolding has_failed one_failed
has_failed-cons id op_none m = refl
has_failed-cons id op_succeeded m = refl
has_failed-cons id op_failed m = refl
has_failed-cons id op_unresolved m = refl

has_failed-permᴰ : {m n : Map String OpState} → Permᴰ m n → has_failed m ≡ has_failed n
unfolding one_failed
has_failed-permᴰ Permᴰ.nil = refl
has_failed-permᴰ (Permᴰ.cons {a = (i, s)} {b = (j, t)} {l₁ = m} {l₂ = n} e p) =
    ground (arith, has_failed-cons i s m, has_failed-cons j t n, has_failed-permᴰ p)
has_failed-permᴰ
      (Permᴰ.swap {a = (i, s)} {b = (j, t)} {a' = (i', s')} {b' = (j', t')} {l = m} e e') =
    ground (
      arith,
      has_failed-cons i s ((j, t) ∷ m),
      has_failed-cons j t m,
      has_failed-cons i' s' ((j', t') ∷ m),
      has_failed-cons j' t' m,
    )
has_failed-permᴰ (Permᴰ.trans p q) = has_failed-permᴰ p ∙ has_failed-permᴰ q

one_id : String → OpState → List String → List String
one_id id op_unresolved us = id ∷ us
one_id id _ us = us

unresolved_ids-cons :
    (id : String) (s : OpState) (m : Map String OpState)
    → unresolved_ids ((id, s) ∷ m) ≡ one_id id s (unresolved_ids m)
unfolding unresolved_ids one_id
unresolved_ids-cons id op_none m = refl
unresolved_ids-cons id op_succeeded m = refl
unresolved_ids-cons id op_failed m = refl
unresolved_ids-cons id op_unresolved m = refl

-- Membership and number are all that is used of the unresolved ids.
abbrev SameIds : List String → List String → Type 0
SameIds us vs = (length us ≡ length vs) × ((a : String) → contains us a ≡ contains vs a)

unresolved_ids-permᴰ :
    {m n : Map String OpState} → Permᴰ m n → SameIds (unresolved_ids m) (unresolved_ids n)
unfolding one_id contains
unresolved_ids-permᴰ Permᴰ.nil = (refl, λ a. refl)
unresolved_ids-permᴰ (Permᴰ.cons {a = (i, s)} {b = (j, t)} {l₁ = m} {l₂ = n} e p) =
    let (len, same) = unresolved_ids-permᴰ p in
    (
      ground (arith, unresolved_ids-cons i s m, unresolved_ids-cons j t n, len),
      λ a. ground (arith, unresolved_ids-cons i s m, unresolved_ids-cons j t n, same a),
    )
unresolved_ids-permᴰ
      (Permᴰ.swap {a = (i, s)} {b = (j, t)} {a' = (i', s')} {b' = (j', t')} {l = m} e e') =
    (
      ground (
        arith,
        unresolved_ids-cons i s ((j, t) ∷ m),
        unresolved_ids-cons j t m,
        unresolved_ids-cons i' s' ((j', t') ∷ m),
        unresolved_ids-cons j' t' m,
      ),
      λ a. ground (
        arith,
        unresolved_ids-cons i s ((j, t) ∷ m),
        unresolved_ids-cons j t m,
        unresolved_ids-cons i' s' ((j', t') ∷ m),
        unresolved_ids-cons j' t' m,
      ),
    )
unresolved_ids-permᴰ (Permᴰ.trans p q) =
    let (len, same) = unresolved_ids-permᴰ p in
    let (len', same') = unresolved_ids-permᴰ q in (len ∙ len', λ a. same a ∙ same' a)

-- Two maps with the same entry for each id.
abbrev Agrees : Map String OpState → Map String OpState → Type 0
Agrees m n = (id : String) → get m id ≡ get n id

loop-Agrees :
    (m n : Map String OpState)
    → Agrees m n
    → (u : String) (ids : List String)
    → forward_violation_loop m u ids ≡ forward_violation_loop n u ids
unfolding forward_violation_loop status
loop-Agrees m n h u [] = refl
loop-Agrees m n h u (id ∷ ids) =
    ground (arith, h id, loop-Agrees m n h u ids, loop-Agrees m n h id ids)

frontier-Agrees :
    (m n : Map String OpState)
    → Agrees m n
    → (i after : ℕ) (t : Topology) → forward_frontier m i after t ≡ forward_frontier n i after t
unfolding forward_frontier status
frontier-Agrees m n h i after [] = refl
frontier-Agrees m n h i after (s ∷ t) =
    ground (
      arith,
      h s.id,
      frontier-Agrees m n h (suc i) (suc i) t,
      frontier-Agrees m n h (suc i) after t,
    )

select-Agrees :
    (m n : Map String OpState)
    → Agrees m n
    → (t : Topology) → select_forward m t ≡ select_forward n t
unfolding select_forward status
select-Agrees m n h [] = refl
select-Agrees m n h (s ∷ t) = ground (arith, h s.id, select-Agrees m n h t)

violation-permᴰ :
    (f g : Facts)
    → Permᴰ f.forward g.forward
    → Agrees f.forward g.forward
    → forward_violation f ≡ forward_violation g
unfolding forward_violation sorted_ids
violation-permᴰ f g p h =
    loop-Agrees f.forward g.forward h "" (sort (keys f.forward))
    ∙ ap (forward_violation_loop g.forward "") (sort-permᴰ (keys-permᴰ p))

verdict-SameIds :
    (topo : Topology) (f g : Facts) (b : Bool) (us vs : List String)
    → Permᴰ f.forward g.forward
    → Agrees f.forward g.forward
    → SameIds us vs
    → verdict topo f b us ≡ verdict topo g b vs
unfolding verdict contains
verdict-SameIds topo f g true us vs p h s = violation-permᴰ f g p h
verdict-SameIds topo f g false [] [] p h s = ground (
  arith,
  frontier-Agrees f.forward g.forward h 0 0 topo,
  select-Agrees f.forward g.forward h (drop (forward_frontier f.forward 0 0 topo) topo),
)
verdict-SameIds topo f g false (u ∷ []) (v ∷ []) p h s = ground (arith, s.1 u)
verdict-SameIds topo f g false (u ∷ u' ∷ us) (v ∷ v' ∷ vs) p h s = violation-permᴰ f g p h
verdict-SameIds topo f g false [] (v ∷ vs) p h s = absurd (omega arith)
verdict-SameIds topo f g false (u ∷ us) [] p h s = absurd (omega arith)
verdict-SameIds topo f g false (u ∷ []) (v ∷ v' ∷ vs) p h s = absurd (omega arith)
verdict-SameIds topo f g false (u ∷ u' ∷ us) (v ∷ []) p h s = absurd (omega arith)

next_forward-permᴰ :
    (topo : Topology) (f g : Facts)
    → HasIds f.forward
    → IsMap f.forward
    → Permᴰ f.forward g.forward
    → next_forward topo f ≡ next_forward topo g
next_forward-permᴰ topo f g h d p =
    next_forward-verdict topo f h
    ∙ verdict-SameIds topo f g (has_failed f.forward) (unresolved_ids f.forward)
        (unresolved_ids g.forward) p (get-permᴰ p d) (unresolved_ids-permᴰ p)
    ∙ ap (λ b. verdict topo g b (unresolved_ids g.forward)) (has_failed-permᴰ p)
    ∙ sym (next_forward-verdict topo g (HasIds-permᴰ p h))

Decision-set : IsSet Decision
Decision-set = hedberg (hlevel String_discrete)

-- For forward facts with non-empty ids and one entry for each, NextForward gives the same
-- decision, its reason included, in whatever order Go visits the map.
pub next_forward-Perm :
    (topo : Topology) (f g : Facts)
    → HasIds f.forward
    → IsMap f.forward
    → Perm f.forward g.forward
    → next_forward topo f ≡ next_forward topo g
next_forward-Perm topo f g h d p =
    ∥∥₁_elim p (Decision-set (next_forward topo f) (next_forward topo g))
      (next_forward-permᴰ topo f g h d)
