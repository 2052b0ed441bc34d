-- ===== src/Ledger/Violations.antt =====
-- The violations that internal/ledger/ledger.go reports for forward facts: `forwardViolation` finds
-- what the loop of `NextForward` stopped at, and its last line is not reached.
use durable.Base.{
  ℕ, suc, ◌+◌, ◌≤◌, ◌≡◌, ◌≢◌, ◌⊎◌, refl, sym, subst, true, false, List, [], ◌∷◌, String,
  String_comparable, length, All, contains, IsDistinct, arith, ◌<◌, ◌*◌,
}
use durable.Base.Map.{Map, get, keys, IsMap}
use durable.Ledger.{
  OpState, op_none, op_unresolved, op_succeeded, op_failed, Topology, Facts, Decision, status,
  next_forward, forward_violation, forward_violation_loop, sorted_ids, invalid_for,
}
use Prim.Native.String.{◌++◌}
use durable.Ledger.Order.{sort, insert, sort-IsDistinct}
use durable.Ledger.Outcomes.{HasIds, unresolved_ids, has_failed, verdict, next_forward-verdict}

-- The message of a violation names operations that are there.
pub data Violates (m : Map String OpState) (d : Decision) : Type 0 where
  failed :
      (id : String)
      → status m id ≡ op_failed
      → d
        ≡ invalid_for (
            "forward facts contain a permanent failure for step "
            ++ (id ++ " but the run is in the forward phase"))
      → Violates m d
  multiple :
      (a b : String)
      → status m a ≡ op_unresolved
      → status m b ≡ op_unresolved
      → a ≢ b
      → d ≡ invalid_for ("multiple unresolved forward operations: " ++ (a ++ (", " ++ b)))
      → Violates m d

-- The unresolved ids and the failed ones among `ids`.
unresolved_among : Map String OpState → List String → ℕ
unresolved_among m [] = 0
unresolved_among m (id ∷ ids) = elim (status m id) [
  | op_unresolved ↦ suc (unresolved_among m ids)
  | _ ↦ unresolved_among m ids
]

failed_among : Map String OpState → List String → ℕ
failed_among m [] = 0
failed_among m (id ∷ ids) = elim (status m id) [
  | op_failed ↦ suc (failed_among m ids)
  | _ ↦ failed_among m ids
]

-- `u` holds an unresolved id that was passed, if it is not empty.
loop-Violates_one :
    (m : Map String OpState) (u : String) (ids : List String)
    → status m u ≡ op_unresolved
    → u ≢ ""
    → contains ids u ≡ false
    → 1 ≤ unresolved_among m ids + failed_among m ids
    → Violates m (forward_violation_loop m u ids)
unfolding forward_violation_loop unresolved_among failed_among contains
loop-Violates_one m u [] e n c h = absurd (omega arith)
loop-Violates_one m u (id ∷ ids) e n c h =
    by_status (status m id) refl (λ p. loop-Violates_one m u ids e n p)
  where
    by_status :
        (s : OpState)
        → status m id ≡ s
        → (contains ids u ≡ false
            → 1 ≤ unresolved_among m ids + failed_among m ids
            → Violates m (forward_violation_loop m u ids))
        → Violates m (forward_violation_loop m u (id ∷ ids))
    by_status op_unresolved p ih = multiple u id e p (ground arith) (ground arith)
    by_status op_failed p ih = failed id p (ground arith)
    by_status op_none p ih =
        let eq : forward_violation_loop m u (id ∷ ids) ≡ forward_violation_loop m u ids =
          ground arith in
        subst (Violates m) (sym eq) (ih (ground arith) (ground arith))
    by_status op_succeeded p ih =
        let eq : forward_violation_loop m u (id ∷ ids) ≡ forward_violation_loop m u ids =
          ground arith in
        subst (Violates m) (sym eq) (ih (ground arith) (ground arith))

loop-Violates :
    (m : Map String OpState) (ids : List String)
    → All (λ id. id ≢ "") ids
    → IsDistinct ids
    → 1 < unresolved_among m ids + 2 * failed_among m ids
    → Violates m (forward_violation_loop m "" ids)
unfolding forward_violation_loop unresolved_among failed_among
loop-Violates m [] n d h = absurd (omega arith)
loop-Violates m (id ∷ ids) n d h = by_status (status m id) refl (loop-Violates m ids n.1 d.1)
  where
    by_status :
        (s : OpState)
        → status m id ≡ s
        → (1 < unresolved_among m ids + 2 * failed_among m ids
            → Violates m (forward_violation_loop m "" ids))
        → Violates m (forward_violation_loop m "" (id ∷ ids))
    by_status op_unresolved p ih =
        let eq : forward_violation_loop m "" (id ∷ ids) ≡ forward_violation_loop m id ids =
          ground arith in
        subst (Violates m) (sym eq) (loop-Violates_one m id ids p n.0 d.0 (ground arith))
    by_status op_failed p ih = failed id p (ground arith)
    by_status op_none p ih =
        let eq : forward_violation_loop m "" (id ∷ ids) ≡ forward_violation_loop m "" ids =
          ground arith in
        subst (Violates m) (sym eq) (ih (ground arith))
    by_status op_succeeded p ih =
        let eq : forward_violation_loop m "" (id ∷ ids) ≡ forward_violation_loop m "" ids =
          ground arith in
        subst (Violates m) (sym eq) (ih (ground arith))

among-insert :
    (m : Map String OpState) (s : String) (l : List String)
    → (unresolved_among m (insert s l) ≡ unresolved_among m (s ∷ l))
      × (failed_among m (insert s l) ≡ failed_among m (s ∷ l))
unfolding insert unresolved_among failed_among
among-insert m s [] = (refl, refl)
among-insert m s (t ∷ l) = ground (arith, among-insert m s l)

among-sort :
    (m : Map String OpState) (l : List String)
    → (unresolved_among m (sort l) ≡ unresolved_among m l)
      × (failed_among m (sort l) ≡ failed_among m l)
unfolding sort unresolved_among failed_among
among-sort m [] = (refl, refl)
among-sort m (s ∷ l) = ground (arith, among-sort m l, among-insert m s (sort l))

among-cons :
    (m : Map String OpState) (id : String) (s : OpState) (l : List String)
    → contains l id ≡ false
    → (unresolved_among ((id, s) ∷ m) l ≡ unresolved_among m l)
      × (failed_among ((id, s) ∷ m) l ≡ failed_among m l)
unfolding unresolved_among failed_among contains status get
among-cons m id s [] h = (refl, refl)
among-cons m id s (j ∷ l) h = ground (arith, among-cons m id s l)

unresolved_among-keys :
    (m : Map String OpState) → IsMap m → unresolved_among m (keys m) ≡ length (unresolved_ids m)
unfolding unresolved_among unresolved_ids status get
unresolved_among-keys [] d = refl
unresolved_among-keys ((id, op_none) ∷ m) d =
    ground (arith, unresolved_among-keys m d.1, among-cons m id op_none (keys m))
unresolved_among-keys ((id, op_succeeded) ∷ m) d =
    ground (arith, unresolved_among-keys m d.1, among-cons m id op_succeeded (keys m))
unresolved_among-keys ((id, op_failed) ∷ m) d =
    ground (arith, unresolved_among-keys m d.1, among-cons m id op_failed (keys m))
unresolved_among-keys ((id, op_unresolved) ∷ m) d =
    ground (arith, unresolved_among-keys m d.1, among-cons m id op_unresolved (keys m))

failed_among-keys :
    (m : Map String OpState) → IsMap m → has_failed m ≡ true → 1 ≤ failed_among m (keys m)
unfolding failed_among has_failed status get
failed_among-keys [] d h = cc
failed_among-keys ((id, op_none) ∷ m) d h =
    ground (arith, failed_among-keys m d.1, among-cons m id op_none (keys m))
failed_among-keys ((id, op_succeeded) ∷ m) d h =
    ground (arith, failed_among-keys m d.1, among-cons m id op_succeeded (keys m))
failed_among-keys ((id, op_failed) ∷ m) d h = ground arith
failed_among-keys ((id, op_unresolved) ∷ m) d h =
    ground (arith, failed_among-keys m d.1, among-cons m id op_unresolved (keys m))

insert-All :
    (s : String) (l : List String) → s ≢ "" → All (λ t. t ≢ "") l → All (λ t. t ≢ "") (insert s l)
unfolding insert
insert-All s [] h a = (h, tt)
insert-All s (t ∷ l) h a = ground (arith, insert-All s l h a.1)

sorted_ids-All : (m : Map String OpState) → HasIds m → All (λ t. t ≢ "") (sort (keys m))
unfolding sort
sorted_ids-All [] h = tt
sorted_ids-All ((id, s) ∷ m) h = insert-All id (sort (keys m)) h.0 (sorted_ids-All m h.1)

forward_violation-Violates :
    (f : Facts)
    → HasIds f.forward
    → IsMap f.forward
    → (has_failed f.forward ≡ true) ⊎ (1 < length (unresolved_ids f.forward))
    → Violates f.forward (forward_violation f)
unfolding forward_violation sorted_ids
forward_violation-Violates f h d bad =
    let m = f.forward in
    loop-Violates m (sort (keys m)) (sorted_ids-All m h) (sort-IsDistinct (keys m) d)
      (ground (arith, among-sort m (keys m), unresolved_among-keys m d, failed_among-keys m d))

-- For forward facts with non-empty ids, one entry for each, and a failed operation or more than
-- one unresolved, NextForward is invalid and its reason names a failed operation of the facts or
-- two different unresolved ones; the line marked unreachable in forwardViolation is not reached.
pub next_forward-Violates :
    (topo : Topology) (f : Facts)
    → HasIds f.forward
    → IsMap f.forward
    → (has_failed f.forward ≡ true) ⊎ (1 < length (unresolved_ids f.forward))
    → Violates f.forward (next_forward topo f)
unfolding verdict
next_forward-Violates topo f h d bad =
    let e : next_forward topo f ≡ forward_violation f =
      ground (arith, next_forward-verdict topo f h) in
    subst (Violates f.forward) (sym e) (forward_violation-Violates f h d bad)
