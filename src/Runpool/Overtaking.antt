-- ===== src/Runpool/Overtaking.antt =====
-- `Acquire` of internal/runpool/runpool.go never grants a member at the cost of one ahead of it.
use durable.Base.{
  ℕ, zero, suc, ◌+◌, ◌≤◌, ◌<◌, ◌≡◌, refl, subst, ap, ◌∙◌, ite, true, false, some, List, [], ◌∷◌,
  Comparable, ◌≟◌, ltb, if◌then◌else◌, length, arith, Bool-cases, Option-cases, inl, inr,
}
use durable.Base.Map.{get, get-put}
use durable.Base.Order.{Ordered}
use durable.Runpool.{
  Waiter, Class, Pool, class_for, ask, take_place, insert, acquire, holds, search_place, delete_at,
  insert_at,
}
use durable.Runpool.Line.{
  stands, place, IsOnce, place-delete_at, search_place-le, index_from-place, stands-delete_at,
}
use durable.Runpool.Invariant.{line_of, IsValid, in_use_of}
use durable.Runpool.Asks.{pend}
use durable.Runpool.Grants.{lower, take_place-sizes, ahead, fits, acquire-fits, ask-grants}
use durable.Runpool.Wakes.{acquire-Served}

module _ {W O : Type 0} where
  delete_at-insert_at :
      (i : ℕ) (y : Waiter W O) (xs : List (Waiter W O))
      → i ≤ length xs
      → delete_at i (insert_at i y xs) ≡ xs
  unfolding delete_at insert_at
  delete_at-insert_at zero y xs l = refl
  delete_at-insert_at (suc i) y [] l = absurd (omega arith)
  delete_at-insert_at (suc i) y (x ∷ xs) l = ground (arith, delete_at-insert_at i y xs)

module _ {W O : Type 0} ⦃wc : Comparable W⦄ where
  -- The line without the member.
  abbrev without : List (Waiter W O) → W → List (Waiter W O)
  without xs w = if stands xs w then delete_at (place xs w) xs else xs

module _ {W O : Type 0} ⦃wc : Comparable W⦄ ⦃oc : Ordered O⦄ where
  without-ahead :
      (xs : List (Waiter W O)) (w x : W) (order : O)
      → IsOnce xs
      → stands xs x ≡ true
      → place xs x < (if stands xs w then place xs w else lower xs order)
      → (stands (without xs w) x ≡ true) × (place (without xs w) x ≡ place xs x)
  without-ahead xs w x order d h l = elim (Bool-cases (stands xs w)) [
    | inl s ↦ elim (w ≟ x) [
      | yes e ↦ absurd (ground arith)
      | no n ↦ ground (arith, stands-delete_at xs w x d s, place-delete_at xs w x s)
    ]
    | inr s ↦ ground arith
  ]

module _ {K W O : Type 0} ⦃kc : Comparable K⦄ ⦃wc : Comparable W⦄ ⦃oc : Ordered O⦄ where
  take_place-without :
      (p : Pool K W O) (c : Class W O) (w : W) (order : O)
      → let r = take_place p c w order in delete_at r.2 r.1.line ≡ without c.line w
  unfolding take_place insert
  take_place-without p c w order =
      let y : Waiter W O = record { w = w; order = order } in
      ground (
        arith,
        index_from-place 0 c.line w,
        delete_at-insert_at (search_place c.line order) y c.line,
        search_place-le c.line order,
      )

  limited-fits :
      (p : Pool K W O) (k : K) (w : W) (order : O) (limit : ℕ)
      → get p.capacity k ≡ some limit
      → in_use_of p k + ahead p k w order < limit
      → fits p k w order ≡ true
  limited-fits p k w order limit e l =
      let room : ltb (in_use_of p k + ahead p k w order) limit ≡ true = ground arith in
      elim (Bool-cases (holds p w)) [
        | inl h ↦ rw (e, fits) (rw h refl)
        | inr h ↦ rw (e, fits) (rw h room)
      ]

  -- The pool after a grant.
  ask-class :
      (p : Pool K W O) (k : K) (c : Class W O) (w : W) (order : O)
      → (ask p k c w order).1 ≡ true
      → let q = (ask p k c w order).0 in
        (line_of q k ≡ without c.line w)
        × (in_use_of q k ≡ c.in_use + 1)
        × (q.capacity ≡ p.capacity)
        × ((x : W) → get q.holders x ≡ ite (w ≟ x) (some k) (get p.holders x))
  unfolding ask
  ask-class p k c w order h =
      let r = take_place (pend p w k) c w order in
      let left : Class W O = record r.1 {
        line = delete_at r.2 r.1.line;
        in_use = r.1.in_use + 1;
      } in
      (
        ground (arith, get-put r.0.classes k left k, take_place-without (pend p w k) c w order),
        ground (arith, get-put r.0.classes k left k, take_place-sizes (pend p w k) c w order),
        ground (arith, take_place-sizes (pend p w k) c w order),
        λ x. ground (arith, take_place-sizes (pend p w k) c w order, get-put r.0.holders w k x),
      )

  module _ (class_of : W → K) where
    -- If Acquire in a valid pool grants a token to a member that held none, then a member
    -- that stands ahead of it in the line would be granted one next: a grant never takes the
    -- capacity of those ahead.
    pub acquire-next :
        (p : Pool K W O) (w x : W) (order order' : O)
        → IsValid class_of p
        → holds p w ≡ false
        → stands (line_of p (class_of w)) x ≡ true
        → place (line_of p (class_of w)) x < ahead p (class_of w) w order
        → (acquire p (class_of w) w order).1 ≡ true
        → let q = (acquire p (class_of w) w order).0 in (acquire q (class_of w) x order').1 ≡ true
    unfolding acquire class_for holds stands
    acquire-next p w x order order' v h s l g =
        let k = class_of w in
        let same : class_of x ≡ k = ground (arith, v.members k x) in
        let q = (acquire p k w order).0 in
        let qv : IsValid class_of q = (acquire-Served class_of p w order v).valid in
        let f : (acquire q k x order').1 ≡ fits q k x order' =
          subst (λ j. (acquire q j x order').1 ≡ fits q j x order') same
            (acquire-fits class_of q x order' qv) in
        elim (Option-cases (get p.capacity k)) [
          | inl n ↦ ground (arith, f)
          | inr (limit, n) ↦ elim (Option-cases (get p.classes k)) [
            | inl m ↦ absurd (ground arith)
            | inr (c, m) ↦
                let e : q ≡ (ask p k c w order).0 = ground arith in
                let a = ask-class p k c w order (ground arith) in
                let b =
                  without-ahead c.line w x order (ground (arith, v.once k)) (ground arith)
                    (ground arith) in
                let r = (ask p k c w order).0 in
                let here : ahead r k x order' ≡ place c.line x = ground (arith, a.0, b.0, b.1) in
                let sized : get r.capacity k ≡ some limit = ap (λ m. get m k) a.2 ∙ n in
                let used : in_use_of r k ≡ c.in_use + 1 = a.1 in
                let free : c.in_use + 1 + place c.line x < limit =
                  ground (arith, v.sized k c m, ask-grants p k c w order, v.sorted k) in
                let z : fits r k x order' ≡ true =
                  limited-fits r k x order' limit sized (ground (arith, here, used, free)) in
                ground (arith, f, e, z)
          ]
        ]
