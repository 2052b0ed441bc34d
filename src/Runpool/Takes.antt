-- ===== src/Runpool/Takes.antt =====
-- `Admit` and `Acquire` of internal/runpool/runpool.go: what they change, and that they keep the
-- pool valid.
use durable.Base.{
  ℕ, zero, suc, ◌+◌, ◌≡◌, ◌≢◌, refl, ite, true, false, none, some, List, [], ◌∷◌, Comparable, ◌≟◌,
  arith, Option-cases, inl, inr, is_some,
}
use durable.Base.Map.{get, put, get-put, get-delete, keys, IsMap, delete-IsMap}
use durable.Base.Order.{Ordered}
use durable.Runpool.{
  Waiter, Class, Pool, fresh_class, insert_at, first, search_place, insert, class_for, take_place,
}
use durable.Runpool.Line.{
  stands, place, IsOnce, IsSorted, index_from-place, stands-insert_at, insert_at-IsOnce,
  place-insert_at, search_place-le, insert_at-IsSorted,
}
use durable.Runpool.Invariant.{count, one, count-delete, IsValid, Changes}

module _ {W O : Type 0} where
  pub first-insert_at :
      (i : ℕ) (y : Waiter W O) (xs : List (Waiter W O)) (x : W)
      → y.w ≢ x
      → first (insert_at i y xs) ≡ some x
      → first xs ≡ some x
  unfolding first insert_at
  first-insert_at zero y xs x n h = absurd (ground arith)
  first-insert_at (suc i) y [] x n h = absurd (ground arith)
  first-insert_at (suc i) y (z ∷ xs) x n h = h

module _ {K W O : Type 0} ⦃kc : Comparable K⦄ ⦃wc : Comparable W⦄ ⦃oc : Ordered O⦄ where
  module _ (class_of : W → K) where
    -- `w` has its place `i` in the line of the class, now `d`, and is no longer set aside.
    pub record Placed (p : Pool K W O) (c : Class W O) (w : W) (q : Pool K W O) (d : Class W O)
        (i : ℕ) : Type 0 where
      pub capacity : q.capacity ≡ p.capacity
      pub classes : q.classes ≡ p.classes
      pub holders : q.holders ≡ p.holders
      pub pending : q.pending ≡ p.pending
      pub parked : q.parked ≡ p.parked
      pub sidelined : (x : W) → get q.sidelined x ≡ ite (w ≟ x) none (get p.sidelined x)
      pub aside_map : IsMap q.sidelined
      pub counts :
          (k : K)
          → count class_of k (keys q.sidelined) + one class_of (is_some (get p.sidelined w)) w k
            ≡ count class_of k (keys p.sidelined)
      pub sized : d.capacity ≡ c.capacity
      pub in_use : d.in_use ≡ c.in_use
      pub asides : d.sidelined ≡ count class_of (class_of w) (keys q.sidelined)
      pub once : IsOnce d.line
      pub sorted : IsSorted d.line
      pub members : (x : W) → stands d.line x ≡ ite (w ≟ x) true (stands c.line x)
      pub placed : i ≡ place d.line w
      pub front : (x : W) → w ≢ x → first d.line ≡ some x → first c.line ≡ some x

    pub take_place-Placed :
        (p : Pool K W O) (c : Class W O) (w : W) (order : O)
        → IsOnce c.line
        → IsSorted c.line
        → (stands c.line w ≡ true → get p.sidelined w ≡ none)
        → IsMap p.sidelined
        → c.sidelined ≡ count class_of (class_of w) (keys p.sidelined)
        → let r = take_place p c w order in Placed p c w r.0 r.1 r.2
    unfolding take_place insert
    take_place-Placed p c w order once sorted apart m asides =
        let y : Waiter W O = record { w = w; order = order } in
        let i = search_place c.line order in
        record {
          capacity = ground (arith, index_from-place 0 c.line w);
          classes = ground (arith, index_from-place 0 c.line w);
          holders = ground (arith, index_from-place 0 c.line w);
          pending = ground (arith, index_from-place 0 c.line w);
          parked = ground (arith, index_from-place 0 c.line w);
          sidelined = λ x. ground (arith, index_from-place 0 c.line w, get-delete p.sidelined w x);
          aside_map = ground (arith, index_from-place 0 c.line w, delete-IsMap p.sidelined w);
          counts = λ k.
              ground (arith, index_from-place 0 c.line w, count-delete class_of p.sidelined w k);
          sized = ground (arith, index_from-place 0 c.line w);
          in_use = ground (arith, index_from-place 0 c.line w);
          asides = ground (
            arith,
            index_from-place 0 c.line w,
            count-delete class_of p.sidelined w (class_of w),
          );
          once = ground (arith, index_from-place 0 c.line w, insert_at-IsOnce i y c.line);
          sorted = ground (arith, index_from-place 0 c.line w, insert_at-IsSorted y c.line);
          members = λ x. ground (arith, index_from-place 0 c.line w, stands-insert_at i y c.line x);
          placed = ground (
            arith,
            index_from-place 0 c.line w,
            place-insert_at i y c.line,
            search_place-le c.line order,
          );
          front =
              λ x n h. ground (arith, index_from-place 0 c.line w, first-insert_at i y c.line x);
        }

    pub class_for-Changes :
        (p q : Pool K W O) (c : Class W O) (w : W)
        → IsValid class_of p
        → class_for p (class_of w) ≡ some (q, c)
        → Changes class_of p q w c
    unfolding class_for stands
    class_for-Changes p q c w v h = elim (Option-cases (get p.capacity (class_of w))) [
      | inl n ↦ absurd (ground arith)
      | inr (cap, n) ↦ elim (Option-cases (get p.classes (class_of w))) [
        | inl m ↦
            let e : q ≡ record p { classes = put p.classes (class_of w) (fresh_class cap) } =
              ground arith in
            let e' : c ≡ fresh_class cap = ground arith in
            record {
              capacity = ground arith;
              classes = λ k. ground (arith, get-put p.classes (class_of w) (fresh_class cap) k);
              holders = λ x n. ground arith;
              pending = λ x n. ground arith;
              sidelined = λ x n. ground arith;
              parked = λ x n. ground arith;
              holder_map = ground (arith, v.holder_map);
              aside_map = ground (arith, v.aside_map);
              sized = ground arith;
              once = ground arith;
              sorted = ground arith;
              members = λ x. ground (arith, v.members (class_of w) x);
              tokens = ground (arith, v.tokens (class_of w));
              asides = ground (arith, v.asides (class_of w));
              other_tokens = λ k n. ground arith;
              other_asides = λ k n. ground arith;
              owned = λ k. ground (arith, v.owned w k);
              pended = λ k. ground (arith, v.pended w k);
              aside_pends = ground (arith, v.aside_pends w);
              parks = ground (arith, v.parks w);
              apart = ground (arith, v.apart w);
            }
        | inr (d, m) ↦
            let e : q ≡ p = ground arith in
            let e' : c ≡ d = ground arith in
            record {
              capacity = ground arith;
              classes = λ k. ground arith;
              holders = λ x n. ground arith;
              pending = λ x n. ground arith;
              sidelined = λ x n. ground arith;
              parked = λ x n. ground arith;
              holder_map = ground (arith, v.holder_map);
              aside_map = ground (arith, v.aside_map);
              sized = ground (arith, v.sized (class_of w) d);
              once = ground (arith, v.once (class_of w));
              sorted = ground (arith, v.sorted (class_of w));
              members = λ x. ground (arith, v.members (class_of w) x);
              tokens = ground (arith, v.tokens (class_of w));
              asides = ground (arith, v.asides (class_of w));
              other_tokens = λ k n. ground arith;
              other_asides = λ k n. ground arith;
              owned = λ k. ground (arith, v.owned w k);
              pended = λ k. ground (arith, v.pended w k);
              aside_pends = ground (arith, v.aside_pends w);
              parks = ground (arith, v.parks w);
              apart = ground (arith, v.apart w);
            }
      ]
    ]

    -- The class is in the pool, and the members' maps are as they were.
    pub class_for-keeps :
        (p q : Pool K W O) (c : Class W O) (w : W)
        → class_for p (class_of w) ≡ some (q, c)
        → (get q.classes (class_of w) ≡ some c)
          × (q.capacity ≡ p.capacity)
          × (q.holders ≡ p.holders)
          × (q.pending ≡ p.pending)
          × (q.sidelined ≡ p.sidelined)
          × (q.parked ≡ p.parked)
    unfolding class_for
    class_for-keeps p q c w h = elim (Option-cases (get p.capacity (class_of w))) [
      | inl n ↦ absurd (ground arith)
      | inr (cap, n) ↦ ground (arith, get-put p.classes (class_of w) (fresh_class cap) (class_of w))
    ]

    pub enter-Changes :
        (p : Pool K W O) (c : Class W O) (w : W) (order : O)
        → IsValid class_of p
        → get p.classes (class_of w) ≡ some c
        → get p.holders w ≡ none
        → get p.pending w ≡ none
        → let d = (insert c w order).0 in
          Changes class_of p
            (record p {
              pending = put p.pending w (class_of w);
              classes = put p.classes (class_of w) d;
            })
            w
            d
    unfolding insert
    enter-Changes p c w order v g h n =
        let k = class_of w in
        let y : Waiter W O = record { w = w; order = order } in
        let i = search_place c.line order in
        let d = (insert c w order).0 in
        let alone : get p.sidelined w ≡ none = ground (arith, v.aside_pends w) in
        let out : stands c.line w ≡ false = ground (arith, v.members k w) in
        record {
          capacity = refl;
          classes = λ j. ground (arith, get-put p.classes k d j);
          holders = λ x ne. refl;
          pending = λ x ne. ground (arith, get-put p.pending w k x);
          sidelined = λ x ne. refl;
          parked = λ x ne. refl;
          holder_map = v.holder_map;
          aside_map = v.aside_map;
          sized = ground (arith, v.sized k c);
          once = ground (arith, v.once k, insert_at-IsOnce i y c.line);
          sorted = ground (arith, v.sorted k, insert_at-IsSorted y c.line);
          members = λ x. ground (arith, stands-insert_at i y c.line x, get-put p.pending w k w);
          tokens = ground (arith, v.tokens k);
          asides = ground (arith, v.asides k);
          other_tokens = λ j ne. refl;
          other_asides = λ j ne. refl;
          owned = λ j. v.owned w j;
          pended = λ j. ground (arith, get-put p.pending w k w);
          aside_pends = ground arith;
          parks = ground (arith, v.parks w);
          apart = ground arith;
        }
