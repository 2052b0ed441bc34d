-- ===== src/Runpool/Grants.antt =====
-- Whom `Acquire` and `Admit` of internal/runpool/runpool.go let in.
use durable.Base.{
  ℕ, ◌+◌, ◌≡◌, refl, ite, Bool, true, false, ◌&&◌, ◌||◌, none, some, List, [], ◌∷◌, Comparable, ◌≟◌,
  ltb, if◌then◌else◌, arith, Bool-cases, Option-cases, inl, inr, is_some, All,
}
use durable.Base.Map.{get, put, get-put, get-delete}
use durable.Base.Order.{Ordered}
use durable.Runpool.{
  Waiter, Class, Pool, class_for, fresh_class, ask, take_place, insert, acquire, holds, parked_on,
  search_place,
}
use durable.Runpool.Line.{stands, place, IsSorted, IsAfter, index_from-place}
use durable.Runpool.Invariant.{line_of, IsValid, in_use_of}
use durable.Runpool.Takes.{class_for-keeps}
use durable.Runpool.Asks.{is_parked, pend, pend-get}
use durable.Runpool.Wakes.{class_for-Quiet, unlimited-unparked}

module _ {W O : Type 0} ⦃oc : Ordered O⦄ where
  -- How many members stand at a lower order.
  unfoldable pub lower : List (Waiter W O) → O → ℕ
  lower [] o = 0
  lower (x ∷ xs) o = (if oc.le o x.order then 0 else 1) + lower xs o

  lower-after :
      (xs : List (Waiter W O)) (o o' : O) → oc.le o o' ≡ true → All (IsAfter o') xs → lower xs o ≡ 0
  unfolding lower
  lower-after [] o o' h a = refl
  lower-after (x ∷ xs) o o' h a =
      ground (arith, oc.trans o o' x.order h a.0, lower-after xs o o' h a.1)

  -- In a sorted line the search counts them.
  pub search_place-lower :
      (xs : List (Waiter W O)) (o : O) → IsSorted xs → search_place xs o ≡ lower xs o
  unfolding lower search_place
  search_place-lower [] o s = refl
  search_place-lower (x ∷ xs) o s =
      ground (arith, lower-after xs o x.order, search_place-lower xs o s.1)

module _ {K W O : Type 0} ⦃kc : Comparable K⦄ ⦃wc : Comparable W⦄ ⦃oc : Ordered O⦄ where
  -- The members ahead of `w`, which joins the line at its order if it is not in it.
  abbrev pub ahead : Pool K W O → K → W → O → ℕ
  ahead p k w order =
      if stands (line_of p k) w then place (line_of p k) w else lower (line_of p k) order

  -- The capacity suffices for the holders, the members ahead of `w`, and `w`.
  abbrev pub fits : Pool K W O → K → W → O → Bool
  fits p k w order = elim (get p.capacity k) [
    | none ↦ true
    | some cap ↦ if holds p w then true else ltb (in_use_of p k + ahead p k w order) cap
  ]

  pub take_place-place :
      (p : Pool K W O) (c : Class W O) (w : W) (order : O)
      → IsSorted c.line
      → (take_place p c w order).2
        ≡ (if stands c.line w then place c.line w else lower c.line order)
  unfolding take_place insert
  take_place-place p c w order s =
      ground (arith, index_from-place 0 c.line w, search_place-lower c.line order s)

  pub take_place-sizes :
      (p : Pool K W O) (c : Class W O) (w : W) (order : O)
      → ((take_place p c w order).1.in_use ≡ c.in_use)
        × ((take_place p c w order).1.capacity ≡ c.capacity)
        × ((take_place p c w order).0.capacity ≡ p.capacity)
        × ((take_place p c w order).0.holders ≡ p.holders)
        × ((take_place p c w order).0.pending ≡ p.pending)
        × ((take_place p c w order).0.parked ≡ p.parked)
  unfolding take_place insert
  take_place-sizes p c w order = ground arith

  pub ask-grants :
      (p : Pool K W O) (k : K) (c : Class W O) (w : W) (order : O)
      → IsSorted c.line
      → (ask p k c w order).1
        ≡ ltb
            (c.in_use + (if stands c.line w then place c.line w else lower c.line order))
            c.capacity
  unfolding ask
  ask-grants p k c w order s =
      ground
        (arith, take_place-place (pend p w k) c w order s, take_place-sizes (pend p w k) c w order)

  module _ (class_of : W → K) where
    pub acquire-fits :
        (p : Pool K W O) (w : W) (order : O)
        → IsValid class_of p
        → (acquire p (class_of w) w order).1 ≡ fits p (class_of w) w order
    unfolding acquire class_for holds stands lower
    acquire-fits p w order v = elim (Option-cases (get p.capacity (class_of w))) [
      | inl n ↦ ground arith
      | inr (cap, n) ↦ elim (Option-cases (get p.classes (class_of w))) [
        | inl m ↦ ground (
          arith,
          ask-grants (record p { classes = put p.classes (class_of w) (fresh_class cap) })
              (class_of w) (fresh_class cap) w order,
        )
        | inr (c, m) ↦ ground (
          arith,
          ask-grants p (class_of w) c w order,
          v.sorted (class_of w),
          v.sized (class_of w) c m,
        )
      ]
    ]

    -- What the pool says of `x` once `w` has asked and got the answer `granted`.
    pub record Answer (p : Pool K W O) (w : W) (granted : Bool) (q : Pool K W O) (x : W)
        : Type 0 where
      pub holder :
          holds q x
          ≡ ite
              (w ≟ x)
              (holds p w || (granted && is_some (get p.capacity (class_of w))))
              (holds p x)
      pub asked :
          parked_on q x
          ≡ ite
              (w ≟ x)
              (if granted then (false, none) else (true, some (class_of w)))
              (parked_on p x)

    ask-Answer :
        (p : Pool K W O) (c : Class W O) (w : W) (order : O) (x : W)
        → IsValid class_of p
        → is_some (get p.capacity (class_of w)) ≡ true
        → get p.holders w ≡ none
        → let r = ask p (class_of w) c w order in Answer p w r.1 r.0 x
    unfolding ask holds parked_on
    ask-Answer p c w order x v l h =
        let k = class_of w in
        let r = take_place (pend p w k) c w order in
        let sz = take_place-sizes (pend p w k) c w order in
        record {
          holder = ground (arith, sz.3, get-put p.holders w k x);
          asked = ground (
            arith,
            sz.4,
            sz.5,
            pend-get class_of p w x v,
            get-put p.parked w tt x,
            get-delete p.parked w x,
            get-delete (pend p w k).pending w x,
          );
        }

    class_for-answers :
        (p q : Pool K W O) (c : Class W O) (w x : W)
        → class_for p (class_of w) ≡ some (q, c)
        → (holds q x ≡ holds p x) × (parked_on q x ≡ parked_on p x)
    unfolding holds parked_on
    class_for-answers p q c w x h =
        let same = class_for-keeps class_of p q c w h in
        (ground (arith, same.2), ground (arith, same.3, same.5))

    unlimited :
        (p : Pool K W O) (w : W)
        → class_for p (class_of w) ≡ none
        → get p.capacity (class_of w) ≡ none
    unfolding class_for
    unlimited p w n = ground arith

    class_for-limited :
        (p q : Pool K W O) (c : Class W O) (w : W)
        → class_for p (class_of w) ≡ some (q, c)
        → is_some (get p.capacity (class_of w)) ≡ true
    unfolding class_for
    class_for-limited p q c w h = ground arith

    same-Answer :
        (p q : Pool K W O) (w x : W) (granted : Bool)
        → granted ≡ true
        → (holds p w ≡ false → get p.capacity (class_of w) ≡ none)
        → (holds q x ≡ holds p x) × (parked_on q x ≡ parked_on p x)
        → is_parked p w ≡ false
        → Answer p w granted q x
    unfolding parked_on
    same-Answer p q w x granted g l e u = record {
      holder = ground (arith, l);
      asked = ground arith;
    }

    -- Acquire in a valid pool grants a key with no capacity and a holder, and otherwise
    -- exactly if the capacity exceeds the holders and the members ahead together; ahead of a
    -- member that is not in the line are the members with a lower order. The member then
    -- holds a token if it was granted one of a limited key, or is parked on its class if it
    -- was refused; what the pool says of the others is unchanged.
    pub acquire-Answer :
        (p : Pool K W O) (w : W) (order : O) (x : W)
        → IsValid class_of p
        → let r = acquire p (class_of w) w order in
          (r.1 ≡ fits p (class_of w) w order) × Answer p w r.1 r.0 x
    unfolding acquire holds
    acquire-Answer p w order x v = (
      acquire-fits p w order v,
      elim (Option-cases (class_for p (class_of w))) [
        | inl n ↦
            let u = unlimited-unparked class_of p w v n in
            rw (n, acquire) (same-Answer p p w x true refl (λ h. unlimited p w n) (refl, refl) u)
        | inr ((q, c), n) ↦
            let kept = class_for-Quiet class_of p q c w v n in
            let same = class_for-keeps class_of p q c w n in
            let e = class_for-answers p q c w x n in
            elim (Bool-cases (is_some (get q.holders w))) [
              | inl h ↦
                  let held : holds p w ≡ true = ground (arith, same.2) in
                  let u : is_parked p w ≡ false = ground (arith, v.apart w, v.parks w) in
                  rw (n, acquire, h)
                    (same-Answer p q w x true refl (λ h'. absurd (ground arith)) e u)
              | inr h ↦
                  let l = class_for-limited p q c w n in
                  let a : Answer q w (ask q (class_of w) c w order).1
                      (ask q (class_of w) c w order).0 x =
                    ask-Answer q c w order x kept.valid (ground (arith, same.1)) (ground arith) in
                  let e' = class_for-answers p q c w w n in
                  rw (n, acquire, h)
                    (record {
                      holder = ground (arith, a.holder, e.0, e'.0, same.1);
                      asked = ground (arith, a.asked, e.1);
                    })
            ]
      ],
    )
