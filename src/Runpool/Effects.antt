-- ===== src/Runpool/Effects.antt =====
-- The operations of internal/runpool/runpool.go: each keeps a valid pool valid and wakes whom it
-- leaves capacity for.
use durable.Base.{
  ℕ, ◌≡◌, ◌⊎◌, refl, subst, true, false, none, some, Option, Comparable, arith, Bool-cases,
  Option-cases, inl, inr, is_some,
}
use durable.Base.Map.{Map, get, put, delete}
use durable.Base.Order.{Ordered}
use durable.Runpool.{Pool, new, forget, release, clear}
use durable.Runpool.Line.{stands}
use durable.Runpool.Invariant.{count, IsValid, Changes}
use durable.Runpool.Asks.{Effect, is_parked}
use durable.Runpool.Leaves.{
  leave_line-in_use, returned, returned-Changes, forgotten, forgotten-Changes, set_aside,
  set_aside-Changes,
}

module _ {K W O : Type 0} ⦃kc : Comparable K⦄ ⦃wc : Comparable W⦄ ⦃oc : Ordered O⦄
    (class_of : W → K) where
  pub new-IsValid : (capacity : Map K ℕ) → IsValid {O = O} class_of (new capacity)
  unfolding new get count stands
  new-IsValid capacity = record {
    once = λ k. tt;
    sorted = λ k. tt;
    sized = λ k c h. absurd (ground arith);
    members = λ k w. ground arith;
    tokens = λ k. refl;
    asides = λ k. refl;
    holder_map = tt;
    aside_map = tt;
    owned = λ w k h. absurd (ground arith);
    pended = λ w k h. absurd (ground arith);
    classed = λ w h. absurd (ground arith);
    held = λ w h. absurd (ground arith);
    aside_pends = λ w h. absurd (ground arith);
    parks = λ w h. absurd (ground arith);
    apart = λ w h. refl;
  }

  pub release-Effect :
      (p q : Pool K W O) (w : W) (kick : Option W)
      → IsValid class_of p
      → release p w ≡ some (q, kick)
      → ((q ≡ p) × (is_parked p w ≡ false) × (kick ≡ none)) ⊎ Effect class_of p q w kick
  unfolding release forget
  release-Effect p q w kick v h = elim (Option-cases (get p.holders w)) [
    | inl n ↦ elim (Option-cases (get p.pending w)) [
      | inl m ↦ inl (ground (arith, v.parks w))
      | inr (k, m) ↦ elim (Option-cases (get p.classes (class_of w))) [
        | inl o ↦ absurd (ground (arith, v.classed w))
        | inr (c, o) ↦
            let f = forgotten class_of p c w in
            let own : class_of w ≡ k = v.pended w k m in
            let same : record f.0 { classes = put f.0.classes (class_of w) f.1 } ≡ q =
              ground (arith, own) in
            inr (record {
              after = f.1;
              bounded = λ l. absurd (ground (arith, own, leave_line-in_use class_of c w));
              changes =
                  subst (λ r. Changes class_of p r w f.1) same
                    (forgotten-Changes class_of p c w v o (ground arith));
              serves = λ x d e. inr (ground (arith, own));
            })
      ]
    ]
    | inr (k, n) ↦ elim (Option-cases (get p.classes (class_of w))) [
      | inl o ↦ absurd (ground (arith, v.held w))
      | inr (c, o) ↦
          let d = returned class_of p c w in
          let own : class_of w ≡ k = v.owned w k n in
          let same : record p {
            holders = delete p.holders w;
            classes = put p.classes (class_of w) d;
          }
              ≡ q =
            ground (arith, own) in
          inr (record {
            after = d;
            bounded = λ l. absurd (ground (arith, own, leave_line-in_use class_of c w));
            changes =
                subst (λ r. Changes class_of p r w d) same
                  (returned-Changes class_of p c w v o (ground arith));
            serves = λ x d e. inr (ground (arith, own));
          })
    ]
  ]

  pub clear-Effect :
      (p q : Pool K W O) (w : W) (kick : Option W)
      → IsValid class_of p
      → clear p w ≡ some (q, kick)
      → ((q ≡ p) × (is_parked p w ≡ false) × (kick ≡ none)) ⊎ Effect class_of p q w kick
  unfolding clear
  clear-Effect p q w kick v h = elim (Option-cases (get p.pending w)) [
    | inl n ↦ inl (ground (arith, v.parks w))
    | inr (k, n) ↦ elim (Bool-cases (is_some (get p.sidelined w))) [
      | inl a ↦ inl (ground (arith, v.parks w))
      | inr a ↦ elim (Option-cases (get p.classes (class_of w))) [
        | inl o ↦ absurd (ground (arith, v.classed w))
        | inr (c, o) ↦
            let d = set_aside class_of p c w in
            let own : class_of w ≡ k = v.pended w k n in
            let same : record p {
              classes = put p.classes (class_of w) d;
              parked = delete p.parked w;
              sidelined = put p.sidelined w tt;
            }
                ≡ q =
              ground (arith, own) in
            inr (record {
              after = d;
              bounded = λ l. absurd (ground (arith, own, leave_line-in_use class_of c w));
              changes =
                  subst (λ r. Changes class_of p r w d) same
                    (set_aside-Changes class_of p c w v o (ground arith) a);
              serves = λ x d e. inr (ground (arith, own));
            })
      ]
    ]
  ]

  -- A member's class is there, so `Release` and `Clear` never follow a nil class.
  pub release-total : (p : Pool K W O) (w : W) → IsValid class_of p → is_some (release p w) ≡ true
  unfolding release
  release-total p w v = elim (Option-cases (get p.holders w)) [
    | inl n ↦ elim (Option-cases (get p.pending w)) [
      | inl m ↦ ground arith
      | inr (k, m) ↦ ground (arith, v.pended w k, v.classed w)
    ]
    | inr (k, n) ↦ ground (arith, v.owned w k, v.held w)
  ]

  pub clear-total : (p : Pool K W O) (w : W) → IsValid class_of p → is_some (clear p w) ≡ true
  unfolding clear
  clear-total p w v = elim (Option-cases (get p.pending w)) [
    | inl n ↦ ground arith
    | inr (k, n) ↦ ground (arith, v.pended w k, v.classed w)
  ]
