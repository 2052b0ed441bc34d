-- ===== src/Runpool/Asks.antt =====
-- `Acquire` of internal/runpool/runpool.go by a member that holds nothing: what a refusal and a
-- grant change.
use durable.Base.{
  ℕ, ◌+◌, ◌≤◌, ◌<◌, ◌≡◌, ◌≢◌, ◌⊎◌, refl, subst, ite, Bool, true, none, some, Option, List, [], ◌∷◌,
  Comparable, ◌≟◌, leb, if◌then◌else◌, arith, Bool-cases, Option-cases, inl, inr, is_some,
}
use durable.Base.Map.{get, put, delete, get-put, get-delete, put-IsMap}
use durable.Base.Order.{Ordered}
use durable.Runpool.{Waiter, Class, Pool, delete_at, first, head, take_place, ask}
use durable.Runpool.Line.{place, stands-delete_at, delete_at-IsOnce, delete_at-IsSorted}
use durable.Runpool.Invariant.{count-put, in_use_of, IsValid, Changes}
use durable.Runpool.Takes.{Placed, take_place-Placed}

module _ {W O : Type 0} ⦃wc : Comparable W⦄ where
  first-place : (xs : List (Waiter W O)) (w : W) → first xs ≡ some w → place xs w ≡ 0
  unfolding first place
  first-place [] w h = refl
  first-place (x ∷ xs) w h = ground arith

module _ {K W O : Type 0} ⦃kc : Comparable K⦄ ⦃wc : Comparable W⦄ ⦃oc : Ordered O⦄ where
  -- The member that free capacity of the class is kept for.
  abbrev pub due : Pool K W O → K → Option W
  due p k = elim (get p.classes k) [ none ↦ none | some c ↦ head c ]

  abbrev pub is_parked : Pool K W O → W → Bool
  is_parked p x = is_some (get p.parked x)

  -- The first assignment of `Acquire`.
  abbrev pub pend : Pool K W O → W → K → Pool K W O
  pend p w k = if is_some (get p.pending w) then p else record p { pending = put p.pending w k }

  pend-keeps :
      (p : Pool K W O) (w : W) (k : K)
      → ((pend p w k).capacity ≡ p.capacity)
        × ((pend p w k).classes ≡ p.classes)
        × ((pend p w k).holders ≡ p.holders)
        × ((pend p w k).sidelined ≡ p.sidelined)
        × ((pend p w k).parked ≡ p.parked)
  pend-keeps p w k = ground arith

  module _ (class_of : W → K) where
    pub pend-get :
        (p : Pool K W O) (w x : W)
        → IsValid class_of p
        → get (pend p w (class_of w)).pending x ≡ ite (w ≟ x) (some (class_of w)) (get p.pending x)
    pend-get p w x v = elim (Option-cases (get p.pending w)) [
      | inl n ↦ ground (arith, get-put p.pending w (class_of w) x)
      | inr (k, n) ↦ ground (arith, v.pended w k n)
    ]

    -- What a call of `w` comes to: the class of `w` afterwards, and who is kicked for it.
    pub record Effect (p q : Pool K W O) (w : W) (kick : Option W) : Type 0 where
      pub after : Class W O
      pub changes : Changes class_of p q w after
      pub bounded : in_use_of p (class_of w) < after.in_use → after.in_use ≤ after.capacity
      pub serves :
          (x : W)
          → head after ≡ some x
          → is_parked q x ≡ true
          → ((w ≢ x) × (due p (class_of w) ≡ some x) × (is_parked p x ≡ true)) ⊎ (kick ≡ some x)

    module _ (p : Pool K W O) (c : Class W O) (w : W) (order : O) where
      abbrev taken : Pool K W O × Class W O × ℕ
      taken = take_place (pend p w (class_of w)) c w order

      -- The pool, once the member is at its place.
      abbrev at_place : Pool K W O
      at_place = taken.0

      abbrev lined : Class W O
      lined = taken.1

      pub placed :
          IsValid class_of p
          → get p.classes (class_of w) ≡ some c
          → Placed class_of (pend p w (class_of w)) c w at_place lined taken.2
      placed v g =
          let k = class_of w in
          let s : (pend p w k).sidelined ≡ p.sidelined = (pend-keeps p w k).3 in
          take_place-Placed class_of (pend p w k) c w order (ground (arith, v.once k))
            (ground (arith, v.sorted k)) (λ h. ground (arith, s, v.members k w))
            (ground (arith, s, v.aside_map)) (ground (arith, s, v.asides k))

      abbrev refused : Pool K W O
      refused = record at_place {
        classes = put at_place.classes (class_of w) lined;
        parked = put at_place.parked w tt;
      }

      refused-Changes :
          IsValid class_of p
          → get p.classes (class_of w) ≡ some c
          → get p.holders w ≡ none
          → Changes class_of p refused w lined
      refused-Changes v g h =
          let k = class_of w in
          let kept = pend-keeps p w k in
          let pl = placed v g in
          record {
            capacity = ground (arith, kept.0, pl.capacity);
            classes = λ j. ground (arith, kept.1, pl.classes, get-put at_place.classes k lined j);
            holders = λ x n. ground (arith, kept.2, pl.holders);
            pending = λ x n. ground (arith, pl.pending, pend-get p w x v);
            sidelined = λ x n. ground (arith, kept.3, pl.sidelined x);
            parked = λ x n. ground (arith, kept.4, pl.parked, get-put at_place.parked w tt x);
            holder_map = ground (arith, kept.2, pl.holders, v.holder_map);
            aside_map = pl.aside_map;
            sized = ground (arith, pl.sized, v.sized k c);
            once = pl.once;
            sorted = pl.sorted;
            members =
                λ x. ground (arith, pl.members x, pl.pending, pend-get p w w v, pl.sidelined w);
            tokens = ground (arith, pl.in_use, kept.2, pl.holders, v.tokens k);
            asides = pl.asides;
            other_tokens = λ j n. ground (arith, kept.2, pl.holders);
            other_asides = λ j n. ground (arith, kept.3, pl.counts j);
            owned = λ j. ground (arith, kept.2, pl.holders);
            pended = λ j. ground (arith, pl.pending, pend-get p w w v);
            aside_pends = ground (arith, pl.sidelined w);
            parks = λ e. ground (arith, pl.pending, pend-get p w w v, pl.sidelined w);
            apart = ground (arith, kept.2, pl.holders);
          }

      left : Class W O
      left = record lined { line = delete_at taken.2 lined.line; in_use = lined.in_use + 1 }

      granted : Pool K W O
      granted = record at_place {
        classes = put at_place.classes (class_of w) left;
        parked = delete at_place.parked w;
        pending = delete at_place.pending w;
        holders = put at_place.holders w (class_of w);
      }

      granted-Changes :
          IsValid class_of p
          → get p.classes (class_of w) ≡ some c
          → get p.holders w ≡ none
          → Changes class_of p granted w left
      unfolding granted left
      granted-Changes v g h =
          let k = class_of w in
          let kept = pend-keeps p w k in
          let pl = placed v g in
          let hs : at_place.holders ≡ p.holders = ground (arith, kept.2, pl.holders) in
          record {
            capacity = ground (arith, kept.0, pl.capacity);
            classes = λ j. ground (arith, kept.1, pl.classes, get-put at_place.classes k left j);
            holders = λ x n. ground (arith, hs, get-put p.holders w k x);
            pending = λ x n.
                ground (arith, pl.pending, pend-get p w x v, get-delete at_place.pending w x);
            sidelined = λ x n. ground (arith, kept.3, pl.sidelined x);
            parked = λ x n. ground (arith, kept.4, pl.parked, get-delete at_place.parked w x);
            holder_map = ground (arith, hs, put-IsMap p.holders w k, v.holder_map);
            aside_map = pl.aside_map;
            sized = ground (arith, pl.sized, v.sized k c);
            once = ground (arith, pl.placed, pl.once, pl.members w, delete_at-IsOnce lined.line w);
            sorted = delete_at-IsSorted taken.2 lined.line pl.sorted;
            members = λ x. ground (
              arith,
              pl.placed,
              pl.once,
              pl.members w,
              pl.members x,
              stands-delete_at lined.line w x,
              get-delete at_place.pending w w,
            );
            tokens = ground (arith, pl.in_use, hs, v.tokens k, count-put class_of p.holders w k k);
            asides = pl.asides;
            other_tokens = λ j n. ground (arith, hs, count-put class_of p.holders w k j);
            other_asides = λ j n. ground (arith, kept.3, pl.counts j);
            owned = λ j. ground (arith, hs, get-put p.holders w k w);
            pended = λ j. ground (arith, get-delete at_place.pending w w);
            aside_pends = ground (arith, pl.sidelined w);
            parks = λ e. ground (arith, get-delete at_place.parked w w);
            apart = ground (arith, get-delete at_place.pending w w);
          }

      pub ask-Effect :
          IsValid class_of p
          → get p.classes (class_of w) ≡ some c
          → get p.holders w ≡ none
          → let r = ask p (class_of w) c w order in Effect p r.0 w r.2
      unfolding ask granted left head
      ask-Effect v g h =
          let pl = placed v g in
          elim (Bool-cases (leb lined.capacity (lined.in_use + taken.2))) [
            | inl full ↦ record {
              after = lined;
              bounded = λ l. absurd (ground (arith, pl.in_use));
              changes =
                  subst (λ q. Changes class_of p q w lined)
                    (let same : refused ≡ (ask p (class_of w) c w order).0 = ground arith in same)
                    (refused-Changes v g h);
              serves = λ x d e. elim (w ≟ x) [
                | yes same ↦ absurd (ground (arith, pl.placed, first-place lined.line w))
                | no other ↦ inl (
                  other,
                  ground (arith, pl.front x other, pl.in_use, pl.sized),
                  ground (
                    arith,
                    (pend-keeps p w (class_of w)).4,
                    pl.parked,
                    get-put at_place.parked w tt x,
                  ),
                )
              ];
            }
            | inr free ↦ record {
              after = left;
              bounded = λ l. ground arith;
              changes =
                  subst (λ q. Changes class_of p q w left)
                    (let same : granted ≡ (ask p (class_of w) c w order).0 = ground arith in same)
                    (granted-Changes v g h);
              serves = λ x d e. inr (ground arith);
            }
          ]
