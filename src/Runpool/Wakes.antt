-- ===== src/Runpool/Wakes.antt =====
-- The kicks of internal/runpool/runpool.go: free capacity never strands the head of a line.
use durable.Base.{
  ℕ, ◌≤◌, ◌≡◌, ◌≢◌, ◌⊎◌, refl, sym, ◌∙◌, true, false, ◌&&◌, none, some, Option, List, [], ◌∷◌,
  Comparable, ◌≟◌, ltb, leb, arith, Bool-cases, Option-cases, inl, inr, is_some,
}
use durable.Base.Map.{get, put, get-put}
use durable.Base.Order.{Ordered}
use durable.Runpool.{
  Waiter, Class, Pool, fresh_class, pending_count, first, head, class_for, enter, admit, ask,
  acquire, insert, search_place,
}
use durable.Runpool.Line.{stands}
use durable.Runpool.Invariant.{in_use_of, IsValid, Changes-IsValid}
use durable.Runpool.Takes.{first-insert_at, class_for-Changes, class_for-keeps, enter-Changes}
use durable.Runpool.Asks.{Effect, due, is_parked, ask-Effect}

module _ {W O : Type 0} ⦃wc : Comparable W⦄ where
  first-stands : (xs : List (Waiter W O)) (w : W) → first xs ≡ some w → stands xs w ≡ true
  unfolding first stands
  first-stands [] w h = absurd (ground arith)
  first-stands (x ∷ xs) w h = ground arith

module _ {K W O : Type 0} ⦃kc : Comparable K⦄ ⦃wc : Comparable W⦄ ⦃oc : Ordered O⦄ where
  -- A parked member that is due after a call of `w` is not `w` and was due before, or is kicked.
  abbrev Serves : Pool K W O → Pool K W O → W → Option W → Type 0
  Serves p q w kick =
      (k : K) (x : W)
      → due q k ≡ some x
      → is_parked q x ≡ true
      → ((w ≢ x) × (due p k ≡ some x) × (is_parked p x ≡ true)) ⊎ (kick ≡ some x)

  module _ (class_of : W → K) where
    due-class :
        (p : Pool K W O) (k : K) (x : W) → IsValid class_of p → due p k ≡ some x → class_of x ≡ k
    unfolding head
    due-class p k x v d = elim (Option-cases (get p.classes k)) [
      | inl n ↦ absurd (ground arith)
      | inr (c, n) ↦ ground (arith, first-stands c.line x, v.members k x)
    ]

    Effect-Serves :
        (p q : Pool K W O) (w : W) (kick : Option W)
        → IsValid class_of p
        → Effect class_of p q w kick
        → Serves p q w kick
    Effect-Serves p q w kick v e k x d h = elim (class_of w ≟ k) [
      | yes same ↦ ground (arith, e.changes.classes k, e.serves x)
      | no other ↦ elim (w ≟ x) [
        | yes i ↦ absurd (ground (arith, e.changes.classes k, due-class p k x v))
        | no i ↦ ground (arith, e.changes.classes k, e.changes.parked x i)
      ]
    ]

    class_for-due :
        (p q : Pool K W O) (c : Class W O) (w : W) (k : K)
        → IsValid class_of p
        → class_for p (class_of w) ≡ some (q, c)
        → due q k ≡ due p k
    unfolding class_for first head
    class_for-due p q c w k v h = elim (Option-cases (get p.capacity (class_of w))) [
      | inl n ↦ absurd (ground arith)
      | inr (cap, n) ↦ ground (arith, get-put p.classes (class_of w) (fresh_class cap) k)
    ]

    enter-Serves :
        (p : Pool K W O) (c : Class W O) (w : W) (order : O)
        → IsValid class_of p
        → get p.classes (class_of w) ≡ some c
        → get p.holders w ≡ none
        → get p.pending w ≡ none
        → let d = (insert c w order).0 in
          (k : K) (x : W)
          → due
              (record p {
                pending = put p.pending w (class_of w);
                classes = put p.classes (class_of w) d;
              })
              k
            ≡ some x
          → is_parked p x ≡ true
          → due p k ≡ some x
    unfolding insert head
    enter-Serves p c w order v g h n k x e pk =
        let y : Waiter W O = record { w = w; order = order } in
        let d = (insert c w order).0 in
        ground (
          arith,
          get-put p.classes (class_of w) d k,
          v.parks x,
          first-insert_at (search_place c.line order) y c.line x,
        )

    -- The pool is valid, and nobody who is parked is newly due.
    pub record Quiet (p q : Pool K W O) : Type 0 where
      pub valid : IsValid class_of q
      pub due_before : (k : K) (x : W) → due q k ≡ some x → is_parked q x ≡ true → due p k ≡ some x
      pub parked : q.parked ≡ p.parked
      pub capacity : q.capacity ≡ p.capacity
      pub in_use : (k : K) → in_use_of q k ≡ in_use_of p k

    pub Quiet-same : (p : Pool K W O) → IsValid class_of p → Quiet p p
    Quiet-same p v = record {
      valid = v;
      due_before = λ k x d o. d;
      parked = refl;
      capacity = refl;
      in_use = λ k. refl;
    }

    Quiet-trans : (p q r : Pool K W O) → Quiet p q → Quiet q r → Quiet p r
    Quiet-trans p q r h j = record {
      valid = j.valid;
      due_before = λ k x d o. h.due_before k x (j.due_before k x d o) (ground (arith, j.parked));
      parked = ground (arith, h.parked, j.parked);
      capacity = j.capacity ∙ h.capacity;
      in_use = λ k. j.in_use k ∙ h.in_use k;
    }

    pub class_for-Quiet :
        (p q : Pool K W O) (c : Class W O) (w : W)
        → IsValid class_of p
        → class_for p (class_of w) ≡ some (q, c)
        → Quiet p q
    class_for-Quiet p q c w v h = record {
      valid = Changes-IsValid class_of p q w c v (class_for-Changes class_of p q c w v h);
      due_before = λ k x d o. sym (class_for-due p q c w k v h) ∙ d;
      parked = (class_for-keeps class_of p q c w h).5;
      capacity = (class_for-keeps class_of p q c w h).1;
      in_use = λ k. ground (
        arith,
        (class_for-Changes class_of p q c w v h).classes k,
        (class_for-Changes class_of p q c w v h).tokens,
        v.tokens k,
        (class_for-keeps class_of p q c w h).2,
      );
    }

    enter-Quiet :
        (p : Pool K W O) (c : Class W O) (w : W) (order : O) (max_pending : ℕ)
        → IsValid class_of p
        → get p.classes (class_of w) ≡ some c
        → get p.holders w ≡ none
        → get p.pending w ≡ none
        → Quiet p (enter p (class_of w) c w order max_pending).0
    unfolding enter insert
    enter-Quiet p c w order max_pending v g h n =
        let d = (insert c w order).0 in
        let q : Pool K W O = record p {
          pending = put p.pending w (class_of w);
          classes = put p.classes (class_of w) d;
        } in
        elim (Bool-cases (ltb 0 max_pending && leb max_pending (pending_count c))) [
          | inl full ↦ rw full (Quiet-same p v)
          | inr room ↦ rw room (record {
            valid = Changes-IsValid class_of p q w d v (enter-Changes class_of p c w order v g h n);
            due_before = enter-Serves p c w order v g h n;
            parked = refl;
            capacity = refl;
            in_use = λ k. ground (arith, get-put p.classes (class_of w) d k);
          })
        ]

    -- `Admit` wakes nobody, and need not.
    pub admit-Quiet :
        (p : Pool K W O) (w : W) (order : O) (max_pending : ℕ)
        → IsValid class_of p
        → Quiet p (admit p (class_of w) w order max_pending).0
    unfolding admit
    admit-Quiet p w order max_pending v = elim (Option-cases (class_for p (class_of w))) [
      | inl n ↦ rw (n, admit) (Quiet-same p v)
      | inr ((q, c), n) ↦
          let kept = class_for-Quiet p q c w v n in
          let same = class_for-keeps class_of p q c w n in
          elim (Bool-cases (is_some (get q.holders w))) [
            | inl h ↦ rw (n, admit, h) kept
            | inr h ↦ elim (Bool-cases (is_some (get q.pending w))) [
              | inl m ↦ rw (n, admit, h, m) kept
              | inr m ↦
                  rw (n, admit, h, m)
                    (Quiet-trans p q (enter q (class_of w) c w order max_pending).0 kept (
                      enter-Quiet q c w order max_pending kept.valid same.0 (ground arith)
                        (ground arith)))
            ]
          ]
    ]

    pub record Served (p q : Pool K W O) (w : W) (kick : Option W) : Type 0 where
      pub valid : IsValid class_of q
      pub serves : Serves p q w kick
      pub capacity : q.capacity ≡ p.capacity
      pub bounded :
          (k : K) (c : Class W O)
          → get q.classes k ≡ some c
          → (c.in_use ≤ in_use_of p k) ⊎ (c.in_use ≤ c.capacity)

    -- A quiet change is no answer to a wake, but by a member that is not parked.
    pub Quiet-Served :
        (p q : Pool K W O) (w : W) → Quiet p q → is_parked p w ≡ false → Served p q w none
    Quiet-Served p q w h n = record {
      valid = h.valid;
      serves = λ k x d o.
          inl (
            λ e. absurd (ground (arith, h.parked)),
            h.due_before k x d o,
            ground (arith, h.parked),
          );
      capacity = h.capacity;
      bounded = λ k c e. inl (ground (arith, h.in_use k));
    }

    pub Effect-Served :
        (p q r : Pool K W O) (w : W) (kick : Option W)
        → Quiet p q
        → Effect class_of q r w kick
        → Served p r w kick
    Effect-Served p q r w kick h e = record {
      valid = Changes-IsValid class_of q r w e.after h.valid e.changes;
      serves = λ k x d o.
          ground (arith, Effect-Serves q r w kick h.valid e k x, h.due_before k x, h.parked);
      capacity = e.changes.capacity ∙ h.capacity;
      bounded = λ k c o. ground (arith, e.changes.classes k, e.bounded, h.in_use k);
    }

    pub unlimited-unparked :
        (p : Pool K W O) (w : W)
        → IsValid class_of p
        → class_for p (class_of w) ≡ none
        → is_parked p w ≡ false
    unfolding class_for
    unlimited-unparked p w v n = elim (Option-cases (get p.classes (class_of w))) [
      | inl m ↦ ground (arith, v.parks w, v.classed w)
      | inr (c, m) ↦ ground (arith, v.sized (class_of w) c)
    ]

    pub acquire-Served :
        (p : Pool K W O) (w : W) (order : O)
        → IsValid class_of p
        → let r = acquire p (class_of w) w order in Served p r.0 w r.2
    unfolding acquire
    acquire-Served p w order v = elim (Option-cases (class_for p (class_of w))) [
      | inl n ↦ rw (n, acquire) (Quiet-Served p p w (Quiet-same p v) (unlimited-unparked p w v n))
      | inr ((q, c), n) ↦
          let kept = class_for-Quiet p q c w v n in
          let same = class_for-keeps class_of p q c w n in
          elim (Bool-cases (is_some (get q.holders w))) [
            | inl h ↦
                rw (n, acquire, h)
                  (Quiet-Served p q w kept (ground (arith, same.2, v.apart w, v.parks w)))
            | inr h ↦
                let a = ask q (class_of w) c w order in
                rw (n, acquire, h)
                  (Effect-Served p q a.0 w a.2 kept
                    (ask-Effect class_of q c w order kept.valid same.0 (ground arith)))
          ]
    ]
