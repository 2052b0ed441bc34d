-- ===== src/Tokenpool/Invariant.antt =====
-- The invariant of a pool, and that each operation of internal/tokenpool/tokenpool.go keeps it.
use durable.Base.{
  ℕ, ◌+◌, ◌-◌, ◌<◌, ◌≡◌, refl, sym, subst, ap, ◌∙◌, Bool, true, false, Option, some, Comparable,
  ltb, contains, delete_all, arith, Option-cases, inl, inr, contains-delete_all,
  delete_all-IsDistinct, append-IsDistinct, Bool-cases, ltb→lt,
}
use durable.Base.Map.{Map, get, put, get-put}
use durable.Tokenpool.{
  Class, Park, Pool, is_key, leave, unpark, vacate, proceed, take_token, park, enqueue, since_of,
  fresh_class, class_for, gate, acquire, release, clear, new,
}
use durable.Tokenpool.Views.{
  waiters_of, IsGood, IsValid, without, unpark-classes, unpark-parked, unpark-capacity,
  vacate-classes, vacate-capacity, vacate-parked, contains-without, contains-enqueue,
}

module _ {K W : Type 0} ⦃kc : Comparable K⦄ ⦃wc : Comparable W⦄ where
  pub new-IsValid : (capacity : Map K ℕ) → IsValid {W = W} (new capacity)
  unfolding new get contains
  new-IsValid capacity = record { good = λ k c h. cc; slots = λ k w. refl }

  -- A class of a valid pool may be rewritten, if its FIFO has the same members.
  put_class-IsValid :
      (p : Pool K W) (k : K) (c' : Class W)
      → IsValid p
      → IsGood p.capacity k c'
      → ((w : W) → contains c'.waiters w ≡ contains (waiters_of p k) w)
      → IsValid (record p { classes = put p.classes k c' })
  put_class-IsValid p k c' v g h = record {
    good = λ j c e. ground (arith, get-put p.classes k c' j, v.good j c);
    slots = λ j w. ground (arith, get-put p.classes k c' j, v.slots j w, h w);
  }

  pub unpark-IsValid :
      (p : Pool K W) (s : Bool) (w : W) → IsValid p → IsValid (unpark s p w (get p.parked w)).0
  unfolding contains
  unpark-IsValid p s w v = record {
    good = λ j c e. elim (Option-cases (get p.classes j)) [
      | inl n ↦ absurd (ground (arith, unpark-classes p s w j v))
      | inr (c0, n) ↦ ground (
        arith,
        unpark-classes p s w j v,
        unpark-capacity p s w,
        v.good j c0,
        delete_all-IsDistinct c0.waiters w,
      )
    ];
    slots = λ j x. elim (Option-cases (get p.classes j)) [
      | inl n ↦ ground (arith, unpark-classes p s w j v, unpark-parked p s w x, v.slots j x)
      | inr (c0, n) ↦ ground (
        arith,
        unpark-classes p s w j v,
        unpark-parked p s w x,
        v.slots j x,
        contains-delete_all c0.waiters w x,
      )
    ];
  }

  -- The pool after a grant, with the pointer to the class read.
  pub take_token-pool :
      (p : Pool K W) (k : K) (c : Class W) (w : W) (now : ℕ)
      → IsValid p
      → get p.classes k ≡ some c
      → (take_token p k c w (get p.parked w) now).0
        ≡ let q = (unpark (is_key (get p.parked w) k) p w (get p.parked w)).0 in
          record q {
            classes =
                put q.classes k
                  (record c { waiters = delete_all c.waiters w; in_use = c.in_use + 1 });
          }
  unfolding take_token
  take_token-pool p k c w now v e =
      ground (arith, unpark-classes p (is_key (get p.parked w) k) w k v)

  take_token-IsValid :
      (p : Pool K W) (k : K) (c : Class W) (w : W) (now : ℕ)
      → IsValid p
      → get p.classes k ≡ some c
      → c.in_use < c.capacity
      → IsValid (take_token p k c w (get p.parked w) now).0
  take_token-IsValid p k c w now v e lt =
      let s = is_key (get p.parked w) k in
      let q = (unpark s p w (get p.parked w)).0 in
      let d : Class W = record c { waiters = delete_all c.waiters w } in
      let at : get q.classes k ≡ some d = unpark-classes p s w k v ∙ ap (without w) e in
      let qv : IsValid q = unpark-IsValid p s w v in
      let g : IsGood q.capacity k d = qv.good k d at in
      subst IsValid (sym (take_token-pool p k c w now v e)) (
        put_class-IsValid q k (record d { in_use = c.in_use + 1 }) qv
          (record { sized = g.sized; bounded = omega arith; distinct = g.distinct })
          (λ x. ground (arith, at)))

  enqueue-IsGood :
      (capacity : Map K ℕ) (k : K) (c : Class W) (w : W)
      → IsGood capacity k c
      → IsGood capacity k (enqueue c w)
  unfolding enqueue
  enqueue-IsGood capacity k c w g = ground (arith, append-IsDistinct c.waiters w)

  -- The pool after a refusal, with the pointer to the class read.
  pub park-pool :
      (p : Pool K W) (k : K) (c : Class W) (w : W) (now : ℕ)
      → IsValid p
      → get p.classes k ≡ some c
      → (park p k c w (get p.parked w) now).0
        ≡ let q = (vacate p k w (get p.parked w)).0 in
          record q {
            classes = put q.classes k (enqueue c w);
            parked = put q.parked w (record { key = k; since = since_of (get p.parked w) now });
          }
  unfolding park
  park-pool p k c w now v e = ground (arith, vacate-classes p k w k v)

  vacate-IsGood :
      (p : Pool K W) (k : K) (w : W) (j : K) (c : Class W)
      → IsValid p
      → get (vacate p k w (get p.parked w)).0.classes j ≡ some c
      → IsGood p.capacity j c
  vacate-IsGood p k w j c v e = elim (Option-cases (get p.classes j)) [
    | inl n ↦ absurd (ground (arith, vacate-classes p k w j v))
    | inr (c0, n) ↦ ground (
      arith,
      vacate-classes p k w j v,
      v.good j c0 n,
      delete_all-IsDistinct c0.waiters w (v.good j c0 n).distinct,
    )
  ]

  park-IsValid :
      (p : Pool K W) (k : K) (c : Class W) (w : W) (now : ℕ)
      → IsValid p
      → get p.classes k ≡ some c
      → IsValid (park p k c w (get p.parked w) now).0
  unfolding contains
  park-IsValid p k c w now v e =
      let q = (vacate p k w (get p.parked w)).0 in
      let pk : Park K = record { key = k; since = since_of (get p.parked w) now } in
      subst IsValid (sym (park-pool p k c w now v e)) (record {
        good = λ j c0 h. ground (
          arith,
          get-put q.classes k (enqueue c w) j,
          vacate-capacity p k w,
          vacate-IsGood p k w j c0 v,
          enqueue-IsGood p.capacity k c w (v.good k c e),
        );
        slots = λ j x. ground (
          arith,
          get-put q.classes k (enqueue c w) j,
          vacate-classes p k w j v,
          vacate-parked p k w,
          get-put q.parked w pk x,
          contains-enqueue c w x,
          contains-without w x (get p.classes j),
          v.slots j x,
        );
      })

  -- What `class_for` leaves alone, and that the class is then there.
  pub class_for-get :
      (p : Pool K W) (k : K) (cap : ℕ)
      → get (class_for p k cap).0.classes k ≡ some (class_for p k cap).1
  unfolding class_for
  class_for-get p k cap = elim (Option-cases (get p.classes k)) [
    | inl n ↦ ground (arith, get-put p.classes k (fresh_class cap) k)
    | inr (c, n) ↦ ground arith
  ]

  pub class_for-parked :
      (p : Pool K W) (k : K) (cap : ℕ)
      → ((class_for p k cap).0.parked ≡ p.parked) × ((class_for p k cap).0.capacity ≡ p.capacity)
  unfolding class_for
  class_for-parked p k cap = ground arith

  pub class_for-IsValid :
      (p : Pool K W) (k : K) (cap : ℕ)
      → IsValid p
      → get p.capacity k ≡ some cap
      → IsValid (class_for p k cap).0
  unfolding class_for contains
  class_for-IsValid p k cap v h = elim (Option-cases (get p.classes k)) [
    | inl n ↦
        let e : (class_for p k cap).0 ≡ record p { classes = put p.classes k (fresh_class cap) } =
          ground arith in
        subst IsValid (sym e) (
          put_class-IsValid p k (fresh_class cap) v
            (record { sized = h; bounded = omega arith; distinct = tt }) (λ w. ground arith))
    | inr (c, n) ↦ let e : (class_for p k cap).0 ≡ p = ground arith in subst IsValid (sym e) v
  ]

  gate-IsValid :
      (p : Pool K W) (k : K) (cap : ℕ) (w : W) (now : ℕ)
      → IsValid p
      → get p.capacity k ≡ some cap
      → IsValid (gate p k cap w (get p.parked w) now).0
  unfolding gate
  gate-IsValid p k cap w now v h =
      let q = (class_for p k cap).0 in
      let c = (class_for p k cap).1 in
      let qv : IsValid q = class_for-IsValid p k cap v h in
      let e : get q.classes k ≡ some c = class_for-get p k cap in
      let kept : q.parked ≡ p.parked = (class_for-parked p k cap).0 in
      elim (Bool-cases (ltb c.in_use c.capacity)) [
        | inl free ↦
            subst IsValid (ground (arith, kept))
              (take_token-IsValid q k c w now qv e (ltb→lt _ _ free))
        | inr full ↦ subst IsValid (ground (arith, kept)) (park-IsValid q k c w now qv e)
      ]

  pub acquire-IsValid :
      (p : Pool K W) (k : K) (w : W) (bypass : Bool) (now : ℕ)
      → IsValid p
      → IsValid (acquire p k w bypass now).0
  unfolding acquire proceed
  acquire-IsValid p k w true now v = unpark-IsValid p false w v
  acquire-IsValid p k w false now v = elim (Option-cases (get p.capacity k)) [
    | inl n ↦ subst IsValid (ground arith) (unpark-IsValid p false w v)
    | inr (cap, n) ↦ subst IsValid (ground arith) (gate-IsValid p k cap w now v n)
  ]

  pub release-IsValid :
      (p q : Pool K W) (k : K) (kick : Option W)
      → IsValid p
      → release p k ≡ some (q, kick)
      → IsValid q
  unfolding release
  release-IsValid p q k kick v h = elim (Option-cases (get p.classes k)) [
    | inl n ↦ absurd (ground arith)
    | inr (c, n) ↦
        let g : IsGood p.capacity k c = v.good k c n in
        let e : record p { classes = put p.classes k (record c { in_use = c.in_use - 1 }) } ≡ q =
          ground arith in
        subst IsValid e (
          put_class-IsValid p k (record c { in_use = c.in_use - 1 }) v
            (record { sized = g.sized; bounded = omega arith; distinct = g.distinct })
            (λ w. ground arith))
  ]

  -- `Clear` is the closure `unpark` of `Acquire`, on its own.
  pub clear-unpark : (p : Pool K W) (w : W) → (clear p w).0 ≡ (unpark false p w (get p.parked w)).0
  unfolding clear unpark leave
  clear-unpark p w = ground arith

  pub clear-IsValid : (p : Pool K W) (w : W) → IsValid p → IsValid (clear p w).0
  clear-IsValid p w v = subst IsValid (sym (clear-unpark p w)) (unpark-IsValid p false w v)
