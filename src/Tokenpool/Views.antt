-- ===== src/Tokenpool/Views.antt =====
-- What the helpers of `Acquire` do to each class of internal/tokenpool/tokenpool.go.
use durable.Base.{
  ℕ, ◌≤◌, ◌≡◌, ite, Bool, true, false, Option, none, some, List, [], Comparable, ◌≟◌, contains,
  delete_all, IsDistinct, arith, Option-cases, inl, inr, delete_all_absent, contains-delete_all,
  contains-append,
}
use durable.Base.Map.{Map, get, delete, get-put, get-delete}
use durable.Tokenpool.{Class, Pool, is_key, leave, unpark, vacate, next_waiter, enqueue}

module _ {W : Type 0} ⦃wc : Comparable W⦄ where
  -- A class without `w`.
  abbrev pub without : W → Option (Class W) → Option (Class W)
  without w none = none
  without w (some c) = some (record c { waiters = delete_all c.waiters w })

  abbrev pub members : Option (Class W) → List W
  members none = []
  members (some c) = c.waiters

  pub contains-without :
      (w x : W) (o : Option (Class W))
      → contains (members (without w o)) x ≡ ite (w ≟ x) false (contains (members o) x)
  unfolding contains
  contains-without w x none = ground arith
  contains-without w x (some c) = contains-delete_all c.waiters w x

  pub contains-enqueue :
      (c : Class W) (w x : W)
      → contains (enqueue c w).waiters x ≡ ite (w ≟ x) true (contains c.waiters x)
  unfolding enqueue
  contains-enqueue c w x = ground (arith, contains-append c.waiters w x)

module _ {K W : Type 0} ⦃kc : Comparable K⦄ ⦃wc : Comparable W⦄ where
  -- The FIFO of a key, empty before its first use.
  abbrev pub waiters_of : Pool K W → K → List W
  waiters_of p k = members (get p.classes k)

  abbrev pub in_use_of : Pool K W → K → ℕ
  in_use_of p k = elim (get p.classes k) [ none ↦ 0 | some c ↦ c.in_use ]

  -- The waiter that is due a wake: the head of the FIFO, while a token is free.
  abbrev pub due : Pool K W → K → Option W
  due p k = elim (get p.classes k) [ none ↦ none | some c ↦ next_waiter c ]

  pub record IsGood (capacity : Map K ℕ) (k : K) (c : Class W) : Type 0 where
    pub sized : get capacity k ≡ some c.capacity
    pub bounded : c.in_use ≤ c.capacity
    pub distinct : IsDistinct c.waiters

  -- Each class keeps its key's capacity, holds no more tokens than that, and has a FIFO without
  -- repetitions; and a waiter stands in a FIFO exactly if it is parked on that key.
  pub record IsValid (p : Pool K W) : Type 0 where
    pub good : (k : K) (c : Class W) → get p.classes k ≡ some c → IsGood p.capacity k c
    pub slots : (k : K) (w : W) → contains (waiters_of p k) w ≡ is_key (get p.parked w) k

  pub leave-classes :
      (s : Bool) (p : Pool K W) (j : K) (w : W) (i : K)
      → get (leave s p j w).0.classes i
        ≡ ite (j ≟ i) (without w (get p.classes i)) (get p.classes i)
  unfolding leave
  leave-classes s p j w i = elim (Option-cases (get p.classes j)) [
    | inl e ↦ ground arith
    | inr (c, e) ↦
        ground (arith, get-put p.classes j (record c { waiters = delete_all c.waiters w }) i)
  ]

  pub leave-parked : (s : Bool) (p : Pool K W) (j : K) (w : W) → (leave s p j w).0.parked ≡ p.parked
  unfolding leave
  leave-parked s p j w = ground arith

  pub leave-capacity :
      (s : Bool) (p : Pool K W) (j : K) (w : W) → (leave s p j w).0.capacity ≡ p.capacity
  unfolding leave
  leave-capacity s p j w = ground arith

  -- In a valid pool a waiter leaves every FIFO, since it stands in its own alone.
  pub unpark-classes :
      (p : Pool K W) (s : Bool) (w : W) (i : K)
      → IsValid p
      → get (unpark s p w (get p.parked w)).0.classes i ≡ without w (get p.classes i)
  unfolding unpark
  unpark-classes p s w i v = elim (Option-cases (get p.classes i)) [
    | inl e ↦ elim (Option-cases (get p.parked w)) [
      | inl n ↦ ground arith
      | inr (pk, n) ↦
          ground (arith, leave-classes s (record p { parked = delete p.parked w }) pk.key w i)
    ]
    | inr (c, e) ↦ elim (Option-cases (get p.parked w)) [
      | inl n ↦ ground (arith, v.slots i w, delete_all_absent c.waiters w)
      | inr (pk, n) ↦ ground (
        arith,
        leave-classes s (record p { parked = delete p.parked w }) pk.key w i,
        v.slots i w,
        delete_all_absent c.waiters w,
      )
    ]
  ]

  pub unpark-parked :
      (p : Pool K W) (s : Bool) (w x : W)
      → get (unpark s p w (get p.parked w)).0.parked x ≡ ite (w ≟ x) none (get p.parked x)
  unfolding unpark
  unpark-parked p s w x = elim (Option-cases (get p.parked w)) [
    | inl n ↦ ground arith
    | inr (pk, n) ↦ ground (
      arith,
      leave-parked s (record p { parked = delete p.parked w }) pk.key w,
      get-delete p.parked w x,
    )
  ]

  pub unpark-capacity :
      (p : Pool K W) (s : Bool) (w : W) → (unpark s p w (get p.parked w)).0.capacity ≡ p.capacity
  unfolding unpark
  unpark-capacity p s w = elim (Option-cases (get p.parked w)) [
    | inl n ↦ ground arith
    | inr (pk, n) ↦
        ground (arith, leave-capacity s (record p { parked = delete p.parked w }) pk.key w)
  ]

  -- To park on `k`, a waiter leaves every FIFO but that of `k`.
  pub vacate-classes :
      (p : Pool K W) (k : K) (w : W) (i : K)
      → IsValid p
      → get (vacate p k w (get p.parked w)).0.classes i
        ≡ ite (k ≟ i) (get p.classes i) (without w (get p.classes i))
  unfolding vacate
  vacate-classes p k w i v = elim (Option-cases (get p.classes i)) [
    | inl e ↦ elim (Option-cases (get p.parked w)) [
      | inl n ↦ ground arith
      | inr (pk, n) ↦ ground (arith, leave-classes false p pk.key w i)
    ]
    | inr (c, e) ↦ elim (Option-cases (get p.parked w)) [
      | inl n ↦ ground (arith, v.slots i w, delete_all_absent c.waiters w)
      | inr (pk, n) ↦
          ground
            (arith, leave-classes false p pk.key w i, v.slots i w, delete_all_absent c.waiters w)
    ]
  ]

  pub vacate-capacity :
      (p : Pool K W) (k : K) (w : W) → (vacate p k w (get p.parked w)).0.capacity ≡ p.capacity
  unfolding vacate
  vacate-capacity p k w = elim (Option-cases (get p.parked w)) [
    | inl n ↦ ground arith
    | inr (pk, n) ↦ ground (arith, leave-capacity false p pk.key w)
  ]

  pub vacate-parked :
      (p : Pool K W) (k : K) (w : W) → (vacate p k w (get p.parked w)).0.parked ≡ p.parked
  unfolding vacate
  vacate-parked p k w = elim (Option-cases (get p.parked w)) [
    | inl n ↦ ground arith
    | inr (pk, n) ↦ ground (arith, leave-parked false p pk.key w)
  ]
