-- ===== src/Tokenpool/Wakes.antt =====
-- The kicks of internal/tokenpool/tokenpool.go: a free token never strands a queue.
use durable.Base.{
  ℕ, ◌+◌, ◌-◌, ◌≡◌, ◌≢◌, ◌⊎◌, subst, Bool, true, false, Option, none, some, List, [], ◌∷◌, ◌++◌,
  Comparable, ◌≟◌, ltb, if◌then◌else◌, contains, delete_all, arith, Option-cases, inl, inr,
  contains-delete_all, Bool-cases, some_inj, contains-head?, contains-append_lists,
}
use durable.Base.Map.{Map, get, delete, get-put}
use durable.Tokenpool.{
  Class, Pool, is_key, leave, unpark, vacate, next_waiter, add_kick, proceed, take_token, park,
  enqueue, fresh_class, class_for, gate, acquire, release, clear, new,
}
use durable.Tokenpool.Views.{waiters_of, due, IsValid, leave-classes, unpark-classes}
use durable.Tokenpool.Invariant.{
  take_token-pool, park-pool, class_for-get, class_for-IsValid, class_for-parked, acquire-IsValid,
  release-IsValid, clear-IsValid, clear-unpark,
}

-- The pool, and the wakes that it has named and that have not yet led to a call of the waiter.
pub record System (K W : Type 0) : Type 0 where
  pub pool : Pool K W
  pub owed : List W

pub data Call (K W : Type 0) : Type 0 where
  acquires : K → W → Bool → ℕ → Call K W
  releases : K → Call K W
  clears : W → Call K W

module _ {W : Type 0} ⦃wc : Comparable W⦄ where
  contains-add_kick :
      (xs : List W) (o : Option W) (x : W)
      → contains (add_kick xs o) x ≡ (if contains xs x then true else contains (add_kick [] o) x)
  unfolding contains
  contains-add_kick xs none x = ground arith
  contains-add_kick xs (some y) x = ground (arith, contains-append_lists xs (y ∷ []) x)

module _ {K W : Type 0} ⦃kc : Comparable K⦄ ⦃wc : Comparable W⦄ where
  -- A woken waiter answers by `Acquire` or `Clear`. `none` is the panic of `Release`.
  unfoldable pub step : System K W → Call K W → Option (System K W)
  step s (acquires k w bypass now) =
      let (p, a) = acquire s.pool k w bypass now in
      some (record { pool = p; owed = delete_all s.owed w ++ a.kicks })
  step s (releases k) = elim (release s.pool k) [
    | none ↦ none
    | some (p, kick) ↦ some (record { pool = p; owed = add_kick s.owed kick })
  ]
  step s (clears w) =
      let (p, kick) = clear s.pool w in
      some (record { pool = p; owed = add_kick (delete_all s.owed w) kick })

  unfoldable pub run : System K W → List (Call K W) → Option (System K W)
  run s [] = some s
  run s (c ∷ cs) = elim (step s c) [ none ↦ none | some t ↦ run t cs ]

  -- Wherever a token is free and somebody waits, the head of the FIFO has a wake on its way.
  abbrev pub IsServed : System K W → Type 0
  IsServed s = (k : K) (x : W) → due s.pool k ≡ some x → contains s.owed x ≡ true

  -- Who is due after a call of `w` was due before and is not `w`, or is kicked.
  abbrev Serves : Pool K W → W → Pool K W → List W → K → Type 0
  Serves p w q kicks i =
      (x : W) → due q i ≡ some x → ((w ≢ x) × (due p i ≡ some x)) ⊎ (contains kicks x ≡ true)

  due-waits : (p : Pool K W) (i : K) (x : W) → due p i ≡ some x → contains (waiters_of p i) x ≡ true
  unfolding next_waiter contains
  due-waits p i x h = elim (Option-cases (get p.classes i)) [
    | inl n ↦ absurd (ground arith)
    | inr (c, n) ↦ ground (arith, contains-head? c.waiters x)
  ]

  -- A class that `w` does not stand in is due as before.
  unpark-Serves :
      (p : Pool K W) (s : Bool) (w : W) (i : K)
      → IsValid p
      → (s ≡ true → is_key (get p.parked w) i ≡ false)
      → Serves p w (unpark s p w (get p.parked w)).0 (unpark s p w (get p.parked w)).1 i
  unfolding unpark leave contains
  unpark-Serves p s w i v h x d = elim (Option-cases (get p.parked w)) [
    | inl n ↦ ground (arith, v.slots i x, due-waits p i x)
    | inr (pk, n) ↦ elim (pk.key ≟ i) [
      | yes e ↦ elim (Option-cases (get p.classes i)) [
        | inl m ↦
            absurd
              (ground (arith, leave-classes s (record p { parked = delete p.parked w }) pk.key w i))
        | inr (c, m) ↦
            ground (arith, h, leave-classes s (record p { parked = delete p.parked w }) pk.key w i)
      ]
      | no e ↦ ground (
        arith,
        leave-classes s (record p { parked = delete p.parked w }) pk.key w i,
        v.slots i x,
        due-waits p i x,
      )
    ]
  ]

  -- The kicks of a grant: those of `unpark`, then the cascade on the key itself.
  take_token-kicks :
      (p : Pool K W) (k : K) (c : Class W) (w : W) (now : ℕ)
      → IsValid p
      → get p.classes k ≡ some c
      → (take_token p k c w (get p.parked w) now).1.kicks
        ≡ add_kick
            (unpark (is_key (get p.parked w) k) p w (get p.parked w)).1
            (next_waiter (record c { waiters = delete_all c.waiters w; in_use = c.in_use + 1 }))
  unfolding take_token
  take_token-kicks p k c w now v e =
      ground (arith, unpark-classes p (is_key (get p.parked w) k) w k v)

  take_token-Serves :
      (p : Pool K W) (k : K) (c : Class W) (w : W) (now : ℕ) (i : K)
      → IsValid p
      → get p.classes k ≡ some c
      → Serves p w
          (take_token p k c w (get p.parked w) now).0
          (take_token p k c w (get p.parked w) now).1.kicks
          i
  unfolding contains
  take_token-Serves p k c w now i v e x d =
      let s = is_key (get p.parked w) k in
      let q = (unpark s p w (get p.parked w)).0 in
      let c' : Class W = record c { waiters = delete_all c.waiters w; in_use = c.in_use + 1 } in
      elim (k ≟ i) [
        | yes same ↦ inr (
            ground (
              arith,
              take_token-kicks p k c w now v e,
              take_token-pool p k c w now v e,
              get-put q.classes k c' i,
              contains-add_kick (unpark s p w (get p.parked w)).1 (next_waiter c') x,
            ))
        | no other ↦ ground (
          arith,
          take_token-kicks p k c w now v e,
          take_token-pool p k c w now v e,
          get-put q.classes k c' i,
          contains-add_kick (unpark s p w (get p.parked w)).1 (next_waiter c') x,
          unpark-Serves p s w i v (λ h. ground arith) x,
        )
      ]

  vacate-Serves :
      (p : Pool K W) (k : K) (w : W) (i : K)
      → IsValid p
      → k ≢ i
      → Serves p w (vacate p k w (get p.parked w)).0 (vacate p k w (get p.parked w)).1 i
  unfolding vacate leave contains
  vacate-Serves p k w i v h x d = elim (Option-cases (get p.parked w)) [
    | inl n ↦ ground (arith, v.slots i x, due-waits p i x)
    | inr (pk, n) ↦ elim (pk.key ≟ i) [
      | yes e ↦ elim (Option-cases (get p.classes i)) [
        | inl m ↦ absurd (ground (arith, leave-classes false p pk.key w i))
        | inr (c, m) ↦ ground (arith, h, leave-classes false p pk.key w i)
      ]
      | no e ↦ ground (arith, leave-classes false p pk.key w i, v.slots i x, due-waits p i x)
    ]
  ]

  park-kicks :
      (p : Pool K W) (k : K) (c : Class W) (w : W) (now : ℕ)
      → (park p k c w (get p.parked w) now).1.kicks ≡ (vacate p k w (get p.parked w)).1
  unfolding park
  park-kicks p k c w now = ground arith

  -- The key itself is out of tokens, so nobody is due on it.
  park-Serves :
      (p : Pool K W) (k : K) (c : Class W) (w : W) (now : ℕ) (i : K)
      → IsValid p
      → get p.classes k ≡ some c
      → ltb c.in_use c.capacity ≡ false
      → Serves p w
          (park p k c w (get p.parked w) now).0
          (park p k c w (get p.parked w) now).1.kicks
          i
  unfolding next_waiter enqueue
  park-Serves p k c w now i v e full x d =
      let q = (vacate p k w (get p.parked w)).0 in
      elim (k ≟ i) [
        | yes same ↦
            absurd (ground (arith, park-pool p k c w now v e, get-put q.classes k (enqueue c w) i))
        | no other ↦ ground (
          arith,
          park-kicks p k c w now,
          park-pool p k c w now v e,
          get-put q.classes k (enqueue c w) i,
          vacate-Serves p k w i v other x,
        )
      ]

  class_for-due : (p : Pool K W) (k : K) (cap : ℕ) (i : K) → due (class_for p k cap).0 i ≡ due p i
  unfolding class_for next_waiter
  class_for-due p k cap i = elim (Option-cases (get p.classes k)) [
    | inl n ↦ ground (arith, get-put p.classes k (fresh_class cap) i)
    | inr (c, n) ↦ ground arith
  ]

  gate-Serves :
      (p : Pool K W) (k : K) (cap : ℕ) (w : W) (now : ℕ) (i : K)
      → IsValid p
      → get p.capacity k ≡ some cap
      → Serves p w
          (gate p k cap w (get p.parked w) now).0
          (gate p k cap w (get p.parked w) now).1.kicks
          i
  unfolding gate
  gate-Serves p k cap w now i v h x d =
      let q = (class_for p k cap).0 in
      let c = (class_for p k cap).1 in
      let qv : IsValid q = class_for-IsValid p k cap v h in
      let e : get q.classes k ≡ some c = class_for-get p k cap in
      let kept : q.parked ≡ p.parked = (class_for-parked p k cap).0 in
      elim (Bool-cases (ltb c.in_use c.capacity)) [
        | inl free ↦
            ground (arith, kept, take_token-Serves q k c w now i qv e x, class_for-due p k cap i)
        | inr full ↦
            ground (arith, kept, park-Serves q k c w now i qv e full x, class_for-due p k cap i)
      ]

  acquire-Serves :
      (p : Pool K W) (k : K) (w : W) (bypass : Bool) (now : ℕ) (i : K)
      → IsValid p
      → Serves p w (acquire p k w bypass now).0 (acquire p k w bypass now).1.kicks i
  unfolding acquire proceed
  acquire-Serves p k w true now i v x d =
      unpark-Serves p false w i v (λ h. absurd (ground arith)) x d
  acquire-Serves p k w false now i v x d = elim (Option-cases (get p.capacity k)) [
    | inl n ↦ ground (arith, unpark-Serves p false w i v (λ h. absurd (ground arith)) x)
    | inr (cap, n) ↦ ground (arith, gate-Serves p k cap w now i v n x)
  ]

  clear-kicks :
      (p : Pool K W) (w : W) → add_kick [] (clear p w).1 ≡ (unpark false p w (get p.parked w)).1
  unfolding clear unpark leave
  clear-kicks p w = ground arith

  clear-Serves :
      (p : Pool K W) (w : W) (i : K)
      → IsValid p
      → Serves p w (clear p w).0 (add_kick [] (clear p w).1) i
  clear-Serves p w i v x d = ground (
    arith,
    clear-kicks p w,
    clear-unpark p w,
    unpark-Serves p false w i v (λ h. absurd (ground arith)) x,
  )

  release-due :
      (p q : Pool K W) (k : K) (kick : Option W) (i : K) (x : W)
      → release p k ≡ some (q, kick)
      → due q i ≡ some x
      → (due p i ≡ some x) ⊎ (kick ≡ some x)
  unfolding release
  release-due p q k kick i x h d = elim (Option-cases (get p.classes k)) [
    | inl n ↦ absurd (ground arith)
    | inr (c, n) ↦ ground (arith, get-put p.classes k (record c { in_use = c.in_use - 1 }) i)
  ]

  -- Each call keeps the pool valid, and no free token is left with a FIFO whose head has no wake
  -- on its way.
  pub step-IsServed :
      (s t : System K W) (c : Call K W)
      → IsValid s.pool
      → IsServed s
      → step s c ≡ some t
      → IsValid t.pool × IsServed t
  unfolding step contains
  step-IsServed s t (acquires k w bypass now) v served e =
      let (p, a) = acquire s.pool k w bypass now in
      (
        subst (λ (u : System K W). IsValid u.pool) (some_inj e)
            (acquire-IsValid s.pool k w bypass now v),
        λ i x d. ground (
          arith,
          acquire-Serves s.pool k w bypass now i v x,
          served i x,
          contains-append_lists (delete_all s.owed w) a.kicks x,
          contains-delete_all s.owed w x,
        ),
      )
  step-IsServed s t (releases k) v served e = elim (Option-cases (release s.pool k)) [
    | inl n ↦ absurd (ground arith)
    | inr ((p, kick), n) ↦ (
      let e' : p ≡ t.pool = ground arith in subst IsValid e' (release-IsValid s.pool p k kick v n),
      λ i x d.
          ground
            (arith, release-due s.pool p k kick i x n, served i x, contains-add_kick s.owed kick x),
    )
  ]
  step-IsServed s t (clears w) v served e = (
    subst (λ (u : System K W). IsValid u.pool) (some_inj e) (clear-IsValid s.pool w v),
    λ i x d. ground (
      arith,
      clear-Serves s.pool w i v x,
      served i x,
      contains-add_kick (delete_all s.owed w) (clear s.pool w).1 x,
      contains-delete_all s.owed w x,
    ),
  )

  -- Let every kick be delivered and answered by a call of Acquire or Clear of that waiter. Then
  -- any history of Acquire, Release and Clear that does not panic keeps the pool valid (no
  -- class above its capacity, no FIFO with a repetition, a waiter in the FIFO of exactly the
  -- key that it is parked on), and keeps a kick on its way to the head of every FIFO whose key
  -- has a free token.
  pub run-IsServed :
      (s t : System K W) (cs : List (Call K W))
      → IsValid s.pool
      → IsServed s
      → run s cs ≡ some t
      → IsValid t.pool × IsServed t
  unfolding run
  run-IsServed s t [] v served e =
      subst (λ (u : System K W). IsValid u.pool × IsServed u) (some_inj e) (v, served)
  run-IsServed s t (c ∷ cs) v served e = elim (Option-cases (step s c)) [
    | inl n ↦ absurd (ground arith)
    | inr (u, n) ↦
        let (v', served') = step-IsServed s u c v served n in
        run-IsServed u t cs v' served' (ground arith)
  ]

  abbrev pub start : Map K ℕ → System K W
  start capacity = record { pool = new capacity; owed = [] }

  pub start-IsServed : (capacity : Map K ℕ) → let s : System K W = start capacity in IsServed s
  unfolding new get
  start-IsServed capacity k x d = absurd (ground arith)
