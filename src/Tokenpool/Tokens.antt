-- ===== src/Tokenpool/Tokens.antt =====
-- Who holds tokens and who waits, in internal/tokenpool/tokenpool.go.
use durable.Base.{
  ℕ, ◌+◌, ◌-◌, ◌≤◌, ◌≡◌, refl, subst, ap, ◌∙◌, ite, Bool, true, false, Option, none, some, List, [],
  ◌∷◌, ◌++◌, Comparable, ◌≟◌, ltb, if◌then◌else◌, contains, delete_all, arith, Option-cases, inl,
  some_inj, inr, Bool-cases,
}
use durable.Base.Map.{Map, get, get-put}
use durable.Tokenpool.{
  Class, Pool, Acquired, is_key, unpark, vacate, proceed, take_token, park, enqueue, fresh_class,
  class_for, gate, acquire, release, clear, new,
}
use durable.Tokenpool.Views.{
  waiters_of, in_use_of, IsValid, without, members, unpark-classes, vacate-classes, unpark-capacity,
  vacate-capacity,
}
use durable.Tokenpool.Invariant.{
  take_token-pool, park-pool, class_for-get, class_for-IsValid, class_for-parked, clear-unpark,
  new-IsValid,
}
use durable.Tokenpool.Wakes.{
  System, IsServed, start-IsServed, Call, acquires, releases, clears, step, run, start,
  step-IsServed,
}

module _ {W : Type 0} ⦃wc : Comparable W⦄ where
  members-without :
      (w : W) (o : Option (Class W)) → members (without w o) ≡ delete_all (members o) w
  unfolding delete_all
  members-without w none = refl
  members-without w (some c) = refl

module _ {K : Type 0} ⦃kc : Comparable K⦄ where
  -- One token of `i`, if `k` is `i` and one was taken.
  abbrev pub token : Bool → K → K → ℕ
  token held k i = if held then ite (k ≟ i) 1 0 else 0

module _ {K W : Type 0} ⦃kc : Comparable K⦄ ⦃wc : Comparable W⦄ where
  class_for-in_use :
      (p : Pool K W) (k : K) (cap : ℕ) (i : K)
      → (in_use_of (class_for p k cap).0 i ≡ in_use_of p i)
        × (waiters_of (class_for p k cap).0 i ≡ waiters_of p i)
  unfolding class_for
  class_for-in_use p k cap i = elim (Option-cases (get p.classes k)) [
    | inl n ↦ ground (arith, get-put p.classes k (fresh_class cap) i)
    | inr (c, n) ↦ ground arith
  ]

  -- Where a call of `Acquire` leaves the tokens and the FIFO of `i`, the parks aside.
  abbrev pub Acquires : Pool K W → K → W → Pool K W × Acquired W → K → Type 0
  Acquires p k w r i =
      (in_use_of r.0 i ≡ in_use_of p i + token r.1.held k i)
      × (waiters_of r.0 i ≡ (
          if r.1.granted
          then delete_all (waiters_of p i) w
          else ite (k ≟ i)
              (if contains (waiters_of p i) w then waiters_of p i else waiters_of p i ++ w ∷ [])
              (delete_all (waiters_of p i) w)))

  unpark-Acquires :
      (p : Pool K W) (k : K) (w : W) (i : K)
      → IsValid p
      → Acquires p k w (proceed p w (get p.parked w)) i
  unfolding proceed
  unpark-Acquires p k w i v = elim (Option-cases (get p.classes i)) [
    | inl n ↦ ground (arith, unpark-classes p false w i v, members-without w (get p.classes i))
    | inr (c, n) ↦ ground (arith, unpark-classes p false w i v, members-without w (get p.classes i))
  ]

  take_token-Acquires :
      (p : Pool K W) (k : K) (c : Class W) (w : W) (now : ℕ) (i : K)
      → IsValid p
      → get p.classes k ≡ some c
      → Acquires p k w (take_token p k c w (get p.parked w) now) i
  unfolding take_token
  take_token-Acquires p k c w now i v e =
      let s = is_key (get p.parked w) k in
      let q = (unpark s p w (get p.parked w)).0 in
      let c' : Class W = record c { waiters = delete_all c.waiters w; in_use = c.in_use + 1 } in
      ground (
        arith,
        take_token-pool p k c w now v e,
        get-put q.classes k c' i,
        unpark-classes p s w i v,
        members-without w (get p.classes i),
      )

  park-Acquires :
      (p : Pool K W) (k : K) (c : Class W) (w : W) (now : ℕ) (i : K)
      → IsValid p
      → get p.classes k ≡ some c
      → Acquires p k w (park p k c w (get p.parked w) now) i
  unfolding park enqueue
  park-Acquires p k c w now i v e =
      let q = (vacate p k w (get p.parked w)).0 in
      ground (
        arith,
        park-pool p k c w now v e,
        get-put q.classes k (enqueue c w) i,
        vacate-classes p k w i v,
        members-without w (get p.classes i),
      )

  gate-Acquires :
      (p : Pool K W) (k : K) (cap : ℕ) (w : W) (now : ℕ) (i : K)
      → IsValid p
      → get p.capacity k ≡ some cap
      → Acquires p k w (gate p k cap w (get p.parked w) now) i
  unfolding gate
  gate-Acquires p k cap w now i v h =
      let q = (class_for p k cap).0 in
      let c = (class_for p k cap).1 in
      let qv : IsValid q = class_for-IsValid p k cap v h in
      let e : get q.classes k ≡ some c = class_for-get p k cap in
      let kept : q.parked ≡ p.parked = (class_for-parked p k cap).0 in
      elim (Bool-cases (ltb c.in_use c.capacity)) [
        | inl free ↦
            ground (arith, kept, class_for-in_use p k cap i, take_token-Acquires q k c w now i qv e)
        | inr full ↦
            ground (arith, kept, class_for-in_use p k cap i, park-Acquires q k c w now i qv e)
      ]

  -- On every branch of Acquire in a valid pool, each key has one token more in use exactly if a
  -- token of it was taken. A caller that goes on leaves every FIFO; one that is refused keeps
  -- its slot in the FIFO of its key, or joins at the tail, and leaves every other FIFO. Nobody
  -- else moves.
  pub acquire-Acquires :
      (p : Pool K W) (k : K) (w : W) (bypass : Bool) (now : ℕ) (i : K)
      → IsValid p
      → Acquires p k w (acquire p k w bypass now) i
  unfolding acquire
  acquire-Acquires p k w true now i v = unpark-Acquires p k w i v
  acquire-Acquires p k w false now i v = elim (Option-cases (get p.capacity k)) [
    | inl n ↦ ground (arith, unpark-Acquires p k w i v)
    | inr (cap, n) ↦ ground (arith, gate-Acquires p k cap w now i v n)
  ]

  release-in_use :
      (p q : Pool K W) (k : K) (kick : Option W) (i : K)
      → release p k ≡ some (q, kick)
      → in_use_of q i + token true k i ≡ in_use_of p i
  unfolding release
  release-in_use p q k kick i h = elim (Option-cases (get p.classes k)) [
    | inl n ↦ absurd (ground arith)
    | inr (c, n) ↦ ground (arith, get-put p.classes k (record c { in_use = c.in_use - 1 }) i)
  ]

  clear-in_use :
      (p : Pool K W) (w : W) (i : K) → IsValid p → in_use_of (clear p w).0 i ≡ in_use_of p i
  clear-in_use p w i v = elim (Option-cases (get p.classes i)) [
    | inl n ↦ ground (arith, clear-unpark p w, unpark-classes p false w i v)
    | inr (c, n) ↦ ground (arith, clear-unpark p w, unpark-classes p false w i v)
  ]

  -- The tokens of `i` that one call hands out, and those that it gives back.
  abbrev pub taken : System K W → Call K W → K → ℕ
  taken s (acquires k w bypass now) i = token (acquire s.pool k w bypass now).1.held k i
  taken s (releases k) i = 0
  taken s (clears w) i = 0

  abbrev pub returned : Call K W → K → ℕ
  returned (releases k) i = token true k i
  returned (acquires k w bypass now) i = 0
  returned (clears w) i = 0

  pub step-in_use :
      (s t : System K W) (c : Call K W) (i : K)
      → IsValid s.pool
      → step s c ≡ some t
      → in_use_of t.pool i + returned c i ≡ in_use_of s.pool i + taken s c i
  unfolding step
  step-in_use s t (acquires k w bypass now) i v e =
      ground (arith, (acquire-Acquires s.pool k w bypass now i v).0)
  step-in_use s t (releases k) i v e = elim (Option-cases (release s.pool k)) [
    | inl n ↦ absurd (ground arith)
    | inr ((p, kick), n) ↦ ground (arith, release-in_use s.pool p k kick i n)
  ]
  step-in_use s t (clears w) i v e = ground (arith, clear-in_use s.pool w i v)

  -- The same over a history.
  unfoldable pub all_taken : System K W → List (Call K W) → K → ℕ
  all_taken s [] i = 0
  all_taken s (c ∷ cs) i = taken s c i + elim (step s c) [ none ↦ 0 | some t ↦ all_taken t cs i ]

  unfoldable pub all_returned : List (Call K W) → K → ℕ
  all_returned [] i = 0
  all_returned (c ∷ cs) i = returned c i + all_returned cs i

  run-in_use :
      (s t : System K W) (cs : List (Call K W)) (i : K)
      → IsValid s.pool
      → IsServed s
      → run s cs ≡ some t
      → IsValid t.pool
        × (in_use_of t.pool i + all_returned cs i ≡ in_use_of s.pool i + all_taken s cs i)
  unfolding run all_taken all_returned
  run-in_use s t [] i v served e =
      (subst (λ (u : System K W). IsValid u.pool) (some_inj e) v, ground arith)
  run-in_use s t (c ∷ cs) i v served e = elim (Option-cases (step s c)) [
    | inl n ↦ absurd (ground arith)
    | inr (u, n) ↦
        let (v', served') = step-IsServed s u c v served n in
        let (v'', eq) = run-in_use u t cs i v' served' (ground arith) in
        (v'', ground (arith, eq, step-in_use s u c i v n))
  ]

  acquire-capacity :
      (p : Pool K W) (k : K) (w : W) (bypass : Bool) (now : ℕ)
      → (acquire p k w bypass now).0.capacity ≡ p.capacity
  unfolding acquire proceed gate take_token park
  acquire-capacity p k w true now = unpark-capacity p false w
  acquire-capacity p k w false now = elim (Option-cases (get p.capacity k)) [
    | inl n ↦ ground (arith, unpark-capacity p false w)
    | inr (cap, n) ↦
        let q = (class_for p k cap).0 in
        let kept = class_for-parked p k cap in
        ground (
          arith,
          kept.0,
          kept.1,
          unpark-capacity q (is_key (get q.parked w) k) w,
          vacate-capacity q k w,
        )
  ]

  step-capacity :
      (s t : System K W) (c : Call K W) → step s c ≡ some t → t.pool.capacity ≡ s.pool.capacity
  unfolding step release
  step-capacity s t (acquires k w bypass now) e =
      ground (arith, acquire-capacity s.pool k w bypass now)
  step-capacity s t (releases k) e = ground arith
  step-capacity s t (clears w) e =
      ground (arith, clear-unpark s.pool w, unpark-capacity s.pool false w)

  run-capacity :
      (s t : System K W) (cs : List (Call K W))
      → run s cs ≡ some t
      → t.pool.capacity ≡ s.pool.capacity
  unfolding run
  run-capacity s t [] e = ground arith
  run-capacity s t (c ∷ cs) e = elim (Option-cases (step s c)) [
    | inl n ↦ absurd (ground arith)
    | inr (u, n) ↦ ground (arith, run-capacity u t cs, step-capacity s u c n)
  ]

  in_use-le :
      (p : Pool K W) (i : K) (cap : ℕ)
      → IsValid p
      → get p.capacity i ≡ some cap
      → in_use_of p i ≤ cap
  in_use-le p i cap v h = elim (Option-cases (get p.classes i)) [
    | inl n ↦ ground arith
    | inr (c, n) ↦ ground (arith, (v.good i c n).sized, (v.good i c n).bounded)
  ]

  -- In any history of a new pool that does not panic, the tokens of a limited key that Acquire
  -- handed out exceed those that Release took back by at most the capacity of the key.
  pub outstanding-le-capacity :
      (capacity : Map K ℕ) (t : System K W) (cs : List (Call K W)) (i : K) (cap : ℕ)
      → get capacity i ≡ some cap
      → run (start capacity) cs ≡ some t
      → all_taken (start capacity) cs i ≤ cap + all_returned cs i
  unfolding new get
  outstanding-le-capacity capacity t cs i cap h e =
      let s : System K W = start capacity in
      let (v, eq) = run-in_use s t cs i (new-IsValid capacity) (start-IsServed capacity) e in
      omega (
        arith,
        eq,
        in_use-le t.pool i cap v (ap (λ (m : Map K ℕ). get m i) (run-capacity s t cs e) ∙ h),
      )
