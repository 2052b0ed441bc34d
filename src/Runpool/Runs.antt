-- ===== src/Runpool/Runs.antt =====
-- Histories of calls of internal/runpool/runpool.go, and the wakes that they name.
use durable.Base.{
  ℕ, ◌≤◌, ◌≡◌, ◌≢◌, ◌⊎◌, refl, sym, subst, ◌∙◌, true, false, none, some, Option, List, [], ◌∷◌,
  Comparable, arith, Bool-cases, Option-cases, inl, inr, is_some, contains, delete_all,
  contains-delete_all,
}
use durable.Base.Map.{Map, get, get-delete}
use durable.Base.Order.{Ordered}
use durable.Runpool.{Class, Pool, new, class_for, admit, acquire, forget, hold, release, clear}
use durable.Runpool.Invariant.{IsValid, Changes-IsValid, in_use_of}
use durable.Runpool.Takes.{class_for-Changes, class_for-keeps}
use durable.Runpool.Asks.{Effect, due, is_parked}
use durable.Runpool.Effects.{new-IsValid, release-total, clear-total, release-Effect, clear-Effect}
use durable.Runpool.Leaves.{held-Changes}
use durable.Runpool.Wakes.{
  Quiet, admit-Quiet, Served, acquire-Served, Quiet-same, Quiet-Served, Effect-Served,
}

-- The calls after recovery. The key of a member is a function of it: the class of its Run.
pub data Call (W O : Type 0) : Type 0 where
  admits : W → O → ℕ → Call W O
  acquires : W → O → Call W O
  releases : W → Call W O
  clears : W → Call W O

-- The calls of recovery: `Admit` of a Run that had not started, and `Hold` of one that had.
pub data Entry (W O : Type 0) : Type 0 where
  returns : W → O → ℕ → Entry W O
  keeps : W → Entry W O

-- The pool, and the members whom it has named and who have not called since.
pub record System (K W O : Type 0) : Type 0 where
  pub pool : Pool K W O
  pub owed : List W

module _ {W : Type 0} ⦃wc : Comparable W⦄ where
  -- `owed`, once `w` has called and been told to wake `kick`.
  unfoldable pub called : List W → W → Option W → List W
  called owed w none = delete_all owed w
  called owed w (some x) = x ∷ delete_all owed w

  contains-called :
      (owed : List W) (w : W) (kick : Option W) (x : W)
      → (((w ≢ x) × (contains owed x ≡ true)) ⊎ (kick ≡ some x))
      → contains (called owed w kick) x ≡ true
  unfolding contains called
  contains-called owed w none x h = ground (arith, contains-delete_all owed w x)
  contains-called owed w (some y) x h = ground (arith, contains-delete_all owed w x)

module _ {K W O : Type 0} ⦃kc : Comparable K⦄ ⦃wc : Comparable W⦄ ⦃oc : Ordered O⦄
    (class_of : W → K) where
  unfoldable pub step : System K W O → Call W O → Option (System K W O)
  step s (admits w order max_pending) =
      some (record s { pool = (admit s.pool (class_of w) w order max_pending).0 })
  step s (acquires w order) =
      let (p, granted, kick) = acquire s.pool (class_of w) w order in
      some (record { pool = p; owed = called s.owed w kick })
  step s (releases w) = elim (release s.pool w) [
    | none ↦ none
    | some (p, kick) ↦ some (record { pool = p; owed = called s.owed w kick })
  ]
  step s (clears w) = elim (clear s.pool w) [
    | none ↦ none
    | some (p, kick) ↦ some (record { pool = p; owed = called s.owed w kick })
  ]

  unfoldable pub run : System K W O → List (Call W O) → Option (System K W O)
  run s [] = some s
  run s (c ∷ cs) = elim (step s c) [ none ↦ none | some t ↦ run t cs ]

  -- A parked member for whom capacity is free has a wake on its way.
  abbrev pub IsServed : System K W O → Type 0
  IsServed s =
      (k : K) (x : W) → due s.pool k ≡ some x → is_parked s.pool x ≡ true → contains s.owed x ≡ true

  -- No class has come to hold more than its capacity, unless it held that much before.
  pub record Bounds (p q : Pool K W O) : Type 0 where
    pub capacity : q.capacity ≡ p.capacity
    pub bounded :
        (k : K) (c : Class W O)
        → get q.classes k ≡ some c
        → (c.in_use ≤ in_use_of p k) ⊎ (c.in_use ≤ c.capacity)

  pub record IsSound (s : System K W O) : Type 0 where
    pub valid : IsValid class_of s.pool
    pub served : IsServed s

  Bounds-same : (p : Pool K W O) → Bounds p p
  Bounds-same p = record { capacity = refl; bounded = λ k c e. inl (ground arith) }

  Bounds-trans :
      (p q r : Pool K W O)
      → IsValid class_of q
      → IsValid class_of r
      → Bounds p q
      → Bounds q r
      → Bounds p r
  Bounds-trans p q r qv rv h j = record {
    capacity = j.capacity ∙ h.capacity;
    bounded = λ k c e. elim (Option-cases (get q.classes k)) [
      | inl n ↦ inr (ground (arith, j.bounded k c))
      | inr (d, n) ↦
          ground (arith, j.bounded k c, h.bounded k d, qv.sized k d, rv.sized k c, j.capacity)
    ];
  }

  Served-IsSound :
      (s : System K W O) (q : Pool K W O) (w : W) (kick : Option W)
      → IsSound s
      → Served class_of s.pool q w kick
      → IsSound (record { pool = q; owed = called s.owed w kick }) × Bounds s.pool q
  Served-IsSound s q w kick v h = (
    record {
      valid = h.valid;
      served =
          λ k x d o. contains-called s.owed w kick x (ground (arith, h.serves k x, v.served k x));
    },
    record { capacity = h.capacity; bounded = h.bounded },
  )

  Quiet-IsSound :
      (s : System K W O) (q : Pool K W O)
      → IsSound s
      → Quiet class_of s.pool q
      → IsSound (record s { pool = q }) × Bounds s.pool q
  Quiet-IsSound s q v h = (
    record {
      valid = h.valid;
      served = λ k x d o. v.served k x (h.due_before k x d o) (ground (arith, h.parked));
    },
    record { capacity = h.capacity; bounded = λ k c e. inl (ground (arith, h.in_use k)) },
  )

  -- The change of a `Release` or a `Clear`.
  departed-Served :
      (p q : Pool K W O) (w : W) (kick : Option W)
      → IsValid class_of p
      → ((q ≡ p) × (is_parked p w ≡ false) × (kick ≡ none)) ⊎ Effect class_of p q w kick
      → Served class_of p q w kick
  departed-Served p q w kick v (inl (same, n, quiet)) =
      subst (λ o. Served class_of p q w o) (sym quiet)
        (subst (λ r. Served class_of p r w none) (sym same)
          (Quiet-Served class_of p p w (Quiet-same class_of p v) n))
  departed-Served p q w kick v (inr e) =
      Effect-Served class_of p p q w kick (Quiet-same class_of p v) e

  -- Each call goes through and leaves the pool sound.
  pub step-IsSound :
      (s : System K W O) (c : Call W O)
      → IsSound s
      → (t : System K W O) × (step s c ≡ some t) × IsSound t × Bounds s.pool t.pool
  unfolding step
  step-IsSound s (admits w order max_pending) v =
      let q = (admit s.pool (class_of w) w order max_pending).0 in
      let r = Quiet-IsSound s q v (admit-Quiet class_of s.pool w order max_pending v.valid) in
      (record s { pool = q }, refl, r.0, r.1)
  step-IsSound s (acquires w order) v =
      let a = acquire s.pool (class_of w) w order in
      let r = Served-IsSound s a.0 w a.2 v (acquire-Served class_of s.pool w order v.valid) in
      (record { pool = a.0; owed = called s.owed w a.2 }, refl, r.0, r.1)
  step-IsSound s (releases w) v = elim (Option-cases (release s.pool w)) [
    | inl n ↦ absurd (ground (arith, release-total class_of s.pool w v.valid))
    | inr ((q, kick), n) ↦
        let e = release-Effect class_of s.pool q w kick v.valid n in
        let r = Served-IsSound s q w kick v (departed-Served s.pool q w kick v.valid e) in
        (record { pool = q; owed = called s.owed w kick }, ground arith, r.0, r.1)
  ]
  step-IsSound s (clears w) v = elim (Option-cases (clear s.pool w)) [
    | inl n ↦ absurd (ground (arith, clear-total class_of s.pool w v.valid))
    | inr ((q, kick), n) ↦
        let e = clear-Effect class_of s.pool q w kick v.valid n in
        let r = Served-IsSound s q w kick v (departed-Served s.pool q w kick v.valid e) in
        (record { pool = q; owed = called s.owed w kick }, ground arith, r.0, r.1)
  ]

  pub run-IsSound :
      (s : System K W O) (cs : List (Call W O))
      → IsSound s
      → (t : System K W O) × (run s cs ≡ some t) × IsSound t × Bounds s.pool t.pool
  unfolding run
  run-IsSound s [] v = (s, refl, v, Bounds-same s.pool)
  run-IsSound s (c ∷ cs) v =
      let (t, e, tv, b) = step-IsSound s c v in
      let (u, e', uv, b') = run-IsSound t cs tv in
      (u, ground arith, uv, Bounds-trans s.pool t.pool u.pool tv.valid uv.valid b b')

  pub hold-IsValid :
      (p : Pool K W O) (w : W) → IsValid class_of p → IsValid class_of (hold p (class_of w) w)
  unfolding hold
  hold-IsValid p w v = elim (Option-cases (class_for p (class_of w))) [
    | inl n ↦ rw (n, hold) v
    | inr ((q, c), n) ↦
        let same = class_for-keeps class_of p q c w n in
        let qv : IsValid class_of q =
          Changes-IsValid class_of p q w c v (class_for-Changes class_of p q c w v n) in
        elim (Bool-cases (is_some (get q.holders w))) [
          | inl h ↦ rw (n, hold, h) qv
          | inr h ↦
              rw (n, hold, h)
                (Changes-IsValid class_of q _ w _ qv
                  (held-Changes class_of q c w qv same.0 (ground arith)))
        ]
  ]

  hold-unparked :
      (p : Pool K W O) (w x : W)
      → is_parked p x ≡ false
      → is_parked (hold p (class_of w) w) x ≡ false
  unfolding hold forget class_for
  hold-unparked p w x h = ground (arith, get-delete p.parked w x)

  -- The calls of recovery, on a pool that has just been made.
  unfoldable pub recover : Pool K W O → List (Entry W O) → Pool K W O
  recover p [] = p
  recover p (returns w order max_pending ∷ es) =
      recover (admit p (class_of w) w order max_pending).0 es
  recover p (keeps w ∷ es) = recover (hold p (class_of w) w) es

  recover-IsValid :
      (p : Pool K W O) (es : List (Entry W O))
      → IsValid class_of p
      → ((x : W) → is_parked p x ≡ false)
      → IsValid class_of (recover p es) × ((x : W) → is_parked (recover p es) x ≡ false)
  unfolding recover
  recover-IsValid p [] v n = (v, n)
  recover-IsValid p (returns w order max_pending ∷ es) v n =
      let q = admit-Quiet class_of p w order max_pending v in
      recover-IsValid (admit p (class_of w) w order max_pending).0 es q.valid
        (λ x. ground (arith, q.parked, n x))
  recover-IsValid p (keeps w ∷ es) v n =
      recover-IsValid (hold p (class_of w) w) es (hold-IsValid p w v)
        (λ x. hold-unparked p w x (n x))

  abbrev pub recovered : Map K ℕ → List (Entry W O) → System K W O
  recovered capacity es = record { pool = recover (new capacity) es; owed = [] }

  -- Let the class of a member be a function of it. After a recovery by Admit and Hold of a new
  -- pool, every history of Admit, Acquire, Release and Clear goes through, never following a
  -- nil class. It leaves a valid pool: a line is sorted by the orders and holds each member of
  -- the class that is pending and not set aside, once; as many tokens are in use as the class
  -- has holders. The head of a line that was refused while its class now has free capacity has
  -- been named to be woken and has not called since. No class has more holders than its
  -- capacity, unless recovery had left it with that many.
  pub run-recovered :
      (capacity : Map K ℕ) (es : List (Entry W O)) (cs : List (Call W O))
      → (t : System K W O) × (run (recovered capacity es) cs ≡ some t)
        × IsSound t
        × Bounds (recover (new capacity) es) t.pool
  unfolding new get
  run-recovered capacity es cs =
      let r = recover-IsValid (new capacity) es (new-IsValid class_of capacity) (λ x. refl) in
      run-IsSound (recovered capacity es) cs
        (record { valid = r.0; served = λ k x d o. absurd (ground (arith, r.1 x)) })
