-- ===== src/Tokenpool/Outcome.antt =====
-- Which branch `Acquire` of internal/tokenpool/tokenpool.go takes, and the park that it leaves.
use durable.Base.{
  ℕ, ◌≡◌, ite, Bool, true, false, Option, none, some, Comparable, ◌≟◌, ltb, if◌then◌else◌, arith,
  Option-cases, inl, inr, pos, negsuc, ℤ, leb, ◌-◌,
}
use durable.Base.Map.{get, get-put}
use durable.Tokenpool.{
  Class, Park, Pool, Acquired, is_key, vacate, proceed, take_token, park, since_of, class_for, gate,
  acquire,
}
use durable.Tokenpool.Views.{in_use_of, IsValid, unpark-parked, vacate-parked}
use durable.Tokenpool.Invariant.{class_for-parked}

module _ {K : Type 0} where
  -- When the waiter was refused first, if it is parked: else now.
  abbrev pub parked_at : Option (Park K) → ℕ → ℕ
  parked_at o now = elim o [ none ↦ now | some pk ↦ pk.since ]

  -- The time from the first refusal to now, which is less than nothing if the clock went back.
  abbrev pub time_parked : Option (Park K) → ℕ → ℤ
  time_parked o now = elim o [
    | none ↦ pos 0
    | some pk ↦ if leb pk.since now then pos (now - pk.since) else negsuc (pk.since - now - 1)
  ]

module _ {K W : Type 0} ⦃kc : Comparable K⦄ ⦃wc : Comparable W⦄ where
  -- Whether `Acquire` lets `w` go on, and whether with a token.
  pub is_granted : Pool K W → K → Bool → Bool
  is_granted p k true = true
  is_granted p k false = elim (get p.capacity k) [
    | none ↦ true
    | some cap ↦ ltb (in_use_of p k) cap
  ]

  pub is_held : Pool K W → K → Bool → Bool
  is_held p k true = false
  is_held p k false = elim (get p.capacity k) [ none ↦ false | some cap ↦ ltb (in_use_of p k) cap ]

  -- The park of `x` after a call of `w`.
  abbrev pub park_after : Pool K W → K → W → Bool → ℕ → W → Option (Park K)
  park_after p k w granted now x =
      ite (w ≟ x)
        (if granted
          then none
          else some (record { key = k; since = parked_at (get p.parked w) now }))
        (get p.parked x)

  pub record Outcome (p : Pool K W) (k : K) (w : W) (granted held : Bool) (now : ℕ) (x : W)
      (r : Pool K W × Acquired W) : Type 0 where
    pub goes_on : r.1.granted ≡ granted
    pub holds : r.1.held ≡ held
    pub wait : r.1.waited ≡ (if held then time_parked (get p.parked w) now else pos 0)
    pub parks : get r.0.parked x ≡ park_after p k w granted now x

  proceed-Outcome :
      (p : Pool K W) (k : K) (w : W) (now : ℕ) (x : W)
      → Outcome p k w true false now x (proceed p w (get p.parked w))
  unfolding proceed
  proceed-Outcome p k w now x = ground (arith, unpark-parked p false w x)

  take_token-Outcome :
      (p : Pool K W) (k : K) (c : Class W) (w : W) (now : ℕ) (x : W)
      → Outcome p k w true true now x (take_token p k c w (get p.parked w) now)
  unfolding take_token
  take_token-Outcome p k c w now x = ground (arith, unpark-parked p (is_key (get p.parked w) k) w x)

  park-Outcome :
      (p : Pool K W) (k : K) (c : Class W) (w : W) (now : ℕ) (x : W)
      → Outcome p k w false false now x (park p k c w (get p.parked w) now)
  unfolding park
  park-Outcome p k c w now x = ground (
    arith,
    vacate-parked p k w,
    get-put (vacate p k w (get p.parked w)).0.parked w
        (record { key = k; since = since_of (get p.parked w) now }) x,
  )

  class_for-class :
      (p : Pool K W) (k : K) (cap : ℕ)
      → IsValid p
      → get p.capacity k ≡ some cap
      → ((class_for p k cap).1.in_use ≡ in_use_of p k) × ((class_for p k cap).1.capacity ≡ cap)
  unfolding class_for
  class_for-class p k cap v h = elim (Option-cases (get p.classes k)) [
    | inl n ↦ ground arith
    | inr (c, n) ↦ ground (arith, (v.good k c n).sized)
  ]

  gate-Outcome :
      (p : Pool K W) (k : K) (cap : ℕ) (w : W) (now : ℕ) (x : W)
      → IsValid p
      → get p.capacity k ≡ some cap
      → Outcome p k w
          (ltb (in_use_of p k) cap)
          (ltb (in_use_of p k) cap)
          now
          x
          (gate p k cap w (get p.parked w) now)
  unfolding gate
  gate-Outcome p k cap w now x v h =
      let q = (class_for p k cap).0 in
      let c = (class_for p k cap).1 in
      let kept : q.parked ≡ p.parked = (class_for-parked p k cap).0 in
      ground (
        arith,
        kept,
        class_for-class p k cap v h,
        take_token-Outcome q k c w now x,
        park-Outcome q k c w now x,
      )

  -- Acquire in a valid pool goes on, without a token, for a bypass or a key with no capacity,
  -- and otherwise, with a token, exactly if fewer tokens are in use than the capacity of the
  -- key. With a token the waiting time is the time now less that of the park of the caller, and
  -- zero if it was not parked; without a token it is zero. A refusal parks the caller on the
  -- key, with the time of its park before if it was parked and the time now if not; no other
  -- park changes.
  pub acquire-Outcome :
      (p : Pool K W) (k : K) (w : W) (bypass : Bool) (now : ℕ) (x : W)
      → IsValid p
      → Outcome p k w (is_granted p k bypass) (is_held p k bypass) now x (acquire p k w bypass now)
  unfolding acquire is_granted is_held
  acquire-Outcome p k w true now x v = proceed-Outcome p k w now x
  acquire-Outcome p k w false now x v = elim (Option-cases (get p.capacity k)) [
    | inl n ↦ ground (arith, proceed-Outcome p k w now x)
    | inr (cap, n) ↦ ground (arith, gate-Outcome p k cap w now x v n)
  ]
