-- ===== src/Watchset/History.antt =====
-- Histories of calls of the `Set` of internal/watchset/watchset.go.
use durable.Base.{
  ℕ, ◌≡◌, refl, Bool, true, false, ◌||◌, Option, none, some, List, [], ◌∷◌, Comparable, ◌≟◌, ite,
  if◌then◌else◌, contains, arith, ℕ_comparable,
}
use durable.Watchset.{Set, watch, cancel, notify}
use durable.Watchset.Closing.{
  waits, IsValid, watch-IsValid, watch-waits, cancel-IsValid, cancel-waits, notify-Notified,
}

pub data Call (K : Type 0) : Type 0 where
  watches : K → Call K
  cancels : K → ℕ → Call K
  notifies : K → Call K

module _ {K : Type 0} ⦃kc : Comparable K⦄ where
  unfoldable pub step : Set K → Call K → Option (Set K)
  step s (watches k) = some (watch s k).0
  step s (cancels k ch) = some (cancel s k ch)
  step s (notifies k) = notify s k

  unfoldable pub run : Set K → List (Call K) → Option (Set K)
  run s [] = some s
  run s (c ∷ cs) = elim (step s c) [ none ↦ none | some t ↦ run t cs ]

  abbrev pub is_notify : K → Call K → Bool
  is_notify k (watches j) = false
  is_notify k (cancels j ch) = false
  is_notify k (notifies j) = ite (j ≟ k) true false

  abbrev pub is_cancel : K → ℕ → Call K → Bool
  is_cancel k c (watches j) = false
  is_cancel k c (cancels j ch) = ite (j ≟ k) (ite (ch ≟ c) true false) false
  is_cancel k c (notifies j) = false

  unfoldable pub notified : K → List (Call K) → Bool
  notified k [] = false
  notified k (c ∷ cs) = is_notify k c || notified k cs

  unfoldable pub cancelled : K → ℕ → List (Call K) → Bool
  cancelled k ch [] = false
  cancelled k ch (c ∷ cs) = is_cancel k ch c || cancelled k ch cs

  watch-closed :
      (s : Set K) (k : K) (ch : ℕ)
      → contains s.closed ch ≡ true
      → contains (watch s k).0.closed ch ≡ true
  unfolding watch
  watch-closed s k ch h = h

  cancel-closed :
      (s : Set K) (k : K) (c ch : ℕ)
      → contains s.closed ch ≡ true
      → contains (cancel s k c).closed ch ≡ true
  unfolding cancel
  cancel-closed s k c ch h = ground arith

  -- What one call does for the channel `ch` of the key `k`.
  pub record Follows (s : Set K) (c : Call K) (t : Set K) (k : K) (ch : ℕ) : Type 0 where
    pub valid : IsValid t
    pub closed : contains s.closed ch ≡ true → contains t.closed ch ≡ true
    pub waiting :
        waits s k ch ≡ true
        → is_cancel k ch c ≡ false
        → (if is_notify k c then contains t.closed ch else waits t k ch) ≡ true

  step-Follows :
      (s : Set K) (c : Call K) (k : K) (ch : ℕ)
      → IsValid s
      → (t : Set K) × (step s c ≡ some t) × Follows s c t k ch
  unfolding step
  step-Follows s (watches j) k ch v = (
    (watch s j).0,
    refl,
    record {
      valid = watch-IsValid s j v;
      closed = λ h. watch-closed s j ch h;
      waiting = λ h n. ground (arith, watch-waits s j k ch);
    },
  )
  step-Follows s (cancels j c) k ch v = (
    cancel s j c,
    refl,
    record {
      valid = cancel-IsValid s j c v;
      closed = λ h. cancel-closed s j c ch h;
      waiting = λ h n. ground (arith, cancel-waits s j c k ch v);
    },
  )
  step-Follows s (notifies j) k ch v =
      let (t, e, f) = notify-Notified s j v in
      (
        t,
        e,
        record {
          valid = f.valid;
          closed = λ h. ground (arith, f.closes ch);
          waiting = λ h n. ground (arith, f.closes ch, f.stays k ch);
        },
      )

  -- The channel stays open and watched until its key is notified.
  run-Follows :
      (s : Set K) (cs : List (Call K)) (k : K) (ch : ℕ)
      → IsValid s
      → (t : Set K) × (run s cs ≡ some t)
        × IsValid t
        × (contains s.closed ch ≡ true → contains t.closed ch ≡ true)
        × (waits s k ch ≡ true → cancelled k ch cs ≡ false → contains t.closed ch ≡ notified k cs)
  unfolding run notified cancelled
  run-Follows s [] k ch v = (s, refl, v, λ h. h, λ h n. v.is_open k ch h)
  run-Follows s (c ∷ cs) k ch v =
      let (t, e, f) = step-Follows s c k ch v in
      let (u, e', uv, closed, waiting) = run-Follows t cs k ch f.valid in
      (
        u,
        ground arith,
        uv,
        λ h. closed (f.closed h),
        λ h n. ground (arith, f.waiting, closed, waiting),
      )

  -- From a valid state of the broadcast set (a watched channel is open, and stands once, under
  -- one key), every history of Watch, cancel and Notify goes through, never closing a channel
  -- twice, and keeps the state valid. A channel that is watched for a key, and that the history
  -- does not cancel, is closed at its end exactly if the history notifies the key.
  pub run-closes :
      (s : Set K) (cs : List (Call K)) (k : K) (ch : ℕ)
      → IsValid s
      → waits s k ch ≡ true
      → cancelled k ch cs ≡ false
      → (t : Set K) × (run s cs ≡ some t) × IsValid t × (contains t.closed ch ≡ notified k cs)
  run-closes s cs k ch v h n =
      let (t, e, tv, closed, waiting) = run-Follows s cs k ch v in (t, e, tv, waiting h n)
