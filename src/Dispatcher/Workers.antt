-- ===== src/Dispatcher/Workers.antt =====
-- Counts of the workers of internal/dispatcher/dispatcher.go by phase.
use durable.Base.{
  ℕ, zero, suc, ◌+◌, ◌≤◌, ◌≡◌, sym, ite, some, List, [], ◌∷◌, Comparable, ◌≟◌, get_elem?, arith,
}
use durable.Dispatcher.{
  Phase, starting, sleeping, cancelled, queuing, running, returned, redispatching, replace, drop_at,
}

module _ {A : Type 0} where
  -- The sum of the weights.
  unfoldable pub weigh : (A → ℕ) → List A → ℕ
  weigh f [] = 0
  weigh f (x ∷ xs) = f x + weigh f xs

  pub weigh-replace :
      (f : A → ℕ) (xs : List A) (i : ℕ) (a b : A)
      → get_elem? xs i ≡ some a
      → weigh f (replace xs i b) + f a ≡ weigh f xs + f b
  unfolding weigh replace
  weigh-replace f [] i a b h = absurd (ground arith)
  weigh-replace f (x ∷ xs) zero a b h = let e : x ≡ a = ground arith in rw (sym e) (omega arith)
  weigh-replace f (x ∷ xs) (suc i) a b h = omega (arith, weigh-replace f xs i a b h)

  pub weigh-drop_at :
      (f : A → ℕ) (xs : List A) (i : ℕ) (a : A)
      → get_elem? xs i ≡ some a
      → weigh f (drop_at xs i) + f a ≡ weigh f xs
  unfolding weigh drop_at
  weigh-drop_at f [] i a h = absurd (ground arith)
  weigh-drop_at f (x ∷ xs) zero a h = let e : x ≡ a = ground arith in rw (sym e) (omega arith)
  weigh-drop_at f (x ∷ xs) (suc i) a h = omega (arith, weigh-drop_at f xs i a h)

-- A worker that holds the slot of its key.
unfoldable pub holds_slot : Phase → ℕ
holds_slot (starting d) = 1
holds_slot sleeping = 1
holds_slot cancelled = 1
holds_slot queuing = 1
holds_slot running = 1
holds_slot (returned d again) = 1
holds_slot (redispatching d) = 0

-- One whose next `Run` is still to begin.
unfoldable pub is_ahead : Phase → ℕ
is_ahead (starting d) = 1
is_ahead sleeping = 1
is_ahead cancelled = 0
is_ahead queuing = 1
is_ahead running = 0
is_ahead (returned d again) = 0
is_ahead (redispatching d) = 1

unfoldable pub is_running : Phase → ℕ
is_running running = 1
is_running (starting d) = 0
is_running sleeping = 0
is_running cancelled = 0
is_running queuing = 0
is_running (returned d again) = 0
is_running (redispatching d) = 0

unfoldable pub is_cancelled : Phase → ℕ
is_cancelled sleeping = 0
is_cancelled (starting d) = 0
is_cancelled cancelled = 1
is_cancelled queuing = 0
is_cancelled running = 0
is_cancelled (returned d again) = 0
is_cancelled (redispatching d) = 0

unfoldable pub is_asleep : Phase → ℕ
is_asleep sleeping = 1
is_asleep (starting d) = 0
is_asleep cancelled = 0
is_asleep queuing = 0
is_asleep running = 0
is_asleep (returned d again) = 0
is_asleep (redispatching d) = 0

asleep-le : (p : Phase) → is_asleep p ≤ holds_slot p
unfolding is_asleep holds_slot
asleep-le (starting d) = omega arith
asleep-le sleeping = omega arith
asleep-le cancelled = omega arith
asleep-le queuing = omega arith
asleep-le running = omega arith
asleep-le (returned d again) = omega arith
asleep-le (redispatching d) = omega arith

-- How many workers of the key there are at a phase that is counted.
module _ {K : Type 0} ⦃kc : Comparable K⦄ where
  abbrev pub of_key : (Phase → ℕ) → K → K × Phase → ℕ
  of_key f k w = ite (w.0 ≟ k) (f w.1) 0

  unfoldable pub slots_of : List (K × Phase) → K → ℕ
  slots_of ws k = weigh (of_key holds_slot k) ws

  unfoldable pub ahead_of : List (K × Phase) → K → ℕ
  ahead_of ws k = weigh (of_key is_ahead k) ws

  unfoldable pub asleep_of : List (K × Phase) → K → ℕ
  asleep_of ws k = weigh (of_key is_asleep k) ws

  unfoldable pub running_in : List (K × Phase) → ℕ
  running_in ws = weigh (λ w. is_running w.1) ws

  unfoldable pub cancelled_in : List (K × Phase) → ℕ
  cancelled_in ws = weigh (λ w. is_cancelled w.1) ws

  -- The phase of a worker changes.
  pub slots_of-replace :
      (ws : List (K × Phase)) (i : ℕ) (k : K) (a b : Phase) (j : K)
      → get_elem? ws i ≡ some (k, a)
      → slots_of (replace ws i (k, b)) j + ite (k ≟ j) (holds_slot a) 0
        ≡ slots_of ws j + ite (k ≟ j) (holds_slot b) 0
  unfolding slots_of
  slots_of-replace ws i k a b j h = weigh-replace (of_key holds_slot j) ws i (k, a) (k, b) h

  pub ahead_of-replace :
      (ws : List (K × Phase)) (i : ℕ) (k : K) (a b : Phase) (j : K)
      → get_elem? ws i ≡ some (k, a)
      → ahead_of (replace ws i (k, b)) j + ite (k ≟ j) (is_ahead a) 0
        ≡ ahead_of ws j + ite (k ≟ j) (is_ahead b) 0
  unfolding ahead_of
  ahead_of-replace ws i k a b j h = weigh-replace (of_key is_ahead j) ws i (k, a) (k, b) h

  pub asleep_of-replace :
      (ws : List (K × Phase)) (i : ℕ) (k : K) (a b : Phase) (j : K)
      → get_elem? ws i ≡ some (k, a)
      → asleep_of (replace ws i (k, b)) j + ite (k ≟ j) (is_asleep a) 0
        ≡ asleep_of ws j + ite (k ≟ j) (is_asleep b) 0
  unfolding asleep_of
  asleep_of-replace ws i k a b j h = weigh-replace (of_key is_asleep j) ws i (k, a) (k, b) h

  pub running_in-replace :
      (ws : List (K × Phase)) (i : ℕ) (k : K) (a b : Phase)
      → get_elem? ws i ≡ some (k, a)
      → running_in (replace ws i (k, b)) + is_running a ≡ running_in ws + is_running b
  unfolding running_in
  running_in-replace ws i k a b h = weigh-replace (λ w. is_running w.1) ws i (k, a) (k, b) h

  pub cancelled_in-replace :
      (ws : List (K × Phase)) (i : ℕ) (k : K) (a b : Phase)
      → get_elem? ws i ≡ some (k, a)
      → cancelled_in (replace ws i (k, b)) + is_cancelled a ≡ cancelled_in ws + is_cancelled b
  unfolding cancelled_in
  cancelled_in-replace ws i k a b h = weigh-replace (λ w. is_cancelled w.1) ws i (k, a) (k, b) h

  -- A worker exits.
  pub slots_of-drop_at :
      (ws : List (K × Phase)) (i : ℕ) (k : K) (a : Phase) (j : K)
      → get_elem? ws i ≡ some (k, a)
      → slots_of (drop_at ws i) j + ite (k ≟ j) (holds_slot a) 0 ≡ slots_of ws j
  unfolding slots_of
  slots_of-drop_at ws i k a j h = weigh-drop_at (of_key holds_slot j) ws i (k, a) h

  pub ahead_of-drop_at :
      (ws : List (K × Phase)) (i : ℕ) (k : K) (a : Phase) (j : K)
      → get_elem? ws i ≡ some (k, a)
      → ahead_of (drop_at ws i) j + ite (k ≟ j) (is_ahead a) 0 ≡ ahead_of ws j
  unfolding ahead_of
  ahead_of-drop_at ws i k a j h = weigh-drop_at (of_key is_ahead j) ws i (k, a) h

  pub asleep_of-drop_at :
      (ws : List (K × Phase)) (i : ℕ) (k : K) (a : Phase) (j : K)
      → get_elem? ws i ≡ some (k, a)
      → asleep_of (drop_at ws i) j + ite (k ≟ j) (is_asleep a) 0 ≡ asleep_of ws j
  unfolding asleep_of
  asleep_of-drop_at ws i k a j h = weigh-drop_at (of_key is_asleep j) ws i (k, a) h

  pub running_in-drop_at :
      (ws : List (K × Phase)) (i : ℕ) (k : K) (a : Phase)
      → get_elem? ws i ≡ some (k, a)
      → running_in (drop_at ws i) + is_running a ≡ running_in ws
  unfolding running_in
  running_in-drop_at ws i k a h = weigh-drop_at (λ w. is_running w.1) ws i (k, a) h

  pub cancelled_in-drop_at :
      (ws : List (K × Phase)) (i : ℕ) (k : K) (a : Phase)
      → get_elem? ws i ≡ some (k, a)
      → cancelled_in (drop_at ws i) + is_cancelled a ≡ cancelled_in ws
  unfolding cancelled_in
  cancelled_in-drop_at ws i k a h = weigh-drop_at (λ w. is_cancelled w.1) ws i (k, a) h

  -- A worker is spawned.
  pub starting-counts :
      (ws : List (K × Phase)) (k j : K) (d : ℕ)
      → let us = (k, starting d) ∷ ws in
        (slots_of us j ≡ ite (k ≟ j) 1 0 + slots_of ws j)
        × (ahead_of us j ≡ ite (k ≟ j) 1 0 + ahead_of ws j)
        × (asleep_of us j ≡ asleep_of ws j)
        × (running_in us ≡ running_in ws)
        × (cancelled_in us ≡ cancelled_in ws)
  unfolding slots_of ahead_of asleep_of running_in cancelled_in is_cancelled weigh holds_slot
      is_ahead is_asleep is_running
  starting-counts ws k j d = ground arith

  -- Whoever sleeps holds the slot.
  pub asleep-le-slots : (ws : List (K × Phase)) (k : K) → asleep_of ws k ≤ slots_of ws k
  unfolding asleep_of slots_of weigh
  asleep-le-slots [] k = omega arith
  asleep-le-slots ((j, p) ∷ ws) k = ground (arith, asleep-le-slots ws k, asleep-le p)
