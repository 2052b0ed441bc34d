-- ===== src/Tokenpool.antt =====
-- internal/tokenpool/tokenpool.go: a keyed counting semaphore with FIFO waiters.
-- A `*class` is reached through the map `classes` alone, so a class is updated in that map. A
-- `sync.Mutex` makes each operation one step. Capacities are natural numbers: the one caller,
-- `WithConcurrencyClass`, drops any other.
mod Views
mod Invariant
mod Wakes
mod Tokens
mod Outcome
mod Tests
use durable.Base.{
  ℕ, ◌+◌, ◌-◌, ite, Bool, true, false, Option, none, some, List, [], ◌∷◌, ◌++◌, Comparable, ◌≟◌,
  ltb, if◌then◌else◌, length, contains, delete_all, ℤ, pos, sub_ℕ, leb, head?,
}
use mathlib.Core.Option
use durable.Base.Map.{Map, get, put, delete}

-- `capacity`, `inUse` and the FIFO of one key.
pub record Class (W : Type 0) : Type 0 where
  pub capacity : ℕ
  pub in_use : ℕ
  pub waiters : List W

-- The key that a waiter is parked on, and since when.
pub record Park (K : Type 0) : Type 0 where
  pub key : K
  pub since : ℕ

pub record Pool (K W : Type 0) : Type 0 where
  pub capacity : Map K ℕ
  pub classes : Map K (Class W)
  pub parked : Map W (Park K)

pub record Usage : Type 0 where
  pub capacity : ℕ
  pub in_use : ℕ
  pub waiting : ℕ

-- What `Acquire` returns.
pub record Acquired (W : Type 0) : Type 0 where
  pub granted : Bool
  pub held : Bool
  pub waited : ℤ
  pub kicks : List W

module _ {W : Type 0} where
  -- The head waiter, if the class has free capacity.
  pub next_waiter : Class W → Option W
  next_waiter c = if ltb c.in_use c.capacity then head? c.waiters else none

  -- `&class[W]{capacity: cap}`
  abbrev pub fresh_class : ℕ → Class W
  fresh_class cap = record { capacity = cap; in_use = 0; waiters = [] }

  -- `if x, ok := nextWaiter(c); ok { kicks = append(kicks, x) }`
  abbrev pub add_kick : List W → Option W → List W
  add_kick kicks none = kicks
  add_kick kicks (some x) = kicks ++ x ∷ []

pub new : {K W : Type 0} → Map K ℕ → Pool K W
new capacity = record { capacity = capacity; classes = []; parked = [] }

module _ {K : Type 0} where
  abbrev pub waited_for : Option (Park K) → ℕ → ℤ
  waited_for none now = pos 0
  waited_for (some pk) now = sub_ℕ now pk.since

  -- The original park time, if there is one.
  abbrev pub since_of : Option (Park K) → ℕ → ℕ
  since_of none now = now
  since_of (some pk) now = pk.since

module _ {K : Type 0} ⦃kc : Comparable K⦄ where
  -- `prior.key == k`, false for a waiter that is not parked.
  abbrev pub is_key : Option (Park K) → K → Bool
  is_key none k = false
  is_key (some pk) k = ite (pk.key ≟ k) true false

module _ {W : Type 0} ⦃wc : Comparable W⦄ where
  -- The waiter joins the FIFO at its tail, or keeps the slot that it has.
  pub enqueue : Class W → W → Class W
  enqueue c w = if contains c.waiters w then c else record c { waiters = c.waiters ++ w ∷ [] }

module _ {K W : Type 0} where
  -- The loop of `Snapshot`.
  usages : Map K (Class W) → Map K Usage
  usages [] = []
  usages ((k, c) ∷ m) =
      (k, record { capacity = c.capacity; in_use = c.in_use; waiting = length c.waiters })
      ∷ usages m

module _ {K W : Type 0} ⦃kc : Comparable K⦄ ⦃wc : Comparable W⦄ where
  -- `prior, wasParked := p.parked[w]` as one value.
  pub parked_on : Pool K W → W → Option K
  parked_on p w = Option.map (λ (pk : Park K). pk.key) (get p.parked w)

  -- The waiter leaves the FIFO of class `j`; `same_pending` withholds the kick.
  pub leave : Bool → Pool K W → K → W → Pool K W × List W
  leave same_pending p j w = elim (get p.classes j) [
    | none ↦ (p, [])
    | some c ↦
        let c' : Class W = record c { waiters = delete_all c.waiters w } in
        (
          record p { classes = put p.classes j c' },
          if same_pending then [] else add_kick [] (next_waiter c'),
        )
  ]

  -- The closure `unpark` of `Acquire`.
  pub unpark : Bool → Pool K W → W → Option (Park K) → Pool K W × List W
  unpark same_pending p w none = (p, [])
  unpark same_pending p w (some prior) =
      leave same_pending (record p { parked = delete p.parked w }) prior.key w

  -- `Acquire` where no token is taken: a bypass, or a key that is not limited.
  pub proceed : Pool K W → W → Option (Park K) → Pool K W × Acquired W
  proceed p w prior =
      let (p', kicks) = unpark false p w prior in
      (p', record { granted = true; held = false; waited = pos 0; kicks = kicks })

  -- The class of `k` as the pointer `c`, read before, shows it now.
  abbrev pub deref : Pool K W → K → Class W → Class W
  deref p k c = elim (get p.classes k) [ none ↦ c | some c' ↦ c' ]

  -- `Acquire` with a token free.
  pub take_token : Pool K W → K → Class W → W → Option (Park K) → ℕ → Pool K W × Acquired W
  take_token p k c w prior now =
      let (p', kicks) = unpark (is_key prior k) p w prior in
      let c' : Class W = deref p' k c in
      let c'' : Class W = record c' { in_use = c'.in_use + 1 } in
      (
        record p' { classes = put p'.classes k c'' },
        record {
          granted = true;
          held = true;
          waited = waited_for prior now;
          kicks = add_kick kicks (next_waiter c'');
        },
      )

  -- "Parking under a different key vacates the prior key's FIFO slot".
  pub vacate : Pool K W → K → W → Option (Park K) → Pool K W × List W
  vacate p k w none = (p, [])
  vacate p k w (some prior) = ite (prior.key ≟ k) (p, []) (leave false p prior.key w)

  -- `Acquire` with no token free.
  pub park : Pool K W → K → Class W → W → Option (Park K) → ℕ → Pool K W × Acquired W
  park p k c w prior now =
      let (p', kicks) = vacate p k w prior in
      let c' : Class W = deref p' k c in
      (
        record p' {
          classes = put p'.classes k (enqueue c' w);
          parked = put p'.parked w (record { key = k; since = since_of prior now });
        },
        record { granted = false; held = false; waited = pos 0; kicks = kicks },
      )

  -- `c := p.classes[k]`, made with the key's capacity at its first use.
  pub class_for : Pool K W → K → ℕ → Pool K W × Class W
  class_for p k cap = elim (get p.classes k) [
    | some c ↦ (p, c)
    | none ↦ (record p { classes = put p.classes k (fresh_class cap) }, fresh_class cap)
  ]

  pub gate : Pool K W → K → ℕ → W → Option (Park K) → ℕ → Pool K W × Acquired W
  gate p k cap w prior now =
      let (p', c) = class_for p k cap in
      if ltb c.in_use c.capacity then take_token p' k c w prior now else park p' k c w prior now

  pub acquire : Pool K W → K → W → Bool → ℕ → Pool K W × Acquired W
  acquire p k w bypass now =
      let prior = get p.parked w in
      if bypass then proceed p w prior else elim (get p.capacity k) [
        | none ↦ proceed p w prior
        | some cap ↦ gate p k cap w prior now
      ]

  -- `none` is the panic on a token that was never acquired.
  pub release : Pool K W → K → Option (Pool K W × Option W)
  release p k = elim (get p.classes k) [
    | none ↦ none
    | some c ↦
        if leb c.in_use 0
        then none
        else let c' : Class W = record c { in_use = c.in_use - 1 } in
          some (record p { classes = put p.classes k c' }, next_waiter c')
  ]

  pub clear : Pool K W → W → Pool K W × Option W
  clear p w = elim (get p.parked w) [
    | none ↦ (p, none)
    | some pk ↦
        let p' : Pool K W = record p { parked = delete p.parked w } in
        elim (get p.classes pk.key) [
          | none ↦ (p', none)
          | some c ↦
              let c' : Class W = record c { waiters = delete_all c.waiters w } in
              (record p' { classes = put p.classes pk.key c' }, next_waiter c')
        ]
  ]

  -- `nil` for a pool with no class, and so is the empty map.
  pub snapshot : Pool K W → Map K Usage
  unfolding usages
  snapshot p = usages p.classes
