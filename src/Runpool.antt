-- ===== src/Runpool.antt =====
-- internal/runpool/runpool.go: a keyed pool of held tokens with an ordered line of members.
-- A `*class` is reached through the map `classes` alone, so a class is updated in that map. The sets
-- are maps into `Unit`. Capacities are natural numbers: the one caller, `WithRunClass`, drops any
-- other. A cap of zero pending members is no cap, as is a negative one in the source.
-- `slices.BinarySearchFunc` finds the first place that is not before its target; the line is sorted.
mod Line
mod Invariant
mod Takes
mod Asks
mod Leaves
mod Effects
mod Wakes
mod Runs
mod Grants
mod Overtaking
mod Admission
mod Tests
use durable.Base.{
  ℕ, zero, suc, ◌+◌, ◌-◌, ite, Bool, true, false, not, ◌&&◌, Option, none, some, List, [], ◌∷◌,
  Comparable, ◌≟◌, ltb, leb, if◌then◌else◌, length, is_some,
}
use durable.Base.Map.{Map, get, put, delete}
use durable.Base.Order.{Ordered}
use mathlib.Core.Option

pub record Waiter (W O : Type 0) : Type 0 where
  pub w : W
  pub order : O

pub record Class (W O : Type 0) : Type 0 where
  pub capacity : ℕ
  pub in_use : ℕ
  pub line : List (Waiter W O)
  pub sidelined : ℕ

pub record Pool (K W O : Type 0) : Type 0 where
  pub capacity : Map K ℕ
  pub classes : Map K (Class W O)
  pub holders : Map W K
  pub pending : Map W K
  pub sidelined : Map W (Unit {0})
  pub parked : Map W (Unit {0})

pub record Usage : Type 0 where
  pub capacity : ℕ
  pub in_use : ℕ
  pub waiting : ℕ
  pub pending : ℕ

pub new : {K W O : Type 0} → Map K ℕ → Pool K W O
new capacity = record {
  capacity = capacity;
  classes = [];
  holders = [];
  pending = [];
  sidelined = [];
  parked = [];
}

module _ {W O : Type 0} where
  -- `&class[W, O]{capacity: cap}`
  abbrev pub fresh_class : ℕ → Class W O
  fresh_class cap = record { capacity = cap; in_use = 0; line = []; sidelined = 0 }

  pub pending_count : Class W O → ℕ
  pending_count c = length c.line + c.sidelined

  -- `slices.Delete(line, i, i+1)`
  unfoldable pub delete_at : ℕ → List (Waiter W O) → List (Waiter W O)
  delete_at i [] = []
  delete_at zero (x ∷ xs) = xs
  delete_at (suc i) (x ∷ xs) = x ∷ delete_at i xs

  -- `slices.Insert(line, i, x)`
  unfoldable pub insert_at : ℕ → Waiter W O → List (Waiter W O) → List (Waiter W O)
  insert_at zero y xs = y ∷ xs
  insert_at (suc i) y [] = y ∷ []
  insert_at (suc i) y (x ∷ xs) = x ∷ insert_at i y xs

  unfoldable pub first : List (Waiter W O) → Option W
  first [] = none
  first (x ∷ xs) = some x.w

  pub head : Class W O → Option W
  head c = if ltb c.in_use c.capacity then first c.line else none

module _ {W O : Type 0} ⦃oc : Ordered O⦄ where
  -- The place that `slices.BinarySearchFunc` finds in a sorted line.
  unfoldable pub search_place : List (Waiter W O) → O → ℕ
  search_place [] o = 0
  search_place (x ∷ xs) o = if oc.le o x.order then 0 else suc (search_place xs o)

  pub insert : Class W O → W → O → Class W O × ℕ
  insert c w order =
      let i = search_place c.line order in
      (record c { line = insert_at i (record { w = w; order = order }) c.line }, i)

module _ {W O : Type 0} ⦃wc : Comparable W⦄ where
  -- `slices.IndexFunc`, from place `i` on.
  unfoldable pub index_from : ℕ → List (Waiter W O) → W → Option ℕ
  index_from i [] w = none
  index_from i (x ∷ xs) w = ite (x.w ≟ w) (some i) (index_from (suc i) xs w)

  abbrev pub index : Class W O → W → Option ℕ
  index c w = index_from 0 c.line w

  -- The member leaves the line, if it stands there.
  pub leave_line : Class W O → W → Class W O
  leave_line c w = elim (index c w) [ none ↦ c | some i ↦ record c { line = delete_at i c.line } ]

module _ {K W O : Type 0} ⦃kc : Comparable K⦄ ⦃wc : Comparable W⦄ ⦃oc : Ordered O⦄ where
  -- `none` for an unlimited key; else the class, made at its first use, and the pool with it.
  pub class_for : Pool K W O → K → Option (Pool K W O × Class W O)
  class_for p k = elim (get p.capacity k) [
    | none ↦ none
    | some cap ↦ elim (get p.classes k) [
      | some c ↦ some (p, c)
      | none ↦ some (record p { classes = put p.classes k (fresh_class cap) }, fresh_class cap)
    ]
  ]

  -- `Admit` once the class is there and the member is neither a holder nor pending.
  pub enter : Pool K W O → K → Class W O → W → O → ℕ → Pool K W O × Bool
  enter p k c w order max_pending =
      if ltb 0 max_pending && leb max_pending (pending_count c)
      then (p, false)
      else let (c', i) = insert c w order in
        (record p { pending = put p.pending w k; classes = put p.classes k c' }, true)

  pub admit : Pool K W O → K → W → O → ℕ → Pool K W O × Bool
  admit p k w order max_pending = elim (class_for p k) [
    | none ↦ (p, true)
    | some (q, c) ↦
        if is_some (get q.holders w)
        then (q, true)
        else if is_some (get q.pending w)
        then (q, true)
        else enter q k c w order max_pending
  ]

  -- The place of the member, who takes one at `order` if it has none: the pool, the class, the place.
  pub take_place : Pool K W O → Class W O → W → O → Pool K W O × Class W O × ℕ
  take_place p c w order = elim (index c w) [
    | some i ↦ (p, c, i)
    | none ↦
        let aside : Bool = is_some (get p.sidelined w) in
        let q : Pool K W O = if aside then record p { sidelined = delete p.sidelined w } else p in
        let c' : Class W O = if aside then record c { sidelined = c.sidelined - 1 } else c in
        let (c'', i) = insert c' w order in (q, c'', i)
  ]

  -- `Acquire` of a member that holds nothing.
  pub ask : Pool K W O → K → Class W O → W → O → Pool K W O × Bool × Option W
  ask p k c w order =
      let p1 : Pool K W O =
        if is_some (get p.pending w) then p else record p { pending = put p.pending w k } in
      let (p2, c2, i) = take_place p1 c w order in
      if leb c2.capacity (c2.in_use + i)
      then (record p2 { classes = put p2.classes k c2; parked = put p2.parked w tt }, false, none)
      else let c3 : Class W O = record c2 { line = delete_at i c2.line; in_use = c2.in_use + 1 } in
        (
          record p2 {
            classes = put p2.classes k c3;
            parked = delete p2.parked w;
            pending = delete p2.pending w;
            holders = put p2.holders w k;
          },
          true,
          head c3,
        )

  pub acquire : Pool K W O → K → W → O → Pool K W O × Bool × Option W
  acquire p k w order = elim (class_for p k) [
    | none ↦ (p, true, none)
    | some (q, c) ↦ if is_some (get q.holders w) then (q, true, none) else ask q k c w order
  ]

  -- `forget`: the pool and the class without a pending trace of the member.
  pub forget : Pool K W O → Class W O → W → Pool K W O × Class W O
  forget p c w =
      let q : Pool K W O = record p { pending = delete p.pending w; parked = delete p.parked w } in
      if is_some (get p.pending w)
      then (if is_some (get p.sidelined w)
          then (
            record q { sidelined = delete p.sidelined w },
            record c { sidelined = c.sidelined - 1 },
          )
          else (q, leave_line c w))
      else (p, c)

  pub hold : Pool K W O → K → W → Pool K W O
  hold p k w = elim (class_for p k) [
    | none ↦ p
    | some (q, c) ↦
        if is_some (get q.holders w)
        then q
        else let (r, c') = forget q c w in
          record r {
            classes = put r.classes k (record c' { in_use = c'.in_use + 1 });
            holders = put r.holders w k;
          }
  ]

  -- `none` where the source would follow a nil class; `Release` of a valid pool never does.
  pub release : Pool K W O → W → Option (Pool K W O × Option W)
  release p w = elim (get p.holders w) [
    | some k ↦ elim (get p.classes k) [
      | none ↦ none
      | some c ↦
          let c' : Class W O = record c { in_use = c.in_use - 1 } in
          some (record p { holders = delete p.holders w; classes = put p.classes k c' }, head c')
    ]
    | none ↦ elim (get p.pending w) [
      | none ↦ some (p, none)
      | some k ↦ elim (get p.classes k) [
        | none ↦ none
        | some c ↦
            let (q, c') = forget p c w in some (record q { classes = put q.classes k c' }, head c')
      ]
    ]
  ]

  pub clear : Pool K W O → W → Option (Pool K W O × Option W)
  clear p w = elim (get p.pending w) [
    | none ↦ some (p, none)
    | some k ↦ if is_some (get p.sidelined w) then some (p, none) else elim (get p.classes k) [
      | none ↦ none
      | some c ↦
          let c' : Class W O = leave_line c w in
          let c'' : Class W O = record c' { sidelined = c'.sidelined + 1 } in
          some (
            record p {
              classes = put p.classes k c'';
              parked = delete p.parked w;
              sidelined = put p.sidelined w tt;
            },
            head c'',
          )
    ]
  ]

  pub holds : Pool K W O → W → Bool
  holds p w = is_some (get p.holders w)

  -- Whether the member asked and was refused, and the key; `none` is the zero key.
  pub parked_on : Pool K W O → W → Bool × Option K
  parked_on p w = if is_some (get p.parked w) then (true, get p.pending w) else (false, none)

  pub pending_of : Pool K W O → K → ℕ
  pending_of p k = elim (get p.classes k) [ none ↦ 0 | some c ↦ pending_count c ]

  -- The inner loop of `Snapshot`.
  waiting_in : Pool K W O → List (Waiter W O) → ℕ
  waiting_in p [] = 0
  waiting_in p (x ∷ xs) = (if is_some (get p.parked x.w) then 1 else 0) + waiting_in p xs

  usages : Pool K W O → Map K (Class W O) → Map K Usage
  usages p [] = []
  usages p ((k, c) ∷ m) =
      (
        k,
        record {
          capacity = c.capacity;
          in_use = c.in_use;
          waiting = waiting_in p c.line;
          pending = pending_count c;
        },
      )
      ∷ usages p m

  -- `nil` for a pool with no class, and so is the empty map.
  pub snapshot : Pool K W O → Map K Usage
  unfolding usages waiting_in
  snapshot p = usages p p.classes
