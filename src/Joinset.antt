-- ===== src/Joinset.antt =====
-- internal/joinset/joinset.go: waiters on sets of keys, each with a threshold of completions.
-- A `*waiter` is reached through the map `waiters` alone, and a set of members through `byKey`
-- alone, so both are updated there. The nil maps of the zero value are empty maps. A map is visited
-- in the order of its list. Times are natural numbers.
mod Index
mod Invariant
mod Complete
mod History
mod Tests
use durable.Base.{
  ℕ, zero, suc, max, min, Bool, true, false, not, ◌&&◌, ◌||◌, Option, none, some, List, [], ◌∷◌,
  Comparable, ltb, leb, if◌then◌else◌, length, is_some, ℤ, pos, negsuc,
}
use durable.Base.Map.{Map, get, put, delete, keys}

pub record Waiter (K : Type 0) : Type 0 where
  pub keys : List K
  pub need : ℕ
  pub done : Map K (Unit {0})
  pub since : ℕ
  pub kicked : Bool

pub record Set (K W : Type 0) : Type 0 where
  pub waiters : Map W (Waiter K)
  pub by_key : Map K (Map W (Unit {0}))

-- `min(max(need, 1), n)`
unfoldable pub clamp : ℤ → ℕ → ℕ
clamp (pos need) n = min (max need 1) n
clamp (negsuc need) n = min 1 n

-- A waiter with one more key done, and whether the completion satisfied it.
unfoldable pub strike : {K : Type 0} → ⦃kc : Comparable K⦄ → Waiter K → K → Waiter K × Bool
strike wt k =
    let done = put wt.done k tt in
    let hit = not wt.kicked && ltb 0 wt.need && leb wt.need (length done) in
    (record wt { done = done; kicked = wt.kicked || hit }, hit)

module _ {K : Type 0} ⦃kc : Comparable K⦄ where
  -- The keys that are done, in their order.
  unfoldable pub done_keys : Map K (Unit {0}) → List K → List K
  done_keys done [] = []
  done_keys done (k ∷ ks) =
      let rest = done_keys done ks in if is_some (get done k) then k ∷ rest else rest

module _ {K W : Type 0} ⦃kc : Comparable K⦄ ⦃wc : Comparable W⦄ where
  -- `s.byKey[k]`, nil being empty.
  unfoldable pub members_of : Map K (Map W (Unit {0})) → K → Map W (Unit {0})
  members_of by_key k = elim (get by_key k) [ none ↦ [] | some m ↦ m ]

  -- The loop of `Register`: the index, and the keys without their repetitions.
  unfoldable pub enlist : Map K (Map W (Unit {0})) → W → List K → Map K (Map W (Unit {0})) × List K
  enlist by_key w [] = (by_key, [])
  enlist by_key w (k ∷ ks) =
      let again = enlist by_key w ks in
      let fresh = enlist (put by_key k (put (members_of by_key k) w tt)) w ks in
      if is_some (get (members_of by_key k) w) then again else (fresh.0, k ∷ fresh.1)

  unfoldable pub register : Set K W → W → List K → ℤ → ℕ → Set K W × Bool
  register s w ks need now = elim (get s.waiters w) [
    | some wt ↦ (s, false)
    | none ↦
        let (by_key, own) = enlist s.by_key w ks in
        let wt : Waiter K = record {
          keys = own;
          need = clamp need (length own);
          done = [];
          since = now;
          kicked = false;
        } in
        (record { waiters = put s.waiters w wt; by_key = by_key }, true)
  ]

  unfoldable pub mark : Set K W → W → K → Set K W
  mark s w k = elim (get s.waiters w) [
    | none ↦ s
    | some wt ↦
        if is_some (get (members_of s.by_key k) w)
        then record s { waiters = put s.waiters w (record wt { done = put wt.done k tt }) }
        else s
  ]

  -- The loop of `Complete`; `none` is the nil dereference at a waiter that is not registered.
  unfoldable pub complete_loop : Map W (Waiter K) → K → List W → Option (Map W (Waiter K) × List W)
  complete_loop waiters k [] = some (waiters, [])
  complete_loop waiters k (w ∷ ws) = elim (get waiters w) [
    | none ↦ none
    | some wt ↦
        let (struck, hit) = strike wt k in
        elim (complete_loop (put waiters w struck) k ws) [
          | none ↦ none
          | some (after, kicks) ↦ some (after, if hit then w ∷ kicks else kicks)
        ]
  ]

  unfoldable pub complete : Set K W → K → Option (Set K W × List W)
  complete s k = elim (complete_loop s.waiters k (keys (members_of s.by_key k))) [
    | none ↦ none
    | some (after, kicks) ↦ some (record s { waiters = after }, kicks)
  ]

  unfoldable pub done : Set K W → W → Option (List K)
  done s w = elim (get s.waiters w) [ none ↦ none | some wt ↦ some (done_keys wt.done wt.keys) ]

  -- `s.byKey[k]` becomes `members`, and is deleted if it is empty.
  unfoldable pub set_members :
      Map K (Map W (Unit {0})) → K → Map W (Unit {0}) → Map K (Map W (Unit {0}))
  set_members by_key k members =
      if leb (length members) 0 then delete by_key k else put by_key k members

  -- The loop of `Remove`.
  unfoldable pub unlist : Map K (Map W (Unit {0})) → W → List K → Map K (Map W (Unit {0}))
  unlist by_key w [] = by_key
  unlist by_key w (k ∷ ks) = unlist (set_members by_key k (delete (members_of by_key k) w)) w ks

  unfoldable pub remove : Set K W → W → Set K W × Option ℕ
  remove s w = elim (get s.waiters w) [
    | none ↦ (s, none)
    | some wt ↦
        (record { waiters = delete s.waiters w; by_key = unlist s.by_key w wt.keys }, some wt.since)
  ]

  pub len : Set K W → ℕ
  len s = length s.waiters
