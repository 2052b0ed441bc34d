-- ===== src/Dispatcher.antt =====
-- internal/dispatcher/dispatcher.go: one worker for each key, and a re-poke for a dispatch that meets one.
-- A goroutine is a key and a phase. A step is what one of them does up to its next lock, channel or
-- callback, a select with the `Disarm` behind it being one; any of them may be next. `Run` may return anything. Delays are natural numbers.
mod Workers
mod Invariant
mod Owed
mod Runs
mod Single
mod Tests
use durable.Base.{
  ℕ, zero, suc, ◌+◌, ◌-◌, Bool, true, false, not, ◌&&◌, ◌||◌, Option, none, some, List, [], ◌∷◌,
  Comparable, ltb, leb, if◌then◌else◌, length, is_some, get_elem?,
}
use durable.Base.Map.{Map, get, put, delete}
use durable.Watchset.{Signals, arm, disarm, fire}
use mathlib.Core.Option

-- Where a goroutine stands: in `Dispatch`, at the select on the delay, behind it with a done context,
-- at the select on the semaphore, in `Run`, before `clearActive`, and before the last `Dispatch`.
pub data Phase : Type 0 where
  starting : ℕ → Phase
  sleeping : Phase
  cancelled : Phase
  queuing : Phase
  running : Phase
  returned : ℕ → Bool → Phase
  redispatching : ℕ → Phase

pub record State (K : Type 0) : Type 0 where
  pub concurrency : ℕ
  pub active : Map K (Unit {0})
  pub repoke : Map K (Unit {0})
  pub wakes : Signals K
  pub tokens : ℕ
  pub is_done : Bool
  pub workers : List (K × Phase)

-- What may happen next: a call from outside, the end of the context, or a step of the worker at a
-- place of the list. A sleeper may be woken by the clock, by a wake or by the context.
pub data Event (K : Type 0) : Type 0 where
  dispatches : K → ℕ → Event K
  wakes : K → Event K
  cancels : Event K
  starts : ℕ → Event K
  expires : ℕ → Event K
  awakes : ℕ → Event K
  aborts : ℕ → Event K
  enters : ℕ → Event K
  returns : ℕ → ℕ → Bool → Event K
  clears : ℕ → Event K
  redispatches : ℕ → Event K

module _ {A : Type 0} where
  unfoldable pub replace : List A → ℕ → A → List A
  replace [] i a = []
  replace (x ∷ xs) zero a = a ∷ xs
  replace (x ∷ xs) (suc i) a = x ∷ replace xs i a

  unfoldable pub drop_at : List A → ℕ → List A
  drop_at [] i = []
  drop_at (x ∷ xs) zero = xs
  drop_at (x ∷ xs) (suc i) = x ∷ drop_at xs i

module _ {K : Type 0} ⦃kc : Comparable K⦄ where
  pub new : ℕ → State K
  new concurrency = record {
    concurrency = concurrency;
    active = [];
    repoke = [];
    wakes = [];
    tokens = 0;
    is_done = false;
    workers = [];
  }

  -- `Dispatch` up to the release of the lock.
  unfoldable pub dispatch : State K → K → ℕ → State K
  dispatch s k delay =
      if is_some (get s.active k)
      then record s { repoke = put s.repoke k tt }
      else record s { active = put s.active k tt; workers = (k, starting delay) ∷ s.workers }

  unfoldable pub wake : State K → K → State K
  wake s k = record s { wakes = fire s.wakes k }

  -- `clearActive`, without its answer.
  unfoldable pub clear_active : State K → K → State K
  clear_active s k = record s { active = delete s.active k; repoke = delete s.repoke k }

  -- The rest of `Dispatch`, and the spawned goroutine up to its first select.
  unfoldable pub start : State K → ℕ → K → ℕ → State K
  start s i k zero = record s { workers = replace s.workers i (k, queuing) }
  start s i k (suc d) = record s {
    wakes = arm s.wakes k;
    workers = replace s.workers i (k, sleeping);
  }

  -- The end of the first select; `next` is what follows it.
  unfoldable pub rise : State K → ℕ → K → Phase → State K
  rise s i k next = record s { wakes = disarm s.wakes k; workers = replace s.workers i (k, next) }

  -- The exit with a done context.
  unfoldable pub quit : State K → ℕ → K → State K
  quit s i k = clear_active (record s { workers = drop_at s.workers i }) k

  -- The semaphore is taken, if there is one.
  unfoldable pub enter : State K → ℕ → K → Option (State K)
  enter s i k =
      let into = replace s.workers i (k, running) in
      if leb s.concurrency 0
      then some (record s { workers = into })
      else if ltb s.tokens s.concurrency
      then some (record s { tokens = s.tokens + 1; workers = into })
      else none

  unfoldable pub leave : State K → ℕ → K → ℕ → Bool → State K
  leave s i k delay again =
      let out = replace s.workers i (k, returned delay again) in
      if leb s.concurrency 0
      then record s { workers = out }
      else record s { tokens = s.tokens - 1; workers = out }

  -- The slot is released; a re-poke makes the next dispatch immediate.
  unfoldable pub clear : State K → ℕ → K → ℕ → Bool → State K
  clear s i k delay again =
      let owes = is_some (get s.repoke k) in
      let t = clear_active s k in
      if (owes || again) && not s.is_done
      then record t { workers = replace s.workers i (k, redispatching (if owes then 0 else delay)) }
      else record t { workers = drop_at s.workers i }

  -- A step of a worker; `none` where it is not at that point.
  unfoldable pub work : State K → Event K → ℕ → K × Phase → Option (State K)
  work s (starts j) i (k, starting d) = some (start s i k d)
  work s (expires j) i (k, sleeping) = some (rise s i k queuing)
  work s (awakes j) i (k, sleeping) = elim (get s.wakes k) [
    | none ↦ none
    | some full ↦ if full then some (rise s i k queuing) else none
  ]
  work s (aborts j) i (k, sleeping) = if s.is_done then some (rise s i k cancelled) else none
  work s (aborts j) i (k, queuing) =
      if s.is_done && not (leb s.concurrency 0) then some (quit s i k) else none
  work s (enters j) i (k, queuing) = enter s i k
  work s (returns j delay again) i (k, running) = some (leave s i k delay again)
  work s (clears j) i (k, returned delay again) = some (clear s i k delay again)
  work s (clears j) i (k, cancelled) = some (quit s i k)
  work s (redispatches j) i (k, redispatching d) =
      some (dispatch (record s { workers = drop_at s.workers i }) k d)
  work s e i w = none

  unfoldable pub place_of : Event K → Option ℕ
  place_of (dispatches k d) = none
  place_of (wakes k) = none
  place_of cancels = none
  place_of (starts i) = some i
  place_of (expires i) = some i
  place_of (awakes i) = some i
  place_of (aborts i) = some i
  place_of (enters i) = some i
  place_of (returns i d a) = some i
  place_of (clears i) = some i
  place_of (redispatches i) = some i

  unfoldable pub work_at : State K → Event K → ℕ → Option (State K)
  work_at s e i = elim (get_elem? s.workers i) [ none ↦ none | some w ↦ work s e i w ]

  unfoldable pub step : State K → Event K → Option (State K)
  step s (dispatches k d) = some (dispatch s k d)
  step s (wakes k) = some (wake s k)
  step s cancels = some (record s { is_done = true })
  step s e = elim (place_of e) [ none ↦ none | some i ↦ work_at s e i ]

  pub is_active : State K → K → Bool
  is_active s k = is_some (get s.active k)

  pub active_count : State K → ℕ
  active_count s = length s.active

  pub delayed : State K → ℕ
  delayed s = length s.wakes
