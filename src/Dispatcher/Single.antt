-- ===== src/Dispatcher/Single.antt =====
-- internal/dispatcher/dispatcher.go: one worker for each key, as many in `Run` as the semaphore
-- admits, and no wake that misses a sleeping worker.
use durable.Base.{
  ℕ, ◌≤◌, ◌≡◌, true, some, List, Comparable, leb, is_some, get_elem?, arith, ◌⊎◌, Bool-cases, inl,
  inr,
}
use durable.Base.Map.{get, get-put}
use durable.Watchset.{fire}
use durable.Dispatcher.{
  sleeping, queuing, State, new, Event, awakes, place_of, work, work_at, step, wake, rise,
}
use durable.Dispatcher.Workers.{is_asleep, slots_of, running_in, asleep_of-drop_at}
use durable.Dispatcher.Invariant.{IsValid, new-IsValid}
use durable.Dispatcher.Runs.{run, run-owed}

module _ {K : Type 0} ⦃kc : Comparable K⦄ where
  -- However the goroutines of a new dispatcher run, each key has at most one worker from its
  -- dispatch to its exit, and, if a concurrency is configured, at most as many workers are in
  -- Run.
  pub run-single :
      (concurrency : ℕ) (t : State K) (es : List (Event K)) (k : K)
      → run (new concurrency) es ≡ some t
      → (slots_of t.workers k ≤ 1) × ((concurrency ≡ 0) ⊎ (running_in t.workers ≤ concurrency))
  unfolding new
  run-single concurrency t es k h =
      let r = run-owed (new concurrency) t es k (new-IsValid concurrency) h in
      let v : IsValid t = r.0 in
      (
        ground (arith, v.slots k),
        elim (Bool-cases (leb concurrency 0)) [
          | inl z ↦ inl (ground arith)
          | inr n ↦ inr (ground (arith, r.2, v.taken, v.bounded))
        ],
      )

  -- In a valid state of the dispatcher a worker of a key that waits out a delay can end its
  -- wait, on its way to Run, at once after a Wake of the key: the wake is armed before the
  -- worker waits, and is not disarmed while it does.
  pub wake-awakes :
      (s : State K) (i : ℕ) (k : K)
      → IsValid s
      → get_elem? s.workers i ≡ some (k, sleeping)
      → step (wake s k) (awakes i) ≡ some (rise (wake s k) i k queuing)
  unfolding wake fire step place_of work_at work is_asleep
  wake-awakes s i k v h =
      let armed : is_some (get s.wakes k) ≡ true =
        v.armed k (ground (arith, asleep_of-drop_at s.workers i k sleeping k h)) in
      ground (arith, armed, get-put s.wakes k true k)
