-- ===== src/Dispatcher/Invariant.antt =====
-- The invariant of internal/dispatcher/dispatcher.go: at most one worker for each key.
use durable.Base.{
  ℕ, zero, suc, ◌≤◌, ◌≡◌, ◌⊎◌, refl, Bool, true, false, some, Comparable, leb, if◌then◌else◌,
  is_some, get_elem?, arith,
}
use durable.Base.Map.{get, get-put, get-delete}
use durable.Watchset.{arm, disarm, fire}
use durable.Dispatcher.{
  Phase, starting, sleeping, queuing, running, returned, redispatching, State, new, drop_at,
  dispatch, wake, clear_active, start, rise, quit, enter, leave, clear,
}
use durable.Dispatcher.Workers.{
  holds_slot, is_running, is_asleep, is_cancelled, cancelled_in, cancelled_in-replace,
  cancelled_in-drop_at, slots_of, asleep_of, running_in, slots_of-replace, asleep_of-replace,
  running_in-replace, slots_of-drop_at, asleep_of-drop_at, running_in-drop_at, starting-counts,
  asleep-le-slots, weigh,
}

module _ {K : Type 0} ⦃kc : Comparable K⦄ where
  pub record IsValid (s : State K) : Type 0 where
    pub slots : (k : K) → slots_of s.workers k ≡ (if is_some (get s.active k) then 1 else 0)
    pub pokes : (k : K) → is_some (get s.repoke k) ≡ true → is_some (get s.active k) ≡ true
    pub armed : (k : K) → 1 ≤ asleep_of s.workers k → is_some (get s.wakes k) ≡ true
    pub taken : leb s.concurrency 0 ≡ false → s.tokens ≡ running_in s.workers
    pub halts : 1 ≤ cancelled_in s.workers → s.is_done ≡ true
    pub bounded : leb s.concurrency 0 ≡ false → s.tokens ≤ s.concurrency

  pub new-IsValid : (concurrency : ℕ) → let s : State K = new concurrency in IsValid s
  unfolding new get slots_of asleep_of running_in cancelled_in weigh
  new-IsValid concurrency = record {
    slots = λ k. refl;
    pokes = λ k h. h;
    armed = λ k h. absurd (omega arith);
    taken = λ h. refl;
    halts = λ h. absurd (omega arith);
    bounded = λ h. omega arith;
  }

  pub dispatch-IsValid : (s : State K) (k : K) (d : ℕ) → IsValid s → IsValid (dispatch s k d)
  unfolding dispatch
  dispatch-IsValid s k d v = record {
    slots =
        λ j. ground (arith, v.slots j, get-put s.active k tt j, starting-counts s.workers k j d);
    pokes = λ j h. ground (arith, v.pokes j, get-put s.active k tt j, get-put s.repoke k tt j);
    armed = λ j h. ground (arith, v.armed j, starting-counts s.workers k j d);
    taken = ground (arith, v.taken, starting-counts s.workers k k d);
    halts = ground (arith, v.halts, starting-counts s.workers k k d);
    bounded = ground (arith, v.bounded);
  }

  pub wake-IsValid : (s : State K) (k : K) → IsValid s → IsValid (wake s k)
  unfolding wake fire
  wake-IsValid s k v = record {
    slots = v.slots;
    pokes = v.pokes;
    armed = λ j h. ground (arith, v.armed j, get-put s.wakes k true j);
    taken = v.taken;
    halts = v.halts;
    bounded = v.bounded;
  }

  module _ (s : State K) (i : ℕ) (k : K) where
    pub start-IsValid :
        (d : ℕ) → IsValid s → get_elem? s.workers i ≡ some (k, starting d) → IsValid (start s i k d)
    unfolding start arm holds_slot is_asleep is_running is_cancelled
    start-IsValid zero v h = record {
      slots = λ j. ground (arith, v.slots j, slots_of-replace s.workers i k (starting 0) queuing j);
      pokes = v.pokes;
      armed =
          λ j e. ground (arith, v.armed j, asleep_of-replace s.workers i k (starting 0) queuing j);
      taken = λ e. ground (arith, v.taken, running_in-replace s.workers i k (starting 0) queuing);
      halts = ground (arith, v.halts, cancelled_in-replace s.workers i k (starting 0) queuing);
      bounded = v.bounded;
    }
    start-IsValid (suc d) v h = record {
      slots = λ j.
          ground (arith, v.slots j, slots_of-replace s.workers i k (starting (suc d)) sleeping j);
      pokes = v.pokes;
      armed = λ j e. ground (
        arith,
        v.armed j,
        asleep_of-replace s.workers i k (starting (suc d)) sleeping j,
        get-put s.wakes k false j,
      );
      taken = λ e.
          ground (arith, v.taken, running_in-replace s.workers i k (starting (suc d)) sleeping);
      halts = λ e.
          ground (arith, v.halts, cancelled_in-replace s.workers i k (starting (suc d)) sleeping);
      bounded = v.bounded;
    }

    -- Only one sleeps, so nobody is left at the signal.
    pub rise-IsValid :
        (b : Phase)
        → IsValid s
        → get_elem? s.workers i ≡ some (k, sleeping)
        → holds_slot b ≡ 1
        → is_asleep b ≡ 0
        → is_running b ≡ 0
        → (is_cancelled b ≡ 0) ⊎ (s.is_done ≡ true)
        → IsValid (rise s i k b)
    unfolding rise disarm holds_slot is_asleep is_running is_cancelled
    rise-IsValid b v h hs ha hr hc = record {
      slots = λ j. ground (arith, v.slots j, slots_of-replace s.workers i k sleeping b j);
      pokes = v.pokes;
      armed = λ j e. ground (
        arith,
        v.armed j,
        v.slots j,
        asleep-le-slots s.workers j,
        asleep_of-replace s.workers i k sleeping b j,
        get-delete s.wakes k j,
      );
      taken = λ e. ground (arith, v.taken, running_in-replace s.workers i k sleeping b);
      halts = ground (arith, v.halts, cancelled_in-replace s.workers i k sleeping b);
      bounded = v.bounded;
    }

    pub quit-IsValid :
        (a : Phase)
        → IsValid s
        → get_elem? s.workers i ≡ some (k, a)
        → holds_slot a ≡ 1
        → is_running a ≡ 0
        → IsValid (quit s i k)
    unfolding quit clear_active
    quit-IsValid a v h hs hr = record {
      slots = λ j.
          ground (arith, v.slots j, slots_of-drop_at s.workers i k a j, get-delete s.active k j);
      pokes = λ j e. ground (arith, v.pokes j, get-delete s.active k j, get-delete s.repoke k j);
      armed = λ j e. ground (arith, v.armed j, asleep_of-drop_at s.workers i k a j);
      taken = λ e. ground (arith, v.taken, running_in-drop_at s.workers i k a);
      halts = ground (arith, v.halts, cancelled_in-drop_at s.workers i k a);
      bounded = v.bounded;
    }

    pub enter-IsValid :
        (t : State K)
        → IsValid s
        → get_elem? s.workers i ≡ some (k, queuing)
        → enter s i k ≡ some t
        → IsValid t
    unfolding enter holds_slot is_asleep is_running is_cancelled
    enter-IsValid t v h e = record {
      slots = λ j. ground (arith, v.slots j, slots_of-replace s.workers i k queuing running j);
      pokes = λ j. ground (arith, v.pokes j);
      armed = λ j. ground (arith, v.armed j, asleep_of-replace s.workers i k queuing running j);
      taken = ground (arith, v.taken, running_in-replace s.workers i k queuing running);
      halts = ground (arith, v.halts, cancelled_in-replace s.workers i k queuing running);
      bounded = ground (arith, v.bounded);
    }

    pub leave-IsValid :
        (d : ℕ) (again : Bool)
        → IsValid s
        → get_elem? s.workers i ≡ some (k, running)
        → IsValid (leave s i k d again)
    unfolding leave holds_slot is_asleep is_running is_cancelled
    leave-IsValid d again v h = record {
      slots = λ j.
          ground (arith, v.slots j, slots_of-replace s.workers i k running (returned d again) j);
      pokes = λ j. ground (arith, v.pokes j);
      armed = λ j.
          ground (arith, v.armed j, asleep_of-replace s.workers i k running (returned d again) j);
      taken = ground (arith, v.taken, running_in-replace s.workers i k running (returned d again));
      halts =
          ground (arith, v.halts, cancelled_in-replace s.workers i k running (returned d again));
      bounded = ground (arith, v.bounded);
    }

    pub clear-IsValid :
        (d : ℕ) (again : Bool)
        → IsValid s
        → get_elem? s.workers i ≡ some (k, returned d again)
        → IsValid (clear s i k d again)
    unfolding clear clear_active holds_slot is_asleep is_running is_cancelled
    clear-IsValid d again v h =
        let b : Phase = redispatching (if is_some (get s.repoke k) then 0 else d) in
        record {
          slots = λ j. ground (
            arith,
            v.slots j,
            slots_of-replace s.workers i k (returned d again) b j,
            slots_of-drop_at s.workers i k (returned d again) j,
            get-delete s.active k j,
          );
          pokes = λ j. ground (arith, v.pokes j, get-delete s.active k j, get-delete s.repoke k j);
          armed = λ j. ground (
            arith,
            v.armed j,
            asleep_of-replace s.workers i k (returned d again) b j,
            asleep_of-drop_at s.workers i k (returned d again) j,
          );
          taken = ground (
            arith,
            v.taken,
            running_in-replace s.workers i k (returned d again) b,
            running_in-drop_at s.workers i k (returned d again),
          );
          halts = ground (
            arith,
            v.halts,
            cancelled_in-replace s.workers i k (returned d again) b,
            cancelled_in-drop_at s.workers i k (returned d again),
          );
          bounded = ground (arith, v.bounded);
        }

    pub redispatch-IsValid :
        (d : ℕ)
        → IsValid s
        → get_elem? s.workers i ≡ some (k, redispatching d)
        → IsValid (record s { workers = drop_at s.workers i })
    unfolding holds_slot is_asleep is_running is_cancelled
    redispatch-IsValid d v h = record {
      slots = λ j. ground (arith, v.slots j, slots_of-drop_at s.workers i k (redispatching d) j);
      pokes = v.pokes;
      armed = λ j. ground (arith, v.armed j, asleep_of-drop_at s.workers i k (redispatching d) j);
      taken = ground (arith, v.taken, running_in-drop_at s.workers i k (redispatching d));
      halts = ground (arith, v.halts, cancelled_in-drop_at s.workers i k (redispatching d));
      bounded = v.bounded;
    }
