-- ===== src/Dispatcher/Owed.antt =====
-- What the stretches of internal/dispatcher/dispatcher.go keep: the invariant, and what is owed to a key.
use durable.Base.{
  ℕ, zero, suc, ◌+◌, ◌≤◌, ◌≡◌, refl, subst, ite, Bool, true, false, none, some, Comparable, ◌≟◌,
  if◌then◌else◌, is_some, get_elem?, arith, inl, inr,
}
use durable.Base.Map.{get, get-put, get-delete}
use durable.Dispatcher.{
  Phase, starting, sleeping, cancelled, queuing, running, returned, redispatching, State, drop_at,
  Event, dispatches, wakes, cancels, starts, expires, awakes, aborts, enters, returns, clears,
  redispatches, dispatch, clear_active, start, rise, quit, enter, leave, clear,
}
use durable.Dispatcher.Workers.{
  is_ahead, ahead_of, ahead_of-replace, ahead_of-drop_at, starting-counts, holds_slot, is_asleep,
  is_running, is_cancelled, cancelled_in-drop_at,
}
use durable.Dispatcher.Invariant.{
  IsValid, dispatch-IsValid, start-IsValid, rise-IsValid, quit-IsValid, enter-IsValid,
  leave-IsValid, clear-IsValid, redispatch-IsValid,
}

module _ {K : Type 0} ⦃kc : Comparable K⦄ where
  -- A worker of the key is on its way to `Run`, or one owes a re-poke.
  abbrev pub owed : State K → K → ℕ
  owed s k = ahead_of s.workers k + (if is_some (get s.repoke k) then 1 else 0)

  -- What a step from `s` does: it keeps the state valid, and, while the context is not done, owes
  -- what was owed, but for a key whose `Run` begins.
  pub record Keeps (s t : State K) (begins : K → Bool) : Type 0 where
    pub valid : IsValid t
    pub owes : (k : K) → t.is_done ≡ false → begins k ≡ false → 1 ≤ owed s k → 1 ≤ owed t k
    pub ends : s.is_done ≡ true → t.is_done ≡ true
    pub size : t.concurrency ≡ s.concurrency

  -- Whether the event is the begin of `Run` for the key.
  abbrev pub begins : State K → Event K → K → Bool
  begins s (dispatches j d) k = false
  begins s (wakes j) k = false
  begins s cancels k = false
  begins s (starts i) k = false
  begins s (expires i) k = false
  begins s (awakes i) k = false
  begins s (aborts i) k = false
  begins s (enters i) k = elim (get_elem? s.workers i) [
    | none ↦ false
    | some w ↦ ite (w.0 ≟ k) true false
  ]
  begins s (returns i d again) k = false
  begins s (clears i) k = false
  begins s (redispatches i) k = false

  abbrev pub never : K → Bool
  never k = false

  pub dispatch-Keeps : (s : State K) (k : K) (d : ℕ) → IsValid s → Keeps s (dispatch s k d) never
  unfolding dispatch
  dispatch-Keeps s k d v = record {
    valid = dispatch-IsValid s k d v;
    ends = λ x. ground arith;
    size = ground arith;
    owes = λ j n b o. ground (arith, starting-counts s.workers k j d, get-put s.repoke k tt j);
  }

  -- The dispatch itself is owed at once.
  pub dispatch-owed : (s : State K) (k : K) (d : ℕ) → 1 ≤ owed (dispatch s k d) k
  unfolding dispatch
  dispatch-owed s k d = ground (arith, starting-counts s.workers k k d, get-put s.repoke k tt k)

  module _ (s : State K) (i : ℕ) (k : K) (v : IsValid s) where
    pub start-Keeps :
        (d : ℕ) → get_elem? s.workers i ≡ some (k, starting d) → Keeps s (start s i k d) never
    unfolding start is_ahead
    start-Keeps zero h = record {
      valid = start-IsValid s i k 0 v h;
      ends = λ x. ground arith;
      size = ground arith;
      owes = λ j n b o. ground (arith, ahead_of-replace s.workers i k (starting 0) queuing j);
    }
    start-Keeps (suc d) h = record {
      valid = start-IsValid s i k (suc d) v h;
      ends = λ x. ground arith;
      size = ground arith;
      owes =
          λ j n b o. ground (arith, ahead_of-replace s.workers i k (starting (suc d)) sleeping j);
    }

    pub rise-Keeps : get_elem? s.workers i ≡ some (k, sleeping) → Keeps s (rise s i k queuing) never
    unfolding rise is_ahead holds_slot is_asleep is_running is_cancelled
    rise-Keeps h = record {
      valid = rise-IsValid s i k queuing v h refl refl refl (inl refl);
      ends = λ x. ground arith;
      size = ground arith;
      owes = λ j n b o. ground (arith, ahead_of-replace s.workers i k sleeping queuing j);
    }

    pub abort-Keeps :
        s.is_done ≡ true
        → get_elem? s.workers i ≡ some (k, sleeping)
        → Keeps s (rise s i k cancelled) never
    unfolding rise holds_slot is_asleep is_running is_cancelled
    abort-Keeps e h = record {
      valid = rise-IsValid s i k cancelled v h refl refl refl (inr e);
      ends = λ x. ground arith;
      size = ground arith;
      owes = λ j n b o. absurd (ground arith);
    }

    pub enter-Keeps :
        (t : State K)
        → get_elem? s.workers i ≡ some (k, queuing)
        → enter s i k ≡ some t
        → Keeps s t (begins s (enters i))
    unfolding enter is_ahead
    enter-Keeps t h e = record {
      valid = enter-IsValid s i k t v h e;
      ends = λ x. ground arith;
      size = ground arith;
      owes = λ j n b o. ground (arith, ahead_of-replace s.workers i k queuing running j);
    }

    pub leave-Keeps :
        (d : ℕ) (again : Bool)
        → get_elem? s.workers i ≡ some (k, running)
        → Keeps s (leave s i k d again) never
    unfolding leave is_ahead
    leave-Keeps d again h = record {
      valid = leave-IsValid s i k d again v h;
      ends = λ x. ground arith;
      size = ground arith;
      owes = λ j n b o. ground (arith, ahead_of-replace s.workers i k running (returned d again) j);
    }

    pub clear-Keeps :
        (d : ℕ) (again : Bool)
        → get_elem? s.workers i ≡ some (k, returned d again)
        → Keeps s (clear s i k d again) never
    unfolding clear clear_active is_ahead
    clear-Keeps d again h =
        let b : Phase = redispatching (if is_some (get s.repoke k) then 0 else d) in
        record {
          valid = clear-IsValid s i k d again v h;
          ends = λ x. ground arith;
          size = ground arith;
          owes = λ j n e o. ground (
            arith,
            ahead_of-replace s.workers i k (returned d again) b j,
            ahead_of-drop_at s.workers i k (returned d again) j,
            get-delete s.repoke k j,
          );
        }

    pub redispatch-Keeps :
        (d : ℕ)
        → get_elem? s.workers i ≡ some (k, redispatching d)
        → Keeps s (dispatch (record s { workers = drop_at s.workers i }) k d) never
    unfolding is_ahead
    redispatch-Keeps d h =
        let t : State K = record s { workers = drop_at s.workers i } in
        let tv : IsValid t = redispatch-IsValid s i k d v h in
        let next = dispatch-Keeps t k d tv in
        record {
          valid = next.valid;
          ends = λ x. next.ends x;
          size = next.size;
          owes = λ j n e o. elim (k ≟ j) [
            | yes same ↦ subst (λ x. 1 ≤ owed (dispatch t k d) x) same (dispatch-owed t k d)
            | no other ↦
                next.owes j n e (ground (arith, ahead_of-drop_at s.workers i k (redispatching d) j))
          ];
        }

    pub quit-Keeps :
        (a : Phase)
        → s.is_done ≡ true
        → get_elem? s.workers i ≡ some (k, a)
        → holds_slot a ≡ 1
        → is_running a ≡ 0
        → Keeps s (quit s i k) never
    unfolding quit clear_active
    quit-Keeps a e h hs hr = record {
      valid = quit-IsValid s i k a v h hs hr;
      ends = λ x. ground arith;
      size = ground arith;
      owes = λ j n b o. absurd (ground arith);
    }

    pub cancelled-done : get_elem? s.workers i ≡ some (k, cancelled) → s.is_done ≡ true
    unfolding is_cancelled
    cancelled-done h = v.halts (ground (arith, cancelled_in-drop_at s.workers i k cancelled h))
