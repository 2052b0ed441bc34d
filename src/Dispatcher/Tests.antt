-- ===== src/Dispatcher/Tests.antt =====
-- Runs of internal/dispatcher/dispatcher.go, and its theorems at them.
use durable.Base.{
  ◌≤◌, ◌≡◌, ◌⊎◌, refl, true, false, Option, none, some, List, [], ◌∷◌, String, String_discrete,
  String_comparable, ℕ,
}
use durable.Base.Map.{get, put, delete}
use durable.Watchset.{arm, disarm, fire}
use durable.Dispatcher.{
  State, new, Event, dispatches, starts, awakes, enters, returns, clears, replace, drop_at,
  dispatch, wake, clear_active, start, rise, quit, enter, leave, clear, work, place_of, work_at,
  step, queuing, redispatching,
}
use durable.Dispatcher.Workers.{slots_of, running_in}
use durable.Dispatcher.Invariant.{IsValid, new-IsValid}
use durable.Dispatcher.Owed.{owed}
use durable.Dispatcher.Runs.{run, begins_in, dispatch-owed_until, run-owed}
use durable.Dispatcher.Single.{run-single, wake-awakes}

program : Unit {0}
unfolding String_discrete get put delete arm disarm fire new replace drop_at dispatch wake
    clear_active start rise quit enter leave clear work place_of work_at step run begins_in
program = tt

-- A worker is in `Run` when its key is dispatched again; it exits and is to come back at once.
abbrev exits : List (Event String)
exits = starts 0 ∷ enters 0 ∷ dispatches "k" 5 ∷ returns 0 9 false ∷ clears 0 ∷ []

abbrev or_new : Option (State String) → State String
or_new none = new 1
or_new (some s) = s

abbrev exited : State String
unfolding program
exited = or_new (run (new 1) (dispatches "k" 0 ∷ exits))

run-exited : run (new 1) (dispatches "k" 0 ∷ exits) ≡ some exited
unfolding program
run-exited = refl

exited-workers : exited.workers ≡ ("k", redispatching 0) ∷ []
unfolding program
exited-workers = refl

run-single_example :
    let n : ℕ = 1 in (slots_of exited.workers "k" ≤ 1) × ((n ≡ 0) ⊎ (running_in exited.workers ≤ n))
run-single_example = run-single 1 exited (dispatches "k" 0 ∷ exits) "k" run-exited

-- The worker in `Run` when the second dispatch comes.
abbrev busy : State String
unfolding program
busy = or_new (run (new 1) (dispatches "k" 0 ∷ starts 0 ∷ enters 0 ∷ []))

run-busy : run (new 1) (dispatches "k" 0 ∷ starts 0 ∷ enters 0 ∷ []) ≡ some busy
unfolding program
run-busy = refl

busy-IsValid : IsValid busy
busy-IsValid =
    (run-owed (new 1) busy (dispatches "k" 0 ∷ starts 0 ∷ enters 0 ∷ []) "k" (new-IsValid 1)
      run-busy).0

abbrev exit : List (Event String)
exit = returns 0 9 false ∷ clears 0 ∷ []

run-exit : run (dispatch busy "k" 5) exit ≡ some exited
unfolding program
run-exit = refl

dispatch-owed_until_example :
    (1 ≤ owed exited "k")
    ⊎ (begins_in (dispatch busy "k" 5) exit "k" ≡ true)
    ⊎ (exited.is_done ≡ true)
dispatch-owed_until_example = dispatch-owed_until busy exited exit "k" 5 busy-IsValid run-exit

abbrev asleep : State String
unfolding program
asleep = or_new (run (new 1) (dispatches "k" 5 ∷ starts 0 ∷ []))

run-asleep : run (new 1) (dispatches "k" 5 ∷ starts 0 ∷ []) ≡ some asleep
unfolding program
run-asleep = refl

asleep-IsValid : IsValid asleep
asleep-IsValid =
    (run-owed (new 1) asleep (dispatches "k" 5 ∷ starts 0 ∷ []) "k" (new-IsValid 1) run-asleep).0

wake-awakes_example :
    step (wake asleep "k") (awakes 0) ≡ some (rise (wake asleep "k") 0 "k" queuing)
unfolding program
wake-awakes_example = wake-awakes asleep 0 "k" asleep-IsValid refl
