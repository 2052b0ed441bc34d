-- ===== src/Tokenpool/Tests.antt =====
-- Runs of internal/tokenpool/tokenpool.go, and its theorems at them.
use durable.Base.{
  ℕ, ◌+◌, ◌≤◌, ◌≡◌, refl, true, false, Option, none, some, List, [], ◌∷◌, String, String_discrete,
  String_comparable, contains, delete_all, pos,
}
use durable.Base.Map.{Map, get, put, delete}
use durable.Tokenpool.{
  next_waiter, new, leave, unpark, proceed, take_token, vacate, enqueue, park, class_for, gate,
  acquire, release, clear, snapshot, parked_on,
}
use durable.Tokenpool.Views.{IsValid}
use durable.Tokenpool.Invariant.{new-IsValid}
use durable.Tokenpool.Wakes.{
  System, Call, acquires, releases, step, run, IsServed, start, start-IsServed, run-IsServed,
}
use durable.Tokenpool.Tokens.{
  Acquires, all_taken, all_returned, acquire-Acquires, outstanding-le-capacity,
}
use durable.Tokenpool.Outcome.{is_granted, is_held, Outcome, acquire-Outcome}

program : Unit {0}
unfolding String_discrete contains delete_all get put delete next_waiter new leave unpark proceed
    take_token vacate enqueue park class_for gate acquire release clear snapshot parked_on step run
    all_taken all_returned
program = tt

abbrev limits : Map String ℕ
limits = ("gpu", 1) ∷ []

-- One run holds the token and two wait; the token comes back and the head takes it.
abbrev calls : List (Call String String)
calls =
    acquires "gpu" "a" false 0
    ∷ acquires "gpu" "b" false 5
    ∷ acquires "gpu" "c" false 6
    ∷ releases "gpu"
    ∷ []

abbrev or_start : Option (System String String) → System String String
or_start none = start limits
or_start (some s) = s

abbrev waiting : System String String
unfolding program
waiting = or_start (run (start limits) calls)

waiting_owed : waiting.owed ≡ "b" ∷ []
unfolding program
waiting_owed = refl

waiting_runs : run (start limits) calls ≡ some waiting
unfolding program
waiting_runs = refl

run-IsServed_example : IsValid waiting.pool × IsServed waiting
run-IsServed_example =
    run-IsServed (start limits) waiting calls (new-IsValid limits) (start-IsServed limits)
      waiting_runs

outstanding-le-capacity_example :
    all_taken (start limits) calls "gpu" ≤ 1 + all_returned {W = String} calls "gpu"
unfolding program
outstanding-le-capacity_example =
    outstanding-le-capacity limits waiting calls "gpu" 1 refl waiting_runs

acquire-Acquires_example :
    Acquires waiting.pool "gpu" "b" (acquire waiting.pool "gpu" "b" false 9) "gpu"
acquire-Acquires_example =
    acquire-Acquires waiting.pool "gpu" "b" false 9 "gpu" run-IsServed_example.0

acquire-Outcome_example :
    Outcome waiting.pool "gpu" "b"
      (is_granted waiting.pool "gpu" false)
      (is_held waiting.pool "gpu" false)
      9
      "b"
      (acquire waiting.pool "gpu" "b" false 9)
acquire-Outcome_example = acquire-Outcome waiting.pool "gpu" "b" false 9 "b" run-IsServed_example.0

-- The woken waiter takes the token after four units of time; the next one stays in line.
woken :
    (acquire waiting.pool "gpu" "b" false 9).1
    ≡ record { granted = true; held = true; waited = pos 4; kicks = [] }
unfolding program
woken = refl
