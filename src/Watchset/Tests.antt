-- ===== src/Watchset/Tests.antt =====
-- Runs of internal/watchset/watchset.go, and its theorems at them.
use durable.Base.{
  ◌≡◌, refl, true, some, List, [], ◌∷◌, String, String_discrete, ℕ_discrete, String_comparable,
  contains, ℕ_comparable,
}
use durable.Base.Map.{get, put, delete}
use durable.Watchset.{Set, watchers_of, watch, remove_first, cancel, close_all, notify}
use durable.Watchset.Closing.{IsValid, new-IsValid, watch-IsValid}
use durable.Watchset.History.{
  Call, watches, cancels, notifies, step, run, notified, cancelled, run-closes,
}

program : Unit {0}
unfolding ℕ_discrete String_discrete contains get put delete watchers_of watch remove_first cancel
    close_all notify step run notified cancelled
program = tt

abbrev empty : Set String
empty = record { watchers = []; closed = []; next = 0 }

abbrev watched : Set String
watched = (watch empty "run").0

watched-IsValid : IsValid watched
watched-IsValid = watch-IsValid empty "run" new-IsValid

-- A second watcher gives up before the run is notified.
abbrev calls : List (Call String)
calls = watches "run" ∷ notifies "other" ∷ cancels "run" 1 ∷ notifies "run" ∷ watches "run" ∷ []

run-closes_example :
    (t : Set String) × (run watched calls ≡ some t)
    × IsValid t
    × (contains t.closed 0 ≡ notified "run" calls)
unfolding program
run-closes_example = run-closes watched calls "run" 0 watched-IsValid refl refl

calls-notified : notified "run" calls ≡ true
unfolding program
calls-notified = refl
