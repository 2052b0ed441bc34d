-- ===== src/Blobcache/Tests.antt =====
-- Runs of store/bbolt/blobcache.go, and its theorems at them.
use durable.Base.{◌≡◌, refl, true, false, List, [], ◌∷◌, String_discrete, ℕ_discrete, contains}
use durable.Base.Map.{get, put, delete}
use durable.Blobcache.{
  RunBlobs, new, find, unlink, touched, evict_back, evict, old_length, set_input, set_state,
  set_output, states_length, need, fill, drop_run, lookup, input, state, output, has,
}
use durable.Blobcache.Invariant.{IsValid}
use durable.Blobcache.Coherence.{
  File, Call, puts_input, puts_state, uses, step, saved, with_input, with_output, with_state,
}
use durable.Blobcache.Runs.{run, saved_all, Serves, run-Serves, set_state-fill}

program : Unit {0}
unfolding String_discrete ℕ_discrete contains get put delete find unlink touched evict_back evict
    old_length set_input set_state set_output states_length need fill drop_run lookup input state
    output has step saved with_input with_output with_state run saved_all
program = tt

abbrev bare : File
bare = record { input = λ j. []; state = λ j s. []; output = λ j. [] }

-- The inputs of two runs of three bytes each and a state of two, with room for six.
abbrev calls : List Call
calls =
    puts_input "a" (1 ∷ 2 ∷ 3 ∷ [])
    ∷ puts_input "b" (4 ∷ 5 ∷ 6 ∷ [])
    ∷ uses "a"
    ∷ puts_state "a" "build" (7 ∷ 8 ∷ [])
    ∷ []

-- The least recently used run is gone.
run-evicts :
    (has (run (new 6) calls) "a" ≡ true)
    × (has (run (new 6) calls) "b" ≡ false)
    × (state (run (new 6) calls) "a" "build" ≡ 7 ∷ 8 ∷ [])
unfolding program
run-evicts = (refl, refl, refl)

run-Serves_example :
    IsValid (run (new 6) calls) × Serves (saved_all bare calls) (run (new 6) calls) "a" "build"
run-Serves_example = run-Serves 6 bare calls "a" "build" (tt, (tt, (tt, (tt, tt))))

abbrev from_file : RunBlobs
from_file = record { id = "b"; input = 4 ∷ 5 ∷ 6 ∷ []; states = []; output = []; size = 0 }

set_state-fill_example :
    (input (set_state (run (new 6) calls) "b" "build" []) "b" ≡ ([], true))
    × (fill (set_state (run (new 6) calls) "b" "build" []) "b" from_file
        ≡ set_state (run (new 6) calls) "b" "build" [])
unfolding program
set_state-fill_example = set_state-fill (run (new 6) calls) "b" "build" from_file refl refl
