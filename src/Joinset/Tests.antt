-- ===== src/Joinset/Tests.antt =====
-- Runs of internal/joinset/joinset.go, and its theorems at them.
use durable.Base.{
  ◌≡◌, refl, true, some, List, [], ◌∷◌, String, String_discrete, String_comparable, contains, pos,
}
use durable.Base.Map.{get, put, delete}
use durable.Joinset.{
  Set, clamp, strike, done_keys, members_of, enlist, register, mark, complete_loop, complete, done,
  set_members, unlist, remove,
}
use durable.Joinset.Invariant.{
  Agrees, register-remove, IsValid, new-IsValid, register-IsValid, mark-IsValid,
}
use durable.Joinset.History.{
  Call, registers, marks, completes, occurrences, step, run, stays, Counts, run-Counts,
}

program : Unit {0}
unfolding String_discrete contains get put delete clamp strike done_keys members_of enlist register
    mark complete_loop complete done set_members unlist remove occurrences step run stays
program = tt

abbrev empty : Set String String
empty = record { waiters = []; by_key = [] }

-- Two of three keys are wanted; one of them twice.
abbrev keys_wanted : List String
keys_wanted = "a" ∷ "b" ∷ "a" ∷ "c" ∷ []

abbrev calls : List (Call String String)
calls =
    registers "w" keys_wanted (pos 2) 7
    ∷ marks "w" "a"
    ∷ completes "a"
    ∷ completes "b"
    ∷ completes "c"
    ∷ []

run-Counts_example :
    (r : Set String String × List String) × (run empty calls ≡ some r) × Counts empty "w" r.0 r.1
unfolding program
run-Counts_example = run-Counts empty calls "w" new-IsValid refl

abbrev marked : Set String String
marked = mark (register empty "w" keys_wanted (pos 2) 7).0 "w" "a"

marked-IsValid : IsValid marked
marked-IsValid =
    mark-IsValid _ "w" "a" (register-IsValid empty "w" keys_wanted (pos 2) 7 new-IsValid)

marked-done : done marked "w" ≡ some ("a" ∷ [])
unfolding program
marked-done = refl

register-remove_example :
    let (t, fresh) = register marked "v" keys_wanted (pos 5) 8 in
    (fresh ≡ true) × ((remove t "v").1 ≡ some 8) × Agrees (remove t "v").0 marked
unfolding program
register-remove_example = register-remove marked "v" keys_wanted (pos 5) 8 marked-IsValid refl
