-- ===== src/Runpool/Tests.antt =====
-- Runs of internal/runpool/runpool.go, and its theorems at them.
use durable.Base.{
  ℕ, ◌≡◌, refl, sym, subst, ◌∙◌, some_inj, true, false, Option, none, some, List, [], ◌∷◌, String,
  String_discrete, String_comparable, leb, contains, delete_all, arith,
}
use durable.Base.Map.{Map, get, put, delete}
use durable.Base.Order.{Ordered}
use durable.Runpool.{
  new, first, head, delete_at, insert_at, search_place, insert, index_from, leave_line, class_for,
  enter, admit, take_place, ask, acquire, forget, hold, release, clear, holds, parked_on, snapshot,
  pending_count, pending_of,
}
use durable.Runpool.Line.{stands, place}
use durable.Runpool.Invariant.{IsValid, line_of}
use durable.Runpool.Runs.{
  Call, admits, acquires, releases, Entry, returns, keeps, System, called, step, run, recover,
  recovered, IsSound, Bounds, run-recovered,
}
use durable.Runpool.Grants.{fits, lower, Answer, acquire-Answer}
use durable.Runpool.Overtaking.{acquire-next}
use durable.Runpool.Admission.{Admission, admit-Admission}

instance ℕ_ordered : Ordered ℕ
ℕ_ordered = record { le = leb; total = λ a b h. ground arith; trans = λ a b c h j. ground arith }

program : Unit {0}
unfolding ℕ_ordered String_discrete contains delete_all get put delete new first head delete_at
    insert_at search_place insert index_from leave_line class_for enter admit take_place ask acquire
    forget hold release clear holds parked_on snapshot pending_count pending_of stands place step
    run recover called lower
program = tt

abbrev limits : Map String ℕ
limits = ("batch", 1) ∷ []

abbrev class_of : String → String
class_of w = "batch"

-- One Run had started before the restart; two more come back.
abbrev entries : List (Entry String ℕ)
entries = keeps "a" ∷ returns "b" 2 0 ∷ returns "c" 3 0 ∷ []

-- The two ask and are refused; the first one ends.
abbrev calls : List (Call String ℕ)
calls = acquires "c" 3 ∷ acquires "b" 2 ∷ releases "a" ∷ []

abbrev before : System String String ℕ
before = recovered class_of limits entries

abbrev or_start : Option (System String String ℕ) → System String String ℕ
or_start none = before
or_start (some s) = s

run-IsValid :
    (limits : Map String ℕ) (es : List (Entry String ℕ)) (cs : List (Call String ℕ))
    (s : System String String ℕ)
    → run class_of (recovered class_of limits es) cs ≡ some s
    → IsValid class_of s.pool
run-IsValid limits es cs s h =
    let (t, e, v, b) = run-recovered class_of limits es cs in
    let same : t ≡ s = some_inj (sym e ∙ h) in
    subst (λ (u : System String String ℕ). IsValid class_of u.pool) same v.valid

abbrev waiting : System String String ℕ
unfolding program
waiting = or_start (run class_of before calls)

run-recovered_example :
    (t : System String String ℕ) × (run class_of before calls ≡ some t)
    × IsSound class_of t
    × Bounds class_of before.pool t.pool
run-recovered_example = run-recovered class_of limits entries calls

run-waiting : run class_of before calls ≡ some waiting
unfolding program
run-waiting = refl

-- The head of the line is owed a wake.
run-owed : waiting.owed ≡ "b" ∷ []
unfolding program
run-owed = refl

waiting-IsValid : IsValid class_of waiting.pool
waiting-IsValid = run-IsValid limits entries calls waiting run-waiting

acquire-Answer_example :
    let r = acquire waiting.pool "batch" "b" 2 in
    (r.1 ≡ fits waiting.pool "batch" "b" 2) × Answer class_of waiting.pool "b" r.1 r.0 "b"
acquire-Answer_example = acquire-Answer class_of waiting.pool "b" 2 "b" waiting-IsValid

abbrev wide : Map String ℕ
wide = ("batch", 2) ∷ []

abbrev arrivals : List (Call String ℕ)
arrivals = admits "b" 2 0 ∷ admits "c" 3 0 ∷ []

abbrev lined_up : System String String ℕ
unfolding program
lined_up = or_start (run class_of (recovered class_of wide []) arrivals)

run-lined_up : run class_of (recovered class_of wide []) arrivals ≡ some lined_up
unfolding program
run-lined_up = refl

lined_up-IsValid : IsValid class_of lined_up.pool
lined_up-IsValid = run-IsValid wide [] arrivals lined_up run-lined_up

-- The second in line is let past the first, whose place is kept free.
acquire-next_example :
    let q = (acquire lined_up.pool "batch" "c" 3).0 in (acquire q "batch" "b" 2).1 ≡ true
unfolding program
acquire-next_example =
    acquire-next class_of lined_up.pool "c" "b" 3 2 lined_up-IsValid refl refl (omega arith) refl

admit-Admission_example :
    let r = admit lined_up.pool "batch" "d" 1 3 in Admission lined_up.pool "batch" "d" 1 3 r.1 r.0
admit-Admission_example =
    admit-Admission lined_up.pool "batch" "d" 1 3 (lined_up-IsValid.sorted "batch")

admit-head :
    line_of (admit lined_up.pool "batch" "d" 1 3).0 "batch"
    ≡ record { w = "d"; order = 1 }
      ∷ record { w = "b"; order = 2 }
      ∷ record { w = "c"; order = 3 }
      ∷ []
unfolding program
admit-head = refl

admit-full : (admit lined_up.pool "batch" "d" 1 2).1 ≡ false
unfolding program
admit-full = refl
