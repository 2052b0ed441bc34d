-- ===== src/Memstore/Refines.antt =====
-- Histories of calls of store/mem/mem.go, and the same calls on the records alone.
use durable.Base.{
  ℕ, ◌≡◌, ◌⊎◌, refl, sym, ap, subst, Bool, true, false, Option, none, some, List, [], ◌∷◌,
  String_comparable, if◌then◌else◌, is_some, All, Bool-cases, Option-cases, inl, inr,
}
use durable.Base.Map.{Map, get, put}
use durable.Kernel.{PipelineId, ResourceId, RunId, Time, Outcome}
use durable.Driver.{RunRecord, CancelRequest, Transition, terminal}
use durable.Driver.Copies.{clone-same}
use durable.Memstore.{
  State, StoreError, run_not_found, run_terminal, Result, ok, fails, panics, Created, created,
  existing, occupant, excluded, persist, create_run, get_active_run_id, get_run, written, finish,
  settle, transit, apply_transition, reap_loop, reap_terminal, request_cancel,
}
use durable.Memstore.Keys.{is_nul_free}
use durable.Memstore.Invariant.{IsValid, IsFresh, seed-same, persist-IsValid}
use durable.Memstore.Transit.{transit-IsValid, cancel-IsValid}
use durable.Memstore.Reap.{reap-IsValid}
use durable.Memstore.Spec.{find_live, first_live, slot-Agree}

pub data Call : Type 0 where
  creates : RunRecord → List PipelineId → Call
  applies : RunId → Transition → Call
  reaps : Time → ℕ → Call
  cancels : RunId → CancelRequest → Call
  asks : PipelineId → ResourceId → Call
  reads : RunId → Call

pub data Answer : Type 0 where
  made : Answer
  occupied : RunRecord → Answer
  done : Answer
  refused : StoreError → Answer
  reaped : ℕ → Answer
  accepts : Bool → Answer
  active : Option RunId → Answer
  holds : RunRecord → Answer

-- The state after a call, and its answer; `none` is a panic.
unfoldable pub after_create : Result (State × Created) → Option (State × Answer)
after_create (ok (s, created)) = some (s, made)
after_create (ok (s, existing r)) = some (s, occupied r)
after_create (fails e) = none
after_create panics = none

unfoldable pub after_apply : State → Result State → Option (State × Answer)
after_apply s (ok t) = some (t, done)
after_apply s (fails e) = some (s, refused e)
after_apply s panics = none

unfoldable pub after_cancel : State → Result (State × Bool) → Option (State × Answer)
after_cancel s (ok (t, b)) = some (t, accepts b)
after_cancel s (fails e) = some (s, refused e)
after_cancel s panics = none

unfoldable pub after_read : State → Result RunRecord → Option (State × Answer)
after_read s (ok r) = some (s, holds r)
after_read s (fails e) = some (s, refused e)
after_read s panics = none

unfoldable pub step : State → Call → Option (State × Answer)
step s (creates r ps) = after_create (create_run s r ps)
step s (applies id t) = after_apply s (apply_transition s id t)
step s (reaps before limit) =
    some ((reap_terminal s before limit).0, reaped (reap_terminal s before limit).1)
step s (cancels id req) = after_cancel s (request_cancel s id req)
step s (asks p res) = some (s, active (get_active_run_id s p res))
step s (reads id) = after_read s (get_run s id)

-- The records after a call, and its answer.
unfoldable pub settled : RunRecord → Transition → Option Outcome → RunRecord
settled w t none = w
settled w t (some o) = finish w o t.output

unfoldable pub spec_step : Map RunId RunRecord → Call → Map RunId RunRecord × Answer
spec_step m (creates r ps) = elim (first_live m r.resource_id (r.pipeline_id ∷ ps)) [
  | none ↦ (put m r.run_id r, made)
  | some q ↦ (m, occupied q)
]
spec_step m (applies id t) = elim (get m id) [
  | none ↦ (m, refused run_not_found)
  | some r ↦
      if terminal r
      then (m, refused run_terminal)
      else (put m id (settled (written r t) t t.outcome), done)
]
spec_step m (reaps before limit) =
    ((reap_loop before limit m 0 m).0, reaped (reap_loop before limit m 0 m).1)
spec_step m (cancels id req) = elim (get m id) [
  | none ↦ (m, refused run_not_found)
  | some r ↦
      if terminal r
      then (m, refused run_terminal)
      else if is_some r.cancel
      then (m, accepts false)
      else (put m id (record r { cancel = some req }), accepts true)
]
spec_step m (asks p res) =
    (m, active (elim (find_live m p res) [ none ↦ none | some e ↦ some e.0 ]))
spec_step m (reads id) = elim (get m id) [
  | none ↦ (m, refused run_not_found)
  | some r ↦ (m, holds r)
]

-- A new record is not terminal and has a new id; the names of pipelines have no NUL.
abbrev pub IsAllowed : Map RunId RunRecord → Call → Type 0
IsAllowed m (creates r ps) = IsFresh m r × All (λ p. is_nul_free p ≡ true) ps
IsAllowed m (applies id t) = Unit {0}
IsAllowed m (reaps before limit) = Unit {0}
IsAllowed m (cancels id req) = Unit {0}
IsAllowed m (asks p res) = is_nul_free p ≡ true
IsAllowed m (reads id) = Unit {0}

-- The call answers as on the records alone, and leaves these records.
abbrev pub Simulates : Option (State × Answer) → Map RunId RunRecord × Answer → Type 0
Simulates o x = (t : State) × (o ≡ some (t, x.1)) × (t.runs ≡ x.0) × IsValid t

excluded-Agree :
    (s : State) (res : ResourceId) (ps : List PipelineId)
    → IsValid s
    → All (λ p. is_nul_free p ≡ true) ps
    → ((first_live s.runs res ps ≡ none) × (excluded s.slots res ps ≡ none))
      ⊎ ((id : RunId) × (r : RunRecord) × (first_live s.runs res ps ≡ some r)
          × (excluded s.slots res ps ≡ some id)
          × (get s.runs id ≡ some r))
unfolding first_live excluded
excluded-Agree s res [] v a = inl (refl, refl)
excluded-Agree s res (p ∷ ps) v a = elim (slot-Agree s p res v a.0) [
  | inl (e, g) ↦ rw (e, first_live) (rw (g, excluded) (excluded-Agree s res ps v a.1))
  | inr (id, r, e, g, h) ↦ inr (id, r, rw (e, first_live) refl, rw (g, excluded) refl, h)
]

stays-Simulates : (s : State) (a : Answer) → IsValid s → Simulates (some (s, a)) (s.runs, a)
stays-Simulates s a v = (s, refl, refl, v)

turns-Simulates :
    (t : State) (m : Map RunId RunRecord) (a : Answer)
    → t.runs ≡ m
    → IsValid t
    → Simulates (some (t, a)) (m, a)
turns-Simulates t m a e v = (t, refl, e, v)

by :
    {o o' : Option (State × Answer)} {x x' : Map RunId RunRecord × Answer}
    → o ≡ o'
    → x ≡ x'
    → Simulates o' x'
    → Simulates o x
by e h q = rw e (rw h q)

-- The occupying record is answered as it is stored.
occupant-Simulates :
    (s : State) (id : RunId) (r : RunRecord)
    → IsValid s
    → get s.runs id ≡ some r
    → Simulates (after_create (occupant s id)) (s.runs, occupied r)
unfolding after_create occupant
occupant-Simulates s id r v g =
    let st = v.stored id r g in
    by (rw (g, occupant) (rw (clone-same r st.steps st.annotations) refl)) refl
      (stays-Simulates s (occupied r) v)

create-Simulates :
    (s : State) (r : RunRecord) (ps : List PipelineId)
    → IsValid s
    → IsAllowed s.runs (creates r ps)
    → Simulates (step s (creates r ps)) (spec_step s.runs (creates r ps))
unfolding step spec_step first_live create_run after_create persist
create-Simulates s r ps v a =
    let keep : (persist s r).runs ≡ put s.runs r.run_id r =
      ap (put s.runs r.run_id) (seed-same s r a.0) in
    elim (slot-Agree s r.pipeline_id r.resource_id v a.0.nul_free) [
      | inr (id, q, e, g, h) ↦
          by (rw (g, create_run) refl) (rw (e, spec_step, first_live) refl)
            (occupant-Simulates s id q v h)
      | inl (e, g) ↦ elim (excluded-Agree s r.resource_id ps v a.1) [
        | inr (id, q, e', g', h) ↦
            by (rw (g, create_run) (rw g' refl)) (rw (e, spec_step, first_live) (rw e' refl))
              (occupant-Simulates s id q v h)
        | inl (e', g') ↦
            by (rw (g, create_run) (rw g' refl)) (rw (e, spec_step, first_live) (rw e' refl)) (
              turns-Simulates (persist s r) (put s.runs r.run_id r) made keep
                (persist-IsValid s r v a.0 g))
      ]
    ]

pub settle-runs :
    (s : State) (id : RunId) (w : RunRecord) (t : Transition) (o : Option Outcome)
    → (settle s id w t o).runs ≡ put s.runs id (settled w t o)
unfolding settle settled
settle-runs s id w t none = refl
settle-runs s id w t (some o) = refl

apply-Simulates :
    (s : State) (id : RunId) (t : Transition)
    → IsValid s
    → Simulates (step s (applies id t)) (spec_step s.runs (applies id t))
unfolding step spec_step apply_transition after_apply transit
apply-Simulates s id t v = elim (Option-cases (get s.runs id)) [
  | inl e ↦
      by (rw (e, apply_transition) refl) (rw (e, spec_step) refl)
        (stays-Simulates s (refused run_not_found) v)
  | inr (r, e) ↦ elim (Bool-cases (terminal r)) [
    | inl h ↦
        by (rw (e, apply_transition) (rw h refl)) (rw (e, spec_step) (rw h refl))
          (stays-Simulates s (refused run_terminal) v)
    | inr h ↦ by (rw (e, apply_transition) (rw h refl)) (rw (e, spec_step) (rw h refl)) (
        turns-Simulates (transit s id r t) (put s.runs id (settled (written r t) t t.outcome)) done
          (settle-runs s id (written r t) t t.outcome) (transit-IsValid s id r t v e h))
  ]
]

cancel-Simulates :
    (s : State) (id : RunId) (req : CancelRequest)
    → IsValid s
    → Simulates (step s (cancels id req)) (spec_step s.runs (cancels id req))
unfolding step spec_step request_cancel after_cancel
cancel-Simulates s id req v = elim (Option-cases (get s.runs id)) [
  | inl e ↦
      by (rw (e, request_cancel) refl) (rw (e, spec_step) refl)
        (stays-Simulates s (refused run_not_found) v)
  | inr (r, e) ↦ elim (Bool-cases (terminal r)) [
    | inl h ↦
        by (rw (e, request_cancel) (rw h refl)) (rw (e, spec_step) (rw h refl))
          (stays-Simulates s (refused run_terminal) v)
    | inr h ↦ elim (Bool-cases (is_some r.cancel)) [
      | inl c ↦
          by (rw (e, request_cancel) (rw h (rw c refl))) (rw (e, spec_step) (rw h (rw c refl)))
            (stays-Simulates s (accepts false) v)
      | inr c ↦
          by (rw (e, request_cancel) (rw h (rw c refl))) (rw (e, spec_step) (rw h (rw c refl))) (
            turns-Simulates (record s { runs = put s.runs id (record r { cancel = some req }) })
              (put s.runs id (record r { cancel = some req })) (accepts true) refl
              (cancel-IsValid s id r req v e h))
    ]
  ]
]

reap-Simulates :
    (s : State) (before : Time) (limit : ℕ)
    → IsValid s
    → Simulates (step s (reaps before limit)) (spec_step s.runs (reaps before limit))
unfolding step spec_step reap_terminal
reap-Simulates s before limit v =
    ((reap_terminal s before limit).0, refl, refl, reap-IsValid s before limit v)

ask-Simulates :
    (s : State) (p : PipelineId) (res : ResourceId)
    → IsValid s
    → is_nul_free p ≡ true
    → Simulates (step s (asks p res)) (spec_step s.runs (asks p res))
unfolding step spec_step get_active_run_id
ask-Simulates s p res v n = elim (slot-Agree s p res v n) [
  | inl (e, g) ↦ by (rw g refl) (rw (e, spec_step) refl) (stays-Simulates s (active none) v)
  | inr (id, r, e, g, h) ↦
      by (rw g refl) (rw (e, spec_step) refl) (stays-Simulates s (active (some id)) v)
]

read-Simulates :
    (s : State) (id : RunId)
    → IsValid s
    → Simulates (step s (reads id)) (spec_step s.runs (reads id))
unfolding step spec_step get_run after_read
read-Simulates s id v = elim (Option-cases (get s.runs id)) [
  | inl e ↦
      by (rw (e, get_run) refl) (rw (e, spec_step) refl)
        (stays-Simulates s (refused run_not_found) v)
  | inr (r, e) ↦
      let st = v.stored id r e in
      by (rw (e, get_run) (rw (clone-same r st.steps st.annotations) refl)) (rw (e, spec_step) refl)
        (stays-Simulates s (holds r) v)
]

pub step-Simulates :
    (s : State) (c : Call)
    → IsValid s
    → IsAllowed s.runs c
    → Simulates (step s c) (spec_step s.runs c)
step-Simulates s (creates r ps) v a = create-Simulates s r ps v a
step-Simulates s (applies id t) v a = apply-Simulates s id t v
step-Simulates s (reaps before limit) v a = reap-Simulates s before limit v
step-Simulates s (cancels id req) v a = cancel-Simulates s id req v
step-Simulates s (asks p res) v a = ask-Simulates s p res v a
step-Simulates s (reads id) v a = read-Simulates s id v

-- A history of calls, and its answers.
unfoldable pub run : State → List Call → Option (State × List Answer)
run s [] = some (s, [])
run s (c ∷ cs) = elim (step s c) [
  | none ↦ none
  | some (t, a) ↦ elim (run t cs) [ none ↦ none | some (u, answers) ↦ some (u, a ∷ answers) ]
]

unfoldable pub spec_run : Map RunId RunRecord → List Call → Map RunId RunRecord × List Answer
spec_run m [] = (m, [])
spec_run m (c ∷ cs) = let x = spec_step m c in let y = spec_run x.0 cs in (y.0, x.1 ∷ y.1)

abbrev pub AreAllowed : Map RunId RunRecord → List Call → Type 0
AreAllowed m [] = Unit {0}
AreAllowed m (c ∷ cs) = IsAllowed m c × AreAllowed (spec_step m c).0 cs

-- Let a history of CreateRun, ApplyTransition, ReapTerminal, RequestCancel, GetActiveRunID and
-- GetRun start in a valid state of the store in memory, each created record be new, with a fresh
-- id and no outcome, and the pipelines named be free of NUL. Then no call panics, the state stays
-- valid, and every call answers as on the records alone, where CreateRun and GetActiveRunID
-- search the records for a run without outcome: the slot index is exactly what the search finds,
-- and CreateRun returns the occupying record of the first pipeline, the run's own before the
-- excluding ones, that has one.
pub run-refines :
    (s : State) (cs : List Call)
    → IsValid s
    → AreAllowed s.runs cs
    → (t : State) × (run s cs ≡ some (t, (spec_run s.runs cs).1))
      × (t.runs ≡ (spec_run s.runs cs).0)
      × IsValid t
unfolding run spec_run
run-refines s [] v a = (s, refl, refl, v)
run-refines s (c ∷ cs) v a =
    let q = step-Simulates s c v a.0 in
    let r =
      subst
        (λ m.
          (u : State) × (run q.0 cs ≡ some (u, (spec_run m cs).1))
          × (u.runs ≡ (spec_run m cs).0)
          × IsValid u)
        q.2 (run-refines q.0 cs q.3 (subst (λ m. AreAllowed m cs) (sym q.2) a.1)) in
    (r.0, rw (q.1, run) (rw r.1 refl), r.2, r.3)
