-- ===== src/Memstore/Applies.antt =====
-- `ApplyTransition` of store/mem/mem.go on every branch.
use durable.Base.{
  ◌≡◌, refl, sym, ◌∙◌, ap, subst, false, ◌||◌, Option, none, some, String, String_comparable, ◌≟◌,
  ite, if◌then◌else◌, is_some, arith, Bool-cases, Option-cases, inl, inr,
}
use durable.Base.Map.{get, get-put, get-delete}
use durable.Kernel.{RunId, Outcome}
use durable.Driver.{RunRecord, Transition, terminal, compact_terminal}
use durable.Memstore.{
  State, run_not_found, run_terminal, ok, fails, written, finish, is_idle, point, settle, transit,
  apply_transition,
}
use durable.Memstore.Written.{Keeps, written-Keeps}
use durable.Memstore.Invariant.{key_of, IsValid}
use durable.Memstore.Transit.{free_slot-own, Keeps-key}
use durable.Memstore.Refines.{settled, settle-runs}
use durable.Memstore.Heads.{get-point}

-- The state after a transition that is accepted: the record, the slot and the operation in flight
-- of its run, and the records of the others.
pub record Applied (s : State) (id : RunId) (r : RunRecord) (t : Transition) (u : State)
    : Type 0 where
  pub runs :
      (j : RunId)
      → get u.runs j ≡ ite (id ≟ j) (some (settled (written r t) t t.outcome)) (get s.runs j)
  pub ended : terminal (settled (written r t) t t.outcome) ≡ is_some t.outcome
  pub slots :
      (key : String)
      → get u.slots key
        ≡ ite (key_of r ≟ key) (if is_some t.outcome then none else some id) (get s.slots key)
  pub inflight :
      get u.inflight id
      ≡ (if is_some t.outcome || is_idle t.cursor then none else some t.cursor.step_id)

-- What the call does, by the record of the id.
abbrev pub Applies : State → RunId → Transition → Option RunRecord → Type 0
Applies s id t none = apply_transition s id t ≡ fails run_not_found
Applies s id t (some r) =
    if terminal r
    then apply_transition s id t ≡ fails run_terminal
    else (u : State) × (apply_transition s id t ≡ ok u) × Applied s id r t u

settle-Applied :
    (s : State) (id : RunId) (r w : RunRecord) (t : Transition) (o : Option Outcome)
    → IsValid s
    → get s.runs id ≡ some r
    → terminal r ≡ false
    → Keeps r w
    → ((key : String)
        → get (settle s id w t o).slots key
          ≡ ite (key_of r ≟ key) (if is_some o then none else some id) (get s.slots key))
      × (get (settle s id w t o).inflight id
          ≡ (if is_some o || is_idle t.cursor then none else some t.cursor.step_id))
      × (terminal (settled w t o) ≡ is_some o)
unfolding settle settled finish compact_terminal
settle-Applied s id r w t none v g h k =
    let own : get s.slots (key_of r) ≡ some id = v.run_slot id r g h in
    (λ key. ground (arith, own), get-point s.inflight id t.cursor, ap terminal k ∙ h)
settle-Applied s id r w t (some o) v g h k =
    let key = Keeps-key r w k in
    let own : get s.slots (key_of w) ≡ some id = rw key (v.run_slot id r g h) in
    (
      λ y. rw (free_slot-own s.slots (key_of w) id own) (rw key (get-delete s.slots (key_of r) y)),
      ground (arith, get-delete (point s.inflight id t.cursor) id id),
      refl,
    )

transit-Applied :
    (s : State) (id : RunId) (r : RunRecord) (t : Transition)
    → IsValid s
    → get s.runs id ≡ some r
    → terminal r ≡ false
    → Applied s id r t (transit s id r t)
unfolding transit
transit-Applied s id r t v g h =
    let w = written r t in
    let q = settle-Applied s id r w t t.outcome v g h (written-Keeps r t) in
    record {
      runs = λ j. rw (settle-runs s id w t t.outcome) (get-put s.runs id _ j);
      ended = q.2;
      slots = q.0;
      inflight = q.1;
    }

-- ApplyTransition in a valid state of the store in memory fails as not found for a missing run
-- and as terminal for one with an outcome. Otherwise it succeeds: it replaces the record of the
-- run alone, which is terminal then exactly if the transition has an outcome; the slot of the run
-- is free then exactly in that case, and every other slot as before; the operation in flight is
-- the one of the cursor, or none if the cursor is idle or there is an outcome.
pub apply_transition-Applies :
    (s : State) (id : RunId) (t : Transition) → IsValid s → Applies s id t (get s.runs id)
unfolding apply_transition
apply_transition-Applies s id t v = elim (Option-cases (get s.runs id)) [
  | inl e ↦ subst (Applies s id t) (sym e) (rw (e, apply_transition) refl)
  | inr (r, e) ↦ subst (Applies s id t) (sym e) (elim (Bool-cases (terminal r)) [
    | inl h ↦ rw h (rw (e, apply_transition) (rw h refl))
    | inr h ↦
        rw h
          (transit s id r t, rw (e, apply_transition) (rw h refl), transit-Applied s id r t v e h)
  ])
]
