-- ===== src/Memstore/Listing.antt =====
-- What `ListNonterminal` of store/mem/mem.go answers.
use durable.Base.{
  ◌≡◌, refl, sym, ◌∙◌, subst, true, false, none, some, List, [], ◌∷◌, String_comparable,
  if◌then◌else◌, is_some, some_inj, arith, Bool-cases, Option-cases, inl, inr,
}
use durable.Base.Lookups.{Agrees, Agrees-tail, get-first}
use durable.Base.Map.{Map, get, IsMap}
use durable.Kernel.{RunId, StepId}
use durable.Driver.{RunRecord, StepRecord, terminal, op_of, set_op, no_step, no_op, op_unresolved}
use durable.Driver.Copies.{clone-same}
use durable.Memstore.{State, ok, in_flight, head, heads, list_nonterminal}
use durable.Memstore.Invariant.{IsValid}
use durable.Memstore.Heads.{head-idle, head-busy}

-- The steps of a head: of the step in flight the operation of the phase, alone and unresolved, with
-- its attempts.
pub flight_steps : State → RunRecord → Map StepId StepRecord
flight_steps s r = elim (get s.inflight r.run_id) [
  | none ↦ []
  | some step ↦ elim (get r.steps step) [
    | none ↦ []
    | some sr ↦
        let n = (op_of sr r.phase).attempts in
        (step, set_op no_step r.phase (record no_op { status = op_unresolved; attempts = n })) ∷ []
  ]
]

-- The record without its input and output, and of its steps those of the head.
pub light_head : State → RunRecord → RunRecord
light_head s r = record r { input = []; output = []; steps = flight_steps s r }

-- The heads of the records without outcome, in the order of the entries.
pub live_heads : State → Map RunId RunRecord → List RunRecord
live_heads s [] = []
live_heads s ((id, r) ∷ m) =
    let rest = live_heads s m in if is_some r.outcome then rest else light_head s r ∷ rest

head-total :
    (s : State) (id : RunId) (r : RunRecord)
    → IsValid s
    → get s.runs id ≡ some r
    → terminal r ≡ false
    → head s r ≡ ok (light_head s r)
unfolding light_head flight_steps in_flight
head-total s id r v g t =
    let st = v.stored id r g in
    let same = clone-same r st.steps st.annotations in
    elim (Option-cases (get s.inflight r.run_id)) [
      | inl e ↦ head-idle s r same t e ∙ rw (e, flight_steps) refl
      | inr (step, e) ↦
          let l = v.flight id step (rw (sym st.own) e) in
          let own : is_some (get r.steps step) ≡ true =
            subst (λ x. is_some (get x.steps step) ≡ true) (some_inj (sym l.1 ∙ g)) l.3 in
          elim (Option-cases (get r.steps step)) [
            | inl n ↦ absurd (ground arith)
            | inr (sr, k) ↦ head-busy s r step sr same t e k ∙ rw (e, flight_steps) (rw k refl)
          ]
    ]

heads-total :
    (s : State) (es : Map RunId RunRecord)
    → IsValid s
    → IsMap es
    → Agrees es s.runs
    → heads s es ≡ some (live_heads s es)
unfolding heads live_heads
heads-total s [] v d a = refl
heads-total s ((id, r) ∷ es) v d a =
    let rest = heads-total s es v d.1 (Agrees-tail es s.runs id r d a) in
    elim (Bool-cases (is_some r.outcome)) [
      | inl t ↦ rw t rest
      | inr t ↦
          let h = head-total s id r v (a id r (get-first es id r)) t in rw t (rw h (rw rest refl))
    ]

-- ListNonterminal in a valid state of the store in memory follows no nil record, and answers, for
-- each record without outcome and no other, the record without its input and output and with the
-- operation in flight alone among its steps, unresolved and with its attempts.
pub list_nonterminal-live_heads :
    (s : State) → IsValid s → list_nonterminal s ≡ some (live_heads s s.runs)
unfolding list_nonterminal
list_nonterminal-live_heads s v = heads-total s s.runs v v.runs (λ id r g. g)
