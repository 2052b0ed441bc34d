-- ===== src/Memstore/Histories.antt =====
-- Histories of calls of store/mem/mem.go: one run of a pipeline holds a resource, and a terminal
-- record stays as it is.
use durable.Base.{
  ℕ, ◌≡◌, ◌≢◌, ◌⊎◌, refl, sym, ◌∙◌, ap, subst, Bool, true, false, not, ◌&&◌, Option, none, some,
  List, [], ◌∷◌, String_comparable, ◌≟◌, ite, if◌then◌else◌, is_some, some_inj, arith, Bool-cases,
  Option-cases, inl, inr,
}
use durable.Base.Lookups.{put-else}
use durable.Base.Map.{Map, get, put, IsMap}
use durable.Kernel.{RunId, Time, PipelineId}
use durable.Driver.{RunRecord, Transition, CancelRequest, terminal}
use durable.Memstore.{State, written, reap_terminal}
use durable.Memstore.Invariant.{key_of, IsValid}
use durable.Memstore.Reap.{reap_terminal-Reaped}
use durable.Memstore.Spec.{first_live}
use durable.Memstore.Refines.{
  Call, settled, creates, applies, reaps, cancels, asks, reads, Answer, spec_step, spec_run,
  AreAllowed, step-Simulates, run, run-refines,
}

-- Two records of one pipeline and one resource, neither terminal.
unfoldable pub clash : Option RunRecord → Option RunRecord → Bool
clash none b = false
clash (some r) none = false
clash (some r) (some q) =
    (not (terminal r) && not (terminal q))
    && (ite (r.pipeline_id ≟ q.pipeline_id) true false
        && ite (r.resource_id ≟ q.resource_id) true false)

clash-parts :
    (r q : RunRecord)
    → clash (some r) (some q) ≡ true
    → (terminal r ≡ false)
      × (terminal q ≡ false)
      × (r.pipeline_id ≡ q.pipeline_id)
      × (r.resource_id ≡ q.resource_id)
unfolding clash
clash-parts r q h = ground arith

clash-ends :
    (a b : Option RunRecord)
    → clash a b ≡ true
    → (r : RunRecord) × (q : RunRecord) × (a ≡ some r) × (b ≡ some q)
unfolding clash
clash-ends none b h = ground arith
clash-ends (some r) none h = ground arith
clash-ends (some r) (some q) h = (r, q, refl, refl)

IsValid-clash :
    (s : State) (i j : RunId) → IsValid s → i ≢ j → clash (get s.runs i) (get s.runs j) ≡ false
IsValid-clash s i j v n = elim (Bool-cases (clash (get s.runs i) (get s.runs j))) [
  | inr h ↦ h
  | inl h ↦
      let (r, q, e, g) = clash-ends (get s.runs i) (get s.runs j) h in
      let k = clash-parts r q (rw (sym e) (rw (sym g) h)) in
      let own : get s.slots (key_of r) ≡ some i = v.run_slot i r e k.0 in
      let other : get s.slots (key_of q) ≡ some j = v.run_slot j q g k.1 in
      let key : key_of r ≡ key_of q = rw k.2 (rw k.3 refl) in
      absurd (n (some_inj (sym own ∙ ap (get s.slots) key ∙ other)))
]

-- From a valid state of the store in memory, after a history of calls with new records and with
-- pipelines free of NUL, two different runs are never both without outcome on one pipeline and
-- one resource.
pub run-exclusive :
    (s : State) (cs : List Call) (i j : RunId)
    → IsValid s
    → AreAllowed s.runs cs
    → i ≢ j
    → (t : State) × (answers : List Answer) × (run s cs ≡ some (t, answers))
      × (clash (get t.runs i) (get t.runs j) ≡ false)
run-exclusive s cs i j v a n =
    let r = run-refines s cs v a in (r.0, (spec_run s.runs cs).1, r.1, IsValid-clash r.0 i j r.3 n)

-- The call creates a run of the id.
unfoldable pub is_creation : RunId → Call → Bool
is_creation id (creates r ps) = ite (r.run_id ≟ id) true false
is_creation id (applies i t) = false
is_creation id (reaps before limit) = false
is_creation id (cancels i req) = false
is_creation id (asks p res) = false
is_creation id (reads i) = false

unfoldable pub has_creation : RunId → List Call → Bool
has_creation id [] = false
has_creation id (c ∷ cs) = if is_creation id c then true else has_creation id cs

abbrev IsKept : RunRecord → Option RunRecord → Type 0
IsKept r o = (o ≡ some r) ⊎ (o ≡ none)

IsKept-by :
    {m : Map RunId RunRecord} (n : Map RunId RunRecord) (id : RunId) (r : RunRecord)
    → m ≡ n
    → IsKept r (get n id)
    → IsKept r (get m id)
IsKept-by n id r e k = rw e k

-- A run that is not terminal is another one.
other :
    (s : State) (i id : RunId) (q r : RunRecord)
    → get s.runs i ≡ some q
    → terminal q ≡ false
    → IsKept r (get s.runs id)
    → terminal r ≡ true
    → i ≢ id
other s i id q r e f g t p = elim g [
  | inl h ↦
      let k : q ≡ r = some_inj (sym e ∙ ap (get s.runs) p ∙ h) in ground (arith, ap terminal k)
  | inr h ↦ ground (arith, sym e ∙ ap (get s.runs) p ∙ h)
]

creates-IsKept :
    (s : State) (q : RunRecord) (ps : List PipelineId) (id : RunId) (r : RunRecord)
    → IsKept r (get s.runs id)
    → q.run_id ≢ id
    → IsKept r (get (spec_step s.runs (creates q ps)).0 id)
unfolding spec_step
creates-IsKept s q ps id r g n =
    elim (Option-cases (first_live s.runs q.resource_id (q.pipeline_id ∷ ps))) [
      | inl e ↦
          IsKept-by (put s.runs q.run_id q) id r (rw (e, spec_step) refl)
            (subst (IsKept r) (sym (put-else s.runs q.run_id q id n)) g)
      | inr (x, e) ↦ IsKept-by s.runs id r (rw (e, spec_step) refl) g
    ]

applies-IsKept :
    (s : State) (i : RunId) (w : Transition) (id : RunId) (r : RunRecord)
    → IsKept r (get s.runs id)
    → terminal r ≡ true
    → IsKept r (get (spec_step s.runs (applies i w)).0 id)
unfolding spec_step
applies-IsKept s i w id r g t = elim (Option-cases (get s.runs i)) [
  | inl e ↦ IsKept-by s.runs id r (rw (e, spec_step) refl) g
  | inr (q, e) ↦ elim (Bool-cases (terminal q)) [
    | inl f ↦ IsKept-by s.runs id r (rw (e, spec_step) (rw f refl)) g
    | inr f ↦
        IsKept-by (put s.runs i (settled (written q w) w w.outcome)) id r
          (rw (e, spec_step) (rw f refl))
          (subst (IsKept r)
            (sym
              (put-else s.runs i (settled (written q w) w w.outcome) id (other s i id q r e f g t)))
            g)
  ]
]

cancels-IsKept :
    (s : State) (i : RunId) (req : CancelRequest) (id : RunId) (r : RunRecord)
    → IsKept r (get s.runs id)
    → terminal r ≡ true
    → IsKept r (get (spec_step s.runs (cancels i req)).0 id)
unfolding spec_step
cancels-IsKept s i req id r g t = elim (Option-cases (get s.runs i)) [
  | inl e ↦ IsKept-by s.runs id r (rw (e, spec_step) refl) g
  | inr (q, e) ↦ elim (Bool-cases (terminal q)) [
    | inl f ↦ IsKept-by s.runs id r (rw (e, spec_step) (rw f refl)) g
    | inr f ↦ elim (Bool-cases (is_some q.cancel)) [
      | inl c ↦ IsKept-by s.runs id r (rw (e, spec_step) (rw f (rw c refl))) g
      | inr c ↦
          IsKept-by (put s.runs i (record q { cancel = some req })) id r
            (rw (e, spec_step) (rw f (rw c refl)))
            (subst (IsKept r)
              (sym
                (put-else s.runs i (record q { cancel = some req }) id (other s i id q r e f g t)))
              g)
    ]
  ]
]

reads-IsKept :
    (s : State) (i : RunId) (id : RunId) (r : RunRecord)
    → IsKept r (get s.runs id)
    → IsKept r (get (spec_step s.runs (reads i)).0 id)
unfolding spec_step
reads-IsKept s i id r g = elim (Option-cases (get s.runs i)) [
  | inl e ↦ IsKept-by s.runs id r (rw (e, spec_step) refl) g
  | inr (q, e) ↦ IsKept-by s.runs id r (rw (e, spec_step) refl) g
]

reaps-IsKept :
    (s : State) (before : Time) (limit : ℕ) (id : RunId) (r : RunRecord)
    → IsMap s.runs
    → IsKept r (get s.runs id)
    → IsKept r (get (spec_step s.runs (reaps before limit)).0 id)
unfolding spec_step reap_terminal
reaps-IsKept s before limit id r d g = elim ((reap_terminal-Reaped s before limit d).each id) [
  | inl e ↦ subst (IsKept r) (sym e) g
  | inr e ↦ inr e.0
]

spec_step-IsKept :
    (s : State) (c : Call) (id : RunId) (r : RunRecord)
    → IsValid s
    → IsKept r (get s.runs id)
    → terminal r ≡ true
    → is_creation id c ≡ false
    → IsKept r (get (spec_step s.runs c).0 id)
unfolding spec_step is_creation
spec_step-IsKept s (creates q ps) id r v g t n = creates-IsKept s q ps id r g (ground arith)
spec_step-IsKept s (applies i w) id r v g t n = applies-IsKept s i w id r g t
spec_step-IsKept s (reaps before limit) id r v g t n = reaps-IsKept s before limit id r v.runs g
spec_step-IsKept s (cancels i req) id r v g t n = cancels-IsKept s i req id r g t
spec_step-IsKept s (asks p res) id r v g t n = g
spec_step-IsKept s (reads i) id r v g t n = reads-IsKept s i id r g

spec_run-IsKept :
    (s : State) (cs : List Call) (id : RunId) (r : RunRecord)
    → IsValid s
    → AreAllowed s.runs cs
    → IsKept r (get s.runs id)
    → terminal r ≡ true
    → has_creation id cs ≡ false
    → IsKept r (get (spec_run s.runs cs).0 id)
unfolding spec_run has_creation
spec_run-IsKept s [] id r v a g t n = g
spec_run-IsKept s (c ∷ cs) id r v a g t n =
    let q = step-Simulates s c v a.0 in
    let k : IsKept r (get (spec_step s.runs c).0 id) =
      spec_step-IsKept s c id r v g t (ground arith) in
    subst (λ m. IsKept r (get (spec_run m cs).0 id)) q.2
      (spec_run-IsKept q.0 cs id r q.3 (subst (λ m. AreAllowed m cs) (sym q.2) a.1)
        (subst (λ m. IsKept r (get m id)) (sym q.2) k) t (ground arith))

-- From a valid state of the store in memory, a history of calls with new records and pipelines
-- free of NUL, none of which creates a run of a certain id, leaves the terminal record of this id
-- unchanged or has reaped it.
pub run-kept :
    (s : State) (cs : List Call) (id : RunId) (r : RunRecord)
    → IsValid s
    → AreAllowed s.runs cs
    → get s.runs id ≡ some r
    → terminal r ≡ true
    → has_creation id cs ≡ false
    → (t : State) × (answers : List Answer) × (run s cs ≡ some (t, answers))
      × ((get t.runs id ≡ some r) ⊎ (get t.runs id ≡ none))
run-kept s cs id r v a g t n =
    let q = run-refines s cs v a in
    (q.0, (spec_run s.runs cs).1, q.1, rw q.2 (spec_run-IsKept s cs id r v a (inl g) t n))
