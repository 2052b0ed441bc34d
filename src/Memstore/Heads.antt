-- ===== src/Memstore/Heads.antt =====
-- The heads of store/mem/mem.go: what GetRunHead answers after ApplyTransition.
use durable.Base.{
  ◌≡◌, refl, sym, ◌∙◌, ap, subst, true, false, Option, none, some, [], ◌∷◌, String_comparable,
  if◌then◌else◌, arith, Bool-cases, inl, inr,
}
use durable.Base.Lookups.{put-here}
use durable.Base.Map.{Map, get, put, delete, IsMap, get-delete}
use durable.Kernel.{RunId, StepId, Phase, unset, phase_forward, phase_unwind, phase_done, Failure}
use durable.Kernel.Waits.{clone_await-same, clone_wake-same}
use durable.Driver.{
  RunRecord, StepRecord, OperationRecord, op_unresolved, Cursor, Transition, no_op, no_step, op_of,
  set_op, step_of, write_op, terminal, clone,
}
use durable.Driver.Copies.{clone-same}
use durable.Memstore.{
  State, ok, in_flight, head, get_run_head, is_idle, open_op, overlay, fail, point, schedule,
  write_ops, written, settle, transit, apply_transition,
}
use durable.Memstore.Written.{written-Keeps, written-IsMap, write_ops-steps, fail-steps}
use durable.Memstore.Invariant.{IsValid}

op_of-set_op : (sr : StepRecord) (p : Phase) (op : OperationRecord) → op_of (set_op sr p op) p ≡ op
unfolding op_of set_op
op_of-set_op sr unset op = refl
op_of-set_op sr phase_forward op = refl
op_of-set_op sr phase_unwind op = refl
op_of-set_op sr phase_done op = refl

-- The in-flight operation of a cursor, alone.
pub cursor_steps : Cursor → Map StepId StepRecord
cursor_steps c =
    if is_idle c
    then []
    else (
      c.step_id,
      set_op no_step c.phase (record no_op { status = op_unresolved; attempts = c.attempts }),
    )
      ∷ []

pub last_failure : Option Failure → Option Failure → Option Failure
last_failure old none = old
last_failure old (some f) = some f

-- The head of a run after a transition: the record before it, the cursor, and the failure.
pub head_after : RunRecord → Transition → RunRecord
head_after r t = record r {
  input = [];
  output = [];
  steps = cursor_steps t.cursor;
  phase = t.cursor.phase;
  next_attempt_at = t.cursor.next_attempt_at;
  last_error = t.cursor.last_error;
  last_reason = t.cursor.last_reason;
  last_error_at = t.cursor.last_error_at;
  awaiting = t.cursor.awaiting;
  awaited = t.cursor.awaited;
  updated_at = t.cursor.updated_at;
  started_at = t.cursor.started_at;
  failure = last_failure r.failure t.failure;
}

abbrev pub light : RunRecord → Map StepId StepRecord → RunRecord
light r m = record r { input = []; output = []; steps = m }

fail-light :
    (r : RunRecord) (f : Option Failure) (m : Map StepId StepRecord)
    → light (fail r f) m ≡ record (light r m) { failure = last_failure r.failure f }
unfolding fail last_failure
fail-light r none m = refl
fail-light r (some f) m = refl

overlay-light :
    (r : RunRecord) (c : Cursor) (m : Map StepId StepRecord) → light (overlay r c) m ≡ light r m
unfolding overlay open_op write_op
overlay-light r c m = elim (Bool-cases (is_idle c)) [ inl e ↦ rw e refl | inr e ↦ rw e refl ]

overlay-failure : (r : RunRecord) (c : Cursor) → (overlay r c).failure ≡ r.failure
unfolding overlay open_op write_op
overlay-failure r c = elim (Bool-cases (is_idle c)) [ inl e ↦ rw e refl | inr e ↦ rw e refl ]

-- But for its steps, a written record is as the cursor says.
written-light :
    (r : RunRecord) (t : Transition) → light (written r t) (cursor_steps t.cursor) ≡ head_after r t
unfolding head_after written schedule
written-light r t =
    let m = cursor_steps t.cursor in
    let q = schedule (write_ops r t.ops) t.cursor in
    let f : RunRecord → RunRecord =
      λ x. record (light (schedule x t.cursor) m) { failure = last_failure x.failure t.failure } in
    let fill : RunRecord → RunRecord =
      λ x. record x { failure = last_failure q.failure t.failure } in
    fail-light (overlay q t.cursor) t.failure m
    ∙ rw (overlay-failure q t.cursor) (ap fill (overlay-light q t.cursor m))
    ∙ ap f (sym (write_ops-steps r t.ops))
    ∙ rw (clone_await-same t.cursor.awaiting) (rw (clone_wake-same t.cursor.awaited) refl)

-- The operation of a cursor that is not idle, as it is stored.
abbrev opened : RunRecord → Cursor → StepRecord
opened q c =
    set_op (step_of q c.step_id) c.phase (record (op_of (step_of q c.step_id) c.phase) {
      status = op_unresolved;
      attempts = c.attempts;
    })

abbrev scheduled : RunRecord → Transition → RunRecord
scheduled r t = schedule (write_ops r t.ops) t.cursor

written-op :
    (r : RunRecord) (t : Transition)
    → is_idle t.cursor ≡ false
    → get (written r t).steps t.cursor.step_id ≡ some (opened (scheduled r t) t.cursor)
unfolding written overlay open_op write_op
written-op r t h =
    let q = scheduled r t in
    rw (fail-steps (overlay q t.cursor) t.failure)
      (rw h (put-here q.steps t.cursor.step_id (opened q t.cursor)))

opened-in_flight :
    (q : RunRecord) (c : Cursor)
    → in_flight (op_of (opened q c) c.phase)
      ≡ record no_op { status = op_unresolved; attempts = c.attempts }
unfolding in_flight
opened-in_flight q c = rw (op_of-set_op (step_of q c.step_id) c.phase _) refl

-- The head of a stored record that is not terminal, by what is in flight.
pub head-idle :
    (s : State) (r : RunRecord)
    → clone r ≡ r
    → terminal r ≡ false
    → get s.inflight r.run_id ≡ none
    → head s r ≡ ok (light r [])
unfolding head
head-idle s r k h g = rw (h, head) (rw g (rw k refl))

pub head-busy :
    (s : State) (r : RunRecord) (id : StepId) (sr : StepRecord)
    → clone r ≡ r
    → terminal r ≡ false
    → get s.inflight r.run_id ≡ some id
    → get r.steps id ≡ some sr
    → head s r ≡ ok (light r ((id, set_op no_step r.phase (in_flight (op_of sr r.phase))) ∷ []))
unfolding head write_op step_of get put
head-busy s r id sr k h g e = rw (h, head) (rw g (rw e (rw k refl)))

pub get-point :
    (m : Map RunId StepId) (id : RunId) (c : Cursor)
    → get (point m id c) id ≡ (if is_idle c then none else some c.step_id)
unfolding point
get-point m id c = elim (Bool-cases (is_idle c)) [
  | inl h ↦ rw h (ground (arith, get-delete m id id))
  | inr h ↦ rw h (put-here (delete m id) id c.step_id)
]

written-phase : (r : RunRecord) (t : Transition) → (written r t).phase ≡ t.cursor.phase
unfolding head_after
written-phase r t = ap (λ x. x.phase) (written-light r t)

idle-steps : (c : Cursor) → is_idle c ≡ true → cursor_steps c ≡ []
unfolding cursor_steps
idle-steps c h = rw h refl

busy-steps :
    (c : Cursor)
    → is_idle c ≡ false
    → cursor_steps c
      ≡ (
        c.step_id,
        set_op no_step c.phase (record no_op { status = op_unresolved; attempts = c.attempts }),
      )
        ∷ []
unfolding cursor_steps
busy-steps c h = rw h refl

written-head :
    (s : State) (r : RunRecord) (t : Transition)
    → clone (written r t) ≡ written r t
    → terminal (written r t) ≡ false
    → get s.inflight (written r t).run_id
      ≡ (if is_idle t.cursor then none else some t.cursor.step_id)
    → head s (written r t) ≡ ok (head_after r t)
unfolding cursor_steps
written-head s r t k h g =
    let w = written r t in
    let c = t.cursor in
    let shape : light w (cursor_steps c) ≡ head_after r t = written-light r t in
    elim (Bool-cases (is_idle c)) [
      | inl e ↦
          head-idle s w k h (rw (e) at g) ∙ ap ok (ap (light w) (sym (idle-steps c e)) ∙ shape)
      | inr e ↦
          let q = opened (scheduled r t) c in
          let entry : (c.step_id, set_op no_step w.phase (in_flight (op_of q w.phase))) ∷ []
              ≡ cursor_steps c =
            rw (written-phase r t)
              (rw (opened-in_flight (scheduled r t) c) (sym (busy-steps c e))) in
          head-busy s w c.step_id q k h (rw e at g) (written-op r t e)
          ∙ ap ok (ap (light w) entry ∙ shape)
    ]

-- After ApplyTransition without an outcome to a run that is not terminal, in a valid state of the
-- store in memory, GetRunHead gives the identity and the cancel request of the record before, the
-- fields of the cursor, the last failure, no input and no output, and as steps the operation of
-- the cursor alone, unresolved with the attempts of the cursor, or none if the cursor is idle.
pub apply_transition-head :
    (s : State) (id : RunId) (r : RunRecord) (t : Transition)
    → IsValid s
    → get s.runs id ≡ some r
    → terminal r ≡ false
    → t.outcome ≡ none
    → (u : State) × (apply_transition s id t ≡ ok u) × (get_run_head u id ≡ ok (head_after r t))
unfolding apply_transition transit settle get_run_head
apply_transition-head s id r t v g h o =
    let st = v.stored id r g in
    let w = written r t in
    let u : State = record s { runs = put s.runs id w; inflight = point s.inflight id t.cursor } in
    let k = written-Keeps r t in
    let same : clone w ≡ w =
      clone-same w (written-IsMap r t st.steps)
        (subst (λ y. IsMap y.annotations) (sym k) st.annotations) in
    let own : w.run_id ≡ id = ap (λ y. y.run_id) k ∙ st.own in
    let live : terminal w ≡ false = ap terminal k ∙ h in
    (
      u,
      rw (g, apply_transition) (rw h (ap (λ x. ok (settle s id w t x)) o)),
      rw (put-here s.runs id w, get_run_head)
          (written-head u r t same live (rw own (get-point s.inflight id t.cursor))),
    )
