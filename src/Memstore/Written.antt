-- ===== src/Memstore/Written.antt =====
-- What a transition of store/mem/mem.go leaves of a record.
use durable.Base.{
  ◌≡◌, refl, sym, ap, true, false, Option, none, some, List, [], ◌∷◌, String_comparable, is_some,
  arith, Bool-cases, inl, inr,
}
use durable.Base.Map.{get, IsMap, put-IsMap, get-put}
use durable.Kernel.{Failure}
use durable.Driver.{OpWrite, Cursor, Transition, RunRecord, write_op, clone_op}
use durable.Memstore.{write_ops, schedule, is_idle, open_op, overlay, fail, written}

pub write_ops-steps :
    (r : RunRecord) (ws : List OpWrite)
    → record r { steps = (write_ops r ws).steps } ≡ write_ops r ws
unfolding write_ops write_op
write_ops-steps r [] = refl
write_ops-steps r (w ∷ ws) = write_ops-steps (write_op r w.step_id w.phase (clone_op w.op)) ws

write_ops-IsMap : (r : RunRecord) (ws : List OpWrite) → IsMap r.steps → IsMap (write_ops r ws).steps
unfolding write_ops write_op
write_ops-IsMap r [] d = d
write_ops-IsMap r (w ∷ ws) d =
    write_ops-IsMap (write_op r w.step_id w.phase (clone_op w.op)) ws
      (put-IsMap r.steps w.step_id _ d)

-- A record that differs from another in what a transition without an outcome writes.
abbrev pub Keeps : RunRecord → RunRecord → Type 0
Keeps r w = w ≡ record r {
  phase = w.phase;
  steps = w.steps;
  failure = w.failure;
  next_attempt_at = w.next_attempt_at;
  awaiting = w.awaiting;
  awaited = w.awaited;
  last_error = w.last_error;
  last_reason = w.last_reason;
  last_error_at = w.last_error_at;
  updated_at = w.updated_at;
  started_at = w.started_at;
}

open_op-Keeps : (r q : RunRecord) (c : Cursor) → Keeps r q → Keeps r (open_op q c)
unfolding open_op write_op
open_op-Keeps r q c k =
    let f : RunRecord → RunRecord = λ x. record x { steps = (open_op q c).steps } in ap f k

overlay-Keeps : (r q : RunRecord) (c : Cursor) → Keeps r q → Keeps r (overlay q c)
unfolding overlay
overlay-Keeps r q c k = elim (Bool-cases (is_idle c)) [
  | inl e ↦ rw e k
  | inr e ↦ rw e (open_op-Keeps r q c k)
]

fail-Keeps : (r q : RunRecord) (f : Option Failure) → Keeps r q → Keeps r (fail q f)
unfolding fail
fail-Keeps r q none k = k
fail-Keeps r q (some f) k =
    let g : RunRecord → RunRecord = λ x. record x { failure = some f } in ap g k

pub written-Keeps : (r : RunRecord) (t : Transition) → Keeps r (written r t)
unfolding written schedule
written-Keeps r t =
    let q = schedule (write_ops r t.ops) t.cursor in
    let g : RunRecord → RunRecord =
      λ x. record (schedule x t.cursor) { failure = (write_ops r t.ops).failure } in
    let k : Keeps r q = ap g (sym (write_ops-steps r t.ops)) in
    fail-Keeps r (overlay q t.cursor) t.failure (overlay-Keeps r q t.cursor k)

open_op-IsMap : (r : RunRecord) (c : Cursor) → IsMap r.steps → IsMap (open_op r c).steps
unfolding open_op write_op
open_op-IsMap r c d = put-IsMap r.steps c.step_id _ d

overlay-IsMap : (r : RunRecord) (c : Cursor) → IsMap r.steps → IsMap (overlay r c).steps
unfolding overlay
overlay-IsMap r c d = elim (Bool-cases (is_idle c)) [
  | inl e ↦ rw e d
  | inr e ↦ rw e (open_op-IsMap r c d)
]

pub fail-steps : (r : RunRecord) (f : Option Failure) → (fail r f).steps ≡ r.steps
unfolding fail
fail-steps r none = refl
fail-steps r (some f) = refl

pub written-IsMap : (r : RunRecord) (t : Transition) → IsMap r.steps → IsMap (written r t).steps
unfolding written schedule
written-IsMap r t d =
    let q = schedule (write_ops r t.ops) t.cursor in
    rw (fail-steps (overlay q t.cursor) t.failure)
      (overlay-IsMap q t.cursor (write_ops-IsMap r t.ops d))

overlay-steps :
    (r : RunRecord) (c : Cursor)
    → is_idle c ≡ false
    → is_some (get (overlay r c).steps c.step_id) ≡ true
unfolding overlay open_op write_op
overlay-steps r c h = rw h (rw (get-put r.steps c.step_id _ c.step_id) (ground arith))

-- The operation of a cursor that is not idle is on record.
pub written-steps :
    (r : RunRecord) (t : Transition)
    → is_idle t.cursor ≡ false
    → is_some (get (written r t).steps t.cursor.step_id) ≡ true
unfolding written
written-steps r t h =
    let q = schedule (write_ops r t.ops) t.cursor in
    rw (fail-steps (overlay q t.cursor) t.failure) (overlay-steps q t.cursor h)
