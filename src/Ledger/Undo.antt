-- ===== src/Ledger/Undo.antt =====
-- A whole unwinding by internal/ledger/ledger.go reaches each step to unwind once, the last first.
use durable.Base.{
  ℕ, zero, suc, ◌+◌, ◌≤◌, ◌≡◌, ◌≢◌, refl, sym, subst, ap, ◌∙◌, Bool, true, false, [], ◌∷◌, ◌++◌,
  String, String_comparable, if◌then◌else◌, length, take, All, contains, IsDistinct, arith,
  length-append,
}
use durable.Base.Map.{Map, get, put, get-put}
use durable.Ledger.{
  OpState, op_succeeded, op_failed, Step, Topology, Facts, unwind_complete, decide_step, status,
  is_resolved, next_unwind, is_eligible,
}
use durable.Ledger.Unwind.{
  Selects, complete, step, next_unwind-Selects, below_unwind, unwind_frontier-eq,
}
use durable.Ledger.Drive.{ids}
use mathlib.Core.List.{append_assoc, append-nil}
use durable.Ledger.Rollback.{
  settle, rollback, undone, targets, targets-append, AllResolved, IsFresh, put-AllResolved,
  put-IsFresh, below_unwind-settled, take-first_fresh, scan-AllResolved,
}

-- What holds of the part `t` of the topology that is still to be unwound.
record IsAhead (topo t after : Topology) (f : Facts) : Type 0 where
  resolved : AllResolved f.unwind
  splits : topo ≡ t ++ after
  distinct : IsDistinct (ids topo)
  fresh : All (IsFresh f.unwind) t
  ahead : below_unwind topo f.unwind ≡ t

IsAhead-selects :
    {topo t after : Topology} (f : Facts)
    → IsAhead topo t after f
    → Selects f t (next_unwind topo f)
IsAhead-selects {topo} f a =
    subst (λ u. Selects f u (next_unwind topo f)) a.ahead
      (next_unwind-Selects topo f ("", scan-AllResolved f f.unwind a.resolved)).1

contains-ids :
    (before : Topology) (s : Step) (t : Topology) (a : String)
    → contains (ids (before ++ s ∷ t)) a ≡ false
    → s.id ≢ a
unfolding contains
contains-ids [] s t a h = ground arith
contains-ids (b ∷ before) s t a h = contains-ids before s t a (ground arith)

ids-IsDistinct_head :
    (before : Topology) (s : Step) (t : Topology)
    → IsDistinct (ids (before ++ s ∷ t))
    → contains (ids before) s.id ≡ false
unfolding contains
ids-IsDistinct_head [] s t d = refl
ids-IsDistinct_head (b ∷ before) s t d =
    ground (arith, ids-IsDistinct_head before s t d.1, contains-ids before s t b.id)

All-split_left : (P : Step → Type 0) (t u : Topology) → All P (t ++ u) → All P t
All-split_left P [] u a = tt
All-split_left P (s ∷ t) u a = (a.0, All-split_left P t u a.1)

status-settled :
    (f : Facts) (id : String) (ok : Bool)
    → is_resolved (status (put f.unwind id (if ok then op_succeeded else op_failed)) id) ≡ true
unfolding status
status-settled f id true = ground (arith, get-put f.unwind id op_succeeded id)
status-settled f id false = ground (arith, get-put f.unwind id op_failed id)

IsAhead-settle :
    (topo t after before skipped : Topology) (s : Step) (f : Facts) (ok : Bool)
    → IsAhead topo t after f
    → t ≡ before ++ s ∷ skipped
    → IsAhead topo before (s ∷ (skipped ++ after)) (settle f s.id ok)
unfolding settle
IsAhead-settle topo t after before skipped s f ok a split =
    let r : OpState = if ok then op_succeeded else op_failed in
    let m = put f.unwind s.id r in
    let e : topo ≡ before ++ s ∷ (skipped ++ after) =
      a.splits ∙ ap (λ u. u ++ after) split ∙ append_assoc before (s ∷ skipped) after in
    let d : contains (ids before) s.id ≡ false =
      ids-IsDistinct_head before s (skipped ++ after)
        (subst (λ u. IsDistinct (ids u)) e a.distinct) in
    let old : All (IsFresh f.unwind) before =
      All-split_left (IsFresh f.unwind) before (s ∷ skipped)
        (subst (All (IsFresh f.unwind)) split a.fresh) in
    let kept : All (IsFresh m) before = put-IsFresh f.unwind s.id r before d old in
    record {
      resolved = put-AllResolved f.unwind s.id r (ground arith) a.resolved;
      splits = e;
      distinct = a.distinct;
      fresh = kept;
      ahead =
          ap (λ u. below_unwind u m) e
          ∙ below_unwind-settled m before s (skipped ++ after) (status-settled f s.id ok) kept;
    }

-- A step that has not been unwound is eligible exactly if it is to be undone.
is_eligible-undone :
    (f : Facts) (s : Step) → IsFresh f.unwind s → is_eligible f s ≡ undone f.forward s
unfolding is_eligible
is_eligible-undone f s h = ground arith

targets_none :
    (f : Facts) (t : Topology)
    → All (IsFresh f.unwind) t
    → All (λ s. is_eligible f s ≡ false) t
    → targets f.forward t ≡ []
unfolding targets
targets_none f [] h a = refl
targets_none f (s ∷ t) h a = ground (arith, targets_none f t h.1 a.1, is_eligible-undone f s h.0)

All-split_right : (P : Step → Type 0) (t u : Topology) → All P (t ++ u) → All P u
All-split_right P [] u a = a
All-split_right P (s ∷ t) u a = All-split_right P t u a.1

targets-split :
    (f : Facts) (t before skipped : Topology) (s : Step)
    → All (IsFresh f.unwind) t
    → t ≡ before ++ s ∷ skipped
    → is_eligible f s ≡ true
    → All (λ s. is_eligible f s ≡ false) skipped
    → targets f.forward t ≡ s.id ∷ targets f.forward before
unfolding targets
targets-split f t before skipped s h split y a =
    let fresh : All (IsFresh f.unwind) (s ∷ skipped) =
      All-split_right (IsFresh f.unwind) before (s ∷ skipped)
        (subst (All (IsFresh f.unwind)) split h) in
    let e : targets f.forward t ≡ targets f.forward (s ∷ skipped) ++ targets f.forward before =
      ap (targets f.forward) split ∙ targets-append f.forward before (s ∷ skipped) in
    ground (arith, e, targets_none f skipped fresh.1 a, is_eligible-undone f s fresh.0)

length-split :
    (t before skipped : Topology) (s : Step)
    → t ≡ before ++ s ∷ skipped
    → length before + 1 ≤ length t
length-split t before skipped s split =
    omega (arith, ap length split, length-append before (s ∷ skipped))

abbrev Unwinds : (String → Bool) → ℕ → Topology → Type 0
Unwinds ok n topo =
    (t after : Topology) (f : Facts)
    → IsAhead topo t after f
    → length t ≤ n
    → rollback ok n topo f ≡ (targets f.forward t, decide_step unwind_complete "")

rollback_end :
    (ok : String → Bool) (topo t : Topology) (f : Facts)
    → All (IsFresh f.unwind) t
    → Selects f t (next_unwind topo f)
    → length t ≤ 0
    → rollback ok 0 topo f ≡ (targets f.forward t, decide_step unwind_complete "")
unfolding rollback
rollback_end ok topo t f h (complete a e) l = ground (arith, targets_none f t h a)
rollback_end ok topo t f h (step before s skipped split y a e) l =
    absurd (omega (arith, length-split t before skipped s split))

rollback_once :
    (ok : String → Bool) (n : ℕ) (topo t after : Topology) (f : Facts)
    → Unwinds ok n topo
    → IsAhead topo t after f
    → Selects f t (next_unwind topo f)
    → length t ≤ suc n
    → rollback ok (suc n) topo f ≡ (targets f.forward t, decide_step unwind_complete "")
unfolding rollback settle
rollback_once ok n topo t after f ih p (complete a e) l = ground (arith, targets_none f t p.fresh a)
rollback_once ok n topo t after f ih p (step before s skipped split y a e) l =
    let further : rollback ok n topo (settle f s.id (ok s.id))
        ≡ (targets f.forward before, decide_step unwind_complete "") =
      ih before (s ∷ (skipped ++ after)) (settle f s.id (ok s.id))
        (IsAhead-settle topo t after before skipped s f (ok s.id) p split)
        (omega (arith, length-split t before skipped s split)) in
    ground (arith, further, targets-split f t before skipped s p.fresh split y a)

rollback-IsAhead : (ok : String → Bool) (n : ℕ) (topo : Topology) → Unwinds ok n topo
rollback-IsAhead ok zero topo t after f p l =
    rollback_end ok topo t f p.fresh (IsAhead-selects f p) l
rollback-IsAhead ok (suc n) topo t after f p l =
    rollback_once ok n topo t after f (rollback-IsAhead ok n topo) p (IsAhead-selects f p) l

All-IsFresh : (t : Topology) → All (IsFresh []) t
unfolding status get
All-IsFresh [] = tt
All-IsFresh (s ∷ t) = (refl, All-IsFresh t)

-- Over a topology with distinct step ids, an unwinding with no unwind operation on record, in
-- which each operation that NextUnwind chooses ends well or in failure as it may, unwinds the
-- steps that declare an unwind and succeeded forward, each once and the last of the topology
-- first, within as many rounds as there are steps, and then NextUnwind reports the unwinding
-- complete.
pub rollback-targets :
    (ok : String → Bool) (n : ℕ) (topo : Topology) (forward : Map String OpState)
    → IsDistinct (ids topo)
    → length topo ≤ n
    → rollback ok n topo (record { forward = forward; unwind = [] })
      ≡ (targets forward topo, decide_step unwind_complete "")
rollback-targets ok n topo forward d l =
    let f : Facts = record { forward = forward; unwind = [] } in
    rollback-IsAhead ok n topo topo [] f
      (record {
        resolved = tt;
        splits = sym (append-nil topo);
        distinct = d;
        fresh = All-IsFresh topo;
        ahead =
            ap (λ k. take k topo) (unwind_frontier-eq [] topo)
            ∙ take-first_fresh [] topo (All-IsFresh topo);
      })
      l
