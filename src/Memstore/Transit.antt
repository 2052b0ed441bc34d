-- ===== src/Memstore/Transit.antt =====
-- A transition of store/mem/mem.go keeps the state valid.
use durable.Base.{
  ◌≡◌, ◌≢◌, ◌⊎◌, sym, ◌∙◌, ap, subst, true, false, Option, none, some, String, String_comparable,
  ◌≟◌, if◌then◌else◌, is_some, some_inj, arith, Bool-cases, inl, inr,
}
use durable.Base.Lookups.{put-here, put-else, put-found, delete-else, delete-found}
use durable.Base.Map.{Map, get, put, delete, IsMap, put-IsMap}
use durable.Kernel.{RunId, StepId, Outcome}
use durable.Driver.{Bytes, CancelRequest, Cursor, Transition, RunRecord, terminal, compact_terminal}
use durable.Driver.Compact.{kept-IsMap, compact_terminal-Compacts}
use durable.Memstore.{State, written, finish, is_idle, point, free_slot, settle, transit}
use durable.Memstore.Keys.{is_nul_free}
use durable.Memstore.Written.{Keeps, written-Keeps, written-IsMap, written-steps}
use durable.Memstore.Invariant.{key_of, IsLive, IsValid}

point-found :
    (m : Map RunId StepId) (id : RunId) (c : Cursor) (j : RunId) (step : StepId)
    → get (point m id c) j ≡ some step
    → ((id ≡ j) × (is_idle c ≡ false) × (c.step_id ≡ step)) ⊎ ((id ≢ j) × (get m j ≡ some step))
unfolding point
point-found m id c j step e = elim (Bool-cases (is_idle c)) [
  | inl b ↦ inr (
      delete-found m id j step (
        subst (λ x. get (if x then delete m id else put (delete m id) id c.step_id) j ≡ some step) b
          e))
  | inr b ↦
      elim (put-found (delete m id) id c.step_id j step (
        subst (λ x. get (if x then delete m id else put (delete m id) id c.step_id) j ≡ some step) b
          e)) [ inl (p, q) ↦ inl (p, b, q) | inr (n, q) ↦ inr (delete-found m id j step q) ]
]

pub free_slot-own :
    (slots : Map String RunId) (key : String) (id : RunId)
    → get slots key ≡ some id
    → free_slot slots key id ≡ delete slots key
unfolding free_slot
free_slot-own slots key id h = rw (h, free_slot) (ground arith)

-- A run that is not the one of the transition lives on.
live-else :
    {P : RunRecord → Type 0} (s : State) (id j : RunId) (w : RunRecord)
    → id ≢ j
    → IsLive s j P
    → (x : RunRecord) × (get (put s.runs id w) j ≡ some x) × (terminal x ≡ false) × P x
live-else s id j w n l = (l.0, put-else s.runs id w j n ∙ l.1, l.2, l.3)

pub Keeps-key : (r w : RunRecord) → Keeps r w → key_of w ≡ key_of r
Keeps-key r w k = ap key_of k

-- What stands at an id is one record.
same_run :
    (s : State) (id j : RunId) (r x : RunRecord)
    → get s.runs id ≡ some r
    → get s.runs j ≡ some x
    → id ≡ j
    → r ≡ x
same_run s id j r x g e p = some_inj (sym g ∙ ap (get s.runs) p ∙ e)

advance-IsValid :
    (s : State) (id : RunId) (r w : RunRecord) (c : Cursor)
    → IsValid s
    → get s.runs id ≡ some r
    → terminal r ≡ false
    → Keeps r w
    → IsMap w.steps
    → (is_idle c ≡ false → is_some (get w.steps c.step_id) ≡ true)
    → IsValid (record s { runs = put s.runs id w; inflight = point s.inflight id c })
advance-IsValid s id r w c v g h k d f =
    let st = v.stored id r g in
    let live : terminal w ≡ false = ap terminal k ∙ h in
    record {
      runs = put-IsMap s.runs id w v.runs;
      stored = λ j x e. elim (put-found s.runs id w j x e) [
        | inl (p, q) ↦ rw (sym q) (record {
          own = ap (λ y. y.run_id) k ∙ st.own ∙ p;
          nul_free = ap (λ y. is_nul_free y.pipeline_id) k ∙ st.nul_free;
          steps = d;
          annotations = subst (λ y. IsMap y.annotations) (sym k) st.annotations;
          compact = λ t. ground arith;
        })
        | inr (n, q) ↦ v.stored j x q
      ];
      slot_run = λ key j e. elim (id ≟ j) [
        | yes p ↦
            let l = v.slot_run key j e in
            (
              w,
              rw (sym p) (put-here s.runs id w),
              live,
              Keeps-key r w k ∙ ap key_of (same_run s id j r l.0 g l.1 p) ∙ l.3,
            )
        | no n ↦ live-else s id j w n (v.slot_run key j e)
      ];
      run_slot = λ j x e t. elim (put-found s.runs id w j x e) [
        | inl (p, q) ↦ rw (sym q) (rw (Keeps-key r w k) (rw (sym p) (v.run_slot id r g h)))
        | inr (n, q) ↦ v.run_slot j x q t
      ];
      flight = λ j step e. elim (point-found s.inflight id c j step e) [
        | inl (p, b, q) ↦ (w, rw (sym p) (put-here s.runs id w), live, rw (sym q) (f b))
        | inr (n, q) ↦ live-else s id j w n (v.flight j step q)
      ];
    }

end-IsValid :
    (s : State) (id : RunId) (r w : RunRecord) (c : Cursor) (o : Outcome) (output : Bytes)
    → IsValid s
    → get s.runs id ≡ some r
    → terminal r ≡ false
    → Keeps r w
    → IsMap w.steps
    → IsValid (record {
      runs = put s.runs id (finish w o output);
      slots = free_slot s.slots (key_of w) id;
      inflight = delete (point s.inflight id c) id;
    })
unfolding finish compact_terminal
end-IsValid s id r w c o output v g h k d =
    let st = v.stored id r g in
    let x : RunRecord = record w { outcome = some o; output = output } in
    let key = Keeps-key r w k in
    let own : get s.slots (key_of w) ≡ some id = rw key (v.run_slot id r g h) in
    rw (free_slot-own s.slots (key_of w) id own) (record {
      runs = put-IsMap s.runs id (finish w o output) v.runs;
      stored = λ j y e. elim (put-found s.runs id (finish w o output) j y e) [
        | inl (p, q) ↦ rw (sym q) (record {
          own = ap (λ y. y.run_id) k ∙ st.own ∙ p;
          nul_free = ap (λ y. is_nul_free y.pipeline_id) k ∙ st.nul_free;
          steps = kept-IsMap w.steps d;
          annotations = subst (λ y. IsMap y.annotations) (sym k) st.annotations;
          compact = λ t. (compact_terminal-Compacts x d).again;
        })
        | inr (n, q) ↦ v.stored j y q
      ];
      slot_run = λ y j e.
          let del = delete-found s.slots (key_of w) y j e in
          let l = v.slot_run y j del.1 in
          live-else s id j (finish w o output)
            (λ p. del.0 (key ∙ ap key_of (same_run s id j r l.0 g l.1 p) ∙ l.3)) l;
      run_slot = λ j y e t. elim (put-found s.runs id (finish w o output) j y e) [
        | inl (p, q) ↦ ground (arith, ap terminal q)
        | inr (n, q) ↦
            let old = v.run_slot j y q t in
            delete-else s.slots (key_of w) (key_of y)
              (λ p. n (some_inj (sym own ∙ ap (get s.slots) p ∙ old)))
            ∙ old
      ];
      flight = λ j step e.
          let del = delete-found (point s.inflight id c) id j step e in
          elim (point-found s.inflight id c j step del.1) [
            | inl (p, b, q) ↦ absurd (del.0 p)
            | inr (n, q) ↦ live-else s id j (finish w o output) n (v.flight j step q)
          ];
    })

settle-IsValid :
    (s : State) (id : RunId) (r w : RunRecord) (t : Transition) (o : Option Outcome)
    → IsValid s
    → get s.runs id ≡ some r
    → terminal r ≡ false
    → Keeps r w
    → IsMap w.steps
    → (is_idle t.cursor ≡ false → is_some (get w.steps t.cursor.step_id) ≡ true)
    → IsValid (settle s id w t o)
unfolding settle
settle-IsValid s id r w t none v g h k d f = advance-IsValid s id r w t.cursor v g h k d f
settle-IsValid s id r w t (some o) v g h k d f = end-IsValid s id r w t.cursor o t.output v g h k d

pub transit-IsValid :
    (s : State) (id : RunId) (r : RunRecord) (t : Transition)
    → IsValid s
    → get s.runs id ≡ some r
    → terminal r ≡ false
    → IsValid (transit s id r t)
unfolding transit
transit-IsValid s id r t v g h =
    settle-IsValid s id r (written r t) t t.outcome v g h (written-Keeps r t)
      (written-IsMap r t (v.stored id r g).steps) (written-steps r t)

pub cancel-IsValid :
    (s : State) (id : RunId) (r : RunRecord) (req : CancelRequest)
    → IsValid s
    → get s.runs id ≡ some r
    → terminal r ≡ false
    → IsValid (record s { runs = put s.runs id (record r { cancel = some req }) })
cancel-IsValid s id r req v g h =
    let st = v.stored id r g in
    let w : RunRecord = record r { cancel = some req } in
    record {
      runs = put-IsMap s.runs id w v.runs;
      stored = λ j x e. elim (put-found s.runs id w j x e) [
        | inl (p, q) ↦ rw (sym q) (record {
          own = st.own ∙ p;
          nul_free = st.nul_free;
          steps = st.steps;
          annotations = st.annotations;
          compact = λ t. ground arith;
        })
        | inr (n, q) ↦ v.stored j x q
      ];
      slot_run = λ key j e. elim (id ≟ j) [
        | yes p ↦
            let l = v.slot_run key j e in
            (
              w,
              rw (sym p) (put-here s.runs id w),
              h,
              ap key_of (same_run s id j r l.0 g l.1 p) ∙ l.3,
            )
        | no n ↦ live-else s id j w n (v.slot_run key j e)
      ];
      run_slot = λ j x e t. elim (put-found s.runs id w j x e) [
        | inl (p, q) ↦ rw (sym q) (rw (sym p) (v.run_slot id r g h))
        | inr (n, q) ↦ v.run_slot j x q t
      ];
      flight = λ j step e. elim (id ≟ j) [
        | yes p ↦
            let l = v.flight j step e in
            (w, rw (sym p) (put-here s.runs id w), h, rw (same_run s id j r l.0 g l.1 p) l.3)
        | no n ↦ live-else s id j w n (v.flight j step e)
      ];
    }
