-- ===== src/Memstore/Invariant.antt =====
-- The valid states of store/mem/mem.go, and that CreateRun and ApplyTransition keep them.
use durable.Base.{
  ◌≡◌, sym, true, false, none, some, String, String_comparable, is_some, arith, inl, inr,
}
use durable.Base.Lookups.{put-here, put-absent, put-found}
use durable.Base.Map.{Map, get, put, IsMap, put-IsMap}
use durable.Kernel.{RunId, StepId}
use durable.Driver.{RunRecord, terminal, compact_terminal}
use durable.Driver.Copies.{clone-same}
use durable.Memstore.{State, new, slot_key, seed, persist}
use durable.Memstore.Keys.{is_nul_free}

abbrev pub key_of : RunRecord → String
key_of r = slot_key r.pipeline_id r.resource_id

-- The record is stored under its id, and compact once it is terminal.
pub record IsStored (id : RunId) (r : RunRecord) : Type 0 where
  pub own : r.run_id ≡ id
  pub nul_free : is_nul_free r.pipeline_id ≡ true
  pub steps : IsMap r.steps
  pub annotations : IsMap r.annotations
  pub compact : terminal r ≡ true → compact_terminal r ≡ r

-- The run of the id is there and not terminal.
abbrev pub IsLive : State → RunId → (RunRecord → Type 0) → Type 0
IsLive s id P = (r : RunRecord) × (get s.runs id ≡ some r) × (terminal r ≡ false) × P r

pub record IsValid (s : State) : Type 0 where
  pub runs : IsMap s.runs
  pub stored : (id : RunId) (r : RunRecord) → get s.runs id ≡ some r → IsStored id r
  pub slot_run :
      (key : String) (id : RunId) → get s.slots key ≡ some id → IsLive s id (λ r. key_of r ≡ key)
  pub run_slot :
      (id : RunId) (r : RunRecord)
      → get s.runs id ≡ some r
      → terminal r ≡ false
      → get s.slots (key_of r) ≡ some id
  pub flight :
      (id : RunId) (step : StepId)
      → get s.inflight id ≡ some step
      → IsLive s id (λ r. is_some (get r.steps step) ≡ true)

pub new-IsValid : IsValid new
unfolding get
new-IsValid = record {
  runs = tt;
  stored = λ id r e. ground (arith, e);
  slot_run = λ key id e. ground (arith, e);
  run_slot = λ id r e t. ground (arith, e);
  flight = λ id step e. ground (arith, e);
}

-- A new record, that is not terminal yet.
pub record IsFresh (runs : Map RunId RunRecord) (r : RunRecord) : Type 0 where
  pub live : terminal r ≡ false
  pub absent : get runs r.run_id ≡ none
  pub nul_free : is_nul_free r.pipeline_id ≡ true
  pub steps : IsMap r.steps
  pub annotations : IsMap r.annotations

pub seed-same : (s : State) (r : RunRecord) → IsFresh s.runs r → seed r ≡ r
unfolding seed
seed-same s r f = rw (clone-same r f.steps f.annotations) (ground (arith, f.live))

persist-live :
    {P : RunRecord → Type 0} (s : State) (r : RunRecord) (id : RunId)
    → IsFresh s.runs r
    → IsLive s id P
    → (x : RunRecord) × (get (put s.runs r.run_id r) id ≡ some x) × (terminal x ≡ false) × P x
persist-live s r id f l = (l.0, put-absent s.runs r.run_id r id l.0 f.absent l.1, l.2, l.3)

pub persist-IsValid :
    (s : State) (r : RunRecord)
    → IsValid s
    → IsFresh s.runs r
    → get s.slots (key_of r) ≡ none
    → IsValid (persist s r)
unfolding persist
persist-IsValid s r v f h =
    let q = seed-same s r f in
    rw q (record {
      runs = put-IsMap s.runs r.run_id r v.runs;
      stored = λ id x e. elim (put-found s.runs r.run_id r id x e) [
        | inl (p, g) ↦ rw (sym g) (record {
          own = p;
          nul_free = f.nul_free;
          steps = f.steps;
          annotations = f.annotations;
          compact = λ t. ground (arith, f.live);
        })
        | inr (n, g) ↦ v.stored id x g
      ];
      slot_run = λ key id e. elim (put-found s.slots (key_of r) r.run_id key id e) [
        | inl (p, g) ↦ (r, rw (sym g) (put-here s.runs r.run_id r), f.live, p)
        | inr (n, g) ↦ persist-live s r id f (v.slot_run key id g)
      ];
      run_slot = λ id x e t. elim (put-found s.runs r.run_id r id x e) [
        | inl (p, g) ↦ rw (sym g) (rw (sym p) (put-here s.slots (key_of r) r.run_id))
        | inr (n, g) ↦ put-absent s.slots (key_of r) r.run_id (key_of x) id h (v.run_slot id x g t)
      ];
      flight = λ id step e. persist-live s r id f (v.flight id step e);
    })
