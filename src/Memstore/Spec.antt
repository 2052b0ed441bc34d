-- ===== src/Memstore/Spec.antt =====
-- The contract of a store on its records alone: the slots of store/mem/mem.go hold what a search of
-- the records finds.
use durable.Base.{
  ◌≡◌, ◌⊎◌, sym, Bool, true, false, not, ◌&&◌, Option, none, some, List, [], ◌∷◌, String_comparable,
  ◌≟◌, ite, if◌then◌else◌, arith, Option-cases, inl, inr,
}
use durable.Base.Map.{Map, get, IsMap, contains-keys}
use durable.Kernel.{PipelineId, ResourceId, RunId}
use durable.Driver.{RunRecord, terminal}
use durable.Memstore.{State, slot_key}
use durable.Memstore.Keys.{is_nul_free, slot_key_inj}
use durable.Memstore.Invariant.{IsValid}

-- A run of the pipeline and the resource that is not terminal.
unfoldable pub is_live : PipelineId → ResourceId → RunRecord → Bool
is_live p res r =
    not (terminal r) && (ite (r.pipeline_id ≟ p) true false && ite (r.resource_id ≟ res) true false)

unfoldable pub find_live :
    Map RunId RunRecord → PipelineId → ResourceId → Option (RunId × RunRecord)
find_live [] p res = none
find_live ((id, r) ∷ m) p res =
    let rest = find_live m p res in if is_live p res r then some (id, r) else rest

-- The first of the pipelines that has such a run, and the run.
unfoldable pub first_live : Map RunId RunRecord → ResourceId → List PipelineId → Option RunRecord
first_live m res [] = none
first_live m res (p ∷ ps) =
    let rest = first_live m res ps in elim (find_live m p res) [ none ↦ rest | some e ↦ some e.1 ]

find_live-none :
    (m : Map RunId RunRecord) (p : PipelineId) (res : ResourceId) (id : RunId) (r : RunRecord)
    → find_live m p res ≡ none
    → get m id ≡ some r
    → is_live p res r ≡ false
unfolding find_live get
find_live-none [] p res id r h g = ground (arith, g)
find_live-none ((j, q) ∷ m) p res id r h g = ground (arith, find_live-none m p res id r)

find_live-some :
    (m : Map RunId RunRecord) (p : PipelineId) (res : ResourceId) (id : RunId) (r : RunRecord)
    → IsMap m
    → find_live m p res ≡ some (id, r)
    → (get m id ≡ some r) × (is_live p res r ≡ true)
unfolding find_live get
find_live-some [] p res id r d h = ground arith
find_live-some ((j, q) ∷ m) p res id r d h =
    ground (arith, find_live-some m p res id r d.1, contains-keys m j, d.0)

is_live-parts :
    (p : PipelineId) (res : ResourceId) (r : RunRecord)
    → is_live p res r ≡ true
    → (terminal r ≡ false) × (r.pipeline_id ≡ p) × (r.resource_id ≡ res)
unfolding is_live
is_live-parts p res r h = ground arith

parts-is_live :
    (p : PipelineId) (res : ResourceId) (r : RunRecord)
    → terminal r ≡ false
    → r.pipeline_id ≡ p
    → r.resource_id ≡ res
    → is_live p res r ≡ true
unfolding is_live
parts-is_live p res r h k l = ground arith

-- The slot and the search agree.
abbrev pub Agree : State → PipelineId → ResourceId → Type 0
Agree s p res =
    ((find_live s.runs p res ≡ none) × (get s.slots (slot_key p res) ≡ none))
    ⊎ ((id : RunId) × (r : RunRecord) × (find_live s.runs p res ≡ some (id, r))
        × (get s.slots (slot_key p res) ≡ some id)
        × (get s.runs id ≡ some r))

pub slot-Agree :
    (s : State) (p : PipelineId) (res : ResourceId)
    → IsValid s
    → is_nul_free p ≡ true
    → Agree s p res
slot-Agree s p res v n = elim (Option-cases (find_live s.runs p res)) [
  | inl e ↦ elim (Option-cases (get s.slots (slot_key p res))) [
    | inl g ↦ inl (e, g)
    | inr (id, g) ↦
        let l = v.slot_run (slot_key p res) id g in
        let k =
          slot_key_inj l.0.pipeline_id p l.0.resource_id res (v.stored id l.0 l.1).nul_free n l.3 in
        absurd (
          ground
            (arith, find_live-none s.runs p res id l.0 e l.1, parts-is_live p res l.0 l.2 k.0 k.1))
  ]
  | inr (x, e) ↦
      let f = find_live-some s.runs p res x.0 x.1 v.runs e in
      let k = is_live-parts p res x.1 f.1 in
      inr (x.0, x.1, e, rw (sym k.1) (rw (sym k.2) (v.run_slot x.0 x.1 f.0 k.0)), f.0)
]
