-- ===== src/Memstore/Reap.antt =====
-- `ReapTerminal` of store/mem/mem.go: which runs it deletes, and how many.
use durable.Base.{
  ℕ, ◌+◌, ◌≤◌, ◌<◌, ◌≡◌, ◌⊎◌, refl, sym, ◌∙◌, subst, Bool, true, false, Option, none, some, [], ◌∷◌,
  String_comparable, ◌≟◌, if◌then◌else◌, is_some, arith, leb, ltb, length, max, Bool-cases,
  Option-cases, inl, inr, ltb→lt,
}
use durable.Base.Lookups.{delete-else, Agrees, Agrees-tail, get-first, get-behind, behind, get-nil}
use durable.Base.Map.{
  Map, get, delete, IsMap, delete-IsMap, get-delete, contains-keys, length-delete_absent,
}
use durable.Kernel.{RunId, Time}
use durable.Driver.{RunRecord}
use durable.Memstore.Invariant.{IsLive, IsValid}
use durable.Memstore.{State, reapable, reap_loop, reap_terminal}

length-delete :
    (m : Map RunId RunRecord) (id : RunId)
    → IsMap m
    → length (delete m id) + (if is_some (get m id) then 1 else 0) ≡ length m
unfolding get delete
length-delete [] id d = refl
length-delete ((j, r) ∷ m) id d =
    ground (arith, length-delete m id d.1, contains-keys m j, d.0, length-delete_absent m j)

-- A run stands as it did, or it was to be reaped and is gone.
abbrev pub IsReaped : Time → Map RunId RunRecord → Map RunId RunRecord → RunId → Type 0
IsReaped before runs left id =
    (get left id ≡ get runs id)
    ⊎ ((get left id ≡ none)
        × ((r : RunRecord) × (get runs id ≡ some r) × (reapable before r ≡ true)))

-- What the loop has done to the runs.
record Reaps (before : Time) (limit : ℕ) (runs : Map RunId RunRecord) (deleted : ℕ)
    (es left : Map RunId RunRecord) (count : ℕ) : Type 0 where
  pub map : IsMap left
  pub each : (id : RunId) → IsReaped before runs left id
  pub counted : length left + count ≡ length runs + deleted
  pub limited : count ≤ max deleted limit
  pub all :
      count < limit
      → (id : RunId) (r : RunRecord) → get es id ≡ some r
      → reapable before r ≡ true
      → get left id ≡ none

-- What is deleted stays so.
gone-each :
    (before : Time) (runs left : Map RunId RunRecord) (j id : RunId)
    → j ≡ id
    → IsReaped before (delete runs j) left id
    → get left id ≡ none
gone-each before runs left j id p i = elim i [
  | inl e ↦ e ∙ ground (arith, get-delete runs j id)
  | inr e ↦ e.0
]

hit-each :
    (before : Time) (runs left : Map RunId RunRecord) (j : RunId) (q : RunRecord) (id : RunId)
    → get runs j ≡ some q
    → reapable before q ≡ true
    → IsReaped before (delete runs j) left id
    → IsReaped before runs left id
hit-each before runs left j q id g h i = elim (j ≟ id) [
  | yes p ↦ inr (gone-each before runs left j id p i, (q, subst (λ k. get runs k ≡ some q) p g, h))
  | no n ↦
      subst
        (λ o.
          (get left id ≡ o)
          ⊎ ((get left id ≡ none) × ((r : RunRecord) × (o ≡ some r) × (reapable before r ≡ true))))
        (delete-else runs j id n) i
]

hit-Reaps :
    (before : Time) (limit : ℕ) (runs : Map RunId RunRecord) (deleted : ℕ)
    (es : Map RunId RunRecord) (j : RunId) (q : RunRecord) (left : Map RunId RunRecord) (count : ℕ)
    → IsMap runs
    → get runs j ≡ some q
    → reapable before q ≡ true
    → deleted < limit
    → Reaps before limit (delete runs j) (deleted + 1) es left count
    → Reaps before limit runs deleted ((j, q) ∷ es) left count
unfolding get
hit-Reaps before limit runs deleted es j q left count d g h l i = record {
  map = i.map;
  each = λ id. hit-each before runs left j q id g h (i.each id);
  counted = ground (arith, i.counted, length-delete runs j d);
  limited = ground (arith, i.limited);
  all = λ m id r e t. elim (j ≟ id) [
    | yes p ↦ gone-each before runs left j id p (i.each id)
    | no n ↦ i.all m id r (sym (get-behind es j q id n) ∙ e) t
  ];
}

pass-Reaps :
    (before : Time) (limit : ℕ) (runs : Map RunId RunRecord) (deleted : ℕ)
    (es : Map RunId RunRecord) (j : RunId) (q : RunRecord) (left : Map RunId RunRecord) (count : ℕ)
    → reapable before q ≡ false
    → Reaps before limit runs deleted es left count
    → Reaps before limit runs deleted ((j, q) ∷ es) left count
unfolding get
pass-Reaps before limit runs deleted es j q left count h i = record {
  map = i.map;
  each = i.each;
  counted = i.counted;
  limited = i.limited;
  all = λ m id r e t. elim (j ≟ id) [
    | yes p ↦ ground (arith, subst (λ k. get ((j, q) ∷ es) k ≡ some r) (sym p) e)
    | no n ↦ i.all m id r (sym (get-behind es j q id n) ∙ e) t
  ];
}

reap_loop-Reaps :
    (before : Time) (limit : ℕ) (runs : Map RunId RunRecord) (deleted : ℕ)
    (es : Map RunId RunRecord)
    → IsMap runs
    → IsMap es
    → Agrees es runs
    → Reaps before limit runs deleted es
        (reap_loop before limit runs deleted es).0
        (reap_loop before limit runs deleted es).1
unfolding reap_loop
reap_loop-Reaps before limit runs deleted [] d e a = record {
  map = d;
  each = λ id. inl refl;
  counted = refl;
  limited = omega arith;
  all = λ l id r g. absurd (get-nil id r g);
}
reap_loop-Reaps before limit runs deleted ((j, q) ∷ es) d e a =
    let own : get runs j ≡ some q = a j q (get-first es j q) in
    let tail = Agrees-tail es runs j q e a in
    elim (Bool-cases (leb limit deleted)) [
      | inl b ↦ rw b (record {
        map = d;
        each = λ id. inl refl;
        counted = refl;
        limited = omega arith;
        all = λ l. ground arith;
      })
      | inr b ↦ elim (Bool-cases (reapable before q)) [
        | inl h ↦ rw b (
            rw h (
              hit-Reaps before limit runs deleted es j q _ _ d own h (ground arith) (
                reap_loop-Reaps before limit (delete runs j) (deleted + 1) es
                  (delete-IsMap runs j d) e.1
                  (λ id r g. delete-else runs j id (behind es j id r e.0 g) ∙ tail id r g))))
        | inr h ↦ rw b (
            rw h (
              pass-Reaps before limit runs deleted es j q _ _ h
                (reap_loop-Reaps before limit runs deleted es d e.1 tail)))
      ]
    ]

abbrev pub reapable_at : Time → Option RunRecord → Bool
reapable_at before o = elim o [ none ↦ false | some r ↦ reapable before r ]

-- Once the limit is not reached, nothing is left to reap.
rest-reapable :
    (before : Time) (limit : ℕ) (runs left : Map RunId RunRecord) (count : ℕ) (id : RunId)
    → Reaps before limit runs 0 runs left count
    → count < limit
    → reapable_at before (get left id) ≡ false
rest-reapable before limit runs left count id i l = elim (Option-cases (get left id)) [
  | inl e ↦ rw e refl
  | inr (r, e) ↦ elim (Bool-cases (reapable before r)) [
    | inr h ↦ rw e h
    | inl h ↦ elim (i.each id) [
      | inl k ↦ ground (arith, i.all l id r (sym k ∙ e) h)
      | inr k ↦ ground (arith, k.0)
    ]
  ]
]

-- The state after a reaping that deleted some number of runs.
pub record Reaped (s : State) (before : Time) (limit : ℕ) (t : State) (count : ℕ) : Type 0 where
  pub runs : IsMap t.runs
  pub slots : t.slots ≡ s.slots
  pub inflight : t.inflight ≡ s.inflight
  pub each : (id : RunId) → IsReaped before s.runs t.runs id
  pub counted : length t.runs + count ≡ length s.runs
  pub limited : count ≤ limit
  pub rest : (count ≡ limit) ⊎ ((id : RunId) → reapable_at before (get t.runs id) ≡ false)

-- ReapTerminal in the store in memory, whatever the order in which it visits the runs, answers
-- the number of runs that it deletes, at most the limit. A deleted run was terminal and last
-- updated before the cutoff; every other run, slot and operation in flight stays. If it deletes
-- fewer than the limit, no such run is left.
pub reap_terminal-Reaped :
    (s : State) (before : Time) (limit : ℕ)
    → IsMap s.runs
    → Reaped s before limit (reap_terminal s before limit).0 (reap_terminal s before limit).1
unfolding reap_terminal
reap_terminal-Reaped s before limit d =
    let i = reap_loop-Reaps before limit s.runs 0 s.runs d d (λ id r g. g) in
    record {
      runs = i.map;
      slots = refl;
      inflight = refl;
      each = i.each;
      counted = omega (arith, i.counted);
      limited = ground (arith, i.limited);
      rest = elim (Bool-cases (ltb (reap_loop before limit s.runs 0 s.runs).1 limit)) [
        | inl b ↦ inr (λ id. rest-reapable before limit s.runs _ _ id i (ltb→lt _ _ b))
        | inr b ↦ inl (ground (arith, i.limited))
      ];
    }

reaped-found :
    (s t : State) (before : Time) (id : RunId) (r : RunRecord)
    → IsReaped before s.runs t.runs id
    → get t.runs id ≡ some r
    → get s.runs id ≡ some r
reaped-found s t before id r i e = elim i [ inl k ↦ sym k ∙ e | inr k ↦ ground (arith, k.0) ]

-- A run that is not terminal is not reaped.
reaped-live :
    {P : RunRecord → Type 0} (s t : State) (before : Time) (id : RunId)
    → IsReaped before s.runs t.runs id
    → IsLive s id P
    → IsLive t id P
reaped-live s t before id i l = elim i [
  | inl k ↦ (l.0, k ∙ l.1, l.2, l.3)
  | inr (n, k) ↦ ground (arith, k.1, l.1, l.2, k.2)
]

pub reap-IsValid :
    (s : State) (before : Time) (limit : ℕ) → IsValid s → IsValid (reap_terminal s before limit).0
unfolding reap_terminal
reap-IsValid s before limit v =
    let d = reap_terminal-Reaped s before limit v.runs in
    let t = (reap_terminal s before limit).0 in
    record {
      runs = d.runs;
      stored = λ id r e. v.stored id r (reaped-found s t before id r (d.each id) e);
      slot_run = λ key id e. reaped-live s t before id (d.each id) (v.slot_run key id e);
      run_slot = λ id r e h. v.run_slot id r (reaped-found s t before id r (d.each id) e) h;
      flight = λ id step e. reaped-live s t before id (d.each id) (v.flight id step e);
    }
