-- ===== src/Ledger/Drive.antt =====
-- A run of the ledger of internal/ledger/ledger.go in which every forward operation succeeds.
use durable.Base.{
  ℕ, zero, suc, ◌+◌, ◌≤◌, ◌≡◌, refl, sym, subst, ap, ◌∙◌, true, false, List, [], ◌∷◌, ◌++◌, String,
  String_comparable, if◌then◌else◌, length, All, contains, IsDistinct, arith, length-append,
}
use durable.Base.Map.{Map, get, put, get-put}
use durable.Ledger.{
  OpState, op_succeeded, Step, Topology, Facts, run_forward, forward_complete, Decision,
  decide_step, status, next_forward,
}
use durable.Ledger.Forward.{
  IsClear, IsNew, Selects, complete, step, next_forward-Selects, beyond_forward, beyond_forward-new,
  beyond_forward-start,
}
use mathlib.Core.List.{append_assoc}

abbrev pub ids : Topology → List String
ids [] = []
ids (s ∷ t) = s.id ∷ ids t

-- The steps that are to be executed.
abbrev pub live : Topology → List String
live [] = []
live (s ∷ t) = if s.retired then live t else s.id ∷ live t

-- The facts once the forward operation of `id` succeeded.
unfoldable pub succeed : Facts → String → Facts
succeed f id = record f { forward = put f.forward id op_succeeded }

-- Executes what the ledger decides, `fuel` steps at most; the steps executed and the last decision.
unfoldable pub drive : ℕ → Topology → Facts → List String × Decision
drive zero topo f = ([], next_forward topo f)
drive (suc fuel) topo f =
    let d = next_forward topo f in
    let rest = drive fuel topo (succeed f d.step) in
    elim d.kind [ run_forward ↦ (d.step ∷ rest.0, rest.1) | _ ↦ ([], d) ]

put-IsClear : (m : Map String OpState) (id : String) → IsClear m → IsClear (put m id op_succeeded)
unfolding put
put-IsClear [] id c = (refl, tt)
put-IsClear ((i, s) ∷ m) id c = ground (arith, put-IsClear m id c.1)

status-put :
    (m : Map String OpState) (id j : String)
    → status (put m id op_succeeded) j ≡ (if contains (id ∷ []) j then op_succeeded else status m j)
unfolding status contains
status-put m id j = ground (arith, get-put m id op_succeeded j)

-- Other steps are as new as before.
put-IsNew :
    (m : Map String OpState) (id : String) (t : Topology)
    → contains (ids t) id ≡ false
    → All (IsNew m) t
    → All (IsNew (put m id op_succeeded)) t
unfolding contains
put-IsNew m id [] h a = tt
put-IsNew m id (s ∷ t) h a =
    (ground (arith, status-put m id s.id), put-IsNew m id t (ground arith) a.1)

pub ids-IsDistinct_tail :
    (before t : Topology) → IsDistinct (ids (before ++ t)) → IsDistinct (ids t)
ids-IsDistinct_tail [] t d = d
ids-IsDistinct_tail (s ∷ before) t d = ids-IsDistinct_tail before t d.1

live-append_retired :
    (skipped t : Topology) → All (λ s. s.retired ≡ true) skipped → live (skipped ++ t) ≡ live t
live-append_retired [] t a = refl
live-append_retired (s ∷ skipped) t a = ground (arith, live-append_retired skipped t a.1)

-- What holds of the part `t` of the topology that is still to be executed.
record IsAhead (topo before t : Topology) (m : Map String OpState) : Type 0 where
  clear : IsClear m
  splits : topo ≡ before ++ t
  distinct : IsDistinct (ids topo)
  new : All (IsNew m) t
  ahead : beyond_forward topo m ≡ t

IsAhead-selects :
    {topo before t : Topology} (f : Facts)
    → IsAhead topo before t f.forward
    → Selects f.forward t (next_forward topo f)
IsAhead-selects {topo} f a =
    subst (λ u. Selects f.forward u (next_forward topo f)) a.ahead
      (next_forward-Selects topo f a.clear).1

All-split :
    (m : Map String OpState) (skipped t : Topology) → All (IsNew m) (skipped ++ t) → All (IsNew m) t
All-split m [] t a = a
All-split m (s ∷ skipped) t a = All-split m skipped t a.1

IsAhead-succeed :
    (topo before t skipped rest : Topology) (s : Step) (f : Facts)
    → IsAhead topo before t f.forward
    → t ≡ skipped ++ s ∷ rest
    → IsAhead topo ((before ++ skipped) ++ s ∷ []) rest (succeed f s.id).forward
unfolding succeed contains
IsAhead-succeed topo before t skipped rest s f a split =
    let m = put f.forward s.id op_succeeded in
    let e : topo ≡ (before ++ skipped) ++ s ∷ rest =
      a.splits ∙ ap (◌++◌ before) split ∙ sym (append_assoc before skipped (s ∷ rest)) in
    let d : IsDistinct (s.id ∷ ids rest) =
      ids-IsDistinct_tail (before ++ skipped) (s ∷ rest)
        (subst (λ u. IsDistinct (ids u)) e a.distinct) in
    let old : All (IsNew f.forward) (s ∷ rest) =
      All-split f.forward skipped (s ∷ rest) (subst (All (IsNew f.forward)) split a.new) in
    let kept : All (IsNew m) rest = put-IsNew f.forward s.id rest d.0 old.1 in
    record {
      clear = put-IsClear f.forward s.id a.clear;
      splits = e ∙ sym (append_assoc (before ++ skipped) (s ∷ []) rest);
      distinct = a.distinct;
      new = kept;
      ahead =
          ap (λ u. beyond_forward u m) e
          ∙ beyond_forward-new m (before ++ skipped) s rest
              (ground (arith, status-put f.forward s.id s.id)) kept;
    }

live_retired : (t : Topology) → All (λ s. s.retired ≡ true) t → live t ≡ []
live_retired [] a = refl
live_retired (s ∷ t) a = ground (arith, live_retired t a.1)

live-append_split :
    (t skipped rest : Topology) (s : Step)
    → t ≡ skipped ++ s ∷ rest
    → All (λ x. x.retired ≡ true) skipped
    → s.retired ≡ false
    → live t ≡ s.id ∷ live rest
live-append_split t skipped rest s split all now =
    ap live split ∙ live-append_retired skipped (s ∷ rest) all ∙ ground arith

length-split :
    (t skipped rest : Topology) (s : Step) → t ≡ skipped ++ s ∷ rest → length rest + 1 ≤ length t
length-split t skipped rest s split =
    omega (arith, ap length split, length-append skipped (s ∷ rest))

drive_end :
    (t : Topology) (f : Facts) (topo : Topology)
    → Selects f.forward t (next_forward topo f)
    → length t ≤ 0
    → drive 0 topo f ≡ (live t, decide_step forward_complete "")
unfolding drive
drive_end t f topo (complete all e) h = ground (arith, live_retired t all)
drive_end t f topo (step skipped s rest split all now new e) h =
    absurd (omega (arith, length-split t skipped rest s split))

-- The rest of the drive, after the operation of one step.
abbrev Drives : ℕ → Topology → Type 0
Drives n topo =
    (before t : Topology) (f : Facts)
    → IsAhead topo before t f.forward
    → length t ≤ n
    → drive n topo f ≡ (live t, decide_step forward_complete "")

drive_once :
    (n : ℕ) (topo before t : Topology) (f : Facts)
    → Drives n topo
    → IsAhead topo before t f.forward
    → Selects f.forward t (next_forward topo f)
    → length t ≤ suc n
    → drive (suc n) topo f ≡ (live t, decide_step forward_complete "")
unfolding drive
drive_once n topo before t f ih a (complete all e) h = ground (arith, live_retired t all)
drive_once n topo before t f ih a (step skipped s rest split all now new e) h =
    let further : drive n topo (succeed f s.id) ≡ (live rest, decide_step forward_complete "") =
      ih ((before ++ skipped) ++ s ∷ []) rest (succeed f s.id)
        (IsAhead-succeed topo before t skipped rest s f a split)
        (omega (arith, length-split t skipped rest s split)) in
    ground (arith, further, live-append_split t skipped rest s split all now)

drive-IsAhead : (n : ℕ) (topo : Topology) → Drives n topo
drive-IsAhead zero topo before t f a h = drive_end t f topo (IsAhead-selects f a) h
drive-IsAhead (suc n) topo before t f a h =
    drive_once n topo before t f (drive-IsAhead n topo) a (IsAhead-selects f a) h

-- A new run has no facts.
abbrev pub no_facts : Facts
no_facts = record { forward = []; unwind = [] }

All-IsNew : (t : Topology) → All (IsNew []) t
unfolding status get
All-IsNew [] = tt
All-IsNew (s ∷ t) = (refl, All-IsNew t)

-- A new run over a topology with distinct step ids, in which each operation that NextForward
-- chooses succeeds, executes the steps that are not retired, each once and in the order of the
-- topology, within as many rounds as there are steps, and then NextForward reports the forward
-- phase complete.
pub drive-live :
    (n : ℕ) (topo : Topology)
    → IsDistinct (ids topo)
    → length topo ≤ n
    → drive n topo no_facts ≡ (live topo, decide_step forward_complete "")
drive-live n topo d h =
    drive-IsAhead n topo [] topo no_facts
      (record {
        clear = tt;
        splits = refl;
        distinct = d;
        new = All-IsNew topo;
        ahead = beyond_forward-start [] topo (All-IsNew topo);
      })
      h
