-- ===== src/Memstore/Sorting.antt =====
-- `sortRecords` of store/mem/mem.go: the records in the order of their creation.
use mathlib.Core.List.{Permᴰ, ◌++◌, append-nil}
use mathlib.Core.List.Permᴰ
use durable.Base.{
  ◌≡◌, refl, ap, subst, Bool, true, ◌&&◌, List, [], ◌∷◌, leb, ltb, arith, Bool-cases, inl, inr,
  String_comparable,
}
use durable.Base.Lookups.{Agrees, Agrees-tail, get-first}
use durable.Base.Map.{Map, IsMap}
use durable.Kernel.{RunId}
use durable.Driver.{RunRecord}
use durable.Driver.Copies.{clone-same}
use durable.Memstore.Invariant.{IsValid}
use durable.Memstore.{State, swap_back, sort_loop, last_first, sort_records, copies, all_runs}

-- No record is created before the one that precedes it.
abbrev pub in_order : List RunRecord → Bool
in_order [] = true
in_order (r ∷ []) = true
in_order (r ∷ q ∷ qs) = leb r.created_at q.created_at && in_order (q ∷ qs)

abbrev reverse_order : List RunRecord → Bool
reverse_order [] = true
reverse_order (r ∷ []) = true
reverse_order (r ∷ q ∷ qs) = leb q.created_at r.created_at && reverse_order (q ∷ qs)

swap_back-reverse :
    (r : RunRecord) (qs : List RunRecord)
    → reverse_order qs ≡ true
    → reverse_order (swap_back r qs) ≡ true
unfolding swap_back
swap_back-reverse r [] h = refl
swap_back-reverse r (q ∷ []) h = ground arith
swap_back-reverse r (q ∷ p ∷ qs) h = ground (arith, swap_back-reverse r (p ∷ qs))

sort_loop-reverse :
    (qs rs : List RunRecord) → reverse_order qs ≡ true → reverse_order (sort_loop qs rs) ≡ true
unfolding sort_loop
sort_loop-reverse qs [] h = h
sort_loop-reverse qs (r ∷ rs) h = sort_loop-reverse (swap_back r qs) rs (swap_back-reverse r qs h)

-- The reversed records end where the others begin.
abbrev meets : List RunRecord → List RunRecord → Bool
meets [] out = true
meets (r ∷ rs) [] = true
meets (r ∷ rs) (q ∷ qs) = leb r.created_at q.created_at

last_first-order :
    (rs out : List RunRecord)
    → reverse_order rs ≡ true
    → in_order out ≡ true
    → meets rs out ≡ true
    → in_order (last_first rs out) ≡ true
unfolding last_first
last_first-order [] out h k m = k
last_first-order (r ∷ []) [] h k m = refl
last_first-order (r ∷ []) (p ∷ out) h k m = ground arith
last_first-order (r ∷ q ∷ rs) [] h k m =
    last_first-order (q ∷ rs) (r ∷ []) (ground arith) refl (ground arith)
last_first-order (r ∷ q ∷ rs) (p ∷ out) h k m =
    last_first-order (q ∷ rs) (r ∷ p ∷ out) (ground arith) (ground arith) (ground arith)

swap_back-permᴰ : (r : RunRecord) (qs : List RunRecord) → Permᴰ (r ∷ qs) (swap_back r qs)
unfolding swap_back
swap_back-permᴰ r [] = Permᴰ.refl _
swap_back-permᴰ r (q ∷ qs) = elim (Bool-cases (ltb r.created_at q.created_at)) [
  | inr e ↦ rw e (Permᴰ.refl _)
  | inl e ↦ rw e (Permᴰ.trans (Permᴰ.swap refl refl) (Permᴰ.cons refl (swap_back-permᴰ r qs)))
]

append-permᴰ : (r : RunRecord) (rs qs : List RunRecord) → Permᴰ (r ∷ (rs ++ qs)) (rs ++ r ∷ qs)
append-permᴰ r [] qs = Permᴰ.refl _
append-permᴰ r (p ∷ rs) qs =
    Permᴰ.trans (Permᴰ.swap refl refl) (Permᴰ.cons refl (append-permᴰ r rs qs))

under-permᴰ :
    {qs ps : List RunRecord} (rs : List RunRecord) → Permᴰ qs ps → Permᴰ (rs ++ qs) (rs ++ ps)
under-permᴰ [] p = p
under-permᴰ (r ∷ rs) p = Permᴰ.cons refl (under-permᴰ rs p)

sort_loop-permᴰ : (qs rs : List RunRecord) → Permᴰ (rs ++ qs) (sort_loop qs rs)
unfolding sort_loop
sort_loop-permᴰ qs [] = Permᴰ.refl qs
sort_loop-permᴰ qs (r ∷ rs) =
    Permᴰ.trans (append-permᴰ r rs qs)
      (Permᴰ.trans (under-permᴰ rs (swap_back-permᴰ r qs)) (sort_loop-permᴰ (swap_back r qs) rs))

last_first-permᴰ : (rs out : List RunRecord) → Permᴰ (rs ++ out) (last_first rs out)
unfolding last_first
last_first-permᴰ [] out = Permᴰ.refl out
last_first-permᴰ (r ∷ rs) out = Permᴰ.trans (append-permᴰ r rs out) (last_first-permᴰ rs (r ∷ out))

meets-nil : (rs : List RunRecord) → meets rs [] ≡ true
meets-nil [] = refl
meets-nil (r ∷ rs) = refl

sort_records-order :
    (rs : List RunRecord) → (in_order (sort_records rs) ≡ true) × Permᴰ rs (sort_records rs)
unfolding sort_records
sort_records-order rs =
    let sorted = sort_loop [] rs in
    let p : Permᴰ rs (sort_loop [] rs) =
      subst (λ l. Permᴰ l sorted) (append-nil rs) (sort_loop-permᴰ [] rs) in
    let q : Permᴰ sorted (last_first sorted []) =
      subst (λ l. Permᴰ l (last_first sorted [])) (append-nil sorted)
        (last_first-permᴰ sorted []) in
    (
      last_first-order sorted [] (sort_loop-reverse [] rs refl) refl (meets-nil sorted),
      Permᴰ.trans p q,
    )

abbrev pub records : Map RunId RunRecord → List RunRecord
records [] = []
records ((id, r) ∷ m) = r ∷ records m

copies-same :
    (s : State) (es : Map RunId RunRecord)
    → IsValid s
    → IsMap es
    → Agrees es s.runs
    → copies es ≡ records es
unfolding copies
copies-same s [] v d a = refl
copies-same s ((id, r) ∷ es) v d a =
    let st = v.stored id r (a id r (get-first es id r)) in
    rw (clone-same r st.steps st.annotations)
      (ap (λ l. r ∷ l) (copies-same s es v d.1 (Agrees-tail es s.runs id r d a)))

-- Runs in a valid state of the store in memory answers a permutation of its records in which none
-- was created before the one that precedes it.
all_runs-order :
    (s : State) → IsValid s → (in_order (all_runs s) ≡ true) × Permᴰ (records s.runs) (all_runs s)
unfolding all_runs
all_runs-order s v =
    rw (copies-same s s.runs v v.runs (λ id r g. g)) (sort_records-order (records s.runs))
