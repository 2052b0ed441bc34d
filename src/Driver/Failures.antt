-- ===== src/Driver/Failures.antt =====
-- `UnwindFailures` of store/driver/driver.go and the order in which Go visits the map of the steps.
use mathlib.Core.List.{Permᴰ}
use mathlib.Core.List.Permᴰ
use durable.Base.{
  ℕ, ◌≡◌, ◌≢◌, refl, ap, sym, ◌∙◌, Option, none, some, List, [], ◌∷◌, String_comparable,
  ℕ_comparable, contains, IsDistinct, arith,
}
use durable.Base.Perms.{IsDistinct-permᴰ}
use durable.Base.Map.{Map}
use durable.Kernel.{StepId}
use durable.Driver.{
  StepRecord, RunRecord, Found, failed_unwind, found, insert_found, sort_found, failures_of,
  unwind_failures,
}

abbrev pub orders : List Found → List ℕ
orders [] = []
orders (f ∷ fs) = f.order ∷ orders fs

insert_found_comm :
    (f g : Found) (l : List Found)
    → f.order ≢ g.order
    → insert_found f (insert_found g l) ≡ insert_found g (insert_found f l)
unfolding insert_found
insert_found_comm f g [] h = ground arith
insert_found_comm f g (x ∷ l) h = ground (arith, insert_found_comm f g l h)

orders-permᴰ : {fs gs : List Found} → Permᴰ fs gs → Permᴰ (orders fs) (orders gs)
orders-permᴰ Permᴰ.nil = Permᴰ.nil
orders-permᴰ (Permᴰ.cons e p) = Permᴰ.cons (ap (λ f. f.order) e) (orders-permᴰ p)
orders-permᴰ (Permᴰ.swap e d) = Permᴰ.swap (ap (λ f. f.order) e) (ap (λ f. f.order) d)
orders-permᴰ (Permᴰ.trans p q) = Permᴰ.trans (orders-permᴰ p) (orders-permᴰ q)

sort_found-permᴰ :
    {fs gs : List Found} → Permᴰ fs gs → IsDistinct (orders fs) → sort_found fs ≡ sort_found gs
unfolding sort_found contains
sort_found-permᴰ Permᴰ.nil d = refl
sort_found-permᴰ (Permᴰ.cons {a = a} {b = b} {l₁ = l} {l₂ = k} e p) d =
    rw e (ap (insert_found b) (sort_found-permᴰ p d.1))
sort_found-permᴰ (Permᴰ.swap {a = a} {b = b} {a' = a'} {b' = b'} {l = l} e e') d =
    rw (sym e) (rw (sym e') (insert_found_comm a b (sort_found l) (ground (arith, d.0))))
sort_found-permᴰ (Permᴰ.trans p q) d =
    sort_found-permᴰ p d ∙ sort_found-permᴰ q (IsDistinct-permᴰ (orders-permᴰ p) d)

-- A step's failure before those of the others.
abbrev join : Option Found → List Found → List Found
join o fs = elim o [ none ↦ fs | some f ↦ f ∷ fs ]

join-permᴰ : {fs gs : List Found} (o : Option Found) → Permᴰ fs gs → Permᴰ (join o fs) (join o gs)
join-permᴰ none p = p
join-permᴰ (some f) p = Permᴰ.cons refl p

join_swap : (fs : List Found) (o q : Option Found) → Permᴰ (join o (join q fs)) (join q (join o fs))
join_swap fs none q = Permᴰ.refl _
join_swap fs (some f) none = Permᴰ.refl _
join_swap fs (some f) (some g) = Permᴰ.swap refl refl

found-permᴰ : {m n : Map StepId StepRecord} → Permᴰ m n → Permᴰ (found m) (found n)
unfolding found
found-permᴰ Permᴰ.nil = Permᴰ.nil
found-permᴰ (Permᴰ.cons {a = (i, s)} {b = (j, t)} {l₁ = m} {l₂ = n} e p) =
    rw (ap (λ x. x.1) e) (join-permᴰ (failed_unwind t) (found-permᴰ p))
found-permᴰ (Permᴰ.swap {a = (i, s)} {b = (j, t)} {a' = (i', s')} {b' = (j', t')} {l = m} e e') =
    rw (ap (λ x. x.1) e)
      (rw (ap (λ x. x.1) e') (join_swap (found m) (failed_unwind t') (failed_unwind s')))
found-permᴰ (Permᴰ.trans p q) = Permᴰ.trans (found-permᴰ p) (found-permᴰ q)

-- UnwindFailures gives the same list in whatever order Go visits the steps, provided that the
-- orders of the failed unwinds differ.
pub unwind_failures-permᴰ :
    (r q : RunRecord)
    → Permᴰ r.steps q.steps
    → IsDistinct (orders (found r.steps))
    → unwind_failures r ≡ unwind_failures q
unfolding unwind_failures
unwind_failures-permᴰ r q p d = ap failures_of (sort_found-permᴰ (found-permᴰ p) d)
