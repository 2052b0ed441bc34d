-- ===== src/Kernel/Waits.antt =====
-- The copies and the pending targets of a park of kernel/kernel.go.
use durable.Base.{
  ◌≡◌, ◌⊎◌, inl, inr, refl, false, ◌||◌, Option, none, some, List, [], ◌∷◌, String_comparable,
  if◌then◌else◌, length, leb, is_some, contains, arith,
}
use durable.Base.Map.{Map, get, put, get-put}
use durable.Kernel.{
  RunId, Await, Wake, clone_ids, clone_await, clone_wake, done_set, not_done, pending,
}

pub clone_ids-same : (ids : List RunId) → clone_ids ids ≡ ids
unfolding clone_ids
clone_ids-same [] = refl
clone_ids-same (id ∷ ids) = ground (arith, clone_ids-same ids)

pub clone_await-same : (a : Option Await) → clone_await a ≡ a
unfolding clone_await
clone_await-same none = refl
clone_await-same (some a) = rw (clone_ids-same a.targets) refl

pub clone_wake-same : (w : Option Wake) → clone_wake w ≡ w
unfolding clone_wake
clone_wake-same none = refl
clone_wake-same (some w) = rw (clone_ids-same w.targets) (rw (clone_ids-same w.done) refl)

done_set-get :
    (m : Map RunId (Unit {0})) (ids : List RunId) (id : RunId)
    → is_some (get (done_set m ids) id) ≡ (contains ids id || is_some (get m id))
unfolding done_set contains
done_set-get m [] id = refl
done_set-get m (x ∷ ids) id = ground (arith, done_set-get (put m x tt) ids id, get-put m x tt id)

-- The list without the members of another.
unfoldable pub without : List RunId → List RunId → List RunId
without [] ids = []
without (x ∷ xs) ids = if contains ids x then without xs ids else x ∷ without xs ids

without-nil : (xs : List RunId) → without xs [] ≡ xs
unfolding without contains
without-nil [] = refl
without-nil (x ∷ xs) = ground (arith, without-nil xs)

not_done-without : (done xs : List RunId) → not_done (done_set [] done) xs ≡ without xs done
unfolding not_done without get
not_done-without done [] = refl
not_done-without done (x ∷ xs) = ground (arith, not_done-without done xs, done_set-get [] done x)

nil-or-not : (xs : List RunId) → (xs ≡ []) ⊎ (leb (length xs) 0 ≡ false)
nil-or-not [] = inl refl
nil-or-not (x ∷ xs) = inr (ground arith)

-- Pending of a wake lists the targets that are not among the done ones, in their order and with
-- their repetitions; where none is done, all targets.
pending-without : (w : Wake) → pending w ≡ without w.targets w.done
unfolding pending
pending-without w = elim (nil-or-not w.done) [
  | inl e ↦ ground (arith, clone_ids-same w.targets, without-nil w.targets)
  | inr e ↦ ground (arith, not_done-without w.done w.targets)
]
