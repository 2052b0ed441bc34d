-- ===== src/Base/Lists.antt =====
-- Lists measured by native numbers, and what the code calls of package `slices`.
use Prim.Native.Nat.{ℕ, zero, suc, ◌+◌}
use mathlib.Core.Path.{◌≡◌, refl}
use mathlib.Core.Logic.{ite}
use mathlib.Core.Bool.{Bool, true, false}
use mathlib.Core.List.{List, [], ◌∷◌, ◌++◌}
use mathlib.Core.Option.{Option, none, some}
use native.Mathlib.Omega.{arith}
use durable.Base.Keys.{Comparable, ◌≟◌}
use durable.Base.Tests.{if◌then◌else◌}

module _ {ℓ} {A : Type ℓ} where
  abbrev pub length : List A → ℕ
  length [] = 0
  length (x ∷ xs) = suc (length xs)

  abbrev pub get_elem? : List A → ℕ → Option A
  get_elem? [] i = none
  get_elem? (x ∷ xs) zero = some x
  get_elem? (x ∷ xs) (suc i) = get_elem? xs i

  abbrev pub head? : List A → Option A
  head? [] = none
  head? (x ∷ xs) = some x

  pub length-append : (xs ys : List A) → length (xs ++ ys) ≡ length xs + length ys
  length-append [] ys = omega arith
  length-append (x ∷ xs) ys = omega (arith, length-append xs ys)

module _ {A : Type 0} ⦃c : Comparable A⦄ where
  -- `slices.Contains`
  unfoldable pub contains : List A → A → Bool
  contains [] a = false
  contains (x ∷ xs) a = ite (x ≟ a) true (contains xs a)

  -- `slices.DeleteFunc` with a test for equality: every occurrence goes.
  unfoldable pub delete_all : List A → A → List A
  delete_all [] a = []
  delete_all (x ∷ xs) a = ite (x ≟ a) (delete_all xs a) (x ∷ delete_all xs a)

  -- No element occurs twice.
  abbrev pub IsDistinct : List A → Type 0
  IsDistinct [] = Unit {0}
  IsDistinct (x ∷ xs) = (contains xs x ≡ false) × IsDistinct xs

  pub contains-append :
      (xs : List A) (a b : A) → contains (xs ++ a ∷ []) b ≡ ite (a ≟ b) true (contains xs b)
  unfolding contains
  contains-append [] a b = ground arith
  contains-append (x ∷ xs) a b = ground (arith, contains-append xs a b)

  pub contains-delete_all :
      (xs : List A) (a b : A) → contains (delete_all xs a) b ≡ ite (a ≟ b) false (contains xs b)
  unfolding contains delete_all
  contains-delete_all [] a b = ground arith
  contains-delete_all (x ∷ xs) a b = ground (arith, contains-delete_all xs a b)

  pub delete_all-IsDistinct : (xs : List A) (a : A) → IsDistinct xs → IsDistinct (delete_all xs a)
  unfolding delete_all
  delete_all-IsDistinct [] a d = tt
  delete_all-IsDistinct (x ∷ xs) a d =
      ground (arith, delete_all-IsDistinct xs a d.1, contains-delete_all xs a x)

  pub append-IsDistinct :
      (xs : List A) (a : A) → IsDistinct xs → contains xs a ≡ false → IsDistinct (xs ++ a ∷ [])
  unfolding contains
  append-IsDistinct [] a d h = ground arith
  append-IsDistinct (x ∷ xs) a d h =
      ground (arith, append-IsDistinct xs a d.1, contains-append xs a x)

  pub delete_all_absent : (xs : List A) (a : A) → contains xs a ≡ false → delete_all xs a ≡ xs
  unfolding contains delete_all
  delete_all_absent [] a h = refl
  delete_all_absent (x ∷ xs) a h = ground (arith, delete_all_absent xs a)

  pub contains-head? : (xs : List A) (a : A) → head? xs ≡ some a → contains xs a ≡ true
  unfolding contains
  contains-head? [] a h = cc
  contains-head? (x ∷ xs) a h = ground arith

  pub contains-append_lists :
      (xs ys : List A) (a : A)
      → contains (xs ++ ys) a ≡ (if contains xs a then true else contains ys a)
  unfolding contains
  contains-append_lists [] ys a = refl
  contains-append_lists (x ∷ xs) ys a = ground (arith, contains-append_lists xs ys a)

module _ {ℓ} {A : Type ℓ} where
  abbrev pub take : ℕ → List A → List A
  take zero xs = []
  take (suc n) [] = []
  take (suc n) (x ∷ xs) = x ∷ take n xs

  abbrev pub drop : ℕ → List A → List A
  drop zero xs = xs
  drop (suc n) [] = []
  drop (suc n) (x ∷ xs) = drop n xs

  -- Every element has the property.
  abbrev pub All {κ} : (A → Type κ) → List A → Type κ
  All P [] = Unit
  All P (x ∷ xs) = P x × All P xs

  pub All-append {κ} : (P : A → Type κ) (xs ys : List A) → All P xs → All P ys → All P (xs ++ ys)
  All-append P [] ys hx hy = hy
  All-append P (x ∷ xs) ys hx hy = (hx.0, All-append P xs ys hx.1 hy)

  pub take-append-drop : (n : ℕ) (xs : List A) → take n xs ++ drop n xs ≡ xs
  take-append-drop zero xs = refl
  take-append-drop (suc n) [] = refl
  take-append-drop (suc n) (x ∷ xs) = rw (take-append-drop n xs)
