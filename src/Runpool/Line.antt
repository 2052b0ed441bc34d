-- ===== src/Runpool/Line.antt =====
-- The line of a class of internal/runpool/runpool.go: places, and what insertion and deletion keep.
use durable.Base.{
  ℕ, zero, suc, ◌+◌, ◌≤◌, ◌<◌, ◌≡◌, refl, ite, Bool, true, false, none, some, List, [], ◌∷◌,
  Comparable, ◌≟◌, if◌then◌else◌, length, All, arith, Bool-cases, inl, inr,
}
use durable.Base.Order.{Ordered}
use durable.Runpool.{Waiter, delete_at, insert_at, search_place, index_from}

module _ {W O : Type 0} ⦃wc : Comparable W⦄ where
  -- Whether the member stands in the line.
  unfoldable pub stands : List (Waiter W O) → W → Bool
  stands [] w = false
  stands (x ∷ xs) w = ite (x.w ≟ w) true (stands xs w)

  -- How many members stand ahead of it.
  unfoldable pub place : List (Waiter W O) → W → ℕ
  place [] w = 0
  place (x ∷ xs) w = ite (x.w ≟ w) 0 (suc (place xs w))

  abbrev pub IsOnce : List (Waiter W O) → Type 0
  IsOnce [] = Unit {0}
  IsOnce (x ∷ xs) = (stands xs x.w ≡ false) × IsOnce xs

  pub index_from-place :
      (i : ℕ) (xs : List (Waiter W O)) (w : W)
      → index_from i xs w ≡ (if stands xs w then some (i + place xs w) else none)
  unfolding index_from stands place
  index_from-place i [] w = refl
  index_from-place i (x ∷ xs) w = ground (arith, index_from-place (suc i) xs w)

  pub place-lt-length :
      (xs : List (Waiter W O)) (w : W) → stands xs w ≡ true → place xs w < length xs
  unfolding stands place
  place-lt-length [] w h = absurd (ground arith)
  place-lt-length (x ∷ xs) w h = ground (arith, place-lt-length xs w)

  pub stands-delete_at :
      (xs : List (Waiter W O)) (w x : W)
      → IsOnce xs
      → stands xs w ≡ true
      → stands (delete_at (place xs w) xs) x ≡ ite (w ≟ x) false (stands xs x)
  unfolding stands place delete_at
  stands-delete_at [] w x d h = absurd (ground arith)
  stands-delete_at (y ∷ xs) w x d h = ground (arith, stands-delete_at xs w x d.1)

  pub delete_at-IsOnce :
      (xs : List (Waiter W O)) (w : W)
      → IsOnce xs
      → stands xs w ≡ true
      → IsOnce (delete_at (place xs w) xs)
  unfolding stands place delete_at
  delete_at-IsOnce [] w d h = absurd (ground arith)
  delete_at-IsOnce (y ∷ xs) w d h =
      ground (arith, delete_at-IsOnce xs w d.1, stands-delete_at xs w y.w d.1)

  pub length-delete_at :
      (xs : List (Waiter W O)) (w : W)
      → stands xs w ≡ true
      → length (delete_at (place xs w) xs) + 1 ≡ length xs
  unfolding stands place delete_at
  length-delete_at [] w h = absurd (ground arith)
  length-delete_at (y ∷ xs) w h = ground (arith, length-delete_at xs w)

  -- A member ahead of the one that leaves keeps its place.
  pub place-delete_at :
      (xs : List (Waiter W O)) (w x : W)
      → stands xs w ≡ true
      → place xs x < place xs w
      → place (delete_at (place xs w) xs) x ≡ place xs x
  unfolding stands place delete_at
  place-delete_at [] w x h l = absurd (ground arith)
  place-delete_at (y ∷ xs) w x h l = ground (arith, place-delete_at xs w x)

  pub stands-insert_at :
      (i : ℕ) (y : Waiter W O) (xs : List (Waiter W O)) (x : W)
      → stands (insert_at i y xs) x ≡ ite (y.w ≟ x) true (stands xs x)
  unfolding stands insert_at
  stands-insert_at zero y xs x = refl
  stands-insert_at (suc i) y [] x = refl
  stands-insert_at (suc i) y (z ∷ xs) x = ground (arith, stands-insert_at i y xs x)

  pub insert_at-IsOnce :
      (i : ℕ) (y : Waiter W O) (xs : List (Waiter W O))
      → IsOnce xs
      → stands xs y.w ≡ false
      → IsOnce (insert_at i y xs)
  unfolding stands insert_at
  insert_at-IsOnce zero y xs d h = (h, d)
  insert_at-IsOnce (suc i) y [] d h = (refl, tt)
  insert_at-IsOnce (suc i) y (z ∷ xs) d h =
      ground (arith, insert_at-IsOnce i y xs d.1, stands-insert_at i y xs z.w)

  pub place-insert_at :
      (i : ℕ) (y : Waiter W O) (xs : List (Waiter W O))
      → stands xs y.w ≡ false
      → i ≤ length xs
      → place (insert_at i y xs) y.w ≡ i
  unfolding stands place insert_at
  place-insert_at zero y xs h l = ground arith
  place-insert_at (suc i) y [] h l = absurd (omega arith)
  place-insert_at (suc i) y (z ∷ xs) h l = ground (arith, place-insert_at i y xs)

  pub length-insert_at :
      (i : ℕ) (y : Waiter W O) (xs : List (Waiter W O)) → length (insert_at i y xs) ≡ length xs + 1
  unfolding insert_at
  length-insert_at zero y xs = omega arith
  length-insert_at (suc i) y [] = omega arith
  length-insert_at (suc i) y (z ∷ xs) = omega (arith, length-insert_at i y xs)

module _ {W O : Type 0} ⦃oc : Ordered O⦄ where
  abbrev pub IsAfter : O → Waiter W O → Type 0
  IsAfter o x = oc.le o x.order ≡ true

  -- The line is sorted by the orders of its members.
  abbrev pub IsSorted : List (Waiter W O) → Type 0
  IsSorted [] = Unit {0}
  IsSorted (x ∷ xs) = All (IsAfter x.order) xs × IsSorted xs

  pub search_place-le : (xs : List (Waiter W O)) (o : O) → search_place xs o ≤ length xs
  unfolding search_place
  search_place-le [] o = omega arith
  search_place-le (x ∷ xs) o = ground (arith, search_place-le xs o)

  All-delete_at :
      (o : O) (i : ℕ) (xs : List (Waiter W O))
      → All (IsAfter o) xs
      → All (IsAfter o) (delete_at i xs)
  unfolding delete_at
  All-delete_at o i [] a = tt
  All-delete_at o zero (x ∷ xs) a = a.1
  All-delete_at o (suc i) (x ∷ xs) a = (a.0, All-delete_at o i xs a.1)

  pub delete_at-IsSorted :
      (i : ℕ) (xs : List (Waiter W O)) → IsSorted xs → IsSorted (delete_at i xs)
  unfolding delete_at
  delete_at-IsSorted i [] s = tt
  delete_at-IsSorted zero (x ∷ xs) s = s.1
  delete_at-IsSorted (suc i) (x ∷ xs) s =
      (All-delete_at x.order i xs s.0, delete_at-IsSorted i xs s.1)

  pub All-trans :
      (o o' : O) (xs : List (Waiter W O))
      → oc.le o o' ≡ true
      → All (IsAfter o') xs
      → All (IsAfter o) xs
  All-trans o o' [] h a = tt
  All-trans o o' (x ∷ xs) h a = (oc.trans o o' x.order h a.0, All-trans o o' xs h a.1)

  All-insert_at :
      (o : O) (i : ℕ) (y : Waiter W O) (xs : List (Waiter W O))
      → IsAfter o y
      → All (IsAfter o) xs
      → All (IsAfter o) (insert_at i y xs)
  unfolding insert_at
  All-insert_at o zero y xs h a = (h, a)
  All-insert_at o (suc i) y [] h a = (h, tt)
  All-insert_at o (suc i) y (x ∷ xs) h a = (a.0, All-insert_at o i y xs h a.1)

  pub insert_at-IsSorted :
      (y : Waiter W O) (xs : List (Waiter W O))
      → IsSorted xs
      → IsSorted (insert_at (search_place xs y.order) y xs)
  unfolding insert_at search_place
  insert_at-IsSorted y [] s = (tt, tt)
  insert_at-IsSorted y (x ∷ xs) s = elim (Bool-cases (oc.le y.order x.order)) [
    | inl h ↦ rw h ((h, All-trans y.order x.order xs h s.0), s)
    | inr h ↦ rw h (
      All-insert_at x.order (search_place xs y.order) y xs (oc.total y.order x.order h) s.0,
      insert_at-IsSorted y xs s.1,
    )
  ]
