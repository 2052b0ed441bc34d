-- ===== src/Runpool/Admission.antt =====
-- `Admit` of internal/runpool/runpool.go: whom it admits, and what it records.
use durable.Base.{
  ℕ, ◌+◌, ◌≡◌, ite, Bool, not, ◌||◌, some, Comparable, ◌≟◌, ltb, leb, if◌then◌else◌, arith,
  Option-cases, Bool-cases, inl, inr, is_some, List, [], ◌∷◌, ◌++◌, length, All, refl, ap, subst,
}
use durable.Base.Map.{get, put, get-put}
use durable.Base.Order.{Ordered}
use durable.Runpool.{
  Waiter, Class, Pool, class_for, fresh_class, enter, admit, insert, pending_count, pending_of,
  search_place, insert_at,
}
use durable.Runpool.Line.{length-insert_at, IsSorted, IsAfter, All-trans}
use durable.Runpool.Invariant.{line_of, aside_of}

module _ {W O : Type 0} ⦃oc : Ordered O⦄ where
  -- The members with a lower order, and the others.
  unfoldable pub lower_ones : O → List (Waiter W O) → List (Waiter W O)
  lower_ones o [] = []
  lower_ones o (x ∷ xs) = let rest = lower_ones o xs in if oc.le o x.order then rest else x ∷ rest

  unfoldable pub other_ones : O → List (Waiter W O) → List (Waiter W O)
  other_ones o [] = []
  other_ones o (x ∷ xs) = let rest = other_ones o xs in if oc.le o x.order then x ∷ rest else rest

  lower_ones-IsAfter : (o : O) (xs : List (Waiter W O)) → All (IsAfter o) xs → lower_ones o xs ≡ []
  unfolding lower_ones
  lower_ones-IsAfter o [] a = refl
  lower_ones-IsAfter o (x ∷ xs) a = ground (arith, a.0, lower_ones-IsAfter o xs a.1)

  other_ones-IsAfter : (o : O) (xs : List (Waiter W O)) → All (IsAfter o) xs → other_ones o xs ≡ xs
  unfolding other_ones
  other_ones-IsAfter o [] a = refl
  other_ones-IsAfter o (x ∷ xs) a = ground (arith, a.0, other_ones-IsAfter o xs a.1)

  -- The line with a member behind those with a lower order and ahead of the others.
  abbrev pub with_member : Waiter W O → List (Waiter W O) → List (Waiter W O)
  with_member y xs = lower_ones y.order xs ++ y ∷ other_ones y.order xs

  insert_at-with_member :
      (y : Waiter W O) (xs : List (Waiter W O))
      → IsSorted xs
      → insert_at (search_place xs y.order) y xs ≡ with_member y xs
  unfolding insert_at search_place lower_ones other_ones
  insert_at-with_member y [] s = refl
  insert_at-with_member y (x ∷ xs) s = elim (Bool-cases (oc.le y.order x.order)) [
    | inl h ↦
        let a : All (IsAfter y.order) xs = All-trans y.order x.order xs h s.0 in
        rw h (rw (lower_ones-IsAfter y.order xs a) (rw (other_ones-IsAfter y.order xs a) refl))
    | inr h ↦ rw h (ap (λ l. x ∷ l) (insert_at-with_member y xs s.1))
  ]

module _ {K W O : Type 0} ⦃kc : Comparable K⦄ ⦃wc : Comparable W⦄ ⦃oc : Ordered O⦄ where
  -- The members that wait in the line, and those that are set aside.
  abbrev pub taken : Pool K W O → K → ℕ
  taken p k = length (line_of p k) + aside_of p k

  -- Whether the class has room for one more pending member.
  abbrev pub has_room : Pool K W O → K → ℕ → Bool
  has_room p k max_pending = leb max_pending 0 || ltb (taken p k) max_pending

  -- Whether the pool needs no record of the member's arrival.
  abbrev pub is_settled : Pool K W O → K → W → Bool
  is_settled p k w =
      not (is_some (get p.capacity k)) || is_some (get p.holders w) || is_some (get p.pending w)

  -- The answer of `Admit`, and the pool after it.
  pub record Admission (p : Pool K W O) (k : K) (w : W) (order : O) (max_pending : ℕ)
      (admitted : Bool) (q : Pool K W O) : Type 0 where
    pub answer : admitted ≡ (is_settled p k w || has_room p k max_pending)
    pub counts :
        pending_of q k
        ≡ taken p k + (if is_settled p k w then 0 else if has_room p k max_pending then 1 else 0)
    pub pends :
        (x : W)
        → get q.pending x ≡ (
            if is_settled p k w || not (has_room p k max_pending)
            then get p.pending x
            else ite (w ≟ x) (some k) (get p.pending x))
    pub lines :
        (j : K)
        → line_of q j ≡ (
            if is_settled p k w || not (has_room p k max_pending)
            then line_of p j
            else ite
                (k ≟ j)
                (with_member (record { w = w; order = order }) (line_of p k))
                (line_of p j))

  -- Let the line of the class be sorted, as it is in a valid pool. Admit refuses exactly a
  -- newcomer of a limited key that has a cap of pending members and as many, waiting in the
  -- line or set aside, already. A newcomer that it admits is pending from then on, stands in
  -- the line of its class behind exactly the members with a lower order, who keep their order
  -- as the others do, and adds one to the pending count; in all other cases the count, the
  -- pending members and the lines are unchanged, and the lines of other classes always are.
  pub admit-Admission :
      (p : Pool K W O) (k : K) (w : W) (order : O) (max_pending : ℕ)
      → IsSorted (line_of p k)
      → let r = admit p k w order max_pending in Admission p k w order max_pending r.1 r.0
  unfolding admit class_for enter insert pending_of pending_count
  admit-Admission p k w order max_pending s = elim (Option-cases (get p.capacity k)) [
    | inl n ↦ record {
      answer = ground arith;
      counts = ground arith;
      pends = λ x. ground arith;
      lines = λ j. ground arith;
    }
    | inr (limit, n) ↦ elim (Option-cases (get p.classes k)) [
      | inl m ↦
          let y : Waiter W O = record { w = w; order = order } in
          let d : Class W O = fresh_class limit in
          let d' : Class W O = record d { line = insert_at (search_place d.line order) y d.line } in
          record {
            answer = ground (arith, get-put p.classes k d k);
            counts = ground (
              arith,
              get-put p.classes k d k,
              get-put (put p.classes k d) k d' k,
              length-insert_at (search_place d.line order) y d.line,
            );
            pends = λ x. ground (arith, get-put p.pending w k x);
            lines = λ j. ground (
              arith,
              get-put p.classes k d j,
              get-put (put p.classes k d) k d' j,
              insert_at-with_member y d.line tt,
            );
          }
      | inr (d, m) ↦
          let l : line_of p k ≡ d.line = rw (m, line_of) refl in
          let s' : IsSorted d.line = subst IsSorted l s in
          let y : Waiter W O = record { w = w; order = order } in
          let d' : Class W O = record d { line = insert_at (search_place d.line order) y d.line } in
          record {
            answer = ground arith;
            counts = ground (
              arith,
              get-put p.classes k d' k,
              length-insert_at (search_place d.line order) y d.line,
            );
            pends = λ x. ground (arith, get-put p.pending w k x);
            lines =
                λ j. ground (arith, get-put p.classes k d' j, insert_at-with_member y d.line s');
          }
    ]
  ]
