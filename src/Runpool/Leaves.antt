-- ===== src/Runpool/Leaves.antt =====
-- `Hold`, `Release` and `Clear` of internal/runpool/runpool.go: what they change.
use durable.Base.{
  ◌+◌, ◌-◌, ◌≡◌, refl, ite, true, false, none, some, Comparable, ◌≟◌, arith, Bool-cases, inl, inr,
  is_some,
}
use durable.Base.Map.{get, put, delete, get-put, get-delete, put-IsMap, delete-IsMap}
use durable.Base.Order.{Ordered}
use durable.Runpool.{Class, Pool, leave_line, forget}
use durable.Runpool.Line.{
  stands, place, IsOnce, IsSorted, index_from-place, stands-delete_at, delete_at-IsOnce,
  delete_at-IsSorted,
}
use durable.Runpool.Invariant.{count-put, count-delete, IsValid, Changes}

module _ {K W O : Type 0} ⦃kc : Comparable K⦄ ⦃wc : Comparable W⦄ ⦃oc : Ordered O⦄
    (class_of : W → K) where
  leave_line-stands :
      (c : Class W O) (w x : W)
      → IsOnce c.line
      → stands (leave_line c w).line x ≡ ite (w ≟ x) false (stands c.line x)
  unfolding leave_line
  leave_line-stands c w x d = elim (Bool-cases (stands c.line w)) [
    | inl s ↦ ground (arith, index_from-place 0 c.line w, stands-delete_at c.line w x d s)
    | inr s ↦ ground (arith, index_from-place 0 c.line w)
  ]

  leave_line-keeps :
      (c : Class W O) (w : W)
      → IsOnce c.line
      → IsSorted c.line
      → IsOnce (leave_line c w).line
        × IsSorted (leave_line c w).line
        × ((leave_line c w).capacity ≡ c.capacity)
        × ((leave_line c w).in_use ≡ c.in_use)
        × ((leave_line c w).sidelined ≡ c.sidelined)
  unfolding leave_line
  leave_line-keeps c w d s = elim (Bool-cases (stands c.line w)) [
    | inl h ↦ ground (
      arith,
      index_from-place 0 c.line w,
      delete_at-IsOnce c.line w d h,
      delete_at-IsSorted (place c.line w) c.line s,
    )
    | inr h ↦ ground (arith, index_from-place 0 c.line w)
  ]

  pub leave_line-in_use : (c : Class W O) (w : W) → (leave_line c w).in_use ≡ c.in_use
  unfolding leave_line
  leave_line-in_use c w = ground (arith, index_from-place 0 c.line w)

  module _ (p : Pool K W O) (c : Class W O) (w : W) where
    abbrev pub returned : Class W O
    returned = record c { in_use = c.in_use - 1 }

    pub returned-Changes :
        IsValid class_of p
        → get p.classes (class_of w) ≡ some c
        → is_some (get p.holders w) ≡ true
        → Changes class_of p
            (record p {
              holders = delete p.holders w;
              classes = put p.classes (class_of w) returned;
            })
            w
            returned
    returned-Changes v g h =
        let k = class_of w in
        record {
          capacity = refl;
          classes = λ j. ground (arith, get-put p.classes k returned j);
          holders = λ x n. ground (arith, get-delete p.holders w x);
          pending = λ x n. refl;
          sidelined = λ x n. refl;
          parked = λ x n. refl;
          holder_map = delete-IsMap p.holders w v.holder_map;
          aside_map = v.aside_map;
          sized = ground (arith, v.sized k c);
          once = ground (arith, v.once k);
          sorted = ground (arith, v.sorted k);
          members = λ x. ground (arith, v.members k x);
          tokens = ground (arith, v.tokens k, count-delete class_of p.holders w k v.holder_map);
          asides = ground (arith, v.asides k);
          other_tokens = λ j n. ground (arith, count-delete class_of p.holders w j v.holder_map);
          other_asides = λ j n. refl;
          owned = λ j. ground (arith, get-delete p.holders w w);
          pended = λ j. v.pended w j;
          aside_pends = v.aside_pends w;
          parks = v.parks w;
          apart = ground (arith, get-delete p.holders w w);
        }

    abbrev pub forgotten : Pool K W O × Class W O
    forgotten = forget p c w

    pub forgotten-Changes :
        IsValid class_of p
        → get p.classes (class_of w) ≡ some c
        → is_some (get p.pending w) ≡ true
        → Changes class_of p
            (record forgotten.0 { classes = put forgotten.0.classes (class_of w) forgotten.1 })
            w
            forgotten.1
    unfolding forget
    forgotten-Changes v g h =
        let k = class_of w in
        let once : IsOnce c.line = ground (arith, v.once k) in
        let sorted : IsSorted c.line = ground (arith, v.sorted k) in
        let lk = leave_line-keeps c w once sorted in
        record {
          capacity = ground arith;
          classes = λ j. ground (arith, get-put p.classes k forgotten.1 j);
          holders = λ x n. ground arith;
          pending = λ x n. ground (arith, get-delete p.pending w x);
          sidelined = λ x n. ground (arith, get-delete p.sidelined w x);
          parked = λ x n. ground (arith, get-delete p.parked w x);
          holder_map = ground (arith, v.holder_map);
          aside_map = ground (arith, v.aside_map, delete-IsMap p.sidelined w);
          sized = ground (arith, v.sized k c, lk.2);
          once = ground (arith, lk.0);
          sorted = ground (arith, lk.1);
          members = λ x.
              ground (arith, v.members k x, leave_line-stands c w x once, get-delete p.pending w w);
          tokens = ground (arith, v.tokens k, lk.3);
          asides =
              ground (arith, v.asides k, lk.4, count-delete class_of p.sidelined w k v.aside_map);
          other_tokens = λ j n. ground arith;
          other_asides = λ j n. ground (arith, count-delete class_of p.sidelined w j v.aside_map);
          owned = λ j. ground (arith, v.owned w j);
          pended = λ j. ground (arith, get-delete p.pending w w);
          aside_pends = ground (arith, get-delete p.sidelined w w);
          parks = ground (arith, get-delete p.parked w w);
          apart = ground (arith, get-delete p.pending w w);
        }

    abbrev pub set_aside : Class W O
    set_aside = record (leave_line c w) { sidelined = (leave_line c w).sidelined + 1 }

    pub set_aside-Changes :
        IsValid class_of p
        → get p.classes (class_of w) ≡ some c
        → is_some (get p.pending w) ≡ true
        → is_some (get p.sidelined w) ≡ false
        → Changes class_of p
            (record p {
              classes = put p.classes (class_of w) set_aside;
              parked = delete p.parked w;
              sidelined = put p.sidelined w tt;
            })
            w
            set_aside
    set_aside-Changes v g h a =
        let k = class_of w in
        let once : IsOnce c.line = ground (arith, v.once k) in
        let sorted : IsSorted c.line = ground (arith, v.sorted k) in
        let lk = leave_line-keeps c w once sorted in
        record {
          capacity = refl;
          classes = λ j. ground (arith, get-put p.classes k set_aside j);
          holders = λ x n. refl;
          pending = λ x n. refl;
          sidelined = λ x n. ground (arith, get-put p.sidelined w tt x);
          parked = λ x n. ground (arith, get-delete p.parked w x);
          holder_map = v.holder_map;
          aside_map = put-IsMap p.sidelined w tt v.aside_map;
          sized = ground (arith, v.sized k c, lk.2);
          once = lk.0;
          sorted = lk.1;
          members = λ x.
              ground
                (arith, v.members k x, leave_line-stands c w x once, get-put p.sidelined w tt w);
          tokens = ground (arith, v.tokens k, lk.3);
          asides = ground (arith, v.asides k, lk.4, count-put class_of p.sidelined w tt k);
          other_tokens = λ j n. refl;
          other_asides = λ j n. ground (arith, count-put class_of p.sidelined w tt j);
          owned = λ j. v.owned w j;
          pended = λ j. v.pended w j;
          aside_pends = λ e. h;
          parks = ground (arith, get-delete p.parked w w);
          apart = v.apart w;
        }

    abbrev pub held : Class W O
    held = record forgotten.1 { in_use = forgotten.1.in_use + 1 }

    pub held-Changes :
        IsValid class_of p
        → get p.classes (class_of w) ≡ some c
        → get p.holders w ≡ none
        → Changes class_of p
            (record forgotten.0 {
              classes = put forgotten.0.classes (class_of w) held;
              holders = put forgotten.0.holders w (class_of w);
            })
            w
            held
    unfolding forget
    held-Changes v g h =
        let k = class_of w in
        let once : IsOnce c.line = ground (arith, v.once k) in
        let sorted : IsSorted c.line = ground (arith, v.sorted k) in
        let lk = leave_line-keeps c w once sorted in
        record {
          capacity = ground arith;
          classes = λ j. ground (arith, get-put p.classes k held j);
          holders = λ x n. ground (arith, get-put p.holders w k x);
          pending = λ x n. ground (arith, get-delete p.pending w x);
          sidelined = λ x n. ground (arith, get-delete p.sidelined w x);
          parked = λ x n. ground (arith, get-delete p.parked w x);
          holder_map = ground (arith, v.holder_map, put-IsMap p.holders w k);
          aside_map = ground (arith, v.aside_map, delete-IsMap p.sidelined w);
          sized = ground (arith, v.sized k c, lk.2);
          once = ground (arith, lk.0);
          sorted = ground (arith, lk.1);
          members = λ x.
              ground (arith, v.members k x, leave_line-stands c w x once, get-delete p.pending w w);
          tokens = ground (arith, v.tokens k, lk.3, count-put class_of p.holders w k k);
          asides = ground (
            arith,
            v.asides k,
            lk.4,
            v.aside_pends w,
            count-delete class_of p.sidelined w k v.aside_map,
          );
          other_tokens = λ j n. ground (arith, count-put class_of p.holders w k j);
          other_asides = λ j n. ground (arith, count-delete class_of p.sidelined w j v.aside_map);
          owned = λ j. ground (arith, get-put p.holders w k w);
          pended = λ j. ground (arith, v.pended w j, get-delete p.pending w w);
          aside_pends = ground (arith, v.aside_pends w, get-delete p.sidelined w w);
          parks = ground (arith, v.parks w, get-delete p.parked w w);
          apart = ground (arith, get-delete p.pending w w);
        }
