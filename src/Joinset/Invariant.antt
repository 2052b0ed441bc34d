-- ===== src/Joinset/Invariant.antt =====
-- The invariant of a set of internal/joinset/joinset.go, and that every operation keeps it.
use durable.Base.{
  ℕ, ◌≤◌, ◌≡◌, refl, sym, ◌∙◌, ite, Bool, true, false, none, some, List, [], ◌∷◌, Comparable, ◌≟◌,
  length, is_some, ℤ, pos, negsuc, contains, IsDistinct, arith, Option-cases, Bool-cases, inl, inr,
}
use durable.Base.Map.{
  Map, get, put, delete, get-put, length-put, get-delete, IsMap, put-IsMap, delete-IsMap,
}
use durable.Joinset.{Waiter, Set, clamp, set_members, members_of, enlist, unlist}
use durable.Joinset.{mark, register, remove, strike}
use durable.Joinset.Index.{
  set_members-get, lists, has_members, enlist-IsFilled, unlist-IsFilled, lists-has_members,
  enlist-lists, enlist-contains, enlist-IsDistinct, unlist-lists,
}

module _ {K : Type 0} ⦃kc : Comparable K⦄ where
  -- The set is consistent: the index lists the registered waiters under their keys, which are
  -- distinct, as are the waiters, and has no other entries; a waiter is done with keys of its own
  -- only, and one that was kicked has reached its threshold.
  pub record IsFit (wt : Waiter K) : Type 0 where
    pub distinct : IsDistinct wt.keys
    pub done_map : IsMap wt.done
    pub own : (k : K) → is_some (get wt.done k) ≡ true → contains wt.keys k ≡ true
    pub need : wt.need ≤ length wt.keys
    pub needs : wt.need ≡ 0 → wt.keys ≡ []
    pub reached : wt.kicked ≡ true → wt.need ≤ length wt.done

  clamp-fit :
      (need : ℤ) (ks : List K)
      → (clamp need (length ks) ≤ length ks) × (clamp need (length ks) ≡ 0 → ks ≡ [])
  unfolding clamp
  clamp-fit (pos n) [] = (omega arith, λ h. refl)
  clamp-fit (pos n) (k ∷ ks) = (omega arith, λ h. absurd (omega arith))
  clamp-fit (negsuc n) [] = (omega arith, λ h. refl)
  clamp-fit (negsuc n) (k ∷ ks) = (omega arith, λ h. absurd (omega arith))

  none-done : (k : K) → is_some (get {V = Unit {0}} [] k) ≡ false
  unfolding get
  none-done k = refl

  -- One more key of its own is done.
  pub done-IsFit :
      (wt : Waiter K) (k : K)
      → IsFit wt
      → contains wt.keys k ≡ true
      → IsFit (record wt { done = put wt.done k tt })
  done-IsFit wt k f h = record {
    distinct = f.distinct;
    done_map = put-IsMap wt.done k tt f.done_map;
    own = λ j e. ground (arith, get-put wt.done k tt j, f.own j);
    need = f.need;
    needs = f.needs;
    reached = λ e. ground (arith, f.reached, length-put wt.done k tt);
  }

  pub strike-IsFit :
      (wt : Waiter K) (k : K) → IsFit wt → contains wt.keys k ≡ true → IsFit (strike wt k).0
  unfolding strike
  strike-IsFit wt k f h =
      let d = done-IsFit wt k f h in
      record {
        distinct = d.distinct;
        done_map = d.done_map;
        own = d.own;
        need = d.need;
        needs = d.needs;
        reached = λ e. ground (arith, d.reached);
      }

module _ {K W : Type 0} ⦃kc : Comparable K⦄ ⦃wc : Comparable W⦄ where
  abbrev pub has : Set K W → K → W → Bool
  has s k w = elim (get s.waiters w) [ none ↦ false | some wt ↦ contains wt.keys k ]

  pub record IsValid (s : Set K W) : Type 0 where
    pub fit : (w : W) (wt : Waiter K) → get s.waiters w ≡ some wt → IsFit wt
    pub index : (k : K) (w : W) → lists s.by_key k w ≡ has s k w
    pub waiter_map : IsMap s.waiters
    pub member_map : (k : K) → IsMap (members_of s.by_key k)
    pub filled : (k : K) → is_some (get s.by_key k) ≡ has_members s.by_key k

  put-members :
      (by_key : Map K (Map W (Unit {0}))) (j : K) (m : Map W (Unit {0})) (k : K)
      → members_of (put by_key j m) k ≡ ite (j ≟ k) m (members_of by_key k)
  unfolding members_of
  put-members by_key j m k = ground (arith, get-put by_key j m k)

  put_member-IsMap :
      (by_key : Map K (Map W (Unit {0}))) (j : K) (m : Map W (Unit {0}))
      → ((i : K) → IsMap (members_of by_key i))
      → IsMap m
      → (i : K) → IsMap (members_of (put by_key j m) i)
  put_member-IsMap by_key j m h d i = ground (arith, put-members by_key j m i, h i)

  enlist-IsMap :
      (by_key : Map K (Map W (Unit {0}))) (w : W) (ks : List K) (k : K)
      → ((j : K) → IsMap (members_of by_key j))
      → IsMap (members_of (enlist by_key w ks).0 k)
  unfolding enlist
  enlist-IsMap by_key w [] k h = h k
  enlist-IsMap by_key w (j ∷ ks) k h =
      let m = put (members_of by_key j) w tt in
      let md : IsMap m = put-IsMap (members_of by_key j) w tt (h j) in
      elim (Bool-cases (lists by_key j w)) [
        | inl old ↦ rw (old, enlist) (enlist-IsMap by_key w ks k h)
        | inr new ↦
            rw (new, enlist)
              (enlist-IsMap (put by_key j m) w ks k (put_member-IsMap by_key j m h md))
      ]

  unlist-IsMap :
      (by_key : Map K (Map W (Unit {0}))) (w : W) (ks : List K) (k : K)
      → ((j : K) → IsMap (members_of by_key j))
      → IsMap (members_of (unlist by_key w ks) k)
  unfolding unlist
  unlist-IsMap by_key w [] k h = h k
  unlist-IsMap by_key w (j ∷ ks) k h =
      let m = delete (members_of by_key j) w in
      let md : IsMap m = delete-IsMap (members_of by_key j) w (h j) in
      unlist-IsMap (set_members by_key j m) w ks k
        (λ i. ground (arith, set_members-get by_key j m i, h i))

  pub register-IsValid :
      (s : Set K W) (w : W) (ks : List K) (need : ℤ) (now : ℕ)
      → IsValid s
      → IsValid (register s w ks need now).0
  unfolding register
  register-IsValid s w ks need now v = elim (Option-cases (get s.waiters w)) [
    | inr (wt, n) ↦ rw (n, register) v
    | inl n ↦
        let r = enlist s.by_key w ks in
        let wt : Waiter K = record {
          keys = r.1;
          need = clamp need (length r.1);
          done = [];
          since = now;
          kicked = false;
        } in
        let c = clamp-fit need r.1 in
        let wf : IsFit wt = record {
          distinct = enlist-IsDistinct s.by_key w ks;
          done_map = tt;
          own = λ k h. absurd (ground (arith, none-done k));
          need = c.0;
          needs = c.1;
          reached = λ h. absurd (ground arith);
        } in
        rw (n, register)
          (record {
            fit = λ x wt' e. ground (arith, get-put s.waiters w wt x, v.fit x wt');
            index = λ k x. ground (
              arith,
              get-put s.waiters w wt x,
              v.index k x,
              enlist-lists s.by_key w ks k x,
              enlist-contains s.by_key w ks k,
            );
            waiter_map = put-IsMap s.waiters w wt v.waiter_map;
            member_map = λ k. enlist-IsMap s.by_key w ks k v.member_map;
            filled = enlist-IsFilled s.by_key w ks v.filled;
          })
  ]

  pub mark-IsValid : (s : Set K W) (w : W) (k : K) → IsValid s → IsValid (mark s w k)
  unfolding mark
  mark-IsValid s w k v = elim (Option-cases (get s.waiters w)) [
    | inl n ↦ rw (n, mark) v
    | inr (wt, n) ↦ elim (Bool-cases (lists s.by_key k w)) [
      | inr h ↦ rw (n, mark, h) v
      | inl h ↦
          let wt' : Waiter K = record wt { done = put wt.done k tt } in
          let f' : IsFit wt' = done-IsFit wt k (v.fit w wt n) (ground (arith, v.index k w)) in
          rw (n, mark, h)
            (record {
              fit = λ x wt'' e. ground (arith, get-put s.waiters w wt' x, v.fit x wt'');
              index = λ j x. ground (arith, get-put s.waiters w wt' x, v.index j x);
              waiter_map = put-IsMap s.waiters w wt' v.waiter_map;
              member_map = v.member_map;
              filled = v.filled;
            })
    ]
  ]

  pub remove-IsValid : (s : Set K W) (w : W) → IsValid s → IsValid (remove s w).0
  unfolding remove
  remove-IsValid s w v = elim (Option-cases (get s.waiters w)) [
    | inl n ↦ rw (n, remove) v
    | inr (wt, n) ↦
        rw (n, remove)
          (record {
            fit = λ x wt' e. ground (arith, get-delete s.waiters w x, v.fit x wt');
            index = λ k x.
                ground (
                  arith,
                  get-delete s.waiters w x,
                  v.index k x,
                  unlist-lists s.by_key w wt.keys k x,
                );
            waiter_map = delete-IsMap s.waiters w v.waiter_map;
            member_map = λ k. unlist-IsMap s.by_key w wt.keys k v.member_map;
            filled = unlist-IsFilled s.by_key w wt.keys v.filled;
          })
  ]

  pub new-IsValid : let s : Set K W = record { waiters = []; by_key = [] } in IsValid s
  unfolding get members_of contains
  new-IsValid = record {
    fit = λ w wt h. absurd (ground arith);
    index = λ k w. ground arith;
    waiter_map = tt;
    member_map = λ k. ground arith;
    filled = λ k. ground arith;
  }

  -- The sets agree on the keys of the index, on the waiters under each, and on the waiters.
  pub record Agrees (s t : Set K W) : Type 0 where
    pub keys : (k : K) → is_some (get s.by_key k) ≡ is_some (get t.by_key k)
    pub index : (k : K) (x : W) → lists s.by_key k x ≡ lists t.by_key k x
    pub waiters : (x : W) → get s.waiters x ≡ get t.waiters x

  -- In a consistent set, Register of a waiter that is not registered, with any keys, repeated
  -- or not, and any threshold, is new, and Remove then returns its time stamp and leaves the
  -- keys that the index has an entry for, the waiters listed under each, and the registrations
  -- as they were before.
  pub register-remove :
      (s : Set K W) (w : W) (ks : List K) (need : ℤ) (now : ℕ)
      → IsValid s
      → get s.waiters w ≡ none
      → let (t, fresh) = register s w ks need now in
        (fresh ≡ true) × ((remove t w).1 ≡ some now) × Agrees (remove t w).0 s
  unfolding register remove
  register-remove s w ks need now v n =
      let own = (enlist s.by_key w ks).1 in
      let wt : Waiter K = record {
        keys = own;
        need = clamp need (length own);
        done = [];
        since = now;
        kicked = false;
      } in
      let t : Set K W = record {
        waiters = put s.waiters w wt;
        by_key = (enlist s.by_key w ks).0;
      } in
      let at : get t.waiters w ≡ some wt = ground (arith, get-put s.waiters w wt w) in
      let same : (k : K) (x : W) → lists (unlist t.by_key w own) k x ≡ lists s.by_key k x = λ k x.
        ground (
          arith,
          unlist-lists t.by_key w own k x,
          enlist-lists s.by_key w ks k x,
          enlist-contains s.by_key w ks k,
          v.index k w,
        ) in
      let full : (k : K) → is_some (get (unlist t.by_key w own) k) ≡ is_some (get s.by_key k) = λ k.
        unlist-IsFilled t.by_key w own (enlist-IsFilled s.by_key w ks v.filled) k
        ∙ lists-has_members (unlist t.by_key w own) s.by_key k (same k)
        ∙ sym (v.filled k) in
      rw (n, register)
        (
          refl,
          ground (arith, at),
          record {
            keys = λ k. ground (arith, at, full k);
            index = λ k x. ground (arith, at, same k x);
            waiters = λ x. ground (arith, at, get-delete t.waiters w x, get-put s.waiters w wt x);
          },
        )
