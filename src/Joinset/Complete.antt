-- ===== src/Joinset/Complete.antt =====
-- `Complete` of internal/joinset/joinset.go: whom it strikes, and whom it kicks.
use durable.Base.{
  ◌+◌, ◌≡◌, refl, ◌∙◌, Bool, true, false, not, ◌&&◌, ◌||◌, Option, none, some, List, [], ◌∷◌,
  Comparable, leb, if◌then◌else◌, length, is_some, contains, IsDistinct, arith, Option-cases, inl,
  inr,
}
use durable.Base.Map.{Map, get, put, keys, get-put, length-put, IsMap, contains-keys, put-IsMap}
use durable.Joinset.{Waiter, Set, members_of, strike, complete_loop, complete}
use durable.Joinset.Invariant.{strike-IsFit, has, IsValid}

module _ {K : Type 0} ⦃kc : Comparable K⦄ where
  -- The waiter after a completion, and whether the completion satisfies it.
  abbrev pub after : Option (Waiter K) → K → Option (Waiter K)
  after o k = elim o [ none ↦ none | some wt ↦ some (strike wt k).0 ]

  abbrev pub is_hit : Option (Waiter K) → K → Bool
  is_hit o k = elim o [ none ↦ false | some wt ↦ (strike wt k).1 ]

  keys_of : Option (Waiter K) → List K
  keys_of o = elim o [ none ↦ [] | some wt ↦ wt.keys ]

  after-keys : (o : Option (Waiter K)) (k : K) → keys_of (after o k) ≡ keys_of o
  unfolding strike keys_of
  after-keys none k = refl
  after-keys (some wt) k = refl

  -- The completion takes a waiter that was not kicked before to its threshold, or beyond.
  abbrev pub is_due : Option (Waiter K) → K → Bool
  is_due o k = elim o [
    | none ↦ false
    | some wt ↦
        not wt.kicked && leb wt.need (length wt.done + (if is_some (get wt.done k) then 0 else 1))
  ]

  -- The waiter with the key done, and kicked if it was or is due.
  abbrev pub marked : Option (Waiter K) → K → Option (Waiter K)
  marked o k = elim o [
    | none ↦ none
    | some wt ↦
        some (record wt { done = put wt.done k tt; kicked = wt.kicked || is_due (some wt) k })
  ]

module _ {K W : Type 0} ⦃kc : Comparable K⦄ ⦃wc : Comparable W⦄ where
  -- The members `ws` are struck, and those that are hit are kicked, once.
  pub record Struck (waiters : Map W (Waiter K)) (k : K) (ws : List W)
      (r : Map W (Waiter K) × List W) : Type 0 where
    pub each :
        (x : W) → get r.0 x ≡ (if contains ws x then after (get waiters x) k else get waiters x)
    pub kicks : (x : W) → contains r.1 x ≡ (contains ws x && is_hit (get waiters x) k)
    pub once : IsDistinct r.1
    pub waiter_map : IsMap waiters → IsMap r.0

  complete_loop-Struck :
      (waiters : Map W (Waiter K)) (k : K) (ws : List W)
      → IsDistinct ws
      → ((x : W) → contains ws x ≡ true → is_some (get waiters x) ≡ true)
      → (r : Map W (Waiter K) × List W) × (complete_loop waiters k ws ≡ some r)
        × Struck waiters k ws r
  unfolding complete_loop contains
  complete_loop-Struck waiters k [] d h = (
    (waiters, []),
    refl,
    record { each = λ x. refl; kicks = λ x. refl; once = tt; waiter_map = λ m. m },
  )
  complete_loop-Struck waiters k (w ∷ ws) d h = elim (Option-cases (get waiters w)) [
    | inl n ↦ absurd (ground (arith, h w))
    | inr (wt, n) ↦
        let t = strike wt k in
        let next = put waiters w t.0 in
        let (r, e, st) =
          complete_loop-Struck next k ws d.1
            (λ x c. ground (arith, h x, get-put waiters w t.0 x)) in
        (
          (r.0, if t.1 then w ∷ r.1 else r.1),
          ground arith,
          record {
            each = λ x. ground (arith, st.each x, get-put waiters w t.0 x, d.0);
            kicks = λ x. ground (arith, st.kicks x, get-put waiters w t.0 x, d.0);
            once = ground (arith, st.once, st.kicks w, d.0);
            waiter_map = λ m. st.waiter_map (put-IsMap waiters w t.0 m);
          },
        )
  ]

  -- What `Complete` comes to.
  pub record Completes (s : Set K W) (k : K) (r : Set K W × List W) : Type 0 where
    pub valid : IsValid r.0
    pub each :
        (x : W)
        → get r.0.waiters x ≡ (if has s k x then marked (get s.waiters x) k else get s.waiters x)
    pub kicks : (x : W) → contains r.1 x ≡ (has s k x && is_due (get s.waiters x) k)
    pub once : IsDistinct r.1

  hit-due :
      (s : Set K W) (k : K) (x : W)
      → IsValid s
      → (has s k x && is_hit (get s.waiters x) k) ≡ (has s k x && is_due (get s.waiters x) k)
  unfolding strike contains
  hit-due s k x v = elim (Option-cases (get s.waiters x)) [
    | inl n ↦ ground arith
    | inr (wt, n) ↦ ground (arith, (v.fit x wt n).needs, length-put wt.done k tt)
  ]

  after-marked :
      (s : Set K W) (k : K) (x : W)
      → IsValid s
      → (if has s k x then after (get s.waiters x) k else get s.waiters x)
        ≡ (if has s k x then marked (get s.waiters x) k else get s.waiters x)
  unfolding strike contains
  after-marked s k x v = elim (Option-cases (get s.waiters x)) [
    | inl n ↦ ground arith
    | inr (wt, n) ↦ ground (arith, (v.fit x wt n).needs, length-put wt.done k tt)
  ]

  pub complete-Completes :
      (s : Set K W) (k : K)
      → IsValid s
      → (r : Set K W × List W) × (complete s k ≡ some r) × Completes s k r
  unfolding complete keys_of contains
  complete-Completes s k v =
      let m = members_of s.by_key k in
      let listed : (x : W) → contains (keys m) x ≡ has s k x =
        λ x. contains-keys m x ∙ v.index k x in
      let (r, e, st) =
        complete_loop-Struck s.waiters k (keys m) (v.member_map k)
          (λ x c. ground (arith, listed x)) in
      (
        (record s { waiters = r.0 }, r.1),
        ground (arith, e),
        record {
          valid = record {
            fit = λ x wt h. elim (Option-cases (get s.waiters x)) [
              | inl n ↦ absurd (ground (arith, st.each x))
              | inr (wt', n) ↦
                  ground
                    (arith, st.each x, listed x, v.fit x wt' n, strike-IsFit wt' k (v.fit x wt' n))
            ];
            index = λ j x.
                ground (arith, st.each x, listed x, v.index j x, after-keys (get s.waiters x) k);
            waiter_map = st.waiter_map v.waiter_map;
            member_map = v.member_map;
            filled = v.filled;
          };
          each = λ x. ground (arith, st.each x, listed x) ∙ after-marked s k x v;
          kicks = λ x. ground (arith, st.kicks x, listed x, hit-due s k x v);
          once = st.once;
        },
      )
