-- ===== src/Joinset/Index.antt =====
-- The reverse index of internal/joinset/joinset.go, and what registration and removal make of it.
use durable.Base.{
  ◌≡◌, ite, Bool, true, false, not, refl, Bool-cases, inl, inr, ◌&&◌, ◌||◌, List, [], ◌∷◌,
  Comparable, ◌≟◌, is_some, contains, IsDistinct, arith,
}
use durable.Base.Map.{Map, get, put, delete, get-put, get-delete}
use durable.Joinset.{set_members, members_of, enlist, unlist}

module _ {W : Type 0} where
  abbrev pub is_filled : Map W (Unit {0}) → Bool
  is_filled [] = false
  is_filled (x ∷ m) = true

module _ {W : Type 0} ⦃wc : Comparable W⦄ where
  put-is_filled : (m : Map W (Unit {0})) (w : W) → is_filled (put m w tt) ≡ true
  unfolding put
  put-is_filled [] w = refl
  put-is_filled ((x, u) ∷ m) w = ground arith

  is_filled-same :
      (a b : Map W (Unit {0}))
      → ((x : W) → is_some (get a x) ≡ is_some (get b x))
      → is_filled a ≡ is_filled b
  unfolding get
  is_filled-same [] [] h = refl
  is_filled-same [] ((x, u) ∷ b) h = absurd (ground (arith, h x))
  is_filled-same ((x, u) ∷ a) [] h = absurd (ground (arith, h x))
  is_filled-same ((x, u) ∷ a) ((y, v) ∷ b) h = refl

module _ {K W : Type 0} ⦃kc : Comparable K⦄ ⦃wc : Comparable W⦄ where
  -- Whether the index lists the waiter under the key.
  abbrev pub lists : Map K (Map W (Unit {0})) → K → W → Bool
  lists by_key k w = is_some (get (members_of by_key k) w)

  pub enlist-lists :
      (by_key : Map K (Map W (Unit {0}))) (w : W) (ks : List K) (k : K) (x : W)
      → lists (enlist by_key w ks).0 k x
        ≡ ite (w ≟ x) (contains ks k || lists by_key k x) (lists by_key k x)
  unfolding enlist members_of contains get
  enlist-lists by_key w [] k x = ground arith
  enlist-lists by_key w (j ∷ ks) k x =
      let by_key' = put by_key j (put (members_of by_key j) w tt) in
      ground (
        arith,
        enlist-lists by_key w ks k x,
        enlist-lists by_key' w ks k x,
        get-put by_key j (put (members_of by_key j) w tt) k,
        get-put (members_of by_key j) w tt x,
      )

  pub enlist-contains :
      (by_key : Map K (Map W (Unit {0}))) (w : W) (ks : List K) (k : K)
      → contains (enlist by_key w ks).1 k ≡ (contains ks k && not (lists by_key k w))
  unfolding enlist members_of contains get
  enlist-contains by_key w [] k = ground arith
  enlist-contains by_key w (j ∷ ks) k =
      let by_key' = put by_key j (put (members_of by_key j) w tt) in
      ground (
        arith,
        enlist-contains by_key w ks k,
        enlist-contains by_key' w ks k,
        get-put by_key j (put (members_of by_key j) w tt) k,
        get-put (members_of by_key j) w tt w,
      )

  pub enlist-IsDistinct :
      (by_key : Map K (Map W (Unit {0}))) (w : W) (ks : List K) → IsDistinct (enlist by_key w ks).1
  unfolding enlist members_of get
  enlist-IsDistinct by_key w [] = tt
  enlist-IsDistinct by_key w (j ∷ ks) =
      let by_key' = put by_key j (put (members_of by_key j) w tt) in
      ground (
        arith,
        enlist-IsDistinct by_key w ks,
        enlist-IsDistinct by_key' w ks,
        enlist-contains by_key' w ks j,
        get-put by_key j (put (members_of by_key j) w tt) j,
        get-put (members_of by_key j) w tt w,
      )

  pub set_members-get :
      (by_key : Map K (Map W (Unit {0}))) (j : K) (m : Map W (Unit {0})) (k : K)
      → members_of (set_members by_key j m) k ≡ ite (j ≟ k) m (members_of by_key k)
  unfolding set_members members_of
  set_members-get by_key j [] k = ground (arith, get-delete by_key j k)
  set_members-get by_key j (x ∷ m) k = ground (arith, get-put by_key j (x ∷ m) k)

  pub unlist-lists :
      (by_key : Map K (Map W (Unit {0}))) (w : W) (ks : List K) (k : K) (x : W)
      → lists (unlist by_key w ks) k x
        ≡ (lists by_key k x && not (ite (w ≟ x) (contains ks k) false))
  unfolding unlist contains
  unlist-lists by_key w [] k x = ground arith
  unlist-lists by_key w (j ∷ ks) k x =
      let m = delete (members_of by_key j) w in
      ground (
        arith,
        unlist-lists (set_members by_key j m) w ks k x,
        set_members-get by_key j m k,
        get-delete (members_of by_key j) w x,
      )

  -- Whether the index lists a waiter under the key.
  abbrev pub has_members : Map K (Map W (Unit {0})) → K → Bool
  has_members by_key k = is_filled (members_of by_key k)

  -- The keys of the index are those with waiters: no empty entry is kept.
  abbrev pub IsFilled : Map K (Map W (Unit {0})) → Type 0
  IsFilled by_key = (k : K) → is_some (get by_key k) ≡ has_members by_key k

  put-IsFilled :
      (by_key : Map K (Map W (Unit {0}))) (j : K) (w : W)
      → IsFilled by_key
      → IsFilled (put by_key j (put (members_of by_key j) w tt))
  unfolding members_of
  put-IsFilled by_key j w f k = ground (
    arith,
    get-put by_key j (put (members_of by_key j) w tt) k,
    put-is_filled (members_of by_key j) w,
    f k,
  )

  pub enlist-IsFilled :
      (by_key : Map K (Map W (Unit {0}))) (w : W) (ks : List K)
      → IsFilled by_key
      → IsFilled (enlist by_key w ks).0
  unfolding enlist
  enlist-IsFilled by_key w [] f = f
  enlist-IsFilled by_key w (j ∷ ks) f = elim (Bool-cases (lists by_key j w)) [
    | inl old ↦ rw (old, enlist) (enlist-IsFilled by_key w ks f)
    | inr new ↦
        rw (new, enlist)
          (enlist-IsFilled (put by_key j (put (members_of by_key j) w tt)) w ks
            (put-IsFilled by_key j w f))
  ]

  set_members-IsFilled :
      (by_key : Map K (Map W (Unit {0}))) (j : K) (m : Map W (Unit {0}))
      → IsFilled by_key
      → IsFilled (set_members by_key j m)
  unfolding set_members members_of
  set_members-IsFilled by_key j [] f k = ground (arith, get-delete by_key j k, f k)
  set_members-IsFilled by_key j (x ∷ m) f k = ground (arith, get-put by_key j (x ∷ m) k, f k)

  pub unlist-IsFilled :
      (by_key : Map K (Map W (Unit {0}))) (w : W) (ks : List K)
      → IsFilled by_key
      → IsFilled (unlist by_key w ks)
  unfolding unlist
  unlist-IsFilled by_key w [] f = f
  unlist-IsFilled by_key w (j ∷ ks) f =
      let m = delete (members_of by_key j) w in
      unlist-IsFilled (set_members by_key j m) w ks (set_members-IsFilled by_key j m f)

  pub lists-has_members :
      (a b : Map K (Map W (Unit {0}))) (k : K)
      → ((x : W) → lists a k x ≡ lists b k x)
      → has_members a k ≡ has_members b k
  lists-has_members a b k h = is_filled-same (members_of a k) (members_of b k) h
