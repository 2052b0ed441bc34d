-- ===== src/Watchset/Closing.antt =====
-- The `Set` of internal/watchset/watchset.go closes a channel once, at the next `Notify` of its key.
use durable.Base.{
  ℕ, ◌<◌, ◌≡◌, ◌⊎◌, refl, Bool, true, false, not, ◌&&◌, ◌||◌, some, List, [], ◌∷◌, ◌++◌, Comparable,
  ◌≟◌, ite, if◌then◌else◌, length, leb, contains, contains-append, append-IsDistinct, IsDistinct,
  arith, inl, inr, ℕ_comparable,
}
use durable.Base.Map.{Map, get, put, delete, get-put, get-delete}
use durable.Watchset.{Set, watchers_of, watch, remove_first, cancel, close_all, notify}

contains-remove_first :
    (chs : List ℕ) (ch c : ℕ)
    → IsDistinct chs
    → contains (remove_first chs ch) c ≡ ite (ch ≟ c) false (contains chs c)
unfolding remove_first contains
contains-remove_first [] ch c d = ground arith
contains-remove_first (x ∷ chs) ch c d = ground (arith, contains-remove_first chs ch c d.1, d.0)

remove_first-IsDistinct :
    (chs : List ℕ) (ch : ℕ) → IsDistinct chs → IsDistinct (remove_first chs ch)
unfolding remove_first
remove_first-IsDistinct [] ch d = tt
remove_first-IsDistinct (x ∷ chs) ch d =
    ground (arith, remove_first-IsDistinct chs ch d.1, contains-remove_first chs ch x d.1)

nil-or-not : (chs : List ℕ) → (chs ≡ []) ⊎ (leb (length chs) 0 ≡ false)
nil-or-not [] = inl refl
nil-or-not (c ∷ chs) = inr (ground arith)

-- Channels that are open and distinct can all be closed.
close_all-closes :
    (closed chs : List ℕ)
    → IsDistinct chs
    → ((c : ℕ) → contains chs c ≡ true → contains closed c ≡ false)
    → (r : List ℕ) × (close_all closed chs ≡ some r)
      × ((c : ℕ) → contains r c ≡ (contains chs c || contains closed c))
unfolding close_all contains
close_all-closes closed [] d h = (closed, refl, λ c. refl)
close_all-closes closed (x ∷ chs) d h =
    let (r, e, f) = close_all-closes (x ∷ closed) chs d.1 (λ c g. ground (arith, h c, d.0)) in
    (r, ground (arith, h x), λ c. ground (arith, f c))

module _ {K : Type 0} ⦃kc : Comparable K⦄ where
  abbrev pub waits : Set K → K → ℕ → Bool
  waits s k c = contains (watchers_of s.watchers k) c

  -- A channel that is watched is open and stands once, under one key; all are numbered below the next.
  pub record IsValid (s : Set K) : Type 0 where
    pub once : (k : K) → IsDistinct (watchers_of s.watchers k)
    pub is_open : (k : K) (c : ℕ) → waits s k c ≡ true → contains s.closed c ≡ false
    pub below : (k : K) (c : ℕ) → waits s k c ≡ true → c < s.next
    pub closed_below : (c : ℕ) → contains s.closed c ≡ true → c < s.next
    pub apart : (j k : K) (c : ℕ) → waits s j c ≡ true → waits s k c ≡ true → j ≡ k

  watchers_of-put :
      (m : Map K (List ℕ)) (k j : K) (chs : List ℕ)
      → watchers_of (put m k chs) j ≡ ite (k ≟ j) chs (watchers_of m j)
  unfolding watchers_of
  watchers_of-put m k j chs = ground (arith, get-put m k chs j)

  watchers_of-delete :
      (m : Map K (List ℕ)) (k j : K) → watchers_of (delete m k) j ≡ ite (k ≟ j) [] (watchers_of m j)
  unfolding watchers_of
  watchers_of-delete m k j = ground (arith, get-delete m k j)

  pub watch-waits :
      (s : Set K) (k j : K) (c : ℕ)
      → waits (watch s k).0 j c
        ≡ (if waits s j c then true else ite (k ≟ j) (ite (s.next ≟ c) true false) false)
  unfolding watch
  watch-waits s k j c = ground (
    arith,
    watchers_of-put s.watchers k j (watchers_of s.watchers k ++ s.next ∷ []),
    contains-append (watchers_of s.watchers k) s.next c,
  )

  pub watch-IsValid : (s : Set K) (k : K) → IsValid s → IsValid (watch s k).0
  unfolding watch contains
  watch-IsValid s k v = record {
    once = λ j. ground (
      arith,
      v.once j,
      v.below k s.next,
      watchers_of-put s.watchers k j (watchers_of s.watchers k ++ s.next ∷ []),
      append-IsDistinct (watchers_of s.watchers k) s.next (v.once k),
    );
    is_open = λ j c h. ground (arith, watch-waits s k j c, v.is_open j c, v.closed_below c);
    below = λ j c h. ground (arith, watch-waits s k j c, v.below j c);
    closed_below = λ c h. ground (arith, v.closed_below c);
    apart = λ i j c g h.
        ground (
          arith,
          watch-waits s k i c,
          watch-waits s k j c,
          v.apart i j c,
          v.below i c,
          v.below j c,
        );
  }

  cancel-watchers :
      (s : Set K) (k : K) (ch : ℕ) (j : K)
      → watchers_of (cancel s k ch).watchers j
        ≡ ite (k ≟ j) (remove_first (watchers_of s.watchers k) ch) (watchers_of s.watchers j)
  unfolding cancel
  cancel-watchers s k ch j = elim (nil-or-not (remove_first (watchers_of s.watchers k) ch)) [
    | inl e ↦ ground (arith, watchers_of-delete s.watchers k j)
    | inr e ↦
        ground (arith, watchers_of-put s.watchers k j (remove_first (watchers_of s.watchers k) ch))
  ]

  pub cancel-waits :
      (s : Set K) (k : K) (ch : ℕ) (j : K) (c : ℕ)
      → IsValid s
      → waits (cancel s k ch) j c
        ≡ (waits s j c && not (ite (k ≟ j) (ite (ch ≟ c) true false) false))
  cancel-waits s k ch j c v = ground (
    arith,
    cancel-watchers s k ch j,
    contains-remove_first (watchers_of s.watchers k) ch c (v.once k),
  )

  pub cancel-IsValid : (s : Set K) (k : K) (ch : ℕ) → IsValid s → IsValid (cancel s k ch)
  unfolding cancel
  cancel-IsValid s k ch v = record {
    once = λ j. ground (
      arith,
      v.once j,
      cancel-watchers s k ch j,
      remove_first-IsDistinct (watchers_of s.watchers k) ch (v.once k),
    );
    is_open = λ j c h. ground (arith, cancel-waits s k ch j c v, v.is_open j c);
    below = λ j c h. ground (arith, cancel-waits s k ch j c v, v.below j c);
    closed_below = λ c h. ground (arith, v.closed_below c);
    apart = λ i j c g h.
        ground (arith, cancel-waits s k ch i c v, cancel-waits s k ch j c v, v.apart i j c);
  }

  -- What `Notify` of the key comes to.
  pub record Notified (s : Set K) (k : K) (t : Set K) : Type 0 where
    pub valid : IsValid t
    pub closes : (c : ℕ) → contains t.closed c ≡ (waits s k c || contains s.closed c)
    pub stays : (j : K) (c : ℕ) → waits t j c ≡ ite (k ≟ j) false (waits s j c)

  pub notify-Notified :
      (s : Set K) (k : K) → IsValid s → (t : Set K) × (notify s k ≡ some t) × Notified s k t
  unfolding notify contains
  notify-Notified s k v =
      let (r, e, f) =
        close_all-closes s.closed (watchers_of s.watchers k) (v.once k) (v.is_open k) in
      let t : Set K = record s { watchers = delete s.watchers k; closed = r } in
      (
        t,
        ground (arith, e),
        record {
          valid = record {
            once = λ j. ground (arith, v.once j, watchers_of-delete s.watchers k j);
            is_open = λ j c h.
                ground
                  (arith, watchers_of-delete s.watchers k j, f c, v.is_open j c, v.apart j k c);
            below = λ j c h. ground (arith, watchers_of-delete s.watchers k j, v.below j c);
            closed_below = λ c h. ground (arith, f c, v.below k c, v.closed_below c);
            apart = λ i j c g h. ground (
              arith,
              watchers_of-delete s.watchers k i,
              watchers_of-delete s.watchers k j,
              v.apart i j c,
            );
          };
          closes = λ c. f c;
          stays = λ j c. ground (arith, watchers_of-delete s.watchers k j);
        },
      )

  pub new-IsValid : let s : Set K = record { watchers = []; closed = []; next = 0 } in IsValid s
  unfolding watchers_of get contains
  new-IsValid = record {
    once = λ k. tt;
    is_open = λ k c h. refl;
    below = λ k c h. absurd (ground arith);
    closed_below = λ c h. absurd (ground arith);
    apart = λ j k c g h. absurd (ground arith);
  }
