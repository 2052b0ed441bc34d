-- ===== src/Runpool/Invariant.antt =====
-- The invariant of a pool of internal/runpool/runpool.go, and when a change of one member keeps it.
use durable.Base.{
  ℕ, suc, ◌+◌, ◌≡◌, ◌≢◌, refl, ite, Bool, true, false, not, ◌&&◌, none, some, List, [], ◌∷◌,
  Comparable, ◌≟◌, if◌then◌else◌, arith, is_some,
}
use durable.Base.Map.{Map, get, put, delete, keys, IsMap, contains-keys}
use durable.Base.Order.{Ordered}
use durable.Runpool.{Waiter, Class, Pool}
use durable.Runpool.Line.{stands, IsOnce, IsSorted}

module _ {K W : Type 0} ⦃kc : Comparable K⦄ ⦃wc : Comparable W⦄ (class_of : W → K) where
  -- How many of the members belong to the class.
  unfoldable pub count : K → List W → ℕ
  count k [] = 0
  count k (x ∷ xs) = ite (class_of x ≟ k) (suc (count k xs)) (count k xs)

  -- One, if the flag is set and the member belongs to the class.
  abbrev pub one : Bool → W → K → ℕ
  one b w k = if b then ite (class_of w ≟ k) 1 0 else 0

  pub count-put :
      {V : Type 0} (m : Map W V) (w : W) (v : V) (k : K)
      → count k (keys (put m w v)) ≡ count k (keys m) + one (not (is_some (get m w))) w k
  unfolding count put get
  count-put [] w v k = ground arith
  count-put ((x, u) ∷ m) w v k = ground (arith, count-put m w v k)

  count-delete_absent :
      {V : Type 0} (m : Map W V) (w : W) (k : K)
      → is_some (get m w) ≡ false
      → count k (keys (delete m w)) ≡ count k (keys m)
  unfolding count delete get
  count-delete_absent [] w k h = refl
  count-delete_absent ((x, u) ∷ m) w k h = ground (arith, count-delete_absent m w k)

  pub count-delete :
      {V : Type 0} (m : Map W V) (w : W) (k : K)
      → IsMap m
      → count k (keys (delete m w)) + one (is_some (get m w)) w k ≡ count k (keys m)
  unfolding count delete get
  count-delete [] w k d = ground arith
  count-delete ((x, u) ∷ m) w k d =
      ground (arith, count-delete m w k d.1, count-delete_absent m w k, contains-keys m x)

module _ {K W O : Type 0} ⦃kc : Comparable K⦄ ⦃wc : Comparable W⦄ ⦃oc : Ordered O⦄ where
  abbrev pub line_of : Pool K W O → K → List (Waiter W O)
  line_of p k = elim (get p.classes k) [ none ↦ [] | some c ↦ c.line ]

  abbrev pub in_use_of : Pool K W O → K → ℕ
  in_use_of p k = elim (get p.classes k) [ none ↦ 0 | some c ↦ c.in_use ]

  abbrev pub aside_of : Pool K W O → K → ℕ
  aside_of p k = elim (get p.classes k) [ none ↦ 0 | some c ↦ c.sidelined ]

  -- Pending, and not set aside.
  abbrev pub lines_up : Pool K W O → W → Bool
  lines_up p w = is_some (get p.pending w) && not (is_some (get p.sidelined w))

  module _ (class_of : W → K) where
    abbrev pub in_line : Pool K W O → K → W → Bool
    in_line p k w = ite (class_of w ≟ k) (lines_up p w) false

    pub record IsValid (p : Pool K W O) : Type 0 where
      pub once : (k : K) → IsOnce (line_of p k)
      pub sorted : (k : K) → IsSorted (line_of p k)
      pub sized :
          (k : K) (c : Class W O) → get p.classes k ≡ some c → get p.capacity k ≡ some c.capacity
      pub members : (k : K) (w : W) → stands (line_of p k) w ≡ in_line p k w
      pub tokens : (k : K) → in_use_of p k ≡ count class_of k (keys p.holders)
      pub asides : (k : K) → aside_of p k ≡ count class_of k (keys p.sidelined)
      pub holder_map : IsMap p.holders
      pub aside_map : IsMap p.sidelined
      pub owned : (w : W) (k : K) → get p.holders w ≡ some k → class_of w ≡ k
      pub pended : (w : W) (k : K) → get p.pending w ≡ some k → class_of w ≡ k
      pub classed :
          (w : W) → is_some (get p.pending w) ≡ true → is_some (get p.classes (class_of w)) ≡ true
      pub held :
          (w : W) → is_some (get p.holders w) ≡ true → is_some (get p.classes (class_of w)) ≡ true
      pub aside_pends :
          (w : W) → is_some (get p.sidelined w) ≡ true → is_some (get p.pending w) ≡ true
      pub parks : (w : W) → is_some (get p.parked w) ≡ true → lines_up p w ≡ true
      pub apart : (w : W) → is_some (get p.holders w) ≡ true → get p.pending w ≡ none

    -- `q` is `p` but for the class of `w`, now `c`, and for what the maps hold of `w`.
    pub record Changes (p q : Pool K W O) (w : W) (c : Class W O) : Type 0 where
      pub capacity : q.capacity ≡ p.capacity
      pub classes : (k : K) → get q.classes k ≡ ite (class_of w ≟ k) (some c) (get p.classes k)
      pub holders : (x : W) → w ≢ x → get q.holders x ≡ get p.holders x
      pub pending : (x : W) → w ≢ x → get q.pending x ≡ get p.pending x
      pub sidelined : (x : W) → w ≢ x → get q.sidelined x ≡ get p.sidelined x
      pub parked : (x : W) → w ≢ x → get q.parked x ≡ get p.parked x
      pub holder_map : IsMap q.holders
      pub aside_map : IsMap q.sidelined
      pub sized : get p.capacity (class_of w) ≡ some c.capacity
      pub once : IsOnce c.line
      pub sorted : IsSorted c.line
      pub members :
          (x : W) → stands c.line x ≡ ite (w ≟ x) (lines_up q w) (stands (line_of p (class_of w)) x)
      pub tokens : c.in_use ≡ count class_of (class_of w) (keys q.holders)
      pub asides : c.sidelined ≡ count class_of (class_of w) (keys q.sidelined)
      pub other_tokens :
          (k : K)
          → class_of w ≢ k
          → count class_of k (keys q.holders) ≡ count class_of k (keys p.holders)
      pub other_asides :
          (k : K)
          → class_of w ≢ k
          → count class_of k (keys q.sidelined) ≡ count class_of k (keys p.sidelined)
      pub owned : (k : K) → get q.holders w ≡ some k → class_of w ≡ k
      pub pended : (k : K) → get q.pending w ≡ some k → class_of w ≡ k
      pub aside_pends : is_some (get q.sidelined w) ≡ true → is_some (get q.pending w) ≡ true
      pub parks : is_some (get q.parked w) ≡ true → lines_up q w ≡ true
      pub apart : is_some (get q.holders w) ≡ true → get q.pending w ≡ none

    pub Changes-IsValid :
        (p q : Pool K W O) (w : W) (c : Class W O) → IsValid p → Changes p q w c → IsValid q
    unfolding stands
    Changes-IsValid p q w c v h = record {
      once = λ k. ground (arith, h.classes k, v.once k, h.once);
      sorted = λ k. ground (arith, h.classes k, v.sorted k, h.sorted);
      sized = λ k d e. ground (arith, h.classes k, v.sized k d, h.sized, h.capacity);
      members = λ k x. elim (class_of w ≟ k) [
        | yes e ↦ elim (w ≟ x) [
          | yes e' ↦ ground (arith, h.classes k, h.members x)
          | no n ↦
              ground
                (arith, h.classes k, h.members x, v.members k x, h.pending x n, h.sidelined x n)
        ]
        | no m ↦ elim (w ≟ x) [
          | yes e' ↦ ground (arith, h.classes k, v.members k x)
          | no n ↦ ground (arith, h.classes k, v.members k x, h.pending x n, h.sidelined x n)
        ]
      ];
      tokens = λ k. ground (arith, h.classes k, v.tokens k, h.tokens, h.other_tokens k);
      asides = λ k. ground (arith, h.classes k, v.asides k, h.asides, h.other_asides k);
      holder_map = h.holder_map;
      aside_map = h.aside_map;
      owned = λ x k e. elim (w ≟ x) [
        | yes e' ↦ ground (arith, h.owned k)
        | no n ↦ ground (arith, h.holders x n, v.owned x k)
      ];
      pended = λ x k e. elim (w ≟ x) [
        | yes e' ↦ ground (arith, h.pended k)
        | no n ↦ ground (arith, h.pending x n, v.pended x k)
      ];
      classed = λ x e. ground (arith, h.pending x, v.classed x, h.classes (class_of x));
      held = λ x e. ground (arith, h.holders x, v.held x, h.classes (class_of x));
      aside_pends =
          λ x e. ground (arith, h.sidelined x, h.pending x, v.aside_pends x, h.aside_pends);
      parks = λ x e. ground (arith, h.parked x, h.sidelined x, h.pending x, v.parks x, h.parks);
      apart = λ x e. ground (arith, h.holders x, h.pending x, v.apart x, h.apart);
    }
