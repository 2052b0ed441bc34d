-- ===== src/Base/Lookups.antt =====
-- What a lookup finds in a map after a change of one entry.
use mathlib.Core.Path.{◌≡◌, sym, ◌∙◌, subst}
use mathlib.Core.Logic.{◌≢◌, ◌⊎◌, inl, inr}
use mathlib.Core.Bool.{false}
use mathlib.Core.List.{[], ◌∷◌}
use durable.Base.Lists.{contains}
use mathlib.Core.Option.{none, some}
use native.Mathlib.Omega.{arith}
use durable.Base.Keys.{Comparable, ◌≟◌}
use durable.Base.Map.{Map, keys, IsMap, contains-keys, get, put, delete, get-put, get-delete}

module _ {K V : Type 0} ⦃c : Comparable K⦄ where
  pub put-here : (m : Map K V) (k : K) (v : V) → get (put m k v) k ≡ some v
  put-here m k v = ground (arith, get-put m k v k)

  pub put-else : (m : Map K V) (k : K) (v : V) (j : K) → k ≢ j → get (put m k v) j ≡ get m j
  put-else m k v j n = ground (arith, get-put m k v j, n)

  pub put-absent :
      (m : Map K V) (k : K) (v : V) (j : K) (w : V)
      → get m k ≡ none
      → get m j ≡ some w
      → get (put m k v) j ≡ some w
  put-absent m k v j w h e = ground (arith, get-put m k v j)

  pub put-found :
      (m : Map K V) (k : K) (v : V) (j : K) (w : V)
      → get (put m k v) j ≡ some w
      → ((k ≡ j) × (v ≡ w)) ⊎ ((k ≢ j) × (get m j ≡ some w))
  put-found m k v j w e = elim (k ≟ j) [
    | yes p ↦ inl (p, ground (arith, get-put m k v j))
    | no n ↦ inr (n, ground (arith, get-put m k v j))
  ]

  pub delete-else : (m : Map K V) (k j : K) → k ≢ j → get (delete m k) j ≡ get m j
  delete-else m k j n = ground (arith, get-delete m k j, n)

  pub delete-found :
      (m : Map K V) (k j : K) (w : V) → get (delete m k) j ≡ some w → (k ≢ j) × (get m j ≡ some w)
  delete-found m k j w e = elim (k ≟ j) [
    | yes p ↦ ground (arith, get-delete m k j)
    | no n ↦ (n, ground (arith, get-delete m k j))
  ]

  pub get-nil : (k : K) (v : V) → get {V = V} [] k ≢ some v
  unfolding get
  get-nil k v g = ground (arith, g)

  pub get-first : (m : Map K V) (k : K) (v : V) → get ((k, v) ∷ m) k ≡ some v
  unfolding get
  get-first m k v = ground arith

  pub get-behind : (m : Map K V) (k : K) (v : V) (j : K) → k ≢ j → get ((k, v) ∷ m) j ≡ get m j
  unfolding get
  get-behind m k v j n = ground (arith, n)

  -- An entry behind the first of a map has another key.
  pub behind :
      (m : Map K V) (k j : K) (v : V) → contains (keys m) k ≡ false → get m j ≡ some v → k ≢ j
  behind m k j v h g p = ground (arith, contains-keys m k, subst (λ i. get m i ≡ some v) (sym p) g)

  -- The entries of the one map are those of the other.
  abbrev pub Agrees : Map K V → Map K V → Type 0
  Agrees es m = (k : K) (v : V) → get es k ≡ some v → get m k ≡ some v

  pub Agrees-tail :
      (es m : Map K V) (k : K) (v : V) → IsMap ((k, v) ∷ es) → Agrees ((k, v) ∷ es) m → Agrees es m
  Agrees-tail es m k v d a j w g = a j w (get-behind es k v j (behind es k j w d.0 g) ∙ g)
