-- ===== src/Base/Map.antt =====
-- Go's built-in map as an association list. The order of the entries stands for the order in
-- which `range` visits them, which Go leaves open. A nil map is the empty one.
use Prim.Native.Nat.{◌+◌}
use mathlib.Core.Path.{◌≡◌, refl}
use mathlib.Core.Logic.{ite}
use mathlib.Core.List.{List, [], ◌∷◌}
use mathlib.Core.Option.{Option, none, some}
use native.Mathlib.Omega.{arith}
use durable.Base.Keys.{Comparable, ◌≟◌}
use durable.Base.Lists.{length, contains, IsDistinct}
use durable.Base.Tests.{is_some, if◌then◌else◌}

abbrev pub Map {ℓ κ} : Type ℓ → Type κ → Type (ℓ ⊔ κ)
Map K V = List (K × V)

module _ {ℓ κ} {K : Type ℓ} {V : Type κ} where
  abbrev pub keys : Map K V → List K
  keys [] = []
  keys ((j, v) ∷ m) = j ∷ keys m

module _ {K V : Type 0} ⦃c : Comparable K⦄ where
  -- `v, ok := m[k]`
  unfoldable pub get : Map K V → K → Option V
  get [] k = none
  get ((j, v) ∷ m) k = ite (j ≟ k) (some v) (get m k)

  -- `m[k] = v`
  unfoldable pub put : Map K V → K → V → Map K V
  put [] k v = (k, v) ∷ []
  put ((j, w) ∷ m) k v = ite (j ≟ k) ((k, v) ∷ m) ((j, w) ∷ put m k v)

  -- `delete(m, k)`
  unfoldable pub delete : Map K V → K → Map K V
  delete [] k = []
  delete ((j, w) ∷ m) k = ite (j ≟ k) (delete m k) ((j, w) ∷ delete m k)

  -- A map holds a key once.
  abbrev pub IsMap : Map K V → Type 0
  IsMap m = IsDistinct (keys m)

  pub get-put :
      (m : Map K V) (k : K) (v : V) (j : K) → get (put m k v) j ≡ ite (k ≟ j) (some v) (get m j)
  unfolding get put
  get-put [] k v j = ground arith
  get-put ((i, w) ∷ m) k v j = ground (arith, get-put m k v j)

  pub get-delete : (m : Map K V) (k j : K) → get (delete m k) j ≡ ite (k ≟ j) none (get m j)
  unfolding get delete
  get-delete [] k j = ground arith
  get-delete ((i, w) ∷ m) k j = ground (arith, get-delete m k j)

  pub contains-keys : (m : Map K V) (k : K) → contains (keys m) k ≡ is_some (get m k)
  unfolding get contains
  contains-keys [] k = refl
  contains-keys ((j, v) ∷ m) k = ground (arith, contains-keys m k)

  pub put-IsMap : (m : Map K V) (k : K) (v : V) → IsMap m → IsMap (put m k v)
  unfolding put contains
  put-IsMap [] k v d = ground arith
  put-IsMap ((j, w) ∷ m) k v d =
      ground (
        arith,
        put-IsMap m k v d.1,
        contains-keys (put m k v) j,
        contains-keys m j,
        get-put m k v j,
      )

  pub delete-IsMap : (m : Map K V) (k : K) → IsMap m → IsMap (delete m k)
  unfolding delete
  delete-IsMap [] k d = tt
  delete-IsMap ((j, w) ∷ m) k d = ground (
    arith,
    delete-IsMap m k d.1,
    contains-keys (delete m k) j,
    contains-keys m j,
    get-delete m k j,
  )

  pub length-put :
      (m : Map K V) (k : K) (v : V)
      → length (put m k v) ≡ length m + (if is_some (get m k) then 0 else 1)
  unfolding get put
  length-put [] k v = refl
  length-put ((j, w) ∷ m) k v = ground (arith, length-put m k v)

  pub length-delete_absent : (m : Map K V) (k : K) → get m k ≡ none → length (delete m k) ≡ length m
  unfolding get delete
  length-delete_absent [] k h = refl
  length-delete_absent ((j, w) ∷ m) k h = ground (arith, length-delete_absent m k)
