-- ===== src/Base/Perms.antt =====
-- Lists and maps in another order: what does not depend on the order.
use mathlib.Core.Path.{◌≡◌, refl, ap, ◌∙◌}
use mathlib.Core.List.{List, Permᴰ}
use native.Mathlib.Omega.{arith}
use durable.Base.Keys.{Comparable}
use durable.Base.Lists.{contains, IsDistinct}
use durable.Base.Map.{Map, get, keys, IsMap}

module _ {K V : Type 0} where
  pub keys-permᴰ : {m n : Map K V} → Permᴰ m n → Permᴰ (keys m) (keys n)
  keys-permᴰ Permᴰ.nil = Permᴰ.nil
  keys-permᴰ (Permᴰ.cons e p) = Permᴰ.cons (ap (λ e. e.0) e) (keys-permᴰ p)
  keys-permᴰ (Permᴰ.swap e d) = Permᴰ.swap (ap (λ e. e.0) e) (ap (λ e. e.0) d)
  keys-permᴰ (Permᴰ.trans p q) = Permᴰ.trans (keys-permᴰ p) (keys-permᴰ q)

module _ {K : Type 0} ⦃c : Comparable K⦄ where
  pub contains-permᴰ : {l k : List K} → Permᴰ l k → (a : K) → contains l a ≡ contains k a
  unfolding contains
  contains-permᴰ Permᴰ.nil a = refl
  contains-permᴰ (Permᴰ.cons e p) a = ground (arith, contains-permᴰ p a)
  contains-permᴰ (Permᴰ.swap e d) a = ground arith
  contains-permᴰ (Permᴰ.trans p q) a = contains-permᴰ p a ∙ contains-permᴰ q a

  pub IsDistinct-permᴰ : {l k : List K} → Permᴰ l k → IsDistinct l → IsDistinct k
  unfolding contains
  IsDistinct-permᴰ Permᴰ.nil d = d
  IsDistinct-permᴰ (Permᴰ.cons {a = a} {b = b} {l₁ = l} {l₂ = k} e p) d =
      (ground (arith, contains-permᴰ p b), IsDistinct-permᴰ p d.1)
  IsDistinct-permᴰ (Permᴰ.swap e d) h = ground arith
  IsDistinct-permᴰ (Permᴰ.trans p q) d = IsDistinct-permᴰ q (IsDistinct-permᴰ p d)

module _ {K V : Type 0} ⦃c : Comparable K⦄ where
  pub get-permᴰ : {m n : Map K V} → Permᴰ m n → IsMap m → (k : K) → get m k ≡ get n k
  unfolding get contains
  get-permᴰ Permᴰ.nil d k = refl
  get-permᴰ (Permᴰ.cons {a = (i, s)} {b = (j, t)} e p) d k = ground (arith, get-permᴰ p d.1 k)
  get-permᴰ (Permᴰ.swap {a = (i, s)} {b = (j, t)} {a' = (i', s')} {b' = (j', t')} e e') d k =
      ground arith
  get-permᴰ (Permᴰ.trans p q) d k =
      get-permᴰ p d k ∙ get-permᴰ q (IsDistinct-permᴰ (keys-permᴰ p) d) k
