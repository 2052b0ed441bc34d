-- ===== src/Ledger/Order.antt =====
-- `sort.Strings` as insertion sort. Two sorts of the same texts are equal, whatever the method, since
-- the order is total and antisymmetric.
use durable.Base.Order.{text_le, text_le_total, text_le_antisymm, text_le_trans}
use durable.Base.{
  contains, IsDistinct, String_comparable, ◌≟◌, ite, ◌≡◌, refl, true, false, List, [], ◌∷◌, String,
  if◌then◌else◌, arith,
}
use mathlib.Core.List.{Permᴰ}
use mathlib.Core.Path.{ap₂, ◌∙◌}

unfoldable pub insert : String → List String → List String
insert s [] = s ∷ []
insert s (t ∷ ts) = if text_le s t then s ∷ t ∷ ts else t ∷ insert s ts

unfoldable pub sort : List String → List String
sort [] = []
sort (s ∷ ss) = insert s (sort ss)

insert_comm : (s t : String) (l : List String) → insert s (insert t l) ≡ insert t (insert s l)
unfolding insert
insert_comm s t [] = ground (arith, text_le_total s t, text_le_total t s, text_le_antisymm s t)
insert_comm s t (x ∷ l) = ground (
  arith,
  insert_comm s t l,
  text_le_total s t,
  text_le_total t s,
  text_le_antisymm s t,
  text_le_total x s,
  text_le_total x t,
  text_le_trans s t x,
  text_le_trans t s x,
  text_le_total t x,
  text_le_total s x,
  text_le_trans s x t,
  text_le_trans t x s,
)

pub sort-permᴰ : {ss ts : List String} → Permᴰ ss ts → sort ss ≡ sort ts
unfolding sort
sort-permᴰ Permᴰ.nil = refl
sort-permᴰ (Permᴰ.cons e p) = ap₂ insert e (sort-permᴰ p)
sort-permᴰ (Permᴰ.swap {a = a} {b = b} {l = l} e d) =
    insert_comm a b (sort l) ∙ ap₂ (λ x y. insert x (insert y (sort l))) d e
sort-permᴰ (Permᴰ.trans p q) = sort-permᴰ p ∙ sort-permᴰ q

-- Sorting moves the elements only.
contains-insert :
    (s : String) (l : List String) (a : String)
    → contains (insert s l) a ≡ ite (s ≟ a) true (contains l a)
unfolding insert contains
contains-insert s [] a = ground arith
contains-insert s (t ∷ l) a = ground (arith, contains-insert s l a)

pub contains-sort : (l : List String) (a : String) → contains (sort l) a ≡ contains l a
unfolding sort contains
contains-sort [] a = refl
contains-sort (s ∷ l) a = ground (arith, contains-sort l a, contains-insert s (sort l) a)

insert-IsDistinct :
    (s : String) (l : List String) → contains l s ≡ false → IsDistinct l → IsDistinct (insert s l)
unfolding insert contains
insert-IsDistinct s [] h d = ground arith
insert-IsDistinct s (t ∷ l) h d = ground (arith, insert-IsDistinct s l, contains-insert s l t)

pub sort-IsDistinct : (l : List String) → IsDistinct l → IsDistinct (sort l)
unfolding sort
sort-IsDistinct [] d = d
sort-IsDistinct (s ∷ l) d =
    insert-IsDistinct s (sort l) (contains-sort l s ∙ d.0) (sort-IsDistinct l d.1)
