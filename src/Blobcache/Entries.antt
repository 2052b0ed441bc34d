-- ===== src/Blobcache/Entries.antt =====
-- The list of entries of store/bbolt/blobcache.go.
use durable.Base.{
  ℕ, ◌+◌, ◌≡◌, ◌⊎◌, refl, sym, ◌∙◌, subst, some_inj, true, false, some, List, [], ◌∷◌,
  String_comparable, ◌≟◌, ite, ltb, is_some, contains, IsDistinct, All, arith, Bool-cases, inl, inr,
}
use durable.Kernel.{RunId}
use durable.Blobcache.{RunBlobs, find, unlink, touched, evict_back}

abbrev pub ids : List RunBlobs → List RunId
ids [] = []
ids (rb ∷ rbs) = rb.id ∷ ids rbs

-- The sizes of the entries together.
abbrev pub total : List RunBlobs → ℕ
total [] = 0
total (rb ∷ rbs) = rb.size + total rbs

pub find-id :
    (rbs : List RunBlobs) (id : RunId) (rb : RunBlobs) → find rbs id ≡ some rb → rb.id ≡ id
unfolding find
find-id [] id rb h = ground arith
find-id (x ∷ rbs) id rb h = ground (arith, find-id rbs id rb)

pub contains-ids :
    (rbs : List RunBlobs) (id : RunId) → contains (ids rbs) id ≡ is_some (find rbs id)
unfolding find contains
contains-ids [] id = refl
contains-ids (x ∷ rbs) id = ground (arith, contains-ids rbs id)

pub total-unlink :
    (rbs : List RunBlobs) (id : RunId) → total (unlink rbs id) + (touched rbs id).size ≡ total rbs
unfolding unlink touched find
total-unlink [] id = refl
total-unlink (x ∷ rbs) id = ground (arith, total-unlink rbs id)

pub contains-unlink :
    (rbs : List RunBlobs) (id j : RunId)
    → IsDistinct (ids rbs)
    → contains (ids (unlink rbs id)) j ≡ ite (id ≟ j) false (contains (ids rbs) j)
unfolding unlink contains
contains-unlink [] id j d = ground arith
contains-unlink (x ∷ rbs) id j d = ground (arith, contains-unlink rbs id j d.1, d.0)

pub unlink-IsDistinct :
    (rbs : List RunBlobs) (id : RunId) → IsDistinct (ids rbs) → IsDistinct (ids (unlink rbs id))
unfolding unlink
unlink-IsDistinct [] id d = tt
unlink-IsDistinct (x ∷ rbs) id d =
    ground (arith, unlink-IsDistinct rbs id d.1, contains-unlink rbs id x.id d.1, d.0)

unlink-cases :
    (x : RunBlobs) (rbs : List RunBlobs) (id : RunId)
    → (unlink (x ∷ rbs) id ≡ rbs) ⊎ (unlink (x ∷ rbs) id ≡ x ∷ unlink rbs id)
unfolding unlink
unlink-cases x rbs id = elim (x.id ≟ id) [
  | yes p ↦ inl (ground arith)
  | no n ↦ inr (ground (arith, n))
]

find-cases :
    (x : RunBlobs) (rbs : List RunBlobs) (id : RunId)
    → (find (x ∷ rbs) id ≡ some x) ⊎ (find (x ∷ rbs) id ≡ find rbs id)
unfolding find
find-cases x rbs id = elim (x.id ≟ id) [
  | yes p ↦ inl (ground arith)
  | no n ↦ inr (ground (arith, n))
]

pub unlink-All :
    (P : RunBlobs → Type 0) (rbs : List RunBlobs) (id : RunId) → All P rbs → All P (unlink rbs id)
unfolding unlink
unlink-All P [] id a = a
unlink-All P (x ∷ rbs) id a = elim (unlink-cases x rbs id) [
  | inl e ↦ subst (All P) (sym e) a.1
  | inr e ↦ subst (All P) (sym e) (a.0, unlink-All P rbs id a.1)
]

pub find-All :
    (P : RunBlobs → Type 0) (rbs : List RunBlobs) (id : RunId) (rb : RunBlobs)
    → All P rbs
    → find rbs id ≡ some rb
    → P rb
unfolding find
find-All P [] id rb a h = absurd (ground (arith, h))
find-All P (x ∷ rbs) id rb a h = elim (find-cases x rbs id) [
  | inl e ↦ subst P (some_inj (sym e ∙ h)) a.0
  | inr e ↦ find-All P rbs id rb a.1 (sym e ∙ h)
]

-- What evicting leaves: the front part of the entries, whose sizes and those before make the size.
pub record Evicts (limit before : ℕ) (rbs kept : List RunBlobs) (left : ℕ) : Type 0 where
  pub counted : left ≡ before + total kept
  pub bounded : ltb limit left ≡ true → kept ≡ []
  pub distinct : IsDistinct (ids kept)
  pub fewer : (j : RunId) → contains (ids rbs) j ≡ false → contains (ids kept) j ≡ false

pub evict_back-Evicts :
    (limit before : ℕ) (rbs : List RunBlobs) (size : ℕ)
    → size ≡ before + total rbs
    → IsDistinct (ids rbs)
    → Evicts limit before rbs (evict_back limit rbs size).0 (evict_back limit rbs size).1
unfolding evict_back contains
evict_back-Evicts limit before [] size e d = record {
  counted = e;
  bounded = λ l. refl;
  distinct = tt;
  fewer = λ j h. refl;
}
evict_back-Evicts limit before (x ∷ rbs) size e d =
    let i = evict_back-Evicts limit (before + x.size) rbs size (omega (arith, e)) d.1 in
    elim (Bool-cases (ltb limit (evict_back limit rbs size).1)) [
      | inl l ↦ rw l (record {
        counted = ground (arith, i.counted, i.bounded);
        bounded = λ h. refl;
        distinct = tt;
        fewer = λ j h. refl;
      })
      | inr l ↦ rw l (record {
        counted = omega (arith, i.counted);
        bounded = λ h. ground (arith, h, l);
        distinct = (i.fewer x.id d.0, i.distinct);
        fewer = λ j h. ground (arith, i.fewer j, h);
      })
    ]

pub evict_back-All :
    (P : RunBlobs → Type 0) (limit : ℕ) (rbs : List RunBlobs) (size : ℕ)
    → All P rbs
    → All P (evict_back limit rbs size).0
unfolding evict_back
evict_back-All P limit [] size a = tt
evict_back-All P limit (x ∷ rbs) size a =
    elim (Bool-cases (ltb limit (evict_back limit rbs size).1)) [
      | inl l ↦ rw l tt
      | inr l ↦ rw l (a.0, evict_back-All P limit rbs size a.1)
    ]
