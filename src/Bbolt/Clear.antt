-- ===== src/Bbolt/Clear.antt =====
-- deleteNonterminalStage of store/bbolt/store.go deletes the rows of one run.
use durable.Base.{◌≡◌, refl, ap, true, false, [], ◌∷◌, ◌++◌, if◌then◌else◌, arith}
use durable.Driver.{Bytes}
use durable.Bbolt.{
  has_prefix, bytes_equal, Rows, run_prefix, delete_key, delete_rows, delete_nonterminal_stage,
}
use durable.Bbolt.Keys.{is_nul_free}
use mathlib.Core.List.{append_assoc}
use durable.Bbolt.Scan.{is_ascending, with_prefix, visited-with_prefix, bytes_equal_refl}

-- The rows of the bucket without the prefix.
unfoldable pub without_prefix : Bytes → Rows → Rows
without_prefix p [] = []
without_prefix p (r ∷ rows) =
    let rest = without_prefix p rows in if has_prefix (r.0) p then rest else r ∷ rest

has_prefix-equal : (a b p : Bytes) → bytes_equal a b ≡ true → has_prefix a p ≡ has_prefix b p
unfolding bytes_equal has_prefix
has_prefix-equal a b [] e = ground arith
has_prefix-equal [] [] (c ∷ p) e = refl
has_prefix-equal [] (y ∷ b) (c ∷ p) e = ground (arith, e)
has_prefix-equal (x ∷ a) [] (c ∷ p) e = ground (arith, e)
has_prefix-equal (x ∷ a) (y ∷ b) (c ∷ p) e = ground (arith, has_prefix-equal a b p)

delete_rows-keeps :
    (p : Bytes) (rows : Rows) (r : Bytes × Bytes) (active : Rows)
    → has_prefix (r.0) p ≡ false
    → delete_rows (with_prefix p rows) (r ∷ active) ≡ r ∷ delete_rows (with_prefix p rows) active
unfolding delete_rows with_prefix delete_key
delete_rows-keeps p [] r active h = refl
delete_rows-keeps p (s ∷ rows) r active h = ground (
  arith,
  delete_rows-keeps p rows r (delete_key (s.0) active),
  delete_rows-keeps p rows r active,
  has_prefix-equal (r.0) (s.0) p,
)

delete_rows-with_prefix :
    (p : Bytes) (active : Rows)
    → delete_rows (with_prefix p active) active ≡ without_prefix p active
unfolding delete_rows with_prefix without_prefix delete_key
delete_rows-with_prefix p [] = refl
delete_rows-with_prefix p (r ∷ active) = ground (
  arith,
  delete_rows-with_prefix p active,
  delete_rows-keeps p active r active,
  bytes_equal_refl (r.0),
)

-- A key is of the run that stands before its first NUL.
has_prefix-run_prefix :
    (j id rest : Bytes)
    → is_nul_free j ≡ true
    → is_nul_free id ≡ true
    → has_prefix (j ++ 0 ∷ rest) (id ++ 0 ∷ []) ≡ bytes_equal j id
unfolding has_prefix bytes_equal
has_prefix-run_prefix [] [] rest h g = refl
has_prefix-run_prefix [] (y ∷ id) rest h g = ground (arith, g)
has_prefix-run_prefix (x ∷ j) [] rest h g = ground (arith, h)
has_prefix-run_prefix (x ∷ j) (y ∷ id) rest h g = ground (arith, has_prefix-run_prefix j id rest)

-- Let the keys of the active bucket ascend, and let two identifiers of runs have no NUL. Then
-- deleteNonterminalStage for the first of them leaves the active rows that do not begin with its
-- prefix, in their order, and removes its cursor; and whether a key of the second one begins with
-- that prefix is whether the two are equal.
pub delete_nonterminal_stage-clears :
    (active cursors : Rows) (id j rest : Bytes)
    → is_ascending active ≡ true
    → is_nul_free id ≡ true
    → is_nul_free j ≡ true
    → (delete_nonterminal_stage (active, cursors) id
        ≡ (without_prefix (run_prefix id) active, delete_key id cursors))
      × (has_prefix (run_prefix j ++ rest) (run_prefix id) ≡ bytes_equal j id)
unfolding delete_nonterminal_stage run_prefix
delete_nonterminal_stage-clears active cursors id j rest a h g = (
  rw (visited-with_prefix (run_prefix id) active a)
      (ap (λ x. (x, delete_key id cursors)) (delete_rows-with_prefix (run_prefix id) active)),
  rw (append_assoc j (0 ∷ []) rest) (has_prefix-run_prefix j id rest g h),
)
