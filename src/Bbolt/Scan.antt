-- ===== src/Bbolt/Scan.antt =====
-- The loops over a prefix of store/bbolt/store.go, in a bucket whose keys ascend.
use durable.Base.{
  ℕ, zero, suc, ◌+◌, ◌≡◌, refl, ◌∙◌, ap, Bool, true, false, ◌&&◌, none, some, [], ◌∷◌, ◌++◌, length,
  length-append, drop, ◌%◌, leb, if◌then◌else◌, arith,
}
use durable.Kernel.{Phase}
use Prim.Native.Nat.{◌/◌}
use durable.Driver.{Bytes}
use durable.Bbolt.{
  bytes_lt, has_prefix, bytes_equal, Rows, seek, while_prefix, visited, is_op_key, first_op,
  find_op, op_prefix, op_key, phase_byte, big_endian,
}

-- A key below those of all the rows.
unfoldable pub is_below : Bytes → Rows → Bool
is_below k [] = true
is_below k (r ∷ rows) = bytes_lt k (r.0) && is_below k rows

unfoldable pub is_ascending : Rows → Bool
is_ascending [] = true
is_ascending (r ∷ rows) = is_below (r.0) rows && is_ascending rows

-- The rows of the bucket with the prefix.
unfoldable pub with_prefix : Bytes → Rows → Rows
with_prefix p [] = []
with_prefix p (r ∷ rows) =
    let rest = with_prefix p rows in if has_prefix (r.0) p then r ∷ rest else rest

lt-has_prefix : (k p : Bytes) → bytes_lt k p ≡ true → has_prefix k p ≡ false
unfolding bytes_lt has_prefix
lt-has_prefix k [] l = ground arith
lt-has_prefix [] (c ∷ p) l = refl
lt-has_prefix (x ∷ k) (c ∷ p) l = ground (arith, lt-has_prefix k p)

lt-above : (k p j : Bytes) → bytes_lt k p ≡ false → bytes_lt k j ≡ true → bytes_lt j p ≡ false
unfolding bytes_lt
lt-above k [] j h l = refl
lt-above [] (c ∷ p) j h l = ground (arith, h)
lt-above (x ∷ k) (c ∷ p) [] h l = ground (arith, l)
lt-above (x ∷ k) (c ∷ p) (y ∷ j) h l = ground (arith, lt-above k p j)

lt-has_prefix-above :
    (k p j : Bytes)
    → bytes_lt k p ≡ false
    → has_prefix k p ≡ false
    → bytes_lt k j ≡ true
    → has_prefix j p ≡ false
unfolding bytes_lt has_prefix
lt-has_prefix-above k [] j h n l = ground (arith, n)
lt-has_prefix-above [] (c ∷ p) j h n l = ground (arith, h)
lt-has_prefix-above (x ∷ k) (c ∷ p) [] h n l = refl
lt-has_prefix-above (x ∷ k) (c ∷ p) (y ∷ j) h n l = ground (arith, lt-has_prefix-above k p j)

with_prefix-past :
    (p k : Bytes) (rows : Rows)
    → bytes_lt k p ≡ false
    → has_prefix k p ≡ false
    → is_below k rows ≡ true
    → with_prefix p rows ≡ []
unfolding is_below with_prefix
with_prefix-past p k [] h n b = refl
with_prefix-past p k (r ∷ rows) h n b =
    ground (arith, lt-has_prefix-above k p (r.0), with_prefix-past p k rows)

while_prefix-with_prefix :
    (p : Bytes) (r : Bytes × Bytes) (rows : Rows)
    → bytes_lt (r.0) p ≡ false
    → is_ascending (r ∷ rows) ≡ true
    → while_prefix p (r ∷ rows) ≡ with_prefix p (r ∷ rows)
unfolding is_ascending is_below while_prefix with_prefix
while_prefix-with_prefix p r [] h a = ground arith
while_prefix-with_prefix p r (s ∷ rows) h a = ground (
  arith,
  while_prefix-with_prefix p s rows,
  lt-above (r.0) p (s.0),
  with_prefix-past p (r.0) (s ∷ rows),
)

pub visited-with_prefix :
    (p : Bytes) (rows : Rows) → is_ascending rows ≡ true → visited p rows ≡ with_prefix p rows
unfolding visited seek is_ascending while_prefix with_prefix
visited-with_prefix p [] a = ground arith
visited-with_prefix p (r ∷ rows) a =
    ground
      (arith, visited-with_prefix p rows, while_prefix-with_prefix p r rows, lt-has_prefix (r.0) p)

pub bytes_equal_refl : (a : Bytes) → bytes_equal a a ≡ true
unfolding bytes_equal
bytes_equal_refl [] = refl
bytes_equal_refl (x ∷ a) = ground (arith, bytes_equal_refl a)

has_prefix-append : (p a : Bytes) → has_prefix (p ++ a) p ≡ true
unfolding has_prefix
has_prefix-append [] a = refl
has_prefix-append (x ∷ p) a = ground (arith, has_prefix-append p a)

drop-append : (s bs : Bytes) (i j : ℕ) → j ≡ length s + i → drop j (s ++ bs) ≡ drop i bs
drop-append [] bs i j e = let f : j ≡ i = omega (arith, e) in ap (λ x. drop x bs) f
drop-append (x ∷ s) bs i zero e = absurd (omega (arith, e))
drop-append (x ∷ s) bs i (suc j) e = drop-append s bs i j (omega (arith, e))

is_op_key-op_key :
    (prefix suffix : Bytes) (a b c d : ℕ)
    → is_op_key prefix suffix (prefix ++ a ∷ b ∷ c ∷ d ∷ suffix) ≡ true
unfolding is_op_key
is_op_key-op_key prefix suffix a b c d =
    let all : Bytes = prefix ++ a ∷ b ∷ c ∷ d ∷ suffix in
    let n : length all ≡ (length prefix + 4) + length suffix =
      length-append prefix (a ∷ b ∷ c ∷ d ∷ suffix) ∙ omega arith in
    let dr : drop (length prefix + 4) all ≡ suffix =
      drop-append prefix (a ∷ b ∷ c ∷ d ∷ suffix) 4 (length prefix + 4) refl in
    let low : leb (length all) ((length prefix + 4) + length suffix) ≡ true = ground (arith, n) in
    let high : leb ((length prefix + 4) + length suffix) (length all) ≡ true = ground (arith, n) in
    rw (low, high, dr, bytes_equal_refl suffix) refl

first_op-skip :
    (p s : Bytes) (before rest : Rows)
    → first_op p s (with_prefix p before) ≡ none
    → first_op p s (with_prefix p (before ++ rest)) ≡ first_op p s (with_prefix p rest)
unfolding first_op with_prefix
first_op-skip p s [] rest h = refl
first_op-skip p s (r ∷ before) rest h = ground (arith, first_op-skip p s before rest)

first_op-with_prefix :
    (p s : Bytes) (r : Bytes × Bytes) (rest : Rows)
    → has_prefix (r.0) p ≡ true
    → is_op_key p s (r.0) ≡ true
    → first_op p s (with_prefix p (r ∷ rest)) ≡ some r
unfolding first_op with_prefix
first_op-with_prefix p s r rest h k = rw (h, k) refl

-- What a key of the operation has after its order.
unfoldable pub op_suffix : Bytes → Phase → Bytes
op_suffix step phase = 0 ∷ (step ++ (0 ∷ phase_byte phase ∷ []))

-- Let the keys of the active bucket ascend, and let it have a row under the key of an operation.
-- Where no earlier row with the prefix of the run is one for this step and phase, findOp returns
-- that row.
pub find_op-finds :
    (before after : Rows) (id : Bytes) (n : ℕ) (step : Bytes) (phase : Phase) (v : Bytes)
    → is_ascending (before ++ (op_key id n step phase, v) ∷ after) ≡ true
    → first_op (op_prefix id) (op_suffix step phase) (with_prefix (op_prefix id) before) ≡ none
    → find_op (before ++ (op_key id n step phase, v) ∷ after) id step phase
      ≡ some (op_key id n step phase, v)
unfolding find_op op_key big_endian op_suffix
find_op-finds before after id n step phase v a h =
    let p : Bytes = op_prefix id in
    let s : Bytes = op_suffix step phase in
    let row : Bytes × Bytes = (op_key id n step phase, v) in
    rw (visited-with_prefix p (before ++ row ∷ after) a) (
      first_op-skip p s before (row ∷ after) h
      ∙ first_op-with_prefix p s row after (has_prefix-append p (big_endian 4 n ++ s)) (
          is_op_key-op_key p s (n / 256 / 256 / 256 % 256) (n / 256 / 256 % 256) (n / 256 % 256)
            (n % 256)))
