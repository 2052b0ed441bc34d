-- ===== src/Bbolt/Order.antt =====
-- The byte order of the keys of store/bbolt/store.go follows the numbers in them.
use Prim.Native.Nat.{◌/◌}
use mathlib.Core.List.{append_assoc}
use durable.Base.{
  ℕ, zero, suc, ◌*◌, ◌%◌, ◌^◌, ◌<◌, ◌≡◌, refl, ◌∙◌, true, [], ◌∷◌, ◌++◌, ltb, arith, Bool-cases,
  inl, inr, ltb→lt,
}
use durable.Kernel.{Phase}
use durable.Driver.{Bytes}
use durable.Bbolt.{bytes_lt, big_endian, op_prefix, op_key, phase_byte, expiry_key}

bytes_lt-prefix : (p a b : Bytes) → bytes_lt (p ++ a) (p ++ b) ≡ bytes_lt a b
unfolding bytes_lt
bytes_lt-prefix [] a b = refl
bytes_lt-prefix (x ∷ p) a b = ground (arith, bytes_lt-prefix p a b)

-- 256 to the power.
unfoldable pub size_of : ℕ → ℕ
size_of zero = 1
size_of (suc k) = 256 * size_of k

last_lt : (x y : ℕ) (a b : Bytes) → x < y → bytes_lt (x ∷ a) (y ∷ b) ≡ true
unfolding bytes_lt
last_lt x y a b l = ground arith

bytes_lt-big_endian :
    (k n m : ℕ) (a b : Bytes)
    → n < m
    → m < size_of k
    → bytes_lt (big_endian k n ++ a) (big_endian k m ++ b) ≡ true
unfolding big_endian size_of
bytes_lt-big_endian zero n m a b l h = absurd (omega (arith, l, h))
bytes_lt-big_endian (suc k) n m a b l h =
    rw (append_assoc (big_endian k (n / 256)) (n % 256 ∷ []) a) (
      rw (append_assoc (big_endian k (m / 256)) (m % 256 ∷ []) b)
        (elim (Bool-cases (ltb (n / 256) (m / 256))) [
          | inl e ↦
              bytes_lt-big_endian k (n / 256) (m / 256) (n % 256 ∷ a) (m % 256 ∷ b)
                (ltb→lt (n / 256) (m / 256) e) (omega (arith, h))
          | inr e ↦
              let q : n / 256 ≡ m / 256 = ground (arith, l, e) in
              rw q (
                bytes_lt-prefix (big_endian k (m / 256)) (n % 256 ∷ a) (m % 256 ∷ b)
                ∙ last_lt (n % 256) (m % 256) a b (omega (arith, l, q)))
        ]))

-- Let an operation of a run have a smaller order than another one of that run, both within a
-- uint32. Then the key of its row comes first in the order of bytes, whatever the steps and
-- phases.
pub op_key-order :
    (id : Bytes) (n m : ℕ) (s t : Bytes) (p q : Phase)
    → n < m
    → m < 2 ^ 32
    → bytes_lt (op_key id n s p) (op_key id m t q) ≡ true
unfolding op_key size_of
op_key-order id n m s t p q l h =
    let a : Bytes = 0 ∷ (s ++ (0 ∷ phase_byte p ∷ [])) in
    let b : Bytes = 0 ∷ (t ++ (0 ∷ phase_byte q ∷ [])) in
    bytes_lt-prefix (op_prefix id) (big_endian 4 n ++ a) (big_endian 4 m ++ b)
    ∙ bytes_lt-big_endian 4 n m a b l h

-- Rows of terminal runs sort by the time of their commit.
pub expiry_key-order :
    (n m : ℕ) (id j : Bytes)
    → n < m
    → m < 2 ^ 64
    → bytes_lt (expiry_key n id) (expiry_key m j) ≡ true
unfolding expiry_key size_of
expiry_key-order n m id j l h = bytes_lt-big_endian 8 n m id j l h
