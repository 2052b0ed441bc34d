-- ===== src/Bbolt.antt =====
-- store/bbolt/store.go: the keys of the rows. A key is the list of its bytes, an identifier that of
-- its UTF-8. `tag_op` and the phase bytes are the characters that the source names.
pub mod Keys
pub mod Order
pub mod Scan
pub mod Clear
mod Tests
use Prim.Native.Nat.{◌/◌}
use durable.Base.{
  ℕ, zero, suc, ◌+◌, ◌-◌, ◌*◌, ◌%◌, Bool, true, false, ◌&&◌, ◌||◌, Option, none, some, List, [],
  ◌∷◌, ◌++◌, length, take, drop, get_elem?, ltb, leb, if◌then◌else◌,
}
use durable.Kernel.{Phase, unset, phase_forward, phase_unwind, phase_done}
use durable.Driver.{Bytes}

-- `binary.BigEndian.AppendUint32` for 4 bytes, `AppendUint64` for 8: the last bytes of the number.
unfoldable pub big_endian : ℕ → ℕ → Bytes
big_endian zero n = []
big_endian (suc k) n = big_endian k (n / 256) ++ n % 256 ∷ []

-- `binary.BigEndian.Uint32`
unfoldable pub from_big_endian : ℕ → Bytes → ℕ
from_big_endian n [] = n
from_big_endian n (b ∷ bs) = from_big_endian (n * 256 + b) bs

abbrev pub tag_op : ℕ
tag_op = 111

unfoldable pub phase_byte : Phase → ℕ
phase_byte phase_unwind = 117
phase_byte phase_forward = 102
phase_byte phase_done = 102
phase_byte unset = 102

unfoldable pub slot_key_for : Bytes → Bytes → Bytes
slot_key_for pipeline resource = pipeline ++ 0 ∷ resource

unfoldable pub run_prefix : Bytes → Bytes
run_prefix id = id ++ 0 ∷ []

unfoldable pub active_key : Bytes → ℕ → Bytes
active_key id tag = run_prefix id ++ tag ∷ []

unfoldable pub op_prefix : Bytes → Bytes
op_prefix id = active_key id tag_op ++ 0 ∷ []

unfoldable pub op_key : Bytes → ℕ → Bytes → Phase → Bytes
op_key id order step phase =
    op_prefix id ++ (big_endian 4 order ++ (0 ∷ (step ++ (0 ∷ phase_byte phase ∷ []))))

-- The bytes before the first NUL and those after it.
unfoldable pub cut_nul : Bytes → Option (Bytes × Bytes)
cut_nul [] = none
cut_nul (b ∷ bs) =
    let rest = cut_nul bs in
    if leb b 0
    then some ([], bs)
    else elim rest [ none ↦ none | some (before, after) ↦ some (b ∷ before, after) ]

-- The run id, the tag, and the bytes after it.
unfoldable pub split_active_key : Bytes → Option (Bytes × ℕ × Bytes)
split_active_key k = elim (cut_nul k) [
  | none ↦ none
  | some (id, after) ↦ elim after [ [] ↦ none | tag ∷ rest ↦ some (id, tag, rest) ]
]

-- Whether there is a NUL at the place.
abbrev pub is_nul : Bytes → ℕ → Bool
is_nul bs i = elim (get_elem? bs i) [ none ↦ false | some b ↦ leb b 0 ]

abbrev pub is_byte : Bytes → ℕ → ℕ → Bool
is_byte bs i c = elim (get_elem? bs i) [ none ↦ false | some b ↦ leb b c && leb c b ]

unfoldable pub split_op_rest : Bytes → Option (ℕ × Bytes × Phase)
split_op_rest rest =
    let n = length rest in
    let tail = drop 6 rest in
    let m = length tail in
    let phase = if is_byte tail (m - 1) 117 then phase_unwind else phase_forward in
    if leb 8 n && (is_nul rest 0 && (is_nul rest 5 && is_nul rest (n - 2)))
    then some (from_big_endian 0 (take 4 (drop 1 rest)), take (m - 2) tail, phase)
    else none

unfoldable pub expiry_key : ℕ → Bytes → Bytes
expiry_key at id = big_endian 8 at ++ id

-- `bytes.Compare(a, b) < 0`
unfoldable pub bytes_lt : Bytes → Bytes → Bool
bytes_lt a [] = false
bytes_lt [] (c ∷ b) = true
bytes_lt (x ∷ a) (c ∷ b) =
    let rest = bytes_lt a b in if ltb x c then true else if ltb c x then false else rest

unfoldable pub has_prefix : Bytes → Bytes → Bool
has_prefix k [] = true
has_prefix [] (c ∷ p) = false
has_prefix (x ∷ k) (c ∷ p) = (leb x c && leb c x) && has_prefix k p

unfoldable pub bytes_equal : Bytes → Bytes → Bool
bytes_equal [] [] = true
bytes_equal [] (c ∷ b) = false
bytes_equal (x ∷ a) [] = false
bytes_equal (x ∷ a) (c ∷ b) = (leb x c && leb c x) && bytes_equal a b

-- The rows of a bucket, in the order of their keys.
abbrev pub Rows : Type 0
Rows = List (Bytes × Bytes)

-- `Cursor.Seek`: the rows from the first key that is not below the given one.
unfoldable pub seek : Bytes → Rows → Rows
seek p [] = []
seek p (r ∷ rows) = let rest = seek p rows in if bytes_lt (r.0) p then rest else r ∷ rows

-- The rows up to the first key without the prefix.
unfoldable pub while_prefix : Bytes → Rows → Rows
while_prefix p [] = []
while_prefix p (r ∷ rows) =
    let rest = while_prefix p rows in if has_prefix (r.0) p then r ∷ rest else []

-- The rows that a loop from `Seek` by `Next` goes through while the prefix lasts.
unfoldable pub visited : Bytes → Rows → Rows
visited p rows = while_prefix p (seek p rows)

unfoldable pub is_op_key : Bytes → Bytes → Bytes → Bool
is_op_key prefix suffix k =
    let n = length prefix + 4 in
    (leb (length k) (n + length suffix) && leb (n + length suffix) (length k))
    && bytes_equal (drop n k) suffix

unfoldable pub first_op : Bytes → Bytes → Rows → Option (Bytes × Bytes)
first_op prefix suffix [] = none
first_op prefix suffix (r ∷ rows) =
    let rest = first_op prefix suffix rows in if is_op_key prefix suffix (r.0) then some r else rest

unfoldable pub find_op : Rows → Bytes → Bytes → Phase → Option (Bytes × Bytes)
find_op active id step phase =
    let prefix = op_prefix id in
    first_op prefix (0 ∷ (step ++ (0 ∷ phase_byte phase ∷ []))) (visited prefix active)

-- `Bucket.Delete`, and the deletion of a bucket beside a row.
unfoldable pub delete_key : Bytes → Rows → Rows
delete_key k [] = []
delete_key k (r ∷ rows) =
    let rest = delete_key k rows in if bytes_equal (r.0) k then rows else r ∷ rest

-- The keys are collected before the deletion.
unfoldable pub delete_rows : Rows → Rows → Rows
delete_rows [] active = active
delete_rows (r ∷ rows) active = delete_rows rows (delete_key (r.0) active)

-- The bucket of active rows and the one of cursors.
unfoldable pub delete_nonterminal_stage : Rows × Rows → Bytes → Rows × Rows
delete_nonterminal_stage (active, cursors) id =
    (delete_rows (visited (run_prefix id) active) active, delete_key id cursors)
