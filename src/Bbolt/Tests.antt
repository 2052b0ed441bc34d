-- ===== src/Bbolt/Tests.antt =====
-- Keys of store/bbolt/store.go at small rows, and the theorems at them.
use durable.Base.{◌≡◌, refl, true, none, some, [], ◌∷◌, ◌++◌, arith, ℕ}
use durable.Kernel.{Phase, phase_forward, phase_unwind, phase_done}
use durable.Driver.{Bytes}
use durable.Bbolt.Scan.{is_below, is_ascending, with_prefix, op_suffix, find_op-finds}
use durable.Bbolt.Clear.{without_prefix, delete_nonterminal_stage-clears}
use durable.Bbolt.{
  has_prefix, bytes_equal, seek, while_prefix, visited, is_op_key, first_op, find_op, delete_key,
  delete_rows, delete_nonterminal_stage, bytes_lt, big_endian, tag_op, phase_byte, run_prefix,
  active_key, op_prefix, op_key, cut_nul, split_active_key, split_op_rest, expiry_key,
}
use durable.Bbolt.Order.{op_key-order}
use durable.Bbolt.Keys.{op_rest, row_phase, op_key-split}

abbrev run_id : Bytes
run_id = 114 ∷ 49 ∷ []

abbrev step_id : Bytes
step_id = 98 ∷ []

op_key_bytes :
    op_key run_id 258 step_id phase_unwind
    ≡ 114 ∷ 49 ∷ 0 ∷ 111 ∷ 0 ∷ 0 ∷ 0 ∷ 1 ∷ 2 ∷ 0 ∷ 98 ∷ 0 ∷ 117 ∷ []
unfolding op_key op_prefix active_key run_prefix big_endian phase_byte
op_key_bytes = refl

split_op_rest_short : split_op_rest (0 ∷ 0 ∷ 0 ∷ 0 ∷ 1 ∷ 0 ∷ 98 ∷ []) ≡ none
unfolding split_op_rest
split_op_rest_short = refl

split_active_key_short : split_active_key (114 ∷ 0 ∷ []) ≡ none
unfolding split_active_key cut_nul
split_active_key_short = refl

expiry_key_zero : expiry_key 0 step_id ≡ 0 ∷ 0 ∷ 0 ∷ 0 ∷ 0 ∷ 0 ∷ 0 ∷ 0 ∷ 98 ∷ []
unfolding expiry_key big_endian
expiry_key_zero = refl

op_key-split_example :
    (split_active_key (op_key run_id 258 step_id phase_done)
      ≡ some (run_id, tag_op, op_rest 258 step_id phase_done))
    × (split_op_rest (op_rest 258 step_id phase_done) ≡ some (258, step_id, row_phase phase_done))
op_key-split_example = op_key-split run_id 258 step_id phase_done refl (omega arith)

op_key-order_example :
    bytes_lt (op_key run_id 255 step_id phase_unwind) (op_key run_id 256 [] phase_forward) ≡ true
op_key-order_example =
    op_key-order run_id 255 256 step_id [] phase_unwind phase_forward (omega arith) (omega arith)

abbrev row_of : ℕ → Bytes → Phase → Bytes × Bytes
row_of n step phase = (op_key run_id n step phase, 7 ∷ [])

abbrev other_row : Bytes × Bytes
other_row = (op_key (114 ∷ []) 0 step_id phase_forward, [])

abbrev last_row : Bytes × Bytes
last_row = (active_key (115 ∷ []) 109, [])

find_op-finds_example :
    find_op
      (other_row ∷ row_of 1 step_id phase_forward ∷ row_of 2 step_id phase_unwind ∷ last_row ∷ [])
      run_id
      step_id
      phase_unwind
    ≡ some (row_of 2 step_id phase_unwind)
unfolding bytes_lt is_below is_ascending op_key op_prefix active_key run_prefix big_endian
    phase_byte first_op with_prefix has_prefix is_op_key bytes_equal op_suffix
find_op-finds_example =
    find_op-finds (other_row ∷ row_of 1 step_id phase_forward ∷ []) (last_row ∷ []) run_id 2 step_id
      phase_unwind (7 ∷ []) refl refl

find_op_missing :
    find_op (other_row ∷ row_of 1 step_id phase_forward ∷ last_row ∷ []) run_id step_id phase_unwind
    ≡ none
unfolding find_op visited seek while_prefix bytes_lt op_key op_prefix active_key run_prefix
    big_endian phase_byte first_op has_prefix is_op_key bytes_equal
find_op_missing = refl

delete_nonterminal_stage-clears_example :
    (delete_nonterminal_stage
        (other_row ∷ row_of 1 step_id phase_forward ∷ last_row ∷ [], (run_id, []) ∷ [])
        run_id
      ≡ (
        without_prefix
            (run_prefix run_id)
            (other_row ∷ row_of 1 step_id phase_forward ∷ last_row ∷ []),
        delete_key run_id ((run_id, []) ∷ []),
      ))
    × (has_prefix (run_prefix (114 ∷ []) ++ 111 ∷ []) (run_prefix run_id)
        ≡ bytes_equal (114 ∷ []) run_id)
unfolding bytes_lt is_below is_ascending op_key op_prefix active_key run_prefix big_endian
    phase_byte
delete_nonterminal_stage-clears_example =
    delete_nonterminal_stage-clears (other_row ∷ row_of 1 step_id phase_forward ∷ last_row ∷ [])
      ((run_id, []) ∷ []) run_id (114 ∷ []) (111 ∷ []) refl refl refl

delete_nonterminal_stage_rows :
    delete_nonterminal_stage
      (other_row ∷ row_of 1 step_id phase_forward ∷ last_row ∷ [], (run_id, []) ∷ [])
      run_id
    ≡ (other_row ∷ last_row ∷ [], [])
unfolding delete_nonterminal_stage delete_rows delete_key visited seek while_prefix bytes_lt op_key
    op_prefix active_key run_prefix big_endian phase_byte has_prefix bytes_equal
delete_nonterminal_stage_rows = refl
