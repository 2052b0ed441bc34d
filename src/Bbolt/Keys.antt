-- ===== src/Bbolt/Keys.antt =====
-- The keys of store/bbolt/store.go can be taken apart again.
use Prim.Native.Nat.{◌/◌}
use mathlib.Core.List.{append_assoc}
use durable.Base.{
  ℕ, zero, suc, ◌+◌, ◌-◌, ◌*◌, ◌%◌, ◌^◌, ◌<◌, ◌≡◌, refl, sym, ◌∙◌, ap, Bool, true, ◌&&◌, Option,
  some, [], ◌∷◌, ◌++◌, length, length-append, take, get_elem?, ltb, leb, if◌then◌else◌, arith,
}
use durable.Kernel.{Phase, unset, phase_forward, phase_unwind, phase_done}
use durable.Driver.{Bytes}
use durable.Bbolt.{
  big_endian, from_big_endian, tag_op, phase_byte, run_prefix, active_key, op_prefix, op_key,
  slot_key_for, cut_nul, split_active_key, is_nul, is_byte, split_op_rest,
}
use durable.Bbolt.Order.{size_of}

from_big_endian-append :
    (n b : ℕ) (bs : Bytes) → from_big_endian n (bs ++ b ∷ []) ≡ from_big_endian n bs * 256 + b
unfolding from_big_endian
from_big_endian-append n b [] = refl
from_big_endian-append n b (x ∷ bs) = from_big_endian-append (n * 256 + x) b bs

from_big_endian-big_endian : (k n : ℕ) → n < size_of k → from_big_endian 0 (big_endian k n) ≡ n
unfolding from_big_endian big_endian size_of
from_big_endian-big_endian zero n h = omega (arith, h)
from_big_endian-big_endian (suc k) n h =
    from_big_endian-append 0 (n % 256) (big_endian k (n / 256))
    ∙ rw (from_big_endian-big_endian k (n / 256) (omega (arith, h))) (omega arith)

length-big_endian : (k n : ℕ) → length (big_endian k n) ≡ k
unfolding big_endian
length-big_endian zero n = refl
length-big_endian (suc k) n =
    length-append (big_endian k (n / 256)) (n % 256 ∷ [])
    ∙ omega (arith, length-big_endian k (n / 256))

-- An identifier has no NUL.
abbrev pub is_nul_free : Bytes → Bool
is_nul_free [] = true
is_nul_free (b ∷ bs) = ltb 0 b && is_nul_free bs

cut_nul-append :
    (id after : Bytes) → is_nul_free id ≡ true → cut_nul (id ++ 0 ∷ after) ≡ some (id, after)
unfolding cut_nul
cut_nul-append [] after h = refl
cut_nul-append (b ∷ id) after h = ground (arith, cut_nul-append id after)

-- The phase that a row's key tells.
pub row_phase : Phase → Phase
row_phase phase_unwind = phase_unwind
row_phase phase_forward = phase_forward
row_phase phase_done = phase_forward
row_phase unset = phase_forward

abbrev pub op_rest : ℕ → Bytes → Phase → Bytes
op_rest order step phase = 0 ∷ (big_endian 4 order ++ (0 ∷ (step ++ (0 ∷ phase_byte phase ∷ []))))

split_active_key-op_key :
    (id : Bytes) (order : ℕ) (step : Bytes) (phase : Phase)
    → is_nul_free id ≡ true
    → split_active_key (op_key id order step phase) ≡ some (id, tag_op, op_rest order step phase)
unfolding split_active_key op_key op_prefix active_key run_prefix
split_active_key-op_key id order step phase h =
    let r : Bytes = big_endian 4 order ++ (0 ∷ (step ++ (0 ∷ phase_byte phase ∷ []))) in
    let e : (((id ++ 0 ∷ []) ++ tag_op ∷ []) ++ 0 ∷ []) ++ r ≡ id ++ 0 ∷ tag_op ∷ 0 ∷ r =
      append_assoc ((id ++ 0 ∷ []) ++ tag_op ∷ []) (0 ∷ []) r
      ∙ append_assoc (id ++ 0 ∷ []) (tag_op ∷ []) (0 ∷ r)
      ∙ append_assoc id (0 ∷ []) (tag_op ∷ 0 ∷ r) in
    rw e (rw (cut_nul-append id (tag_op ∷ 0 ∷ r) h, split_active_key) refl)

get_elem?-append :
    (s bs : Bytes) (i j : ℕ) → j ≡ length s + i → get_elem? (s ++ bs) j ≡ get_elem? bs i
get_elem?-append [] bs i j e = let f : j ≡ i = omega (arith, e) in ap (λ x. get_elem? bs x) f
get_elem?-append (x ∷ s) bs i zero e = absurd (omega (arith, e))
get_elem?-append (x ∷ s) bs i (suc j) e = get_elem?-append s bs i j (omega (arith, e))

take-append : (s bs : Bytes) → take (length s) (s ++ bs) ≡ s
take-append [] bs = refl
take-append (x ∷ s) bs = ap (λ l. x ∷ l) (take-append s bs)

split_op_rest-parts :
    (a b c d : ℕ) (step : Bytes) (p : ℕ)
    → split_op_rest (0 ∷ a ∷ b ∷ c ∷ d ∷ 0 ∷ (step ++ (0 ∷ p ∷ [])))
      ≡ some (
        from_big_endian 0 (a ∷ b ∷ c ∷ d ∷ []),
        step,
        (if leb p 117 && leb 117 p then phase_unwind else phase_forward),
      )
unfolding split_op_rest
split_op_rest-parts a b c d step p =
    let t : Bytes = step ++ (0 ∷ p ∷ []) in
    let n : length t ≡ length step + 2 = length-append step (0 ∷ p ∷ []) in
    let all : Bytes = 0 ∷ a ∷ b ∷ c ∷ d ∷ 0 ∷ t in
    let k : length t - 2 ≡ length step = omega (arith, n) in
    let last : get_elem? t (length t - 1) ≡ some p =
      get_elem?-append step (0 ∷ p ∷ []) 1 (length t - 1) (omega (arith, n)) in
    let nul : get_elem? all (length all - 2) ≡ some 0 =
      get_elem?-append (0 ∷ a ∷ b ∷ c ∷ d ∷ 0 ∷ step) (0 ∷ p ∷ []) 0 (length all - 2)
        (omega (arith, n)) in
    let long : leb 8 (length all) ≡ true = ground (arith, n) in
    let cut : take (length t - 2) t ≡ step = rw k (take-append step (0 ∷ p ∷ [])) in
    let nul_at : is_nul all (length all - 2) ≡ true = rw (nul, is_nul) refl in
    let last_at : is_byte t (length t - 1) 117 ≡ (leb p 117 && leb 117 p) =
      rw (last, is_byte) refl in
    rw (long, nul_at, last_at, cut, split_op_rest) refl

phase_byte-row_phase :
    (phase : Phase)
    → (if leb (phase_byte phase) 117 && leb 117 (phase_byte phase)
        then phase_unwind
        else phase_forward)
      ≡ row_phase phase
unfolding phase_byte row_phase
phase_byte-row_phase phase_unwind = refl
phase_byte-row_phase phase_forward = refl
phase_byte-row_phase phase_done = refl
phase_byte-row_phase unset = refl

split_op_rest-op_rest :
    (order : ℕ) (step : Bytes) (phase : Phase)
    → order < 2 ^ 32
    → split_op_rest (op_rest order step phase) ≡ some (order, step, row_phase phase)
unfolding big_endian size_of
split_op_rest-op_rest order step phase h =
    split_op_rest-parts (order / 256 / 256 / 256 % 256) (order / 256 / 256 % 256)
      (order / 256 % 256) (order % 256) step (phase_byte phase)
    ∙ rw (phase_byte-row_phase phase)
        (ap (λ x. some (x, step, row_phase phase)) (from_big_endian-big_endian 4 order h))

-- The identifier of a run has no NUL, and the order of an operation is a uint32. Then
-- splitActiveKey takes the key of an operation row apart into the run, the tag of operations and
-- a rest, and splitOpRest takes that rest apart into the order, the step and the phase, where any
-- phase but the one of unwinding is the forward one. The identifier of the step is any.
pub op_key-split :
    (id : Bytes) (order : ℕ) (step : Bytes) (phase : Phase)
    → is_nul_free id ≡ true
    → order < 2 ^ 32
    → (split_active_key (op_key id order step phase) ≡ some (id, tag_op, op_rest order step phase))
      × (split_op_rest (op_rest order step phase) ≡ some (order, step, row_phase phase))
op_key-split id order step phase h l =
    (split_active_key-op_key id order step phase h, split_op_rest-op_rest order step phase l)

pair_inj : {a b : Bytes × Bytes} → some a ≡ some b → a ≡ b
pair_inj e = cc

-- Distinct slots have distinct keys.
pub slot_key_for-injective :
    (p q r s : Bytes)
    → is_nul_free p ≡ true
    → is_nul_free q ≡ true
    → slot_key_for p r ≡ slot_key_for q s
    → (p ≡ q) × (r ≡ s)
unfolding slot_key_for
slot_key_for-injective p q r s h g e =
    let f : Path (Option (Bytes × Bytes)) (some (p, r)) (some (q, s)) =
      sym (cut_nul-append p r h) ∙ ap cut_nul e ∙ cut_nul-append q s g in
    let g : Path (Bytes × Bytes) (p, r) (q, s) = pair_inj {a = (p, r)} {b = (q, s)} f in
    (ap (λ x. x.0) g, ap (λ x. x.1) g)
