-- ===== src/Memstore/Keys.antt =====
-- The keys of the slots of store/mem/mem.go: a pipeline and a resource without NUL give a key that
-- no other such pair gives.
use Prim.Native.Char.{Char, code, nul}
use Prim.Native.String.{◌++◌}
use text.Mathlib.TextLemmas.{nil-append, cons-append, head-eq_of_cons-eq, tail-eq_of_cons-eq}
use durable.Base.{◌≡◌, refl, sym, ap, ◌∙◌, Bool, true, ◌&&◌, ltb, String, arith}
use durable.Memstore.{slot_key}

unfoldable pub is_nul_free : String → Bool
is_nul_free String.[] = true
is_nul_free (String.◌∷◌ c s) = ltb 0 (code c) && is_nul_free s

slot_key-nil : (r : String) → slot_key "" r ≡ String.◌∷◌ nul r
unfolding slot_key
slot_key-nil r =
    nil-append ("\0" ++ r) ∙ cons-append nul "" r ∙ ap (λ s. String.◌∷◌ nul s) (nil-append r)

slot_key-cons :
    (c : Char) (p r : String) → slot_key (String.◌∷◌ c p) r ≡ String.◌∷◌ c (slot_key p r)
unfolding slot_key
slot_key-cons c p r = cons-append c p ("\0" ++ r)

pub slot_key_inj :
    (p p' r r' : String)
    → is_nul_free p ≡ true
    → is_nul_free p' ≡ true
    → slot_key p r ≡ slot_key p' r'
    → (p ≡ p') × (r ≡ r')
unfolding is_nul_free
slot_key_inj String.[] String.[] r r' h h' e =
    (refl, tail-eq_of_cons-eq (sym (slot_key-nil r) ∙ e ∙ slot_key-nil r'))
slot_key_inj String.[] (String.◌∷◌ d q) r r' h h' e =
    let k : nul ≡ d = head-eq_of_cons-eq (sym (slot_key-nil r) ∙ e ∙ slot_key-cons d q r') in
    ground (arith, ap code k)
slot_key_inj (String.◌∷◌ c p) String.[] r r' h h' e =
    let k : c ≡ nul = head-eq_of_cons-eq (sym (slot_key-cons c p r) ∙ e ∙ slot_key-nil r') in
    ground (arith, ap code k)
slot_key_inj (String.◌∷◌ c p) (String.◌∷◌ d q) r r' h h' e =
    let g = sym (slot_key-cons c p r) ∙ e ∙ slot_key-cons d q r' in
    let k : c ≡ d = head-eq_of_cons-eq g in
    let rest = slot_key_inj p q r r' (ground arith) (ground arith) (tail-eq_of_cons-eq g) in
    (rw k (ap (λ s. String.◌∷◌ d s) rest.0), rest.1)
