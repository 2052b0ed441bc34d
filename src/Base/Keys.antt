-- ===== src/Base/Keys.antt =====
-- Go's `comparable` constraint: a type whose values `==` decides.
use Prim.Native.Nat.{ℕ}
use Prim.Native.String.{String}
use mathlib.Core.Path.{◌≡◌, sym, ◌∙◌}
use mathlib.Core.Bool.{Bool, true, false, false≢true}
use native.Mathlib.Decide.{ℕ_discrete}
use text.Mathlib.Text.{◌==◌ as str_eq}
use text.Mathlib.TextEquality.{eq_iff}

pub record Comparable {ℓ} (A : Type ℓ) : Type ℓ where
  pub same : Discrete A

infix 50 ◌≟◌
abbrev pub ◌≟◌ {ℓ} : {A : Type ℓ} ⦃c : Comparable A⦄ (a b : A) → Dec (a ≡ b)
◌≟◌ ⦃c⦄ = c.same

instance abbrev pub ℕ_comparable : Comparable ℕ
ℕ_comparable = record { same = ℕ_discrete }

decide_text : (b : Bool) (s t : String) → str_eq s t ≡ b → Dec (s ≡ t)
decide_text true s t e = yes ((eq_iff s t).0 e)
decide_text false s t e = no (λ p. false≢true (sym e ∙ (eq_iff s t).1 p))

unfoldable pub String_discrete : Discrete String
unfolding decide_text
String_discrete s t = decide_text (str_eq s t) s t (λ i. str_eq s t)

instance abbrev pub String_comparable : Comparable String
String_comparable = record { same = String_discrete }
