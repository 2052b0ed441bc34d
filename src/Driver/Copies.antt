-- ===== src/Driver/Copies.antt =====
-- `Clone` of store/driver/driver.go gives an equal record.
use durable.Base.{
  ◌≡◌, refl, sym, ◌∙◌, ap, true, false, [], ◌∷◌, ◌++◌, String, String_comparable, Comparable,
  if◌then◌else◌, contains, arith,
}
use durable.Base.Map.{Map, put, keys, IsMap}
use durable.Kernel.Waits.{clone_await-same, clone_wake-same}
use durable.Driver.{StepRecord, RunRecord, clone_step, copy_into, clone}
use durable.Driver.Compact.{clone_op-same}
use mathlib.Core.List.{append_assoc, append-nil}

module _ {K V : Type 0} ⦃c : Comparable K⦄ where
  pub put_new :
      (m : Map K V) (k : K) (v : V) → contains (keys m) k ≡ false → put m k v ≡ m ++ (k, v) ∷ []
  unfolding put contains
  put_new [] k v h = refl
  put_new ((j, w) ∷ m) k v h = ground (arith, put_new m k v)

  pub keys-append :
      (m n : Map K V) (k : K)
      → contains (keys (m ++ n)) k ≡ (if contains (keys m) k then true else contains (keys n) k)
  unfolding contains
  keys-append [] n k = refl
  keys-append ((j, w) ∷ m) n k = ground (arith, keys-append m n k)

  -- The keys of the second map are new to the first.
  abbrev pub IsNew : Map K V → Map K V → Type 0
  IsNew to m = (k : K) → contains (keys m) k ≡ true → contains (keys to) k ≡ false

  pub IsNew-append :
      (to m : Map K V) (k : K) (v w : V)
      → IsNew to ((k, v) ∷ m)
      → IsMap ((k, v) ∷ m)
      → IsNew (to ++ (k, w) ∷ []) m
  unfolding contains
  IsNew-append to m k v w n d j g = ground (arith, n j, keys-append to ((k, w) ∷ []) j, d.0)

  pub IsNew-first :
      (to m : Map K V) (k : K) (v : V) → IsNew to ((k, v) ∷ m) → contains (keys to) k ≡ false
  unfolding contains
  IsNew-first to m k v n = ground (arith, n k)

  pub IsNew-rest : (to m : Map K V) (k : K) (v : V) → IsNew to ((k, v) ∷ m) → IsNew to m
  unfolding contains
  IsNew-rest to m k v n j g = ground (arith, n j)

  copy_into-append :
      (f : V → V) (to m : Map K V)
      → ((v : V) → f v ≡ v)
      → IsMap m
      → IsNew to m
      → copy_into f to m ≡ to ++ m
  unfolding copy_into contains
  copy_into-append f to [] h d n = sym (append-nil to)
  copy_into-append f to ((k, v) ∷ m) h d n =
      let e : put to k (f v) ≡ to ++ (k, v) ∷ [] =
        put_new to k (f v) (IsNew-first to m k v n) ∙ ap (λ w. to ++ (k, w) ∷ []) (h v) in
      rw e (
        copy_into-append f (to ++ (k, v) ∷ []) m h d.1 (IsNew-append to m k v v n d)
        ∙ append_assoc to ((k, v) ∷ []) m)

  pub copy_into-same :
      (f : V → V) (m : Map K V) → ((v : V) → f v ≡ v) → IsMap m → copy_into f [] m ≡ m
  unfolding contains
  copy_into-same f m h d = copy_into-append f [] m h d (λ k g. refl)

clone_step-same : (sr : StepRecord) → clone_step sr ≡ sr
unfolding clone_step
clone_step-same sr = ground (arith, clone_op-same sr.forward, clone_op-same sr.unwind)

pub clone-same : (r : RunRecord) → IsMap r.steps → IsMap r.annotations → clone r ≡ r
unfolding clone
clone-same r d a = rw (copy_into-same clone_step r.steps clone_step-same d) (
    rw (copy_into-same (λ (v : String). v) r.annotations (λ v. refl) a)
      (rw (clone_await-same r.awaiting) (rw (clone_wake-same r.awaited) refl)))
