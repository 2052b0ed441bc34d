-- ===== src/Joinset/History.antt =====
-- Histories of calls of internal/joinset/joinset.go: a registration is kicked once at most.
use durable.Base.{
  ℕ, ◌+◌, ◌≡◌, ◌≢◌, refl, ite, Bool, true, false, Option, none, some, List, [], ◌∷◌, ◌++◌,
  Comparable, ◌≟◌, if◌then◌else◌, length, contains, IsDistinct, ℤ, arith, Option-cases, Bool-cases,
  inl, inr,
}
use durable.Base.Map.{get, put, get-put, get-delete}
use durable.Joinset.{Waiter, Set, clamp, enlist, register, mark, complete, remove}
use durable.Joinset.Invariant.{has, IsValid, register-IsValid, mark-IsValid, remove-IsValid}
use durable.Joinset.Complete.{Completes, complete-Completes}

pub data Call (K W : Type 0) : Type 0 where
  registers : W → List K → ℤ → ℕ → Call K W
  marks : W → K → Call K W
  completes : K → Call K W
  removes : W → Call K W

abbrev pub one : Bool → ℕ
one b = if b then 1 else 0

module _ {W : Type 0} ⦃wc : Comparable W⦄ where
  unfoldable pub occurrences : List W → W → ℕ
  occurrences [] w = 0
  occurrences (x ∷ xs) w = ite (x ≟ w) 1 0 + occurrences xs w

  occurrences-once :
      (xs : List W) (w : W) → IsDistinct xs → occurrences xs w ≡ (if contains xs w then 1 else 0)
  unfolding occurrences contains
  occurrences-once [] w d = refl
  occurrences-once (x ∷ xs) w d = ground (arith, occurrences-once xs w d.1)

  occurrences-append :
      (xs ys : List W) (w : W) → occurrences (xs ++ ys) w ≡ occurrences xs w + occurrences ys w
  unfolding occurrences
  occurrences-append [] ys w = omega arith
  occurrences-append (x ∷ xs) ys w = ground (arith, occurrences-append xs ys w)

module _ {K W : Type 0} ⦃kc : Comparable K⦄ ⦃wc : Comparable W⦄ where
  -- The set after the call, and whom the call kicks.
  unfoldable pub step : Set K W → Call K W → Option (Set K W × List W)
  step s (registers w ks need now) = some ((register s w ks need now).0, [])
  step s (marks w k) = some (mark s w k, [])
  step s (completes k) = complete s k
  step s (removes w) = some ((remove s w).0, [])

  unfoldable pub run : Set K W → List (Call K W) → Option (Set K W × List W)
  run s [] = some (s, [])
  run s (c ∷ cs) = elim (step s c) [
    | none ↦ none
    | some (t, kicks) ↦ elim (run t cs) [ none ↦ none | some (u, more) ↦ some (u, kicks ++ more) ]
  ]

  abbrev pub removes_of : W → Call K W → Bool
  removes_of w (registers x ks need now) = false
  removes_of w (marks x k) = false
  removes_of w (completes k) = false
  removes_of w (removes x) = ite (x ≟ w) true false

  unfoldable pub stays : W → List (Call K W) → Bool
  stays w [] = true
  stays w (c ∷ cs) = if removes_of w c then false else stays w cs

  abbrev pub kicked : Set K W → W → Bool
  kicked s w = elim (get s.waiters w) [ none ↦ false | some wt ↦ wt.kicked ]

  -- A call that does not remove `w` kicks it once, if it becomes kicked, and otherwise not at all.
  pub record Counts (s : Set K W) (w : W) (t : Set K W) (kicks : List W) : Type 0 where
    pub valid : IsValid t
    pub counts : one (kicked s w) + occurrences kicks w ≡ one (kicked t w)

  register-kicked :
      (s : Set K W) (x w : W) (ks : List K) (need : ℤ) (now : ℕ)
      → kicked (register s x ks need now).0 w ≡ kicked s w
  unfolding register
  register-kicked s x w ks need now = elim (Option-cases (get s.waiters x)) [
    | inr (wt, n) ↦ rw (n, register) refl
    | inl n ↦
        let own = (enlist s.by_key x ks).1 in
        let wt : Waiter K = record {
          keys = own;
          need = clamp need (length own);
          done = [];
          since = now;
          kicked = false;
        } in
        rw (n, register) (ground (arith, get-put s.waiters x wt w))
  ]

  mark-kicked : (s : Set K W) (x w : W) (k : K) → kicked (mark s x k) w ≡ kicked s w
  unfolding mark
  mark-kicked s x w k = elim (Option-cases (get s.waiters x)) [
    | inl n ↦ ground arith
    | inr (wt, n) ↦ ground (arith, get-put s.waiters x (record wt { done = put wt.done k tt }) w)
  ]

  remove-kicked : (s : Set K W) (x w : W) → x ≢ w → kicked (remove s x).0 w ≡ kicked s w
  unfolding remove
  remove-kicked s x w n = ground (arith, get-delete s.waiters x w)

  complete-counts :
      (s : Set K W) (k : K) (w : W) (r : Set K W × List W)
      → IsValid s
      → Completes s k r
      → one (kicked s w) + occurrences r.1 w ≡ one (kicked r.0 w)
  complete-counts s k w r v c =
      let o = get s.waiters w in
      elim (Bool-cases (has s k w)) [
        | inl h ↦ ground (arith, c.each w, c.kicks w, occurrences-once r.1 w c.once)
        | inr h ↦ ground (arith, c.each w, c.kicks w, occurrences-once r.1 w c.once)
      ]

  step-Counts :
      (s : Set K W) (c : Call K W) (w : W)
      → IsValid s
      → removes_of w c ≡ false
      → (r : Set K W × List W) × (step s c ≡ some r) × Counts s w r.0 r.1
  unfolding step occurrences
  step-Counts s (registers x ks need now) w v h = (
    ((register s x ks need now).0, []),
    refl,
    record {
      valid = register-IsValid s x ks need now v;
      counts = ground (arith, register-kicked s x w ks need now);
    },
  )
  step-Counts s (marks x k) w v h = (
    (mark s x k, []),
    refl,
    record { valid = mark-IsValid s x k v; counts = ground (arith, mark-kicked s x w k) },
  )
  step-Counts s (completes k) w v h =
      let (r, e, c) = complete-Completes s k v in
      (r, e, record { valid = c.valid; counts = complete-counts s k w r v c })
  step-Counts s (removes x) w v h = (
    ((remove s x).0, []),
    refl,
    record { valid = remove-IsValid s x v; counts = ground (arith, remove-kicked s x w) },
  )

  -- From a consistent set, a history of Register, Mark, Complete and Remove that does not
  -- remove a waiter goes through, without following a nil waiter, and leaves the set
  -- consistent: the index lists exactly the registered waiters under their keys, and a kicked
  -- waiter has reached its threshold. The history kicks the waiter once if it becomes kicked
  -- within it, and otherwise not at all.
  pub run-Counts :
      (s : Set K W) (cs : List (Call K W)) (w : W)
      → IsValid s
      → stays w cs ≡ true
      → (r : Set K W × List W) × (run s cs ≡ some r) × Counts s w r.0 r.1
  unfolding run stays occurrences
  run-Counts s [] w v h = ((s, []), refl, record { valid = v; counts = omega arith })
  run-Counts s (c ∷ cs) w v h =
      let (r, e, b) = step-Counts s c w v (ground arith) in
      let (q, f, d) = run-Counts r.0 cs w b.valid (ground arith) in
      (
        (q.0, r.1 ++ q.1),
        ground arith,
        record {
          valid = d.valid;
          counts = omega (arith, b.counts, d.counts, occurrences-append r.1 q.1 w);
        },
      )
