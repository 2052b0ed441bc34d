-- ===== src/Dispatcher/Runs.antt =====
-- A dispatch of internal/dispatcher/dispatcher.go is never lost: until `Run` begins again for its
-- key, a worker is on its way there or owes a re-poke.
use durable.Base.{
  ℕ, ◌≤◌, ◌≡◌, ◌⊎◌, refl, subst, ◌∙◌, some_inj, Bool, true, false, ◌||◌, Option, none, some, List,
  [], ◌∷◌, Comparable, get_elem?, arith, inl, inr, Bool-cases, Option-cases,
}
use durable.Dispatcher.{
  Phase, starting, sleeping, cancelled, queuing, running, returned, redispatching, State, drop_at,
  Event, dispatches, wakes, cancels, starts, expires, awakes, aborts, enters, returns, clears,
  redispatches, dispatch, wake, start, rise, quit, leave, clear, work, work_at, place_of, step,
}
use durable.Dispatcher.Workers.{holds_slot, is_running}
use durable.Dispatcher.Invariant.{IsValid, dispatch-IsValid, wake-IsValid}
use durable.Dispatcher.Owed.{
  owed, Keeps, begins, never, dispatch-Keeps, dispatch-owed, start-Keeps, rise-Keeps, abort-Keeps,
  enter-Keeps, leave-Keeps, clear-Keeps, redispatch-Keeps, quit-Keeps, cancelled-done,
}

module _ {K : Type 0} ⦃kc : Comparable K⦄ where
  module _ (s t : State K) (v : IsValid s) where
    -- A result that is given is the one.
    given : (u : State K) (b : K → Bool) → some u ≡ some t → Keeps s u b → Keeps s t b
    given u b e h = subst (λ x. Keeps s x b) (some_inj e) h

    work-Keeps :
        (e : Event K) (i : ℕ) (k : K) (p : Phase)
        → place_of e ≡ some i
        → get_elem? s.workers i ≡ some (k, p)
        → work s e i (k, p) ≡ some t
        → Keeps s t (begins s e)
    unfolding work place_of holds_slot is_running
    work-Keeps (starts j) i k (starting d) o h e =
        given (start s i k d) never e (start-Keeps s i k v d h)
    work-Keeps (expires j) i k sleeping o h e =
        given (rise s i k queuing) never e (rise-Keeps s i k v h)
    work-Keeps (awakes j) i k sleeping o h e =
        given (rise s i k queuing) never (ground arith) (rise-Keeps s i k v h)
    work-Keeps (aborts j) i k sleeping o h e =
        given (rise s i k cancelled) never (ground arith) (abort-Keeps s i k v (ground arith) h)
    work-Keeps (aborts j) i k queuing o h e =
        given (quit s i k) never (ground arith)
          (quit-Keeps s i k v queuing (ground arith) h refl refl)
    work-Keeps (enters j) i k queuing o h e =
        subst (λ n. Keeps s t (begins s (enters n))) (ground arith) (enter-Keeps s i k v t h e)
    work-Keeps (returns j d again) i k running o h e =
        given (leave s i k d again) never e (leave-Keeps s i k v d again h)
    work-Keeps (clears j) i k (returned d again) o h e =
        given (clear s i k d again) never e (clear-Keeps s i k v d again h)
    work-Keeps (clears j) i k cancelled o h e =
        given (quit s i k) never e
          (quit-Keeps s i k v cancelled (cancelled-done s i k v h) h refl refl)
    work-Keeps (redispatches j) i k (redispatching d) o h e =
        given (dispatch (record s { workers = drop_at s.workers i }) k d) never e
          (redispatch-Keeps s i k v d h)
    work-Keeps e i k p o h x = absurd (ground arith)

    work_at-Keeps :
        (e : Event K) (i : ℕ)
        → place_of e ≡ some i
        → work_at s e i ≡ some t
        → Keeps s t (begins s e)
    unfolding work_at
    work_at-Keeps e i o h = elim (Option-cases (get_elem? s.workers i)) [
      | inl n ↦ absurd (ground arith)
      | inr (w, n) ↦ work-Keeps e i w.0 w.1 o n (ground arith)
    ]

    pub step-Keeps : (e : Event K) → step s e ≡ some t → Keeps s t (begins s e)
    unfolding step wake place_of
    step-Keeps (dispatches k d) h = given (dispatch s k d) never h (dispatch-Keeps s k d v)
    step-Keeps (wakes k) h =
        given (wake s k) never h
          (record { valid = wake-IsValid s k v; ends = λ x. x; size = refl; owes = λ j n b o. o })
    step-Keeps cancels h =
        let u : State K = record s { is_done = true } in
        let uv : IsValid u = record {
          slots = v.slots;
          pokes = v.pokes;
          armed = v.armed;
          taken = v.taken;
          halts = λ e. refl;
          bounded = v.bounded;
        } in
        given u never h (record {
          valid = uv;
          ends = λ x. refl;
          size = refl;
          owes = λ j n b o. absurd (ground arith);
        })
    step-Keeps (starts i) h = work_at-Keeps (starts i) i refl h
    step-Keeps (expires i) h = work_at-Keeps (expires i) i refl h
    step-Keeps (awakes i) h = work_at-Keeps (awakes i) i refl h
    step-Keeps (aborts i) h = work_at-Keeps (aborts i) i refl h
    step-Keeps (enters i) h = work_at-Keeps (enters i) i refl h
    step-Keeps (returns i d again) h = work_at-Keeps (returns i d again) i refl h
    step-Keeps (clears i) h = work_at-Keeps (clears i) i refl h
    step-Keeps (redispatches i) h = work_at-Keeps (redispatches i) i refl h

module _ {K : Type 0} ⦃kc : Comparable K⦄ where
  unfoldable pub run : State K → List (Event K) → Option (State K)
  run s [] = some s
  run s (e ∷ es) = elim (step s e) [ none ↦ none | some t ↦ run t es ]

  -- Whether `Run` begins for the key within the history.
  unfoldable pub begins_in : State K → List (Event K) → K → Bool
  begins_in s [] k = false
  begins_in s (e ∷ es) k = elim (step s e) [
    | none ↦ false
    | some t ↦ begins s e k || begins_in t es k
  ]

  pub run-owed :
      (s t : State K) (es : List (Event K)) (k : K)
      → IsValid s
      → run s es ≡ some t
      → IsValid t
        × (s.is_done ≡ true → t.is_done ≡ true)
        × (t.concurrency ≡ s.concurrency)
        × (t.is_done ≡ false → begins_in s es k ≡ false → 1 ≤ owed s k → 1 ≤ owed t k)
  unfolding run begins_in
  run-owed s t [] k v h =
      subst
        (λ x.
          IsValid x
          × (s.is_done ≡ true → x.is_done ≡ true)
          × (x.concurrency ≡ s.concurrency)
          × (x.is_done ≡ false → false ≡ false → 1 ≤ owed s k → 1 ≤ owed x k))
        (some_inj h) (v, λ e. e, refl, λ n b o. o)
  run-owed s t (e ∷ es) k v h = elim (Option-cases (step s e)) [
    | inl n ↦ absurd (ground arith)
    | inr (u, n) ↦
        let now = step-Keeps s u v e n in
        let later = run-owed u t es k now.valid (ground arith) in
        (
          later.0,
          λ d. later.1 (now.ends d),
          later.2 ∙ now.size,
          λ d b o. later.3 d (ground arith) (now.owes k (ground (arith, later.1)) (ground arith) o),
        )
  ]

  -- Let Dispatch be called for a key in a valid state of the dispatcher. However the goroutines
  -- run from there, other calls of Dispatch and Wake among them, there is then a goroutine of
  -- the key on its way to Run or a re-poke recorded for it, or else Run has begun for the key
  -- since, or the context is done: a dispatch that meets a worker between its last decision and
  -- its exit is not lost.
  pub dispatch-owed_until :
      (s t : State K) (es : List (Event K)) (k : K) (d : ℕ)
      → IsValid s
      → run (dispatch s k d) es ≡ some t
      → (1 ≤ owed t k) ⊎ (begins_in (dispatch s k d) es k ≡ true) ⊎ (t.is_done ≡ true)
  dispatch-owed_until s t es k d v h =
      let r = run-owed (dispatch s k d) t es k (dispatch-IsValid s k d v) h in
      elim (Bool-cases t.is_done) [
        | inl done ↦ inr (inr done)
        | inr live ↦ elim (Bool-cases (begins_in (dispatch s k d) es k)) [
          | inl began ↦ inr (inl began)
          | inr not_yet ↦ inl (r.3 live not_yet (dispatch-owed s k d))
        ]
      ]
