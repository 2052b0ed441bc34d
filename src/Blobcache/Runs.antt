-- ===== src/Blobcache/Runs.antt =====
-- Histories of calls of store/bbolt/blobcache.go: the cache stays within its limit, and what it
-- serves is on file.
use durable.Base.{
  ℕ, ◌+◌, ◌-◌, ◌≡◌, refl, ◌∙◌, ap, subst, true, false, none, some, List, [], ◌∷◌, String_comparable,
  length, leb, is_some, All, arith, Bool-cases, Option-cases, inl, inr,
}
use durable.Base.Map.{get, delete}
use durable.Kernel.{RunId, StepId}
use durable.Driver.{Bytes}
use durable.Blobcache.{
  RunBlobs, BlobCache, new, blank, find, unlink, touched, rewritten, set_input, set_state,
  set_output, old_length, need, fill, drop_run, lookup, input, state, output,
}
use durable.Blobcache.Entries.{find-id, unlink-All, find-All}
use durable.Blobcache.Invariant.{IsValid, new-IsValid, touched-All, touched-id}
use durable.Blobcache.Coherence.{
  File, Call, puts_input, puts_state, puts_output, fills, drops, uses, step, saved, with_input,
  with_output, with_state, IsTrue, Honest, blank-Honest, IsFilled, step-IsValid, sized-Honest,
  rewritten-Honest, evict-Honest, off-Honest, with_input-else, with_output-else, with_state-else,
  with_input-here, with_output-here, with_state-here, with_no_state-here,
}

abbrev AllHonest : File → BlobCache → Type 0
AllHonest f c = All (Honest f) c.order

set_input-AllHonest :
    (f : File) (c : BlobCache) (id : RunId) (b : Bytes)
    → IsValid c
    → AllHonest f c
    → AllHonest (saved f (puts_input id b)) (set_input c id b)
unfolding set_input saved
set_input-AllHonest f c id b v a = elim (Bool-cases (leb (length b) 0)) [
  | inl e ↦ rw e a
  | inr e ↦ elim (Bool-cases (leb c.limit 0)) [
    | inl l ↦ rw e (rw l (off-Honest (with_input f id b) c v l))
    | inr l ↦
        let rb = touched c.order id in
        let h = touched-All (Honest f) c.order id (blank-Honest f id) a in
        let p = touched-id c.order id in
        let next = rewritten c (record rb { input = b }) (length rb.input) (length b) in
        rw e (
          rw l (
            evict-Honest (with_input f id b) next (
              rewritten-Honest f (with_input f id b) c id (record rb { input = b })
                (length rb.input) (length b) v p (with_input-here f id b rb p h)
                (with_input-else f id b) a)))
  ]
]

set_output-AllHonest :
    (f : File) (c : BlobCache) (id : RunId) (b : Bytes)
    → IsValid c
    → AllHonest f c
    → AllHonest (saved f (puts_output id b)) (set_output c id b)
unfolding set_output saved
set_output-AllHonest f c id b v a = elim (Bool-cases (leb (length b) 0)) [
  | inl e ↦ rw e a
  | inr e ↦ elim (Bool-cases (leb c.limit 0)) [
    | inl l ↦ rw e (rw l (off-Honest (with_output f id b) c v l))
    | inr l ↦
        let rb = touched c.order id in
        let h = touched-All (Honest f) c.order id (blank-Honest f id) a in
        let p = touched-id c.order id in
        let next = rewritten c (record rb { output = b }) (length rb.output) (length b) in
        rw e (
          rw l (
            evict-Honest (with_output f id b) next (
              rewritten-Honest f (with_output f id b) c id (record rb { output = b })
                (length rb.output) (length b) v p (with_output-here f id b rb p h)
                (with_output-else f id b) a)))
  ]
]

set_state-AllHonest :
    (f : File) (c : BlobCache) (id : RunId) (s : StepId) (b : Bytes)
    → IsValid c
    → AllHonest f c
    → AllHonest (saved f (puts_state id s b)) (set_state c id s b)
unfolding set_state saved
set_state-AllHonest f c id s b v a =
    let g = with_state f id s b in
    let rb = touched c.order id in
    let h = touched-All (Honest f) c.order id (blank-Honest f id) a in
    let p = touched-id c.order id in
    let less = old_length rb.states s in
    elim (Bool-cases (leb c.limit 0)) [
      | inl l ↦ rw l (off-Honest g c v l)
      | inr l ↦ elim (Bool-cases (leb (length b) 0)) [
        | inl e ↦ rw l (
            rw e (
              rewritten-Honest f g c id _ less 0 v p (with_no_state-here f id s b rb p h)
                (with_state-else f id s b) a))
        | inr e ↦ rw l (
            rw e (
              evict-Honest g _ (
                rewritten-Honest f g c id _ less (length b) v p (with_state-here f id s b rb p h)
                  (with_state-else f id s b) a)))
      ]
    ]

fill-AllHonest :
    (f : File) (c : BlobCache) (id : RunId) (rb : RunBlobs)
    → Honest f (record rb { id = id })
    → AllHonest f c
    → AllHonest f (fill c id rb)
unfolding fill
fill-AllHonest f c id rb h a = elim (Bool-cases (leb (need rb) 0)) [
  | inl n ↦ rw n a
  | inr n ↦ elim (Bool-cases (leb c.limit 0)) [
    | inl l ↦ rw n (rw l a)
    | inr l ↦ elim (Bool-cases (is_some (find c.order id))) [
      | inl e ↦ rw n (rw l (rw e a))
      | inr e ↦
          rw n
            (rw l (rw e (evict-Honest f _ (sized-Honest f (record rb { id = id }) (need rb) h, a))))
    ]
  ]
]

drop_run-AllHonest :
    (f : File) (c : BlobCache) (id : RunId) → AllHonest f c → AllHonest f (drop_run c id)
unfolding drop_run
drop_run-AllHonest f c id a = elim (Option-cases (find c.order id)) [
  | inl e ↦ rw (e, drop_run) a
  | inr (rb, e) ↦ rw (e, drop_run) (unlink-All (Honest f) c.order id a)
]

lookup-AllHonest :
    (f : File) (c : BlobCache) (id : RunId) → AllHonest f c → AllHonest f (lookup c id).0
unfolding lookup
lookup-AllHonest f c id a = elim (Option-cases (find c.order id)) [
  | inl e ↦ rw (e, lookup) a
  | inr (rb, e) ↦
      rw (e, lookup) (find-All (Honest f) c.order id rb a e, unlink-All (Honest f) c.order id a)
]

step-AllHonest :
    (f : File) (c : BlobCache) (k : Call)
    → IsFilled f k
    → IsValid c
    → AllHonest f c
    → AllHonest (saved f k) (step c k)
unfolding step saved
step-AllHonest f c (puts_input id b) h v a = set_input-AllHonest f c id b v a
step-AllHonest f c (puts_state id s b) h v a = set_state-AllHonest f c id s b v a
step-AllHonest f c (puts_output id b) h v a = set_output-AllHonest f c id b v a
step-AllHonest f c (fills id rb) h v a = fill-AllHonest f c id rb h.1 a
step-AllHonest f c (drops id) h v a = drop_run-AllHonest f c id a
step-AllHonest f c (uses id) h v a = lookup-AllHonest f c id a

unfoldable pub run : BlobCache → List Call → BlobCache
run c [] = c
run c (k ∷ ks) = run (step c k) ks

unfoldable pub saved_all : File → List Call → File
saved_all f [] = f
saved_all f (k ∷ ks) = saved_all (saved f k) ks

abbrev pub AreFilled : File → List Call → Type 0
AreFilled f [] = Unit {0}
AreFilled f (k ∷ ks) = IsFilled f k × AreFilled (saved f k) ks

run-IsValid :
    (ks : List Call) (f : File) (c : BlobCache)
    → AreFilled f ks
    → IsValid c
    → AllHonest f c
    → IsValid (run c ks) × AllHonest (saved_all f ks) (run c ks)
unfolding run saved_all
run-IsValid [] f c h v a = (v, a)
run-IsValid (k ∷ ks) f c h v a =
    run-IsValid ks (saved f k) (step c k) h.1 (step-IsValid f c k h.0 v)
      (step-AllHonest f c k h.0 v a)

-- What the cache says of a run is on file.
abbrev pub Serves : File → BlobCache → RunId → StepId → Type 0
Serves f c id s =
    IsTrue (input c id).0 (f.input id)
    × IsTrue (state c id s) (f.state id s)
    × IsTrue (output c id) (f.output id)

lookup-find : (c : BlobCache) (id : RunId) → (lookup c id).1 ≡ find c.order id
unfolding lookup
lookup-find c id = elim (Option-cases (find c.order id)) [
  | inl e ↦ rw (e, lookup) refl
  | inr (rb, e) ↦ rw (e, lookup) refl
]

state-IsTrue :
    (f : File) (c : BlobCache) (id : RunId) (s : StepId) (rb : RunBlobs)
    → (lookup c id).1 ≡ some rb
    → rb.id ≡ id
    → Honest f rb
    → IsTrue (state c id s) (f.state id s)
unfolding state
state-IsTrue f c id s rb l p h = elim (Option-cases (get rb.states s)) [
  | inl e ↦ rw (l, state) (rw e (inl refl))
  | inr (b, e) ↦ rw (l, state) (rw e (inr (h.state s b e ∙ ap (λ j. f.state j s) p)))
]

AllHonest-Serves :
    (f : File) (c : BlobCache) (id : RunId) (s : StepId) → AllHonest f c → Serves f c id s
unfolding input state output
AllHonest-Serves f c id s a = elim (Option-cases (find c.order id)) [
  | inl e ↦
      let l = lookup-find c id ∙ e in
      (rw (l, input) (inl refl), rw (l, state) (inl refl), rw (l, output) (inl refl))
  | inr (rb, e) ↦
      let h = find-All (Honest f) c.order id rb a e in
      let p = find-id c.order id rb e in
      let l = lookup-find c id ∙ e in
      (
        rw (l, input) (subst (λ j. IsTrue rb.input (f.input j)) p h.input),
        state-IsTrue f c id s rb l p h,
        rw (l, output) (subst (λ j. IsTrue rb.output (f.output j)) p h.output),
      )
]

-- Let a history of calls of the blob cache of the bbolt store start with an empty cache, where a
-- fill brings a run with its blobs on file. Then the cache is valid after it: its size is the sum
-- of its entries, each entry counts the bytes of its blobs, the size is within the limit, and no
-- run has two entries. For every run and step, the cache serves nothing or what was last written
-- of the input, the state and the output.
pub run-Serves :
    (limit : ℕ) (f : File) (ks : List Call) (id : RunId) (s : StepId)
    → AreFilled f ks
    → IsValid (run (new limit) ks) × Serves (saved_all f ks) (run (new limit) ks) id s
run-Serves limit f ks id s h =
    let r = run-IsValid ks f (new limit) h (new-IsValid limit) tt in
    (r.0, AllHonest-Serves (saved_all f ks) (run (new limit) ks) id s r.1)

find-first : (rb : RunBlobs) (rbs : List RunBlobs) → find (rb ∷ rbs) rb.id ≡ some rb
unfolding find
find-first rb rbs = ground arith

fill-cached :
    (c : BlobCache) (id : RunId) (rb : RunBlobs)
    → is_some (find c.order id) ≡ true
    → fill c id rb ≡ c
unfolding fill
fill-cached c id rb h = elim (Bool-cases (leb (need rb) 0)) [
  | inl n ↦ rw n refl
  | inr n ↦ elim (Bool-cases (leb c.limit 0)) [
    | inl l ↦ rw n (rw l refl)
    | inr l ↦ rw n (rw l (rw h refl))
  ]
]

-- In a blob cache with a limit, a run that is not cached and of which an empty state is set
-- counts as cached afterwards, without input, and a fill with its blobs from the file changes
-- nothing.
pub set_state-fill :
    (c : BlobCache) (id : RunId) (s : StepId) (rb : RunBlobs)
    → leb c.limit 0 ≡ false
    → find c.order id ≡ none
    → (input (set_state c id s []) id ≡ ([], true))
      × (fill (set_state c id s []) id rb ≡ set_state c id s [])
unfolding set_state touched old_length input delete get
set_state-fill c id s rb l e =
    let rest = unlink c.order id in
    let d : BlobCache = record c { order = blank id ∷ rest; size = c.size - 0 + 0 } in
    let q : set_state c id s [] ≡ d = rw (l, set_state) (rw (e, touched) refl) in
    let g : find d.order id ≡ some (blank id) = find-first (blank id) rest in
    rw q (rw (lookup-find d id ∙ g, input) refl, fill-cached d id rb (ap is_some g))
