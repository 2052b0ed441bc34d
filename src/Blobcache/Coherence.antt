-- ===== src/Blobcache/Coherence.antt =====
-- Histories of calls of store/bbolt/blobcache.go: what the cache serves is what was saved.
use durable.Base.{
  ℕ, ◌+◌, ◌≡◌, ◌≢◌, ◌⊎◌, refl, sym, ◌∙◌, subst, true, false, some, List, [], ◌∷◌, String_comparable,
  ◌≟◌, ite, if◌then◌else◌, length, leb, contains, All, arith, inl, inr, ◌-◌,
}
use durable.Base.Map.{get, put, delete, IsMap, get-put, get-delete}
use durable.Kernel.{RunId, StepId}
use durable.Driver.{Bytes}
use durable.Blobcache.{
  RunBlobs, BlobCache, blank, unlink, evict, rewritten, set_input, set_state, set_output, fill,
  drop_run, lookup,
}
use durable.Blobcache.Entries.{ids, unlink-All, evict_back-All, contains-unlink}
use durable.Blobcache.Invariant.{
  IsValid, set_input-IsValid, set_state-IsValid, set_output-IsValid, fill-IsValid, drop_run-IsValid,
  lookup-IsValid,
}

-- The blobs of the runs on file.
pub record File : Type 0 where
  pub input : RunId → Bytes
  pub state : RunId → StepId → Bytes
  pub output : RunId → Bytes

pub data Call : Type 0 where
  puts_input : RunId → Bytes → Call
  puts_state : RunId → StepId → Bytes → Call
  puts_output : RunId → Bytes → Call
  fills : RunId → RunBlobs → Call
  drops : RunId → Call
  uses : RunId → Call

unfoldable pub step : BlobCache → Call → BlobCache
step c (puts_input id b) = set_input c id b
step c (puts_state id s b) = set_state c id s b
step c (puts_output id b) = set_output c id b
step c (fills id rb) = fill c id rb
step c (drops id) = drop_run c id
step c (uses id) = (lookup c id).0

-- The file with a blob of a run written.
unfoldable pub with_input : File → RunId → Bytes → File
with_input f id b = record f { input = λ j. ite (id ≟ j) b (f.input j) }

unfoldable pub with_output : File → RunId → Bytes → File
with_output f id b = record f { output = λ j. ite (id ≟ j) b (f.output j) }

unfoldable pub with_state : File → RunId → StepId → Bytes → File
with_state f id s b = record f {
  state = λ j t. ite (id ≟ j) (ite (s ≟ t) b (f.state j t)) (f.state j t);
}

-- The file when the call is made: an empty input or output is not written.
unfoldable pub saved : File → Call → File
saved f (puts_input id b) = if leb (length b) 0 then f else with_input f id b
saved f (puts_state id s b) = with_state f id s b
saved f (puts_output id b) = if leb (length b) 0 then f else with_output f id b
saved f (fills id rb) = f
saved f (drops id) = f
saved f (uses id) = f

-- A value is absent or the one on file.
abbrev pub IsTrue : Bytes → Bytes → Type 0
IsTrue b file = (b ≡ []) ⊎ (b ≡ file)

-- The entry has nothing that is not on file.
pub record Honest (f : File) (rb : RunBlobs) : Type 0 where
  pub input : IsTrue rb.input (f.input rb.id)
  pub state : (s : StepId) (b : Bytes) → get rb.states s ≡ some b → b ≡ f.state rb.id s
  pub output : IsTrue rb.output (f.output rb.id)

pub blank-Honest : (f : File) (id : RunId) → Honest f (blank id)
unfolding get
blank-Honest f id = record {
  input = inl refl;
  state = λ s b e. absurd (ground (arith, e));
  output = inl refl;
}

-- The caller fills a run with its blobs on file, under distinct steps.
abbrev pub IsFilled : File → Call → Type 0
IsFilled f (puts_input id b) = Unit {0}
IsFilled f (puts_state id s b) = Unit {0}
IsFilled f (puts_output id b) = Unit {0}
IsFilled f (fills id rb) = IsMap rb.states × Honest f (record rb { id = id })
IsFilled f (drops id) = Unit {0}
IsFilled f (uses id) = Unit {0}

pub step-IsValid :
    (f : File) (c : BlobCache) (k : Call) → IsFilled f k → IsValid c → IsValid (step c k)
unfolding step
step-IsValid f c (puts_input id b) h v = set_input-IsValid c id b v
step-IsValid f c (puts_state id s b) h v = set_state-IsValid c id s b v
step-IsValid f c (puts_output id b) h v = set_output-IsValid c id b v
step-IsValid f c (fills id rb) h v = fill-IsValid c id rb h.0 v
step-IsValid f c (drops id) h v = drop_run-IsValid c id v
step-IsValid f c (uses id) h v = lookup-IsValid c id v

pub sized-Honest :
    (f : File) (rb : RunBlobs) (n : ℕ) → Honest f rb → Honest f (record rb { size = n })
sized-Honest f rb n h = record { input = h.input; state = h.state; output = h.output }

All-else :
    (f g : File) (rbs : List RunBlobs) (id : RunId)
    → contains (ids rbs) id ≡ false
    → ((x : RunBlobs) → x.id ≢ id → Honest f x → Honest g x)
    → All (Honest f) rbs
    → All (Honest g) rbs
unfolding contains
All-else f g [] id h k a = tt
All-else f g (x ∷ rbs) id h k a =
    (k x (λ p. ground arith) a.0, All-else f g rbs id (ground arith) k a.1)

pub rewritten-Honest :
    (f g : File) (c : BlobCache) (id : RunId) (rb : RunBlobs) (less more : ℕ)
    → IsValid c
    → rb.id ≡ id
    → Honest g rb
    → ((x : RunBlobs) → x.id ≢ id → Honest f x → Honest g x)
    → All (Honest f) c.order
    → All (Honest g) (rewritten c rb less more).order
rewritten-Honest f g c id rb less more v p h k a =
    let gone : contains (ids (unlink c.order rb.id)) id ≡ false =
      rw p (ground (arith, contains-unlink c.order id id v.distinct)) in
    (
      sized-Honest g rb (rb.size - less + more) h,
      All-else f g (unlink c.order rb.id) id gone k (unlink-All (Honest f) c.order rb.id a),
    )

pub evict-Honest :
    (g : File) (c : BlobCache) → All (Honest g) c.order → All (Honest g) (evict c).order
unfolding evict
evict-Honest g c a = evict_back-All (Honest g) c.limit c.order c.size a

-- A cache that is turned off has no entry.
pub off-Honest :
    (g : File) (c : BlobCache) → IsValid c → leb c.limit 0 ≡ true → All (Honest g) c.order
off-Honest g c v l = rw (v.disabled l) tt

pub with_input-else :
    (f : File) (id : RunId) (b : Bytes) (x : RunBlobs)
    → x.id ≢ id
    → Honest f x
    → Honest (with_input f id b) x
unfolding with_input
with_input-else f id b x n h =
    let e : ite (id ≟ x.id) b (f.input x.id) ≡ f.input x.id = ground (arith, n) in
    record { input = subst (IsTrue x.input) (sym e) h.input; state = h.state; output = h.output }

pub with_output-else :
    (f : File) (id : RunId) (b : Bytes) (x : RunBlobs)
    → x.id ≢ id
    → Honest f x
    → Honest (with_output f id b) x
unfolding with_output
with_output-else f id b x n h =
    let e : ite (id ≟ x.id) b (f.output x.id) ≡ f.output x.id = ground (arith, n) in
    record { input = h.input; state = h.state; output = subst (IsTrue x.output) (sym e) h.output }

pub with_state-else :
    (f : File) (id : RunId) (s : StepId) (b : Bytes) (x : RunBlobs)
    → x.id ≢ id
    → Honest f x
    → Honest (with_state f id s b) x
unfolding with_state
with_state-else f id s b x n h = record {
  input = h.input;
  state = λ t d e. h.state t d e ∙ ground (arith, n);
  output = h.output;
}

pub with_input-here :
    (f : File) (id : RunId) (b : Bytes) (rb : RunBlobs)
    → rb.id ≡ id
    → Honest f rb
    → Honest (with_input f id b) (record rb { input = b })
unfolding with_input
with_input-here f id b rb p h = record {
  input = inr (ground arith);
  state = h.state;
  output = h.output;
}

pub with_output-here :
    (f : File) (id : RunId) (b : Bytes) (rb : RunBlobs)
    → rb.id ≡ id
    → Honest f rb
    → Honest (with_output f id b) (record rb { output = b })
unfolding with_output
with_output-here f id b rb p h = record {
  input = h.input;
  state = h.state;
  output = inr (ground arith);
}

pub with_state-here :
    (f : File) (id : RunId) (s : StepId) (b : Bytes) (rb : RunBlobs)
    → rb.id ≡ id
    → Honest f rb
    → Honest (with_state f id s b) (record rb { states = put (delete rb.states s) s b })
unfolding with_state
with_state-here f id s b rb p h = record {
  input = h.input;
  state = λ t d e. elim (s ≟ t) [
    | yes q ↦ ground (arith, e, get-put (delete rb.states s) s b t)
    | no n ↦
        let old : get rb.states t ≡ some d =
          ground (arith, e, n, get-put (delete rb.states s) s b t, get-delete rb.states s t) in
        h.state t d old ∙ ground (arith, n)
  ];
  output = h.output;
}

pub with_no_state-here :
    (f : File) (id : RunId) (s : StepId) (b : Bytes) (rb : RunBlobs)
    → rb.id ≡ id
    → Honest f rb
    → Honest (with_state f id s b) (record rb { states = delete rb.states s })
unfolding with_state
with_no_state-here f id s b rb p h = record {
  input = h.input;
  state = λ t d e. elim (s ≟ t) [
    | yes q ↦ absurd (ground (arith, e, get-delete rb.states s t))
    | no n ↦
        let old : get rb.states t ≡ some d = ground (arith, e, n, get-delete rb.states s t) in
        h.state t d old ∙ ground (arith, n)
  ];
  output = h.output;
}
