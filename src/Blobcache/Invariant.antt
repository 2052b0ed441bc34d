-- ===== src/Blobcache/Invariant.antt =====
-- The size of store/bbolt/blobcache.go is that of its entries, and within the limit.
use durable.Base.{
  ℕ, ◌+◌, ◌-◌, ◌≤◌, ◌≡◌, ◌≢◌, refl, sym, ◌∙◌, ap, true, false, none, some, List, [], ◌∷◌,
  String_comparable, length, leb, is_some, contains, IsDistinct, All, arith, Bool-cases,
  Option-cases, inl, inr,
}
use durable.Base.Map.{Map, get, put, delete, IsMap, put-IsMap, delete-IsMap, get-delete, keys}
use durable.Kernel.{RunId, StepId}
use durable.Driver.{Bytes}
use durable.Blobcache.{
  RunBlobs, BlobCache, new, blank, find, touched, evict, rewritten, old_length, set_input,
  set_state, set_output, states_length, need, fill, drop_run, lookup,
}
use durable.Blobcache.Entries.{
  ids, total, find-id, contains-ids, total-unlink, contains-unlink, unlink-IsDistinct, unlink-All,
  find-All, evict_back-Evicts, evict_back-All,
}

-- The size of an entry is that of its blobs.
abbrev pub IsWeighed : RunBlobs → Type 0
IsWeighed rb = (rb.size ≡ need rb) × IsMap rb.states

pub record IsValid (c : BlobCache) : Type 0 where
  pub distinct : IsDistinct (ids c.order)
  pub counted : c.size ≡ total c.order
  pub weighed : All IsWeighed c.order
  pub bounded : c.size ≤ c.limit
  pub disabled : leb c.limit 0 ≡ true → c.order ≡ []

pub new-IsValid : (limit : ℕ) → IsValid (new limit)
new-IsValid limit = record {
  distinct = tt;
  counted = refl;
  weighed = tt;
  bounded = omega arith;
  disabled = λ h. refl;
}

pub evict-IsValid :
    (c : BlobCache)
    → IsDistinct (ids c.order)
    → c.size ≡ total c.order
    → All IsWeighed c.order
    → leb c.limit 0 ≡ false
    → IsValid (evict c)
unfolding evict
evict-IsValid c d e w l =
    let i = evict_back-Evicts c.limit 0 c.order c.size (omega (arith, e)) d in
    record {
      distinct = i.distinct;
      counted = omega (arith, i.counted);
      weighed = evict_back-All IsWeighed c.limit c.order c.size w;
      bounded = ground (arith, i.counted, i.bounded);
      disabled = λ h. ground (arith, h, l);
    }

pub touched-id : (rbs : List RunBlobs) (id : RunId) → (touched rbs id).id ≡ id
unfolding touched
touched-id rbs id = elim (Option-cases (find rbs id)) [
  | inl e ↦ rw (e, touched) refl
  | inr (rb, e) ↦ rw (e, touched) (find-id rbs id rb e)
]

pub touched-All :
    (P : RunBlobs → Type 0) (rbs : List RunBlobs) (id : RunId)
    → P (blank id)
    → All P rbs
    → P (touched rbs id)
unfolding touched
touched-All P rbs id b a = elim (Option-cases (find rbs id)) [
  | inl e ↦ rw (e, touched) b
  | inr (rb, e) ↦ rw (e, touched) (find-All P rbs id rb a e)
]

touched-IsWeighed :
    (rbs : List RunBlobs) (id : RunId) → All IsWeighed rbs → IsWeighed (touched rbs id)
unfolding need states_length
touched-IsWeighed rbs id w = touched-All IsWeighed rbs id (refl, tt) w

-- The entries with a changed one in front of the others make up the size.
record Fits (c : BlobCache) : Type 0 where
  pub distinct : IsDistinct (ids c.order)
  pub counted : c.size ≡ total c.order
  pub weighed : All IsWeighed c.order

rewritten-Fits :
    (c : BlobCache) (id : RunId) (rb : RunBlobs) (less more : ℕ)
    → IsValid c
    → rb.id ≡ id
    → rb.size ≡ (touched c.order id).size
    → less ≤ rb.size
    → need rb ≡ rb.size - less + more
    → IsMap rb.states
    → Fits (rewritten c rb less more)
unfolding need
rewritten-Fits c id rb less more v p e l w m = record {
  distinct = (
    ground (arith, contains-unlink c.order rb.id rb.id v.distinct),
    unlink-IsDistinct c.order rb.id v.distinct,
  );
  counted = rw p (omega (arith, v.counted, total-unlink c.order id, e, l));
  weighed = ((sym w, m), unlink-All IsWeighed c.order rb.id v.weighed);
}

Fits-evict : (c : BlobCache) → Fits c → leb c.limit 0 ≡ false → IsValid (evict c)
Fits-evict c f l = evict-IsValid c f.distinct f.counted f.weighed l

input-Fits :
    (c : BlobCache) (id : RunId) (b : Bytes)
    → IsValid c
    → Fits (
        rewritten c
          (record (touched c.order id) { input = b })
          (length (touched c.order id).input)
          (length b))
unfolding need
input-Fits c id b v =
    let rb = touched c.order id in
    let w = touched-IsWeighed c.order id v.weighed in
    rewritten-Fits c id (record rb { input = b }) (length rb.input) (length b) v
      (touched-id c.order id) refl (omega (arith, w.0)) (omega (arith, w.0)) w.1

output-Fits :
    (c : BlobCache) (id : RunId) (b : Bytes)
    → IsValid c
    → Fits (
        rewritten c
          (record (touched c.order id) { output = b })
          (length (touched c.order id).output)
          (length b))
unfolding need
output-Fits c id b v =
    let rb = touched c.order id in
    let w = touched-IsWeighed c.order id v.weighed in
    rewritten-Fits c id (record rb { output = b }) (length rb.output) (length b) v
      (touched-id c.order id) refl (omega (arith, w.0)) (omega (arith, w.0)) w.1

states_length-absent :
    (m : Map StepId Bytes) (step : StepId)
    → contains (keys m) step ≡ false
    → states_length (delete m step) ≡ states_length m
unfolding states_length delete contains
states_length-absent [] step h = refl
states_length-absent ((i, b) ∷ m) step h = ground (arith, states_length-absent m step)

states_length-delete :
    (m : Map StepId Bytes) (step : StepId)
    → IsMap m
    → states_length (delete m step) + old_length m step ≡ states_length m
unfolding states_length delete old_length get
states_length-delete [] step d = refl
states_length-delete ((i, b) ∷ m) step d =
    ground (arith, states_length-delete m step d.1, states_length-absent m i d.0)

states_length-put :
    (m : Map StepId Bytes) (step : StepId) (b : Bytes)
    → get m step ≡ none
    → states_length (put m step b) ≡ states_length m + length b
unfolding states_length put get
states_length-put [] step b h = omega arith
states_length-put ((i, a) ∷ m) step b h = ground (arith, states_length-put m step b)

state-Fits :
    (c : BlobCache) (id : RunId) (step : StepId) (b : Bytes)
    → IsValid c
    → (let rb = touched c.order id in
        Fits (
          rewritten c
            (record rb { states = put (delete rb.states step) step b })
            (old_length rb.states step)
            (length b)))
unfolding need
state-Fits c id step b v =
    let rb = touched c.order id in
    let w = touched-IsWeighed c.order id v.weighed in
    let m = delete rb.states step in
    let gone : get m step ≡ none = ground (arith, get-delete rb.states step step) in
    rewritten-Fits c id (record rb { states = put m step b }) (old_length rb.states step) (length b)
      v (touched-id c.order id) refl (omega (arith, w.0, states_length-delete rb.states step w.1))
      (omega (arith, w.0, states_length-delete rb.states step w.1, states_length-put m step b gone))
      (put-IsMap m step b (delete-IsMap rb.states step w.1))

no_state-Fits :
    (c : BlobCache) (id : RunId) (step : StepId)
    → IsValid c
    → (let rb = touched c.order id in
        Fits (
          rewritten c (record rb { states = delete rb.states step }) (old_length rb.states step) 0))
unfolding need
no_state-Fits c id step v =
    let rb = touched c.order id in
    let w = touched-IsWeighed c.order id v.weighed in
    rewritten-Fits c id (record rb { states = delete rb.states step }) (old_length rb.states step) 0
      v (touched-id c.order id) refl (omega (arith, w.0, states_length-delete rb.states step w.1))
      (omega (arith, w.0, states_length-delete rb.states step w.1))
      (delete-IsMap rb.states step w.1)

pub set_input-IsValid :
    (c : BlobCache) (id : RunId) (b : Bytes) → IsValid c → IsValid (set_input c id b)
unfolding set_input
set_input-IsValid c id b v = elim (Bool-cases (leb (length b) 0)) [
  | inl e ↦ rw e v
  | inr e ↦ elim (Bool-cases (leb c.limit 0)) [
    | inl l ↦ rw e (rw l v)
    | inr l ↦ rw e (rw l (Fits-evict _ (input-Fits c id b v) l))
  ]
]

pub set_output-IsValid :
    (c : BlobCache) (id : RunId) (b : Bytes) → IsValid c → IsValid (set_output c id b)
unfolding set_output
set_output-IsValid c id b v = elim (Bool-cases (leb (length b) 0)) [
  | inl e ↦ rw e v
  | inr e ↦ elim (Bool-cases (leb c.limit 0)) [
    | inl l ↦ rw e (rw l v)
    | inr l ↦ rw e (rw l (Fits-evict _ (output-Fits c id b v) l))
  ]
]

pub set_state-IsValid :
    (c : BlobCache) (id : RunId) (step : StepId) (b : Bytes)
    → IsValid c
    → IsValid (set_state c id step b)
unfolding set_state
set_state-IsValid c id step b v = elim (Bool-cases (leb c.limit 0)) [
  | inl l ↦ rw l v
  | inr l ↦ elim (Bool-cases (leb (length b) 0)) [
    | inr e ↦ rw l (rw e (Fits-evict _ (state-Fits c id step b v) l))
    | inl e ↦
        let f = no_state-Fits c id step v in
        rw l (
          rw e (record {
            distinct = f.distinct;
            counted = f.counted;
            weighed = f.weighed;
            bounded = omega (arith, v.bounded);
            disabled = λ h. ground (arith, h, l);
          }))
  ]
]

pub fill-IsValid :
    (c : BlobCache) (id : RunId) (rb : RunBlobs)
    → IsMap rb.states
    → IsValid c
    → IsValid (fill c id rb)
unfolding fill need
fill-IsValid c id rb m v = elim (Bool-cases (leb (need rb) 0)) [
  | inl n ↦ rw n v
  | inr n ↦ elim (Bool-cases (leb c.limit 0)) [
    | inl l ↦ rw n (rw l v)
    | inr l ↦ elim (Bool-cases (is_some (find c.order id))) [
      | inl f ↦ rw n (rw l (rw f v))
      | inr f ↦ rw n (
          rw l (
            rw f (
              evict-IsValid _ (contains-ids c.order id ∙ f, v.distinct) (omega (arith, v.counted))
                ((refl, m), v.weighed) l)))
    ]
  ]
]

touched-found :
    (rbs : List RunBlobs) (id : RunId) (rb : RunBlobs) → find rbs id ≡ some rb → touched rbs id ≡ rb
unfolding touched
touched-found rbs id rb e = rw (e, touched) refl

found-cons : (rbs : List RunBlobs) (id : RunId) (rb : RunBlobs) → find rbs id ≡ some rb → rbs ≢ []
unfolding find
found-cons rbs id rb e n = ground (arith, sym e ∙ ap (λ x. find x id) n)

pub drop_run-IsValid : (c : BlobCache) (id : RunId) → IsValid c → IsValid (drop_run c id)
unfolding drop_run
drop_run-IsValid c id v = elim (Option-cases (find c.order id)) [
  | inl e ↦ rw (e, drop_run) v
  | inr (rb, e) ↦
      let t = touched-found c.order id rb e in
      rw (e, drop_run)
        (record {
          distinct = unlink-IsDistinct c.order id v.distinct;
          counted = omega (arith, v.counted, total-unlink c.order id, ap (λ x. x.size) t);
          weighed = unlink-All IsWeighed c.order id v.weighed;
          bounded = omega (arith, v.bounded);
          disabled = λ h. absurd (found-cons c.order id rb e (v.disabled h));
        })
]

pub lookup-IsValid : (c : BlobCache) (id : RunId) → IsValid c → IsValid (lookup c id).0
unfolding lookup
lookup-IsValid c id v = elim (Option-cases (find c.order id)) [
  | inl e ↦ rw (e, lookup) v
  | inr (rb, e) ↦
      let t = touched-found c.order id rb e in
      let i = find-id c.order id rb e in
      rw (e, lookup)
        (record {
          distinct = (
            rw i (ground (arith, contains-unlink c.order id id v.distinct)),
            unlink-IsDistinct c.order id v.distinct,
          );
          counted = omega (arith, v.counted, total-unlink c.order id, ap (λ x. x.size) t);
          weighed = (
            find-All IsWeighed c.order id rb v.weighed e,
            unlink-All IsWeighed c.order id v.weighed,
          );
          bounded = v.bounded;
          disabled = λ h. absurd (found-cons c.order id rb e (v.disabled h));
        })
]
