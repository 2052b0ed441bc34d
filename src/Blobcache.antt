-- ===== src/Blobcache.antt =====
-- store/bbolt/blobcache.go: the cache of the blobs of runs, least recently used first out. The list
-- `order` has the entries, the most recently used first; `byID` is the index of it by the id of the
-- run, here a search of the list. Sizes and the limit are natural numbers, a negative limit acting
-- as 0, and no subtraction in a valid cache goes below 0. A nil slice is the empty one.
pub mod Entries
pub mod Invariant
pub mod Coherence
pub mod Runs
mod Tests
use durable.Base.{
  ℕ, ◌+◌, ◌-◌, Bool, true, false, Option, none, some, List, [], ◌∷◌, String_comparable, ◌≟◌, ite,
  if◌then◌else◌, length, leb, ltb, is_some,
}
use durable.Base.Map.{Map, get, put, delete}
use durable.Kernel.{RunId, StepId}
use durable.Driver.{Bytes}

pub record RunBlobs : Type 0 where
  pub id : RunId
  pub input : Bytes
  pub states : Map StepId Bytes
  pub output : Bytes
  pub size : ℕ

pub record BlobCache : Type 0 where
  pub order : List RunBlobs
  pub size : ℕ
  pub limit : ℕ

abbrev pub new : ℕ → BlobCache
new limit = record { order = []; size = 0; limit = limit }

-- `byID[id]`
unfoldable pub find : List RunBlobs → RunId → Option RunBlobs
find [] id = none
find (rb ∷ rbs) id = ite (rb.id ≟ id) (some rb) (find rbs id)

-- The list without the element of the id.
unfoldable pub unlink : List RunBlobs → RunId → List RunBlobs
unlink [] id = []
unlink (rb ∷ rbs) id = ite (rb.id ≟ id) rbs (rb ∷ unlink rbs id)

abbrev pub blank : RunId → RunBlobs
blank id = record { id = id; input = []; states = []; output = []; size = 0 }

-- The entry that `touch` returns, found or new; it stands at the front of the others then.
unfoldable pub touched : List RunBlobs → RunId → RunBlobs
touched order id = elim (find order id) [ none ↦ blank id | some rb ↦ rb ]

-- The loop of `evict`, which drops entries from the back. The one being written stands at the front.
unfoldable pub evict_back : ℕ → List RunBlobs → ℕ → List RunBlobs × ℕ
evict_back limit [] size = ([], size)
evict_back limit (rb ∷ rbs) size =
    let (kept, left) = evict_back limit rbs size in
    if ltb limit left then ([], left - rb.size) else (rb ∷ kept, left)

unfoldable pub evict : BlobCache → BlobCache
evict c = let e = evict_back c.limit c.order c.size in record c { order = e.0; size = e.1 }

-- The cache with the entry at the front, changed, and the size with the change.
abbrev pub rewritten : BlobCache → RunBlobs → ℕ → ℕ → BlobCache
rewritten c rb less more = record c {
  order = record rb { size = rb.size - less + more } ∷ unlink c.order rb.id;
  size = c.size - less + more;
}

unfoldable pub set_input : BlobCache → RunId → Bytes → BlobCache
set_input c id input =
    let rb = touched c.order id in
    let next = rewritten c (record rb { input = input }) (length rb.input) (length input) in
    if leb (length input) 0 then c else if leb c.limit 0 then c else evict next

-- The length of the state that is replaced.
unfoldable pub old_length : Map StepId Bytes → StepId → ℕ
old_length states step = elim (get states step) [ none ↦ 0 | some old ↦ length old ]

unfoldable pub set_state : BlobCache → RunId → StepId → Bytes → BlobCache
set_state c id step state =
    let rb = touched c.order id in
    let less = old_length rb.states step in
    let states = delete rb.states step in
    if leb c.limit 0
    then c
    else if leb (length state) 0
    then rewritten c (record rb { states = states }) less 0
    else evict (rewritten c (record rb { states = put states step state }) less (length state))

unfoldable pub set_output : BlobCache → RunId → Bytes → BlobCache
set_output c id output =
    let rb = touched c.order id in
    let next = rewritten c (record rb { output = output }) (length rb.output) (length output) in
    if leb (length output) 0 then c else if leb c.limit 0 then c else evict next

-- The lengths of the states together.
unfoldable pub states_length : Map StepId Bytes → ℕ
states_length [] = 0
states_length ((step, state) ∷ m) = length state + states_length m

unfoldable pub need : RunBlobs → ℕ
need rb = length rb.input + length rb.output + states_length rb.states

unfoldable pub fill : BlobCache → RunId → RunBlobs → BlobCache
fill c id rb =
    let entry : RunBlobs = record rb { id = id; size = need rb } in
    let next : BlobCache = record c { order = entry ∷ c.order; size = c.size + need rb } in
    if leb (need rb) 0
    then c
    else if leb c.limit 0
    then c
    else if is_some (find c.order id)
    then c
    else evict next

unfoldable pub drop_run : BlobCache → RunId → BlobCache
drop_run c id = elim (find c.order id) [
  | none ↦ c
  | some rb ↦ record c { order = unlink c.order id; size = c.size - rb.size }
]

-- The cache after a lookup, which marks the entry as used, and the entry.
unfoldable pub lookup : BlobCache → RunId → BlobCache × Option RunBlobs
lookup c id = elim (find c.order id) [
  | none ↦ (c, none)
  | some rb ↦ (record c { order = rb ∷ unlink c.order id }, some rb)
]

-- The input and whether the run is cached at all; a step's state; the output.
unfoldable pub input : BlobCache → RunId → Bytes × Bool
input c id = elim (lookup c id).1 [ none ↦ ([], false) | some rb ↦ (rb.input, true) ]

unfoldable pub state : BlobCache → RunId → StepId → Bytes
state c id step = elim (lookup c id).1 [
  | none ↦ []
  | some rb ↦ elim (get rb.states step) [ none ↦ [] | some b ↦ b ]
]

unfoldable pub output : BlobCache → RunId → Bytes
output c id = elim (lookup c id).1 [ none ↦ [] | some rb ↦ rb.output ]

unfoldable pub has : BlobCache → RunId → Bool
has c id = is_some (find c.order id)
