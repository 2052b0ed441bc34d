-- ===== src/Watchset.antt =====
-- internal/watchset/watchset.go: `Set`, a one-shot broadcast, and `Signals`, at most one armed waiter
-- for each key. A channel of a `Set` is a number, new for each `Watch`. A channel of `Signals` has one
-- slot and is whether the slot is full; each `Arm` makes a new one, and an old one is dropped.
mod Closing
mod History
mod Tests
use durable.Base.{
  ℕ, ◌+◌, Bool, true, false, Option, none, some, List, [], ◌∷◌, ◌++◌, Comparable, ◌≟◌, ite,
  if◌then◌else◌, length, leb, contains, ℕ_comparable,
}
use durable.Base.Map.{Map, get, put, delete}

-- The watchers, the channels that are closed, and the number of the next channel.
pub record Set (K : Type 0) : Type 0 where
  pub watchers : Map K (List ℕ)
  pub closed : List ℕ
  pub next : ℕ

-- The loop of the cancel function, up to its `break`.
unfoldable pub remove_first : List ℕ → ℕ → List ℕ
remove_first [] ch = []
remove_first (c ∷ chs) ch = ite (c ≟ ch) chs (c ∷ remove_first chs ch)

-- The loop of `Notify`; `none` is the panic at a channel that is closed.
unfoldable pub close_all : List ℕ → List ℕ → Option (List ℕ)
close_all closed [] = some closed
close_all closed (ch ∷ chs) =
    let rest = close_all (ch ∷ closed) chs in if contains closed ch then none else rest

module _ {K : Type 0} ⦃kc : Comparable K⦄ where
  -- `s.watchers[k]`, nil being empty.
  unfoldable pub watchers_of : Map K (List ℕ) → K → List ℕ
  watchers_of m k = elim (get m k) [ none ↦ [] | some chs ↦ chs ]

  unfoldable pub watch : Set K → K → Set K × ℕ
  watch s k =
      let chs = watchers_of s.watchers k ++ s.next ∷ [] in
      (record s { watchers = put s.watchers k chs; next = s.next + 1 }, s.next)

  unfoldable pub cancel : Set K → K → ℕ → Set K
  cancel s k ch =
      let chs = remove_first (watchers_of s.watchers k) ch in
      if leb (length chs) 0
      then record s { watchers = delete s.watchers k }
      else record s { watchers = put s.watchers k chs }

  unfoldable pub notify : Set K → K → Option (Set K)
  notify s k = elim (close_all s.closed (watchers_of s.watchers k)) [
    | none ↦ none
    | some closed ↦ some (record s { watchers = delete s.watchers k; closed = closed })
  ]

abbrev pub Signals : Type 0 → Type 0
Signals K = Map K Bool

module _ {K : Type 0} ⦃kc : Comparable K⦄ where
  unfoldable pub arm : Signals K → K → Signals K
  arm s k = put s k false

  unfoldable pub disarm : Signals K → K → Signals K
  disarm s k = delete s k

  unfoldable pub fire : Signals K → K → Signals K
  fire s k = elim (get s k) [ none ↦ s | some full ↦ put s k true ]

  unfoldable pub len : Signals K → ℕ
  len s = length s
