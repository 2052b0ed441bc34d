-- ===== src/Driver/Orders.antt =====
-- `NextOrder` of store/driver/driver.go.
use durable.Base.{ℕ, ◌+◌, ◌%◌, ◌-◌, ◌^◌, ◌≤◌, ◌<◌, ◌≡◌, [], ◌∷◌, String_comparable, arith}
use durable.Base.Map.{Map}
use durable.Kernel.{StepId}
use durable.Driver.{StepRecord, RunRecord, max_u32, max_order, next_order}

-- The orders of a step are below the bound.
abbrev pub IsBelow : ℕ → StepId × StepRecord → Type 0
IsBelow n e = (e.1.forward.order < n) × (e.1.unwind.order < n)

abbrev pub AllBelow : ℕ → Map StepId StepRecord → Type 0
AllBelow n [] = Unit {0}
AllBelow n (e ∷ m) = IsBelow n e × AllBelow n m

max_order-le : (n : ℕ) (m : Map StepId StepRecord) → n ≤ max_order n m
unfolding max_order max_u32
max_order-le n [] = omega arith
max_order-le n ((id, sr) ∷ m) =
    ground (arith, max_order-le (max_u32 n sr.forward.order sr.unwind.order) m)

max_order-AllBelow : (n : ℕ) (m : Map StepId StepRecord) → AllBelow (max_order n m + 1) m
unfolding max_order max_u32
max_order-AllBelow n [] = tt
max_order-AllBelow n ((id, sr) ∷ m) =
    let k = max_u32 n sr.forward.order sr.unwind.order in
    ground (arith, max_order-AllBelow k m, max_order-le k m)

max_order-lt : (n b : ℕ) (m : Map StepId StepRecord) → n < b → AllBelow b m → max_order n m < b
unfolding max_order max_u32
max_order-lt n b [] h a = h
max_order-lt n b ((id, sr) ∷ m) h a =
    ground (arith, max_order-lt (max_u32 n sr.forward.order sr.unwind.order) b m)

-- If every order on record is below 2^32 - 1, NextOrder does not wrap around: it is positive,
-- below 2^32 and above the order of every operation of every step.
pub next_order-AllBelow :
    (r : RunRecord)
    → AllBelow (2 ^ 32 - 1) r.steps
    → AllBelow (next_order r) r.steps × (0 < next_order r) × (next_order r < 2 ^ 32)
unfolding next_order
next_order-AllBelow r h =
    let l : max_order 0 r.steps < 2 ^ 32 - 1 =
      max_order-lt 0 (2 ^ 32 - 1) r.steps (omega arith) h in
    let e : (max_order 0 r.steps + 1) % 2 ^ 32 ≡ max_order 0 r.steps + 1 = omega arith in
    rw e (max_order-AllBelow 0 r.steps, omega arith, omega arith)
