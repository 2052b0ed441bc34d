-- ===== src/Kernel.antt =====
-- kernel/kernel.go: the identities, phases, parks and failures that the other packages share.
-- A time is a natural number and the zero time is 0. A nil slice is the empty list, so a copy of a
-- value is the value, up to the maps that it rebuilds. `unset` is the zero value of a type that has
-- no name for it; the types have no other value than the named ones and that.
pub mod Waits
mod Tests
use durable.Base.{
  ℕ, Bool, true, false, Option, none, some, List, [], ◌∷◌, String, String_comparable, if◌then◌else◌,
  length, leb, is_some,
}
use durable.Base.Map.{Map, get, put}

abbrev pub PipelineId : Type 0
PipelineId = String

abbrev pub ResourceId : Type 0
ResourceId = String

abbrev pub RunId : Type 0
RunId = String

abbrev pub StepId : Type 0
StepId = String

abbrev pub Time : Type 0
Time = ℕ

pub data Phase : Type 0 where
  unset phase_forward phase_unwind phase_done : Phase

pub phase_string : Phase → String
phase_string phase_forward = "forward"
phase_string phase_unwind = "unwind"
phase_string phase_done = "done"
phase_string unset = "unknown"

pub data AwaitMode : Type 0 where
  no_mode await_mode_all await_mode_any : AwaitMode

pub mode_string : AwaitMode → String
mode_string await_mode_all = "all"
mode_string await_mode_any = "any"
mode_string no_mode = "unknown"

pub record Await : Type 0 where
  pub mode : AwaitMode
  pub targets : List RunId
  pub deadline : Time
  pub cancel_cascade : Bool

pub record Wake : Type 0 where
  pub targets : List RunId
  pub done : List RunId
  pub expired : Bool

-- `append([]RunID(nil), ids...)`
unfoldable pub clone_ids : List RunId → List RunId
clone_ids [] = []
clone_ids (id ∷ ids) = id ∷ clone_ids ids

unfoldable pub clone_await : Option Await → Option Await
clone_await none = none
clone_await (some a) = some (record a { targets = clone_ids a.targets })

unfoldable pub clone_wake : Option Wake → Option Wake
clone_wake none = none
clone_wake (some w) = some (record w { targets = clone_ids w.targets; done = clone_ids w.done })

-- The loop that fills the set of `Pending`.
unfoldable pub done_set : Map RunId (Unit {0}) → List RunId → Map RunId (Unit {0})
done_set m [] = m
done_set m (id ∷ ids) = done_set (put m id tt) ids

-- The loop over the targets.
unfoldable pub not_done : Map RunId (Unit {0}) → List RunId → List RunId
not_done m [] = []
not_done m (id ∷ ids) = let rest = not_done m ids in if is_some (get m id) then rest else id ∷ rest

unfoldable pub pending : Wake → List RunId
pending w =
    if leb (length w.done) 0 then clone_ids w.targets else not_done (done_set [] w.done) w.targets

pub data Outcome : Type 0 where
  no_outcome outcome_success outcome_failure : Outcome

pub outcome_string : Outcome → String
outcome_string outcome_success = "success"
outcome_string outcome_failure = "failure"
outcome_string no_outcome = "unknown"

pub data FailureKind : Type 0 where
  kind_system kind_user kind_canceled : FailureKind

pub kind_string : FailureKind → String
kind_string kind_user = "user"
kind_string kind_canceled = "canceled"
kind_string kind_system = "system"

pub record Failure : Type 0 where
  pub step_id : StepId
  pub phase : Phase
  pub attempt : ℕ
  pub message : String
  pub at : Time
  pub kind : FailureKind
  pub reason : String
