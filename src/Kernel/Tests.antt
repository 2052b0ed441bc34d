-- ===== src/Kernel/Tests.antt =====
-- Runs of kernel/kernel.go, and its theorem at one.
use durable.Base.{◌≡◌, refl, false, [], ◌∷◌, String_discrete}
use durable.Base.Map.{get, put}
use durable.Kernel.{Wake, done_set, not_done, clone_ids, pending}

program : Unit {0}
unfolding String_discrete get put done_set not_done clone_ids pending
program = tt

abbrev woken : Wake
woken = record { targets = "a" ∷ "b" ∷ "c" ∷ []; done = "b" ∷ []; expired = false }

pending-woken : pending woken ≡ "a" ∷ "c" ∷ []
unfolding program
pending-woken = refl
