-- ===== src/Server/Lifecycle/Progress.antt =====
-- How `stop` of src/pymod/server.py goes on: the tasks that it awaits and those that it cancelled.
use pymod.Prelude.{ℕ, ◌≡◌, true, false, List, All}
use pymod.Server.Lifecycle.{Listener, Phase, serving, awaiting_writers, awaiting_tasks, is_in}
use pymod.Server.Lifecycle.Stop.{OwnRun, Within}

-- Each task that `stop` awaits is done or cancelled.
abbrev Flagged : Listener → Phase → Type 0
Flagged s serving = Unit
Flagged s awaiting_writers = Unit
Flagged s (awaiting_tasks tasks) =
    (w : ℕ) → is_in w tasks ≡ true → is_in w s.running ≡ true → is_in w s.cancelled ≡ true

abbrev AreDone : List ℕ → List ℕ → Type 0
AreDone running = All (λ w. is_in w running ≡ false)

-- What the ends of the cancelled handlers among these tasks lead to.
abbrev Ended : List ℕ → Listener → Listener → Listener → Type 0
Ended awaited s t u =
    OwnRun s u
    × ((u.phase ≡ t.phase) × (u.cancelled ≡ t.cancelled))
    × Within u.running t.running
    × AreDone u.running awaited
