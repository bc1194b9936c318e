-- ===== src/Tests/Plans.antt =====
-- The task tracker and the stuck-loop watchdog at concrete inputs.
use z_agent.Base.{Bool, true, false, String, ◌≡◌, refl, some, List, [], ◌∷◌, arith}
use z_agent.Base.Dict
use z_agent.Engine.Tasks.{Tasks, Update, apply_task_updates, apply_all, apply_one, add}
use z_agent.Engine.Streaks.{streak_of, count_results, failures, streak_of-count_results}
use z_agent.Engine.Tasks.Plan.{IsPlan, batches, batches-IsPlan}

abbrev nothing : Tasks
nothing = record { artifact = []; tracker = [] }

abbrev plan_task : String → Update
plan_task id = record {
  action = some "add";
  id = id;
  content = "do it";
  scope = "";
  acceptance = "";
  status = "";
}

abbrev begin : String → Update
begin id = record (plan_task id) { action = some "status"; status = "in_progress" }

abbrev two_begun : List (List Update)
two_begun = (plan_task "t1" ∷ plan_task "t2" ∷ begin "t1" ∷ []) ∷ (begin "t2" ∷ []) ∷ []

-- The second batch would have two tasks in progress, and is refused.
begun : (batches two_begun nothing).tracker ≡ ("t1", "in_progress") ∷ ("t2", "pending") ∷ []
unfolding batches apply_task_updates apply_all apply_one add Dict.get Dict.put
begun = refl

nothing-IsPlan : IsPlan nothing
unfolding Dict.get
nothing-IsPlan = (λ k. (refl, λ s h. absurd (ground arith)), omega arith)

batches-IsPlan_example : IsPlan (batches two_begun nothing)
batches-IsPlan_example = batches-IsPlan two_begun nothing nothing-IsPlan

-- Two failures of one call after its success, with another call's between, the newest first.
abbrev results : List (String × Bool)
results =
    ("read:1", false)
    ∷ ("edit:2", false)
    ∷ ("read:1", false)
    ∷ ("read:1", true)
    ∷ ("read:1", false)
    ∷ []

two_failures : failures "read:1" results ≡ 2
two_failures = refl

streak_of-count_results_example :
    streak_of "read:1" (count_results results) ≡ failures "read:1" results
streak_of-count_results_example = streak_of-count_results "read:1" results
