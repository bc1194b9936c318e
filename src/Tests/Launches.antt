-- ===== src/Tests/Launches.antt =====
-- The creation and the failure of a run at concrete inputs.
use z_agent.Base.{◌≤◌, ◌≡◌, refl, true, none, some, [], ◌∷◌, ◌++◌, arith, take_text, ok}
use z_agent.Base.Dict
use z_agent.Base.Dict.{Dict}
use z_agent.Contracts.{queued, completed}
use z_agent.Run.{is_terminal, transition, compute_available_actions, actions_by_stage}
use z_agent.Threads.{RunRow, World, register_run, run_stage, execute}
use z_agent.Controls.{stop_run, move}
use z_agent.Controls.Abandon.{abandon_run}
use z_agent.Controls.Reconcile.{reconcile_on_boot}
use z_agent.Controls.Rows.{run_of, sans_cost}
use z_agent.Launch.{
  Composer, Order, validate_models, validate_swarm_model, validate_reasoning, check_efforts,
  final_task, hydrated, title_is_generic, dedupe, run_with_key, new_run, enabled_mode,
}
use z_agent.Launch.Failures.{fail_pre_execute, fail_execution}
use z_agent.Launch.Create.{check_order, create_run, existing_run, insert_run, begin_run, collision}
use z_agent.Launch.Models.{validate_models-IsChecked, IsChecked}
use z_agent.Launch.Once.{runs_with, create_run_unique}
use z_agent.Launch.Again.{create_run-again}
use z_agent.Launch.Final.{terminal_run-final}
use z_agent.Tests.Controls.{services, world, work}

abbrev composer : Composer
composer = record {
  strip = λ s. s;
  decimal = λ n. "42";
  hydrate = λ n s. none;
  modes = ("ask", record { enabled = true; autonomy_default = "supervised" }) ∷ [];
  images_valid = true;
  images_prepared = true;
  new_run_id = "r2";
  raced = [];
}

abbrev order : Order
order = record {
  initiated_by = 1;
  mode_name = "ask";
  task = "explain";
  repo = none;
  work_item_id = none;
  autonomy = none;
  models = "glm" ∷ [];
  reasoning = [];
  images = [];
  swarm_model = none;
  idempotency_key = some "k1";
}

validate_models-IsChecked_example :
    IsChecked services
      ("glm" ∷ "glm" ∷ "kimi" ∷ [])
      "plan"
      (validate_models services ("glm" ∷ "glm" ∷ "kimi" ∷ []) "plan")
validate_models-IsChecked_example =
    validate_models-IsChecked services ("glm" ∷ "glm" ∷ "kimi" ∷ []) "plan"

one_at_most : runs_with 1 "k1" (world.runs ++ composer.raced) ≤ 1
one_at_most = omega arith

create_run_unique_example :
    runs_with 1 "k1" (create_run services composer 10 order world).0.runs ≤ 1
create_run_unique_example = create_run_unique services composer 10 order world 1 "k1" one_at_most

checks : check_order services composer order ≡ ok "explain"
unfolding check_order validate_models dedupe validate_reasoning check_efforts validate_swarm_model
    final_task hydrated title_is_generic
checks = refl

abbrev created : RunRow
created = record {
  run = record { id = "r2"; created_by = 1; stage = queued; mode = "ask"; available_actions = [] };
  title = "explain";
  repo = none;
  autonomy = "supervised";
  idempotency_key = some "k1";
  cost_usd = 0;
  finished_at = none;
  failure_reason = none;
}

abbrev once : World
once = record world {
  runs = ("r1", work) ∷ ("r2", created) ∷ [];
  calls = execute "r2" ∷ run_stage "r2" queued [] ∷ register_run "r2" ∷ [];
}

created_once : create_run services composer 10 order world ≡ (once, ok "r2")
unfolding create_run check_order validate_models dedupe validate_reasoning check_efforts
    validate_swarm_model final_task hydrated title_is_generic existing_run run_with_key enabled_mode
    new_run insert_run collision begin_run transition compute_available_actions actions_by_stage
    take_text Dict.get Dict.put
created_once = refl

create_run-again_example : create_run services composer 20 order once ≡ (once, ok "r2")
create_run-again_example =
    create_run-again services services composer composer 10 20 order world once "k1" "r2" "explain"
      refl created_once checks

abbrev done : RunRow
done = move completed work

abbrev over : World
over = record world { runs = ("r1", done) ∷ [] }

over_found : Dict.get "r1" over.runs ≡ some done
unfolding Dict.get
over_found = refl

done-terminal : is_terminal done.run.stage ≡ true
unfolding transition
done-terminal = refl

terminal_run-final_example :
    (stop_run services (λ w. w) 10 "r1" over ≡ over)
    × (abandon_run services 10 "r1" over ≡ over)
    × (run_of (Dict.get "r1" (fail_pre_execute 10 "r1" "late" over).runs) ≡ some (sans_cost done))
    × (run_of (Dict.get "r1" (fail_execution services 10 "r1" "late" over).runs)
        ≡ some (sans_cost done))
    × (run_of (Dict.get "r1" (reconcile_on_boot services 10 over).0.runs) ≡ some (sans_cost done))
terminal_run-final_example =
    terminal_run-final services (λ w. w) 10 "r1" "late" over done over_found done-terminal
