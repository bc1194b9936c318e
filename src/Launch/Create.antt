-- ===== src/Launch/Create.antt =====
-- `create_run` of backend/app/orchestrator/run_manager.py.
use z_agent.Base.{
  ℕ, String, not, ◌&&◌, Option, none, some, ◌++◌, if◌then◌else◌, is_some, head?, Result, ok, raise,
}
use z_agent.Base.Dict
use z_agent.Base.Dict.{Dict}
use z_agent.Contracts.{queued}
use z_agent.Threads.{RunRow, World, Services, register_run, run_stage, execute, present, call}
use z_agent.Controls.{move}
use z_agent.Launch.{
  LaunchError, bad_image, no_task, bad_mode, not_prepared, duplicate, Composer, Order,
  validate_models, validate_swarm_model, validate_reasoning, final_task, run_with_key, new_run,
  enabled_mode,
}
use z_agent.Launch.Failures.{fail_pre_execute}

-- A check that passes goes on.
abbrev pub if_ok :
    {A B : Type 0} → Result LaunchError A → (A → Result LaunchError B) → Result LaunchError B
if_ok (raise e) f = raise e
if_ok (ok a) f = f a

-- The checks before the row exists: the task that the run gets.
unfoldable pub check_order : Services → Composer → Order → Result LaunchError String
unfolding validate_models validate_swarm_model validate_reasoning final_task
check_order s c o = if_ok (validate_models s o.models o.mode_name) (λ models.
    if_ok (validate_reasoning s o.reasoning models) (λ reasoning.
      if_ok (validate_swarm_model s o.swarm_model) (λ swarm_model.
        if is_some (head? o.images) && not c.images_valid
        then raise bad_image
        else elim (final_task c o) [ none ↦ raise no_task | some task ↦ ok task ])))

-- The run that the unique index on (created_by, idempotency_key) collides with; a null key meets none.
unfoldable pub collision : Order → Dict RunRow → Option String
unfolding run_with_key
collision o runs = elim o.idempotency_key [
  | none ↦ none
  | some k ↦ run_with_key o.initiated_by k runs
]

-- The run is there: streams, stage, attachments, blueprint.
unfoldable pub begin_run :
    Services → Composer → ℕ → Order → RunRow → World → World × Result LaunchError String
unfolding fail_pre_execute
begin_run s c now o r w =
    let id = c.new_run_id in
    let told : World =
      call (run_stage id r.run.stage r.run.available_actions) (call (register_run id) w) in
    if is_some (head? o.images) && not c.images_prepared
    then (fail_pre_execute now id "image preparation failed" told, raise not_prepared)
    else (call (execute id) told, ok id)

-- The insert, among the rows that others have committed by then.
unfoldable pub insert_run :
    Services → Composer → ℕ → Order → RunRow → World → World × Result LaunchError String
unfolding begin_run collision
insert_run s c now o r w =
    let w' : World = record w { runs = w.runs ++ c.raced } in
    elim (collision o w'.runs) [
      | none ↦ begin_run s c now o r (record w' { runs = Dict.put c.new_run_id r w'.runs })
      | some other ↦ elim (present o.idempotency_key) [
        | none ↦ (w', raise duplicate)
        | some k ↦ (w', ok other)
      ]
    ]

-- The look-up of the key.
unfoldable pub existing_run : Order → Dict RunRow → Option String
unfolding run_with_key
existing_run o runs = elim (present o.idempotency_key) [
  | none ↦ none
  | some k ↦ run_with_key o.initiated_by k runs
]

abbrev pub open_run :
    Services
    → Composer
    → ℕ
    → Order
    → World
    → Result LaunchError String
    → World × Result LaunchError String
open_run s c now o w (raise e) = (w, raise e)
open_run s c now o w (ok task) = elim (existing_run o w.runs) [
  | some id ↦ (w, ok id)
  | none ↦ elim (enabled_mode o.mode_name c.modes) [
    | none ↦ (w, raise (bad_mode o.mode_name))
    | some mode ↦ insert_run s c now o (move queued (new_run c o mode task)) w
  ]
]

-- `create_run`: the answer is the id of the run.
unfoldable pub create_run :
    Services → Composer → ℕ → Order → World → World × Result LaunchError String
unfolding check_order existing_run enabled_mode new_run insert_run
create_run s c now o w = open_run s c now o w (check_order s c o)
