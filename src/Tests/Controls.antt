-- ===== src/Tests/Controls.antt =====
-- The thread manager and the controls of a run at concrete inputs.
use z_agent.Base.{◌+◌, ◌*◌, ◌≤◌, String, ◌≡◌, refl, true, false, none, some, [], ◌∷◌, arith}
use z_agent.Base.Dict
use z_agent.Base.Dict.{Dict}
use z_agent.Contracts.{developing, interrupted, abandoned}
use z_agent.Threads.{SpawnContext, Thread, RunRow, World, Services, ModelOption, spent}
use z_agent.Threads.Request.{Request}
use z_agent.Threads.Spawn.{spawn}
use z_agent.Controls.{is_live, live_statuses, ids_where, stop_containers, stop_run, move}
use z_agent.Controls.Stopped.{stop_run-NoLive, NoLive, NoPending, NoKeys}
use z_agent.Controls.Abandon.{abandon_run}
use z_agent.Controls.Abandoned.{abandon_run-IsEnded, IsEnded, IsShredded}
use z_agent.Capacity.{
  try_acquire, write_conflict, reserve, commit_reservation, active_thread_count, holds_capacity,
  capacity_statuses, threads_on, is_on,
}
use z_agent.Base.{ℕ, Result, ok, take_text, Option}
use z_agent.Threads.{
  cleanup_terminal, settle_cost, read_back, settled, release_key, edit_row, roll_up, total_cost,
  is_over, terminal_statuses,
}
use z_agent.Threads.Request.{
  check_reasoning, model_option, lane_model, full_prompt, inherited_session_id, new_thread,
  permission_mode_for, permission_mode_by_autonomy,
}
use z_agent.Threads.Spawn.{acquire, insert, mint, launch, staging_fails}
use z_agent.Controls.{resolve_pending_approvals, decide_pending}
use z_agent.Controls.Replace.{
  ReplaceError, respawn, retire_old, replay, mount_set, replacement_repo, kill_replace_thread,
  remaining_budget, least_budget,
}
use z_agent.Controls.Replaced.{kill_replace_thread-IsReplaced, IsAnswered}
use z_agent.Controls.Budget.{carried-total, Within, total}
use z_agent.Controls.Reconcile.{reconcile_on_boot}
use z_agent.Controls.Swept.{reconcile_on_boot-IsFated, IsFated}
use z_agent.Controls.Rows.{run_of, sans_cost}

abbrev context : SpawnContext
context = record {
  prompt = "fix it";
  persona_prompt = "dev";
  resume_session = false;
  mode = "development";
  model = "glm";
  reasoning = none;
  images = [];
  context_repos = "api" ∷ [];
  preserve_workspace = false;
  resume_from_thread_id = none;
}

abbrev worker : Thread
worker = record {
  run_id = "r1";
  persona = "developer";
  repo_scope = some "api";
  status = "running";
  budget_usd = 5000000;
  cost_usd = 0;
  session_id = none;
  gateway_key = some "sk-1";
  gateway_key_alias = some "thread-t1";
  container_id = some "box";
  heartbeat_at = some 0;
  finished_at = none;
  next_seq = 0;
  spawn_context = context;
}

abbrev pub work : RunRow
work = record {
  run = record {
    id = "r1";
    created_by = 1;
    stage = developing;
    mode = "development";
    available_actions = [];
  };
  title = "fix it";
  repo = some "api";
  autonomy = "supervised";
  idempotency_key = none;
  cost_usd = 0;
  finished_at = none;
  failure_reason = none;
}

abbrev pub world : World
world = record {
  threads = ("t1", worker) ∷ [];
  runs = ("r1", work) ∷ [];
  approvals = [];
  capacity = record { reserved = 0; reserved_writable = []; db_tokens = [] };
  reservations = [];
  calls = [];
}

abbrev glm : ModelOption
glm = record { alias = "glm"; vision = false; reasoning_efforts = []; supports_thinking_off = true }

abbrev pub services : Services
services = record {
  available_models = glm ∷ [];
  gateway_model = "glm";
  default_thread_budget_usd = 5000000;
  global_thread_cap = 4;
  db_concurrency = false;
  prompt_block = "";
  new_thread_id = "t2";
  new_token = "token";
  between = [];
  insert_commits = true;
  mints = λ alias. some (record { key = "sk-2"; key_alias = alias });
  spend_of = λ k. spent 2000000;
  key_commits = true;
  run_commits = true;
  publishes = true;
  deletes = λ k. true;
  images_copied = true;
  starts = λ id. some "box2";
  task_running = λ id. true;
  known_repos = "api" ∷ [];
  container_running = λ c. false;
  container_exits = λ c. true;
  interrupt_acked = λ id. false;
  stop_raises = λ id. false;
}

abbrev request : Request
request = record {
  persona = "developer";
  prompt = "more";
  persona_prompt = "dev";
  writable_repo = none;
  context_repos = "api" ∷ [];
  resume_session = false;
  resume_from_thread_id = none;
  preserve_workspace = false;
  budget_usd = none;
  model = none;
  reasoning = none;
  images = [];
  image_notes = none;
}

pub run_found : Dict.get "r1" world.runs ≡ some work
unfolding Dict.get
run_found = refl

thread_found : Dict.get "t1" world.threads ≡ some worker
unfolding Dict.get
thread_found = refl

abbrev idle : World → World
idle w = w

waited_found :
    Dict.get "r1"
      (idle (stop_containers services (ids_where is_live "r1" world.threads) world)).runs
    ≡ some work
unfolding ids_where is_live live_statuses Dict.get
waited_found = refl

stop_run-NoLive_example :
    let after = stop_run services idle 10 "r1" world in
    NoLive "r1" after
    × (run_of (Dict.get "r1" after.runs) ≡ some (sans_cost (move interrupted work)))
    × NoPending "r1" after.approvals
    × NoKeys "r1" world after
stop_run-NoLive_example =
    stop_run-NoLive services idle 10 "r1" world work work run_found refl waited_found refl

abandon_run-IsEnded_example :
    let after = abandon_run services 10 "r1" world in
    IsEnded "r1" after
    × (run_of (Dict.get "r1" after.runs)
        ≡ some (sans_cost (record (move abandoned work) { finished_at = some 10 })))
    × NoPending "r1" after.approvals
    × IsShredded services "r1" world.threads after
abandon_run-IsEnded_example = abandon_run-IsEnded services 10 "r1" world work run_found refl

kill_replace_thread-IsReplaced_example :
    let (w', answer) = kill_replace_thread services 10 "r1" "t1" ("web" ∷ []) work world in
    IsAnswered services "r1" "t1" worker world w' answer
kill_replace_thread-IsReplaced_example =
    kill_replace_thread-IsReplaced services 10 "r1" "t1" ("web" ∷ []) work world worker thread_found
      refl

costs-Within : Within worker 1000000 (400000 ∷ 500000 ∷ 250000 ∷ [])
unfolding remaining_budget
costs-Within = (omega arith, (omega arith, (omega arith, tt)))

carried-total_example : total (400000 ∷ 500000 ∷ 250000 ∷ []) ≤ 1000000 + 3 * least_budget
carried-total_example = carried-total worker 1000000 (400000 ∷ 500000 ∷ 250000 ∷ []) costs-Within

reconcile_on_boot-IsFated_example :
    IsFated services 400000 "r1" world.threads work
      (run_of (Dict.get "r1" (reconcile_on_boot services 400000 world).0.runs))
reconcile_on_boot-IsFated_example =
    reconcile_on_boot-IsFated services 400000 world "r1" work run_found

abbrev replaced : World × Result ReplaceError String
replaced = kill_replace_thread services 10 "r1" "t1" ("web" ∷ []) work world

abbrev budget_of : Option Thread → ℕ
budget_of none = 0
budget_of (some t) = t.budget_usd

-- The replacement is there, with the budget that is left.
replaced_answer : (replaced.1 ≡ ok "t2") × (budget_of (Dict.get "t2" replaced.0.threads) ≡ 3000000)
unfolding kill_replace_thread respawn retire_old cleanup_terminal settle_cost read_back settled
    release_key edit_row roll_up total_cost is_over terminal_statuses resolve_pending_approvals
    decide_pending remaining_budget replay mount_set replacement_repo spawn acquire insert mint
    launch staging_fails check_reasoning model_option lane_model full_prompt inherited_session_id
    new_thread try_acquire write_conflict reserve commit_reservation active_thread_count
    holds_capacity capacity_statuses permission_mode_for permission_mode_by_autonomy take_text
    threads_on is_on Dict.get Dict.put
replaced_answer = (refl, refl)
