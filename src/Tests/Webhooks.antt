-- ===== src/Tests/Webhooks.antt =====
-- The trigger engine at concrete inputs.
use z_agent.Base.{String, ◌==◌, if◌then◌else◌}
use z_agent.Base.{ℕ, ◌-◌, ◌≤◌, String, ◌≡◌, refl, ◌⊎◌, true, none, some, [], ◌∷◌, arith}
use z_agent.Base.Dict
use z_agent.Triggers.{
  Trigger, TriggerEvent, Log, Db, World, is_matched, filter_matches, log_event, set_log,
  persist_verdicts, resolve_descriptor, recent_active_run, coalesces, rate_limited, create_run,
  hour, count_started,
}
use z_agent.Triggers.Dispatch.{
  status_of, first_started, first_owner, stamp, queued_trigger_name, find_trigger, is_loop,
  resolve_owner, start, guarded, judge, judge_all, dispatch, process, drain_one, drain_all,
  drain_queued,
}
use z_agent.Triggers.Dispatch.Dedupe.{process_again}
use z_agent.Triggers.Dispatch.Guardrails.{gated_run}
use z_agent.Triggers.Dispatch.Cap.{dispatch-count_started}
use z_agent.Triggers.Dispatch.Rate.{named}
use z_agent.Triggers.Dispatch.Queue.{count_started-drain_queued}

abbrev planner : Trigger
planner = record {
  name = "plan";
  source = "ado_webhook";
  filter_json = ("event_type", "work_item.updated") ∷ ("state", "collegium-plan") ∷ [];
  mode = "plan";
  owner_resolution = "changed_by";
  enabled = true;
  rate_limit_per_hour = 1;
}

abbrev moved : TriggerEvent
moved = record {
  source = "ado_webhook";
  external_id = "7";
  revision = 3;
  event_type = "work_item.updated";
  changed_by_descriptor = some "aad.ali";
  payload = ("state", "collegium-plan") ∷ [];
}

abbrev around : World
around = record {
  service_account_descriptor = "svc.agent";
  flap_window = 900;
  users = ("aad.ali", 5) ∷ [];
  system_user = 1;
  is_int = λ s. true;
  has_lead_thread = λ r. true;
  handler = λ kind. none;
}

abbrev uuid : String → String
uuid key = "run-new"

abbrev tables : Db
tables = record {
  triggers = planner ∷ [];
  logs = [];
  verdict_rows = [];
  runs = [];
  modes = "plan" ∷ [];
  nudged = [];
}

abbrev opened : Db
opened = (process around uuid 5000 moved 1 tables).0

moved-started : process around uuid 5000 moved 1 tables ≡ (opened, some "matched")
unfolding process log_event dispatch is_loop is_matched filter_matches judge_all judge resolve_owner
    resolve_descriptor guarded recent_active_run coalesces rate_limited count_started start
    create_run status_of first_started first_owner stamp set_log persist_verdicts Dict.get Dict.put
moved-started = refl

opened-run : Dict.get "run-new" opened.runs ≡ some (gated_run 5 planner)
unfolding process log_event dispatch is_loop is_matched filter_matches judge_all judge resolve_owner
    resolve_descriptor guarded recent_active_run coalesces rate_limited count_started start
    create_run status_of first_started first_owner stamp set_log persist_verdicts Dict.get Dict.put
opened-run = refl

process_again_example :
    process around uuid 9000 moved 2 (process around uuid 5000 moved 1 tables).0
    ≡ ((process around uuid 5000 moved 1 tables).0, some "duplicate")
process_again_example = process_again around uuid 5000 moved 1 2 around uuid 9000 tables

plan-named : named "plan" (planner ∷ []) ≤ 1
plan-named = omega arith

dispatch-count_started_example :
    (count_started "plan" (5000 - hour) (dispatch around uuid 5000 moved 1 tables).0
      ≤ count_started "plan" (5000 - hour) tables)
    ⊎ (count_started "plan" (5000 - hour) (dispatch around uuid 5000 moved 1 tables).0 ≤ 1)
dispatch-count_started_example =
    dispatch-count_started around uuid 5000 "plan" 1 moved 1 tables plan-named
      ((λ same. omega arith), tt)

abbrev fresh : ℕ → String
fresh n = if n == 1 then "run-1" else "run-2"

-- Two events that wait for the cap of one.
abbrev waiting : ℕ → Log
waiting id = record {
  id = id;
  event = record moved { revision = id };
  resolved_user_id = some 5;
  run_id = none;
  status = "queued";
  verdicts =
      record { trigger = "plan"; status = "queued"; run_id = none; resolved_user_id = some 5 } ∷ [];
  received_at = 5000;
}

abbrev backlog : Db
backlog = record tables { logs = waiting 1 ∷ waiting 2 ∷ [] }

abbrev matched_log : ℕ → Log
matched_log id = record (waiting id) { status = "matched"; run_id = some (fresh id) }

abbrev drained : Db
drained = record backlog {
  logs = matched_log 1 ∷ matched_log 2 ∷ [];
  runs = ("run-1", gated_run 5 planner) ∷ ("run-2", gated_run 5 planner) ∷ [];
}

-- Both start, though the cap is one an hour.
both_start : drain_queued around fresh 9000 5 backlog ≡ some (drained, 2)
unfolding drain_queued drain_all drain_one queued_trigger_name find_trigger rate_limited
    count_started create_run set_log Dict.get Dict.put
both_start = refl

count_started-drain_queued_example :
    (count_started "plan" 5400 drained ≡ count_started "plan" 5400 backlog) × (2 ≤ 5)
count_started-drain_queued_example =
    count_started-drain_queued around fresh 9000 "plan" 5400 5 backlog drained 2 both_start
