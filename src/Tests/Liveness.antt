-- ===== src/Tests/Liveness.antt =====
-- Heartbeats and the reaper at concrete inputs.
use z_agent.Base.{arith}
use z_agent.Base.{◌≡◌, refl, true, false, none, some, List, [], ◌∷◌}
use z_agent.Base.Dict
use z_agent.Contracts.{developing}
use z_agent.Run.{Run}
use z_agent.Heartbeats.{
  Thread, Persister, Db, is_active, active_statuses, is_live, persist, fail_thread, reap_once,
  throttled, status_changed, remember, beat, maybe_complete_ask_run,
}
use z_agent.Heartbeats.Beats.{Beat, persist_all, started}
use z_agent.Heartbeats.Certain.{reap_once-certain}

abbrev mute : Thread
mute = record {
  run_id = "r1";
  status = "running";
  container_id = some "box";
  heartbeat_at = some 0;
  finished_at = none;
}

abbrev stopped : Thread
stopped = record mute { status = "stopped"; finished_at = some 5 }

abbrev work : Run
work = record {
  id = "r1";
  created_by = 1;
  stage = developing;
  mode = "development";
  available_actions = [];
}

abbrev tables : Db
tables = record { threads = ("t1", mute) ∷ ("t2", stopped) ∷ []; runs = ("r1", work) ∷ [] }

abbrev beats : List Beat
beats =
    record { now_mono = 0; now = 0; thread_id = "t1"; status = some "running" }
    ∷ record { now_mono = 10; now = 10; thread_id = "t2"; status = some "idle" }
    ∷ []

abbrev after_beats : Persister × Db
after_beats = persist_all beats (started, tables)

first_row : Dict.get "t1" after_beats.1.threads ≡ some (record mute { heartbeat_at = some 0 })
unfolding persist throttled status_changed remember beat maybe_complete_ask_run is_live is_active
    active_statuses Dict.get Dict.put
first_row = refl

mute-live : is_live (record mute { heartbeat_at = some 0 }) ≡ true
unfolding is_live is_active active_statuses
mute-live = refl

mute_row : Dict.get "t1" tables.threads ≡ some mute
unfolding Dict.get
mute_row = refl

mute_active : is_active mute ≡ true
unfolding is_active active_statuses
mute_active = refl

reap_once-certain_example :
    Dict.get "t1" (reap_once (λ c. false) 400000 0 400000 tables).threads
    ≡ some (fail_thread 400000 mute)
reap_once-certain_example =
    reap_once-certain (λ c. false) 400000 0 400000 tables "t1" "box" mute mute_row
      (mute_active, (0, refl, omega arith), refl, refl, refl)
