-- ===== src/Controls/Reconcile.antt =====
-- `reconcile_on_boot` of backend/app/orchestrator/run_manager.py.
--
-- The query's runs are those at a working stage; verifying, which the loop skips, is left out. Each
-- run is read again when its turn comes.
use z_agent.Base.{
  ℕ, ◌-◌, String, Bool, true, false, not, ◌&&◌, ◌||◌, none, some, List, [], ◌∷◌, str_eq, ltb,
  if◌then◌else◌, length,
}
use z_agent.Base.Dict
use z_agent.Base.Dict.{Dict}
use z_agent.Contracts.{interrupted}
use z_agent.Heartbeats.{is_working}
use z_agent.Threads.{
  Thread, RunRow, World, Services, register_run, run_stage, present, call, cleanup_terminal,
}
use z_agent.Controls.{is_live, ids_where, edit_where, end_thread, move}
use z_agent.Controls.Abandon.{anything, wait_all}

-- `_fresh`: a heartbeat of less than 180 seconds.
unfoldable pub is_fresh : ℕ → Thread → Bool
is_fresh now t = elim t.heartbeat_at [ none ↦ false | some at ↦ ltb (now - at) 180 ]

-- A live thread of the run with a fresh heartbeat, or with a container that runs.
unfoldable pub shows_life : Services → ℕ → Thread → Bool
unfolding is_fresh is_live
shows_life s now t =
    is_live t
    && (is_fresh now t
        || elim (present t.container_id) [ none ↦ false | some c ↦ s.container_running c ])

unfoldable pub sign_of_life : Services → ℕ → String → Dict Thread → Bool
sign_of_life s now run_id [] = false
sign_of_life s now run_id ((id, t) ∷ rows) =
    (str_eq t.run_id run_id && shows_life s now t) || sign_of_life s now run_id rows

-- The containers of the live threads.
unfoldable pub live_containers : String → Dict Thread → List String
unfolding is_live
live_containers run_id [] = []
live_containers run_id ((id, t) ∷ rows) =
    let rest = live_containers run_id rows in
    if str_eq t.run_id run_id && is_live t
    then elim (present t.container_id) [ none ↦ rest | some c ↦ c ∷ rest ]
    else rest

-- A run with no sign of life: its containers are stopped, its live threads and itself stamped.
unfoldable pub sweep_run : Services → ℕ → String → RunRow → World → World
unfolding live_containers edit_where is_live
sweep_run s now run_id r w =
    let waited = wait_all s (live_containers run_id w.threads) w in
    record waited {
      threads = edit_where is_live run_id (end_thread now "stopped") w.threads;
      runs = Dict.put run_id (move interrupted r) w.runs;
    }

-- One turn of the loop, and whether the run was swept.
unfoldable pub look : Services → ℕ → String → World → World × Bool
unfolding sign_of_life shows_life sweep_run
look s now run_id w = elim (Dict.get run_id w.runs) [
  | none ↦ (w, false)
  | some r ↦
      if not (is_working r.run.stage)
      then (w, false)
      else if sign_of_life s now run_id w.threads
      then (call (register_run run_id) w, false)
      else (sweep_run s now run_id r w, true)
]

abbrev pub look_all : Services → ℕ → List String → World → World × List String
look_all s now [] w = (w, [])
look_all s now (id ∷ ids) w =
    let (w', swept) = look s now id w in
    let (w'', rest) = look_all s now ids w' in (w'', if swept then id ∷ rest else rest)

abbrev pub clean_threads : Services → ℕ → List String → World → World
clean_threads s now [] w = w
clean_threads s now (id ∷ ids) w = clean_threads s now ids (cleanup_terminal s now id w)

-- After the commit: every thread of a swept run is cleaned up, and the run announced.
unfoldable pub announce_swept : Services → ℕ → String → World → World
unfolding ids_where
announce_swept s now run_id w = elim (Dict.get run_id w.runs) [
  | none ↦ w
  | some r ↦
      call (run_stage run_id interrupted r.run.available_actions)
        (clean_threads s now (ids_where anything run_id w.threads) w)
]

abbrev pub announce_all : Services → ℕ → List String → World → World
announce_all s now [] w = w
announce_all s now (id ∷ ids) w = announce_all s now ids (announce_swept s now id w)

abbrev pub keys : Dict RunRow → List String
keys [] = []
keys ((id, r) ∷ rows) = id ∷ keys rows

unfoldable pub reconcile_on_boot : Services → ℕ → World → World × ℕ
unfolding look announce_swept
reconcile_on_boot s now w =
    let (w', swept) = look_all s now (keys w.runs) w in (announce_all s now swept w', length swept)
