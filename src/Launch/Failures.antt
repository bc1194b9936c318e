-- ===== src/Launch/Failures.antt =====
-- `_fail_pre_execute` and the failure path of `_guarded_execute` of
-- backend/app/orchestrator/run_manager.py, with `_settle_run_costs`.
--
-- `reason` is the text of the exception, redacted and cut by code that is not modelled. The removal of
-- the attachments is left out.
use z_agent.Base.{
  Bool, true, false, ℕ, String, Bool, true, false, Option, none, some, List, [], ◌∷◌, if◌then◌else◌,
  is_some,
}
use z_agent.Base.Dict
use z_agent.Base.Dict.{Dict}
use z_agent.Contracts.{RunStage, failed}
use z_agent.Run.{is_terminal}
use z_agent.Threads.{
  Thread, RunRow, World, Services, interrupt, note, run_stage, thread_status, unregister_run,
  present, call, settle_cost, mark,
}
use z_agent.Controls.{
  is_live, ids_where, stop_calls, stop_thread_container, resolve_pending_approvals, move,
}

-- A run that is not terminal is failed.
unfoldable pub fail_row : ℕ → String → RunRow → RunRow
fail_row now reason r =
    if is_terminal r.run.stage
    then r
    else record (move failed r) { finished_at = some now; failure_reason = some reason }

abbrev pub fail_run : ℕ → String → String → World → World
fail_run now run_id reason w = record w {
  runs = elim (Dict.get run_id w.runs) [
    | none ↦ w.runs
    | some r ↦ Dict.put run_id (fail_row now reason r) w.runs
  ];
}

-- `_fail_pre_execute`
unfoldable pub fail_pre_execute : ℕ → String → String → World → World
unfolding fail_row
fail_pre_execute now run_id reason w =
    call (unregister_run run_id)
      (call (run_stage run_id failed []) (fail_run now run_id reason (call (note run_id reason) w)))

abbrev pub is_failed : RunStage → Bool
is_failed failed = true
is_failed _ = false

abbrev pub stage_is_failed : Option RunRow → Bool
stage_is_failed none = false
stage_is_failed (some r) = is_failed r.run.stage

-- The body of the loop; if the stop raises, which is logged, the thread is not stamped.
abbrev pub fail_one : Services → ℕ → String → String → Bool → World → World
fail_one s now run_id id true w = call (interrupt id) w
fail_one s now run_id id false w =
    call (thread_status run_id id "failed") (mark s now id "failed" (stop_thread_container s id w))

-- Each live thread is stopped, failed and announced.
abbrev pub fail_threads : Services → ℕ → String → List String → World → World
fail_threads s now run_id [] w = w
fail_threads s now run_id (id ∷ ids) w =
    fail_threads s now run_id ids (fail_one s now run_id id (s.stop_raises id) w)

-- A run that is failed by now is announced, and its cards are denied.
abbrev pub announce_failure : ℕ → String → Bool → World → World
announce_failure now run_id false w = w
announce_failure now run_id true w =
    resolve_pending_approvals now run_id "denied" none (call (run_stage run_id failed []) w)

-- The `except` branch of `_guarded_execute`.
unfoldable pub fail_execution : Services → ℕ → String → String → World → World
unfolding fail_row ids_where is_live resolve_pending_approvals stop_calls
fail_execution s now run_id reason w =
    let stamped : World = fail_run now run_id reason (call (note run_id reason) w) in
    let told =
      announce_failure now run_id (stage_is_failed (Dict.get run_id stamped.runs)) stamped in
    fail_threads s now run_id (ids_where is_live run_id told.threads) told

-- A row that holds a key.
abbrev pub has_key : Thread → Bool
has_key t = is_some (present t.gateway_key)

-- `_settle_run_costs`: a failure of one readback does not stop the others.
abbrev pub settle_all : Services → ℕ → List String → World → World
settle_all s now [] w = w
settle_all s now (id ∷ ids) w = settle_all s now ids (settle_cost s now id w).0

unfoldable pub settle_run_costs : Services → ℕ → String → World → World
unfolding ids_where
settle_run_costs s now run_id w = settle_all s now (ids_where has_key run_id w.threads) w
