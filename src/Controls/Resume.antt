-- ===== src/Controls/Resume.antt =====
-- `resume_run` of backend/app/orchestrator/run_manager.py, up to the start of the blueprint.
use z_agent.Base.{
  Bool, true, false, ℕ, String, Bool, true, false, not, ◌||◌, Option, none, some, [], ◌∷◌, str_eq,
  ◌==◌, if◌then◌else◌, or_else,
}
use z_agent.Base.Dict
use z_agent.Base.Dict.{Dict}
use z_agent.Contracts.{RunStage, queued, interrupted}
use z_agent.Run.{transition, is_terminal}
use z_agent.Threads.{
  Thread, RunRow, World, Services, kill, wait_for_container_exit, register_run, run_stage, execute,
  present, call, edit_thread, cleanup_terminal,
}
use z_agent.Controls.{is_live, end_thread}

-- What the caller learns: no run of theirs, the run as it is, the resumed run, or the error.
pub data Resumed : Type 0 where
  not_theirs : Resumed
  in_flight : Resumed
  resumed : Resumed
  container_survived : String → Resumed

-- The run's newest thread: the table is in the order of creation.
unfoldable pub last_thread : String → Dict Thread → Option (String × Thread)
last_thread run_id [] = none
last_thread run_id ((id, t) ∷ rows) = elim (last_thread run_id rows) [
  | some newer ↦ some newer
  | none ↦ if str_eq t.run_id run_id then some (id, t) else none
]

abbrev pub is_interrupted : RunStage → Bool
is_interrupted interrupted = true
is_interrupted _ = false

-- The run goes back to the queue, out of a terminal stage too.
unfoldable pub requeue : RunRow → RunRow
requeue r = record r {
  run = or_else r.run (transition r.run queued true);
  finished_at = none;
  failure_reason = none;
}

-- The run is registered, announced and executed.
abbrev pub restart : String → RunRow → World → World
restart run_id r w =
    call (execute run_id)
      (call (run_stage run_id r.run.stage r.run.available_actions) (call (register_run run_id) w))

-- After the wait, whose answer is whether the container is gone.
abbrev pub after_exit :
    Services → ℕ → String → RunRow → String → String → Bool → World → World × Resumed
after_exit s now run_id r id c true w = (restart run_id r (cleanup_terminal s now id w), resumed)
after_exit s now run_id r id c false w = (w, container_survived c)

-- The last thread, which is live, is killed; the container, if it has one, must be gone.
abbrev pub end_last :
    Services → ℕ → String → RunRow → String → Option String → World → World × Resumed
end_last s now run_id r id none w =
    (restart run_id r (cleanup_terminal s now id (call (kill id) w)), resumed)
end_last s now run_id r id (some c) w =
    let gone = s.container_exits c in
    after_exit s now run_id r id c gone (call (wait_for_container_exit c gone) (call (kill id) w))

unfoldable pub resume_with :
    Services → ℕ → String → RunRow → Option (String × Thread) → World → World × Resumed
unfolding is_live
resume_with s now run_id r none w = (restart run_id r w, resumed)
resume_with s now run_id r (some (id, t)) w =
    if is_live t
    then end_last s now run_id r id (present t.container_id)
        (edit_thread id (end_thread now "stopped") w)
    else (restart run_id r w, resumed)

unfoldable pub resume_run : Services → ℕ → String → ℕ → World → World × Resumed
unfolding requeue last_thread resume_with
resume_run s now run_id initiated_by w = elim (Dict.get run_id w.runs) [
  | none ↦ (w, not_theirs)
  | some r ↦
      if not (r.run.created_by == initiated_by)
      then (w, not_theirs)
      else if not (is_terminal r.run.stage || is_interrupted r.run.stage)
      then (w, in_flight)
      else resume_with s now run_id (requeue r) (last_thread run_id w.threads)
          (record w { runs = Dict.put run_id (requeue r) w.runs })
]
