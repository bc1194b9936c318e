-- ===== src/Controls/Abandon.antt =====
-- `abandon_run` of backend/app/orchestrator/run_manager.py.
use z_agent.Base.{ℕ, String, Bool, true, not, none, some, List, [], ◌∷◌, str_eq, if◌then◌else◌}
use z_agent.Base.Dict
use z_agent.Base.Dict.{Dict}
use z_agent.Contracts.{abandoned}
use z_agent.Run.{is_terminal}
use z_agent.Threads.{
  Thread, RunRow, World, Services, kill, wait_for_container_exit, thread_status, run_stage,
  shred_workspace, unregister_run, present, is_over, call, cleanup_terminal,
}
use z_agent.Controls.{ids_where, edit_where, end_thread, resolve_pending_approvals, cancel, move}

abbrev pub anything : Thread → Bool
anything t = true

unfoldable pub not_over : Thread → Bool
unfolding is_over
not_over t = not (is_over t)

-- The containers of the run's threads.
unfoldable pub containers_of : String → Dict Thread → List String
containers_of run_id [] = []
containers_of run_id ((id, t) ∷ rows) =
    let rest = containers_of run_id rows in
    if str_eq t.run_id run_id
    then elim (present t.container_id) [ none ↦ rest | some c ↦ c ∷ rest ]
    else rest

abbrev pub kill_all : List String → World → World
kill_all [] w = w
kill_all (id ∷ ids) w = kill_all ids (call (kill id) w)

-- The answers of the waits are not read.
abbrev pub wait_all : Services → List String → World → World
wait_all s [] w = w
wait_all s (c ∷ cs) w = wait_all s cs (call (wait_for_container_exit c (s.container_exits c)) w)

-- Each thread is cleaned up and announced as stopped.
abbrev pub clean_all : Services → ℕ → String → List String → World → World
clean_all s now run_id [] w = w
clean_all s now run_id (id ∷ ids) w =
    clean_all s now run_id ids
      (call (thread_status run_id id "stopped") (cleanup_terminal s now id w))

-- The stamp of the run, the kills, and the waits.
unfoldable pub kill_run : Services → ℕ → String → RunRow → World → World
unfolding ids_where containers_of
kill_run s now run_id r w =
    let moved : World = record w {
      runs = Dict.put run_id (record (move abandoned r) { finished_at = some now }) w.runs;
    } in
    wait_all s (containers_of run_id w.threads)
      (kill_all (ids_where anything run_id w.threads) moved)

unfoldable pub abandon_run : Services → ℕ → String → World → World
unfolding kill_run ids_where edit_where not_over resolve_pending_approvals
abandon_run s now run_id w = elim (Dict.get run_id w.runs) [
  | none ↦ w
  | some r ↦
      let killed = kill_run s now run_id r w in
      let stamped : World = record killed {
        threads = edit_where not_over run_id (end_thread now "stopped") killed.threads;
      } in
      let cleaned = clean_all s now run_id (ids_where anything run_id w.threads) stamped in
      if is_terminal r.run.stage
      then w
      else resolve_pending_approvals now run_id "stopped" none (
          call (run_stage run_id abandoned []) (
            call (unregister_run run_id) (call (shred_workspace run_id) (cancel s run_id cleaned))))
]
