-- ===== src/Controls/Resumed.antt =====
-- How `resume_run` ends.
use z_agent.Base.{ℕ, String, ◌≡◌, Bool, true, false, Option, none, some, [], ◌∷◌, head?}
use z_agent.Base.Dict
use z_agent.Base.Dict.{Dict}
use z_agent.Contracts.{RunStage, queued, interrupted, completed, failed, abandoned}
use z_agent.Threads.{
  Thread, RunRow, World, Services, kill, wait_for_container_exit, execute, present,
}
use z_agent.Controls.{is_live}
use z_agent.Controls.Resume.{
  Resumed, not_theirs, in_flight, resumed, container_survived, last_thread,
}
use z_agent.Controls.Rows.{run_of, sans_cost, IsBare}

-- The run is queued again, with no action to take.
abbrev pub IsQueued : String → World → Type 0
IsQueued run_id w =
    (row : RunRow) × (run_of (Dict.get run_id w.runs) ≡ some (sans_cost row))
    × (row.run.stage ≡ queued)
    × (row.run.available_actions ≡ [])
    × (row.finished_at ≡ none)
    × (row.failure_reason ≡ none)

-- The live thread that the run still had: its container is gone, and so is its key.
abbrev pub IsEndedLast : Services → Option (String × Thread) → World → Type 0
IsEndedLast s none w = Unit
IsEndedLast s (some (id, t)) w =
    is_live t ≡ true
    → ((c : String) → present t.container_id ≡ some c → s.container_exits c ≡ true)
      × IsBare (Dict.get id w.threads)

-- What `resume_run` leaves, by its answer.
abbrev pub IsResumed : Services → String → World → World → Resumed → Type 0
IsResumed s run_id w w' not_theirs = w' ≡ w
IsResumed s run_id w w' in_flight = w' ≡ w
IsResumed s run_id w w' resumed =
    IsQueued run_id w'
    × (head? w'.calls ≡ some (execute run_id))
    × IsEndedLast s (last_thread run_id w.threads) w'
IsResumed s run_id w w' (container_survived c) =
    IsQueued run_id w'
    × (s.container_exits c ≡ false)
    × (id : String) × (w'.calls ≡ wait_for_container_exit c false ∷ kill id ∷ w.calls)

module _ (s : Services) (now : ℕ) (run_id : String) (r : RunRow)
    (is_queued : (r.run.stage ≡ queued)
      × (r.run.available_actions ≡ [])
      × (r.finished_at ≡ none)
      × (r.failure_reason ≡ none)) where
  -- The table of runs after the requeue, which the cleanup does not change but for the cost.
  abbrev Requeued : World → Type 0
  Requeued w = run_of (Dict.get run_id w.runs) ≡ some (sans_cost r)

-- The stages that a run may be resumed from.
abbrev pub is_at_rest : RunStage → Bool
is_at_rest completed = true
is_at_rest failed = true
is_at_rest abandoned = true
is_at_rest interrupted = true
is_at_rest _ = false

-- Why `resume_run` may answer so: it acts on a run of the caller's that is at rest.
abbrev pub IsEntitled : String → ℕ → World → Resumed → Type 0
IsEntitled run_id initiated_by w not_theirs = Unit
IsEntitled run_id initiated_by w in_flight =
    (r : RunRow) × (Dict.get run_id w.runs ≡ some r)
    × (r.run.created_by ≡ initiated_by)
    × (is_at_rest r.run.stage ≡ false)
IsEntitled run_id initiated_by w resumed =
    (r : RunRow) × (Dict.get run_id w.runs ≡ some r)
    × (r.run.created_by ≡ initiated_by)
    × (is_at_rest r.run.stage ≡ true)
IsEntitled run_id initiated_by w (container_survived c) =
    (r : RunRow) × (Dict.get run_id w.runs ≡ some r)
    × (r.run.created_by ≡ initiated_by)
    × (is_at_rest r.run.stage ≡ true)
