-- ===== src/Launch/Final.antt =====
-- The ends of a run are final: what the run manager does to a terminal run.
use z_agent.Base.{ℕ, String, ◌≡◌, refl, ◌∙◌, true, false, some, arith}
use z_agent.Base.Dict
use z_agent.Contracts.{RunStage}
use z_agent.Run.{is_terminal}
use z_agent.Heartbeats.{is_working}
use z_agent.Threads.{RunRow, World, Services, call, note}
use z_agent.Controls.{stop_run}
use z_agent.Controls.Abandon.{abandon_run}
use z_agent.Controls.Reconcile.{reconcile_on_boot}
use z_agent.Controls.Turns.{fate}
use z_agent.Controls.Swept.{sweep-fate}
use z_agent.Controls.Rows.{run_of, sans_cost}
use z_agent.Launch.Failures.{fail_pre_execute, fail_execution}
use z_agent.Launch.Failed.{failed_row, fail_run-run, fail_execution-IsFailed}

terminal_idle : (stage : RunStage) → is_terminal stage ≡ true → is_working stage ≡ false
unfolding is_working
terminal_idle stage over = ground (arith, over)

fate-terminal :
    (s : Services) (now : ℕ) (run_id : String) (w : World) (r : RunRow)
    → Dict.get run_id w.runs ≡ some r
    → is_terminal r.run.stage ≡ true
    → fate s now run_id w.threads (Dict.get run_id w.runs) ≡ some (sans_cost r)
unfolding fate
fate-terminal s now run_id w r found over =
    rw (found, fate) (rw (terminal_idle r.run.stage over) refl)

stays :
    (now : ℕ) (reason : String) (r : RunRow)
    → is_terminal r.run.stage ≡ true
    → some (failed_row now reason r) ≡ some (sans_cost r)
stays now reason r over = rw over refl

-- The row of a run at a terminal stage, the time of its end and its failure reason included, is as it was, but for its
-- cost, after either failure path and the sweep at boot; a stop and an abandonment of the run change
-- nothing at all.
pub terminal_run-final :
    (s : Services) (meanwhile : World → World) (now : ℕ) (run_id reason : String) (w : World)
    (r : RunRow)
    → Dict.get run_id w.runs ≡ some r
    → is_terminal r.run.stage ≡ true
    → (stop_run s meanwhile now run_id w ≡ w)
      × (abandon_run s now run_id w ≡ w)
      × (run_of (Dict.get run_id (fail_pre_execute now run_id reason w).runs) ≡ some (sans_cost r))
      × (run_of (Dict.get run_id (fail_execution s now run_id reason w).runs) ≡ some (sans_cost r))
      × (run_of (Dict.get run_id (reconcile_on_boot s now w).0.runs) ≡ some (sans_cost r))
unfolding stop_run abandon_run fail_pre_execute
terminal_run-final s meanwhile now run_id reason w r found over = (
  rw (found, stop_run) (rw (over, stop_run) refl),
  rw (found, abandon_run) (rw (over, abandon_run) refl),
  fail_run-run now run_id reason (call (note run_id reason) w) r found ∙ stays now reason r over,
  (fail_execution-IsFailed s now run_id reason w r found).1 ∙ stays now reason r over,
  sweep-fate s now w run_id ∙ fate-terminal s now run_id w r found over,
)
