-- ===== src/Run/Stages.antt =====
-- What holds of a run over every sequence of transitions.
use z_agent.Base.{
  String, ◌≡◌, ◌↔◌, ◌⊎◌, Bool, true, false, List, [], ◌∷◌, arith, str_eq, elem, or_else,
}
use z_agent.Contracts.{
  RunStage, awaiting_user, pr_ready, interrupted, failed, value, approve_plan, merge_pr, resume_run,
}
use z_agent.Run.{Run, compute_available_actions, transition}

-- A request to change the stage: the new stage, and whether the caller may leave a terminal stage.
pub record Request : Type 0 where
  pub to : RunStage
  pub allow_terminal_exit : Bool

-- A refused transition leaves the row as it was.
unfoldable pub request : Run → Request → Run
request run q = or_else run (transition run q.to q.allow_terminal_exit)

unfoldable pub requests : Run → List Request → Run
unfolding request
requests run [] = run
requests run (q ∷ qs) = requests (request run q) qs

-- The actions on the row are those that the stage and the mode give.
abbrev pub IsConsistent : Run → Type 0
IsConsistent run = run.available_actions ≡ compute_available_actions run.stage run.mode

request-IsConsistent : (run : Run) (q : Request) → IsConsistent run → IsConsistent (request run q)
unfolding request transition
request-IsConsistent run q h = ground arith

-- Over any sequence of transition requests, refused ones included, a row whose actions are those of
-- its stage and mode stays such a row.
pub requests-IsConsistent :
    (run : Run) (qs : List Request) → IsConsistent run → IsConsistent (requests run qs)
unfolding requests
requests-IsConsistent run [] h = h
requests-IsConsistent run (q ∷ qs) h =
    requests-IsConsistent (request run q) qs (request-IsConsistent run q h)

-- Which stages offer the decisive actions: merging exactly in pr_ready; approving a plan exactly in
-- awaiting_user of a run that is not in ask mode; resuming exactly in interrupted and in failed.
offered :
    (stage : RunStage) (mode : String)
    → ((elem (value merge_pr) (compute_available_actions stage mode) ≡ true) ↔ (stage ≡ pr_ready))
      × ((elem (value approve_plan) (compute_available_actions stage mode) ≡ true)
          ↔ ((stage ≡ awaiting_user) × (str_eq mode "ask" ≡ false)))
      × ((elem (value resume_run) (compute_available_actions stage mode) ≡ true)
          ↔ ((stage ≡ interrupted) ⊎ (stage ≡ failed)))
unfolding compute_available_actions
offered stage mode = ground arith
