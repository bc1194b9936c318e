-- ===== src/Run.antt =====
-- backend/app/services/runs.py: the run state machine. The proofs are in the child.
--
-- The stage column holds members of `RunStage` (every writer takes them from the enum), so it is the
-- enum here; the mode and the actions are texts, as in the rows.
pub mod Stages
use z_agent.Base.{
  ℕ, String, Bool, true, false, not, ◌&&◌, Result, ok, raise, if◌then◌else◌, List, [], ◌∷◌, map,
  str_eq,
}
use z_agent.Contracts.{
  RunStage, queued, provisioning, investigating, planning, awaiting_user, developing, verifying,
  pr_ready, interrupted, completed, failed, abandoned, review_plan, approve_plan, reject_plan,
  review_evidence, create_pr, review_diff, merge_pr, edit_and_resend, resume_run, value,
}

pub record Run : Type 0 where
  pub id : String
  pub created_by : ℕ
  pub stage : RunStage
  pub mode : String
  pub available_actions : List String

-- `ACTIONS_BY_STAGE`
unfoldable pub actions_by_stage : RunStage → List String
unfolding value
actions_by_stage awaiting_user = map value (review_plan ∷ approve_plan ∷ reject_plan ∷ [])
actions_by_stage verifying = map value (review_evidence ∷ create_pr ∷ [])
actions_by_stage pr_ready = map value (review_diff ∷ merge_pr ∷ [])
actions_by_stage interrupted = map value (edit_and_resend ∷ resume_run ∷ [])
actions_by_stage failed = map value (resume_run ∷ [])
actions_by_stage _ = []

-- `TERMINAL_STAGES`
abbrev pub is_terminal : RunStage → Bool
is_terminal completed = true
is_terminal failed = true
is_terminal abandoned = true
is_terminal _ = false

abbrev pub is_awaiting_user : RunStage → Bool
is_awaiting_user awaiting_user = true
is_awaiting_user _ = false

unfoldable pub compute_available_actions : RunStage → String → List String
unfolding actions_by_stage
compute_available_actions stage mode =
    if is_awaiting_user stage && str_eq mode "ask" then [] else actions_by_stage stage

pub data TransitionError : Type 0 where
  terminal_run : RunStage → RunStage → TransitionError

unfoldable pub transition : Run → RunStage → Bool → Result TransitionError Run
unfolding compute_available_actions
transition run stage allow_terminal_exit =
    if is_terminal run.stage && not allow_terminal_exit
    then raise (terminal_run run.stage stage)
    else ok
        (record run { stage = stage; available_actions = compute_available_actions stage run.mode })
