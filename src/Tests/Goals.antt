-- ===== src/Tests/Goals.antt =====
-- Goal mode and the watchdogs at concrete inputs.
use z_agent.Base.{contains}
use z_agent.Base.{ℕ, String, ◌≡◌, refl, true, false, none, some, List, [], ◌∷◌, ◌++◌, arith}
use z_agent.Engine.Watchdogs.{Usage, BudgetWatchdog, check, evaluate, should_block}
use z_agent.Engine.Watchdogs.Reminders.{checks, levels}
use z_agent.Engine.Goal.{
  blocked, done, build_clarify_card, make_goal, needs_clarification, stage_of, stage_value,
  ask_user, advance_artifact, block_artifact,
}
use z_agent.Engine.Goal.Router.{
  GoalState, Message, human, tool_result, assistant, exited, goal_router_node, intake_goal,
  first_user_story, at_stage, at_plan, at_verify, advance_to, critic_block, nudge, extract_evidence,
  latest_tests, clarify_answered, last_message,
}
use z_agent.Engine.Goal.Router.Moves.{Turn, after_turn, stage_now, goal_tracker}
use z_agent.Engine.Goal.Router.Ends.{is_intake, passes, passes_end}
use z_agent.Engine.Goal.Router.Untracked.{is_early, passes-untracked}

abbrev same_text : String → String
same_text s = s

abbrev story : Message
story = human "user" "Add a retry with backoff to the fetcher and test it"

abbrev tests_passed : Message
tests_passed = tool_result "terminal_exec" "pytest: 3 passed" (some (exited 0))

abbrev fresh : GoalState
fresh = record {
  messages = [];
  goal_artifact = none;
  task_tracker = [];
  pending_questions = none;
  critic_iterations = 0;
  is_done = false;
  blocked_reason = none;
  stage_envelope = none;
}

abbrev tracked : Turn
tracked = record {
  messages = story ∷ tests_passed ∷ [];
  task_tracker = "retry" ∷ [];
  pending_questions = none;
}

abbrev untracked : Turn
untracked = record {
  messages = story ∷ assistant "A plan in prose." ∷ [];
  task_tracker = [];
  pending_questions = none;
}

abbrev seven : List Turn
seven = tracked ∷ tracked ∷ tracked ∷ tracked ∷ tracked ∷ tracked ∷ tracked ∷ []

abbrev fourteen : List Turn
fourteen = seven ++ seven

fresh-stage : is_intake (stage_now fresh) ≡ false
unfolding stage_now
fresh-stage = refl

passes_end_example : (passes same_text same_text "g1" fourteen fresh).is_done ≡ true
passes_end_example = passes_end same_text same_text "g1" fourteen fresh fresh-stage (omega arith)

seven-stage : stage_now (passes same_text same_text "g1" seven fresh) ≡ some done
unfolding passes after_turn stage_now goal_router_node intake_goal first_user_story
    needs_clarification contains make_goal stage_of stage_value at_stage at_plan at_verify
    advance_to advance_artifact evaluate should_block extract_evidence latest_tests critic_block
    nudge block_artifact clarify_answered last_message build_clarify_card
seven-stage = refl

abbrev prose : List Turn
prose = untracked ∷ untracked ∷ untracked ∷ untracked ∷ untracked ∷ []

-- Three plans in prose, and the goal is blocked.
prose-stage : stage_now (passes same_text same_text "g1" prose fresh) ≡ some blocked
unfolding passes after_turn stage_now goal_router_node intake_goal first_user_story
    needs_clarification contains make_goal stage_of stage_value at_stage at_plan at_verify
    advance_to advance_artifact evaluate should_block extract_evidence latest_tests critic_block
    nudge block_artifact clarify_answered last_message build_clarify_card
prose-stage = refl

fresh-tracker : goal_tracker fresh ≡ []
unfolding goal_tracker
fresh-tracker = refl

fresh-early : is_early (stage_now fresh) ≡ true
unfolding stage_now
fresh-early = refl

passes-untracked_example : is_early (stage_now (passes same_text same_text "g1" prose fresh)) ≡ true
passes-untracked_example =
    passes-untracked same_text same_text "g1" prose fresh (refl, (refl, (refl, (refl, (refl, tt)))))
      fresh-tracker fresh-early

card-accepted : (ask_user "t1" build_clarify_card []).1 ≡ true
unfolding ask_user build_clarify_card
card-accepted = refl

abbrev spend : ℕ → Usage
spend used = record { thread_id = "t1"; used = used; cap = 100 }

abbrev spent : List Usage
spent = spend 20 ∷ spend 55 ∷ spend 60 ∷ spend 85 ∷ spend 90 ∷ []

abbrev silent : BudgetWatchdog
silent = record { fired_50 = []; fired_80 = [] }

spent-levels : levels "t1" (checks spent silent) ≡ "50" ∷ "80" ∷ []
unfolding levels checks check
spent-levels = refl
