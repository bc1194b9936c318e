-- ===== src/Engine/Goal/Router/TurnEnds.antt =====
-- The stages that a turn's end advances.
use z_agent.Base.{String, ◌≡◌, ap, Option, some, arith}
use z_agent.Engine.Goal.{
  GoalStage, intake, clarify, explore, plan, implement, verify, rebase_gate, pr, done, blocked,
  GoalArtifact, stage_value, advance_artifact, advance_on_turn_end, next_stage,
}
use z_agent.Engine.Goal.Router.{GoalState, advance_to, at_stage}

same_stage :
    (g : GoalArtifact) (a b : GoalStage)
    → a ≡ b
    → (a ≡ b)
      × (◌≡◌ {A = Option GoalArtifact} (some (advance_artifact g a)) (some (advance_artifact g b)))
      × (◌≡◌ {A = Option String} (some (stage_value a)) (some (stage_value b)))
same_stage g a b h = (h, ap (λ x. some (advance_artifact g x)) h, ap (λ x. some (stage_value x)) h)

-- A stage of the table ADVANCE_ON_TURN_END goes to the stage that the table names, which is the next one of the
-- linear pipeline, and the envelope of the next turn is of that stage.
at_stage-advances :
    (lower strip : String → String) (goal_id : String) (st next : GoalStage) (s : GoalState)
    (g : GoalArtifact)
    → advance_on_turn_end st ≡ some next
    → (next_stage st ≡ next)
      × ((at_stage lower strip goal_id st s g).goal_artifact ≡ some (advance_artifact g next))
      × ((at_stage lower strip goal_id st s g).stage_envelope ≡ some (stage_value next))
unfolding advance_on_turn_end next_stage at_stage advance_to
at_stage-advances lower strip goal_id explore next s g h = same_stage g plan next (ground arith)
at_stage-advances lower strip goal_id implement next s g h = same_stage g verify next (ground arith)
at_stage-advances lower strip goal_id rebase_gate next s g h = same_stage g pr next (ground arith)
at_stage-advances lower strip goal_id intake next s g h = absurd (ground arith)
at_stage-advances lower strip goal_id clarify next s g h = absurd (ground arith)
at_stage-advances lower strip goal_id plan next s g h = absurd (ground arith)
at_stage-advances lower strip goal_id verify next s g h = absurd (ground arith)
at_stage-advances lower strip goal_id pr next s g h = absurd (ground arith)
at_stage-advances lower strip goal_id done next s g h = absurd (ground arith)
at_stage-advances lower strip goal_id blocked next s g h = absurd (ground arith)
