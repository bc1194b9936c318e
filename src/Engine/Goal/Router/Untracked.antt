-- ===== src/Engine/Goal/Router/Untracked.antt =====
-- A goal whose turns leave the channel task_tracker empty never gets past its plan.
use z_agent.Base.{
  String, ◌≡◌, refl, ap, ◌∙◌, ◌≢◌, inl, inr, Bool, true, false, Option, none, some, List, [], ◌∷◌,
  arith, Bool-cases, Option-cases, All,
}
use z_agent.Engine.Goal.{
  GoalStage, intake, clarify, explore, plan, blocked, GoalArtifact, stage_of, make_goal,
  advance_artifact, block_artifact,
}
use z_agent.Engine.Goal.Router.{
  GoalState, goal_router_node, at_stage, at_plan, at_verify, advance_to, critic_block, nudge,
  intake_goal,
}
use z_agent.Engine.Goal.Router.Moves.{
  goal_router-at, Turn, after_turn, stage_now, goal_router-Move, goal_tracker, has_tracker, Move,
  unclear, clear, answered, explored, planned, replanned, implemented, verified, sent_back, rebased,
  opened, gave_up, over,
}
use z_agent.Engine.Goal.Router.Ends.{turn-stage, passes, passes_over, passes_on}

-- Before the implementation, or blocked.
abbrev pub is_early : Option GoalStage → Bool
is_early none = true
is_early (some clarify) = true
is_early (some explore) = true
is_early (some plan) = true
is_early (some blocked) = true
is_early _ = false

early-Move :
    (s n : GoalState) (a b : Option GoalStage)
    → Move s n a b
    → has_tracker s ≡ false
    → is_early a ≡ true
    → is_early b ≡ true
early-Move s n a b unclear k h = refl
early-Move s n a b clear k h = refl
early-Move s n a b (answered _) k h = refl
early-Move s n a b (explored _) k h = refl
early-Move s n a b (planned _ tracked) k h = absurd (ground arith)
early-Move s n a b (replanned _ _) k h = refl
early-Move s n a b (implemented _) k h = ground arith
early-Move s n a b (verified _ _) k h = ground arith
early-Move s n a b (sent_back _ _) k h = ground arith
early-Move s n a b rebased k h = ground arith
early-Move s n a b (opened _) k h = ground arith
early-Move s n a b (gave_up _) k h = refl
early-Move s n a b (over _) k h = h

early_not_intake : (o : Option GoalStage) → is_early o ≡ true → o ≢ some intake
early_not_intake o h e = absurd (ground (arith, ap is_early e))

module _ (lower strip : String → String) (goal_id : String) where
  at_stage-tracker :
      (st : GoalStage) (s : GoalState) (g : GoalArtifact)
      → s.goal_artifact ≡ some g
      → s.task_tracker ≡ []
      → g.task_tracker ≡ []
      → goal_tracker (at_stage lower strip goal_id st s g) ≡ []
  unfolding at_stage goal_tracker advance_to advance_artifact at_plan at_verify critic_block nudge
      block_artifact
  at_stage-tracker st s g h p q = ground arith

  -- A pass over empty trackers leaves the goal without one.
  router-tracker :
      (s : GoalState)
      → s.task_tracker ≡ []
      → goal_tracker s ≡ []
      → goal_tracker (goal_router_node lower strip goal_id s) ≡ []
  unfolding goal_tracker intake_goal make_goal
  router-tracker s p q = elim (Option-cases s.goal_artifact) [
    | inr fresh ↦ ap goal_tracker (goal_router-at lower strip goal_id s none fresh) ∙ ground arith
    | inl (g, h) ↦
        ap goal_tracker (goal_router-at lower strip goal_id s (some g) h)
        ∙ at_stage-tracker (stage_of g) s g h p (ground arith)
  ]

  turn-tracker :
      (t : Turn) (s : GoalState)
      → (goal_tracker (after_turn t s) ≡ goal_tracker s)
        × ((after_turn t s).task_tracker ≡ t.task_tracker)
  unfolding after_turn goal_tracker
  turn-tracker t s = (refl, refl)

  -- A goal whose turns leave task_tracker empty, and that is before the implementation or blocked and has
  -- no tracked steps of its own, stays so: it is never implemented, verified or completed, whatever the
  -- messages.
  pub passes-untracked :
      (ts : List Turn) (s : GoalState)
      → All (λ t. t.task_tracker ≡ []) ts
      → goal_tracker s ≡ []
      → is_early (stage_now s) ≡ true
      → is_early (stage_now (passes lower strip goal_id ts s)) ≡ true
  unfolding passes
  passes-untracked [] s hs q h = h
  passes-untracked (t ∷ ts) s (empty, hs) q h = elim (Bool-cases s.is_done) [
    | inl ended ↦
        ap (λ x. is_early (stage_now x)) (passes_over lower strip goal_id (t ∷ ts) s ended) ∙ h
    | inr going ↦
        let u = after_turn t s in
        let n = goal_router_node lower strip goal_id u in
        let before : is_early (stage_now u) ≡ true = ap is_early (turn-stage t s) ∙ h in
        let (same, own) = turn-tracker t s in
        let none_tracked : has_tracker u ≡ false = rw (same ∙ q, own ∙ empty) refl in
        ap (λ x. is_early (stage_now x)) (passes_on lower strip goal_id t ts s going)
        ∙ passes-untracked ts n hs (router-tracker u (own ∙ empty) (same ∙ q)) (
            early-Move u n (stage_now u) (stage_now n)
              (goal_router-Move lower strip goal_id u (early_not_intake (stage_now u) before))
              none_tracked before)
  ]
