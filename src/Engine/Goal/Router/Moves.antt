-- ===== src/Engine/Goal/Router/Moves.antt =====
-- The moves of the goal router, as a relation of the stages before and after a pass.
use mathlib.Core.Path.{subst}
use z_agent.Base.{
  suc, ◌<◌, String, ◌≡◌, refl, sym, ap, ◌∙◌, ◌≢◌, ◌⊎◌, inl, inr, Bool, true, false, Option, none,
  some, List, [], ◌∷◌, arith, ltb, leb, Bool-cases, Option-cases, length,
}
use z_agent.Engine.Watchdogs.{evaluate, should_block}
use z_agent.Engine.Goal.{
  GoalStage, intake, clarify, explore, plan, implement, verify, rebase_gate, pr, done, blocked,
  stage_value, Question, GoalArtifact, stage_of, advance_artifact, block_artifact,
  needs_clarification,
}
use z_agent.Engine.Goal.Router.{
  first_user_story, Message, GoalState, tracker_of, extract_evidence, clarify_answered, advance_to,
  critic_block, nudge, intake_goal, at_plan, at_verify, at_stage, goal_router_node,
}

-- What the agent's turn leaves in the channels that the router reads.
pub record Turn : Type 0 where
  pub messages : List Message
  pub task_tracker : List String
  pub pending_questions : Option (List Question)

unfoldable pub after_turn : Turn → GoalState → GoalState
after_turn t s = record s {
  messages = t.messages;
  task_tracker = t.task_tracker;
  pending_questions = t.pending_questions;
}

unfoldable pub stage_now : GoalState → Option GoalStage
stage_now s = elim s.goal_artifact [ none ↦ none | some g ↦ some (stage_of g) ]

stage_now-none : (s : GoalState) → s.goal_artifact ≡ none → stage_now s ≡ none
unfolding stage_now
stage_now-none s h = rw (h, stage_now) refl

stage_now-some :
    (s : GoalState) (g : GoalArtifact) → s.goal_artifact ≡ some g → stage_now s ≡ some (stage_of g)
unfolding stage_now
stage_now-some s g h = rw (h, stage_now) refl

pub stage_of-advance : (g : GoalArtifact) (st : GoalStage) → stage_of (advance_artifact g st) ≡ st
unfolding stage_of advance_artifact stage_value
stage_of-advance g intake = refl
stage_of-advance g clarify = refl
stage_of-advance g explore = refl
stage_of-advance g plan = refl
stage_of-advance g implement = refl
stage_of-advance g verify = refl
stage_of-advance g rebase_gate = refl
stage_of-advance g pr = refl
stage_of-advance g done = refl
stage_of-advance g blocked = refl

pub stage_of-block :
    (g : GoalArtifact) (reason : String) → stage_of (block_artifact g reason) ≡ blocked
unfolding stage_of block_artifact stage_value
stage_of-block g reason = refl

-- A blocking finding ends the turn, or counts one of two rounds and goes where it is sent.
pub critic_block-cases :
    (s : GoalState) (g : GoalArtifact) (reason : String) (back : Option GoalStage)
    → s.goal_artifact ≡ some g
    → ((critic_block s g reason back).is_done ≡ true)
        × (stage_now (critic_block s g reason back) ≡ some blocked)
      ⊎ ((s.critic_iterations < 2)
          × ((critic_block s g reason back).critic_iterations ≡ suc s.critic_iterations)
          × (stage_now (critic_block s g reason back)
              ≡ elim back [ none ↦ some (stage_of g) | some st ↦ some st ]))
unfolding critic_block nudge advance_to stage_now
critic_block-cases s g reason back h = elim (Bool-cases (leb 3 (suc s.critic_iterations))) [
  | inl over ↦ inl (ground arith, rw (over, critic_block) (ap some (stage_of-block g _)))
  | inr under ↦ inr (
    ground arith,
    ground arith,
    elim back
        as (λ b.
          stage_now (critic_block s g reason b)
          ≡ elim b [ none ↦ some (stage_of g) | some st ↦ some st ]) [
            | none ↦ rw (under, critic_block) (rw h refl)
            | some st ↦ rw (under, critic_block) (ap some (stage_of-advance g st))
          ],
  )
]

-- The steps that the goal has: the state's own, or else the goal's.
unfoldable pub goal_tracker : GoalState → List String
goal_tracker s = elim s.goal_artifact [ none ↦ [] | some g ↦ g.task_tracker ]

abbrev pub has_tracker : GoalState → Bool
has_tracker s = ltb 0 (length (tracker_of s.task_tracker (goal_tracker s)))

-- The stage before a pass from s to n, and the stage after it.
pub data Move (s n : GoalState) : Option GoalStage → Option GoalStage → Type 0 where
  unclear : Move s n none (some clarify)
  clear : Move s n none (some explore)
  answered : clarify_answered s ≡ true → Move s n (some clarify) (some explore)
  explored : n.critic_iterations ≡ 0 → Move s n (some explore) (some plan)
  planned : n.critic_iterations ≡ 0 → has_tracker s ≡ true → Move s n (some plan) (some implement)
  replanned :
      s.critic_iterations < 2
      → n.critic_iterations ≡ suc s.critic_iterations
      → Move s n (some plan) (some plan)
  implemented : n.critic_iterations ≡ s.critic_iterations → Move s n (some implement) (some verify)
  verified :
      n.critic_iterations ≡ 0
      → extract_evidence s ≡ true
      → Move s n (some verify) (some rebase_gate)
  sent_back :
      s.critic_iterations < 2
      → n.critic_iterations ≡ suc s.critic_iterations
      → Move s n (some verify) (some implement)
  rebased : Move s n (some rebase_gate) (some pr)
  opened : n.is_done ≡ true → Move s n (some pr) (some done)
  gave_up : {st : GoalStage} → n.is_done ≡ true → Move s n (some st) (some blocked)
  over : {st : GoalStage} → n.is_done ≡ true → Move s n (some st) (some st)

List-cases : {A : Type 0} (xs : List A) → (xs ≡ []) ⊎ ((x : A) × (rest : List A) × (xs ≡ x ∷ rest))
List-cases [] = inl refl
List-cases (x ∷ rest) = inr (x, rest, refl)

ended-Move :
    (st : GoalStage) (s : GoalState) (g : GoalArtifact)
    → s.goal_artifact ≡ some g
    → stage_of g ≡ st
    → Move s (record s { is_done = true }) (some st) (stage_now (record s { is_done = true }))
unfolding stage_now
ended-Move st s g h p =
    subst (Move s (record s { is_done = true }) (some st))
      (sym (ap (λ o. elim o [ none ↦ none | some x ↦ some (stage_of x) ]) h ∙ ap some p))
      (over refl)

-- A finding at the plan's exit, and one at the verification's.
finding-Move :
    (s : GoalState) (g : GoalArtifact) (reason : String)
    → s.goal_artifact ≡ some g
    → ((stage_of g ≡ plan)
        → Move s
            (critic_block s g reason none)
            (some plan)
            (stage_now (critic_block s g reason none)))
      × Move s
          (critic_block s g reason (some implement))
          (some verify)
          (stage_now (critic_block s g reason (some implement)))
finding-Move s g reason h = (
  λ p. elim (critic_block-cases s g reason none h) [
    | inl (ended, stage) ↦
        subst (Move s (critic_block s g reason none) (some plan)) (sym stage) (gave_up ended)
    | inr (few, next, stage) ↦
        subst (Move s (critic_block s g reason none) (some plan)) (sym (stage ∙ ap some p))
          (replanned few next)
  ],
  elim (critic_block-cases s g reason (some implement) h) [
    | inl (ended, stage) ↦
        subst (Move s (critic_block s g reason (some implement)) (some verify)) (sym stage)
          (gave_up ended)
    | inr (few, next, stage) ↦
        subst (Move s (critic_block s g reason (some implement)) (some verify)) (sym stage)
          (sent_back few next)
  ],
)

-- Without tests that pass, the rubric blocks.
failed-should_block :
    (lower strip : String → String) (steps : Option (List String)) (diff : Option String)
    → (should_block (evaluate lower strip steps (some false) diff)).0 ≡ true
unfolding should_block evaluate
failed-should_block lower strip steps diff = refl

module _ (lower strip : String → String) (goal_id : String) where
  at_plan-Move :
      (s : GoalState) (g : GoalArtifact)
      → s.goal_artifact ≡ some g
      → stage_of g ≡ plan
      → Move s
          (at_plan lower strip goal_id s g)
          (some plan)
          (stage_now (at_plan lower strip goal_id s g))
  unfolding at_plan goal_tracker stage_now stage_of advance_artifact stage_value
  at_plan-Move s g h p = elim (List-cases (tracker_of s.task_tracker g.task_tracker)) [
    | inl empty ↦ rw (empty, at_plan) ((finding-Move s g _ h).0 p)
    | inr (t, ts, tracked) ↦
        rw (tracked, at_plan) (planned refl (rw (h, tracker_of) (rw (tracked) (ground arith))))
  ]

  at_verify-passed :
      (s : GoalState) (g : GoalArtifact)
      → (should_block
          (evaluate lower strip g.plan_artifact (some (extract_evidence s)) g.diff_summary)).0
        ≡ false
      → extract_evidence s ≡ true
  at_verify-passed s g h = elim (Bool-cases (extract_evidence s)) [
    | inl passed ↦ passed
    | inr failed ↦
        let blocks : (should_block
              (evaluate lower strip g.plan_artifact (some (extract_evidence s)) g.diff_summary)).0
            ≡ true =
          rw (failed) (failed-should_block lower strip g.plan_artifact g.diff_summary) in
        absurd (ground arith)
  ]

  at_verify-Move :
      (s : GoalState) (g : GoalArtifact)
      → s.goal_artifact ≡ some g
      → Move s
          (at_verify lower strip goal_id s g)
          (some verify)
          (stage_now (at_verify lower strip goal_id s g))
  unfolding at_verify advance_to stage_now stage_of advance_artifact stage_value
  at_verify-Move s g h =
      elim (Bool-cases
        (should_block
          (evaluate lower strip g.plan_artifact (some (extract_evidence s)) g.diff_summary)).0) [
            | inl blocks ↦ rw (blocks, at_verify) ((finding-Move s g _ h).1)
            | inr passes ↦ rw (passes, at_verify) (verified refl (at_verify-passed s g passes))
          ]

  at_stage-Move :
      (st : GoalStage) (s : GoalState) (g : GoalArtifact)
      → s.goal_artifact ≡ some g
      → stage_of g ≡ st
      → st ≢ intake
      → Move s
          (at_stage lower strip goal_id st s g)
          (some st)
          (stage_now (at_stage lower strip goal_id st s g))
  unfolding at_stage advance_to stage_now stage_of advance_artifact stage_value
  at_stage-Move intake s g h p q = absurd (q refl)
  at_stage-Move clarify s g h p q = elim (Bool-cases (clarify_answered s)) [
    | inl back ↦ rw (back, at_stage) (answered back)
    | inr silent ↦ rw (silent, at_stage) (ended-Move clarify s g h p)
  ]
  at_stage-Move explore s g h p q = explored refl
  at_stage-Move plan s g h p q = at_plan-Move s g h p
  at_stage-Move implement s g h p q = implemented refl
  at_stage-Move verify s g h p q = at_verify-Move s g h
  at_stage-Move rebase_gate s g h p q = rebased
  at_stage-Move pr s g h p q = opened refl
  at_stage-Move done s g h p q = ended-Move done s g h p
  at_stage-Move blocked s g h p q = ended-Move blocked s g h p

  intake-Move :
      (s : GoalState)
      → Move s
          (intake_goal lower strip goal_id s)
          none
          (stage_now (intake_goal lower strip goal_id s))
  unfolding intake_goal stage_now stage_of stage_value
  intake-Move s =
      elim (Bool-cases (needs_clarification lower strip (first_user_story s.messages))) [
        | inl vague ↦ rw (vague, intake_goal) unclear
        | inr plain ↦ rw (plain, intake_goal) clear
      ]

  -- The pass by what the goal's channel holds.
  pub goal_router-at :
      (s : GoalState) (o : Option GoalArtifact)
      → s.goal_artifact ≡ o
      → goal_router_node lower strip goal_id s ≡ elim o [
        | none ↦ intake_goal lower strip goal_id s
        | some g ↦ at_stage lower strip goal_id (stage_of g) s g
      ]
  unfolding goal_router_node
  goal_router-at s o h =
      ap
        (λ a. elim a [
          | none ↦ intake_goal lower strip goal_id s
          | some g ↦ at_stage lower strip goal_id (stage_of g) s g
        ])
        h

  -- A pass makes a move.
  pub goal_router-Move :
      (s : GoalState)
      → stage_now s ≢ some intake
      → Move s
          (goal_router_node lower strip goal_id s)
          (stage_now s)
          (stage_now (goal_router_node lower strip goal_id s))
  goal_router-Move s q = elim (Option-cases s.goal_artifact) [
    | inr fresh ↦
        subst (λ n. Move s n (stage_now s) (stage_now n)) (sym (goal_router-at s none fresh))
          (subst
            (λ o.
              Move s (intake_goal lower strip goal_id s) o
                (stage_now (intake_goal lower strip goal_id s)))
            (sym (stage_now-none s fresh)) (intake-Move s))
    | inl (g, h) ↦
        subst (λ n. Move s n (stage_now s) (stage_now n)) (sym (goal_router-at s (some g) h))
          (subst
            (λ o.
              Move s (at_stage lower strip goal_id (stage_of g) s g) o
                (stage_now (at_stage lower strip goal_id (stage_of g) s g)))
            (sym (stage_now-some s g h))
            (at_stage-Move (stage_of g) s g h refl (λ e. q (stage_now-some s g h ∙ ap some e))))
  ]
