-- ===== src/Engine/Goal/Router.antt =====
-- worker/worker/engine/graph.py: the goal router, its critic loop and what it reads of the messages, and the
-- routing after it.
--
-- A state holds the channels that the router reads or writes. A message is one of the three kinds that it tells
-- apart, with its origin; a tool's result has its text and the stamped exit code, where a process
-- that a signal ended has a negative one. Events are not modelled. The id of a new goal is an argument.
pub mod Moves
pub mod Ends
pub mod TurnEnds
pub mod Untracked
use z_agent.Base.{
  ℕ, zero, suc, ◌+◌, ◌-◌, ◌*◌, ◌/◌, ◌%◌, ◌≤◌, ◌<◌, String, ◌≡◌, refl, sym, ap, ◌∙◌, ◌≢◌, ◌↔◌, ◌⊎◌,
  inl, inr, Bool, true, false, not, ◌&&◌, ◌||◌, Option, none, some, List, [], ◌∷◌, ◌++◌, map, arith,
  str_eq, eq_iff, ltb, leb, ◌==◌, if◌then◌else◌, Bool-cases, Option-cases, ltb→lt, leb→le, is_some,
  length, any, all, filter, count, take, drop, head?, All, length-append, count-append, count-le,
  length-drop, length-take, All-append, any-append, codes, elem, eq_self, elem-append, take_text,
  Result, ok, raise, or_else,
}
use z_agent.Base.{contains, str_append}
use z_agent.Engine.Watchdogs.{CriticFinding, evaluate, should_block}
use z_agent.Engine.Goal.{
  GoalStage, intake, clarify, explore, plan, implement, verify, rebase_gate, pr, done, blocked,
  stage_value, Question, GoalArtifact, make_goal, stage_of, advance_artifact, block_artifact,
  advance_on_turn_end, needs_clarification, build_clarify_card,
}

pub data ExitCode : Type 0 where
  exited : ℕ → ExitCode
  signalled : ℕ → ExitCode

pub data Message : Type 0 where
  human : String → String → Message
  tool_result : String → String → Option ExitCode → Message
  assistant : String → Message

pub record GoalState : Type 0 where
  pub messages : List Message
  pub goal_artifact : Option GoalArtifact
  pub task_tracker : List String
  pub pending_questions : Option (List Question)
  pub critic_iterations : ℕ
  pub is_done : Bool
  pub blocked_reason : Option String
  pub stage_envelope : Option String

-- `_MAX_CRITIC_ITERATIONS`
abbrev pub max_critic_iterations : ℕ
max_critic_iterations = 3

-- `_first_user_story`
unfoldable pub first_user_story : List Message → String
first_user_story [] = ""
first_user_story (human origin content ∷ ms) =
    if str_eq origin "user" then content else first_user_story ms
first_user_story (tool_result name content code ∷ ms) = first_user_story ms
first_user_story (assistant content ∷ ms) = first_user_story ms

unfoldable pub last_message : List Message → Option Message
last_message [] = none
last_message (m ∷ []) = some m
last_message (m ∷ n ∷ ms) = last_message (n ∷ ms)

abbrev pub is_human_input : Option Message → Bool
is_human_input (some (human origin content)) = elem origin ("user" ∷ "nudge" ∷ [])
is_human_input _ = false

-- `_clarify_answered`
unfoldable pub clarify_answered : GoalState → Bool
clarify_answered s = is_some s.pending_questions && is_human_input (last_message s.messages)

abbrev pub test_marks : List String
test_marks = "pytest" ∷ "PASSED" ∷ "FAILED" ∷ "tests passed" ∷ "npm test" ∷ "vitest" ∷ []

-- The verdict of one message: none if it is no result of a test command.
abbrev pub tests_of : Message → Option Bool
tests_of (tool_result name content code) =
    if str_eq name "terminal_exec" && any (λ t. contains t content) test_marks
    then some (elim code [
      | none ↦ contains "[exit 0]" content
      | some (exited n) ↦ n == 0
      | some (signalled n) ↦ false
    ])
    else none
tests_of (human origin content) = none
tests_of (assistant content) = none

-- `_extract_evidence`: tests_pass of the most recent test command, false without one
unfoldable pub latest_tests : List Message → Option Bool
latest_tests [] = none
latest_tests (m ∷ ms) = elim (latest_tests ms) [ some b ↦ some b | none ↦ tests_of m ]

unfoldable pub extract_evidence : GoalState → Bool
extract_evidence s = elim (latest_tests s.messages) [ some b ↦ b | none ↦ false ]

-- A stage's advance, with its envelope.
unfoldable pub advance_to : GoalState → GoalArtifact → GoalStage → GoalState
advance_to s g stage = record s {
  goal_artifact = some (advance_artifact g stage);
  stage_envelope = some (stage_value stage);
}

unfoldable pub nudge : String → GoalState → GoalState
nudge reason s = record s {
  messages =
      s.messages
      ++ (human "nudge" (str_append "<critic-finding>\n" (str_append reason "\n</critic-finding>"))
          ∷ []);
}

-- `_critic_block`
unfoldable pub critic_block : GoalState → GoalArtifact → String → Option GoalStage → GoalState
critic_block s g reason send_back_to =
    let iterations = suc s.critic_iterations in
    if leb max_critic_iterations iterations
    then record s {
      goal_artifact = some (block_artifact g (str_append "critic: " reason));
      stage_envelope = some "blocked";
      is_done = true;
      blocked_reason = some (str_append "critic: " reason);
      critic_iterations = iterations;
    }
    else nudge reason (record (elim send_back_to [ none ↦ s | some stage ↦ advance_to s g stage ]) {
      critic_iterations = iterations;
    })

-- The tracker of the state, or else that of the goal.
abbrev pub tracker_of : List String → List String → List String
tracker_of [] others = others
tracker_of (t ∷ ts) others = t ∷ ts

module _ (lower strip : String → String) (goal_id : String) where
  -- A goal is built of the user's story.
  unfoldable pub intake_goal : GoalState → GoalState
  intake_goal s =
      let story = first_user_story s.messages in
      let artifact = make_goal goal_id story in
      if needs_clarification lower strip story
      then record s {
        goal_artifact = some (record artifact {
          stage = some "clarify";
          clarify_questions = some build_clarify_card;
        });
        stage_envelope = some "clarify";
      }
      else record s {
        goal_artifact = some (record artifact { stage = some "explore" });
        stage_envelope = some "explore";
      }

  unfoldable pub at_plan : GoalState → GoalArtifact → GoalState
  at_plan s g = elim (tracker_of s.task_tracker g.task_tracker) [
    | [] ↦
        critic_block s g "plan produced no tracked steps — the plan must be a task list, not prose"
          none
    | ◌∷◌ t ts ↦ record s {
      goal_artifact = some (record (advance_artifact g implement) { task_tracker = t ∷ ts });
      stage_envelope = some "implement";
      critic_iterations = 0;
    }
  ]

  unfoldable pub at_verify : GoalState → GoalArtifact → GoalState
  at_verify s g =
      let verdict =
        should_block
          (evaluate lower strip g.plan_artifact (some (extract_evidence s)) g.diff_summary) in
      if verdict.0
      then critic_block s g verdict.1 (some implement)
      else record (advance_to s g rebase_gate) { critic_iterations = 0 }

  unfoldable pub at_stage : GoalStage → GoalState → GoalArtifact → GoalState
  at_stage intake s g = s
  at_stage clarify s g =
      if clarify_answered s
      then record (advance_to s g explore) { pending_questions = none }
      else record s { is_done = true }
  at_stage explore s g = record (advance_to s g plan) { critic_iterations = 0 }
  at_stage plan s g = at_plan s g
  at_stage implement s g = advance_to s g verify
  at_stage verify s g = at_verify s g
  at_stage rebase_gate s g = advance_to s g pr
  at_stage pr s g = record s { goal_artifact = some (advance_artifact g done); is_done = true }
  at_stage done s g = record s { is_done = true }
  at_stage blocked s g = record s { is_done = true }

  -- `goal_router_node`
  unfoldable pub goal_router_node : GoalState → GoalState
  goal_router_node s = elim s.goal_artifact [
    | none ↦ intake_goal s
    | some g ↦ at_stage (stage_of g) s g
  ]
