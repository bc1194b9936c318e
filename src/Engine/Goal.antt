-- ===== src/Engine/Goal.antt =====
-- worker/worker/engine/goal_mode.py: the stages of a goal, its artifact, the stage graph and the clarifying
-- questions. The proofs are in the children.
--
-- An artifact is the record of the keys that the engine reads; its stage is text, as in the checkpoint. A
-- question has its prompt and the labels of its options. The length of the stripped story and its lower
-- case are Python's, as arguments.
pub mod Router
pub mod Questions
use z_agent.Base.{
  ℕ, zero, suc, ◌+◌, ◌-◌, ◌*◌, ◌/◌, ◌%◌, ◌≤◌, ◌<◌, String, ◌≡◌, refl, sym, ap, ◌∙◌, ◌≢◌, ◌↔◌, ◌⊎◌,
  inl, inr, Bool, true, false, not, ◌&&◌, ◌||◌, Option, none, some, List, [], ◌∷◌, ◌++◌, map, arith,
  str_eq, eq_iff, ltb, leb, ◌==◌, if◌then◌else◌, Bool-cases, Option-cases, ltb→lt, leb→le, is_some,
  length, any, all, filter, count, take, drop, head?, All, length-append, count-append, count-le,
  length-drop, length-take, All-append, any-append, codes, elem, eq_self, elem-append, take_text,
  Result, ok, raise, or_else,
}
use z_agent.Base.{contains}
use z_agent.Base.Dict
use z_agent.Base.Dict.{Dict}

pub data GoalStage : Type 0 where
  intake : GoalStage
  clarify : GoalStage
  explore : GoalStage
  plan : GoalStage
  implement : GoalStage
  verify : GoalStage
  rebase_gate : GoalStage
  pr : GoalStage
  done : GoalStage
  blocked : GoalStage

unfoldable pub stage_value : GoalStage → String
stage_value intake = "intake"
stage_value clarify = "clarify"
stage_value explore = "explore"
stage_value plan = "plan"
stage_value implement = "implement"
stage_value verify = "verify"
stage_value rebase_gate = "rebase_gate"
stage_value pr = "pr"
stage_value done = "done"
stage_value blocked = "blocked"

pub record Question : Type 0 where
  pub id : String
  pub prompt : String
  pub options : List String

pub record GoalArtifact : Type 0 where
  pub goal_id : String
  pub user_story : String
  pub stage : Option String
  pub clarify_questions : Option (List Question)
  pub plan_artifact : Option (List String)
  pub diff_summary : Option String
  pub task_tracker : List String
  pub blocked_reason : Option String

unfoldable pub make_goal : String → String → GoalArtifact
make_goal goal_id user_story = record {
  goal_id = goal_id;
  user_story = user_story;
  stage = some "intake";
  clarify_questions = none;
  plan_artifact = none;
  diff_summary = none;
  task_tracker = [];
  blocked_reason = none;
}

-- `GoalStage(raw)`, where an unknown text is blocked
abbrev pub stage_named : List GoalStage → String → GoalStage
stage_named [] raw = blocked
stage_named (s ∷ ss) raw = if str_eq (stage_value s) raw then s else stage_named ss raw

abbrev pub stages : List GoalStage
stages =
    intake ∷ clarify ∷ explore ∷ plan ∷ implement ∷ verify ∷ rebase_gate ∷ pr ∷ done ∷ blocked ∷ []

-- `stage_of`
unfoldable pub stage_of : GoalArtifact → GoalStage
stage_of g = elim g.stage [ none ↦ intake | some raw ↦ stage_named stages raw ]

unfoldable pub advance_artifact : GoalArtifact → GoalStage → GoalArtifact
advance_artifact g next_stage = record g { stage = some (stage_value next_stage) }

unfoldable pub block_artifact : GoalArtifact → String → GoalArtifact
block_artifact g reason = record g { stage = some "blocked"; blocked_reason = some reason }

-- `GoalGraph.next_stage`
unfoldable pub next_stage : GoalStage → GoalStage
next_stage intake = clarify
next_stage clarify = explore
next_stage explore = plan
next_stage plan = implement
next_stage implement = verify
next_stage verify = rebase_gate
next_stage rebase_gate = pr
next_stage pr = done
next_stage done = done
next_stage blocked = blocked

-- `ADVANCE_ON_TURN_END`
unfoldable pub advance_on_turn_end : GoalStage → Option GoalStage
advance_on_turn_end explore = some plan
advance_on_turn_end implement = some verify
advance_on_turn_end rebase_gate = some pr
advance_on_turn_end _ = none

abbrev pub vague : List String
vague = " it " ∷ " that " ∷ " this " ∷ "the thing" ∷ "you know" ∷ []

unfoldable pub needs_clarification : (String → String) → (String → String) → String → Bool
needs_clarification lower strip user_story =
    if str_eq user_story "" || ltb (length (codes (strip user_story))) 20
    then true
    else any (λ v. contains v (lower user_story)) vague

unfoldable pub build_clarify_card : List Question
build_clarify_card =
    record {
      id = "objective";
      prompt = "What is the specific outcome you want?";
      options = "Fix a bug" ∷ "Add a feature" ∷ "Refactor / clean up" ∷ [];
    }
    ∷ record {
      id = "repo";
      prompt = "Which repository is the target?";
      options = "The current repo" ∷ "A different repo (I'll specify)" ∷ [];
    }
    ∷ []

-- `_pending_questions`, by thread
abbrev pub Pending : Type 0
Pending = Dict (List Question)

-- The checks of `ask_user` on each question.
abbrev pub question_error : List Question → Option String
question_error [] = none
question_error (q ∷ qs) =
    if str_eq q.prompt ""
    then some "missing prompt"
    else if ltb (length q.options) 2
    then some "needs >= 2 options"
    else question_error qs

-- `ask_user` in the thread: the staged questions and whether it is no error
unfoldable pub ask_user : String → List Question → Pending → Pending × Bool
ask_user thread_id questions pending =
    if ltb (length questions) 2 || ltb 4 (length questions)
    then (pending, false)
    else elim (question_error questions) [
      | some error ↦ (pending, false)
      | none ↦ (Dict.put thread_id questions pending, true)
    ]

-- `get_pending_questions` and `clear_pending_questions`, as tools_node calls them after ask_user
unfoldable pub take_pending : String → Pending → Option (List Question) × Pending
take_pending thread_id pending = (Dict.get thread_id pending, Dict.remove thread_id pending)
