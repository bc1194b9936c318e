-- ===== src/Contracts.antt =====
-- packages/contracts/src/collegium_contracts, intents.py and events.py: the vocabulary of stages, actions and
-- intents that the backend and the console share. An enum is a data type with its members; the text
-- of a member is its `value`.
use z_agent.Base.{ℕ, String, Bool, true, false, Option}

pub data RunStage : Type 0 where
  queued provisioning investigating planning awaiting_user developing : RunStage
  verifying pr_ready interrupted completed failed abandoned : RunStage

pub data ActionKind : Type 0 where
  review_plan approve_plan reject_plan : ActionKind
  allow_once always_allow deny_tool : ActionKind
  stop_thread nudge let_it_run pin_finding kill_replace : ActionKind
  review_evidence create_pr review_diff merge_pr : ActionKind
  start_planning move_to_development switch_to_agent_mode start_plan switch_mode : ActionKind
  stop_run abandon_run edit_and_resend resume_run send_message : ActionKind
  ask_counsel summarize_thread promote_to_plan approve_knowledge : ActionKind
  dismiss_proposal accept_proposal : ActionKind

unfoldable pub value : ActionKind → String
value review_plan = "review_plan"
value approve_plan = "approve_plan"
value reject_plan = "reject_plan"
value allow_once = "allow_once"
value always_allow = "always_allow"
value deny_tool = "deny_tool"
value stop_thread = "stop_thread"
value nudge = "nudge"
value let_it_run = "let_it_run"
value pin_finding = "pin_finding"
value kill_replace = "kill_replace"
value review_evidence = "review_evidence"
value create_pr = "create_pr"
value review_diff = "review_diff"
value merge_pr = "merge_pr"
value start_planning = "start_planning"
value move_to_development = "move_to_development"
value switch_to_agent_mode = "switch_to_agent_mode"
value start_plan = "start_plan"
value switch_mode = "switch_mode"
value stop_run = "stop_run"
value abandon_run = "abandon_run"
value edit_and_resend = "edit_and_resend"
value resume_run = "resume_run"
value send_message = "send_message"
value ask_counsel = "ask_counsel"
value summarize_thread = "summarize_thread"
value promote_to_plan = "promote_to_plan"
value approve_knowledge = "approve_knowledge"
value dismiss_proposal = "dismiss_proposal"
value accept_proposal = "accept_proposal"

-- `IRREVERSIBLE_INTENTS`
unfoldable pub irreversible : ActionKind → Bool
irreversible merge_pr = true
irreversible abandon_run = true
irreversible kill_replace = true
irreversible _ = false

pub data IntentSource : Type 0 where
  button text chip voice trigger cron webhook : IntentSource

-- The payload of an intent is never read by the code that is modelled.
pub record UserIntent : Type 0 where
  pub run_id : String
  pub intent : ActionKind
  pub source : IntentSource
  pub thread_id : Option String
  pub text : Option String
  pub confirmed : Bool

-- events.py
pub data StepKind : Type 0 where
  thinking command file_read file_edit mcp_call : StepKind
  test_run message notebook status approval : StepKind

-- A frame from a worker. Of `detail` the code reads the entries `session_id` and `kind`; the rest of
-- it, the time and the SDK's uuid are only copied, and are `body`.
pub record StepEvent : Type 0 where
  pub run_id : String
  pub thread_id : String
  pub seq : ℕ
  pub kind : StepKind
  pub title : String
  pub session_id : Option String
  pub detail_kind : Option String
  pub body : String
  pub event_uid : Option String
