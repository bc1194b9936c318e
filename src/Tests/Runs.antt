-- ===== src/Tests/Runs.antt =====
-- Runs and intents at concrete inputs.
use z_agent.Base.{
  String, ◌≡◌, refl, ◌≢◌, true, false, none, some, List, [], ◌∷◌, str_eq, elem, ok, raise,
}
use z_agent.Contracts.{
  awaiting_user, developing, pr_ready, completed, value, approve_plan, UserIntent, text, stop_run,
  start_planning, move_to_development,
}
use z_agent.Run.{transition, Run, compute_available_actions}
use z_agent.Run.Stages.{Request, requests, IsConsistent}
use z_agent.Intents.{gate_intent, needs_confirmation, classify_text, ThreadRow}
use z_agent.Intents.Gate.{classify_text-gate_intent, classify_text-never_stops}

abbrev waiting : Run
waiting = record {
  id = "r1";
  created_by = 7;
  stage = awaiting_user;
  mode = "plan";
  available_actions = "review_plan" ∷ "approve_plan" ∷ "reject_plan" ∷ [];
}

abbrev done : Run
done = record {
  id = "r2";
  created_by = 7;
  stage = completed;
  mode = "plan";
  available_actions = [];
}

abbrev to_work : List Request
to_work =
    (record { to = developing; allow_terminal_exit = false })
    ∷ (record { to = pr_ready; allow_terminal_exit = false })
    ∷ []

waiting-IsConsistent : IsConsistent waiting
unfolding compute_available_actions
waiting-IsConsistent = refl

work_reached : (requests waiting to_work).available_actions ≡ "review_diff" ∷ "merge_pr" ∷ []
unfolding requests transition value
work_reached = refl

abbrev approve : UserIntent
approve = record {
  run_id = "r1";
  intent = approve_plan;
  source = text;
  thread_id = none;
  text = some "lgtm";
  confirmed = false;
}

-- Stands for the lower-casing and for the search of a phrase.
abbrev same_text : String → String
same_text s = s

lgtm_classified : classify_text same_text (λ p s. str_eq p s) waiting "lgtm" ≡ some approve
unfolding classify_text value
lgtm_classified = refl

classify_text-gate_intent_example :
    (approve.run_id ≡ waiting.id)
    × (elem (value approve.intent) waiting.available_actions ≡ true)
    × (gate_intent waiting approve ≡ raise (needs_confirmation approve))
    × (gate_intent waiting (record approve { confirmed = true }) ≡ ok tt)
classify_text-gate_intent_example =
    classify_text-gate_intent same_text (λ p s. str_eq p s) waiting "lgtm" approve lgtm_classified

classify_text-never_stops_example :
    (value approve.intent ≢ value stop_run)
    × (value approve.intent ≢ value start_planning)
    × (value approve.intent ≢ value move_to_development)
classify_text-never_stops_example =
    classify_text-never_stops same_text (λ p s. str_eq p s) waiting "lgtm" approve
      waiting-IsConsistent lgtm_classified

abbrev lead : ThreadRow
lead = record { id = "t1"; run_id = "r1" }
