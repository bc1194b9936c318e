-- ===== src/Tests/Cards.antt =====
-- Approval cards at concrete inputs.
use z_agent.Base.{◌≡◌, refl, ◌↔◌, ◌⊎◌, not, Option, none, some, List, [], ◌∷◌, str_eq, ok, raise}
use z_agent.Base.Dict
use z_agent.Approvals.{
  Approval, Verdict, Payload, not_dict, dict, Redis, worker_decision, decide, timed_out, answered,
  wait_decision, attribute_error,
}
use z_agent.Approvals.Rows.{Op, card, decision, sweep, apply_all}
use z_agent.Approvals.Bridge.{is_approving, sent, decide-wait_decision, wait_decision_iff, IsKnown}
use z_agent.Approvals.Once.{IsSettled, sent_once}

abbrev pending : Approval
pending = record {
  run_id = some "r1";
  thread_id = some "t1";
  kind = "tool";
  payload = "{}";
  decision = none;
  decided_by = none;
  decided_at = none;
  expires_at = some 900;
}

abbrev no_decisions : Redis
no_decisions = record { decision_values = []; decision_lists = [] }

abbrev morning : List Op
morning =
    card 0 900 "r1" (some "t1") "tool" "{}" "k1"
    ∷ decision "k1" "allow_once" 7 "" none 30
    ∷ decision "k1" "deny_tool" 8 "" none 40
    ∷ sweep 2000
    ∷ []

decide-wait_decision_example :
    (wait_decision
        (Dict.get "k1"
          (decide "k1" "deny_tool" 7 "" none 30
            (("k1", pending) ∷ [])
            no_decisions).1.decision_values)
        timed_out
      ≡ ok (sent "deny_tool" "" none))
    × (str_eq (worker_decision "deny_tool") "deny" ≡ not (is_approving "deny_tool"))
unfolding Dict.get
decide-wait_decision_example =
    decide-wait_decision "k1" "deny_tool" 7 "" none 30 (("k1", pending) ∷ []) no_decisions pending
      timed_out refl refl refl

abbrev no_payload : Option Payload
no_payload = none

wait_decision_iff_example :
    ((v : Verdict)
      → wait_decision no_payload (answered not_dict) ≡ ok v
      → (v.decision ≡ some "deny")
        ⊎ (IsKnown v.decision
            × ((no_payload ≡ some (dict v))
                ⊎ ((no_payload ≡ none) × (answered not_dict ≡ answered (dict v))))))
    × ((wait_decision no_payload (answered not_dict) ≡ raise attribute_error) ↔ (
        (no_payload ≡ some not_dict)
        ⊎ ((no_payload ≡ none) × (answered not_dict ≡ answered not_dict))))
wait_decision_iff_example = wait_decision_iff no_payload (answered not_dict)

sent_once_example : IsSettled "k1" (apply_all morning ([], no_decisions))
unfolding Dict.get
sent_once_example = sent_once morning [] no_decisions "k1" refl
