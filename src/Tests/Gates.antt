-- ===== src/Tests/Gates.antt =====
-- The approval gate at concrete inputs.
use z_agent.Base.{Some}
use z_agent.Base.{◌⊎◌, inl, inr, Option}
use z_agent.Engine.Permissions.{Args}
use z_agent.Base.{
  String, ◌≡◌, refl, ◌≢◌, Bool, true, false, ◌||◌, none, some, [], ◌∷◌, arith, str_eq, All,
}
use z_agent.Base.Dict
use z_agent.Engine.Permissions.{Rule, deny, evaluate, verdict, matches, args_match, effect_of, arg}
use z_agent.Engine.Tools.{needs_approval, capability_of}
use z_agent.Engine.Gate.{
  Call, Decision, GateState, granted, refused, to_gate, to_tools, is_destructive, command_of,
  approval_gate_node, accepted_verdicts, stance, unruled, is_always_allowed, resolve, refuse, grant,
  after_gate,
}
use z_agent.Engine.Gate.Progress.{next_of, gate_rounds, gate_rounds_end}
use z_agent.Engine.Gate.Warrants.{HumanSays}
use z_agent.Engine.Gate.Policies.{NeedsHuman, hard_policy, destructive_asks_human}

-- Stands for `fnmatch.fnmatchcase`: a lone star, or the same text.
abbrev glob : String → String → Bool
glob name pattern = str_eq pattern "*" || str_eq name pattern

-- Stands for the search of DESTRUCTIVE_COMMANDS.
abbrev wipes : String → Bool
wipes command = str_eq command "git reset --hard"

abbrev reset_hard : Call
reset_hard = record {
  id = "c1";
  name = "terminal_exec";
  args = ("command", some "git reset --hard") ∷ [];
}

abbrev edit : Call
edit = record { id = "c2"; name = "file_edit"; args = ("file_path", some "a.py") ∷ [] }

abbrev no_edits : Rule
no_edits = record { tool = some "file_edit"; args = []; effect = some "deny" }

abbrev say_allow : Decision
say_allow = record { decision = some "allow"; reason = none; edited_args = none }

abbrev fresh : GateState
fresh = record {
  approved_calls = [];
  denial_streak = 0;
  done = false;
  always_allow = some ("terminal_exec" ∷ []);
}

gate_rounds_end_example :
    next_of wipes glob "supervised" (no_edits ∷ []) true (reset_hard ∷ edit ∷ []) (
      gate_rounds wipes glob "supervised"
        (no_edits ∷ [])
        true
        (reset_hard ∷ edit ∷ [])
        (say_allow ∷ say_allow ∷ [])
        fresh)
    ≢ to_gate
unfolding Dict.get
gate_rounds_end_example =
    gate_rounds_end wipes glob "supervised" (no_edits ∷ []) true (reset_hard ∷ edit ∷ [])
      (say_allow ∷ say_allow ∷ []) fresh (omega arith)

edits_denied :
    All
      (λ c. str_eq c.id "c2" ≡ true → evaluate glob c.name c.args (no_edits ∷ []) ≡ some deny)
      (reset_hard ∷ edit ∷ [])
unfolding evaluate verdict matches args_match effect_of
edits_denied = ((λ h. absurd (ground arith)), ((λ h. refl), tt))

hard_policy_example :
    let after =
      gate_rounds wipes glob "supervised"
        (no_edits ∷ [])
        true
        (reset_hard ∷ edit ∷ [])
        (say_allow ∷ say_allow ∷ [])
        fresh in
    ((via : String) (args : Option Args)
      → Dict.get "c2" after.approved_calls ≢ some (granted via args))
    × ((after_gate glob "supervised" true (reset_hard ∷ edit ∷ []) after ≢ to_tools)
        ⊎ ((reason : String) × (Dict.get "c2" after.approved_calls ≡ some (refused reason))))
unfolding Dict.get
hard_policy_example =
    hard_policy wipes glob "supervised" (no_edits ∷ []) (reset_hard ∷ edit ∷ [])
      (say_allow ∷ say_allow ∷ []) fresh "c2" edits_denied (inr (inl refl)) refl

reset_granted :
    Dict.get "c1"
      (approval_gate_node wipes glob "supervised" []
        (reset_hard ∷ [])
        say_allow
        fresh).approved_calls
    ≡ some (granted "allow" (some reset_hard.args))
unfolding approval_gate_node stance unruled evaluate needs_approval capability_of is_always_allowed
    is_destructive command_of arg resolve grant refuse accepted_verdicts Dict.get Dict.put verdict
    matches
reset_granted = refl

reset-NeedsHuman : NeedsHuman wipes glob "supervised" [] reset_hard
unfolding is_destructive command_of arg needs_approval capability_of evaluate
reset-NeedsHuman = (refl, refl, λ h. ground arith)

destructive_asks_human_example :
    Some
      (λ c. (str_eq c.id "c1" ≡ true) × HumanSays say_allow c "allow" (some reset_hard.args))
      (reset_hard ∷ [])
unfolding Dict.get
destructive_asks_human_example =
    destructive_asks_human wipes glob "supervised" [] (reset_hard ∷ []) say_allow fresh "c1" "allow"
      (some reset_hard.args) ((λ h. reset-NeedsHuman), tt) refl reset_granted
