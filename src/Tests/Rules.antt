-- ===== src/Tests/Rules.antt =====
-- Permission rules and tool surfaces at concrete inputs.
use z_agent.Base.{String, ◌≡◌, refl, ◌≢◌, ◌↔◌, Bool, true, ◌||◌, none, some, [], ◌∷◌, str_eq}
use z_agent.Engine.Permissions.{
  allow, ask, Rule, Args, evaluate, decision_for_call, crosses_boundary, is_wildcard, arg,
}
use z_agent.Engine.Permissions.FindLast.{IsLast, evaluate_iff}
use z_agent.Engine.Permissions.Injection.{has_wildcard, injection_fails_closed}

-- Stands for `fnmatch.fnmatchcase`: a lone star, or the same text.
abbrev glob : String → String → Bool
glob name pattern = str_eq pattern "*" || str_eq name pattern

abbrev rm_all : Args
rm_all = ("command", some "git status; rm -rf /") ∷ []

abbrev allow_any : Rule
allow_any = record { tool = none; args = ("command", "*") ∷ []; effect = some "allow" }

abbrev ask_terminal : Rule
ask_terminal = record { tool = some "terminal_exec"; args = []; effect = some "ask" }

evaluate_iff_example :
    (evaluate glob "terminal_exec" rm_all (allow_any ∷ ask_terminal ∷ []) ≡ some ask)
    ↔ IsLast glob "terminal_exec" rm_all (allow_any ∷ ask_terminal ∷ []) ask
evaluate_iff_example = evaluate_iff glob "terminal_exec" rm_all (allow_any ∷ ask_terminal ∷ []) ask

rm_all_crosses : crosses_boundary "git status; rm -rf /" ≡ true
unfolding crosses_boundary
rm_all_crosses = refl

allow_any-has_wildcard : has_wildcard "command" allow_any ≡ true
unfolding is_wildcard
allow_any-has_wildcard = refl

injection_fails_closed_example :
    (evaluate glob "terminal_exec" rm_all (allow_any ∷ []) ≢ some allow)
    × ((decision_for_call glob "terminal_exec" rm_all (allow_any ∷ []) true).0 ≢ allow)
unfolding arg
injection_fails_closed_example =
    injection_fails_closed glob rm_all "terminal_exec" (allow_any ∷ [])
      (λ h. ("command", "git status; rm -rf /", refl, rm_all_crosses, allow_any-has_wildcard), tt)

abbrev shell : String
shell = "terminal_exec"
