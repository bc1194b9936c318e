-- ===== src/Engine/Permissions.antt =====
-- worker/worker/engine/permissions.py: glob rulesets with findLast precedence. The proofs are in the
-- children.
--
-- `fnmatch.fnmatchcase` is the parameter `fnmatch`. The values of a rule and of a call are the texts
-- that the code makes of them by `str`; a value of None is `none`.
pub mod FindLast
pub mod Injection
use z_agent.Base.{
  ℕ, zero, suc, ◌+◌, ◌-◌, ◌*◌, ◌/◌, ◌%◌, ◌≤◌, ◌<◌, String, ◌≡◌, refl, sym, ap, ◌∙◌, ◌≢◌, ◌↔◌, ◌⊎◌,
  inl, inr, Bool, true, false, not, ◌&&◌, ◌||◌, Option, none, some, List, [], ◌∷◌, ◌++◌, map, arith,
  str_eq, eq_iff, ltb, leb, ◌==◌, if◌then◌else◌, Bool-cases, Option-cases, ltb→lt, leb→le, is_some,
  length, any, all, filter, count, take, drop, head?, All, length-append, count-append, count-le,
  length-drop, length-take, All-append, any-append, codes, elem, eq_self, elem-append, Result, ok,
  raise, or_else,
}

pub data Effect : Type 0 where
  allow ask deny : Effect

-- A rule is a dict: `tool` may be left out, `effect` may be missing, None or a text that names none.
pub record Rule : Type 0 where
  pub tool : Option String
  pub args : List (String × String)
  pub effect : Option String

abbrev pub Args : Type 0
Args = List (String × Option String)

-- `args.get(name)`
unfoldable pub arg : String → Args → Option String
arg name [] = none
arg name ((k, v) ∷ args) = if str_eq k name then v else arg name args

-- The class `[;&|`$\n]` of `_SHELL_METACHARS`; its other branch, `\$\(`, begins with `$`.
unfoldable pub is_metachar : ℕ → Bool
is_metachar c = c == b';' || (c == b'&' || (c == b'|' || (c == b'`' || (c == b'$' || c == b'\n'))))

unfoldable pub crosses_boundary : String → Bool
unfolding is_metachar
crosses_boundary s = any is_metachar (codes s)

-- `"*" in pattern or "?" in pattern`
unfoldable pub is_wildcard : String → Bool
is_wildcard p = any (λ c. c == b'*') (codes p) || any (λ c. c == b'?') (codes p)

-- `Effect(effect)`, where a text that names no member raises.
unfoldable pub effect_of : String → Option Effect
effect_of s =
    if str_eq s "allow"
    then some allow
    else if str_eq s "ask"
    then some ask
    else if str_eq s "deny"
    then some deny
    else none

-- `rule.get("tool", "*")`
abbrev pub tool_pattern : Option String → String
tool_pattern none = "*"
tool_pattern (some p) = p

-- `rule.get("effect")`; a missing effect and a text that names none are skipped alike.
abbrev pub named_effect : Option String → Option Effect
named_effect none = none
named_effect (some s) = effect_of s

-- A rule that says something replaces the winner so far.
abbrev pub later : Option Effect → Option Effect → Option Effect
later w none = w
later w (some e) = some e

module _ (fnmatch : String → String → Bool) where
  -- One turn of the loop over a rule's argument patterns.
  unfoldable pub arg_matches : Option String → String → Bool
  arg_matches none pattern = false
  arg_matches (some value) pattern =
      if is_wildcard pattern && crosses_boundary value then false else fnmatch value pattern

  unfoldable pub args_match : Args → List (String × String) → Bool
  args_match args [] = true
  args_match args ((name, pattern) ∷ rest) =
      arg_matches (arg name args) pattern && args_match args rest

  unfoldable pub matches : Rule → String → Args → Bool
  matches rule tool_name args =
      fnmatch tool_name (tool_pattern rule.tool) && args_match args rule.args

  -- What a rule says of a call: nothing if it does not match or is malformed.
  unfoldable pub verdict : Rule → String → Args → Option Effect
  verdict rule tool_name args =
      if matches rule tool_name args then named_effect rule.effect else none

  -- The loop of `evaluate`, with the winner so far.
  unfoldable pub evaluate_loop : String → Args → Option Effect → List Rule → Option Effect
  evaluate_loop tool_name args winner [] = winner
  evaluate_loop tool_name args winner (rule ∷ rules) =
      evaluate_loop tool_name args (later winner (verdict rule tool_name args)) rules

  unfoldable pub evaluate : String → Args → List Rule → Option Effect
  unfolding evaluate_loop
  evaluate tool_name args rules = evaluate_loop tool_name args none rules

  -- The effect, and whether the call needs approval.
  unfoldable pub decision_for_call : String → Args → List Rule → Bool → Effect × Bool
  decision_for_call tool_name args rules needs_by_default = elim (evaluate tool_name args rules) [
    | some e ↦ elim e [ allow ↦ (allow, false) | deny ↦ (deny, false) | ask ↦ (ask, true) ]
    | none ↦ ((if needs_by_default then ask else allow), needs_by_default)
  ]
