-- ===== src/Engine/Permissions/Injection.antt =====
-- Glob injection fails closed: a wildcard never admits a value with a shell metacharacter.
use z_agent.Base.{
  String, ◌≡◌, ◌≢◌, inl, inr, Bool, true, false, ◌&&◌, some, List, [], ◌∷◌, arith, str_eq, eq_iff,
  Bool-cases, any, All,
}
use z_agent.Engine.Permissions.{
  allow, Rule, Args, arg, crosses_boundary, is_wildcard, named_effect, arg_matches, args_match,
  matches, verdict, evaluate, decision_for_call,
}
use z_agent.Engine.Permissions.FindLast.{evaluate-cons}

-- The rule has a wildcard pattern over the argument.
abbrev pub has_wildcard : String → Rule → Bool
has_wildcard name rule = any (λ p. str_eq p.0 name && is_wildcard p.1) rule.args

module _ (fnmatch : String → String → Bool) (args : Args) where
  args_match_fails :
      (name value : String) (patterns : List (String × String))
      → arg name args ≡ some value
      → crosses_boundary value ≡ true
      → any (λ p. str_eq p.0 name && is_wildcard p.1) patterns ≡ true
      → args_match fnmatch args patterns ≡ false
  unfolding args_match arg_matches
  args_match_fails name value [] v c w = absurd (cc)
  args_match_fails name value ((n, p) ∷ patterns) v c w =
      elim (Bool-cases (str_eq n name && is_wildcard p)) [
        | inl here ↦
            let e : n ≡ name = (eq_iff n name).0 (ground arith) in
            let f : arg n args ≡ some value = rw e v in rw f (ground arith)
        | inr there ↦ ground (arith, args_match_fails name value patterns v c (ground arith))
      ]

  -- The rule has a wildcard pattern over an argument whose value holds a shell metacharacter.
  abbrev pub IsInjected : Rule → Type 0
  IsInjected r =
      (name value : String) × (arg name args ≡ some value)
      × (crosses_boundary value ≡ true)
      × (has_wildcard name r ≡ true)

  IsInjected-fails : (r : Rule) → IsInjected r → args_match fnmatch args r.args ≡ false
  IsInjected-fails r (name, value, v, c, w) = args_match_fails name value r.args v c w

  evaluate-ne-allow :
      (tool_name : String) (rules : List Rule)
      → All (λ r. (named_effect r.effect ≡ some allow) → IsInjected r) rules
      → evaluate fnmatch tool_name args rules ≢ some allow
  unfolding verdict matches
  evaluate-ne-allow tool_name [] w h = unfold evaluate in cc
  evaluate-ne-allow tool_name (r ∷ rules) w h =
      let fails : (named_effect r.effect ≡ some allow) → args_match fnmatch args r.args ≡ false =
        λ e. IsInjected-fails r (w.0 e) in
      ground (
        arith,
        evaluate-cons fnmatch tool_name args r rules,
        evaluate-ne-allow tool_name rules w.1,
        fails,
      )

  -- If each allow rule of the list has a wildcard pattern over an argument, its own, whose value in the
  -- call holds a shell metacharacter, then the rules do not evaluate to allow, and the decision for the
  -- call of a tool that needs approval by default is not allow.
  pub injection_fails_closed :
      (tool_name : String) (rules : List Rule)
      → All (λ r. (named_effect r.effect ≡ some allow) → IsInjected r) rules
      → (evaluate fnmatch tool_name args rules ≢ some allow)
        × ((decision_for_call fnmatch tool_name args rules true).0 ≢ allow)
  unfolding decision_for_call
  injection_fails_closed tool_name rules w = (
    evaluate-ne-allow tool_name rules w,
    λ h. ground (arith, evaluate-ne-allow tool_name rules w),
  )
