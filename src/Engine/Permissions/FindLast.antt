-- ===== src/Engine/Permissions/FindLast.antt =====
-- findLast precedence: the last rule that matches and is well formed decides.
use z_agent.Base.{
  String, ◌≡◌, refl, ap, ◌∙◌, ◌↔◌, inl, inr, Bool, true, false, Option, none, some, List, [], ◌∷◌,
  ◌++◌, arith, Option-cases, All,
}
use z_agent.Engine.Permissions.{
  Effect, allow, ask, deny, Rule, Args, later, verdict, evaluate_loop, evaluate, decision_for_call,
}

module _ (fnmatch : String → String → Bool) (tool_name : String) (args : Args) where
  evaluate_loop-later :
      (w : Option Effect) (rules : List Rule)
      → evaluate_loop fnmatch tool_name args w rules
        ≡ later w (evaluate_loop fnmatch tool_name args none rules)
  unfolding evaluate_loop
  evaluate_loop-later w [] = refl
  evaluate_loop-later w (r ∷ rules) = ground (
    arith,
    evaluate_loop-later (later w (verdict fnmatch r tool_name args)) rules,
    evaluate_loop-later (later none (verdict fnmatch r tool_name args)) rules,
  )

  evaluate_loop-append :
      (w : Option Effect) (base overlay : List Rule)
      → evaluate_loop fnmatch tool_name args w (base ++ overlay)
        ≡ evaluate_loop fnmatch tool_name args (evaluate_loop fnmatch tool_name args w base) overlay
  unfolding evaluate_loop
  evaluate_loop-append w [] overlay = refl
  evaluate_loop-append w (r ∷ base) overlay =
      evaluate_loop-append (later w (verdict fnmatch r tool_name args)) base overlay

  -- An overlay appended to a base ruleset decides every call on which one of its rules speaks, and
  -- leaves every other call to the base.
  evaluate-append :
      (base overlay : List Rule)
      → evaluate fnmatch tool_name args (base ++ overlay)
        ≡ later (evaluate fnmatch tool_name args base) (evaluate fnmatch tool_name args overlay)
  unfolding evaluate
  evaluate-append base overlay =
      evaluate_loop-append none base overlay
      ∙ evaluate_loop-later (evaluate_loop fnmatch tool_name args none base) overlay

  -- No rule of the list speaks on the call.
  abbrev pub Silent : List Rule → Type 0
  Silent = All (λ r. verdict fnmatch r tool_name args ≡ none)

  -- A rule of the list says `e`, and none behind it speaks.
  pub record IsLast (rules : List Rule) (e : Effect) : Type 0 where
    pub before : List Rule
    pub rule : Rule
    pub after : List Rule
    pub split : rules ≡ before ++ rule ∷ after
    pub speaks : verdict fnmatch rule tool_name args ≡ some e
    pub silent : Silent after

  Silent-of_none : (rules : List Rule) → evaluate fnmatch tool_name args rules ≡ none → Silent rules
  unfolding evaluate
  Silent-of_none [] h = tt
  Silent-of_none (r ∷ rules) h =
      let e = evaluate_loop-later (later none (verdict fnmatch r tool_name args)) rules in
      (ground arith, Silent-of_none rules (ground arith))

  none-of_Silent : (rules : List Rule) → Silent rules → evaluate fnmatch tool_name args rules ≡ none
  unfolding evaluate
  none-of_Silent [] h = refl
  none-of_Silent (r ∷ rules) h = rw h.0 (none-of_Silent rules h.1)

  pub evaluate-cons :
      (r : Rule) (rules : List Rule)
      → evaluate fnmatch tool_name args (r ∷ rules)
        ≡ later (verdict fnmatch r tool_name args) (evaluate fnmatch tool_name args rules)
  unfolding evaluate
  evaluate-cons r rules =
      let e = evaluate_loop-later (later none (verdict fnmatch r tool_name args)) rules in
      ground arith

  IsLast-of_some :
      (rules : List Rule) (e : Effect)
      → evaluate fnmatch tool_name args rules ≡ some e
      → IsLast rules e
  IsLast-of_some [] e h = absurd (unfold evaluate in cc)
  IsLast-of_some (r ∷ rules) e h = elim (Option-cases (evaluate fnmatch tool_name args rules)) [
    | inl (e', later_rule) ↦
        let l = IsLast-of_some rules e (ground (arith, evaluate-cons r rules)) in
        record {
          before = r ∷ l.before;
          rule = l.rule;
          after = l.after;
          split = ap (◌∷◌ r) l.split;
          speaks = l.speaks;
          silent = l.silent;
        }
    | inr none_later ↦ record {
      before = [];
      rule = r;
      after = rules;
      split = refl;
      speaks = ground (arith, evaluate-cons r rules);
      silent = Silent-of_none rules none_later;
    }
  ]

  some-of_IsLast :
      (rules : List Rule) (e : Effect)
      → IsLast rules e
      → evaluate fnmatch tool_name args rules ≡ some e
  some-of_IsLast rules e l = rw l.split (
      ground (
        arith,
        evaluate-append l.before (l.rule ∷ l.after),
        evaluate-cons l.rule l.after,
        none-of_Silent l.after l.silent,
        l.speaks,
      ))

  -- `evaluate` returns an effect exactly when some rule of the list matches the call with that
  -- effect and every rule behind it does not match or is malformed.
  pub evaluate_iff :
      (rules : List Rule) (e : Effect)
      → (evaluate fnmatch tool_name args rules ≡ some e) ↔ IsLast rules e
  evaluate_iff rules e = (IsLast-of_some rules e, some-of_IsLast rules e)

  -- The gate's decision is a denial exactly when the last rule that speaks says deny; for a tool that
  -- needs approval by default it lets the call run without a card exactly when that rule says allow;
  -- for a tool that does not, it asks exactly when that rule says ask.
  decision_iff :
      (rules : List Rule) (needs_by_default : Bool)
      → ((decision_for_call fnmatch tool_name args rules needs_by_default ≡ (deny, false))
          ↔ IsLast rules deny)
        × ((decision_for_call fnmatch tool_name args rules true ≡ (allow, false))
            ↔ IsLast rules allow)
        × ((decision_for_call fnmatch tool_name args rules false ≡ (ask, true)) ↔ IsLast rules ask)
  unfolding decision_for_call
  decision_iff rules needs_by_default = (
    (
      λ h. IsLast-of_some rules deny (ground arith),
      λ l. ground (arith, some-of_IsLast rules deny l),
    ),
    (
      λ h. IsLast-of_some rules allow (ground arith),
      λ l. ground (arith, some-of_IsLast rules allow l),
    ),
    (λ h. IsLast-of_some rules ask (ground arith), λ l. ground (arith, some-of_IsLast rules ask l)),
  )
