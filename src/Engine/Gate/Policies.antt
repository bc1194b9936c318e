-- ===== src/Engine/Gate/Policies.antt =====
-- What the gate never lets through: a call that a rule denies, and a destructive command without a human.
use mathlib.Core.Path.{subst}
use z_agent.Base.{Some, ◌⊎◌, ◌∙◌, sym, ◌&&◌, ◌||◌, any, is_some}
use z_agent.Base.{
  String, ◌≡◌, refl, ◌≢◌, inl, inr, Bool, true, false, Option, none, some, List, [], ◌∷◌, arith,
  str_eq, eq_iff, All,
}
use z_agent.Base.Dict
use z_agent.Base.Dict.{Dict}
use z_agent.Engine.Permissions.{Rule, Args, allow, deny, evaluate}
use z_agent.Engine.Tools.{needs_approval}
use z_agent.Engine.Gate.{
  Call, Decision, Entry, GateState, granted, refused, is_undecided, to_gate, to_end, to_tools,
  after_gate, is_always_allowed, is_destructive,
}
use z_agent.Engine.Gate.Progress.{Route-cases, gate_rounds, rounds_again, rounds_stop}
use z_agent.Engine.Gate.Warrants.{HumanSays, RuleSays, Warranted, gate, gate-granted}

draft_ne :
    (name : String) → str_eq name "knowledge_draft" ≡ true → str_eq name "terminal_exec" ≡ false
draft_ne name h = rw ((eq_iff name "knowledge_draft").0 h) refl

not_fresh :
    (via : String) (args : Option Args) → ◌≡◌ {A = Option Entry} none (some (granted via args)) → ⊥
not_fresh via args h = ground arith

to_gate-ne : to_gate ≡ to_tools → ⊥
to_gate-ne h = ground arith

to_end-ne : to_end ≡ to_tools → ⊥
to_end-ne h = ground arith

module _ (destructive_search : String → Bool) (fnmatch : String → String → Bool) (autonomy : String)
    (rules : List Rule) where
  -- A call that is a destructive terminal command, for which the mode wants approval and no rule says allow.
  abbrev pub NeedsHuman : Call → Type 0
  NeedsHuman c =
      (is_destructive destructive_search c.name c.args ≡ true)
      × (needs_approval fnmatch c.name autonomy [] [] ≡ true)
      × (evaluate fnmatch c.name c.args rules ≢ some allow)

  NeedsHuman-RuleSays :
      (members : Option (List String)) (c : Call) (args : Option Args)
      → NeedsHuman c
      → ¬ RuleSays destructive_search fnmatch autonomy rules members c args
  unfolding is_always_allowed is_destructive
  NeedsHuman-RuleSays members c args n r =
      ground (arith, eq_iff c.name "terminal_exec", draft_ne c.name)

  human_only :
      (members : Option (List String)) (calls : List Call) (d : Decision) (k via : String)
      (args : Option Args)
      → All (λ c. str_eq c.id k ≡ true → NeedsHuman c) calls
      → Warranted destructive_search fnmatch autonomy rules calls d members k via args
      → Some (λ c. (str_eq c.id k ≡ true) × HumanSays d c via args) calls
  human_only members [] d k via args a w = w
  human_only members (c ∷ calls) d k via args a (inl (key, _, inl r)) =
      absurd (NeedsHuman-RuleSays members c args (a.0 key) r)
  human_only members (c ∷ calls) d k via args a (inl (key, _, inr h)) = inl (key, h)
  human_only members (c ∷ calls) d k via args a (inr w) =
      inr (human_only members calls d k via args a.1 w)

  -- A destructive terminal command that needs approval and that no rule allows is let through by a pass
  -- only if the human's decision of that pass lets it through, with the args of that decision; an always-allow
  -- that was given before does not.
  pub destructive_asks_human :
      (calls : List Call) (d : Decision) (s : GateState) (k via : String) (args : Option Args)
      → All (λ c. str_eq c.id k ≡ true → NeedsHuman c) calls
      → Dict.get k s.approved_calls ≡ none
      → Dict.get k (gate destructive_search fnmatch autonomy rules calls d s).approved_calls
        ≡ some (granted via args)
      → Some (λ c. (str_eq c.id k ≡ true) × HumanSays d c via args) calls
  destructive_asks_human calls d s k via args a fresh h =
      elim (gate-granted destructive_search fnmatch autonomy rules calls d s k via args h) [
        | inl old ↦ absurd (ground arith)
        | inr w ↦ human_only s.always_allow calls d k via args a w
      ]

  none_denied :
      (members : Option (List String)) (calls : List Call) (d : Decision) (k via : String)
      (args : Option Args)
      → All (λ c. str_eq c.id k ≡ true → evaluate fnmatch c.name c.args rules ≡ some deny) calls
      → Warranted destructive_search fnmatch autonomy rules calls d members k via args
      → true ≡ false
  none_denied members [] d k via args a w = absurd w
  none_denied members (c ∷ calls) d k via args a (inl (key, allowed, _)) =
      absurd (allowed (a.0 key))
  none_denied members (c ∷ calls) d k via args a (inr w) =
      none_denied members calls d k via args a.1 w

  -- Over any passes, with any decisions of humans, no call that a rule denies is granted that was not granted before.
  never_granted :
      (active : Bool) (calls : List Call) (ds : List Decision) (s : GateState) (k via : String)
      (args : Option Args)
      → All (λ c. str_eq c.id k ≡ true → evaluate fnmatch c.name c.args rules ≡ some deny) calls
      → Dict.get k
          (gate_rounds destructive_search fnmatch autonomy rules active calls ds s).approved_calls
        ≡ some (granted via args)
      → Dict.get k s.approved_calls ≡ some (granted via args)
  never_granted active calls [] s k via args a h = h
  never_granted active calls (d ∷ ds) s k via args a h =
      elim (Route-cases (after_gate fnmatch autonomy active calls s)) [
        | inl again ↦
            elim (gate-granted destructive_search fnmatch autonomy rules calls d s k via args (
              never_granted active calls ds
                (gate destructive_search fnmatch autonomy rules calls d s) k via args a
                (rw
                  (← rounds_again destructive_search fnmatch autonomy rules active calls d ds s
                    again)
                  h))) [
                    | inl old ↦ old
                    | inr w ↦
                        absurd (ground (arith, none_denied s.always_allow calls d k via args a w))
                  ]
        | inr (inl ends) ↦
            rw
              (← rounds_stop destructive_search fnmatch autonomy rules active calls d ds s
                (ground arith))
              h
        | inr (inr tools) ↦
            rw
              (← rounds_stop destructive_search fnmatch autonomy rules active calls d ds s
                (ground arith))
              h
      ]

  -- With a ruleset, the routing asks for another pass as long as a call has no entry.
  none_undecided :
      (calls : List Call) (approved : Dict Entry) (k : String)
      → any
          (λ c. is_undecided approved c && (true || needs_approval fnmatch c.name autonomy [] []))
          calls
        ≡ false
      → Some (λ c. c.id ≡ k) calls
      → is_some (Dict.get k approved) ≡ true
  none_undecided [] approved k h w = absurd w
  none_undecided (c ∷ calls) approved k h (inl key) =
      subst (λ i. is_some (Dict.get i approved) ≡ true) key (ground arith)
  none_undecided (c ∷ calls) approved k h (inr w) = none_undecided calls approved k (ground arith) w

  to_tools-entry :
      (calls : List Call) (s : GateState) (k : String)
      → after_gate fnmatch autonomy true calls s ≡ to_tools
      → Some (λ c. c.id ≡ k) calls
      → is_some (Dict.get k s.approved_calls) ≡ true
  unfolding after_gate
  to_tools-entry calls s k h w = none_undecided calls s.approved_calls k (ground arith) w

  not_granted :
      (o : Option Entry)
      → is_some o ≡ true
      → ((via : String) (args : Option Args) → o ≢ some (granted via args))
      → (reason : String) × (o ≡ some (refused reason))
  not_granted none h no_grant = absurd (ground arith)
  not_granted (some (granted via args)) h no_grant = absurd (no_grant via args refl)
  not_granted (some (refused reason)) h no_grant = (reason, refl)

  -- A call that a rule denies and that has no entry yet is never let through: over any passes, with any decisions of
  -- humans, the routing between them included, it gets no entry that grants it; and when the routing,
  -- with a ruleset, sends the turn to the tools, it has an entry that refuses it.
  pub hard_policy :
      (calls : List Call) (ds : List Decision) (s : GateState) (k : String)
      → All (λ c. str_eq c.id k ≡ true → evaluate fnmatch c.name c.args rules ≡ some deny) calls
      → Some (λ c. c.id ≡ k) calls
      → Dict.get k s.approved_calls ≡ none
      → let after = gate_rounds destructive_search fnmatch autonomy rules true calls ds s in
        ((via : String) (args : Option Args)
          → Dict.get k after.approved_calls ≢ some (granted via args))
        × ((after_gate fnmatch autonomy true calls after ≢ to_tools)
            ⊎ ((reason : String) × (Dict.get k after.approved_calls ≡ some (refused reason))))
  hard_policy calls ds s k a there fresh =
      let after = gate_rounds destructive_search fnmatch autonomy rules true calls ds s in
      let no_grant : (via : String) (args : Option Args)
          → Dict.get k after.approved_calls ≢ some (granted via args) =
        λ via args h.
          absurd (not_fresh via args (sym fresh ∙ never_granted true calls ds s k via args a h)) in
      (
        no_grant,
        elim (Route-cases (after_gate fnmatch autonomy true calls after)) [
          | inl again ↦ inl (λ h. to_gate-ne (sym again ∙ h))
          | inr (inl ends) ↦ inl (λ h. to_end-ne (sym ends ∙ h))
          | inr (inr tools) ↦ inr (
              not_granted (Dict.get k after.approved_calls)
                (to_tools-entry calls after k tools there) no_grant)
        ],
      )
