-- ===== src/Engine/Gate/Warrants.antt =====
-- What lets a call through the gate.
use mathlib.Core.Path.{subst}
use z_agent.Base.{
  Some, String, ◌≡◌, refl, ◌≢◌, ◌⊎◌, inl, inr, Bool, true, false, Option, none, some, List, [], ◌∷◌,
  arith, str_eq,
}
use z_agent.Base.Dict
use z_agent.Base.Dict.{Dict, get-put}
use z_agent.Engine.Permissions.{Rule, Args, allow, deny, evaluate}
use z_agent.Engine.Tools.{needs_approval}
use z_agent.Engine.Gate.{
  Call, Decision, Entry, GateState, passed, card, granted, refused, grant, refuse, resolve, unruled,
  stance, approval_gate_node, verdict_of, exec_args_of, is_always_allowed,
}
use z_agent.Engine.Gate.Progress.{
  accepts, entry_of, resolve-calls, Stance-cases, grant-calls, refuse-calls,
}

refused-granted : {r via : String} {args : Option Args} → some (refused r) ≢ some (granted via args)
refused-granted h = ground arith

-- The human's decision lets the call through: with the edited args, if there are any.
abbrev pub HumanSays : Decision → Call → String → Option Args → Type 0
HumanSays d c via args =
    (accepts d ≡ true) × (via ≡ verdict_of d) × (args ≡ some (exec_args_of d c.args))

module _ (destructive_search : String → Bool) (fnmatch : String → String → Bool) (autonomy : String)
    (rules : List Rule) where
  -- A reason, other than the human's decision, to let the call through: its args are its own.
  abbrev pub RuleSays : Option (List String) → Call → Option Args → Type 0
  RuleSays members c args =
      ((args ≡ none) ⊎ (args ≡ some c.args))
      × ((evaluate fnmatch c.name c.args rules ≡ some allow)
          ⊎ (str_eq c.name "knowledge_draft" ≡ true)
          ⊎ (needs_approval fnmatch c.name autonomy [] [] ≡ false)
          ⊎ (is_always_allowed destructive_search members c ≡ true))

  unruled-passed :
      (asked : Bool) (members : Option (List String)) (c : Call) (via : String) (args : Option Args)
      → unruled destructive_search fnmatch autonomy rules asked members c ≡ passed via args
      → ((args ≡ none) ⊎ (args ≡ some c.args))
        × ((str_eq c.name "knowledge_draft" ≡ true)
            ⊎ (needs_approval fnmatch c.name autonomy [] [] ≡ false)
            ⊎ (is_always_allowed destructive_search members c ≡ true))
  unfolding unruled
  unruled-passed asked members c via args h = ground arith

  stance-passed :
      (c : Call) (s : GateState) (via : String) (args : Option Args)
      → stance destructive_search fnmatch autonomy rules c s ≡ passed via args
      → RuleSays s.always_allow c args
  unfolding stance
  stance-passed c s via args h = ground (
    arith,
    unruled-passed false s.always_allow c via args,
    unruled-passed true s.always_allow c via args,
  )

  passed-allowed :
      (c : Call) (s : GateState) (via : String) (args : Option Args)
      → stance destructive_search fnmatch autonomy rules c s ≡ passed via args
      → evaluate fnmatch c.name c.args rules ≢ some deny
  unfolding stance
  passed-allowed c s via args h e = ground arith

  card-allowed :
      (c : Call) (s : GateState)
      → stance destructive_search fnmatch autonomy rules c s ≡ card
      → evaluate fnmatch c.name c.args rules ≢ some deny
  unfolding stance
  card-allowed c s h e = ground arith

  passed-says :
      (c : Call) (s : GateState) (via : String) (its : Option Args) {args : Option Args}
      → stance destructive_search fnmatch autonomy rules c s ≡ passed via its
      → its ≡ args
      → RuleSays s.always_allow c args
  passed-says c s via its h e = rw (← e) (stance-passed c s via its h)

  entry_of-granted :
      (c : Call) (d : Decision) (via : String) (args : Option Args)
      → entry_of c d ≡ granted via args
      → HumanSays d c via args
  entry_of-granted c d via args h = ground arith

  -- A key that a write makes granted is the call's, or was granted before.
  put-granted :
      (c : Call) (e : Entry) (t : Dict Entry) (k via : String) (args : Option Args)
      → Dict.get k (Dict.put c.id e t) ≡ some (granted via args)
      → ((str_eq c.id k ≡ true) × (e ≡ granted via args)) ⊎ (Dict.get k t ≡ some (granted via args))
  put-granted c e t k via args h = ground (arith, get-put c.id k e t)

  -- A reason for the entry of `k` among the calls.
  abbrev pub Warranted :
      List Call → Decision → Option (List String) → String → String → Option Args → Type 0
  Warranted calls d members k via args =
      Some
        (λ c.
          (str_eq c.id k ≡ true)
          × (evaluate fnmatch c.name c.args rules ≢ some deny)
          × (RuleSays members c args ⊎ HumanSays d c via args))
        calls

  abbrev pub gate : List Call → Decision → GateState → GateState
  gate = approval_gate_node destructive_search fnmatch autonomy rules

  grant-always :
      (c : Call) (via : String) (args : Option Args) (s : GateState)
      → (grant c via args s).always_allow ≡ s.always_allow
  unfolding grant
  grant-always c via args s = refl

  -- Whatever a pass lets through it had a reason for: a call that is granted after it was granted
  -- before, or is one of the calls, no rule denies it, and either the human's decision lets it through, with
  -- the args of that decision; or its args are its own, and it is allowed by a rule, needs no approval, is a
  -- knowledge draft, or is of an always allowed class and not destructive.
  pub gate-granted :
      (calls : List Call) (d : Decision) (s : GateState) (k via : String) (args : Option Args)
      → Dict.get k (gate calls d s).approved_calls ≡ some (granted via args)
      → (Dict.get k s.approved_calls ≡ some (granted via args))
        ⊎ Warranted calls d s.always_allow k via args
  unfolding approval_gate_node
  gate-granted [] d s k via args h = inl h
  gate-granted (c ∷ calls) d s k via args h =
      elim (Stance-cases (stance destructive_search fnmatch autonomy rules c s)) [
        | inl p ↦
            let same : gate (c ∷ calls) d s ≡ gate calls d s = rw (p, approval_gate_node) refl in
            elim (gate-granted calls d s k via args (rw (← same) h)) [
              | inl old ↦ inl old
              | inr w ↦ inr (inr w)
            ]
        | inr (inl p) ↦
            let same : gate (c ∷ calls) d s ≡ refuse c "denied by permission rule (hard policy)" s =
              rw (p, approval_gate_node) refl in
            let calls' : (gate (c ∷ calls) d s).approved_calls
                ≡ Dict.put c.id (refused "denied by permission rule (hard policy)")
                    s.approved_calls =
              rw same (refuse-calls c "denied by permission rule (hard policy)" s) in
            elim (put-granted c (refused "denied by permission rule (hard policy)") s.approved_calls
              k via args (rw (← calls') h)) [
                | inl (_, no_way) ↦ absurd (ground arith)
                | inr old ↦ inl old
              ]
        | inr (inr (inl (how, its, p))) ↦
            let same : gate (c ∷ calls) d s ≡ gate calls d (grant c how its s) =
              rw (p, approval_gate_node) refl in
            elim (gate-granted calls d (grant c how its s) k via args (rw (← same) h)) [
              | inl new ↦
                  elim (put-granted c (granted how its) s.approved_calls k via args
                    (rw (← grant-calls c how its s) new)) [
                      | inl (key, entry) ↦ inr (
                          inl (
                            key,
                            passed-allowed c s how its p,
                            inl (passed-says c s how its p (ground arith)),
                          ))
                      | inr old ↦ inl old
                    ]
              | inr w ↦
                  inr
                    (inr (subst (λ m. Warranted calls d m k via args) (grant-always c how its s) w))
            ]
        | inr (inr (inr p)) ↦
            let same : gate (c ∷ calls) d s ≡ resolve destructive_search c d s =
              rw (p, approval_gate_node) refl in
            let calls' : (gate (c ∷ calls) d s).approved_calls
                ≡ Dict.put c.id (entry_of c d) s.approved_calls =
              rw same (resolve-calls destructive_search c d s) in
            elim (put-granted c (entry_of c d) s.approved_calls k via args (rw (← calls') h)) [
              | inl (key, entry) ↦
                  inr (inl (key, card-allowed c s p, inr (entry_of-granted c d via args entry)))
              | inr old ↦ inl old
            ]
      ]
