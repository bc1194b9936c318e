-- ===== src/Engine/Gate/Breaker.antt =====
-- The circuit breaker: three denials in a row end the turn.
use z_agent.Base.{◌≤◌, String, ◌≡◌, inl, inr, Bool, false, Option, List, [], ◌∷◌, arith, leb}
use z_agent.Engine.Permissions.{Rule, Args}
use z_agent.Engine.Gate.{
  Call, Decision, GateState, to_gate, grant, refuse, resolve, stance, approval_gate_node,
  after_gate,
}
use z_agent.Engine.Gate.Progress.{Stance-cases, Route-cases, gate_rounds, rounds_again, rounds_stop}

-- Before the third denial in a row the turn goes on; with it, it ends.
abbrev pub IsArmed : GateState → Type 0
IsArmed s = (s.denial_streak ≤ 3) × (s.done ≡ leb 3 s.denial_streak)

refuse-IsArmed :
    (c : Call) (reason : String) (s : GateState)
    → s.done ≡ false
    → IsArmed s
    → IsArmed (refuse c reason s)
unfolding refuse
refuse-IsArmed c reason s g a = ground arith

grant-IsArmed :
    (c : Call) (via : String) (args : Option Args) (s : GateState)
    → s.done ≡ false
    → IsArmed (grant c via args s) × ((grant c via args s).done ≡ false)
unfolding grant
grant-IsArmed c via args s g = ground arith

module _ (destructive_search : String → Bool) where
  resolve-IsArmed :
      (c : Call) (d : Decision) (s : GateState)
      → s.done ≡ false
      → IsArmed s
      → IsArmed (resolve destructive_search c d s)
  unfolding resolve refuse grant
  resolve-IsArmed c d s g a = ground arith

  module _ (fnmatch : String → String → Bool) (autonomy : String) (rules : List Rule) where
    pass-IsArmed :
        (calls : List Call) (d : Decision) (s : GateState)
        → s.done ≡ false
        → IsArmed s
        → IsArmed (approval_gate_node destructive_search fnmatch autonomy rules calls d s)
    unfolding approval_gate_node
    pass-IsArmed [] d s g a = a
    pass-IsArmed (c ∷ calls) d s g a =
        elim (Stance-cases (stance destructive_search fnmatch autonomy rules c s)) [
          | inl p ↦ rw (p, approval_gate_node) (pass-IsArmed calls d s g a)
          | inr (inl p) ↦
              rw (p, approval_gate_node)
                (refuse-IsArmed c "denied by permission rule (hard policy)" s g a)
          | inr (inr (inl (via, args, p))) ↦
              rw (p, approval_gate_node)
                (pass-IsArmed calls d (grant c via args s) (grant-IsArmed c via args s g).1
                  (grant-IsArmed c via args s g).0)
          | inr (inr (inr p)) ↦ rw (p, approval_gate_node) (resolve-IsArmed c d s g a)
        ]

    again-open :
        (active : Bool) (calls : List Call) (s : GateState)
        → after_gate fnmatch autonomy active calls s ≡ to_gate
        → s.done ≡ false
    unfolding after_gate
    again-open active calls s h = ground arith

    -- Over any passes, the run of denials never passes three, and the turn is ended exactly when it is three,
    -- if that was so at the start.
    gate_rounds-IsArmed :
        (active : Bool) (calls : List Call) (ds : List Decision) (s : GateState)
        → IsArmed s
        → IsArmed (gate_rounds destructive_search fnmatch autonomy rules active calls ds s)
    gate_rounds-IsArmed active calls [] s a = a
    gate_rounds-IsArmed active calls (d ∷ ds) s a =
        elim (Route-cases (after_gate fnmatch autonomy active calls s)) [
          | inl again ↦
              rw (rounds_again destructive_search fnmatch autonomy rules active calls d ds s again)
                (gate_rounds-IsArmed active calls ds
                  (approval_gate_node destructive_search fnmatch autonomy rules calls d s)
                  (pass-IsArmed calls d s (again-open active calls s again) a))
          | inr stops ↦
              rw (rounds_stop destructive_search fnmatch autonomy rules active calls d ds s stops) a
        ]
