-- ===== src/Engine/Gate/Progress.antt =====
-- The loop between the gate and its routing ends: every pass decides a call, or sends the turn on.
use z_agent.Base.{
  ℕ, ◌≤◌, ◌<◌, String, ◌≡◌, refl, ap, ◌≢◌, ◌⊎◌, inl, inr, Bool, true, false, not, ◌&&◌, ◌||◌,
  Option, some, List, [], ◌∷◌, arith, str_eq, if◌then◌else◌, Bool-cases, is_some, length, any,
  count, elem, eq_self,
}
use z_agent.Base.Dict
use z_agent.Base.Dict.{Dict, get-put}
use z_agent.Engine.Permissions.{Rule, Args}
use z_agent.Engine.Tools.{needs_approval}
use z_agent.Engine.Gate.{
  Call, Decision, Entry, GateState, Stance, decided, rule_denied, passed, card, Route, to_gate,
  to_end, to_tools, granted, refused, grant, refuse, resolve, unruled, stance, approval_gate_node,
  is_undecided, after_gate, accepted_verdicts, verdict_of, reason_of, exec_args_of,
}

-- A decided call stays decided.
abbrev pub Keeps : Dict Entry → Dict Entry → Type 0
Keeps d d' = (k : String) → is_some (Dict.get k d) ≡ true → is_some (Dict.get k d') ≡ true

Keeps-put : (k : String) (e : Entry) (d : Dict Entry) → Keeps d (Dict.put k e d)
Keeps-put k e d j h = rw (get-put k j e d) (ground arith)

put-decides :
    (k : String) (e : Entry) (d : Dict Entry) → is_some (Dict.get k (Dict.put k e d)) ≡ true
put-decides k e d = rw (get-put k k e d) (ground (arith, eq_self k))

pub Stance-cases :
    (t : Stance)
    → (t ≡ decided)
      ⊎ (t ≡ rule_denied)
      ⊎ ((via : String) × (args : Option Args) × (t ≡ passed via args))
      ⊎ (t ≡ card)
Stance-cases decided = inl refl
Stance-cases rule_denied = inr (inl refl)
Stance-cases (passed via args) = inr (inr (inl (via, args, refl)))
Stance-cases card = inr (inr (inr refl))

pub Route-cases : (r : Route) → (r ≡ to_gate) ⊎ (r ≡ to_end) ⊎ (r ≡ to_tools)
Route-cases to_gate = inl refl
Route-cases to_end = inr (inl refl)
Route-cases to_tools = inr (inr refl)

pub grant-calls :
    (c : Call) (via : String) (args : Option Args) (s : GateState)
    → (grant c via args s).approved_calls ≡ Dict.put c.id (granted via args) s.approved_calls
unfolding grant
grant-calls c via args s = refl

pub refuse-calls :
    (c : Call) (reason : String) (s : GateState)
    → (refuse c reason s).approved_calls ≡ Dict.put c.id (refused reason) s.approved_calls
unfolding refuse
refuse-calls c reason s = refl

-- The decision is one that lets the call through.
abbrev pub accepts : Decision → Bool
accepts d =
    not (str_eq (verdict_of d) "edited_allow" && not (is_some d.edited_args))
    && elem (verdict_of d) accepted_verdicts

-- The entry that the human's decision makes.
abbrev pub entry_of : Call → Decision → Entry
entry_of c d =
    if accepts d
    then granted (verdict_of d) (some (exec_args_of d c.args))
    else if str_eq (verdict_of d) "edited_allow" && not (is_some d.edited_args)
    then refused "edited_allow without edited_args — denied"
    else refused (reason_of d)

module _ (destructive_search : String → Bool) where
  -- Whatever the human decides, exactly the entry of the call is written.
  pub resolve-calls :
      (c : Call) (d : Decision) (s : GateState)
      → (resolve destructive_search c d s).approved_calls
        ≡ Dict.put c.id (entry_of c d) s.approved_calls
  unfolding resolve grant refuse
  resolve-calls c d s = ground arith

  module _ (fnmatch : String → String → Bool) (autonomy : String) (rules : List Rule) where
    abbrev pub gate : List Call → Decision → GateState → GateState
    gate = approval_gate_node destructive_search fnmatch autonomy rules

    abbrev pub stance_of : Call → GateState → Stance
    stance_of = stance destructive_search fnmatch autonomy rules

    gate-Keeps :
        (calls : List Call) (d : Decision) (s : GateState)
        → Keeps s.approved_calls (gate calls d s).approved_calls
    unfolding approval_gate_node
    gate-Keeps [] d s k h = h
    gate-Keeps (c ∷ calls) d s k h = elim (Stance-cases (stance_of c s)) [
      | inl p ↦ rw (p, approval_gate_node) (gate-Keeps calls d s k h)
      | inr (inl p) ↦
          rw (p, approval_gate_node)
            (rw (refuse-calls c "denied by permission rule (hard policy)" s) (
              Keeps-put c.id (refused "denied by permission rule (hard policy)") s.approved_calls k
                h))
      | inr (inr (inl (via, args, p))) ↦
          rw (p, approval_gate_node)
            (gate-Keeps calls d (grant c via args s) k (
              rw (grant-calls c via args s)
                (Keeps-put c.id (granted via args) s.approved_calls k h)))
      | inr (inr (inr p)) ↦
          rw (p, approval_gate_node)
            (rw (resolve-calls c d s) (Keeps-put c.id (entry_of c d) s.approved_calls k h))
    ]

    decided-known :
        (c : Call) (s : GateState)
        → stance_of c s ≡ decided
        → is_some (Dict.get c.id s.approved_calls) ≡ true
    unfolding stance unruled
    decided-known c s h = ground arith

    -- The first call of the list is decided by the pass.
    gate-decides :
        (c : Call) (calls : List Call) (d : Decision) (s : GateState)
        → is_some (Dict.get c.id (gate (c ∷ calls) d s).approved_calls) ≡ true
    unfolding approval_gate_node
    gate-decides c calls d s = elim (Stance-cases (stance_of c s)) [
      | inl p ↦ rw (p, approval_gate_node) (gate-Keeps calls d s c.id (decided-known c s p))
      | inr (inl p) ↦
          rw (p, approval_gate_node)
            (rw (refuse-calls c "denied by permission rule (hard policy)" s) (
              put-decides c.id (refused "denied by permission rule (hard policy)")
                s.approved_calls))
      | inr (inr (inl (via, args, p))) ↦
          rw (p, approval_gate_node)
            (gate-Keeps calls d (grant c via args s) c.id (
              rw (grant-calls c via args s) (put-decides c.id (granted via args) s.approved_calls)))
      | inr (inr (inr p)) ↦
          rw (p, approval_gate_node)
            (rw (resolve-calls c d s) (put-decides c.id (entry_of c d) s.approved_calls))
    ]

    known-decided :
        (c : Call) (s : GateState)
        → is_some (Dict.get c.id s.approved_calls) ≡ true
        → stance_of c s ≡ decided
    unfolding stance
    known-decided c s h = rw h refl

    abbrev pub undecided : List Call → GateState → ℕ
    undecided calls s = count (is_undecided s.approved_calls) calls

    undecided-le :
        (calls : List Call) (s s' : GateState)
        → Keeps s.approved_calls s'.approved_calls
        → undecided calls s' ≤ undecided calls s
    undecided-le [] s s' k = omega arith
    undecided-le (c ∷ calls) s s' k = ground (arith, undecided-le calls s s' k, k c.id)

    -- A pass leaves fewer undecided calls, unless there were none.
    gate-lt :
        (calls : List Call) (d : Decision) (s : GateState)
        → (undecided calls s ≡ 0) ⊎ (undecided calls (gate calls d s) < undecided calls s)
    unfolding approval_gate_node
    gate-lt [] d s = inl refl
    gate-lt (c ∷ calls) d s = elim (Bool-cases (is_some (Dict.get c.id s.approved_calls))) [
      | inl known ↦
          let kept : is_some (Dict.get c.id (gate (c ∷ calls) d s).approved_calls) ≡ true =
            gate-decides c calls d s in
          let same : gate (c ∷ calls) d s ≡ gate calls d s =
            rw (known-decided c s known, approval_gate_node) refl in
          elim (gate-lt calls d s) [
            | inl none_left ↦ inl (ground arith)
            | inr fewer ↦ inr (ground (arith, kept, ap (undecided calls) same))
          ]
      | inr fresh ↦ inr (
          ground (
            arith,
            gate-decides c calls d s,
            undecided-le calls s (gate (c ∷ calls) d s) (gate-Keeps (c ∷ calls) d s),
          ))
    ]

    abbrev pub next_of : Bool → List Call → GateState → Route
    next_of = after_gate fnmatch autonomy

    -- Passes, each with the human's decision if it asks for one, as long as the routing asks for another.
    abbrev pub gate_rounds : Bool → List Call → List Decision → GateState → GateState
    gate_rounds active calls [] s = s
    gate_rounds active calls (d ∷ ds) s = elim (next_of active calls s) [
      | to_gate ↦ gate_rounds active calls ds (gate calls d s)
      | to_end ↦ s
      | to_tools ↦ s
    ]

    none_asks :
        (active : Bool) (calls : List Call) (s : GateState)
        → undecided calls s ≡ 0
        → any
            (λ c.
              is_undecided s.approved_calls c
              && (active || needs_approval fnmatch c.name autonomy [] []))
            calls
          ≡ false
    none_asks active [] s h = refl
    none_asks active (c ∷ calls) s h = ground (arith, none_asks active calls s (ground arith))

    to_gate-undecided :
        (active : Bool) (calls : List Call) (s : GateState)
        → next_of active calls s ≡ to_gate
        → undecided calls s ≢ 0
    unfolding after_gate
    to_gate-undecided active calls s h z = ground (arith, none_asks active calls s z)

    pub rounds_stop :
        (active : Bool) (calls : List Call) (d : Decision) (ds : List Decision) (s : GateState)
        → (next_of active calls s ≡ to_end) ⊎ (next_of active calls s ≡ to_tools)
        → gate_rounds active calls (d ∷ ds) s ≡ s
    rounds_stop active calls d ds s (inl h) = rw (h, gate_rounds) refl
    rounds_stop active calls d ds s (inr h) = rw (h, gate_rounds) refl

    pub rounds_again :
        (active : Bool) (calls : List Call) (d : Decision) (ds : List Decision) (s : GateState)
        → next_of active calls s ≡ to_gate
        → gate_rounds active calls (d ∷ ds) s ≡ gate_rounds active calls ds (gate calls d s)
    rounds_again active calls d ds s h = rw (h, gate_rounds) refl

    -- The loop between the gate and the routing ends: after as many passes as there are undecided calls,
    -- whatever the rules and the humans say, the routing sends the turn to its end or to the tools.
    pub gate_rounds_end :
        (active : Bool) (calls : List Call) (ds : List Decision) (s : GateState)
        → undecided calls s ≤ length ds
        → next_of active calls (gate_rounds active calls ds s) ≢ to_gate
    gate_rounds_end active calls [] s h g = to_gate-undecided active calls s g (omega arith)
    gate_rounds_end active calls (d ∷ ds) s h g = elim (Route-cases (next_of active calls s)) [
      | inl again ↦
          gate_rounds_end active calls ds (gate calls d s)
            (ground (arith, gate-lt calls d s, to_gate-undecided active calls s again))
            (rw (← rounds_again active calls d ds s again) g)
      | inr (inl ends) ↦ ground arith
      | inr (inr tools) ↦ ground arith
    ]
