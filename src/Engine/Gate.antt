-- ===== src/Engine/Gate.antt =====
-- worker/worker/engine/graph.py: the approval gate node and the routing behind it, with what they ask of
-- the broker in worker/worker/engine/approvals.py. The proofs are in the children.
--
-- LangGraph runs the node again from its start when the human's decision is there; that run is
-- modelled, so the decision that `interrupt` returns is an argument. `destructive_search` is the search
-- of the regular expression DESTRUCTIVE_COMMANDS. The command of a terminal call is a text.
pub mod Warrants
pub mod Policies
pub mod Progress
pub mod Breaker
use z_agent.Base.{
  ℕ, zero, suc, ◌+◌, ◌-◌, ◌*◌, ◌/◌, ◌%◌, ◌≤◌, ◌<◌, String, ◌≡◌, refl, sym, ap, ◌∙◌, ◌≢◌, ◌↔◌, ◌⊎◌,
  inl, inr, Bool, true, false, not, ◌&&◌, ◌||◌, Option, none, some, List, [], ◌∷◌, ◌++◌, map, arith,
  str_eq, eq_iff, ltb, leb, ◌==◌, if◌then◌else◌, Bool-cases, Option-cases, ltb→lt, leb→le, is_some,
  length, any, all, filter, count, take, drop, head?, All, length-append, count-append, count-le,
  length-drop, length-take, All-append, any-append, codes, elem, eq_self, elem-append, take_text,
  Result, ok, raise, or_else,
}
use z_agent.Base.Dict
use z_agent.Base.Dict.{Dict}
use z_agent.Engine.Permissions.{Rule, Args, allow, ask, deny, evaluate, arg, Effect}
use z_agent.Engine.Tools.{needs_approval}

pub record Call : Type 0 where
  pub id : String
  pub name : String
  pub args : Args

-- The value that `interrupt` returns: a dict, in which each entry may be missing.
pub record Decision : Type 0 where
  pub decision : Option String
  pub reason : Option String
  pub edited_args : Option Args

-- An entry of `approved_calls`: with how it was granted and the args to execute, if they are kept; or
-- with the reason of its denial.
pub data Entry : Type 0 where
  granted : String → Option Args → Entry
  refused : String → Entry

-- What the node reads and writes: of the state its three keys; of the broker, if there is one, the
-- always-allow set in Redis.
pub record GateState : Type 0 where
  pub approved_calls : Dict Entry
  pub denial_streak : ℕ
  pub done : Bool
  pub always_allow : Option (List String)

-- What the loop finds of a call.
pub data Stance : Type 0 where
  decided : Stance
  rule_denied : Stance
  passed : String → Option Args → Stance
  card : Stance

pub data Route : Type 0 where
  to_end to_gate to_tools : Route

-- `args.get("command", "")`
unfoldable pub command_of : Args → String
command_of args = elim (arg "command" args) [ none ↦ "" | some c ↦ c ]

abbrev pub is_text : String → Option String → Bool
is_text s none = false
is_text s (some t) = str_eq t s

unfoldable pub accepted_verdicts : List String
accepted_verdicts = "allow" ∷ "allow_once" ∷ "always_allow" ∷ "edited_allow" ∷ []

-- `decision.get("decision", "deny")`
abbrev pub verdict_of : Decision → String
verdict_of d = elim d.decision [ none ↦ "deny" | some v ↦ v ]

-- `decision.get("reason", "denied by user")`
abbrev pub reason_of : Decision → String
reason_of d = elim d.reason [ none ↦ "denied by user" | some r ↦ r ]

-- `decision.get("edited_args", args)`
abbrev pub exec_args_of : Decision → Args → Args
exec_args_of d args = elim d.edited_args [ none ↦ args | some edited ↦ edited ]

abbrev pub record_entry : Call → Entry → GateState → GateState
record_entry c e s = record s { approved_calls = Dict.put c.id e s.approved_calls }

-- An approval breaks the run of denials.
unfoldable pub grant : Call → String → Option Args → GateState → GateState
grant c via args s = record (record_entry c (granted via args) s) { denial_streak = 0 }

-- A denial lengthens it, and the third in a row ends the turn.
unfoldable pub refuse : Call → String → GateState → GateState
refuse c reason s = record (record_entry c (refused reason) s) {
  denial_streak = s.denial_streak + 1;
  done = if leb 3 (s.denial_streak + 1) then true else s.done;
}

-- `tc_id not in approved`
abbrev pub is_undecided : Dict Entry → Call → Bool
is_undecided approved c = not (is_some (Dict.get c.id approved))

module _ (destructive_search : String → Bool) where
  unfoldable pub is_destructive : String → Args → Bool
  is_destructive name args = str_eq name "terminal_exec" && destructive_search (command_of args)

  -- `is_always_allowed`, where there is a broker.
  unfoldable pub is_always_allowed : Option (List String) → Call → Bool
  is_always_allowed none c = false
  is_always_allowed (some members) c =
      if is_destructive c.name c.args then false else elem c.name members

  -- `persist_always_allow`, unless the args to execute are destructive.
  unfoldable pub persist_always_allow :
      String → String → Args → Option (List String) → Option (List String)
  persist_always_allow verdict name args none = none
  persist_always_allow verdict name args (some members) =
      if str_eq verdict "always_allow" && not (is_destructive name args)
      then some (name ∷ members)
      else some members

  -- What the human's decision makes of the call.
  unfoldable pub resolve : Call → Decision → GateState → GateState
  unfolding grant refuse
  resolve c d s =
      let verdict = verdict_of d in
      let exec_args = exec_args_of d c.args in
      if str_eq verdict "edited_allow" && not (is_some d.edited_args)
      then refuse c "edited_allow without edited_args — denied" s
      else if elem verdict accepted_verdicts
      then record (grant c verdict (some exec_args) s) {
        always_allow = persist_always_allow verdict c.name exec_args s.always_allow;
      }
      else refuse c (reason_of d) s

  module _ (fnmatch : String → String → Bool) (autonomy : String) (rules : List Rule) where
    -- A call on which no rule says allow or deny.
    unfoldable pub unruled : Bool → Option (List String) → Call → Stance
    unruled ask_required members c =
        if not ask_required
          && (str_eq c.name "knowledge_draft" && is_text "user" (arg "scope" c.args))
        then passed "scope_user_auto" (some c.args)
        else if not ask_required && not (needs_approval fnmatch c.name autonomy [] [])
        then passed "not_required" none
        else if is_always_allowed members c
        then passed "always_allow" none
        else card

    unfoldable pub stance : Call → GateState → Stance
    stance c s =
        if is_some (Dict.get c.id s.approved_calls)
        then decided
        else elim (evaluate fnmatch c.name c.args rules) [
          | none ↦ unruled false s.always_allow c
          | some e ↦ elim e [
            | allow ↦ passed "ruleset_allow" (some c.args)
            | ask ↦ unruled true s.always_allow c
            | deny ↦ rule_denied
          ]
        ]

    -- The loop over the calls, which a denial by a rule and a human's decision end.
    unfoldable pub approval_gate_node : List Call → Decision → GateState → GateState
    approval_gate_node [] d s = s
    approval_gate_node (c ∷ calls) d s = elim (stance c s) [
      | decided ↦ approval_gate_node calls d s
      | rule_denied ↦ refuse c "denied by permission rule (hard policy)" s
      | passed via args ↦ approval_gate_node calls d (grant c via args s)
      | card ↦ resolve c d s
    ]

-- `_after_gate`
unfoldable pub after_gate : (String → String → Bool) → String → Bool → List Call → GateState → Route
after_gate fnmatch autonomy permissions_active calls s =
    if s.done
    then to_end
    else if any
        (λ c.
          is_undecided s.approved_calls c
          && (permissions_active || needs_approval fnmatch c.name autonomy [] []))
        calls
    then to_gate
    else to_tools
