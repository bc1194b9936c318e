-- ===== src/Approvals.antt =====
-- Approval cards, from both ends: backend/app/services/approvals.py (the rows, the sweep and
-- `decide`), backend/app/events/control.py (`resolve_approval`, which publishes a decision), and
-- `wait_decision` of the broker in worker/worker/engine/approvals.py, which reads it. The proofs are in
-- the children.
--
-- The table of approvals is a dict by id. The times are arguments. Of Redis the two keys of an approval
-- are modelled, without their lifetimes: the durable copy and the list. A payload is what `json.loads`
-- makes of it; the text of a dict (`edited_args`, a card's payload) is only passed on.
pub mod Rows
pub mod Bridge
pub mod Once
use z_agent.Base.{
  str_append, ℕ, zero, suc, ◌+◌, ◌-◌, ◌*◌, ◌/◌, ◌%◌, ◌≤◌, ◌<◌, String, ◌≡◌, refl, sym, ap, ◌∙◌, ◌≢◌,
  ◌↔◌, ◌⊎◌, inl, inr, Bool, true, false, not, ◌&&◌, ◌||◌, Option, none, some, List, [], ◌∷◌, ◌++◌,
  map, arith, str_eq, eq_iff, ltb, leb, ◌==◌, if◌then◌else◌, Bool-cases, Option-cases, ltb→lt,
  leb→le, is_some, length, any, all, filter, count, take, drop, head?, All, length-append,
  count-append, count-le, length-drop, length-take, All-append, any-append, codes, elem, eq_self,
  elem-append, take_text, Result, ok, raise, or_else,
}
use z_agent.Base.Dict
use z_agent.Base.Dict.{Dict}

pub record Approval : Type 0 where
  pub run_id : Option String
  pub thread_id : Option String
  pub kind : String
  pub payload : String
  pub decision : Option String
  pub decided_by : Option ℕ
  pub decided_at : Option ℕ
  pub expires_at : Option ℕ

pub data DecideError : Type 0 where
  not_found : DecideError
  already_decided : String → DecideError

pub record Verdict : Type 0 where
  pub decision : Option String
  pub reason : String
  pub edited_args : Option String

-- What `json.loads` makes of a payload: nothing, a value that is no dict, or a dict.
pub data Payload : Type 0 where
  not_json : Payload
  not_dict : Payload
  dict : Verdict → Payload

pub record Redis : Type 0 where
  pub decision_values : Dict Payload
  pub decision_lists : Dict (List Payload)

-- `_WORKER_DECISION`
unfoldable pub worker_decisions : Dict String
worker_decisions =
    ("allow", "allow")
    ∷ ("allow_once", "allow_once")
    ∷ ("always_allow", "always_allow")
    ∷ ("edited_allow", "edited_allow")
    ∷ ("deny", "deny")
    ∷ ("deny_tool", "deny")
    ∷ ("approved", "allow")
    ∷ ("rejected", "deny")
    ∷ []

-- `_WORKER_DECISION.get(decision, "deny")`
unfoldable pub worker_decision : String → String
unfolding worker_decisions
worker_decision decision = elim (Dict.get decision worker_decisions) [ none ↦ "deny" | some d ↦ d ]

-- `reason or (decision if worker_decision != decision else "")`
unfoldable pub worker_reason : String → String → String
worker_reason decision reason =
    if not (str_eq reason "")
    then reason
    else if str_eq (worker_decision decision) decision
    then ""
    else decision

-- `expires is not None and expires <= now`
abbrev pub is_expired : Option ℕ → ℕ → Bool
is_expired none now = false
is_expired (some t) now = leb t now

abbrev pub stamp_timeout : ℕ → Approval → Approval
stamp_timeout now a = record a { decision = some "timeout"; decided_at = some now }

abbrev pub stamp : String → ℕ → ℕ → Approval → Approval
stamp decision decided_by now a = record a {
  decision = some decision;
  decided_by = some decided_by;
  decided_at = some now;
}

abbrev pub list_of : String → Redis → List Payload
list_of id r = elim (Dict.get id r.decision_lists) [ none ↦ [] | some ps ↦ ps ]

-- `resolve_approval` sets the durable copy and pushes to the list.
unfoldable pub resolve_approval : String → Verdict → Redis → Redis
resolve_approval id v r = record {
  decision_values = Dict.put id (dict v) r.decision_values;
  decision_lists = Dict.put id (list_of id r ++ (dict v ∷ [])) r.decision_lists;
}

unfoldable pub decide :
    String
    → String
    → ℕ
    → String
    → Option String
    → ℕ
    → Dict Approval
    → Redis
    → Dict Approval × Redis × Result DecideError Approval
decide id decision decided_by reason edited_args now table r = elim (Dict.get id table) [
  | none ↦ (table, r, raise not_found)
  | some a ↦ elim a.decision [
    | some old ↦
        if str_eq old decision then (table, r, ok a) else (table, r, raise (already_decided old))
    | none ↦
        if is_expired a.expires_at now
        then (Dict.put id (stamp_timeout now a) table, r, ok (stamp_timeout now a))
        else (
          Dict.put id (stamp decision decided_by now a) table,
          resolve_approval id
              (record {
                decision = some (worker_decision decision);
                reason = worker_reason decision reason;
                edited_args = edited_args;
              })
              r,
          ok (stamp decision decided_by now a),
        )
  ]
]

-- The rows that the sweep stamps.
abbrev pub is_stale : ℕ → Approval → Bool
is_stale now a = not (is_some a.decision) && is_expired a.expires_at now

-- `_expire_stale`, in a pass of the loop in which it is due (thirty seconds after the last): the table,
-- and the ids that are fanned out.
unfoldable pub expire_stale : ℕ → Dict Approval → Dict Approval × List String
expire_stale now [] = ([], [])
expire_stale now ((id, a) ∷ rows) =
    let rest = expire_stale now rows in
    if is_stale now a
    then ((id, stamp_timeout now a) ∷ rest.0, id ∷ rest.1)
    else ((id, a) ∷ rest.0, rest.1)

-- The insert of `_create_card`, for the fields of the message with their defaults.
unfoldable pub create_card :
    ℕ → ℕ → String → Option String → String → String → String → Dict Approval → Dict Approval
create_card now ttl run_id thread_id kind payload id table = elim (Dict.get id table) [
  | some existing ↦ table
  | none ↦
      Dict.put id
        (record {
          run_id = some run_id;
          thread_id = thread_id;
          kind = kind;
          payload = payload;
          decision = none;
          decided_by = none;
          decided_at = none;
          expires_at = some (now + ttl);
        })
        table
]

abbrev pub denied : String → Verdict
denied reason = record { decision = some "deny"; reason = reason; edited_args = none }

unfoldable pub known_decisions : List String
known_decisions = "allow" ∷ "allow_once" ∷ "always_allow" ∷ "edited_allow" ∷ "deny" ∷ []

-- `AttributeError`, from `.get` of a value that is no dict.
pub data ReadError : Type 0 where
  attribute_error : ReadError

unfoldable pub read_decision : Payload → Result ReadError Verdict
read_decision not_json = ok (denied "malformed decision payload — denied")
read_decision not_dict = raise attribute_error
read_decision (dict v) = elim v.decision [
  | none ↦ ok (denied "unknown decision — denied")
  | some d ↦ if elem d known_decisions then ok v else ok (denied "unknown decision — denied")
]

-- What the blocking pop of an approval's list returns: an error of the channel, nothing in time, or a
-- payload.
pub data Popped : Type 0 where
  channel_error : String → Popped
  timed_out : Popped
  answered : Payload → Popped

-- `wait_decision`; the first argument is the durable copy, if Redis gives one.
unfoldable pub wait_decision : Option Payload → Popped → Result ReadError Verdict
unfolding read_decision
wait_decision (some p) popped = read_decision p
wait_decision none (channel_error e) =
    ok (denied (str_append "approval channel error — denied (" (str_append e ")")))
wait_decision none timed_out = ok (denied "approval timed out — denied")
wait_decision none (answered p) = read_decision p
