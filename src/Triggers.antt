-- ===== src/Triggers.antt =====
-- backend/app/services/triggers.py: the engine that turns events of ADO into runs, with its four
-- guardrails, the queue of rate-limited events and the recovery of stuck ones; and the resolution of
-- identities in backend/app/services/identity.py. The proofs are in the children.
--
-- Tables are lists of rows, in the order of their ids. A filter and a payload are dicts of texts. The settings,
-- the clock, the ids of `uuid4`, Python's `int` on a text and the run's lead thread are arguments, and
-- so is what a handler (guardian, responder) makes of the runs and its verdict. A `none` for a verdict is an
-- exception.
pub mod Dispatch
use z_agent.Base.{Some}
use z_agent.Base.{
  ℕ, zero, suc, ◌+◌, ◌-◌, ◌*◌, ◌/◌, ◌%◌, ◌≤◌, ◌<◌, String, ◌≡◌, refl, sym, ap, ◌∙◌, ◌≢◌, ◌↔◌, ◌⊎◌,
  inl, inr, Bool, true, false, not, ◌&&◌, ◌||◌, Option, none, some, List, [], ◌∷◌, ◌++◌, map, arith,
  str_eq, eq_iff, ltb, leb, ◌==◌, if◌then◌else◌, Bool-cases, Option-cases, ltb→lt, leb→le, is_some,
  length, any, all, filter, count, take, drop, head?, All, length-append, count-append, count-le,
  length-drop, length-take, All-append, any-append, codes, elem, eq_self, elem-append, take_text,
  Result, ok, raise, or_else,
}
use z_agent.Base.Dict
use z_agent.Base.Dict.{Dict}
use z_agent.Contracts.{RunStage, queued}
use z_agent.Run.{is_terminal}

pub record Trigger : Type 0 where
  pub name : String
  pub source : String
  pub filter_json : Dict String
  pub mode : String
  pub owner_resolution : String
  pub enabled : Bool
  pub rate_limit_per_hour : ℕ

pub record TriggerEvent : Type 0 where
  pub source : String
  pub external_id : String
  pub revision : ℕ
  pub event_type : String
  pub changed_by_descriptor : Option String
  pub payload : Dict String

pub record Verdict : Type 0 where
  pub trigger : String
  pub status : String
  pub run_id : Option String
  pub resolved_user_id : Option ℕ

-- A row of trigger_events; the list of verdicts in its payload is a column of its own.
pub record Log : Type 0 where
  pub id : ℕ
  pub event : TriggerEvent
  pub resolved_user_id : Option ℕ
  pub run_id : Option String
  pub status : String
  pub verdicts : List Verdict
  pub received_at : ℕ

pub record VerdictRow : Type 0 where
  pub log_id : ℕ
  pub trigger_name : String
  pub status : String
  pub run_id : Option String

pub record RunRow : Type 0 where
  pub created_by : Option ℕ
  pub mode : String
  pub autonomy : String
  pub stage : RunStage

pub record Db : Type 0 where
  pub triggers : List Trigger
  pub logs : List Log
  pub verdict_rows : List VerdictRow
  pub runs : Dict RunRow
  pub modes : List String
  pub nudged : List String

-- The settings and what stands around the engine.
pub record World : Type 0 where
  pub service_account_descriptor : String
  pub flap_window : ℕ
  pub users : Dict ℕ
  pub system_user : ℕ
  pub is_int : String → Bool
  pub has_lead_thread : String → Bool
  pub handler : String → Option (Trigger → TriggerEvent → Db → Dict RunRow × Option Verdict)

abbrev pub hour : ℕ
hour = 3600

-- `event.payload.get(key) != want`
abbrev pub has_value : Option String → String → Bool
has_value none want = false
has_value (some v) want = str_eq v want

-- One key of the filter.
abbrev pub key_matches : TriggerEvent → String × String → Bool
key_matches e (key, want) =
    if str_eq key "event_type"
    then str_eq want e.event_type
    else has_value (Dict.get key e.payload) want

unfoldable pub filter_matches : TriggerEvent → Dict String → Bool
filter_matches e f = all (key_matches e) f

-- `session.query(Trigger).filter_by(enabled=True, source=…)`, and `_matches`
unfoldable pub is_matched : TriggerEvent → Trigger → Bool
is_matched e t = (t.enabled && str_eq t.source e.source) && filter_matches e t.filter_json

-- The key of uq_trigger_dedupe.
unfoldable pub same_event : TriggerEvent → Log → Bool
same_event e l =
    str_eq l.event.source e.source
    && (str_eq l.event.external_id e.external_id && l.event.revision == e.revision)

-- `_log_event`: none on a duplicate.
unfoldable pub log_event : TriggerEvent → ℕ → ℕ → Db → Option Db
log_event e id now db =
    if any (same_event e) db.logs
    then none
    else some (record db {
      logs =
          db.logs
          ++ (record {
            id = id;
            event = e;
            resolved_user_id = none;
            run_id = none;
            status = "received";
            verdicts = [];
            received_at = now;
          }
              ∷ []);
    })

-- `_set_log`: the row with the id, changed.
unfoldable pub set_log : ℕ → (Log → Log) → List Log → List Log
set_log id change [] = []
set_log id change (l ∷ logs) = (if l.id == id then change l else l) ∷ set_log id change logs

-- `_persist_verdicts`: the rows of the log are replaced.
unfoldable pub persist_verdicts : ℕ → List Verdict → List VerdictRow → List VerdictRow
persist_verdicts id verdicts rows =
    filter (λ r. not (r.log_id == id)) rows
    ++ map
        (λ v. record {
          log_id = id;
          trigger_name = v.trigger;
          status = v.status;
          run_id = v.run_id;
        })
        verdicts

abbrev pub same_descriptor : Option String → String → Bool
same_descriptor none own = false
same_descriptor (some d) own = str_eq d own

-- `resolve_descriptor`, over the active users by their descriptors
unfoldable pub resolve_descriptor : Dict ℕ → Option String → Option ℕ
resolve_descriptor users none = none
resolve_descriptor users (some d) = if str_eq d "" then none else Dict.get d users

-- Whether a verdict of the log says that the trigger started the run.
abbrev pub says_started : String → String → Verdict → Bool
says_started name run_id v =
    str_eq v.trigger name && (str_eq v.status "started" && has_value v.run_id run_id)

-- Whether the log was started by the trigger; a log without verdicts is of an older kind.
unfoldable pub started_by : Trigger → String → Log → Bool
started_by t run_id l = elim l.verdicts [
  | [] ↦ has_value (Dict.get "trigger_name" l.event.payload) t.name
  | ◌∷◌ v vs ↦ any (says_started t.name run_id) (v ∷ vs)
]

-- The tests of `_recent_active_run` on one log.
unfoldable pub coalesces : Trigger → TriggerEvent → ℕ → Dict RunRow → Log → Option String
coalesces t e window runs l =
    if str_eq l.event.external_id e.external_id
      && (str_eq l.status "matched" && leb window l.received_at)
    then elim l.run_id [
      | none ↦ none
      | some r ↦ elim (Dict.get r runs) [
        | none ↦ none
        | some run ↦
            if not (is_terminal run.stage) && (str_eq run.mode t.mode && started_by t r l)
            then some r
            else none
      ]
    ]
    else none

-- The newest log is tried first.
unfoldable pub recent_active_run :
    Trigger → TriggerEvent → ℕ → Dict RunRow → List Log → Option String
recent_active_run t e window runs [] = none
recent_active_run t e window runs (l ∷ logs) = elim (recent_active_run t e window runs logs) [
  | some r ↦ some r
  | none ↦ coalesces t e window runs l
]

-- The join of a verdict with its log: received at `since` or later.
unfoldable pub received_since : ℕ → ℕ → List Log → Bool
received_since since id logs = any (λ l. l.id == id && leb since l.received_at) logs

unfoldable pub is_counted : String → ℕ → List Log → VerdictRow → Bool
is_counted name since logs r =
    str_eq r.trigger_name name && (str_eq r.status "started" && received_since since r.log_id logs)

unfoldable pub count_started : String → ℕ → Db → ℕ
count_started name since db = count (is_counted name since db.logs) db.verdict_rows

unfoldable pub rate_limited : Trigger → ℕ → Db → Bool
rate_limited t now db = leb t.rate_limit_per_hour (count_started t.name (now - hour) db)

-- `create_run` as the engine calls it; none is its exception.
unfoldable pub create_run : World → String → Option ℕ → String → String → Db → Option Db
create_run w id owner mode external_id db =
    if w.is_int external_id && elem mode db.modes
    then some (record db {
      runs =
          Dict.put id
            (record { created_by = owner; mode = mode; autonomy = "gated"; stage = queued })
            db.runs;
    })
    else none

abbrev pub verdict_for : Trigger → String → Option String → Option ℕ → Verdict
verdict_for t status run_id owner = record {
  trigger = t.name;
  status = status;
  run_id = run_id;
  resolved_user_id = owner;
}
