-- ===== src/Triggers/Dispatch.antt =====
-- backend/app/services/triggers.py: `process`, `_dispatch`, `drain_queued`, `recover_stuck`. The proofs are
-- in the children.
pub mod Cases
pub mod Guardrails
pub mod Dedupe
pub mod Rate
pub mod Cap
pub mod Queue
use z_agent.Base.{
  ℕ, zero, suc, ◌+◌, ◌-◌, ◌*◌, ◌/◌, ◌%◌, ◌≤◌, ◌<◌, String, ◌≡◌, refl, sym, ap, ◌∙◌, ◌≢◌, ◌↔◌, ◌⊎◌,
  inl, inr, Bool, true, false, not, ◌&&◌, ◌||◌, Option, none, some, List, [], ◌∷◌, ◌++◌, map, arith,
  str_eq, eq_iff, ltb, leb, ◌==◌, if◌then◌else◌, Bool-cases, Option-cases, ltb→lt, leb→le, is_some,
  length, any, all, filter, count, take, drop, head?, All, length-append, count-append, count-le,
  length-drop, length-take, All-append, any-append, codes, elem, eq_self, elem-append, take_text,
  Result, ok, raise, or_else,
}
use z_agent.Base.Dict
use z_agent.Base.Dict.{Dict}
use z_agent.Triggers.{
  Trigger, TriggerEvent, Verdict, Log, VerdictRow, RunRow, Db, World, hour, is_matched, log_event,
  set_log, persist_verdicts, same_descriptor, resolve_descriptor, recent_active_run, rate_limited,
  create_run, verdict_for,
}

unfoldable pub status_of : List Verdict → String
status_of [] = "ignored"
status_of (v ∷ vs) =
    if all (λ u. str_eq u.status "queued") (v ∷ vs)
    then "queued"
    else if all (λ u. str_eq u.status "failed") (v ∷ vs)
    then "failed"
    else "matched"

-- `started[0]["run_id"] if started else None`
unfoldable pub first_started : List Verdict → Option String
first_started [] = none
first_started (v ∷ vs) = if str_eq v.status "started" then v.run_id else first_started vs

unfoldable pub first_owner : List Verdict → Option ℕ
first_owner [] = none
first_owner (v ∷ vs) = elim v.resolved_user_id [ some u ↦ some u | none ↦ first_owner vs ]

unfoldable pub stamp : List Verdict → Log → Log
stamp vs l = record l {
  status = status_of vs;
  run_id = first_started vs;
  resolved_user_id = first_owner vs;
  verdicts = vs;
}

-- `_queued_trigger_name`
unfoldable pub queued_trigger_name : Log → Option String
queued_trigger_name l = elim l.verdicts [
  | [] ↦ Dict.get "trigger_name" l.event.payload
  | ◌∷◌ v vs ↦ elim (filter (λ u. str_eq u.status "queued") (v ∷ vs)) [
    | [] ↦ some v.trigger
    | ◌∷◌ u us ↦ some u.trigger
  ]
]

-- `session.query(Trigger).filter_by(name=…).one_or_none()`
unfoldable pub find_trigger : Option String → List Trigger → Option Trigger
find_trigger none ts = none
find_trigger (some name) [] = none
find_trigger (some name) (t ∷ ts) =
    if str_eq t.name name then some t else find_trigger (some name) ts

-- `{"trigger": trigger.name, **verdict}`; no handler puts a trigger into its dict.
abbrev pub own_verdict : Trigger → Option Verdict → Option Verdict
own_verdict t none = none
own_verdict t (some v) = some (record v { trigger = t.name })

-- A dispatch that raised gives its row back.
unfoldable pub release : ℕ → Db × Option String → Db
release id (db, some status) = db
release id (db, none) = record db {
  logs = set_log id (λ k. record k { status = "received" }) db.logs;
}

module _ (w : World) (uuid : String → String) (now : ℕ) where
  -- `_is_loop`
  unfoldable pub is_loop : TriggerEvent → Bool
  is_loop e =
      not (str_eq w.service_account_descriptor "")
      && same_descriptor e.changed_by_descriptor w.service_account_descriptor

  unfoldable pub resolve_owner : Trigger → TriggerEvent → Option ℕ
  resolve_owner t e =
      if str_eq t.owner_resolution "system"
      then some w.system_user
      else resolve_descriptor w.users e.changed_by_descriptor

  -- The run of one trigger, or its handler's verdict.
  unfoldable pub start : Trigger → TriggerEvent → Option ℕ → Db → Db × Option Verdict
  start t e owner db = elim (w.handler e.event_type) [
    | some handle ↦ (record db { runs = (handle t e db).0 }, own_verdict t (handle t e db).1)
    | none ↦ elim (create_run w (uuid t.name) owner t.mode e.external_id db) [
      | none ↦ (db, none)
      | some db' ↦ (db', some (verdict_for t "started" (some (uuid t.name)) owner))
    ]
  ]

  -- Guardrails 2 and 3.
  unfoldable pub guarded : Trigger → TriggerEvent → Option ℕ → Db → Db × Option Verdict
  guarded t e owner db = elim (recent_active_run t e (now - w.flap_window) db.runs db.logs) [
    | some r ↦ (
      if w.has_lead_thread r then record db { nudged = r ∷ db.nudged } else db,
      some (verdict_for t "nudged" (some r) owner),
    )
    | none ↦
        if rate_limited t now db
        then (db, some (verdict_for t "queued" none owner))
        else start t e owner db
  ]

  unfoldable pub judge : Trigger → TriggerEvent → Db → Db × Option Verdict
  judge t e db = elim (w.handler e.event_type) [
    | some handle ↦ guarded t e none db
    | none ↦ elim (resolve_owner t e) [
      | none ↦ (db, some (verdict_for t "failed" none none))
      | some owner ↦ guarded t e (some owner) db
    ]
  ]

  -- The loop over the matched triggers, with the verdicts in order; an exception ends it.
  unfoldable pub judge_all : List Trigger → TriggerEvent → Db → Db × Option (List Verdict)
  judge_all [] e db = (db, some [])
  judge_all (t ∷ ts) e db =
      let first = judge t e db in
      let rest = judge_all ts e first.0 in
      elim first.1 [
        | none ↦ (first.0, none)
        | some v ↦ (rest.0, elim rest.1 [ none ↦ none | some vs ↦ some (v ∷ vs) ])
      ]

  -- `_dispatch`: the tables, and the status that is returned.
  unfoldable pub dispatch : TriggerEvent → ℕ → Db → Db × Option String
  dispatch e log_id db =
      let matched = filter (is_matched e) db.triggers in
      let judged = judge_all matched e db in
      if is_loop e || leb (length matched) 0
      then (
        record db { logs = set_log log_id (λ l. record l { status = "ignored" }) db.logs },
        some "ignored",
      )
      else elim judged.1 [
        | none ↦ (judged.0, none)
        | some vs ↦ (
          record judged.0 {
            logs = set_log log_id (stamp vs) judged.0.logs;
            verdict_rows = persist_verdicts log_id vs judged.0.verdict_rows;
          },
          some (status_of vs),
        )
      ]

  unfoldable pub process : TriggerEvent → ℕ → Db → Db × Option String
  process e log_id db = elim (log_event e log_id now db) [
    | none ↦ (db, some "duplicate")
    | some db' ↦ dispatch e log_id db'
  ]

-- A drain and a recovery create runs for several events: `fresh` and `uuid` give each log its own ids.
module _ (w : World) (fresh : ℕ → String) (now : ℕ) where
  -- One queued event; the flag says whether it started. None is an exception.
  unfoldable pub drain_one : Log → Db → Option (Db × Bool)
  drain_one l db = elim (find_trigger (queued_trigger_name l) db.triggers) [
    | none ↦ some (db, false)
    | some t ↦
        if rate_limited t now db
        then some (db, false)
        else elim (create_run w (fresh l.id) l.resolved_user_id t.mode l.event.external_id db) [
          | none ↦ none
          | some db' ↦ some (
            record db' {
              logs =
                  set_log l.id (λ k. record k { status = "matched"; run_id = some (fresh l.id) })
                    db'.logs;
            },
            true,
          )
        ]
  ]

  unfoldable pub drain_all : List Log → Db → Option (Db × ℕ)
  drain_all [] db = some (db, 0)
  drain_all (l ∷ ls) db = elim (drain_one l db) [
    | none ↦ none
    | some (db', flag) ↦ elim (drain_all ls db') [
      | none ↦ none
      | some (db'', n) ↦ some (db'', if flag then suc n else n)
    ]
  ]

  unfoldable pub drain_queued : ℕ → Db → Option (Db × ℕ)
  drain_queued limit db = drain_all (take limit (filter (λ l. str_eq l.status "queued") db.logs)) db

module _ (w : World) (uuid : ℕ → String → String) (now : ℕ) where
  -- The conditional update that claims a stuck row, and the dispatch of its event again; an exception puts the
  -- row back.
  unfoldable pub recover_one : Log → Db → Db
  recover_one l db =
      if any (λ k. k.id == l.id && str_eq k.status "received") db.logs
      then release l.id (
          dispatch w (uuid l.id) now l.event l.id
            (record db { logs = set_log l.id (λ k. record k { status = "recovering" }) db.logs }))
      else db

  unfoldable pub recover_all : List Log → Db → Db
  recover_all [] db = db
  recover_all (l ∷ ls) db = recover_all ls (recover_one l db)

  unfoldable pub recover_stuck : ℕ → ℕ → Db → Db
  recover_stuck grace limit db =
      recover_all
        (take limit
          (filter (λ l. str_eq l.status "received" && leb l.received_at (now - grace)) db.logs))
        db
