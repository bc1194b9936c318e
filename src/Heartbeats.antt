-- ===== src/Heartbeats.antt =====
-- backend/app/services/heartbeats.py: `_persist`, `_reap_once`, `_interrupt_orphaned_run` and
-- `_maybe_complete_ask_run`. The proofs are in the children.
--
-- The tables are dicts by id. Times are natural numbers, of milliseconds; the clock and Docker's
-- answer on which containers run are arguments. The key-leak sweep and the cleanup of a
-- terminal thread call the thread manager, and publications the relay: they are left out.
pub mod Beats
pub mod Reaper
pub mod Certain
pub mod Orphans
use z_agent.Base.{
  ℕ, zero, suc, ◌+◌, ◌-◌, ◌*◌, ◌/◌, ◌%◌, ◌≤◌, ◌<◌, String, ◌≡◌, refl, sym, ap, ◌∙◌, ◌≢◌, ◌↔◌, ◌⊎◌,
  inl, inr, Bool, true, false, not, ◌&&◌, ◌||◌, Option, none, some, List, [], ◌∷◌, ◌++◌, map, arith,
  str_eq, eq_iff, ltb, leb, ◌==◌, if◌then◌else◌, Bool-cases, Option-cases, ltb→lt, leb→le, is_some,
  length, any, all, filter, count, take, drop, head?, All, length-append, count-append, count-le,
  length-drop, length-take, All-append, any-append, codes, elem, eq_self, elem-append, take_text,
  Result, ok, raise, or_else,
}
use z_agent.Base.Dict
use z_agent.Base.Dict.{Dict}
use z_agent.Contracts.{
  RunStage, queued, provisioning, investigating, planning, awaiting_user, developing, interrupted,
  completed,
}
use z_agent.Run.{Run, transition, is_awaiting_user}

pub record Thread : Type 0 where
  pub run_id : String
  pub status : String
  pub container_id : Option String
  pub heartbeat_at : Option ℕ
  pub finished_at : Option ℕ

-- What the persister remembers of a thread's last write and last status.
pub record Persister : Type 0 where
  pub last_write : Dict ℕ
  pub last_status : Dict String

pub record Db : Type 0 where
  pub threads : Dict Thread
  pub runs : Dict Run

-- `_MIN_WRITE_INTERVAL_SECONDS`, `STALE_AFTER_SECONDS`, `WEDGED_AFTER_SECONDS`, `_BUS_ALIVE_WINDOW_SECONDS`
abbrev pub min_write_interval : ℕ
min_write_interval = 10000

abbrev pub stale_after : ℕ
stale_after = 180000

abbrev pub wedged_after : ℕ
wedged_after = 300000

abbrev pub bus_alive_window : ℕ
bus_alive_window = 120000

-- `ACTIVE_STATUSES`
unfoldable pub active_statuses : List String
active_statuses = "queued" ∷ "running" ∷ "idle" ∷ "interrupted" ∷ []

unfoldable pub is_active : Thread → Bool
unfolding active_statuses
is_active t = elem t.status active_statuses

-- `(*ACTIVE_STATUSES, "input_required")`
unfoldable pub is_live : Thread → Bool
is_live t = is_active t || str_eq t.status "input_required"

-- `filter_by(run_id=run_id)`, and whether any of the rows is live.
unfoldable pub any_live : String → Dict Thread → Bool
any_live run_id [] = false
any_live run_id ((id, t) ∷ rows) = (str_eq t.run_id run_id && is_live t) || any_live run_id rows

abbrev pub to_stage : RunStage → Run → Run
to_stage stage run = or_else run (transition run stage false)

-- The test of `_maybe_complete_ask_run`.
unfoldable pub may_complete : String → Run → Dict Thread → Bool
may_complete run_id run threads =
    str_eq run.mode "ask" && (is_awaiting_user run.stage && not (any_live run_id threads))

unfoldable pub maybe_complete_ask_run : String → Db → Db
maybe_complete_ask_run run_id db = elim (Dict.get run_id db.runs) [
  | none ↦ db
  | some run ↦
      if may_complete run_id run db.threads
      then record db { runs = Dict.put run_id (to_stage completed run) db.runs }
      else db
]

-- `status is not None and self._last_status.get(thread_id) != status`
unfoldable pub status_changed : String → Option String → Persister → Bool
status_changed id none p = false
status_changed id (some s) p = elim (Dict.get id p.last_status) [
  | none ↦ true
  | some old ↦ not (str_eq old s)
]

-- The early return: not the first beat, no new status, too soon.
unfoldable pub throttled : String → Option String → ℕ → Persister → Bool
throttled id status now_mono p = elim (Dict.get id p.last_write) [
  | none ↦ false
  | some last ↦ not (status_changed id status p) && ltb (now_mono - last) min_write_interval
]

unfoldable pub remember : String → Option String → ℕ → Persister → Persister
remember id status now_mono p = record {
  last_write = Dict.put id now_mono p.last_write;
  last_status = elim status [ none ↦ p.last_status | some s ↦ Dict.put id s p.last_status ];
}

-- The row after a beat: a status is taken over only by a live row.
unfoldable pub beat : Option String → ℕ → Thread → Thread
beat none now t = record t { heartbeat_at = some now }
beat (some s) now t =
    if not (str_eq s "") && is_live t
    then record t { heartbeat_at = some now; status = s }
    else record t { heartbeat_at = some now }

abbrev pub is_text : String → Option String → Bool
is_text s none = false
is_text s (some t) = str_eq t s

unfoldable pub persist : ℕ → ℕ → String → Option String → Persister × Db → Persister × Db
persist now_mono now id status (p, db) = if throttled id status now_mono p then (p, db) else (
  remember id status now_mono p,
  elim (Dict.get id db.threads) [
    | none ↦ db
    | some t ↦
        let db' : Db = record db { threads = Dict.put id (beat status now t) db.threads } in
        if is_text "completed" status then maybe_complete_ask_run t.run_id db' else db'
  ],
)

-- An entry of the reaper's list: the id, the container, the run, and how long the thread was silent.
pub record Stale : Type 0 where
  pub id : String
  pub container_id : Option String
  pub run_id : String
  pub stale_for : ℕ

-- The stale rows; a heartbeat in the future counts as none too old.
unfoldable pub stale_rows : ℕ → Dict Thread → List Stale
stale_rows now [] = []
stale_rows now ((id, t) ∷ rows) =
    let rest = stale_rows now rows in
    elim t.heartbeat_at [
      | none ↦ rest
      | some at ↦
          if is_active t && ltb stale_after (now - at)
          then record {
            id = id;
            container_id = t.container_id;
            run_id = t.run_id;
            stale_for = now - at;
          }
            ∷ rest
          else rest
    ]

-- `time.monotonic() - last_beat < _BUS_ALIVE_WINDOW_SECONDS`
abbrev pub bus_alive : ℕ → ℕ → Bool
bus_alive now_mono last_beat = ltb (now_mono - last_beat) bus_alive_window

-- The two tests before an entry is reaped.
unfoldable pub is_reapable : (String → Bool) → Bool → Stale → Bool
is_reapable container_running alive e = elim e.container_id [
  | none ↦ false
  | some c ↦
      not (str_eq c "") && (not (container_running c) || (alive && ltb wedged_after e.stale_for))
]

unfoldable pub is_working : RunStage → Bool
is_working queued = true
is_working provisioning = true
is_working investigating = true
is_working planning = true
is_working developing = true
is_working _ = false

unfoldable pub interrupt_orphaned_run : String → Db → Db
interrupt_orphaned_run run_id db = elim (Dict.get run_id db.runs) [
  | none ↦ db
  | some run ↦
      if is_working run.stage && not (any_live run_id db.threads)
      then record db { runs = Dict.put run_id (to_stage interrupted run) db.runs }
      else db
]

abbrev pub fail_thread : ℕ → Thread → Thread
fail_thread now t = record t { status = "failed"; finished_at = some now }

-- One turn of the loop of `_reap_once`, on the tables as they are by then.
unfoldable pub reap : (String → Bool) → Bool → ℕ → Stale → Db → Db
reap container_running alive now e db =
    if is_reapable container_running alive e
    then elim (Dict.get e.id db.threads) [
      | none ↦ db
      | some t ↦
          if is_active t
          then interrupt_orphaned_run e.run_id
              (record db { threads = Dict.put e.id (fail_thread now t) db.threads })
          else db
    ]
    else db

abbrev pub reap_all : (String → Bool) → Bool → ℕ → List Stale → Db → Db
reap_all container_running alive now [] db = db
reap_all container_running alive now (e ∷ es) db =
    reap_all container_running alive now es (reap container_running alive now e db)

unfoldable pub reap_once : (String → Bool) → ℕ → ℕ → ℕ → Db → Db
reap_once container_running now_mono last_beat now db =
    reap_all container_running (bus_alive now_mono last_beat) now (stale_rows now db.threads) db
