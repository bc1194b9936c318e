-- ===== src/Ingest.antt =====
-- backend/app/events/bus.py: `_process`, the only path from a worker's frames into the events table.
-- The proofs are in the children.
--
-- The tables of runs and threads are dicts by id; the events table is a list, newest row first. The
-- validation of a payload is pydantic's: its result is the argument. `raced` are the rows that other
-- writers commit between the look-up of the uid and the insert.
pub mod Table
pub mod Delivery
use z_agent.Base.{
  ℕ, zero, suc, ◌+◌, ◌-◌, ◌*◌, ◌/◌, ◌%◌, ◌≤◌, ◌<◌, String, ◌≡◌, refl, sym, ap, ◌∙◌, ◌≢◌, ◌↔◌, ◌⊎◌,
  inl, inr, Bool, true, false, not, ◌&&◌, ◌||◌, Option, none, some, List, [], ◌∷◌, ◌++◌, map, arith,
  str_eq, eq_iff, ltb, leb, ◌==◌, if◌then◌else◌, Bool-cases, Option-cases, ltb→lt, leb→le, is_some,
  length, any, all, filter, count, take, drop, head?, All, length-append, count-append, count-le,
  length-drop, length-take, All-append, any-append, codes, elem, eq_self, elem-append, take_text,
  Result, ok, raise, or_else,
}
use z_agent.Base.Dict
use z_agent.Base.Dict.{Dict}
use z_agent.Contracts.{StepEvent, StepKind, status}

pub record EventRow : Type 0 where
  pub run_id : String
  pub thread_id : String
  pub seq : ℕ
  pub kind : StepKind
  pub title : String
  pub body : String
  pub event_uid : Option String

pub record Thread : Type 0 where
  pub next_seq : ℕ
  pub session_id : Option String

-- A run is kept as its `last_active_at`.
pub record Db : Type 0 where
  pub events : List EventRow
  pub threads : Dict Thread
  pub runs : Dict ℕ

-- What becomes of a message: all but `failed_validation` end in a plain ack.
pub data Outcome : Type 0 where
  failed_validation : Outcome
  dropped : Outcome
  relayed : StepEvent → Outcome

-- `if event.event_uid:`
abbrev pub uid_of : StepEvent → Option String
uid_of e = elim e.event_uid [ none ↦ none | some u ↦ if str_eq u "" then none else some u ]

abbrev pub same_text : Option String → Option String → Bool
same_text (some u) (some v) = str_eq u v
same_text _ _ = false

-- The index uq_events_run_event_uid, in which nulls never meet.
unfoldable pub same_uid : EventRow → EventRow → Bool
same_uid a b = str_eq a.run_id b.run_id && same_text a.event_uid b.event_uid

-- The constraint uq_events_run_thread_seq.
unfoldable pub same_seq : EventRow → EventRow → Bool
same_seq a b = str_eq a.run_id b.run_id && (str_eq a.thread_id b.thread_id && a.seq == b.seq)

-- Both of these, over the rows of the table.
unfoldable pub collides : EventRow → List EventRow → Bool
unfolding same_uid same_seq
collides row [] = false
collides row (r ∷ rows) = (same_uid r row || same_seq r row) || collides row rows

-- What makes `session.flush` raise IntegrityError: these, and the foreign key of `run_id`.
unfoldable pub is_refused : EventRow → List EventRow → Dict ℕ → Bool
unfolding collides
is_refused row rows runs = not (is_some (Dict.get row.run_id runs)) || collides row rows

-- `filter_by(run_id=…, event_uid=…).first()`
unfoldable pub find_uid : String → String → List EventRow → Option EventRow
find_uid run_id uid [] = none
find_uid run_id uid (r ∷ rows) =
    if str_eq r.run_id run_id && same_text r.event_uid (some uid)
    then some r
    else find_uid run_id uid rows

-- `title[:512]` counts characters.
unfoldable pub row_of : StepEvent → ℕ → EventRow
row_of e seq = record {
  run_id = e.run_id;
  thread_id = e.thread_id;
  seq = seq;
  kind = e.kind;
  title = take_text 512 e.title;
  body = e.body;
  event_uid = e.event_uid;
}

-- The seq of a stamped event is the thread's counter, that of a legacy one its own.
unfoldable pub assigned_seq : StepEvent → Option Thread → ℕ
assigned_seq e none = e.seq
assigned_seq e (some t) = elim (uid_of e) [ none ↦ e.seq | some u ↦ t.next_seq ]

abbrev pub is_status : StepKind → Bool
is_status status = true
is_status _ = false

-- The new session id, where the event announces one.
unfoldable pub captured_session : StepEvent → Option String
captured_session e = elim e.session_id [
  | none ↦ none
  | some sid ↦
      if is_status e.kind
        && (not (str_eq sid "")
            && (same_text e.detail_kind (some "engine_identity") || str_eq e.title "turn complete"))
      then some sid
      else none
]

abbrev pub or_old : Option String → Option String → Option String
or_old none old = old
or_old (some new) old = some new

-- The thread's row after an accepted event: the counter is past the seq.
unfoldable pub advance : StepEvent → ℕ → Thread → Thread
unfolding captured_session
advance e seq t = record {
  next_seq = if ltb seq t.next_seq then t.next_seq else seq + 1;
  session_id = or_old (captured_session e) t.session_id;
}

unfoldable pub advance_threads : StepEvent → ℕ → Dict Thread → Dict Thread
advance_threads e seq threads = elim (Dict.get e.thread_id threads) [
  | none ↦ threads
  | some t ↦ Dict.put e.thread_id (advance e seq t) threads
]

unfoldable pub touch_run : String → ℕ → Dict ℕ → Dict ℕ
touch_run run_id now runs = elim (Dict.get run_id runs) [
  | none ↦ runs
  | some _ ↦ Dict.put run_id now runs
]

-- The handler of IntegrityError: the rows are those of the winner.
unfoldable pub collided : StepEvent → Db → Db × Outcome
collided e db = elim (uid_of e) [
  | none ↦ (db, relayed e)
  | some u ↦ elim (find_uid e.run_id u db.events) [
    | none ↦ (db, dropped)
    | some winner ↦ (db, relayed (record e { seq = winner.seq }))
  ]
]

-- An event whose uid is not in the table.
unfoldable pub store : List EventRow → StepEvent → String → ℕ → Db → Db × Outcome
unfolding is_refused
store raced e run_id now db =
    let seq = assigned_seq e (Dict.get e.thread_id db.threads) in
    let rows = raced ++ db.events in
    if is_refused (row_of e seq) rows db.runs then collided e (record db { events = rows }) else (
      record {
        events = row_of e seq ∷ rows;
        threads = advance_threads e seq db.threads;
        runs = touch_run run_id now db.runs;
      },
      relayed (record e { seq = seq }),
    )

-- The row that a redelivery finds.
unfoldable pub find_duplicate : StepEvent → Db → Option EventRow
find_duplicate e db = elim (uid_of e) [ none ↦ none | some u ↦ find_uid e.run_id u db.events ]

unfoldable pub process : List EventRow → Option StepEvent → String → ℕ → Db → Db × Outcome
process raced none run_id now db = (db, failed_validation)
process raced (some e) run_id now db = elim (find_duplicate e db) [
  | some row ↦ (db, relayed (record e { seq = row.seq }))
  | none ↦ store raced e run_id now db
]
