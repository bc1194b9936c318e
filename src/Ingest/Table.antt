-- ===== src/Ingest/Table.antt =====
-- The events table: no event stored twice, and every counter past its thread's rows.
use z_agent.Base.{◌≢◌, ◌||◌, sym, refl, is_some}
use z_agent.Base.{
  ℕ, ◌≤◌, ◌<◌, String, ◌≡◌, ◌⊎◌, inl, inr, true, false, Option, none, some, List, [], ◌∷◌, ◌++◌,
  arith, str_eq, eq_iff, Bool-cases, Option-cases, All, eq_self,
}
use z_agent.Base.Dict
use z_agent.Base.Dict.{Dict, get-put}
use z_agent.Contracts.{StepEvent}
use z_agent.Ingest.{
  EventRow, Thread, Db, same_uid, same_seq, collides, is_refused, touch_run, row_of, assigned_seq,
  advance, advance_threads, collided, store, find_duplicate, process,
}

-- Two events: of one thread of a run they have different seqs, and of one run they share no uid.
abbrev pub AreDistinct : EventRow → EventRow → Type 0
AreDistinct a b =
    (a.run_id ≡ b.run_id → a.thread_id ≡ b.thread_id → a.seq ≢ b.seq)
    × ((u : String) → a.run_id ≡ b.run_id → a.event_uid ≡ some u → b.event_uid ≢ some u)

-- Any two of the events.
abbrev pub Unique : List EventRow → Type 0
Unique [] = Unit
Unique (r ∷ rows) = All (AreDistinct r) rows × Unique rows

-- The event's run is there.
abbrev pub IsOwned : Dict ℕ → EventRow → Type 0
IsOwned runs r = is_some (Dict.get r.run_id runs) ≡ true

-- The counter of the row's thread, where there is such a thread, is past the row.
abbrev pub IsBelow : Dict Thread → EventRow → Type 0
IsBelow threads r = (t : Thread) → Dict.get r.thread_id threads ≡ some t → r.seq < t.next_seq

pub record Inv (db : Db) : Type 0 where
  pub unique : Unique db.events
  pub below : All (IsBelow db.threads) db.events
  pub owned : All (IsOwned db.runs) db.events

row-distinct : (r row : EventRow) → (same_uid r row || same_seq r row) ≡ false → AreDistinct row r
unfolding same_uid same_seq
row-distinct r row h = (
  λ p q e.
      ground (arith, eq_iff r.run_id row.run_id, eq_iff r.thread_id row.thread_id, sym p, sym q),
  λ u p e f. ground (arith, eq_iff r.run_id row.run_id, sym p, eq_self u),
)

free-distinct :
    (row : EventRow) (rows : List EventRow) → collides row rows ≡ false → All (AreDistinct row) rows
unfolding collides
free-distinct row [] h = tt
free-distinct row (r ∷ rows) h =
    (row-distinct r row (ground arith), free-distinct row rows (ground arith))

IsOwned-touch :
    (run_id : String) (now : ℕ) (runs : Dict ℕ) (r : EventRow)
    → IsOwned runs r
    → IsOwned (touch_run run_id now runs) r
unfolding touch_run
IsOwned-touch run_id now runs r h = elim (Option-cases (Dict.get run_id runs)) [
  | inr missing ↦ rw (missing, touch_run) h
  | inl (at, found) ↦
      rw (found, touch_run)
        (rw (get-put run_id r.run_id now runs) (elim (Bool-cases (str_eq run_id r.run_id)) [
          | inl here ↦ rw here refl
          | inr other ↦ rw other h
        ]))
]

All-IsOwned :
    (run_id : String) (now : ℕ) (runs : Dict ℕ) (rows : List EventRow)
    → All (IsOwned runs) rows
    → All (IsOwned (touch_run run_id now runs)) rows
All-IsOwned run_id now runs [] a = tt
All-IsOwned run_id now runs (r ∷ rows) a =
    (IsOwned-touch run_id now runs r a.0, All-IsOwned run_id now runs rows a.1)

next_seq-advance :
    (e : StepEvent) (seq : ℕ) (t : Thread)
    → (t.next_seq ≤ (advance e seq t).next_seq) × (seq < (advance e seq t).next_seq)
unfolding advance
next_seq-advance e seq t = ground arith

-- A thread's counter after an event was never lower before it.
get-advance_threads :
    (e : StepEvent) (seq : ℕ) (threads : Dict Thread) (id : String) (t : Thread)
    → Dict.get id (advance_threads e seq threads) ≡ some t
    → ((Dict.get id threads ≡ some t) × (str_eq e.thread_id id ≡ false))
      ⊎ ((old : Thread) × (Dict.get id threads ≡ some old)
          × (t ≡ advance e seq old)
          × (str_eq e.thread_id id ≡ true))
unfolding advance_threads
get-advance_threads e seq threads id t h = elim (Option-cases (Dict.get e.thread_id threads)) [
  | inl (old, p) ↦ elim (Bool-cases (str_eq e.thread_id id)) [
    | inl same ↦
        let q : e.thread_id ≡ id = (eq_iff e.thread_id id).0 same in
        inr (
          old,
          rw (← q) p,
          ground (arith, get-put e.thread_id id (advance e seq old) threads),
          same,
        )
    | inr other ↦ inl (ground (arith, get-put e.thread_id id (advance e seq old) threads), other)
  ]
  | inr p ↦ elim (Bool-cases (str_eq e.thread_id id)) [
    | inl same ↦
        let q : e.thread_id ≡ id = (eq_iff e.thread_id id).0 same in
        let p' : Dict.get id threads ≡ none = rw (← q) p in absurd (ground arith)
    | inr other ↦ inl (ground arith, other)
  ]
]

IsBelow-advance_threads :
    (e : StepEvent) (seq : ℕ) (threads : Dict Thread) (r : EventRow)
    → IsBelow threads r
    → IsBelow (advance_threads e seq threads) r
IsBelow-advance_threads e seq threads r h t p =
    elim (get-advance_threads e seq threads r.thread_id t p) [
      | inl (q, _) ↦ h t q
      | inr (old, q, same, _) ↦ rw same (omega (arith, h old q, (next_seq-advance e seq old).0))
    ]

All-IsBelow-advance :
    (e : StepEvent) (seq : ℕ) (threads : Dict Thread) (rows : List EventRow)
    → All (IsBelow threads) rows
    → All (IsBelow (advance_threads e seq threads)) rows
All-IsBelow-advance e seq threads [] h = tt
All-IsBelow-advance e seq threads (r ∷ rows) h =
    (IsBelow-advance_threads e seq threads r h.0, All-IsBelow-advance e seq threads rows h.1)

-- The new row is below its thread's new counter.
row-IsBelow :
    (e : StepEvent) (seq : ℕ) (threads : Dict Thread)
    → IsBelow (advance_threads e seq threads) (row_of e seq)
unfolding row_of
row-IsBelow e seq threads t p = elim (get-advance_threads e seq threads e.thread_id t p) [
  | inl (_, other) ↦ absurd (ground (arith, eq_self e.thread_id))
  | inr (old, _, same, _) ↦ rw same ((next_seq-advance e seq old).1)
]

collided-db : (e : StepEvent) (db : Db) → (collided e db).0 ≡ db
unfolding collided
collided-db e db = ground arith

stored-Inv :
    (raced : List EventRow) (e : StepEvent) (seq : ℕ) (run_id : String) (now : ℕ) (db : Db)
    → is_refused (row_of e seq) (raced ++ db.events) db.runs ≡ false
    → Inv (record db { events = raced ++ db.events })
    → Inv (record {
      events = row_of e seq ∷ (raced ++ db.events);
      threads = advance_threads e seq db.threads;
      runs = touch_run run_id now db.runs;
    })
unfolding is_refused
stored-Inv raced e seq run_id now db free v = record {
  unique = (free-distinct (row_of e seq) (raced ++ db.events) (ground arith), v.unique);
  below = (
    row-IsBelow e seq db.threads,
    All-IsBelow-advance e seq db.threads (raced ++ db.events) v.below,
  );
  owned = (
    IsOwned-touch run_id now db.runs (row_of e seq) (ground arith),
    All-IsOwned run_id now db.runs (raced ++ db.events) v.owned,
  );
}

store-Inv :
    (raced : List EventRow) (e : StepEvent) (run_id : String) (now : ℕ) (db : Db)
    → Inv (record db { events = raced ++ db.events })
    → Inv (store raced e run_id now db).0
unfolding store
store-Inv raced e run_id now db v =
    let seq = assigned_seq e (Dict.get e.thread_id db.threads) in
    elim (Bool-cases (is_refused (row_of e seq) (raced ++ db.events) db.runs)) [
      | inl hit ↦ rw hit (rw collided-db v)
      | inr free ↦ rw free (stored-Inv raced e seq run_id now db free v)
    ]

Unique-suffix : (xs ys : List EventRow) → Unique (xs ++ ys) → Unique ys
Unique-suffix [] ys u = u
Unique-suffix (x ∷ xs) ys u = Unique-suffix xs ys u.1

All-suffix {ℓ κ} : {A : Type ℓ} (P : A → Type κ) (xs ys : List A) → All P (xs ++ ys) → All P ys
All-suffix P [] ys a = a
All-suffix P (x ∷ xs) ys a = All-suffix P xs ys a.1

-- The table without the rivals' rows.
raced-Inv :
    (raced : List EventRow) (db : Db) → Inv (record db { events = raced ++ db.events }) → Inv db
raced-Inv raced db v = record {
  unique = Unique-suffix raced db.events v.unique;
  below = All-suffix (IsBelow db.threads) raced db.events v.below;
  owned = All-suffix (IsOwned db.runs) raced db.events v.owned;
}

-- A message keeps these of the table, if they hold of it with the rows that other writers have added meanwhile: no two
-- events of a thread of a run have the same seq, no two of a run the same uid, every event's run is there,
-- and every thread's counter is past its rows.
pub process-Inv :
    (raced : List EventRow) (payload : Option StepEvent) (run_id : String) (now : ℕ) (db : Db)
    → Inv (record db { events = raced ++ db.events })
    → Inv (process raced payload run_id now db).0
unfolding process
process-Inv raced none run_id now db v = raced-Inv raced db v
process-Inv raced (some e) run_id now db v = elim (Option-cases (find_duplicate e db)) [
  | inl (row, found) ↦ rw (found, process) (raced-Inv raced db v)
  | inr fresh ↦ rw (fresh, process) (store-Inv raced e run_id now db v)
]
