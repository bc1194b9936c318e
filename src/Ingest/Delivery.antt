-- ===== src/Ingest/Delivery.antt =====
-- What the subscribers see: every stamped event once, in the order of its thread.
use z_agent.Base.{
  ℕ, ◌<◌, String, ◌≡◌, refl, inl, inr, false, none, some, List, [], ◌∷◌, ◌++◌, arith, str_eq,
  eq_iff, Bool-cases, All, eq_self, true, is_some,
}
use z_agent.Base.Dict
use z_agent.Base.Dict.{Dict, get-put}
use z_agent.Contracts.{StepEvent}
use z_agent.Ingest.{
  EventRow, Thread, Db, Outcome, relayed, uid_of, same_uid, same_seq, collides, is_refused,
  find_uid, row_of, assigned_seq, advance_threads, touch_run, store, find_duplicate, process,
}
use z_agent.Ingest.Table.{IsBelow, Inv}

event_uid-some : (e : StepEvent) (u : String) → uid_of e ≡ some u → e.event_uid ≡ some u
event_uid-some e u h = ground arith

-- The row that an insert of a stamped event adds is the one that its uid finds.
find_uid-row_of :
    (e : StepEvent) (u : String) (seq : ℕ) (rows : List EventRow)
    → uid_of e ≡ some u
    → find_uid e.run_id u (row_of e seq ∷ rows) ≡ some (row_of e seq)
unfolding find_uid row_of
find_uid-row_of e u seq rows h = ground (arith, event_uid-some e u h, eq_self e.run_id, eq_self u)

-- No row of the table has the uid.
no_uid :
    (e : StepEvent) (u : String) (seq : ℕ) (rows : List EventRow)
    → uid_of e ≡ some u
    → find_uid e.run_id u rows ≡ none
    → All (λ r. same_uid r (row_of e seq) ≡ false) rows
unfolding find_uid row_of same_uid
no_uid e u seq [] h f = tt
no_uid e u seq (r ∷ rows) h f =
    (ground (arith, event_uid-some e u h), no_uid e u seq rows h (ground arith))

no_seq :
    (e : StepEvent) (threads : Dict Thread) (t : Thread) (rows : List EventRow)
    → Dict.get e.thread_id threads ≡ some t
    → All (IsBelow threads) rows
    → All (λ r. same_seq r (row_of e t.next_seq) ≡ false) rows
unfolding row_of same_seq
no_seq e threads t [] g b = tt
no_seq e threads t (r ∷ rows) g b = elim (Bool-cases (str_eq r.thread_id e.thread_id)) [
  | inl same ↦
      let p : r.thread_id ≡ e.thread_id = (eq_iff r.thread_id e.thread_id).0 same in
      let lt : r.seq < t.next_seq = b.0 t (rw p g) in (ground arith, no_seq e threads t rows g b.1)
  | inr other ↦ (ground arith, no_seq e threads t rows g b.1)
]

collides_of :
    (row : EventRow) (rows : List EventRow)
    → All (λ r. same_uid r row ≡ false) rows
    → All (λ r. same_seq r row ≡ false) rows
    → collides row rows ≡ false
unfolding collides
collides_of row [] a b = refl
collides_of row (r ∷ rows) a b = rw (a.0, b.0) (collides_of row rows a.1 b.1)

find_uid-suffix :
    (run_id uid : String) (xs ys : List EventRow)
    → find_uid run_id uid (xs ++ ys) ≡ none
    → find_uid run_id uid ys ≡ none
unfolding find_uid
find_uid-suffix run_id uid [] ys h = h
find_uid-suffix run_id uid (x ∷ xs) ys h = find_uid-suffix run_id uid xs ys (ground arith)

relay_seq :
    (e : StepEvent) (seq : ℕ) (db : Db)
    → ◌≡◌ {A = Db × Outcome}
        (db, relayed (record e { seq = (row_of e seq).seq }))
        (db, relayed (record e { seq = seq }))
unfolding row_of
relay_seq e seq db = refl

-- The tables with the event stored under its thread's counter.
abbrev pub stored_db : List EventRow → StepEvent → String → ℕ → Thread → Db → Db
stored_db raced e run_id now t db = record {
  events = row_of e t.next_seq ∷ (raced ++ db.events);
  threads = advance_threads e t.next_seq db.threads;
  runs = touch_run run_id now db.runs;
}

-- A stamped event of a known run and thread that is new to the table is stored with the thread's counter as
-- its seq, and relayed with it.
module _ (raced : List EventRow) (e : StepEvent) (run_id : String) (now : ℕ) (db : Db) {u : String}
    {t : Thread} (v : Inv (record db { events = raced ++ db.events })) (stamped : uid_of e ≡ some u)
    (known : Dict.get e.thread_id db.threads ≡ some t)
    (there : is_some (Dict.get e.run_id db.runs) ≡ true)
    (new : find_uid e.run_id u (raced ++ db.events) ≡ none) where
  stored_seq : assigned_seq e (Dict.get e.thread_id db.threads) ≡ t.next_seq
  unfolding assigned_seq
  stored_seq = rw known (rw (stamped, assigned_seq) refl)

  free : collides (row_of e t.next_seq) (raced ++ db.events) ≡ false
  free =
      collides_of (row_of e t.next_seq) (raced ++ db.events)
        (no_uid e u t.next_seq (raced ++ db.events) stamped new)
        (no_seq e db.threads t (raced ++ db.events) known v.below)

  accepted : is_refused (row_of e t.next_seq) (raced ++ db.events) db.runs ≡ false
  unfolding is_refused row_of
  accepted = rw (there, free) refl

  store_new :
      store raced e run_id now db
      ≡ (stored_db raced e run_id now t db, relayed (record e { seq = t.next_seq }))
  unfolding store
  store_new = rw stored_seq (rw accepted refl)

  find_new : find_uid e.run_id u db.events ≡ none
  find_new = find_uid-suffix e.run_id u raced db.events new

  process_new :
      process raced (some e) run_id now db
      ≡ (stored_db raced e run_id now t db, relayed (record e { seq = t.next_seq }))
  unfolding process find_duplicate
  process_new = rw (stamped, find_duplicate, process) (rw (find_new, process) store_new)

  -- The event again, on the table that its first delivery left.
  process_again :
      (rival : List EventRow) (run_id' : String) (now' : ℕ)
      → process rival (some e) run_id' now' (stored_db raced e run_id now t db)
        ≡ (stored_db raced e run_id now t db, relayed (record e { seq = t.next_seq }))
  unfolding process find_duplicate
  process_again rival run_id' now' =
      rw (stamped, find_duplicate, process)
        (rw (find_uid-row_of e u t.next_seq (raced ++ db.events) stamped, process)
          (relay_seq e t.next_seq (stored_db raced e run_id now t db)))

  -- A stamped event of a known run and thread whose uid no row has, where no uid or seq of a run is repeated
  -- and the counters are past the rows, is delivered once: it is stored, with its thread's counter as its
  -- seq, and relayed with that seq; and a redelivery, at any time and with any rows committed by
  -- rivals meanwhile, leaves the tables as they are and relays the event with the same seq.
  pub delivered_once :
      (rival : List EventRow) (run_id' : String) (now' : ℕ)
      → (process raced (some e) run_id now db
          ≡ (stored_db raced e run_id now t db, relayed (record e { seq = t.next_seq })))
        × (process rival (some e) run_id' now' (process raced (some e) run_id now db).0
            ≡ (stored_db raced e run_id now t db, relayed (record e { seq = t.next_seq })))
  delivered_once rival run_id' now' =
      (process_new, rw process_new (process_again rival run_id' now'))
