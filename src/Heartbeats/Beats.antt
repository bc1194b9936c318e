-- ===== src/Heartbeats/Beats.antt =====
-- Beats and the rows: no status of a live thread is lost, and no terminal row comes back.
use mathlib.Core.Path.{subst}
use z_agent.Base.{
  ℕ, String, ◌≡◌, refl, sym, ap, ◌∙◌, inl, inr, true, false, ◌&&◌, Option, none, some, List, [],
  ◌∷◌, arith, str_eq, eq_iff, if◌then◌else◌, Bool-cases, Option-cases, is_some, eq_self,
}
use z_agent.Base.Dict
use z_agent.Base.Dict.{Dict, get-put}
use z_agent.Heartbeats.{
  Thread, Persister, Db, is_active, is_live, maybe_complete_ask_run, status_changed, throttled,
  remember, beat, persist,
}

-- A beat as it comes from the bus: the two clocks, the thread, the status.
pub record Beat : Type 0 where
  pub now_mono : ℕ
  pub now : ℕ
  pub thread_id : String
  pub status : Option String

abbrev pub persist_all : List Beat → Persister × Db → Persister × Db
persist_all [] s = s
persist_all (b ∷ bs) s = persist_all bs (persist b.now_mono b.now b.thread_id b.status s)

abbrev pub started : Persister
started = record { last_write = []; last_status = [] }

maybe_complete-threads :
    (run_id : String) (db : Db) → (maybe_complete_ask_run run_id db).threads ≡ db.threads
unfolding maybe_complete_ask_run
maybe_complete-threads run_id db = ground arith

module _ (now_mono now : ℕ) (id : String) (status : Option String) (p : Persister) (db : Db) where
  abbrev after : Persister × Db
  after = persist now_mono now id status (p, db)

  persist-throttled : throttled id status now_mono p ≡ true → after ≡ (p, db)
  unfolding persist
  persist-throttled h = rw h refl

  persist-memory : throttled id status now_mono p ≡ false → after.0 ≡ remember id status now_mono p
  unfolding persist
  persist-memory h = rw h refl

  persist-missing :
      throttled id status now_mono p ≡ false
      → Dict.get id db.threads ≡ none
      → after.1.threads ≡ db.threads
  unfolding persist
  persist-missing h g = rw h (rw g refl)

  persist-threads :
      (t : Thread)
      → throttled id status now_mono p ≡ false
      → Dict.get id db.threads ≡ some t
      → after.1.threads ≡ Dict.put id (beat status now t) db.threads
  unfolding persist
  persist-threads t h g =
      let db' : Db = record db { threads = Dict.put id (beat status now t) db.threads } in
      rw h (rw g (ground (arith, maybe_complete-threads t.run_id db')))

-- What the persister remembers of a live thread is the status of its row.
abbrev pub Mirrors : Persister × Db → Type 0
Mirrors (p, db) =
    (k s : String) (t : Thread)
    → Dict.get k p.last_status ≡ some s
    → Dict.get k db.threads ≡ some t
    → is_live t ≡ true
    → str_eq s "" ≡ false
    → t.status ≡ s

beat-live :
    (s : String) (now : ℕ) (t : Thread)
    → is_live t ≡ true
    → str_eq s "" ≡ false
    → (beat (some s) now t).status ≡ s
unfolding beat
beat-live s now t live ne = ground arith

live-beat :
    (s : String) (now : ℕ) (t : Thread) → is_live t ≡ false → is_live (beat (some s) now t) ≡ false
unfolding beat is_live is_active
live-beat s now t dead = rw dead (ground arith)

beat-status :
    (s : String) (now : ℕ) (t : Thread)
    → is_live (beat (some s) now t) ≡ true
    → str_eq s "" ≡ false
    → (beat (some s) now t).status ≡ s
beat-status s now t live ne = elim (Bool-cases (is_live t)) [
  | inl yes_live ↦ beat-live s now t yes_live ne
  | inr dead ↦ absurd (ground (arith, live-beat s now t dead))
]

beat-none : (now : ℕ) (t : Thread) → (beat none now t).status ≡ t.status
unfolding beat
beat-none now t = refl

last_status-remember :
    (id k : String) (status : Option String) (now_mono : ℕ) (p : Persister)
    → Dict.get k (remember id status now_mono p).last_status
      ≡ (if is_some status && str_eq id k then status else Dict.get k p.last_status)
unfolding remember
last_status-remember id k none now_mono p = refl
last_status-remember id k (some s) now_mono p = get-put id k s p.last_status

live-beat-none : (now : ℕ) (t : Thread) → is_live (beat none now t) ≡ is_live t
unfolding beat is_live is_active
live-beat-none now t = refl

-- The beat's own thread, after a beat that is not throttled.
Mirrors-own :
    (status : Option String) (now : ℕ) (old : Option String) (t : Thread) (said : String)
    → ((u : String) → old ≡ some u → is_live t ≡ true → str_eq u "" ≡ false → t.status ≡ u)
    → (if is_some status then status else old) ≡ some said
    → is_live (beat status now t) ≡ true
    → str_eq said "" ≡ false
    → (beat status now t).status ≡ said
Mirrors-own none now old t said before h live ne =
    beat-none now t ∙ before said h (sym (live-beat-none now t) ∙ live) ne
Mirrors-own (some u) now old t said before h live ne =
    beat-status u now t live (ground arith) ∙ ground arith

persist-Mirrors :
    (now_mono now : ℕ) (id : String) (status : Option String) (p : Persister) (db : Db)
    → Mirrors (p, db)
    → Mirrors (persist now_mono now id status (p, db))
persist-Mirrors now_mono now id status p db v = elim (Bool-cases (throttled id status now_mono p)) [
  | inl skip ↦ subst Mirrors (sym (persist-throttled now_mono now id status p db skip)) v
  | inr go ↦ λ k s t said row live ne.
      let memory : (if is_some status && str_eq id k then status else Dict.get k p.last_status)
          ≡ some s =
        sym (last_status-remember id k status now_mono p)
        ∙ (sym (ap (λ q. Dict.get k q.last_status) (persist-memory now_mono now id status p db go))
            ∙ said) in
      elim (Option-cases (Dict.get id db.threads)) [
        | inl (t0, found) ↦
            let here : (if str_eq id k then some (beat status now t0) else Dict.get k db.threads)
                ≡ some t =
              sym (get-put id k (beat status now t0) db.threads)
              ∙ (sym (ap (Dict.get k) (persist-threads now_mono now id status p db t0 go found))
                  ∙ row) in
            elim (Bool-cases (str_eq id k)) [
              | inl same ↦
                  let row' : beat status now t0 ≡ t = ground arith in
                  let found' : Dict.get k db.threads ≡ some t0 =
                    rw (← (eq_iff id k).0 same) found in
                  let memory' : (if is_some status then status else Dict.get k p.last_status)
                      ≡ some s =
                    ground arith in
                  subst (λ u. u.status ≡ s) row'
                    (Mirrors-own status now (Dict.get k p.last_status) t0 s
                      (λ u h l n. v k u t0 h found' l n) memory'
                      (subst (λ u. is_live u ≡ true) (sym row') live) ne)
              | inr other ↦ v k s t (ground arith) (ground arith) live ne
            ]
        | inr missing ↦
            let here : Dict.get k db.threads ≡ some t =
              sym (ap (Dict.get k) (persist-missing now_mono now id status p db go missing))
              ∙ row in
            elim (Bool-cases (str_eq id k)) [
              | inl same ↦ absurd (ground (arith, (eq_iff id k).0 same))
              | inr other ↦ v k s t (ground arith) here live ne
            ]
      ]
]

started-Mirrors : (db : Db) → Mirrors (started, db)
unfolding Dict.get
started-Mirrors db k s t said row live ne = absurd (ground arith)

persist_all-Mirrors :
    (bs : List Beat) (st : Persister × Db) → Mirrors st → Mirrors (persist_all bs st)
persist_all-Mirrors [] st v = v
persist_all-Mirrors (b ∷ bs) (p, db) v =
    persist_all-Mirrors bs (persist b.now_mono b.now b.thread_id b.status (p, db))
      (persist-Mirrors b.now_mono b.now b.thread_id b.status p db v)

throttled-same :
    (id s : String) (now_mono : ℕ) (p : Persister)
    → throttled id (some s) now_mono p ≡ true
    → Dict.get id p.last_status ≡ some s
unfolding throttled status_changed
throttled-same id s now_mono p h = elim (Option-cases (Dict.get id p.last_status)) [
  | inl (old, q) ↦ q ∙ ap some (ground (arith, eq_iff old s))
  | inr q ↦ absurd (ground arith)
]

-- After a beat with a status, throttled or not, a live thread's row has that status: whatever beats came
-- since the persister started.
status_lands :
    (bs : List Beat) (db : Db) (now_mono now : ℕ) (id s : String) (t : Thread)
    → let st = persist_all bs (started, db) in
      Dict.get id st.1.threads ≡ some t
      → is_live t ≡ true
      → str_eq s "" ≡ false
      → (t' : Thread) × (Dict.get id (persist now_mono now id (some s) st).1.threads ≡ some t')
        × (t'.status ≡ s)
status_lands bs db now_mono now id s t found live ne =
    let st = persist_all bs (started, db) in
    let v : Mirrors st = persist_all-Mirrors bs (started, db) (started-Mirrors db) in
    elim (Bool-cases (throttled id (some s) now_mono st.0)) [
      | inl skip ↦ (
        t,
        ap (λ o. Dict.get id o.1.threads)
              (persist-throttled now_mono now id (some s) st.0 st.1 skip)
            ∙ found,
        v id s t (throttled-same id s now_mono st.0 skip) found live ne,
      )
      | inr go ↦ (
        beat (some s) now t,
        ap (Dict.get id) (persist-threads now_mono now id (some s) st.0 st.1 t go found)
            ∙ (get-put id id (beat (some s) now t) st.1.threads ∙ rw (eq_self id) refl),
        beat-live s now t live ne,
      )
    ]

beat-dead :
    (status : Option String) (now : ℕ) (t : Thread)
    → is_live t ≡ false
    → beat status now t ≡ record t { heartbeat_at = some now }
unfolding beat
beat-dead none now t dead = refl
beat-dead (some s) now t dead = rw dead (ground arith)

live-heartbeat : (t : Thread) (at : Option ℕ) → is_live (record t { heartbeat_at = at }) ≡ is_live t
unfolding is_live is_active
live-heartbeat t at = refl

same_fields :
    (now : ℕ) {t u : Thread}
    → t ≡ u
    → ◌≡◌ {A = Thread} (record t { heartbeat_at = some now }) (record u { heartbeat_at = some now })
same_fields now e = ground arith

persist-dead :
    (now_mono now : ℕ) (id k : String) (status : Option String) (p : Persister) (db : Db)
    (t : Thread) (at : Option ℕ)
    → Dict.get k db.threads ≡ some (record t { heartbeat_at = at })
    → is_live t ≡ false
    → (at' : Option ℕ) × (Dict.get k (persist now_mono now id status (p, db)).1.threads
        ≡ some (record t { heartbeat_at = at' }))
persist-dead now_mono now id k status p db t at found dead =
    elim (Bool-cases (throttled id status now_mono p)) [
      | inl skip ↦ (
        at,
        ap (λ o. Dict.get k o.1.threads) (persist-throttled now_mono now id status p db skip)
            ∙ found,
      )
      | inr go ↦ elim (Option-cases (Dict.get id db.threads)) [
        | inr missing ↦
            (at, ap (Dict.get k) (persist-missing now_mono now id status p db go missing) ∙ found)
        | inl (t0, found0) ↦
            let rows : Dict.get k (persist now_mono now id status (p, db)).1.threads
                ≡ (if str_eq id k then some (beat status now t0) else Dict.get k db.threads) =
              ap (Dict.get k) (persist-threads now_mono now id status p db t0 go found0)
              ∙ get-put id k (beat status now t0) db.threads in
            elim (Bool-cases (str_eq id k)) [
              | inr other ↦ (at, rows ∙ (rw other found))
              | inl same ↦
                  let found' : Dict.get k db.threads ≡ some t0 =
                    rw (← (eq_iff id k).0 same) found0 in
                  let row : t0 ≡ record t { heartbeat_at = at } = ground arith in
                  let dead0 : is_live t0 ≡ false = ap is_live row ∙ (live-heartbeat t at ∙ dead) in
                  (
                    some now,
                    rows
                        ∙ (rw same (ap some (beat-dead status now t0 dead0 ∙ same_fields now row))),
                  )
            ]
      ]
    ]

persist_all-dead :
    (bs : List Beat) (p : Persister) (db : Db) (id : String) (t : Thread) (at : Option ℕ)
    → Dict.get id db.threads ≡ some (record t { heartbeat_at = at })
    → is_live t ≡ false
    → (at' : Option ℕ) × (Dict.get id (persist_all bs (p, db)).1.threads
        ≡ some (record t { heartbeat_at = at' }))
persist_all-dead [] p db id t at found dead = (at, found)
persist_all-dead (b ∷ bs) p db id t at found dead =
    let st = persist b.now_mono b.now b.thread_id b.status (p, db) in
    let (at', found') =
      persist-dead b.now_mono b.now b.thread_id id b.status p db t at found dead in
    persist_all-dead bs st.0 st.1 id t at' found' dead

-- A row that is not live, such as that of a stopped or failed thread, keeps every field but its heartbeat
-- under any sequence of beats.
dead_stays :
    (bs : List Beat) (p : Persister) (db : Db) (id : String) (t : Thread)
    → Dict.get id db.threads ≡ some t
    → is_live t ≡ false
    → (at : Option ℕ) × (Dict.get id (persist_all bs (p, db)).1.threads
        ≡ some (record t { heartbeat_at = at }))
dead_stays bs p db id t found dead = persist_all-dead bs p db id t t.heartbeat_at found dead
