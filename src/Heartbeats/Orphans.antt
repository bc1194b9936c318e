-- ===== src/Heartbeats/Orphans.antt =====
-- The runs that a pass of the reaper interrupts: only those with no live thread left.
use mathlib.Core.Path.{subst}
use z_agent.Base.{
  ℕ, String, ◌≡◌, refl, sym, ap, ◌∙◌, ◌⊎◌, inl, inr, Bool, true, false, none, some, List, [], ◌∷◌,
  arith, str_eq, eq_iff, if◌then◌else◌, Bool-cases, Option-cases,
}
use z_agent.Base.Dict
use z_agent.Base.Dict.{Dict, get-put}
use z_agent.Contracts.{interrupted}
use z_agent.Run.{Run, transition}
use z_agent.Heartbeats.{
  Thread, Db, is_active, active_statuses, is_live, any_live, to_stage, Stale, stale_rows, bus_alive,
  is_reapable, is_working, interrupt_orphaned_run, fail_thread, reap, reap_all, reap_once,
}
use z_agent.Heartbeats.Reaper.{interrupt-threads}

fail-dead : (now : ℕ) (t : Thread) → is_live (fail_thread now t) ≡ false
unfolding is_live is_active active_statuses
fail-dead now t = refl

-- A run with no live thread has none after one fails.
any_live-fail :
    (now : ℕ) (r id : String) (t : Thread) (threads : Dict Thread)
    → any_live r threads ≡ false
    → Dict.get id threads ≡ some t
    → any_live r (Dict.put id (fail_thread now t) threads) ≡ false
unfolding any_live Dict.get Dict.put
any_live-fail now r id t [] h g = absurd (ground arith)
any_live-fail now r id t ((j, u) ∷ rows) h g = elim (Bool-cases (str_eq j id)) [
  | inl same ↦ ground (arith, fail-dead now t)
  | inr other ↦ ground (arith, any_live-fail now r id t rows)
]

-- The run is as it was, or it was at a working stage and is interrupted, and no thread of it is live.
abbrev pub IsOrphaned : String → Db → Db → Type 0
IsOrphaned r before after =
    (any_live r after.threads ≡ false)
    × (run : Run) × (Dict.get r before.runs ≡ some run)
    × (is_working run.stage ≡ true)
    × (Dict.get r after.runs ≡ some (to_stage interrupted run))

interrupts :
    (id : String) (db : Db) (run : Run)
    → Dict.get id db.runs ≡ some run
    → is_working run.stage ≡ true
    → any_live id db.threads ≡ false
    → interrupt_orphaned_run id db
      ≡ record db { runs = Dict.put id (to_stage interrupted run) db.runs }
unfolding interrupt_orphaned_run
interrupts id db run found working none_live =
    rw (found, interrupt_orphaned_run)
      (rw (working, interrupt_orphaned_run) (rw (none_live, interrupt_orphaned_run) refl))

interrupts_not :
    (id : String) (db : Db) (run : Run)
    → Dict.get id db.runs ≡ some run
    → (is_working run.stage ≡ false) ⊎ (any_live id db.threads ≡ true)
    → interrupt_orphaned_run id db ≡ db
unfolding interrupt_orphaned_run
interrupts_not id db run found (inl idle) =
    rw (found, interrupt_orphaned_run) (rw (idle, interrupt_orphaned_run) refl)
interrupts_not id db run found (inr alive) = rw (found, interrupt_orphaned_run) (ground arith)

interrupts_missing :
    (id : String) (db : Db) → Dict.get id db.runs ≡ none → interrupt_orphaned_run id db ≡ db
unfolding interrupt_orphaned_run
interrupts_missing id db missing = rw (missing, interrupt_orphaned_run) refl

interrupt-runs :
    (id r : String) (db : Db)
    → (Dict.get r (interrupt_orphaned_run id db).runs ≡ Dict.get r db.runs)
      ⊎ IsOrphaned r db (interrupt_orphaned_run id db)
interrupt-runs id r db = elim (Option-cases (Dict.get id db.runs)) [
  | inr missing ↦ inl (ap (λ d. Dict.get r d.runs) (interrupts_missing id db missing))
  | inl (run, found) ↦ elim (Bool-cases (is_working run.stage)) [
    | inr idle ↦ inl (ap (λ d. Dict.get r d.runs) (interrupts_not id db run found (inl idle)))
    | inl working ↦ elim (Bool-cases (any_live id db.threads)) [
      | inl alive ↦ inl (ap (λ d. Dict.get r d.runs) (interrupts_not id db run found (inr alive)))
      | inr none_live ↦
          let runs : Dict.get r (interrupt_orphaned_run id db).runs
              ≡ (if str_eq id r then some (to_stage interrupted run) else Dict.get r db.runs) =
            ap (λ d. Dict.get r d.runs) (interrupts id db run found working none_live)
            ∙ get-put id r (to_stage interrupted run) db.runs in
          elim (Bool-cases (str_eq id r)) [
            | inr other ↦ inl (runs ∙ rw other refl)
            | inl same ↦ inr (
              ap (any_live r) (interrupt-threads id db) ∙ rw (← (eq_iff id r).0 same) none_live,
              run,
              rw (← (eq_iff id r).0 same) found,
              working,
              runs ∙ rw same refl,
            )
          ]
    ]
  ]
]

-- A working run is not terminal, and is not working once it is interrupted.
interrupted_idle :
    (run : Run) → is_working run.stage ≡ true → is_working (to_stage interrupted run).stage ≡ false
unfolding is_working transition
interrupted_idle run h = ground arith

some-injective : {a b : Run} → some a ≡ some b → a ≡ b
some-injective h = ground arith

module _ (container_running : String → Bool) (alive : Bool) (now : ℕ) where
  reap_skips :
      (e : Stale) (db : Db)
      → (reap container_running alive now e db ≡ db)
        ⊎ ((t : Thread) × (Dict.get e.id db.threads ≡ some t)
            × (reap container_running alive now e db
                ≡ interrupt_orphaned_run e.run_id
                    (record db { threads = Dict.put e.id (fail_thread now t) db.threads })))
  unfolding reap
  reap_skips e db = elim (Bool-cases (is_reapable container_running alive e)) [
    | inr kept ↦ inl (rw kept refl)
    | inl may ↦ elim (Option-cases (Dict.get e.id db.threads)) [
      | inr gone ↦ inl (rw (may, reap) (rw (gone, reap) refl))
      | inl (t, found) ↦ elim (Bool-cases (is_active t)) [
        | inr dead ↦ inl (rw (may, reap) (rw (found, reap) (rw (dead, reap) refl)))
        | inl active ↦ inr (t, found, rw (may, reap) (rw (found, reap) (rw (active, reap) refl)))
      ]
    ]
  ]

  reap-none_live :
      (e : Stale) (db : Db) (r : String)
      → any_live r db.threads ≡ false
      → any_live r (reap container_running alive now e db).threads ≡ false
  reap-none_live e db r h = elim (reap_skips e db) [
    | inl same ↦ ap (λ d. any_live r d.threads) same ∙ h
    | inr (t, found, out) ↦
        ap (λ d. any_live r d.threads) out
        ∙ (ap (any_live r) (
              interrupt-threads e.run_id
                (record db { threads = Dict.put e.id (fail_thread now t) db.threads }))
            ∙ any_live-fail now r e.id t db.threads h found)
  ]

  reap_all-none_live :
      (es : List Stale) (db : Db) (r : String)
      → any_live r db.threads ≡ false
      → any_live r (reap_all container_running alive now es db).threads ≡ false
  reap_all-none_live [] db r h = h
  reap_all-none_live (e ∷ es) db r h =
      reap_all-none_live es (reap container_running alive now e db) r (reap-none_live e db r h)

  reap-runs :
      (e : Stale) (db : Db) (r : String)
      → (Dict.get r (reap container_running alive now e db).runs ≡ Dict.get r db.runs)
        ⊎ IsOrphaned r db (reap container_running alive now e db)
  reap-runs e db r = elim (reap_skips e db) [
    | inl same ↦ inl (ap (λ d. Dict.get r d.runs) same)
    | inr (t, found, out) ↦
        subst (λ d. (Dict.get r d.runs ≡ Dict.get r db.runs) ⊎ IsOrphaned r db d) (sym out)
          (interrupt-runs e.run_id r
            (record db { threads = Dict.put e.id (fail_thread now t) db.threads }))
  ]

  reap_all-runs :
      (es : List Stale) (db : Db) (r : String)
      → (Dict.get r (reap_all container_running alive now es db).runs ≡ Dict.get r db.runs)
        ⊎ IsOrphaned r db (reap_all container_running alive now es db)
  reap_all-runs [] db r = inl refl
  reap_all-runs (e ∷ es) db r =
      let db' = reap container_running alive now e db in
      elim (reap_all-runs es db' r) [
        | inl rest ↦ elim (reap-runs e db r) [
          | inl same ↦ inl (rest ∙ same)
          | inr (idle, run, found, working, row) ↦
              inr (reap_all-none_live es db' r idle, run, found, working, rest ∙ row)
        ]
        | inr (idle, run, found, working, row) ↦ elim (reap-runs e db r) [
          | inl same ↦ inr (idle, run, sym same ∙ found, working, row)
          | inr (_, first, found', working', row') ↦
              let same : run ≡ to_stage interrupted first = some-injective (sym found ∙ row') in
              let idle' : is_working run.stage ≡ false =
                ap (λ u. is_working u.stage) same ∙ interrupted_idle first working' in
              absurd (ground (arith, idle', working))
        ]
      ]

-- A pass of the reaper leaves every run as it is, but those it interrupts: such a run was at a working stage,
-- it is moved to interrupted by the state machine, and no thread of it is live when the pass ends.
pub reap_once-runs :
    (container_running : String → Bool) (now_mono last_beat now : ℕ) (db : Db) (r : String)
    → let after = reap_once container_running now_mono last_beat now db in
      (Dict.get r after.runs ≡ Dict.get r db.runs) ⊎ IsOrphaned r db after
unfolding reap_once
reap_once-runs container_running now_mono last_beat now db r =
    reap_all-runs container_running (bus_alive now_mono last_beat) now (stale_rows now db.threads)
      db r
