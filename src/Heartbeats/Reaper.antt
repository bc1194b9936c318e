-- ===== src/Heartbeats/Reaper.antt =====
-- The reaper: which threads it fails, and which runs it interrupts.
use z_agent.Base.{Some, none}
use z_agent.Base.{
  ℕ, ◌-◌, ◌<◌, String, ◌≡◌, refl, sym, ap, ◌∙◌, ◌⊎◌, inl, inr, Bool, true, false, Option, some,
  List, [], ◌∷◌, arith, str_eq, eq_iff, Bool-cases, Option-cases,
}
use z_agent.Base.Dict
use z_agent.Base.Dict.{Dict, get-put}
use z_agent.Heartbeats.{
  Thread, Db, is_active, active_statuses, Stale, is_reapable, interrupt_orphaned_run, fail_thread,
  reap, reap_all,
}

pub interrupt-threads :
    (run_id : String) (db : Db) → (interrupt_orphaned_run run_id db).threads ≡ db.threads
unfolding interrupt_orphaned_run
interrupt-threads run_id db = ground arith

some-injective : {t u : Thread} → some t ≡ some u → t ≡ u
some-injective h = ground arith

module _ (container_running : String → Bool) (alive : Bool) (now : ℕ) where
  -- Why an entry's thread may be failed.
  abbrev pub MayReap : String → Stale → Type 0
  MayReap k e = (str_eq e.id k ≡ true) × (is_reapable container_running alive e ≡ true)

  abbrev pub Failed : Option Thread → Option Thread → Type 0
  Failed before after =
      (t : Thread) × (before ≡ some t) × (is_active t ≡ true) × (after ≡ some (fail_thread now t))

  pub reap-threads :
      (e : Stale) (db : Db) (t : Thread)
      → is_reapable container_running alive e ≡ true
      → Dict.get e.id db.threads ≡ some t
      → is_active t ≡ true
      → (reap container_running alive now e db).threads
        ≡ Dict.put e.id (fail_thread now t) db.threads
  unfolding reap
  reap-threads e db t may found active =
      rw (may, reap)
        (rw (found, reap)
          (rw (active, reap)
            (interrupt-threads e.run_id
              (record db { threads = Dict.put e.id (fail_thread now t) db.threads }))))

  pub reap-row :
      (e : Stale) (db : Db) (k : String)
      → (Dict.get k (reap container_running alive now e db).threads ≡ Dict.get k db.threads)
        ⊎ (MayReap k e
            × Failed
                (Dict.get k db.threads)
                (Dict.get k (reap container_running alive now e db).threads))
  unfolding reap
  reap-row e db k = elim (Bool-cases (is_reapable container_running alive e)) [
    | inr no_reap ↦ inl (rw no_reap refl)
    | inl may ↦ elim (Option-cases (Dict.get e.id db.threads)) [
      | inr gone ↦ inl (rw (may, reap) (rw (gone, reap) refl))
      | inl (t, found) ↦ elim (Bool-cases (is_active t)) [
        | inr dead ↦ inl (rw (may, reap) (rw (found, reap) (rw (dead, reap) refl)))
        | inl active ↦
            let rows = reap-threads e db t may found active in
            elim (Bool-cases (str_eq e.id k)) [
              | inr other ↦ inl (
                  ap (Dict.get k) rows
                  ∙ (get-put e.id k (fail_thread now t) db.threads ∙ rw other refl))
              | inl same ↦ inr (
                (same, may),
                (
                  t,
                  rw (← (eq_iff e.id k).0 same) found,
                  active,
                  ap (Dict.get k) rows
                      ∙ (get-put e.id k (fail_thread now t) db.threads ∙ rw same refl),
                ),
              )
            ]
      ]
    ]
  ]

  fail-inactive : (t : Thread) → is_active (fail_thread now t) ≡ false
  unfolding is_active active_statuses
  fail-inactive t = refl

  pub again : (t u : Thread) → some (fail_thread now t) ≡ some u → is_active u ≡ true → ⊥
  again t u h active = ground (arith, fail-inactive t, ap is_active (some-injective h))

  pub reap_all-row :
      (es : List Stale) (db : Db) (k : String)
      → (Dict.get k (reap_all container_running alive now es db).threads ≡ Dict.get k db.threads)
        ⊎ (Some (MayReap k) es
            × Failed
                (Dict.get k db.threads)
                (Dict.get k (reap_all container_running alive now es db).threads))
  reap_all-row [] db k = inl refl
  reap_all-row (e ∷ es) db k =
      let db' = reap container_running alive now e db in
      elim (reap-row e db k) [
        | inl same ↦ elim (reap_all-row es db' k) [
          | inl rest ↦ inl (rest ∙ same)
          | inr (why, (t, found, active, row)) ↦ inr (inr why, (t, sym same ∙ found, active, row))
        ]
        | inr (why, (t, found, active, row)) ↦ elim (reap_all-row es db' k) [
          | inl rest ↦ inr (inl why, (t, found, active, rest ∙ row))
          | inr (_, (u, found', active', _)) ↦ absurd (again t u (sym row ∙ found') active')
        ]
      ]

  -- The container of a row that may be failed.
  abbrev pub IsLost : ℕ → Option String → Type 0
  IsLost silence none = ⊥
  IsLost silence (some c) =
      (str_eq c "" ≡ false)
      × ((container_running c ≡ false) ⊎ ((alive ≡ true) × (300000 < silence)))

  -- How long a row was silent, if it ever beat.
  abbrev pub WasSilent : Option ℕ → Option String → Type 0
  WasSilent none box = ⊥
  WasSilent (some at) box = (180000 < now - at) × IsLost (now - at) box

  -- The row of the thread was silent for so long, with such a container.
  abbrev pub IsDead : String → String × Thread → Type 0
  IsDead k (id, t) = (id ≡ k) × WasSilent t.heartbeat_at t.container_id
