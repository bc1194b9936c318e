-- ===== src/Heartbeats/Certain.antt =====
-- What the reaper must fail.
use mathlib.Core.Path.{subst}
use z_agent.Base.{Some}
use z_agent.Base.{
  ℕ, ◌-◌, ◌<◌, String, ◌≡◌, refl, sym, ap, ◌∙◌, inl, inr, Bool, true, false, ◌&&◌, Option, none,
  some, List, [], ◌∷◌, arith, str_eq, eq_iff, ltb, Bool-cases, Option-cases,
}
use z_agent.Base.Dict
use z_agent.Base.Dict.{Dict, get-put}
use z_agent.Heartbeats.{
  Thread, Db, is_active, Stale, stale_rows, stale_after, bus_alive, is_reapable, fail_thread, reap,
  reap_all, reap_once,
}
use z_agent.Heartbeats.Reaper.{MayReap, Failed, reap-row, reap_all-row, reap-threads, again}

module _ (container_running : String → Bool) (alive : Bool) (now : ℕ) where
  -- A failed row stays failed.
  reap_all-failed :
      (es : List Stale) (db : Db) (k : String) (t : Thread)
      → Dict.get k db.threads ≡ some (fail_thread now t)
      → Dict.get k (reap_all container_running alive now es db).threads ≡ some (fail_thread now t)
  reap_all-failed es db k t h = elim (reap_all-row container_running alive now es db k) [
    | inl same ↦ same ∙ h
    | inr (_, (u, found, active, _)) ↦
        absurd (again container_running alive now t u (sym h ∙ found) active)
  ]

  reap-certain :
      (e : Stale) (db : Db) (k : String) (t : Thread)
      → MayReap container_running alive now k e
      → Dict.get k db.threads ≡ some t
      → is_active t ≡ true
      → Dict.get k (reap container_running alive now e db).threads ≡ some (fail_thread now t)
  reap-certain e db k t (same, may) found active =
      let key = (eq_iff e.id k).0 same in
      ap (Dict.get k) (reap-threads container_running alive now e db t may (rw key found) active)
      ∙ (get-put e.id k (fail_thread now t) db.threads ∙ rw same refl)

  Failed-row :
      (t : Thread) (before after : Option Thread)
      → before ≡ some t
      → Failed container_running alive now before after
      → after ≡ some (fail_thread now t)
  Failed-row t before after found (u, found', _, row) =
      row
      ∙ ap (λ o. elim o [ none ↦ none | some x ↦ some (fail_thread now x) ]) (sym found' ∙ found)

  reap_all-certain :
      (es : List Stale) (db : Db) (k : String) (t : Thread)
      → Some (MayReap container_running alive now k) es
      → Dict.get k db.threads ≡ some t
      → is_active t ≡ true
      → Dict.get k (reap_all container_running alive now es db).threads ≡ some (fail_thread now t)
  reap_all-certain [] db k t w found active = elim w [ ]
  reap_all-certain (e ∷ es) db k t (inl may) found active =
      reap_all-failed es (reap container_running alive now e db) k t
        (reap-certain e db k t may found active)
  reap_all-certain (e ∷ es) db k t (inr w) found active =
      elim (reap-row container_running alive now e db k) [
        | inl same ↦
            reap_all-certain es (reap container_running alive now e db) k t w (same ∙ found) active
        | inr (_, failed) ↦ reap_all-failed es (reap container_running alive now e db) k t (
            Failed-row t (Dict.get k db.threads)
              (Dict.get k (reap container_running alive now e db).threads) found failed)
      ]

  -- A row in front keeps the entries of the others, and makes its own.
  skip-row :
      (rows : Dict Thread) (id k : String) (u : Thread)
      → Some (MayReap container_running alive now k) (stale_rows now rows)
      → Some (MayReap container_running alive now k) (stale_rows now ((id, u) ∷ rows))
  unfolding stale_rows
  skip-row rows id k u w = elim (Option-cases u.heartbeat_at) [
    | inr never ↦ rw (never, stale_rows) w
    | inl (at, beat) ↦ elim (Bool-cases (is_active u && ltb stale_after (now - at))) [
      | inl old ↦ rw (beat, stale_rows) (rw (old, stale_rows) (inr w))
      | inr young ↦ rw (beat, stale_rows) (rw (young, stale_rows) w)
    ]
  ]

  -- The thread is active, was silent for too long, and its container is gone.
  abbrev pub IsGone : String → Thread → Type 0
  IsGone c t =
      (is_active t ≡ true)
      × ((at : ℕ) × (t.heartbeat_at ≡ some at) × (stale_after < now - at))
      × (t.container_id ≡ some c)
      × (str_eq c "" ≡ false)
      × (container_running c ≡ false)

  own-row :
      (rows : Dict Thread) (id k c : String) (t : Thread)
      → IsGone c t
      → str_eq id k ≡ true
      → Some (MayReap container_running alive now k) (stale_rows now ((id, t) ∷ rows))
  unfolding stale_rows is_reapable
  own-row rows id k c t (active, (at, beat, old), box, named, gone) mine =
      let due : (is_active t && ltb stale_after (now - at)) ≡ true = ground arith in
      rw (beat, stale_rows)
        (rw (due, stale_rows) (inl (mine, rw (box, is_reapable) (ground arith))))

  stale-entry :
      (threads : Dict Thread) (k c : String) (t : Thread)
      → Dict.get k threads ≡ some t
      → IsGone c t
      → Some (MayReap container_running alive now k) (stale_rows now threads)
  unfolding Dict.get
  stale-entry [] k c t found gone = ground arith
  stale-entry ((id, u) ∷ rows) k c t found gone = elim (Bool-cases (str_eq id k)) [
    | inl mine ↦
        let same : u ≡ t = ground arith in
        subst (λ x. Some (MayReap container_running alive now k) (stale_rows now ((id, x) ∷ rows)))
          (sym same) (own-row rows id k c t gone mine)
    | inr other ↦ skip-row rows id k u (stale-entry rows k c t (ground arith) gone)
  ]

-- An active thread that was silent for over three minutes and whose container is gone does not stay active:
-- one pass of the reaper fails it, at once and at the time of the pass, whatever else is in the tables and
-- whether or not the bus is alive.
pub reap_once-certain :
    (container_running : String → Bool) (now_mono last_beat now : ℕ) (db : Db) (k c : String)
    (t : Thread)
    → Dict.get k db.threads ≡ some t
    → IsGone container_running (bus_alive now_mono last_beat) now c t
    → Dict.get k (reap_once container_running now_mono last_beat now db).threads
      ≡ some (fail_thread now t)
unfolding reap_once
reap_once-certain container_running now_mono last_beat now db k c t found gone =
    let alive = bus_alive now_mono last_beat in
    reap_all-certain container_running alive now (stale_rows now db.threads) db k t
      (stale-entry container_running alive now db.threads k c t found gone) found gone.0
