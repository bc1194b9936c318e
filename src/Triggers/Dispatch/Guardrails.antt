-- ===== src/Triggers/Dispatch/Guardrails.antt =====
-- Every run that an event opens has an owner that was resolved, is gated, and is no echo of the agent's own
-- acts.
use mathlib.Core.Path.{subst}
use z_agent.Base.{◌≢◌, eq_iff}
use z_agent.Base.{Some, Some-filter}
use z_agent.Base.{
  ℕ, String, ◌≡◌, refl, sym, ap, ◌∙◌, ◌⊎◌, inl, inr, true, false, ◌||◌, Option, none, some, List,
  [], ◌∷◌, arith, str_eq, leb, Bool-cases, Option-cases, length, filter,
}
use z_agent.Base.Dict
use z_agent.Base.Dict.{get-put}
use z_agent.Contracts.{queued}
use z_agent.Triggers.{
  Trigger, TriggerEvent, RunRow, resolve_descriptor, Db, World, is_matched, log_event, create_run,
}
use z_agent.Triggers.Dispatch.{
  is_loop, resolve_owner, start, guarded, judge, judge_all, dispatch, process,
}
use z_agent.Triggers.Dispatch.Cases.{dispatch-cases, judged}

-- The row of a run that the engine creates.
abbrev pub gated_run : ℕ → Trigger → RunRow
gated_run u t = record { created_by = some u; mode = t.mode; autonomy = "gated"; stage = queued }

module _ (w : World) (uuid : String → String) (now : ℕ) where
  -- The owner by the trigger's rule: the system user by name, or else the active user whose descriptor the event has.
  abbrev pub IsOwner : Trigger → TriggerEvent → ℕ → Type 0
  IsOwner t e u =
      ((t.owner_resolution ≡ "system") × (u ≡ w.system_user))
      ⊎ ((d : String) × (e.changed_by_descriptor ≡ some d)
          × (d ≢ "")
          × (Dict.get d w.users ≡ some u))

  resolve_owner-IsOwner :
      (t : Trigger) (e : TriggerEvent) (u : ℕ)
      → resolve_owner w uuid now t e ≡ some u
      → IsOwner t e u
  unfolding resolve_owner resolve_descriptor
  resolve_owner-IsOwner t e u h = elim (Bool-cases (str_eq t.owner_resolution "system")) [
    | inl system ↦ inl ((eq_iff t.owner_resolution "system").0 system, ground arith)
    | inr changed_by ↦ elim (Option-cases e.changed_by_descriptor) [
      | inr nobody ↦ absurd (ground arith)
      | inl (d, known) ↦ inr (d, known, ground (arith, eq_iff d ""), ground arith)
    ]
  ]

  -- The trigger opened the run.
  abbrev pub Opens : TriggerEvent → Option RunRow → Trigger → Type 0
  Opens e after t = (u : ℕ) × IsOwner t e u × (after ≡ some (gated_run u t))

  guarded-runs :
      (t : Trigger) (e : TriggerEvent) (u : ℕ) (db : Db)
      → w.handler e.event_type ≡ none
      → ((guarded w uuid now t e (some u) db).0.runs ≡ db.runs)
        ⊎ ((guarded w uuid now t e (some u) db).0.runs
            ≡ Dict.put (uuid t.name) (gated_run u t) db.runs)
  unfolding guarded start create_run
  guarded-runs t e u db h = ground arith

  judge-guarded :
      (t : Trigger) (e : TriggerEvent) (db : Db)
      → w.handler e.event_type ≡ none
      → ((judge w uuid now t e db).0.runs ≡ db.runs)
        ⊎ ((u : ℕ) × IsOwner t e u
            × ((judge w uuid now t e db).0.runs ≡ Dict.put (uuid t.name) (gated_run u t) db.runs))
  unfolding judge
  judge-guarded t e db h = elim (Option-cases (resolve_owner w uuid now t e)) [
    | inr unresolved ↦ inl (rw (h, judge) (rw (unresolved, judge) refl))
    | inl (u, found) ↦ elim (guarded-runs t e u db h) [
      | inl same ↦ inl (rw (h, judge) (rw (found, judge) same))
      | inr new ↦ inr (u, resolve_owner-IsOwner t e u found, rw (h, judge) (rw (found, judge) new))
    ]
  ]

  runs-judge :
      (t : Trigger) (e : TriggerEvent) (db : Db) (r : String)
      → w.handler e.event_type ≡ none
      → (Dict.get r (judge w uuid now t e db).0.runs ≡ Dict.get r db.runs)
        ⊎ Opens e (Dict.get r (judge w uuid now t e db).0.runs) t
  runs-judge t e db r h = elim (judge-guarded t e db h) [
    | inl same ↦ inl (ap (Dict.get r) same)
    | inr (u, resolved, new) ↦
        let row = ap (Dict.get r) new ∙ get-put (uuid t.name) r (gated_run u t) db.runs in
        elim (Bool-cases (str_eq (uuid t.name) r)) [
          | inl mine ↦ inr (u, resolved, row ∙ rw mine refl)
          | inr other ↦ inl (row ∙ rw other refl)
        ]
  ]

  judge_all-cons :
      (t : Trigger) (ts : List Trigger) (e : TriggerEvent) (db : Db)
      → let next = (judge w uuid now t e db).0 in
        ((judge_all w uuid now (t ∷ ts) e db).0 ≡ next)
        ⊎ ((judge_all w uuid now (t ∷ ts) e db).0 ≡ (judge_all w uuid now ts e next).0)
  unfolding judge_all
  judge_all-cons t ts e db = ground arith

  Opens-at :
      (ts : List Trigger) (e : TriggerEvent) {a b : Option RunRow}
      → a ≡ b
      → Some (Opens e a) ts
      → Some (Opens e b) ts
  Opens-at ts e h s = subst (λ o. Some (Opens e o) ts) h s

  runs-judge_all :
      (ts : List Trigger) (e : TriggerEvent) (db : Db) (r : String)
      → w.handler e.event_type ≡ none
      → (Dict.get r (judge_all w uuid now ts e db).0.runs ≡ Dict.get r db.runs)
        ⊎ Some (Opens e (Dict.get r (judge_all w uuid now ts e db).0.runs)) ts
  unfolding judge_all
  runs-judge_all [] e db r h = inl refl
  runs-judge_all (t ∷ ts) e db r h =
      let next = (judge w uuid now t e db).0 in
      elim (judge_all-cons t ts e db) [
        | inl stop ↦
            let here = ap (λ d. Dict.get r d.runs) stop in
            elim (runs-judge t e db r h) [
              | inl same ↦ inl (here ∙ same)
              | inr (u, resolved, row) ↦ inr (inl (u, resolved, here ∙ row))
            ]
        | inr go ↦
            let here = ap (λ d. Dict.get r d.runs) go in
            elim (runs-judge_all ts e next r h) [
              | inr opened ↦ inr (inr (Opens-at ts e (sym here) opened))
              | inl same ↦ elim (runs-judge t e db r h) [
                | inl old ↦ inl (here ∙ (same ∙ old))
                | inr (u, resolved, row) ↦ inr (inl (u, resolved, here ∙ (same ∙ row)))
              ]
            ]
      ]

  -- The run of `r` after a dispatch.
  abbrev pub RunOutcome : TriggerEvent → String → Db → Db → Type 0
  RunOutcome e r before after =
      (Dict.get r after.runs ≡ Dict.get r before.runs)
      ⊎ ((is_loop w uuid now e ≡ false)
          × Some (λ t. (is_matched e t ≡ true) × Opens e (Dict.get r after.runs) t) before.triggers)

  judged-runs :
      (e : TriggerEvent) (db : Db) (r : String) (after : Db)
      → w.handler e.event_type ≡ none
      → (is_loop w uuid now e || leb (length (filter (is_matched e) db.triggers)) 0) ≡ false
      → after.runs ≡ (judged w uuid now e 0 db).0.runs
      → RunOutcome e r db after
  judged-runs e db r after h go out =
      elim (runs-judge_all (filter (is_matched e) db.triggers) e db r h) [
        | inl same ↦ inl (ap (Dict.get r) out ∙ same)
        | inr opened ↦ inr (
          ground arith,
          Some-filter (is_matched e) _ db.triggers
              (Opens-at (filter (is_matched e) db.triggers) e (sym (ap (Dict.get r) out)) opened),
        )
      ]

  process-none :
      (e : TriggerEvent) (id : ℕ) (db : Db)
      → log_event e id now db ≡ none
      → process w uuid now e id db ≡ (db, some "duplicate")
  unfolding process
  process-none e id db h = rw (h, process) refl

  process-some :
      (e : TriggerEvent) (id : ℕ) (db db' : Db)
      → log_event e id now db ≡ some db'
      → process w uuid now e id db ≡ dispatch w uuid now e id db'
  unfolding process
  process-some e id db db' h = rw (h, process) refl

  log-runs :
      (e : TriggerEvent) (id : ℕ) (db db' : Db)
      → log_event e id now db ≡ some db'
      → (db'.runs ≡ db.runs) × (db'.triggers ≡ db.triggers)
  unfolding log_event
  log-runs e id db db' h = ground arith

  same-outcome :
      (e : TriggerEvent) (r : String) (db db' after : Db)
      → (db'.runs ≡ db.runs) × (db'.triggers ≡ db.triggers)
      → RunOutcome e r db' after
      → RunOutcome e r db after
  same-outcome e r db db' after (runs, triggers) o =
      subst
        (λ ts.
          (Dict.get r after.runs ≡ Dict.get r db.runs)
          ⊎ ((is_loop w uuid now e ≡ false)
              × Some (λ t. (is_matched e t ≡ true) × Opens e (Dict.get r after.runs) t) ts))
        triggers
        (subst
          (λ rs.
            (Dict.get r after.runs ≡ Dict.get r rs)
            ⊎ ((is_loop w uuid now e ≡ false)
                × Some (λ t. (is_matched e t ≡ true) × Opens e (Dict.get r after.runs) t)
                    db'.triggers))
          runs o)

  dispatch-runs :
      (e : TriggerEvent) (id : ℕ) (db : Db) (r : String)
      → w.handler e.event_type ≡ none
      → RunOutcome e r db (dispatch w uuid now e id db).0
  dispatch-runs e id db r h = elim (dispatch-cases w uuid now e id db) [
    | inl (_, out) ↦ inl (ap (λ o. Dict.get r o.0.runs) out)
    | inr (inl (go, _, out)) ↦
        judged-runs e db r (dispatch w uuid now e id db).0 h go (ap (λ o. o.0.runs) out)
    | inr (inr (go, _, _, out)) ↦
        judged-runs e db r (dispatch w uuid now e id db).0 h go (ap (λ o. o.0.runs) out)
  ]

  -- An event whose type has no handler leaves a run's row as it was or opens that run; a run that it opens is the
  -- one of a matched trigger, is gated and queued, has the trigger's mode and the user that the trigger's
  -- rule resolved, and the event was not the service account's own.
  pub process-runs :
      (e : TriggerEvent) (id : ℕ) (db : Db) (r : String)
      → w.handler e.event_type ≡ none
      → RunOutcome e r db (process w uuid now e id db).0
  process-runs e id db r h = elim (Option-cases (log_event e id now db)) [
    | inr known ↦ inl (ap (λ o. Dict.get r o.0.runs) (process-none e id db known))
    | inl (db', fresh) ↦
        subst (λ o. RunOutcome e r db o.0) (sym (process-some e id db db' fresh))
          (same-outcome e r db db' (dispatch w uuid now e id db').0 (log-runs e id db db' fresh)
            (dispatch-runs e id db' r h))
  ]
