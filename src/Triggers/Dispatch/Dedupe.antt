-- ===== src/Triggers/Dispatch/Dedupe.antt =====
-- An event is dispatched once: the log's unique key.
use z_agent.Base.{
  ℕ, String, ◌≡◌, refl, ap, ◌∙◌, inl, inr, Bool, true, some, List, [], ◌∷◌, ◌++◌, arith, Bool-cases,
  any, filter, eq_self,
}
use z_agent.Triggers.{
  Trigger, TriggerEvent, Verdict, Log, Db, World, is_matched, same_event, log_event, set_log,
  create_run,
}
use z_agent.Triggers.Dispatch.Cases.{dispatch-cases}
use z_agent.Triggers.Dispatch.{start, guarded, judge, judge_all, stamp, dispatch, process}

any-set_log :
    (e : TriggerEvent) (id : ℕ) (change : Log → Log) (logs : List Log)
    → ((l : Log) → same_event e (change l) ≡ same_event e l)
    → any (same_event e) (set_log id change logs) ≡ any (same_event e) logs
unfolding set_log
any-set_log e id change [] h = refl
any-set_log e id change (l ∷ logs) h = ground (arith, any-set_log e id change logs h, h l)

same_event_self : (e : TriggerEvent) (l : Log) → l.event ≡ e → same_event e l ≡ true
unfolding same_event
same_event_self e l h = rw h (ground (arith, eq_self e.source, eq_self e.external_id))

any-last :
    {A : Type 0} (p : A → Bool) (xs : List A) (x : A) → p x ≡ true → any p (xs ++ (x ∷ [])) ≡ true
any-last p [] x h = ground arith
any-last p (y ∷ xs) x h = ground (arith, any-last p xs x h)

stamp-event : (vs : List Verdict) (l : Log) → (stamp vs l).event ≡ l.event
unfolding stamp
stamp-event vs l = refl

module _ (w : World) (uuid : String → String) (now : ℕ) where
  logs-judge :
      (t : Trigger) (e : TriggerEvent) (db : Db) → (judge w uuid now t e db).0.logs ≡ db.logs
  unfolding judge guarded start create_run
  logs-judge t e db = ground arith

  pub logs-judge_all :
      (ts : List Trigger) (e : TriggerEvent) (db : Db)
      → (judge_all w uuid now ts e db).0.logs ≡ db.logs
  unfolding judge_all
  logs-judge_all [] e db = refl
  logs-judge_all (t ∷ ts) e db =
      ground (arith, logs-judge t e db, logs-judge_all ts e (judge w uuid now t e db).0)

  keeps :
      (f : TriggerEvent) (id : ℕ) (change : Log → Log) (logs : List Log)
      → ((l : Log) → (change l).event ≡ l.event)
      → any (same_event f) (set_log id change logs) ≡ any (same_event f) logs
  unfolding same_event
  keeps f id change logs h = any-set_log f id change logs (λ l. rw (h l) refl)

  dispatch-keeps :
      (e f : TriggerEvent) (id : ℕ) (db : Db)
      → any (same_event f) (dispatch w uuid now e id db).0.logs ≡ any (same_event f) db.logs
  dispatch-keeps e f id db = elim (dispatch-cases w uuid now e id db) [
    | inl (_, out) ↦
        ap (λ o. any (same_event f) o.0.logs) out
        ∙ keeps f id (λ l. record l { status = "ignored" }) db.logs (λ l. refl)
    | inr (inl (_, _, out)) ↦
        ap (λ o. any (same_event f) o.0.logs) out
        ∙ ap (any (same_event f)) (logs-judge_all (filter (is_matched e) db.triggers) e db)
    | inr (inr (_, vs, _, out)) ↦
        ap (λ o. any (same_event f) o.0.logs) out
        ∙ (keeps f id (stamp vs)
              (judge_all w uuid now (filter (is_matched e) db.triggers) e db).0.logs
              (stamp-event vs)
            ∙ ap (any (same_event f)) (logs-judge_all (filter (is_matched e) db.triggers) e db))
  ]

  process-logged :
      (e : TriggerEvent) (id : ℕ) (db : Db)
      → any (same_event e) (process w uuid now e id db).0.logs ≡ true
  unfolding process log_event
  process-logged e id db = elim (Bool-cases (any (same_event e) db.logs)) [
    | inl known ↦ rw (known, process, log_event) known
    | inr fresh ↦
        rw (fresh, process, log_event)
          (dispatch-keeps e e id _ ∙ any-last (same_event e) db.logs _ (same_event_self e _ refl))
  ]

  duplicate :
      (e : TriggerEvent) (id : ℕ) (db : Db)
      → any (same_event e) db.logs ≡ true
      → process w uuid now e id db ≡ (db, some "duplicate")
  unfolding process log_event
  duplicate e id db h = rw (h, process, log_event) refl

module _ (w : World) (uuid : String → String) (now : ℕ) where
  -- Whatever came of an event, an exception included, processing the same event again right after it, however
  -- late and with whatever settings, is a duplicate that changes nothing.
  pub process_again :
      (e : TriggerEvent) (id id' : ℕ) (w' : World) (uuid' : String → String) (later : ℕ) (db : Db)
      → process w' uuid' later e id' (process w uuid now e id db).0
        ≡ ((process w uuid now e id db).0, some "duplicate")
  process_again e id id' w' uuid' later db =
      duplicate w' uuid' later e id' (process w uuid now e id db).0
        (process-logged w uuid now e id db)
