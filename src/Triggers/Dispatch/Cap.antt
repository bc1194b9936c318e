-- ===== src/Triggers/Dispatch/Cap.antt =====
-- The hourly cap of a trigger, over the events that are dispatched.
use mathlib.Core.Path.{subst}
use z_agent.Base.{Some, Some-filter, Some-imp}
use z_agent.Base.{
  ℕ, ◌+◌, ◌-◌, ◌≤◌, ◌<◌, String, ◌≡◌, refl, ◌⊎◌, inl, inr, Bool, true, false, some, List, [], ◌∷◌,
  arith, str_eq, eq_iff, ltb, filter, count, All,
}
use z_agent.Triggers.{
  Trigger, TriggerEvent, Verdict, Log, Db, World, hour, is_matched, set_log, persist_verdicts,
  is_counted, count_started, rate_limited,
}
use z_agent.Triggers.Dispatch.{stamp, dispatch}
use z_agent.Triggers.Dispatch.Cases.{dispatch-cases, judged}
use z_agent.Triggers.Dispatch.Dedupe.{logs-judge_all}
use z_agent.Triggers.Dispatch.Rate.{
  named, started_verdicts, count-set_log, count-written, judge_all-verdicts, rows-judge_all,
}

-- A trigger of the name that is below its bound shows that the name is below the cap.
below-cap :
    (name : String) (bound now : ℕ) (db : Db) (ts : List Trigger)
    → All (λ t. str_eq t.name name ≡ true → t.rate_limit_per_hour ≤ bound) ts
    → Some (λ t. (str_eq t.name name ≡ true) × (rate_limited t now db ≡ false)) ts
    → count_started name (now - hour) db < bound
unfolding rate_limited
below-cap name bound now db [] _ s = elim s [ ]
below-cap name bound now db (t ∷ ts) (h, hs) (inr s) = below-cap name bound now db ts hs s
below-cap name bound now db (t ∷ ts) (h, hs) (inl (mine, free)) =
    let under : ltb (count_started t.name (now - hour) db) t.rate_limit_per_hour ≡ true =
      ground arith in
    subst (λ n. count_started n (now - hour) db < bound) ((eq_iff t.name name).0 mine)
      (ground (arith, h mine))

named-filter :
    (name : String) (p : Trigger → Bool) (ts : List Trigger)
    → named name (filter p ts) ≤ named name ts
named-filter name p [] = omega arith
named-filter name p (t ∷ ts) = ground (arith, named-filter name p ts)

stamp-fixed :
    (vs : List Verdict) (l : Log)
    → ((stamp vs l).id ≡ l.id) × ((stamp vs l).received_at ≡ l.received_at)
unfolding stamp
stamp-fixed vs l = (refl, refl)

module _ (w : World) (uuid : String → String) (now : ℕ) where
  -- The verdicts that a dispatch writes.
  written :
      (name : String) (bound : ℕ) (e : TriggerEvent) (id : ℕ) (db : Db) (vs : List Verdict)
      → named name db.triggers ≤ 1
      → All (λ t. str_eq t.name name ≡ true → t.rate_limit_per_hour ≤ bound) db.triggers
      → (judged w uuid now e id db).1 ≡ some vs
      → (count_started name (now - hour) db + started_verdicts name vs
          ≤ count_started name (now - hour) db)
        ⊎ (count_started name (now - hour) db + started_verdicts name vs ≤ bound)
  written name bound e id db vs one caps h =
      let (few, why) =
        judge_all-verdicts w uuid now name (filter (is_matched e) db.triggers) e db vs h in
      elim why [
        | inl zero_started ↦ inl (ground arith)
        | inr below ↦ inr (
            ground (
              arith,
              named-filter name (is_matched e) db.triggers,
              below-cap name bound now db db.triggers caps (
                  Some-imp db.triggers (λ t q. q.1)
                    (Some-filter (is_matched e) _ db.triggers below)),
            ))
      ]

  -- A dispatch keeps the hourly cap: when one trigger at most has a name, and its cap is the bound or less, the
  -- starts that count against the name in the last hour either do not grow, or stay within the bound; whatever
  -- the event, the guardrails' outcomes and the exceptions.
  pub dispatch-count_started :
      (name : String) (bound : ℕ) (e : TriggerEvent) (id : ℕ) (db : Db)
      → named name db.triggers ≤ 1
      → All (λ t. str_eq t.name name ≡ true → t.rate_limit_per_hour ≤ bound) db.triggers
      → (count_started name (now - hour) (dispatch w uuid now e id db).0
          ≤ count_started name (now - hour) db)
        ⊎ (count_started name (now - hour) (dispatch w uuid now e id db).0 ≤ bound)
  unfolding count_started
  dispatch-count_started name bound e id db one caps =
      let since = now - hour in
      let after = (judged w uuid now e id db).0 in
      let rows : after.verdict_rows ≡ db.verdict_rows =
        rows-judge_all w uuid now (filter (is_matched e) db.triggers) e db in
      let logs : after.logs ≡ db.logs =
        logs-judge_all w uuid now (filter (is_matched e) db.triggers) e db in
      elim (dispatch-cases w uuid now e id db) [
        | inl (_, out) ↦ inl (
            rw (out) (
              ground (
                arith,
                count-set_log name since id (λ l. record l { status = "ignored" }) db.logs
                    db.verdict_rows (λ l. (refl, refl)),
              )))
        | inr (inl (_, _, out)) ↦ inl (rw (out) (rw (rows, logs) (omega arith)))
        | inr (inr (_, vs, made, out)) ↦
            let size : count (is_counted name since (set_log id (stamp vs) after.logs))
                  (persist_verdicts id vs after.verdict_rows)
                ≤ count (is_counted name since db.logs) db.verdict_rows + started_verdicts name vs =
              rw (rows, logs)
                (ground (
                  arith,
                  count-set_log name since id (stamp vs) db.logs
                      (persist_verdicts id vs db.verdict_rows) (stamp-fixed vs),
                  count-written name since id db.logs vs db.verdict_rows,
                )) in
            rw (out) (ground (arith, size, written name bound e id db vs one caps made))
      ]
