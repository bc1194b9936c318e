-- ===== src/Triggers/Dispatch/Rate.antt =====
-- What counts against the hourly cap of a trigger.
use mathlib.Core.Path.{subst}
use z_agent.Base.{Some, Some-imp}
use z_agent.Base.{
  ℕ, ◌+◌, ◌≤◌, String, ◌≡◌, refl, sym, ap, ◌∙◌, ◌⊎◌, inl, inr, Bool, true, false, not, ◌&&◌, Option,
  none, some, List, [], ◌∷◌, map, arith, str_eq, ◌==◌, Bool-cases, Option-cases, filter, count,
  count-append,
}
use z_agent.Triggers.{
  Trigger, TriggerEvent, Verdict, Log, VerdictRow, Db, World, set_log, persist_verdicts,
  received_since, is_counted, count_started, rate_limited, create_run,
}
use z_agent.Triggers.Dispatch.{resolve_owner, start, guarded, judge, judge_all}

-- How many verdicts say that the trigger of that name started.
abbrev pub started_verdicts : String → List Verdict → ℕ
started_verdicts name vs = count (λ v. str_eq v.trigger name && str_eq v.status "started") vs

-- How many triggers have the name.
abbrev pub named : String → List Trigger → ℕ
named name ts = count (λ t. str_eq t.name name) ts

received_since-set_log :
    (since id k : ℕ) (change : Log → Log) (logs : List Log)
    → ((l : Log) → ((change l).id ≡ l.id) × ((change l).received_at ≡ l.received_at))
    → received_since since k (set_log id change logs) ≡ received_since since k logs
unfolding received_since set_log
received_since-set_log since id k change [] h = refl
received_since-set_log since id k change (l ∷ logs) h =
    ground (arith, received_since-set_log since id k change logs h, (h l).0, (h l).1)

-- The rows of one log add at most as many as its verdicts say.
count-persist :
    (name : String) (since id : ℕ) (logs : List Log) (vs : List Verdict)
    → count (is_counted name since logs) (
        map
          (λ v. record {
            log_id = id;
            trigger_name = v.trigger;
            status = v.status;
            run_id = v.run_id;
          })
          vs)
      ≤ started_verdicts name vs
unfolding is_counted
count-persist name since id logs [] = omega arith
count-persist name since id logs (v ∷ vs) = ground (arith, count-persist name since id logs vs)

count-filter : {A : Type 0} (p q : A → Bool) (xs : List A) → count p (filter q xs) ≤ count p xs
count-filter p q [] = omega arith
count-filter p q (x ∷ xs) = ground (arith, count-filter p q xs)

count-same :
    {A : Type 0} (p q : A → Bool) (xs : List A) → ((x : A) → p x ≡ q x) → count p xs ≡ count q xs
count-same p q [] h = refl
count-same p q (x ∷ xs) h = ground (arith, h x, count-same p q xs h)

not_started :
    (s : String) → (s ≡ "failed") ⊎ (s ≡ "nudged") ⊎ (s ≡ "queued") → str_eq s "started" ≡ false
not_started s (inl h) = rw h refl
not_started s (inr (inl h)) = rw h refl
not_started s (inr (inr h)) = rw h refl

module _ (w : World) (uuid : String → String) (now : ℕ) where
  rows-judge :
      (t : Trigger) (e : TriggerEvent) (db : Db)
      → ((judge w uuid now t e db).0.verdict_rows ≡ db.verdict_rows)
        × ((judge w uuid now t e db).0.logs ≡ db.logs)
  unfolding judge guarded start create_run
  rows-judge t e db = ground arith

  rate-same :
      (t : Trigger) (db db' : Db)
      → (db'.verdict_rows ≡ db.verdict_rows) × (db'.logs ≡ db.logs)
      → rate_limited t now db' ≡ rate_limited t now db
  unfolding rate_limited count_started
  rate-same t db db' (rows, logs) = rw (rows, logs) refl

  guarded-verdict :
      (t : Trigger) (e : TriggerEvent) (u : Option ℕ) (db : Db) (v : Verdict)
      → (guarded w uuid now t e u db).1 ≡ some v
      → (v.trigger ≡ t.name)
        × ((v.status ≡ "nudged") ⊎ (v.status ≡ "queued") ⊎ (rate_limited t now db ≡ false))
  unfolding guarded start
  guarded-verdict t e u db v h = ground arith

  judge-verdict :
      (t : Trigger) (e : TriggerEvent) (db : Db) (v : Verdict)
      → (judge w uuid now t e db).1 ≡ some v
      → (v.trigger ≡ t.name)
        × ((v.status ≡ "failed")
            ⊎ (v.status ≡ "nudged")
            ⊎ (v.status ≡ "queued")
            ⊎ (rate_limited t now db ≡ false))
  unfolding judge
  judge-verdict t e db v h = elim (Option-cases (w.handler e.event_type)) [
    | inl (handle, p) ↦ ground (arith, guarded-verdict t e none db v)
    | inr p ↦ elim (Option-cases (resolve_owner w uuid now t e)) [
      | inl (u, q) ↦ ground (arith, guarded-verdict t e (some u) db v)
      | inr q ↦ ground arith
    ]
  ]

  -- A verdict is the trigger's own, and says that it started only when the trigger was below its cap.
  verdict-judge :
      (t : Trigger) (e : TriggerEvent) (db : Db) (v : Verdict)
      → (judge w uuid now t e db).1 ≡ some v
      → (v.trigger ≡ t.name) × ((str_eq v.status "started" ≡ true) → rate_limited t now db ≡ false)
  verdict-judge t e db v h = elim ((judge-verdict t e db v h).1) [
    | inl p ↦
        ((judge-verdict t e db v h).0, λ q. absurd (ground (arith, not_started v.status (inl p))))
    | inr (inl p) ↦ (
      (judge-verdict t e db v h).0,
      λ q. absurd (ground (arith, not_started v.status (inr (inl p)))),
    )
    | inr (inr (inl p)) ↦ (
      (judge-verdict t e db v h).0,
      λ q. absurd (ground (arith, not_started v.status (inr (inr p)))),
    )
    | inr (inr (inr free)) ↦ ((judge-verdict t e db v h).0, λ q. free)
  ]

  judge_all-some :
      (t : Trigger) (ts : List Trigger) (e : TriggerEvent) (db : Db) (vs : List Verdict)
      → (judge_all w uuid now (t ∷ ts) e db).1 ≡ some vs
      → (v : Verdict) × (rest : List Verdict) × ((judge w uuid now t e db).1 ≡ some v)
        × ((judge_all w uuid now ts e (judge w uuid now t e db).0).1 ≡ some rest)
        × (v ∷ rest ≡ vs)
  unfolding judge_all
  judge_all-some t ts e db vs h = elim (Option-cases (judge w uuid now t e db).1) [
    | inr raised ↦ absurd (ground arith)
    | inl (v, one) ↦ elim (Option-cases (judge_all w uuid now ts e (judge w uuid now t e db).0).1) [
      | inr raised ↦ absurd (ground arith)
      | inl (rest, others) ↦ (v, rest, one, others, ground arith)
    ]
  ]

  -- The trigger has the name, and is below its cap.
  abbrev pub Below : String → Db → Trigger → Type 0
  Below name db t = (str_eq t.name name ≡ true) × (rate_limited t now db ≡ false)

  Below-judge :
      (name : String) (t : Trigger) (e : TriggerEvent) (db : Db) (ts : List Trigger)
      → Some (Below name (judge w uuid now t e db).0) ts
      → Some (Below name db) ts
  Below-judge name t e db ts s =
      Some-imp ts
        (λ u q. (q.0, sym (rate-same u db (judge w uuid now t e db).0 (rows-judge t e db)) ∙ q.1)) s

  -- At most one started verdict for each trigger of the name, and only if one of them is below its cap.
  pub judge_all-verdicts :
      (name : String) (ts : List Trigger) (e : TriggerEvent) (db : Db) (vs : List Verdict)
      → (judge_all w uuid now ts e db).1 ≡ some vs
      → (started_verdicts name vs ≤ named name ts)
        × ((started_verdicts name vs ≡ 0) ⊎ Some (Below name db) ts)
  unfolding judge_all
  judge_all-verdicts name [] e db vs h = ground arith
  judge_all-verdicts name (t ∷ ts) e db vs h =
      let next = (judge w uuid now t e db).0 in
      let (v, rest, one, all_rest, made) = judge_all-some t ts e db vs h in
      let (few, why) = judge_all-verdicts name ts e next rest all_rest in
      let (own, free) = verdict-judge t e db v one in
      let size : started_verdicts name vs ≡ started_verdicts name (v ∷ rest) =
        ap (started_verdicts name) (sym made) in
      elim (Bool-cases (str_eq v.trigger name && str_eq v.status "started")) [
        | inl counted ↦
            let mine : str_eq t.name name ≡ true =
              subst (λ n. str_eq n name ≡ true) own (ground arith) in
            (ground arith, inr (inl (mine, free (ground arith))))
        | inr other ↦ (
          ground arith,
          elim why [
            | inl zero_rest ↦ inl (ground arith)
            | inr below ↦ inr (inr (Below-judge name t e db ts below))
          ],
        )
      ]

  pub rows-judge_all :
      (ts : List Trigger) (e : TriggerEvent) (db : Db)
      → (judge_all w uuid now ts e db).0.verdict_rows ≡ db.verdict_rows
  unfolding judge_all
  rows-judge_all [] e db = refl
  rows-judge_all (t ∷ ts) e db =
      ground (arith, rows-judge t e db, rows-judge_all ts e (judge w uuid now t e db).0)

-- A change of a log that keeps its id and its time keeps what is counted.
pub count-set_log :
    (name : String) (since id : ℕ) (change : Log → Log) (logs : List Log) (rows : List VerdictRow)
    → ((l : Log) → ((change l).id ≡ l.id) × ((change l).received_at ≡ l.received_at))
    → count (is_counted name since (set_log id change logs)) rows
      ≡ count (is_counted name since logs) rows
unfolding is_counted
count-set_log name since id change logs rows h =
    count-same (is_counted name since (set_log id change logs)) (is_counted name since logs) rows
      (λ r. rw (received_since-set_log since id r.log_id change logs h) refl)

-- Writing verdicts adds at most the rows that say started.
pub count-written :
    (name : String) (since id : ℕ) (logs : List Log) (vs : List Verdict) (rows : List VerdictRow)
    → count (is_counted name since logs) (persist_verdicts id vs rows)
      ≤ count (is_counted name since logs) rows + started_verdicts name vs
unfolding persist_verdicts
count-written name since id logs vs rows = ground (
  arith,
  count-append (is_counted name since logs) (filter (λ r. not (r.log_id == id)) rows) (
      map
        (λ v. record {
          log_id = id;
          trigger_name = v.trigger;
          status = v.status;
          run_id = v.run_id;
        })
        vs),
  count-filter (is_counted name since logs) (λ r. not (r.log_id == id)) rows,
  count-persist name since id logs vs,
)
