-- ===== src/Triggers/Dispatch/Queue.antt =====
-- The queue of rate-limited events and what a drain of it counts against the hourly cap.
use z_agent.Base.{
  ℕ, zero, suc, ◌≤◌, String, ◌≡◌, refl, ap, ◌∙◌, ◌⊎◌, inl, inr, Bool, false, Option, some, List, [],
  ◌∷◌, arith, str_eq, Option-cases, length, filter, take,
}
use z_agent.Triggers.{Log, Db, World, count_started, create_run, set_log}
use z_agent.Triggers.Dispatch.{drain_one, drain_all, drain_queued}
use z_agent.Triggers.Dispatch.Rate.{count-set_log}

take_bound : {A : Type 0} (n : ℕ) (xs : List A) → length (take n xs) ≤ n
take_bound zero xs = omega arith
take_bound (suc n) [] = omega arith
take_bound (suc n) (x ∷ xs) = omega (arith, take_bound n xs)

module _ (w : World) (fresh : ℕ → String) (now : ℕ) where
  rows-create_run :
      (id : String) (owner : Option ℕ) (mode external_id : String) (db db' : Db)
      → create_run w id owner mode external_id db ≡ some db'
      → (db'.verdict_rows ≡ db.verdict_rows) × (db'.logs ≡ db.logs)
  unfolding create_run
  rows-create_run id owner mode external_id db db' h = ground arith

  -- An event of the queue is kept, or its log says that it is matched and has a run.
  drain_one-cases :
      (l : Log) (db db' : Db) (flag : Bool)
      → drain_one w fresh now l db ≡ some (db', flag)
      → ((db' ≡ db) × (flag ≡ false))
        ⊎ ((db'.verdict_rows ≡ db.verdict_rows)
            × (db'.logs
                ≡ set_log l.id
                    (λ k. record k { status = "matched"; run_id = some (fresh l.id) })
                    db.logs))
  unfolding drain_one create_run
  drain_one-cases l db db' flag h = ground arith

  count_started-drain_one :
      (name : String) (since : ℕ) (l : Log) (db db' : Db) (flag : Bool)
      → drain_one w fresh now l db ≡ some (db', flag)
      → count_started name since db' ≡ count_started name since db
  unfolding count_started
  count_started-drain_one name since l db db' flag h = elim (drain_one-cases l db db' flag h) [
    | inl (same, _) ↦ ap (count_started name since) same
    | inr (rows, logs) ↦
        rw (rows, logs)
          (count-set_log name since l.id
            (λ k. record k { status = "matched"; run_id = some (fresh l.id) }) db.logs
            db.verdict_rows (λ k. (refl, refl)))
  ]

  drain_all-cons :
      (l : Log) (ls : List Log) (db db' : Db) (n : ℕ)
      → drain_all w fresh now (l ∷ ls) db ≡ some (db', n)
      → (mid : Db) × (flag : Bool) × (m : ℕ) × (drain_one w fresh now l db ≡ some (mid, flag))
        × (drain_all w fresh now ls mid ≡ some (db', m))
        × (n ≤ suc m)
  unfolding drain_all
  drain_all-cons l ls db db' n h = elim (Option-cases (drain_one w fresh now l db)) [
    | inr raised ↦ absurd (ground arith)
    | inl ((mid, flag), one) ↦ elim (Option-cases (drain_all w fresh now ls mid)) [
      | inr raised ↦ absurd (ground arith)
      | inl ((out, m), rest) ↦ (mid, flag, m, one, ground arith, ground arith)
    ]
  ]

  count_started-drain_all :
      (name : String) (since : ℕ) (ls : List Log) (db db' : Db) (n : ℕ)
      → drain_all w fresh now ls db ≡ some (db', n)
      → (count_started name since db' ≡ count_started name since db) × (n ≤ length ls)
  unfolding drain_all
  count_started-drain_all name since [] db db' n h = ground arith
  count_started-drain_all name since (l ∷ ls) db db' n h =
      let (mid, flag, m, one, rest, few) = drain_all-cons l ls db db' n h in
      let (same, short) = count_started-drain_all name since ls mid db' m rest in
      (same ∙ count_started-drain_one name since l db mid flag one, omega arith)

  -- A drain starts at most as many events as its limit, and what it starts does not count against the hourly
  -- cap of any trigger: the number of starts of a name is the same afterwards, whatever the drain started.
  pub count_started-drain_queued :
      (name : String) (since limit : ℕ) (db db' : Db) (n : ℕ)
      → drain_queued w fresh now limit db ≡ some (db', n)
      → (count_started name since db' ≡ count_started name since db) × (n ≤ limit)
  unfolding drain_queued
  count_started-drain_queued name since limit db db' n h =
      let queue = filter (λ l. str_eq l.status "queued") db.logs in
      let (same, short) = count_started-drain_all name since (take limit queue) db db' n h in
      (same, omega (arith, take_bound limit queue))
