-- ===== src/Launch/Once.antt =====
-- A key names at most one run of a user, and asking again gives the same run.
use z_agent.Base.{
  ℕ, ◌+◌, ◌≤◌, String, ◌≡◌, refl, sym, ap, ◌∙◌, inl, inr, Bool, true, false, not, ◌&&◌, none, some,
  [], ◌∷◌, ◌++◌, arith, str_eq, eq_iff, ◌==◌, if◌then◌else◌, Bool-cases, Option-cases, is_some,
  head?, Result, ok, raise,
}
use z_agent.Base.Dict
use z_agent.Base.Dict.{Dict}
use z_agent.Contracts.{RunStage, queued, failed}
use z_agent.Run.{transition, is_terminal}
use z_agent.Threads.{RunRow, World, Services, present}
use z_agent.Controls.{move}
use z_agent.Launch.{LaunchError, Composer, Order, key_is, run_with_key, new_run, enabled_mode}
use z_agent.Launch.Failures.{fail_pre_execute, fail_run, fail_row}
use z_agent.Launch.Create.{
  check_order, collision, begin_run, insert_run, existing_run, open_run, create_run,
}

-- The row has the user and the key.
abbrev pub has : ℕ → String → RunRow → Bool
has user k r = (r.run.created_by == user) && key_is k r.idempotency_key

-- How many runs have the user and the key.
abbrev pub runs_with : ℕ → String → Dict RunRow → ℕ
runs_with user k = Dict.count_values (has user k)

pub run_with_key-put :
    (user : ℕ) (k id : String) (r : RunRow) (d : Dict RunRow)
    → run_with_key user k d ≡ none
    → has user k r ≡ true
    → run_with_key user k (Dict.put id r d) ≡ some id
unfolding run_with_key Dict.put
run_with_key-put user k id r [] h mine = rw mine refl
run_with_key-put user k id r ((j, t) ∷ d) h mine = elim (Bool-cases (str_eq j id)) [
  | inl same ↦ rw same (rw mine (ap some ((eq_iff j id).0 same)))
  | inr other ↦ rw other (elim (Bool-cases (has user k t)) [
    | inl theirs ↦ absurd (ground arith)
    | inr not_theirs ↦ rw not_theirs (run_with_key-put user k id r d (ground arith) mine)
  ])
]

runs_with-none :
    (user : ℕ) (k : String) (d : Dict RunRow)
    → run_with_key user k d ≡ none
    → runs_with user k d ≡ 0
unfolding run_with_key
runs_with-none user k [] h = refl
runs_with-none user k ((j, t) ∷ d) h = ground (arith, runs_with-none user k d)

runs_with-append :
    (user : ℕ) (k : String) (d e : Dict RunRow)
    → runs_with user k (d ++ e) ≡ runs_with user k d + runs_with user k e
runs_with-append user k [] e = omega arith
runs_with-append user k ((j, t) ∷ d) e = ground (arith, runs_with-append user k d e)

runs_with-put :
    (user : ℕ) (k id : String) (r : RunRow) (d : Dict RunRow)
    → runs_with user k (Dict.put id r d) ≤ runs_with user k d + (if has user k r then 1 else 0)
runs_with-put user k id r d = ground (arith, Dict.count_values-put (has user k) id r d)

-- No step of the state machine changes a run's user.
pub moved-user : (stage : RunStage) (r : RunRow) → (move stage r).run.created_by ≡ r.run.created_by
unfolding transition
moved-user stage r = elim (Bool-cases (is_terminal r.run.stage)) [
  | inl over ↦ rw over refl
  | inr going ↦ rw going refl
]

moved-has :
    (user : ℕ) (k : String) (stage : RunStage) (r : RunRow)
    → has user k (move stage r) ≡ has user k r
moved-has user k stage r = rw (moved-user stage r) refl

failed-has :
    (user : ℕ) (k : String) (now : ℕ) (reason : String) (r : RunRow)
    → has user k (fail_row now reason r) ≡ has user k r
unfolding fail_row
failed-has user k now reason r =
    let failed_row : RunRow = record (move failed r) {
      finished_at = some now;
      failure_reason = some reason;
    } in
    elim (Bool-cases (is_terminal r.run.stage)) [
      | inl over ↦ ap (λ b. has user k (if b then r else failed_row)) over
      | inr going ↦
          ap (λ b. has user k (if b then r else failed_row)) going ∙ moved-has user k failed r
    ]

fail_run-runs_with :
    (user : ℕ) (k : String) (now : ℕ) (id reason : String) (w : World)
    → runs_with user k (fail_run now id reason w).runs ≡ runs_with user k w.runs
fail_run-runs_with user k now id reason w = elim (Option-cases (Dict.get id w.runs)) [
  | inr missing ↦ rw (missing, fail_run) refl
  | inl (r, found) ↦
      let r' = fail_row now reason r in
      let runs : (fail_run now id reason w).runs ≡ Dict.put id r' w.runs =
        rw (found, fail_run) refl in
      let same = failed-has user k now reason r in
      ap (runs_with user k) runs
      ∙ ground (arith, Dict.count_values-put (has user k) id r' w.runs, found, same)
]

module _ (s : Services) (c : Composer) (now : ℕ) (o : Order) (user : ℕ) (k : String) where
  begin_run-runs_with :
      (r : RunRow) (w : World)
      → runs_with user k (begin_run s c now o r w).0.runs ≡ runs_with user k w.runs
  unfolding begin_run fail_pre_execute
  begin_run-runs_with r w = elim (Bool-cases (is_some (head? o.images) && not c.images_prepared)) [
    | inr prepared ↦ rw (prepared, begin_run) refl
    | inl lost ↦
        rw (lost, begin_run)
          (fail_run-runs_with user k now c.new_run_id "image preparation failed" w)
  ]

-- A run that collides with none has a user and a key that no row has.
collision-none :
    (o : Order) (runs : Dict RunRow) (user : ℕ) (k : String) (r : RunRow)
    → collision o runs ≡ none
    → r.run.created_by ≡ o.initiated_by
    → r.idempotency_key ≡ o.idempotency_key
    → has user k r ≡ true
    → runs_with user k runs ≡ 0
unfolding collision
collision-none o runs user k r free who which mine = elim (Option-cases o.idempotency_key) [
  | inr keyless ↦
      let no_key : key_is k r.idempotency_key ≡ false = ap (key_is k) (which ∙ keyless) in
      absurd (ground (arith, no_key, mine))
  | inl (j, keyed) ↦
      let mine' : ((r.run.created_by == user) && key_is k (some j)) ≡ true =
        ap (λ i. (r.run.created_by == user) && key_is k i) (sym (which ∙ keyed)) ∙ mine in
      let same_key : j ≡ k = (eq_iff j k).0 (ground (arith, mine')) in
      let same_user : r.run.created_by ≡ user = ground (arith, mine') in
      let looked : collision o runs ≡ run_with_key o.initiated_by j runs =
        rw (keyed, collision) refl in
      runs_with-none user k runs (
        ap (λ u. run_with_key u k runs) (sym same_user ∙ who)
        ∙ (ap (λ i. run_with_key o.initiated_by i runs) (sym same_key) ∙ (sym looked ∙ free)))
]

module _ (s : Services) (c : Composer) (now : ℕ) (o : Order) (user : ℕ) (k : String)
    (w : World) where
  insert_run_unique :
      (r : RunRow)
      → r.run.created_by ≡ o.initiated_by
      → r.idempotency_key ≡ o.idempotency_key
      → runs_with user k (w.runs ++ c.raced) ≤ 1
      → runs_with user k (insert_run s c now o r w).0.runs ≤ 1
  unfolding insert_run
  insert_run_unique r who which one =
      let w' : World = record w { runs = w.runs ++ c.raced } in
      elim (Option-cases (collision o (w.runs ++ c.raced))) [
        | inl (other, found) ↦ elim (Option-cases (present o.idempotency_key)) [
          | inr empty ↦ rw (found, insert_run) (rw (empty, insert_run) one)
          | inl (j, keyed) ↦ rw (found, insert_run) (rw (keyed, insert_run) one)
        ]
        | inr free ↦
            rw (free, insert_run)
              (rw
                (begin_run-runs_with s c now o user k r
                  (record w' { runs = Dict.put c.new_run_id r w'.runs }))
                (elim (Bool-cases (has user k r)) [
                  | inl mine ↦ ground (
                    arith,
                    runs_with-put user k c.new_run_id r (w.runs ++ c.raced),
                    collision-none o (w.runs ++ c.raced) user k r free who which mine,
                  )
                  | inr not_mine ↦
                      ground (arith, runs_with-put user k c.new_run_id r (w.runs ++ c.raced))
                ]))
      ]

  open_run_unique :
      (a : Result LaunchError String)
      → runs_with user k (w.runs ++ c.raced) ≤ 1
      → runs_with user k (open_run s c now o w a).0.runs ≤ 1
  unfolding new_run
  open_run_unique (raise e) one = omega (arith, runs_with-append user k w.runs c.raced)
  open_run_unique (ok task) one = elim (Option-cases (existing_run o w.runs)) [
    | inl (id, found) ↦ rw (found, open_run) (omega (arith, runs_with-append user k w.runs c.raced))
    | inr fresh ↦ elim (Option-cases (enabled_mode o.mode_name c.modes)) [
      | inr off ↦
          rw (fresh, open_run)
            (rw (off, open_run) (omega (arith, runs_with-append user k w.runs c.raced)))
      | inl (mode, enabled) ↦
          rw (fresh, open_run)
            (rw (enabled, open_run)
              (insert_run_unique (move queued (new_run c o mode task))
                (moved-user queued (new_run c o mode task)) refl one))
    ]
  ]

-- For every user and key: if at most one run has them, among the rows that were there and those that others
-- commit meanwhile, at most one has them after `create_run`, however it ends.
pub create_run_unique :
    (s : Services) (c : Composer) (now : ℕ) (o : Order) (w : World) (user : ℕ) (k : String)
    → runs_with user k (w.runs ++ c.raced) ≤ 1
    → runs_with user k (create_run s c now o w).0.runs ≤ 1
unfolding create_run
create_run_unique s c now o w user k one =
    open_run_unique s c now o user k w (check_order s c o) one
