-- ===== src/Launch/Again.antt =====
-- A request that is repeated under its key gives the same run, and changes nothing.
use z_agent.Base.{
  ℕ, String, ◌≡◌, refl, sym, ap, ◌∙◌, inl, inr, true, not, ◌&&◌, Option, none, some, ◌++◌, arith,
  Bool-cases, Option-cases, is_some, head?, eq_self, Result, ok, raise,
}
use mathlib.Core.Path.{subst}
use z_agent.Base.Dict
use z_agent.Base.Dict.{Dict}
use z_agent.Contracts.{queued}
use z_agent.Threads.{RunRow, World, Services, present}
use z_agent.Controls.{move}
use z_agent.Launch.{LaunchError, Mode, Composer, Order, key_is, run_with_key, new_run, enabled_mode}
use z_agent.Launch.Create.{
  check_order, collision, begin_run, insert_run, existing_run, open_run, create_run,
}
use z_agent.Launch.Once.{has, moved-user, run_with_key-put}

-- If there is an answer, the table's run with the key is that one.
abbrev IsFound : ℕ → String → World → Result LaunchError String → Type 0
IsFound user k w (raise e) = Unit
IsFound user k w (ok id) = run_with_key user k w.runs ≡ some id

present_self : (o : Option String) (k : String) → present o ≡ some k → o ≡ some k
present_self none k h = absurd (ground arith)
present_self (some j) k h = ground arith

module _ (s : Services) (c : Composer) (now : ℕ) (o : Order) (k : String)
    (keyed : present o.idempotency_key ≡ some k) where
  collision-key : (runs : Dict RunRow) → collision o runs ≡ run_with_key o.initiated_by k runs
  unfolding collision
  collision-key runs = rw (present_self o.idempotency_key k keyed, collision) refl

  existing-key : (runs : Dict RunRow) → existing_run o runs ≡ run_with_key o.initiated_by k runs
  unfolding existing_run
  existing-key runs = rw (keyed, existing_run) refl

  begin_run-IsFound :
      (r : RunRow) (w : World)
      → run_with_key o.initiated_by k w.runs ≡ some c.new_run_id
      → let (w', answer) = begin_run s c now o r w in IsFound o.initiated_by k w' answer
  unfolding begin_run
  begin_run-IsFound r w h = elim (Bool-cases (is_some (head? o.images) && not c.images_prepared)) [
    | inr prepared ↦ rw (prepared, begin_run) h
    | inl lost ↦ rw (lost, begin_run) tt
  ]

  insert_run-IsFound :
      (r : RunRow) (w : World)
      → has o.initiated_by k r ≡ true
      → let (w', answer) = insert_run s c now o r w in IsFound o.initiated_by k w' answer
  unfolding insert_run
  insert_run-IsFound r w mine =
      let w' : World = record w { runs = w.runs ++ c.raced } in
      elim (Option-cases (collision o (w.runs ++ c.raced))) [
        | inl (other, found) ↦
            rw (found, insert_run)
              (rw (keyed, insert_run) (sym (collision-key (w.runs ++ c.raced)) ∙ found))
        | inr free ↦
            rw (free, insert_run)
              (begin_run-IsFound r (record w' { runs = Dict.put c.new_run_id r w'.runs })
                (run_with_key-put o.initiated_by k c.new_run_id r w'.runs
                  (sym (collision-key w'.runs) ∙ free) mine))
      ]

  new_run-has :
      (mode : Mode) (task : String)
      → has o.initiated_by k (move queued (new_run c o mode task)) ≡ true
  unfolding new_run
  new_run-has mode task =
      let key : key_is k o.idempotency_key ≡ true =
        ap (key_is k) (present_self o.idempotency_key k keyed) ∙ eq_self k in
      rw (moved-user queued (new_run c o mode task)) (ground (arith, key))

  open_run-IsFound :
      (w : World) (a : Result LaunchError String)
      → let (w', answer) = open_run s c now o w a in IsFound o.initiated_by k w' answer
  open_run-IsFound w (raise e) = tt
  open_run-IsFound w (ok task) = elim (Option-cases (existing_run o w.runs)) [
    | inl (id, found) ↦ rw (found, open_run) (sym (existing-key w.runs) ∙ found)
    | inr fresh ↦ elim (Option-cases (enabled_mode o.mode_name c.modes)) [
      | inr off ↦ rw (fresh, open_run) (rw (off, open_run) tt)
      | inl (mode, enabled) ↦
          rw (fresh, open_run)
            (rw (enabled, open_run)
              (insert_run-IsFound (move queued (new_run c o mode task)) w (new_run-has mode task)))
    ]
  ]

-- A request with a key that is not empty, answered with a run, is answered with the same run when it is sent
-- again, if its checks pass then, and nothing changes: no second row, no call.
pub create_run-again :
    (s s' : Services) (c c' : Composer) (now now' : ℕ) (o : Order) (w w' : World)
    (k id task : String)
    → present o.idempotency_key ≡ some k
    → create_run s c now o w ≡ (w', ok id)
    → check_order s' c' o ≡ ok task
    → create_run s' c' now' o w' ≡ (w', ok id)
unfolding create_run
create_run-again s s' c c' now now' o w w' k id task keyed first checks =
    let there : run_with_key o.initiated_by k w'.runs ≡ some id =
      subst (λ p. IsFound o.initiated_by k p.0 p.1) first
        (open_run-IsFound s c now o k keyed w (check_order s c o)) in
    let found : existing_run o w'.runs ≡ some id = existing-key s c now o k keyed w'.runs ∙ there in
    rw (checks, create_run) (rw (found, open_run) refl)
