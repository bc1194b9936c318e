-- ===== src/Controls/Turns.antt =====
-- One turn of the loop of `reconcile_on_boot`: it gives its run the fate that the tables before tell, and leaves
-- the other runs theirs.
use z_agent.Base.{
  ℕ, String, ◌≡◌, refl, sym, ap, ◌∙◌, ◌⊎◌, inl, inr, true, false, not, ◌&&◌, Option, none, some, [],
  ◌∷◌, arith, str_eq, eq_iff, if◌then◌else◌, Bool-cases, Option-cases,
}
use mathlib.Core.Path.{subst}
use z_agent.Base.Dict
use z_agent.Base.Dict.{Dict, get-put}
use z_agent.Contracts.{interrupted}
use z_agent.Run.{Run, transition}
use z_agent.Heartbeats.{to_stage, is_working}
use z_agent.Threads.{Thread, RunRow, World, Services}
use z_agent.Controls.{is_live, edit_where, end_thread, move}
use z_agent.Controls.Reconcile.{sign_of_life, sweep_run, look}
use z_agent.Controls.Rows.{run_of, sans_cost}

-- What a run should be after the sweep, from the tables before it.
unfoldable pub fate : Services → ℕ → String → Dict Thread → Option RunRow → Option RunRow
fate s now run_id threads none = none
fate s now run_id threads (some r) = some (
    if is_working r.run.stage && not (sign_of_life s now run_id threads)
    then sans_cost (move interrupted r)
    else sans_cost r)

-- The threads of another run are no sign of life.
life-other :
    (s : Services) (now : ℕ) (id r : String) (d : Dict Thread)
    → str_eq id r ≡ false
    → sign_of_life s now r (edit_where is_live id (end_thread now "stopped") d)
      ≡ sign_of_life s now r d
unfolding sign_of_life edit_where
life-other s now id r [] other = refl
life-other s now id r ((j, t) ∷ d) other = elim (Bool-cases (str_eq t.run_id id && is_live t)) [
  | inr kept ↦ rw (kept, edit_where) (rw (life-other s now id r d other) refl)
  | inl ended ↦
      let mine : str_eq t.run_id r ≡ false =
        ground (arith, ended, eq_iff t.run_id id, eq_iff t.run_id r, eq_iff id r) in
      rw (ended, mine) (life-other s now id r d other)
]

-- A run that was working is not once it is interrupted.
moved-idle :
    (run : Run) → is_working run.stage ≡ true → is_working (to_stage interrupted run).stage ≡ false
unfolding is_working transition
moved-idle run h = ground arith

-- One turn: nothing of the tables changes and this run has its fate, or it is swept.
abbrev pub Turn : Services → ℕ → String → World → World → Type 0
Turn s now id w w' =
    ((w'.threads ≡ w.threads)
      × (w'.runs ≡ w.runs)
      × (fate s now id w.threads (Dict.get id w.runs) ≡ run_of (Dict.get id w.runs)))
    ⊎ ((r : RunRow) × (Dict.get id w.runs ≡ some r)
        × (is_working r.run.stage ≡ true)
        × (sign_of_life s now id w.threads ≡ false)
        × (w'.threads ≡ edit_where is_live id (end_thread now "stopped") w.threads)
        × (w'.runs ≡ Dict.put id (move interrupted r) w.runs))

look-sweeps :
    (s : Services) (now : ℕ) (id : String) (w : World) (r : RunRow)
    → Dict.get id w.runs ≡ some r
    → is_working r.run.stage ≡ true
    → sign_of_life s now id w.threads ≡ false
    → (look s now id w).0 ≡ sweep_run s now id r w
unfolding look
look-sweeps s now id w r found working dead =
    rw (found, look) (rw (working, look) (rw (dead, look) refl))

pub look-Turn :
    (s : Services) (now : ℕ) (id : String) (w : World) → Turn s now id w (look s now id w).0
unfolding look sweep_run fate
look-Turn s now id w = elim (Option-cases (Dict.get id w.runs)) [
  | inr missing ↦ inl (rw (missing, look) (refl, refl, refl))
  | inl (r, found) ↦ elim (Bool-cases (is_working r.run.stage)) [
    | inr idle ↦ inl (rw (found, look, fate) (rw (idle, look) (refl, refl, refl)))
    | inl working ↦ elim (Bool-cases (sign_of_life s now id w.threads)) [
      | inl alive ↦
          inl (rw (found, look, fate) (rw (working, look) (rw (alive, look) (refl, refl, refl))))
      | inr dead ↦
          let out = look-sweeps s now id w r found working dead in
          inr (r, found, working, dead, ap (λ v. v.threads) out, ap (λ v. v.runs) out)
    ]
  ]
]

module _ (s : Services) (now : ℕ) where
  abbrev pub fate_in : String → World → Option RunRow
  fate_in r w = fate s now r w.threads (Dict.get r w.runs)

  -- The run has its fate already.
  abbrev pub IsDone : String → World → Type 0
  IsDone r w = fate_in r w ≡ run_of (Dict.get r w.runs)

  same_tables :
      (r : String) (w w' : World)
      → w'.threads ≡ w.threads
      → w'.runs ≡ w.runs
      → fate_in r w' ≡ fate_in r w
  same_tables r w w' threads runs =
      ap (λ d. fate s now r d (Dict.get r w'.runs)) threads
      ∙ ap (λ d. fate s now r w.threads (Dict.get r d)) runs

  -- The row of the swept run, and of another one.
  swept-row :
      (id r : String) (w w' : World) (row : RunRow)
      → w'.runs ≡ Dict.put id (move interrupted row) w.runs
      → Dict.get r w'.runs
        ≡ (if str_eq id r then some (move interrupted row) else Dict.get r w.runs)
  swept-row id r w w' row runs = ap (Dict.get r) runs ∙ get-put id r (move interrupted row) w.runs

  fate-idle :
      (r : String) (threads : Dict Thread) (row : RunRow)
      → is_working row.run.stage ≡ false
      → fate s now r threads (some row) ≡ some (sans_cost row)
  unfolding fate
  fate-idle r threads row idle = rw idle refl

  fate-dead :
      (r : String) (threads : Dict Thread) (row : RunRow)
      → is_working row.run.stage ≡ true
      → sign_of_life s now r threads ≡ false
      → fate s now r threads (some row) ≡ some (sans_cost (move interrupted row))
  unfolding fate
  fate-dead r threads row working dead = rw (working, fate) (rw (dead, fate) refl)

  fate-life :
      (r : String) (d d' : Dict Thread) (o : Option RunRow)
      → sign_of_life s now r d' ≡ sign_of_life s now r d
      → fate s now r d' o ≡ fate s now r d o
  unfolding fate
  fate-life r d d' none same = refl
  fate-life r d d' (some row) same =
      ap
        (λ b. some (
          if is_working row.run.stage && not b
          then sans_cost (move interrupted row)
          else sans_cost row))
        same

  pub turn-IsDone :
      (id r : String) (w w' : World) → Turn s now id w w' → str_eq id r ≡ true → IsDone r w'
  turn-IsDone id r w w' (inl (threads, runs, done)) here =
      let done' : IsDone r w = subst (λ i. IsDone i w) ((eq_iff id r).0 here) done in
      same_tables r w w' threads runs ∙ (done' ∙ ap (λ d. run_of (Dict.get r d)) (sym runs))
  turn-IsDone id r w w' (inr (row, found, working, dead, threads, runs)) here =
      let now_row : Dict.get r w'.runs ≡ some (move interrupted row) =
        swept-row id r w w' row runs
        ∙ ap (λ b. if b then some (move interrupted row) else Dict.get r w.runs) here in
      ap (fate s now r w'.threads) now_row
      ∙ (fate-idle r w'.threads (move interrupted row) (moved-idle row.run working)
          ∙ ap run_of (sym now_row))

  pub turn-fate : (id r : String) (w w' : World) → Turn s now id w w' → fate_in r w' ≡ fate_in r w
  turn-fate id r w w' (inl (threads, runs, done)) = same_tables r w w' threads runs
  turn-fate id r w w' (inr (row, found, working, dead, threads, runs)) =
      let here_or = swept-row id r w w' row runs in
      elim (Bool-cases (str_eq id r)) [
        | inl here ↦
            let same : id ≡ r = (eq_iff id r).0 here in
            let now_row : Dict.get r w'.runs ≡ some (move interrupted row) =
              here_or
              ∙ ap (λ b. if b then some (move interrupted row) else Dict.get r w.runs) here in
            ap (fate s now r w'.threads) now_row
            ∙ (fate-idle r w'.threads (move interrupted row) (moved-idle row.run working)
                ∙ sym (
                    ap (fate s now r w.threads)
                      (subst (λ i. Dict.get i w.runs ≡ some row) same found)
                    ∙ fate-dead r w.threads row working
                        (subst (λ i. sign_of_life s now i w.threads ≡ false) same dead)))
        | inr other ↦
            ap (fate s now r w'.threads) (
              here_or
              ∙ ap (λ b. if b then some (move interrupted row) else Dict.get r w.runs) other)
            ∙ fate-life r w.threads w'.threads (Dict.get r w.runs)
                (ap (sign_of_life s now r) threads ∙ life-other s now id r w.threads other)
      ]

  pub turn-kept : (id r : String) (w w' : World) → Turn s now id w w' → IsDone r w → IsDone r w'
  turn-kept id r w w' turn done = elim (Bool-cases (str_eq id r)) [
    | inl here ↦ turn-IsDone id r w w' turn here
    | inr other ↦
        turn-fate id r w w' turn
        ∙ (done
            ∙ sym (elim turn [
              | inl (threads, runs, fated) ↦ ap (λ d. run_of (Dict.get r d)) runs
              | inr (row, found, working, dead, threads, runs) ↦ ap run_of (
                  swept-row id r w w' row runs
                  ∙ ap (λ b. if b then some (move interrupted row) else Dict.get r w.runs) other)
            ]))
  ]
