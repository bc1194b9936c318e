-- ===== src/Launch/Failed.antt =====
-- What the failure path of an execution leaves of the run and its threads.
use z_agent.Base.{not, ◌&&◌, ◌⊎◌, eq_iff}
use z_agent.Base.{
  ℕ, String, ◌≡◌, refl, sym, ap, ◌∙◌, inl, inr, Bool, true, false, ◌||◌, Option, none, some, List,
  [], ◌∷◌, arith, str_eq, if◌then◌else◌, Bool-cases, elem, eq_self,
}
use z_agent.Base.Dict
use z_agent.Base.Dict.{Dict, get-put}
use z_agent.Contracts.{failed}
use z_agent.Run.{is_terminal}
use z_agent.Threads.{
  Thread, RunRow, World, Services, call, note, edit_thread, terminal_statuses, mark,
}
use z_agent.Threads.Cleanup.{on_row, edit_row-get}
use z_agent.Threads.Marks.{stamp}
use z_agent.Controls.{
  is_live, live_statuses, ids_where, stop_thread_container, resolve_pending_approvals, move,
}
use z_agent.Controls.Rows.{view, cleanup-view, run_of, sans_cost, ids_where-elem, cleanup-run}
use z_agent.Controls.Stopped.{is_going, same_view}
use z_agent.Launch.Failures.{
  fail_row, fail_run, stage_is_failed, announce_failure, fail_one, fail_threads, fail_execution,
}

mark-view :
    (s : Services) (now : ℕ) (id j : String) (w : World)
    → view (Dict.get j (mark s now id "failed" w).threads)
      ≡ view (on_row (str_eq id j) (stamp "failed") (Dict.get j w.threads))
unfolding mark terminal_statuses
mark-view s now id j w =
    let w' : World = edit_thread id (stamp "failed") w in
    cleanup-view s now id j w' ∙ ap view (edit_row-get id j (stamp "failed") w.threads)

mark-run :
    (s : Services) (now : ℕ) (id j : String) (w : World)
    → run_of (Dict.get j (mark s now id "failed" w).runs) ≡ run_of (Dict.get j w.runs)
unfolding mark terminal_statuses
mark-run s now id j w = cleanup-run s now id j (edit_thread id (stamp "failed") w)

fail_one-run :
    (s : Services) (now : ℕ) (run_id id j : String) (raises : Bool) (w : World)
    → run_of (Dict.get j (fail_one s now run_id id raises w).runs) ≡ run_of (Dict.get j w.runs)
fail_one-run s now run_id id j true w = refl
fail_one-run s now run_id id j false w = mark-run s now id j (stop_thread_container s id w)

fail_threads-run :
    (s : Services) (now : ℕ) (run_id : String) (ids : List String) (j : String) (w : World)
    → run_of (Dict.get j (fail_threads s now run_id ids w).runs) ≡ run_of (Dict.get j w.runs)
fail_threads-run s now run_id [] j w = refl
fail_threads-run s now run_id (id ∷ ids) j w =
    fail_threads-run s now run_id ids j (fail_one s now run_id id (s.stop_raises id) w)
    ∙ fail_one-run s now run_id id j (s.stop_raises id) w

view-skip : (o : Option Thread) → view o ≡ view (on_row false (stamp "failed") o)
view-skip none = refl
view-skip (some t) = refl

-- Rows that look alike look alike when they are stamped.
view-stamp :
    (b : Bool) (o o' : Option Thread)
    → view o ≡ view o'
    → view (on_row b (stamp "failed") o) ≡ view (on_row b (stamp "failed") o')
view-stamp b none none h = refl
view-stamp b none (some u) h = absurd (ground arith)
view-stamp b (some t) none h = absurd (ground arith)
view-stamp false (some t) (some u) h = h
view-stamp true (some t) (some u) h = ap (λ r. some ("failed", r)) (same_view t u h).1

view-twice :
    (b c : Bool) (o : Option Thread)
    → view (on_row b (stamp "failed") (on_row c (stamp "failed") o))
      ≡ view (on_row (c || b) (stamp "failed") o)
view-twice b c none = refl
view-twice true true (some t) = refl
view-twice true false (some t) = refl
view-twice false true (some t) = refl
view-twice false false (some t) = refl

fail_one-view :
    (s : Services) (now : ℕ) (run_id id j : String) (raises : Bool) (w : World)
    → view (Dict.get j (fail_one s now run_id id raises w).threads)
      ≡ view (on_row (str_eq id j && not raises) (stamp "failed") (Dict.get j w.threads))
fail_one-view s now run_id id j true w = elim (Bool-cases (str_eq id j)) [
  | inl here ↦ rw here (view-skip (Dict.get j w.threads))
  | inr other ↦ rw other (view-skip (Dict.get j w.threads))
]
fail_one-view s now run_id id j false w = elim (Bool-cases (str_eq id j)) [
  | inl here ↦
      mark-view s now id j (stop_thread_container s id w)
      ∙ ap (λ b. view (on_row b (stamp "failed") (Dict.get j w.threads))) (rw here refl)
  | inr other ↦
      mark-view s now id j (stop_thread_container s id w)
      ∙ ap (λ b. view (on_row b (stamp "failed") (Dict.get j w.threads))) (rw other refl)
]

-- The threads whose stop did not raise.
stopped_of :
    (s : Services) (id j : String) (ids : List String)
    → ((str_eq id j && not (s.stop_raises id)) || (elem j ids && not (s.stop_raises j)))
      ≡ (elem j (id ∷ ids) && not (s.stop_raises j))
stopped_of s id j ids = elim (Bool-cases (str_eq id j)) [
  | inl here ↦
      rw (← (eq_iff id j).0 here, eq_self id)
        (elim (Bool-cases (s.stop_raises id)) [
          | inl yes_ ↦ rw yes_ (ground arith)
          | inr no_ ↦ rw no_ (ground arith)
        ])
  | inr other ↦ rw other refl
]

-- The row of a thread that is failed, and of one that is not.
pub fail_threads-view :
    (s : Services) (now : ℕ) (run_id : String) (ids : List String) (j : String) (w : World)
    → view (Dict.get j (fail_threads s now run_id ids w).threads)
      ≡ view (on_row (elem j ids && not (s.stop_raises j)) (stamp "failed") (Dict.get j w.threads))
fail_threads-view s now run_id [] j w = view-skip (Dict.get j w.threads)
fail_threads-view s now run_id (id ∷ ids) j w =
    let w' : World = fail_one s now run_id id (s.stop_raises id) w in
    let b : Bool = str_eq id j && not (s.stop_raises id) in
    let c : Bool = elem j ids && not (s.stop_raises j) in
    fail_threads-view s now run_id ids j w'
    ∙ (view-stamp c (Dict.get j w'.threads) (on_row b (stamp "failed") (Dict.get j w.threads))
          (fail_one-view s now run_id id j (s.stop_raises id) w)
        ∙ (view-twice c b (Dict.get j w.threads)
            ∙ ap (λ x. view (on_row x (stamp "failed") (Dict.get j w.threads)))
                (stopped_of s id j ids)))

-- After it, a thread of the run that is going is one whose stop raised.
failed-dead :
    (s : Services) (run_id : String) (ids : List String) (d : Dict Thread) (j : String)
    (o : Option Thread) (t : Thread)
    → ids ≡ ids_where is_live run_id d
    → Dict.get j d ≡ o
    → view (some t) ≡ view (on_row (elem j ids && not (s.stop_raises j)) (stamp "failed") o)
    → str_eq t.run_id run_id ≡ true
    → (is_going t ≡ false) ⊎ (s.stop_raises j ≡ true)
unfolding is_live live_statuses
failed-dead s run_id ids d j none t all_live found h mine = absurd (ground arith)
failed-dead s run_id ids d j (some u) t all_live found h mine =
    elim (Bool-cases (s.stop_raises j)) [
      | inl raises ↦ inr raises
      | inr stops ↦ elim (Bool-cases (elem j ids)) [
        | inl there ↦
            let same = same_view t (stamp "failed" u) (h ∙ rw (there, stops) refl) in
            inl (ap (λ x. elem x live_statuses) same.0)
        | inr absent ↦
            let same = same_view t u (h ∙ rw absent refl) in
            elim (Bool-cases (is_live u)) [
              | inr dead ↦ inl (ap (λ x. elem x live_statuses) same.0 ∙ dead)
              | inl live ↦
                  let mine' : str_eq u.run_id run_id ≡ true =
                    ap (λ r. str_eq r run_id) (sym same.1) ∙ mine in
                  let there' : elem j ids ≡ true =
                    ap (elem j) all_live
                    ∙ ids_where-elem is_live run_id j u d found (rw (mine', live) refl) in
                  absurd (ground (arith, there', absent))
            ]
      ]
    ]

announce-tables :
    (now : ℕ) (run_id : String) (b : Bool) (w : World)
    → ((announce_failure now run_id b w).threads ≡ w.threads)
      × ((announce_failure now run_id b w).runs ≡ w.runs)
unfolding resolve_pending_approvals
announce-tables now run_id false w = (refl, refl)
announce-tables now run_id true w = (refl, refl)

-- The row of a run after its failure, but for its cost.
abbrev pub failed_row : ℕ → String → RunRow → RunRow
failed_row now reason r =
    if is_terminal r.run.stage
    then sans_cost r
    else sans_cost (record (move failed r) { finished_at = some now; failure_reason = some reason })

failed_row-run :
    (now : ℕ) (reason : String) (r : RunRow)
    → some (sans_cost (fail_row now reason r)) ≡ some (failed_row now reason r)
unfolding fail_row
failed_row-run now reason r = elim (Bool-cases (is_terminal r.run.stage)) [
  | inl over ↦ rw over refl
  | inr going ↦ rw going refl
]

pub fail_run-run :
    (now : ℕ) (run_id reason : String) (w : World) (r : RunRow)
    → Dict.get run_id w.runs ≡ some r
    → run_of (Dict.get run_id (fail_run now run_id reason w).runs) ≡ some (failed_row now reason r)
fail_run-run now run_id reason w r found =
    let row = fail_row now reason r in
    let runs : (fail_run now run_id reason w).runs ≡ Dict.put run_id row w.runs =
      rw (found, fail_run) refl in
    ap (λ d. run_of (Dict.get run_id d)) runs
    ∙ (ap run_of (get-put run_id run_id row w.runs)
        ∙ (ap (λ b. run_of (if b then some row else Dict.get run_id w.runs)) (eq_self run_id)
            ∙ failed_row-run now reason r))

-- A thread of the run that is still going is one whose stop raised.
abbrev pub IsFailed : Services → String → World → Type 0
IsFailed s run_id w =
    (j : String) (t : Thread)
    → Dict.get j w.threads ≡ some t
    → str_eq t.run_id run_id ≡ true
    → (is_going t ≡ false) ⊎ (s.stop_raises j ≡ true)

pub fail_execution-IsFailed :
    (s : Services) (now : ℕ) (run_id reason : String) (w : World) (r : RunRow)
    → Dict.get run_id w.runs ≡ some r
    → let after = fail_execution s now run_id reason w in
      IsFailed s run_id after
      × (run_of (Dict.get run_id after.runs) ≡ some (failed_row now reason r))
unfolding fail_execution
fail_execution-IsFailed s now run_id reason w r found =
    let stamped : World = fail_run now run_id reason (call (note run_id reason) w) in
    let b = stage_is_failed (Dict.get run_id stamped.runs) in
    let told = announce_failure now run_id b stamped in
    let ids = ids_where is_live run_id told.threads in
    (
      λ j t row mine.
          failed-dead s run_id ids told.threads j (Dict.get j told.threads) t refl refl
            (ap view (sym row) ∙ fail_threads-view s now run_id ids j told) mine,
      fail_threads-run s now run_id ids run_id told
          ∙ (ap (λ d. run_of (Dict.get run_id d)) (announce-tables now run_id b stamped).1
              ∙ fail_run-run now run_id reason (call (note run_id reason) w) r found),
    )
