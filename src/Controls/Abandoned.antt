-- ===== src/Controls/Abandoned.antt =====
-- What `abandon_run` leaves of a run and its threads, and when it shreds the workspace.
use z_agent.Base.{
  ℕ, String, ◌≡◌, refl, sym, ap, ◌∙◌, ◌⊎◌, inl, inr, Bool, true, false, ◌&&◌, Option, none, some,
  List, [], ◌∷◌, ◌++◌, arith, str_eq, if◌then◌else◌, Bool-cases, Option-cases, elem, eq_self,
}
use z_agent.Base.{Some}
use mathlib.Core.Path.{subst}
use z_agent.Base.Dict
use z_agent.Base.Dict.{Dict, get-put}
use z_agent.Contracts.{abandoned}
use z_agent.Run.{is_terminal}
use z_agent.Threads.{
  Thread, RunRow, World, Services, Call, kill, wait_for_container_exit, shred_workspace,
  unregister_run, run_stage, thread_status, present, is_over, terminal_statuses, call,
  cleanup_terminal,
}
use z_agent.Threads.Cleanup.{on_row}
use z_agent.Controls.{ids_where, edit_where, end_thread, resolve_pending_approvals, cancel, move}
use z_agent.Controls.Abandon.{
  anything, not_over, containers_of, kill_all, wait_all, clean_all, kill_run, abandon_run,
}
use z_agent.Controls.Rows.{
  where_row, edit_where-get, view, cleanup-view, run_of, sans_cost, ids_where-elem, cleanup-run,
  IsBare, cleanup-IsBare,
}
use z_agent.Controls.Calls.{Made, clean_all-Made, wait_all-Made, cancelled, append_two, announced}
use z_agent.Controls.Stopped.{NoPending, decide-NoPending, same_view}

-- The thread has reached one of its ends.
abbrev pub is_ended : Thread → Bool
is_ended t = elem t.status ("completed" ∷ "failed" ∷ "stopped" ∷ "replaced" ∷ [])

-- Every thread of the run is at an end, and holds no key.
abbrev pub IsEnded : String → World → Type 0
IsEnded run_id w =
    (j : String) (t : Thread)
    → Dict.get j w.threads ≡ some t
    → str_eq t.run_id run_id ≡ true
    → (is_ended t ≡ true) × (present t.gateway_key ≡ none)

-- The kills and the waits leave the tables.
kill_all-tables :
    (ids : List String) (w : World)
    → ((kill_all ids w).threads ≡ w.threads) × ((kill_all ids w).runs ≡ w.runs)
kill_all-tables [] w = (refl, refl)
kill_all-tables (id ∷ ids) w = kill_all-tables ids (call (kill id) w)

pub wait_all-tables :
    (s : Services) (cs : List String) (w : World)
    → ((wait_all s cs w).threads ≡ w.threads) × ((wait_all s cs w).runs ≡ w.runs)
wait_all-tables s [] w = (refl, refl)
wait_all-tables s (c ∷ cs) w =
    wait_all-tables s cs (call (wait_for_container_exit c (s.container_exits c)) w)

clean_all-view :
    (s : Services) (now : ℕ) (run_id : String) (ids : List String) (j : String) (w : World)
    → view (Dict.get j (clean_all s now run_id ids w).threads) ≡ view (Dict.get j w.threads)
clean_all-view s now run_id [] j w = refl
clean_all-view s now run_id (id ∷ ids) j w =
    clean_all-view s now run_id ids j
      (call (thread_status run_id id "stopped") (cleanup_terminal s now id w))
    ∙ cleanup-view s now id j w

clean_all-run :
    (s : Services) (now : ℕ) (run_id : String) (ids : List String) (j : String) (w : World)
    → run_of (Dict.get j (clean_all s now run_id ids w).runs) ≡ run_of (Dict.get j w.runs)
clean_all-run s now run_id [] j w = refl
clean_all-run s now run_id (id ∷ ids) j w =
    clean_all-run s now run_id ids j
      (call (thread_status run_id id "stopped") (cleanup_terminal s now id w))
    ∙ cleanup-run s now id j w

clean_all-IsBare :
    (s : Services) (now : ℕ) (run_id : String) (ids : List String) (j : String) (w : World)
    → IsBare (Dict.get j w.threads) ⊎ (elem j ids ≡ true)
    → IsBare (Dict.get j (clean_all s now run_id ids w).threads)
clean_all-IsBare s now run_id [] j w (inl h) = h
clean_all-IsBare s now run_id [] j w (inr h) = absurd (ground arith)
clean_all-IsBare s now run_id (id ∷ ids) j w h =
    let w' : World = call (thread_status run_id id "stopped") (cleanup_terminal s now id w) in
    clean_all-IsBare s now run_id ids j w' (elim h [
      | inl bare ↦ inl (cleanup-IsBare s now id j w (inl bare))
      | inr there ↦ elim (Bool-cases (str_eq id j)) [
        | inl here ↦ inl (cleanup-IsBare s now id j w (inr here))
        | inr other ↦ inr (ground arith)
      ]
    ])

kill_run-threads :
    (s : Services) (now : ℕ) (run_id : String) (r : RunRow) (w : World)
    → (kill_run s now run_id r w).threads ≡ w.threads
unfolding kill_run
kill_run-threads s now run_id r w =
    let moved : World = record w {
      runs = Dict.put run_id (record (move abandoned r) { finished_at = some now }) w.runs;
    } in
    (wait_all-tables s (containers_of run_id w.threads)
      (kill_all (ids_where anything run_id w.threads) moved)).0
    ∙ (kill_all-tables (ids_where anything run_id w.threads) moved).0

kill_run-run :
    (s : Services) (now : ℕ) (run_id : String) (r : RunRow) (w : World)
    → run_of (Dict.get run_id (kill_run s now run_id r w).runs)
      ≡ some (sans_cost (record (move abandoned r) { finished_at = some now }))
unfolding kill_run
kill_run-run s now run_id r w =
    let row : RunRow = record (move abandoned r) { finished_at = some now } in
    let moved : World = record w { runs = Dict.put run_id row w.runs } in
    ap (λ d. run_of (Dict.get run_id d))
      ((wait_all-tables s (containers_of run_id w.threads)
          (kill_all (ids_where anything run_id w.threads) moved)).1
        ∙ (kill_all-tables (ids_where anything run_id w.threads) moved).1)
    ∙ (ap run_of (get-put run_id run_id row w.runs)
        ∙ ap (λ b. run_of (if b then some row else Dict.get run_id w.runs)) (eq_self run_id))

-- After the stamp, every row of the run is over.
stamped-over :
    (now : ℕ) (run_id : String) (u : Thread)
    → let u' = where_row not_over run_id (end_thread now "stopped") u in
      str_eq u'.run_id run_id ≡ true → (is_over u' ≡ true) × (str_eq u.run_id run_id ≡ true)
unfolding is_over terminal_statuses not_over
stamped-over now run_id u = elim (Bool-cases (str_eq u.run_id run_id && not_over u)) [
  | inl going ↦ rw going (λ mine. (refl, mine))
  | inr over ↦ rw over (λ mine. (ground arith, mine))
]

-- The part of `abandon_run` after the kills.
module _ (s : Services) (now : ℕ) (run_id : String) (r : RunRow) (w : World) where
  abbrev stamped : World
  stamped = record (kill_run s now run_id r w) {
    threads =
        edit_where not_over run_id (end_thread now "stopped") (kill_run s now run_id r w).threads;
  }

  abbrev ids : List String
  ids = ids_where anything run_id w.threads

  rows :
      (j : String)
      → Dict.get j stamped.threads
        ≡ on_row true (where_row not_over run_id (end_thread now "stopped")) (Dict.get j w.threads)
  rows j =
      edit_where-get not_over run_id (end_thread now "stopped") j
        (kill_run s now run_id r w).threads
      ∙ ap (λ d. on_row true (where_row not_over run_id (end_thread now "stopped")) (Dict.get j d))
          (kill_run-threads s now run_id r w)

  row-ended :
      (j : String) (o : Option Thread) (t : Thread)
      → Dict.get j w.threads ≡ o
      → view (some t) ≡ view (on_row true (where_row not_over run_id (end_thread now "stopped")) o)
      → str_eq t.run_id run_id ≡ true
      → (is_over t ≡ true) × (elem j ids ≡ true)
  unfolding is_over
  row-ended j none t found h mine = absurd (ground arith)
  row-ended j (some u) t found h mine =
      let u' = where_row not_over run_id (end_thread now "stopped") u in
      let same = same_view t u' h in
      let over = stamped-over now run_id u (ap (λ x. str_eq x run_id) (sym same.1) ∙ mine) in
      (
        ap (λ x. elem x terminal_statuses) same.0 ∙ over.0,
        ids_where-elem anything run_id j u w.threads found (rw over.1 refl),
      )

  cleaned-IsEnded : IsEnded run_id (clean_all s now run_id ids stamped)
  unfolding is_over terminal_statuses
  cleaned-IsEnded j t found mine =
      let ended =
        row-ended j (Dict.get j w.threads) t refl
          (ap view (sym found) ∙ (clean_all-view s now run_id ids j stamped ∙ ap view (rows j)))
          mine in
      (ended.0, subst IsBare found (clean_all-IsBare s now run_id ids j stamped (inr ended.1)))

  cleaned-waited :
      (c : String)
      → elem c (containers_of run_id w.threads) ≡ true
      → Made (wait_for_container_exit c (s.container_exits c)) (clean_all s now run_id ids stamped)
  unfolding kill_run
  cleaned-waited c there =
      let moved : World = record w {
        runs = Dict.put run_id (record (move abandoned r) { finished_at = some now }) w.runs;
      } in
      clean_all-Made s now run_id ids (wait_for_container_exit c (s.container_exits c)) stamped
        (wait_all-Made s (containers_of run_id w.threads) c (kill_all ids moved) there)

-- The containers of the run's threads hold the container of every row.
containers_of-elem :
    (run_id j c : String) (t : Thread) (d : Dict Thread)
    → Dict.get j d ≡ some t
    → str_eq t.run_id run_id ≡ true
    → present t.container_id ≡ some c
    → elem c (containers_of run_id d) ≡ true
unfolding containers_of Dict.get
containers_of-elem run_id j c t [] found mine box = absurd (ground arith)
containers_of-elem run_id j c t ((i, u) ∷ d) found mine box = elim (Bool-cases (str_eq i j)) [
  | inl here ↦
      let same : u ≡ t = ground arith in
      rw (ap (λ v. str_eq v.run_id run_id) same ∙ mine, containers_of)
        (rw (ap (λ v. present v.container_id) same ∙ box, containers_of) (rw (eq_self c) refl))
  | inr other ↦
      let rest = containers_of-elem run_id j c t d (ground (arith, other)) mine box in
      elim (Bool-cases (str_eq u.run_id run_id)) [
        | inr theirs ↦ rw (theirs, containers_of) rest
        | inl ours ↦ elim (Option-cases (present u.container_id)) [
          | inr none_ ↦ rw (ours, containers_of) (rw (none_, containers_of) rest)
          | inl (e, some_) ↦
              rw (ours, containers_of) (rw (some_, containers_of) (ground (arith, rest)))
        ]
      ]
]

-- The workspace is shredded, and the container of every thread of the run was waited for before.
abbrev pub IsShredded : Services → String → Dict Thread → World → Type 0
IsShredded s run_id threads w =
    (front back : List Call) × (w.calls ≡ front ++ shred_workspace run_id ∷ back)
    × ((j c : String) (t : Thread)
        → Dict.get j threads ≡ some t
        → str_eq t.run_id run_id ≡ true
        → t.container_id ≡ some c
        → str_eq c "" ≡ false
        → Some (λ x. x ≡ wait_for_container_exit c (s.container_exits c)) back)

-- `abandon_run` of a run that is not terminal: the run's row is as before, abandoned by the state machine and
-- finished now, but for its cost; all its threads are completed, failed, stopped or replaced and hold no
-- key; no card of it is pending; and its workspace was shredded after a wait, whatever its answer, for the
-- container of every thread that the run had.
pub abandon_run-IsEnded :
    (s : Services) (now : ℕ) (run_id : String) (w : World) (r : RunRow)
    → Dict.get run_id w.runs ≡ some r
    → is_terminal r.run.stage ≡ false
    → let after = abandon_run s now run_id w in
      IsEnded run_id after
      × (run_of (Dict.get run_id after.runs)
          ≡ some (sans_cost (record (move abandoned r) { finished_at = some now })))
      × NoPending run_id after.approvals
      × IsShredded s run_id w.threads after
unfolding abandon_run resolve_pending_approvals
abandon_run-IsEnded s now run_id w r found going =
    let done : World =
      clean_all s now run_id (ids_where anything run_id w.threads) (stamped s now run_id r w) in
    let told = announced run_id "stopped" done.approvals (
      run_stage run_id abandoned []
      ∷ unregister_run run_id
      ∷ shred_workspace run_id
      ∷ (cancel s run_id done).calls) in
    rw (found, abandon_run)
      (rw (going, abandon_run)
        (
          cleaned-IsEnded s now run_id r w,
          clean_all-run s now run_id (ids_where anything run_id w.threads) run_id
                (stamped s now run_id r w)
              ∙ kill_run-run s now run_id r w,
          decide-NoPending now run_id "stopped" done.approvals,
          (
            told.0 ++ run_stage run_id abandoned [] ∷ unregister_run run_id ∷ [],
            (cancel s run_id done).calls,
            told.1
                ∙ append_two told.0 (run_stage run_id abandoned []) (unregister_run run_id)
                    (shred_workspace run_id ∷ (cancel s run_id done).calls),
            λ j c t row mine box full.
                cancelled s run_id done (wait_for_container_exit c (s.container_exits c)) (
                  cleaned-waited s now run_id r w c (
                    containers_of-elem run_id j c t w.threads row mine
                      (ap present box ∙ rw full refl))),
          ),
        ))
