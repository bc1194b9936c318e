-- ===== src/Controls/Stopped.antt =====
-- What `stop_run` leaves of a run, its threads and its approval cards.
use z_agent.Base.{
  ℕ, String, ◌≡◌, refl, sym, ap, ◌∙◌, inl, inr, Bool, true, false, ◌&&◌, Option, none, some, List,
  [], ◌∷◌, arith, str_eq, if◌then◌else◌, Bool-cases, elem, eq_self,
}
use z_agent.Base.{All, is_some, not, eq_iff}
use z_agent.Base.Dict
use z_agent.Base.Dict.{Dict, get-put, count_values}
use z_agent.Contracts.{interrupted}
use z_agent.Run.{is_terminal}
use z_agent.Approvals.{Approval}
use z_agent.Threads.{Thread, RunRow, World, Services}
use z_agent.Threads.Cleanup.{on_row}
use z_agent.Controls.{
  is_live, live_statuses, ids_where, end_thread, stop_containers, is_pending, decide_pending,
  resolve_pending_approvals, retire, move, stamp_stopped, stop_run,
}
use z_agent.Controls.Rows.{
  where_row, edit_where-get, view, retire-view, run_of, sans_cost, ids_where-elem, retire-run,
  IsBare, retire-IsBare,
}

-- Every card of the run has a decision.
abbrev pub NoPending : String → Dict Approval → Type 0
NoPending run_id approvals =
    All (λ row. row.1.run_id ≡ some run_id → is_some row.1.decision ≡ true) approvals

-- A card of the run that is not pending has its decision.
has_decision :
    (run_id : String) (o : Option String) (is_open : Bool)
    → (elim o [ none ↦ false | some r ↦ str_eq r run_id && (not is_open && true) ]) ≡ false
    → o ≡ some run_id
    → is_open ≡ true
has_decision run_id none is_open h mine = absurd (ground arith)
has_decision run_id (some r) is_open h mine = ground (arith, eq_self r, eq_iff r run_id)

pub decide-NoPending :
    (now : ℕ) (run_id decision : String) (d : Dict Approval)
    → NoPending run_id (decide_pending now run_id decision none d)
unfolding decide_pending is_pending
decide-NoPending now run_id decision [] = tt
decide-NoPending now run_id decision ((id, a) ∷ d) = elim (Bool-cases (is_pending run_id none a)) [
  | inl waits ↦ (rw waits (λ mine. refl), decide-NoPending now run_id decision d)
  | inr done ↦ (
    rw done (λ mine. has_decision run_id a.run_id (is_some a.decision) done mine),
    decide-NoPending now run_id decision d,
  )
]

-- The thread has its turn, or waits for one or for an input.
abbrev pub is_going : Thread → Bool
is_going t = elem t.status ("running" ∷ "idle" ∷ "queued" ∷ "input_required" ∷ [])

-- No thread of the run has one of these statuses.
abbrev pub NoLive : String → World → Type 0
NoLive run_id w =
    (j : String) (t : Thread)
    → Dict.get j w.threads ≡ some t
    → str_eq t.run_id run_id ≡ true
    → is_going t ≡ false

-- Every thread of the run that is going before holds no key after.
abbrev pub NoKeys : String → World → World → Type 0
NoKeys run_id before after =
    (j : String) (t : Thread)
    → Dict.get j before.threads ≡ some t
    → str_eq t.run_id run_id ≡ true
    → is_going t ≡ true
    → IsBare (Dict.get j after.threads)

-- After the stamp, no row of the run is live.
stamped-dead :
    (now : ℕ) (run_id : String) (u : Thread)
    → let u' = where_row is_live run_id (end_thread now "stopped") u in
      str_eq u'.run_id run_id ≡ true → is_live u' ≡ false
unfolding is_live live_statuses
stamped-dead now run_id u = elim (Bool-cases (str_eq u.run_id run_id && is_live u)) [
  | inl yes_ ↦ rw yes_ (λ mine. refl)
  | inr no_ ↦ rw no_ (λ mine. ground arith)
]

pub same_view :
    (t u : Thread) → view (some t) ≡ view (some u) → (t.status ≡ u.status) × (t.run_id ≡ u.run_id)
same_view t u h = (ground arith, ground arith)

view-dead :
    (now : ℕ) (run_id : String) (o : Option Thread) (t : Thread)
    → view (some t) ≡ view (on_row true (where_row is_live run_id (end_thread now "stopped")) o)
    → str_eq t.run_id run_id ≡ true
    → is_live t ≡ false
unfolding is_live
view-dead now run_id none t h mine = absurd (ground arith)
view-dead now run_id (some u) t h mine =
    let u' = where_row is_live run_id (end_thread now "stopped") u in
    let same = same_view t u' h in
    ap (λ x. elem x live_statuses) same.0
    ∙ stamped-dead now run_id u (ap (λ r. str_eq r run_id) (sym same.1) ∙ mine)

-- The part of `stop_run` after the waits.
module _ (s : Services) (now : ℕ) (run_id : String) (ids : List String) (r : RunRow)
    (w : World) where
  abbrev stamped : World
  stamped = stamp_stopped now run_id r w

  retired-NoLive : NoLive run_id (retire s now run_id ids stamped)
  unfolding stamp_stopped is_live live_statuses
  retired-NoLive j t found mine =
      view-dead now run_id (Dict.get j w.threads) t
        (ap view (sym found)
          ∙ (retire-view s now run_id ids j stamped
              ∙ ap view (edit_where-get is_live run_id (end_thread now "stopped") j w.threads)))
        mine

  retired-run :
      run_of (Dict.get run_id (retire s now run_id ids stamped).runs)
      ≡ some (sans_cost (move interrupted r))
  unfolding stamp_stopped
  retired-run =
      retire-run s now run_id ids run_id stamped
      ∙ (ap run_of (get-put run_id run_id (move interrupted r) w.runs)
          ∙ ap (λ b. run_of (if b then some (move interrupted r) else Dict.get run_id w.runs))
              (eq_self run_id))

live_elem :
    (run_id j : String) (t : Thread) (d : Dict Thread)
    → Dict.get j d ≡ some t
    → str_eq t.run_id run_id ≡ true
    → is_going t ≡ true
    → elem j (ids_where is_live run_id d) ≡ true
unfolding is_live live_statuses
live_elem run_id j t d found mine going =
    ids_where-elem is_live run_id j t d found (rw (mine, going) refl)

-- Whatever other tasks do while `stop_run` waits for the containers, if the run is terminal neither before nor
-- after the wait: the run's row is as after the wait, interrupted by the state machine, but for its
-- cost; no thread of it is running, idle, queued or waiting for input (one whose worker has reported
-- that it is interrupted may remain); no card of it is pending; and every thread of it that was running,
-- idle, queued or waiting for input at first has lost its key.
pub stop_run-NoLive :
    (s : Services) (meanwhile : World → World) (now : ℕ) (run_id : String) (w : World)
    (r r' : RunRow)
    → let waited = meanwhile (stop_containers s (ids_where is_live run_id w.threads) w) in
      let after = stop_run s meanwhile now run_id w in
      Dict.get run_id w.runs ≡ some r
      → is_terminal r.run.stage ≡ false
      → Dict.get run_id waited.runs ≡ some r'
      → is_terminal r'.run.stage ≡ false
      → NoLive run_id after
        × (run_of (Dict.get run_id after.runs) ≡ some (sans_cost (move interrupted r')))
        × NoPending run_id after.approvals
        × NoKeys run_id w after
unfolding stop_run resolve_pending_approvals
stop_run-NoLive s meanwhile now run_id w r r' found going found' going' =
    let ids = ids_where is_live run_id w.threads in
    let waited = meanwhile (stop_containers s ids w) in
    let done : World = retire s now run_id ids (stamp_stopped now run_id r' waited) in
    rw (found, stop_run)
      (rw (going, stop_run)
        (rw (found', stop_run)
          (rw (going', stop_run)
            (
              retired-NoLive s now run_id ids r' waited,
              retired-run s now run_id ids r' waited,
              decide-NoPending now run_id "stopped" done.approvals,
              λ j t there mine live.
                  retire-IsBare s now run_id ids j (stamp_stopped now run_id r' waited)
                    (live_elem run_id j t w.threads there mine live),
            ))))
