-- ===== src/Controls.antt =====
-- backend/app/orchestrator/run_manager.py: what a user or a restart does to a run that exists. Here are
-- the parts that the controls share, and `stop_run`, `stop_thread` and `nudge_thread`; Controls.Abandon,
-- Controls.Replace, Controls.Resume and Controls.Reconcile have the others. The other children are
-- proofs.
--
-- State and services are those of Threads.antt. `meanwhile` is what other tasks do to the world while
-- `stop_run` waits for the containers. A run that is missing raises before any change: the world is
-- given back.
pub mod Abandon
pub mod Replace
pub mod Resume
pub mod Reconcile
pub mod Rows
pub mod Stopped
pub mod Calls
pub mod Abandoned
pub mod Replaced
pub mod Turns
pub mod Swept
pub mod Resumed
pub mod Budget
use z_agent.Base.{
  ℕ, zero, suc, ◌+◌, ◌-◌, ◌*◌, ◌/◌, ◌%◌, ◌≤◌, ◌<◌, String, ◌≡◌, refl, sym, ap, ◌∙◌, ◌≢◌, ◌↔◌, ◌⊎◌,
  inl, inr, Bool, true, false, not, ◌&&◌, ◌||◌, Option, none, some, List, [], ◌∷◌, ◌++◌, map, arith,
  str_eq, eq_iff, ltb, leb, ◌==◌, if◌then◌else◌, Bool-cases, Option-cases, ltb→lt, leb→le, is_some,
  length, any, all, filter, count, take, drop, head?, All, length-append, count-append, count-le,
  length-drop, length-take, All-append, any-append, codes, elem, eq_self, elem-append, take_text,
  Result, ok, raise, or_else,
}
use z_agent.Base.Dict
use z_agent.Base.Dict.{Dict}
use z_agent.Contracts.{RunStage, interrupted}
use z_agent.Run.{Run, transition, is_terminal}
use z_agent.Heartbeats.{to_stage}
use z_agent.Approvals.{Approval}
use z_agent.Threads.{
  Thread, RunRow, Call, World, Services, interrupt, wait_for_container_exit, thread_status,
  run_stage, cancel_task, approval_resolved, nudge, present, call, edit_thread, cleanup_terminal,
}

-- `("running", "idle", "queued", "input_required")`
unfoldable pub live_statuses : List String
live_statuses = "running" ∷ "idle" ∷ "queued" ∷ "input_required" ∷ []

unfoldable pub is_live : Thread → Bool
unfolding live_statuses
is_live t = elem t.status live_statuses

-- `(*ACTIVE_STATUSES, "input_required")`
unfoldable pub nudgeable : List String
nudgeable = "queued" ∷ "running" ∷ "idle" ∷ "interrupted" ∷ "input_required" ∷ []

-- The ids of the rows of a run that pass a test.
unfoldable pub ids_where : (Thread → Bool) → String → Dict Thread → List String
ids_where p run_id [] = []
ids_where p run_id ((id, t) ∷ rows) =
    let rest = ids_where p run_id rows in if str_eq t.run_id run_id && p t then id ∷ rest else rest

-- A change of the rows of a run that pass a test.
unfoldable pub edit_where : (Thread → Bool) → String → (Thread → Thread) → Dict Thread → Dict Thread
edit_where p run_id f [] = []
edit_where p run_id f ((id, t) ∷ rows) =
    (id, if str_eq t.run_id run_id && p t then f t else t) ∷ edit_where p run_id f rows

abbrev pub end_thread : ℕ → String → Thread → Thread
end_thread now status t = record t { status = status; finished_at = some now }

-- `_stop_thread_container`: the calls that it makes.
unfoldable pub stop_calls : Services → String → World → List Call
stop_calls s id w =
    if s.interrupt_acked id then interrupt id ∷ w.calls else elim (Dict.get id w.threads) [
      | none ↦ interrupt id ∷ w.calls
      | some t ↦ elim (present t.container_id) [
        | none ↦ interrupt id ∷ w.calls
        | some c ↦ wait_for_container_exit c (s.container_exits c) ∷ interrupt id ∷ w.calls
      ]
    ]

abbrev pub stop_thread_container : Services → String → World → World
stop_thread_container s id w = record w { calls = stop_calls s id w }

abbrev pub stop_containers : Services → List String → World → World
stop_containers s [] w = w
stop_containers s (id ∷ ids) w = stop_containers s ids (stop_thread_container s id w)

-- Whether an approval is pending for the run, and for the thread if one is given.
unfoldable pub is_pending : String → Option String → Approval → Bool
is_pending run_id thread_id a = elim a.run_id [
  | none ↦ false
  | some r ↦
      str_eq r run_id
      && (not (is_some a.decision) && elim thread_id [
        | none ↦ true
        | some id ↦ elim a.thread_id [ none ↦ false | some t ↦ str_eq t id ]
      ])
]

unfoldable pub decide_pending : ℕ → String → String → Option String → Dict Approval → Dict Approval
decide_pending now run_id decision thread_id [] = []
decide_pending now run_id decision thread_id ((id, a) ∷ rows) =
    (
      id,
      if is_pending run_id thread_id a
          then record a { decision = some decision; decided_at = some now }
          else a,
    )
    ∷ decide_pending now run_id decision thread_id rows

abbrev pub announce_resolved :
    String → String → Option String → Dict Approval → List Call → List Call
announce_resolved run_id decision thread_id [] cs = cs
announce_resolved run_id decision thread_id ((id, a) ∷ rows) cs =
    announce_resolved run_id decision thread_id rows
      (if is_pending run_id thread_id a then approval_resolved run_id id decision ∷ cs else cs)

-- `_resolve_pending_approvals`
unfoldable pub resolve_pending_approvals : ℕ → String → String → Option String → World → World
unfolding decide_pending is_pending
resolve_pending_approvals now run_id decision thread_id w = record w {
  approvals = decide_pending now run_id decision thread_id w.approvals;
  calls = announce_resolved run_id decision thread_id w.approvals w.calls;
}

-- Each stopped thread is announced and cleaned up.
abbrev pub retire : Services → ℕ → String → List String → World → World
retire s now run_id [] w = w
retire s now run_id (id ∷ ids) w =
    retire s now run_id ids (cleanup_terminal s now id (call (thread_status run_id id "stopped") w))

abbrev pub cancel : Services → String → World → World
cancel s run_id w = record w {
  calls = if s.task_running run_id then cancel_task run_id ∷ w.calls else w.calls;
}

abbrev pub move : RunStage → RunRow → RunRow
move stage r = record r { run = to_stage stage r.run }

-- The stamp of `stop_run`: the live threads and the run.
unfoldable pub stamp_stopped : ℕ → String → RunRow → World → World
unfolding is_live
stamp_stopped now run_id r w = record w {
  threads = edit_where is_live run_id (end_thread now "stopped") w.threads;
  runs = Dict.put run_id (move interrupted r) w.runs;
}

-- `stop_run`
unfoldable pub stop_run : Services → (World → World) → ℕ → String → World → World
unfolding stop_calls ids_where is_live stamp_stopped resolve_pending_approvals
stop_run s meanwhile now run_id w = elim (Dict.get run_id w.runs) [
  | none ↦ w
  | some r ↦
      let ids = ids_where is_live run_id w.threads in
      let waited = meanwhile (stop_containers s ids w) in
      if is_terminal r.run.stage then w else elim (Dict.get run_id waited.runs) [
        | none ↦ waited
        | some r' ↦
            if is_terminal r'.run.stage
            then waited
            else resolve_pending_approvals now run_id "stopped" none (
                call (run_stage run_id interrupted (move interrupted r').run.available_actions)
                  (cancel s run_id (retire s now run_id ids (stamp_stopped now run_id r' waited))))
      ]
]

-- `stop_thread`
unfoldable pub stop_thread : Services → ℕ → String → String → World → World
unfolding stop_calls resolve_pending_approvals
stop_thread s now run_id id w =
    let stopped : World =
      edit_thread id (λ t. if str_eq t.run_id run_id then end_thread now "stopped" t else t)
        (stop_thread_container s id w) in
    resolve_pending_approvals now run_id "stopped" (some id)
      (cleanup_terminal s now id (call (thread_status run_id id "stopped") stopped))

-- `nudge_thread`
unfoldable pub nudge_thread : String → String → String → World → World
unfolding nudgeable
nudge_thread run_id id text w = elim (Dict.get id w.threads) [
  | none ↦ w
  | some t ↦
      if elem t.status nudgeable
      then call (thread_status run_id id "running")
          (call (nudge id text) (edit_thread id (λ u. record u { status = "running" }) w))
      else w
]
