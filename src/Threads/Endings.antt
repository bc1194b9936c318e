-- ===== src/Threads/Endings.antt =====
-- `finish_thread` and `_boot_watchdog` of backend/app/orchestrator/thread_manager.py.
use z_agent.Base.{
  ℕ, ◌-◌, String, Bool, false, not, ◌||◌, Option, none, some, [], ◌∷◌, ltb, if◌then◌else◌, elem,
}
use z_agent.Base.Dict
use z_agent.Base.Dict.{Dict}
use z_agent.Threads.{
  Thread, World, Services, thread_status, stop_container, present, is_over, call, edit_thread,
  cleanup_terminal, mark,
}

abbrev pub finish_row : ℕ → String → Thread → Thread
finish_row now final t =
    if is_over t then t else record t { status = final; finished_at = some now }

abbrev pub stop_if : Option String → World → World
stop_if none w = w
stop_if (some c) w = call (stop_container c) w

-- `finish_thread`
unfoldable pub finish_thread : Services → ℕ → String → String → World → World
unfolding is_over
finish_thread s now id final w = elim (Dict.get id w.threads) [
  | none ↦ w
  | some t ↦
      if is_over t
      then w
      else cleanup_terminal s now id (
          call (thread_status t.run_id id final)
            (edit_thread id (finish_row now final) (stop_if (present t.container_id) w)))
]

-- `heartbeat_at is not None and now - heartbeat_at < grace_s`
abbrev pub beats_within : ℕ → ℕ → Option ℕ → Bool
beats_within now grace none = false
beats_within now grace (some at) = ltb (now - at) grace

-- `_boot_watchdog`, after its sleep.
unfoldable pub boot_watchdog : Services → ℕ → ℕ → String → String → World → World
boot_watchdog s now grace id container_id w = elim (Dict.get id w.threads) [
  | none ↦ w
  | some t ↦
      if not (elem t.status ("running" ∷ "queued" ∷ []))
      then w
      else if s.container_running container_id || beats_within now grace t.heartbeat_at
      then w
      else call (thread_status t.run_id id "failed") (mark s now id "failed" w)
]
