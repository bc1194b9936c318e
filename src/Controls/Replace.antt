-- ===== src/Controls/Replace.antt =====
-- `kill_replace_thread` of backend/app/orchestrator/run_manager.py.
--
-- The rows of `repos` are the names in `known_repos`. Every thread has the context that `spawn` stored,
-- and `run` is the run's row.
use z_agent.Base.{
  Bool, true, false, ℕ, ◌-◌, String, false, not, Option, none, some, List, [], ◌∷◌, ◌++◌, str_eq,
  leb, if◌then◌else◌, filter, head?, elem, Result, ok, raise,
}
use z_agent.Base.Dict
use z_agent.Base.Dict.{Dict}
use z_agent.Threads.{
  Thread, RunRow, World, Services, kill, wait_for_container_exit, thread_status, present, is_over,
  terminal_statuses, call, edit_thread, cleanup_terminal,
}
use z_agent.Threads.Request.{Request, SpawnError}
use z_agent.Threads.Spawn.{spawn}
use z_agent.Controls.{end_thread, resolve_pending_approvals}

pub data ReplaceError : Type 0 where
  not_in_run : ReplaceError
  already_terminal : String → ReplaceError
  container_survived : String → ReplaceError
  not_spawned : SpawnError → ReplaceError

-- The floor of the budget that is carried over, 0.25.
abbrev pub least_budget : ℕ
least_budget = 250000

-- `names.append(name)` for each new name.
abbrev pub union_names : List String → List String → List String
union_names names [] = names
union_names names (n ∷ more) = union_names (if elem n names then names else names ++ n ∷ []) more

-- The stored names, the target in front, and the new ones behind.
unfoldable pub mount_set : Option String → List String → List String → List String
mount_set scope stored extra = elim (present scope) [
  | none ↦ union_names stored extra
  | some r ↦ union_names (if elem r stored then stored else r ∷ stored) extra
]

-- The repo that the replacement may write: the target if it is known, else the first that is mounted.
unfoldable pub replacement_repo : Option String → List String → List String → Option String
replacement_repo scope known mounted = elim (present scope) [
  | none ↦ head? mounted
  | some r ↦ if elem r known then some r else head? mounted
]

unfoldable pub remaining_budget : Thread → ℕ
remaining_budget t =
    let left = t.budget_usd - t.cost_usd in if leb least_budget left then left else least_budget

-- The request of the replacement, from the stored context.
unfoldable pub replay : Services → String → List String → Thread → ℕ → Request
unfolding mount_set replacement_repo
replay s id extra t budget =
    let mounted =
      filter (λ n. elem n s.known_repos)
        (mount_set t.repo_scope t.spawn_context.context_repos extra) in
    record {
      persona = t.persona;
      prompt = t.spawn_context.prompt;
      persona_prompt = t.spawn_context.persona_prompt;
      writable_repo = replacement_repo t.repo_scope s.known_repos mounted;
      context_repos = mounted;
      resume_session = false;
      resume_from_thread_id = some id;
      preserve_workspace = t.spawn_context.preserve_workspace;
      budget_usd = some budget;
      model = some t.spawn_context.model;
      reasoning = t.spawn_context.reasoning;
      images = t.spawn_context.images;
      image_notes = none;
    }

abbrev pub announce : String → World × Result SpawnError String → World × Result ReplaceError String
announce run_id (w, raise e) = (w, raise (not_spawned e))
announce run_id (w, ok id) = (call (thread_status run_id id "running") w, ok id)

-- The old thread is stamped, announced, and cleaned up.
unfoldable pub retire_old : Services → ℕ → String → String → World → World
unfolding resolve_pending_approvals
retire_old s now run_id id w = cleanup_terminal s now id (
    resolve_pending_approvals now run_id "stopped" (some id)
      (call (thread_status run_id id "replaced") (edit_thread id (end_thread now "replaced") w)))

abbrev pub budget_left : Option Thread → Option ℕ
budget_left none = none
budget_left (some t) = some (remaining_budget t)

-- After the verified end of the container.
unfoldable pub respawn :
    Services
    → ℕ
    → String
    → String
    → List String
    → RunRow
    → Thread
    → World
    → World × Result ReplaceError String
unfolding retire_old remaining_budget replay
respawn s now run_id id extra run t w =
    let retired = retire_old s now run_id id w in
    announce run_id (
      spawn s now run_id run
        (record (replay s id extra t 0) { budget_usd = budget_left (Dict.get id retired.threads) })
        retired)

abbrev pub fail_unless_over : ℕ → Thread → Thread
fail_unless_over now t = if is_over t then t else end_thread now "failed" t

-- The container outlived the kill: the thread is failed, and nothing is spawned.
abbrev pub survived : ℕ → String → String → String → World → World × Result ReplaceError String
survived now run_id id c w = (
  call (thread_status run_id id "failed") (edit_thread id (fail_unless_over now) w),
  raise (container_survived c),
)

-- After the wait, whose answer is whether the container is gone.
abbrev pub after_wait :
    Services
    → ℕ
    → String
    → String
    → List String
    → RunRow
    → Thread
    → String
    → Bool
    → World
    → World × Result ReplaceError String
after_wait s now run_id id extra run t c true w = respawn s now run_id id extra run t w
after_wait s now run_id id extra run t c false w = survived now run_id id c w

-- The kill, and the wait for the container if there is one.
abbrev pub after_kill :
    Services
    → ℕ
    → String
    → String
    → List String
    → RunRow
    → Thread
    → Option String
    → World
    → World × Result ReplaceError String
after_kill s now run_id id extra run t none w =
    respawn s now run_id id extra run t (call (kill id) w)
after_kill s now run_id id extra run t (some c) w =
    let gone = s.container_exits c in
    after_wait s now run_id id extra run t c gone
      (call (wait_for_container_exit c gone) (call (kill id) w))

unfoldable pub kill_replace_thread :
    Services
    → ℕ
    → String
    → String
    → List String
    → RunRow
    → World
    → World × Result ReplaceError String
unfolding respawn is_over terminal_statuses
kill_replace_thread s now run_id id extra run w = elim (Dict.get id w.threads) [
  | none ↦ (w, raise not_in_run)
  | some t ↦
      if not (str_eq t.run_id run_id)
      then (w, raise not_in_run)
      else if is_over t
      then (w, raise (already_terminal t.status))
      else after_kill s now run_id id extra run t (present t.container_id) w
]
