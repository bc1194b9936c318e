-- ===== src/Threads/Spawn.antt =====
-- `spawn` of backend/app/orchestrator/thread_manager.py: the slot, the row, the key, the attachments and the
-- container, one step each.
use z_agent.Base.{
  ℕ, String, Bool, true, false, not, ◌&&◌, none, some, if◌then◌else◌, is_some, head?, take_text,
  Result, ok, raise,
}
use z_agent.Base.{str_append}
use z_agent.Base.Dict
use z_agent.Base.Dict.{Dict}
use z_agent.Capacity.{Refusal, try_acquire, commit_reservation}
use z_agent.Threads.{
  Thread, RunRow, World, Services, ModelOption, VirtualKey, mint_key, start_container, register_run,
  thread_status, call, capacity_rows, edit_thread, mark,
}
use z_agent.Threads.Request.{
  Request, SpawnError, permission_mode_for, model_option, lane_model, check_reasoning, new_thread,
  unknown_model, no_capacity, row_not_inserted, mint_failed, key_not_stored, staging_failed,
  start_failed, row_not_started, not_announced,
}

abbrev pub store_key : VirtualKey → Thread → Thread
store_key vk t = record t { gateway_key = some vk.key; gateway_key_alias = some vk.key_alias }

abbrev pub started : ℕ → String → Thread → Thread
started now c t = record t { container_id = some c; status = "running"; heartbeat_at = some now }

-- Attachments are copied for a lane that sees; a failure of the copy fails the spawn.
unfoldable pub staging_fails : Services → ModelOption → Request → Bool
staging_fails s option q = is_some (head? q.images) && (option.vision && not s.images_copied)

abbrev pub fail : Services → ℕ → SpawnError → World → World × Result SpawnError String
fail s now e w = (mark s now s.new_thread_id "failed" w, raise e)

-- The running container, its row, which commits or raises, and its announcement, which may raise too.
abbrev pub after_start :
    Services → ℕ → String → String → World → Bool → Bool → World × Result SpawnError String
after_start s now run_id c w false announced = (w, raise row_not_started)
after_start s now run_id c w true false = (
  call (register_run run_id) (edit_thread s.new_thread_id (started now c) w),
  raise not_announced,
)
after_start s now run_id c w true true = (
  call (thread_status run_id s.new_thread_id "running")
      (call (register_run run_id) (edit_thread s.new_thread_id (started now c) w)),
  ok s.new_thread_id,
)

-- From the stored key on: attachments, container, row, stream, status.
unfoldable pub launch :
    Services
    → ℕ
    → String
    → RunRow
    → Request
    → ModelOption
    → World
    → World × Result SpawnError String
unfolding staging_fails permission_mode_for
launch s now run_id run q option w =
    let id = s.new_thread_id in
    let w' : World = call (start_container id (permission_mode_for run.autonomy)) w in
    if staging_fails s option q then fail s now staging_failed w else elim (s.starts id) [
      | none ↦ fail s now start_failed w'
      | some c ↦ after_start s now run_id c w' s.run_commits s.publishes
    ]

-- After the mint: the row with the key commits, or the thread is failed without it.
abbrev pub after_mint :
    Services
    → ℕ
    → String
    → RunRow
    → Request
    → ModelOption
    → VirtualKey
    → World
    → Bool
    → World × Result SpawnError String
after_mint s now run_id run q option vk w false = fail s now key_not_stored w
after_mint s now run_id run q option vk w true =
    launch s now run_id run q option (edit_thread s.new_thread_id (store_key vk) w)

-- The key of the thread is minted, and written to the row before the container starts.
unfoldable pub mint :
    Services
    → ℕ
    → String
    → RunRow
    → Request
    → ModelOption
    → World
    → World × Result SpawnError String
unfolding launch
mint s now run_id run q option w =
    elim (s.mints (str_append "thread-" (take_text 8 s.new_thread_id))) [
      | none ↦ fail s now mint_failed w
      | some vk ↦ after_mint s now run_id run q option vk (call (mint_key vk.key) w) s.key_commits
    ]

-- After the insert, which commits or raises.
abbrev pub after_insert :
    Services
    → ℕ
    → String
    → RunRow
    → Request
    → ModelOption
    → World
    → Thread
    → Bool
    → World × Result SpawnError String
after_insert s now run_id run q option w t false = (w, raise row_not_inserted)
after_insert s now run_id run q option w t true =
    mint s now run_id run q option (record w { threads = Dict.put s.new_thread_id t w.threads })

-- The row is inserted; the reservation ends either way.
unfoldable pub insert :
    Services
    → ℕ
    → String
    → RunRow
    → Request
    → ModelOption
    → World
    → World × Result SpawnError String
unfolding new_thread mint
insert s now run_id run q option w =
    let (c, table) =
      commit_reservation s.db_concurrency q.writable_repo w.capacity w.reservations in
    after_insert s now run_id run q option (record w { capacity = c; reservations = table })
      (new_thread s run_id run q option w.threads) s.insert_commits

abbrev pub insert_if :
    Services
    → ℕ
    → String
    → RunRow
    → Request
    → ModelOption
    → World
    → Result Refusal (Unit {0})
    → World × Result SpawnError String
insert_if s now run_id run q option w (raise e) = (w, raise (no_capacity e))
insert_if s now run_id run q option w (ok u) = insert s now run_id run q option w

-- The slot is reserved.
unfoldable pub acquire :
    Services
    → ℕ
    → String
    → RunRow
    → Request
    → ModelOption
    → World
    → World × Result SpawnError String
unfolding insert
acquire s now run_id run q option w =
    let (c, table, answer) =
      try_acquire s.global_thread_cap s.db_concurrency q.writable_repo now s.new_token s.between
        (capacity_rows w.threads) w.capacity w.reservations in
    insert_if s now run_id run q option (record w { capacity = c; reservations = table }) answer

abbrev pub acquire_if :
    Services
    → ℕ
    → String
    → RunRow
    → Request
    → ModelOption
    → World
    → Result SpawnError (Unit {0})
    → World × Result SpawnError String
acquire_if s now run_id run q option w (raise e) = (w, raise e)
acquire_if s now run_id run q option w (ok u) = acquire s now run_id run q option w

-- `spawn`: the answer is the id of the new thread.
unfoldable pub spawn :
    Services → ℕ → String → RunRow → Request → World → World × Result SpawnError String
unfolding acquire check_reasoning model_option lane_model
spawn s now run_id run q w = elim (model_option s.available_models (lane_model s q.model)) [
  | none ↦ (w, raise (unknown_model (lane_model s q.model)))
  | some option ↦ acquire_if s now run_id run q option w (check_reasoning option q.reasoning)
]
