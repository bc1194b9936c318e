-- ===== src/Threads/Leaks.antt =====
-- What each end of `spawn` leaves of the keys: the live ones at the gateway, and the one in the thread's row.
use z_agent.Base.{
  ℕ, String, ◌≡◌, refl, sym, ap, ◌∙◌, inl, inr, Bool, true, false, none, some, List, ◌∷◌, arith,
  str_eq, Bool-cases, Option-cases, elem, eq_self, take_text, Result, ok, raise,
}
use z_agent.Base.{str_append}
use z_agent.Base.Dict
use z_agent.Base.Dict.{Dict, get-put}
use z_agent.Capacity.{Refusal, try_acquire, commit_reservation}
use z_agent.Threads.{
  capacity_rows, Thread, RunRow, World, Services, ModelOption, Call, VirtualKey, mint_key,
  start_container, present, call, edit_thread,
}
use z_agent.Threads.Cleanup.{edit_row_self}
use z_agent.Threads.Request.{
  Request, SpawnError, unknown_model, always_thinks, bad_reasoning, no_capacity, row_not_inserted,
  mint_failed, key_not_stored, staging_failed, start_failed, row_not_started, not_announced,
  permission_mode_for, new_thread, model_option, lane_model, check_reasoning,
}
use z_agent.Threads.Spawn.{
  store_key, started, staging_fails, after_start, launch, after_mint, mint, insert, after_insert,
  insert_if, acquire, acquire_if, spawn,
}
use z_agent.Threads.Keys.{live_keys, IsSettled, IsFailed-now, fail-held, fail-calls}

module _ (s : Services) (now : ℕ) (run_id : String) (run : RunRow) (q : Request)
    (option : ModelOption)
    (full : (alias : String) (vk : VirtualKey) → s.mints alias ≡ some vk → str_eq vk.key "" ≡ false)
    (deletes : (k : String) → s.deletes k ≡ true) where
  after_start-IsSettled :
      (before : List Call) (c : String) (w : World) (t : Thread) (k : String)
      (commits publishes : Bool)
      → Dict.get s.new_thread_id w.threads ≡ some t
      → t.gateway_key ≡ some k
      → t.status ≡ "queued"
      → live_keys s.deletes w.calls ≡ k ∷ live_keys s.deletes before
      → let (w', answer) = after_start s now run_id c w commits publishes in
        IsSettled s.deletes before s.new_thread_id w' answer
  unfolding live_keys
  after_start-IsSettled before c w t k false publishes found holds waits live =
      rw found (waits, k, holds, live)
  after_start-IsSettled before c w t k true false found holds waits live =
      rw (edit_row_self s.new_thread_id (started now c) w.threads t found)
        (refl, (refl, k, holds, live))
  after_start-IsSettled before c w t k true true found holds waits live = (
    refl,
    rw (edit_row_self s.new_thread_id (started now c) w.threads t found) refl,
    rw (edit_row_self s.new_thread_id (started now c) w.threads t found) (refl, k, holds, live),
  )

  launch-IsSettled :
      (before : List Call) (w : World) (t : Thread) (k : String)
      → Dict.get s.new_thread_id w.threads ≡ some t
      → t.gateway_key ≡ some k
      → t.status ≡ "queued"
      → str_eq k "" ≡ false
      → live_keys s.deletes w.calls ≡ k ∷ live_keys s.deletes before
      → let (w', answer) = launch s now run_id run q option w in
        IsSettled s.deletes before s.new_thread_id w' answer
  unfolding launch live_keys
  launch-IsSettled before w t k found holds waits full_key live =
      let id = s.new_thread_id in
      let held : present t.gateway_key ≡ some k = ap present holds ∙ rw full_key refl in
      let w' : World = call (start_container id (permission_mode_for run.autonomy)) w in
      elim (Bool-cases (staging_fails s option q)) [
        | inl fails ↦
            rw (fails, launch)
              (
                fail-held s now id before w t k (deletes k) found held live,
                inl (IsFailed-now s now id w t found),
              )
        | inr copied ↦ elim (Option-cases (s.starts id)) [
          | inr dead ↦
              rw (copied, launch)
                (rw (dead, launch)
                  (
                    fail-held s now id before w' t k (deletes k) found held live,
                    inl (IsFailed-now s now id w' t found),
                  ))
          | inl (c, alive) ↦
              rw (copied, launch)
                (rw (alive, launch)
                  (after_start-IsSettled before c w' t k s.run_commits s.publishes found holds waits
                    live))
        ]
      ]

  after_mint-IsSettled :
      (before : List Call) (w : World) (t : Thread) (vk : VirtualKey) (commits : Bool)
      → str_eq vk.key "" ≡ false
      → Dict.get s.new_thread_id w.threads ≡ some t
      → t.gateway_key ≡ none
      → t.status ≡ "queued"
      → live_keys s.deletes w.calls ≡ vk.key ∷ live_keys s.deletes before
      → let (w', answer) = after_mint s now run_id run q option vk w commits in
        IsSettled s.deletes before s.new_thread_id w' answer
  after_mint-IsSettled before w t vk false full_key found bare waits live = (
    IsFailed-now s now s.new_thread_id w t found,
    vk.key,
    ap (live_keys s.deletes) (fail-calls s now s.new_thread_id w t found (ap present bare)) ∙ live,
  )
  after_mint-IsSettled before w t vk true full_key found bare waits live =
      launch-IsSettled before (edit_thread s.new_thread_id (store_key vk) w) (store_key vk t) vk.key
        (edit_row_self s.new_thread_id (store_key vk) w.threads t found) refl waits full_key live

  mint-IsSettled :
      (w : World) (t : Thread)
      → Dict.get s.new_thread_id w.threads ≡ some t
      → t.gateway_key ≡ none
      → t.status ≡ "queued"
      → let (w', answer) = mint s now run_id run q option w in
        IsSettled s.deletes w.calls s.new_thread_id w' answer
  unfolding mint live_keys
  mint-IsSettled w t found bare waits =
      let id = s.new_thread_id in
      let alias = str_append "thread-" (take_text 8 id) in
      elim (Option-cases (s.mints alias)) [
        | inr refused ↦
            let calls = fail-calls s now id w t found (ap present bare) in
            rw (refused, mint)
              (
                λ j h. sym (ap (λ cs. elem j (live_keys s.deletes cs)) calls) ∙ h,
                inl (IsFailed-now s now id w t found),
              )
        | inl (vk, minted) ↦
            rw (minted, mint)
              (after_mint-IsSettled w.calls (call (mint_key vk.key) w) t vk s.key_commits
                (full alias vk minted) found bare waits refl)
      ]

  after_insert-IsSettled :
      (w : World) (t : Thread) (commits : Bool)
      → Dict.get s.new_thread_id w.threads ≡ none
      → t.gateway_key ≡ none
      → t.status ≡ "queued"
      → let (w', answer) = after_insert s now run_id run q option w t commits in
        IsSettled s.deletes w.calls s.new_thread_id w' answer
  after_insert-IsSettled w t false fresh bare waits = (λ j h. h, inr fresh)
  after_insert-IsSettled w t true fresh bare waits =
      mint-IsSettled (record w { threads = Dict.put s.new_thread_id t w.threads }) t
        (get-put s.new_thread_id s.new_thread_id t w.threads ∙ rw (eq_self s.new_thread_id) refl)
        bare waits

  insert-IsSettled :
      (w : World)
      → Dict.get s.new_thread_id w.threads ≡ none
      → let (w', answer) = insert s now run_id run q option w in
        IsSettled s.deletes w.calls s.new_thread_id w' answer
  unfolding insert new_thread
  insert-IsSettled w fresh =
      let (c, table) =
        commit_reservation s.db_concurrency q.writable_repo w.capacity w.reservations in
      after_insert-IsSettled (record w { capacity = c; reservations = table })
        (new_thread s run_id run q option w.threads) s.insert_commits fresh refl refl

  insert_if-IsSettled :
      (w : World) (a : Result Refusal (Unit {0}))
      → Dict.get s.new_thread_id w.threads ≡ none
      → let (w', answer) = insert_if s now run_id run q option w a in
        IsSettled s.deletes w.calls s.new_thread_id w' answer
  insert_if-IsSettled w (raise e) fresh = (λ j h. h, inr fresh)
  insert_if-IsSettled w (ok u) fresh = insert-IsSettled w fresh

  acquire-IsSettled :
      (w : World)
      → Dict.get s.new_thread_id w.threads ≡ none
      → let (w', answer) = acquire s now run_id run q option w in
        IsSettled s.deletes w.calls s.new_thread_id w' answer
  unfolding acquire
  acquire-IsSettled w fresh =
      let (c, table, answer) =
        try_acquire s.global_thread_cap s.db_concurrency q.writable_repo now s.new_token s.between
          (capacity_rows w.threads) w.capacity w.reservations in
      insert_if-IsSettled (record w { capacity = c; reservations = table }) answer fresh

  acquire_if-IsSettled :
      (w : World) (a : Result SpawnError (Unit {0}))
      → check_reasoning option q.reasoning ≡ a
      → Dict.get s.new_thread_id w.threads ≡ none
      → let (w', answer) = acquire_if s now run_id run q option w a in
        IsSettled s.deletes w.calls s.new_thread_id w' answer
  unfolding check_reasoning
  acquire_if-IsSettled w (raise key_not_stored) why fresh = absurd (ground arith)
  acquire_if-IsSettled w (raise row_not_started) why fresh = absurd (ground arith)
  acquire_if-IsSettled w (raise not_announced) why fresh = absurd (ground arith)
  acquire_if-IsSettled w (raise (unknown_model m)) why fresh = (λ j h. h, inr fresh)
  acquire_if-IsSettled w (raise (always_thinks m)) why fresh = (λ j h. h, inr fresh)
  acquire_if-IsSettled w (raise (bad_reasoning m r)) why fresh = (λ j h. h, inr fresh)
  acquire_if-IsSettled w (raise (no_capacity e)) why fresh = (λ j h. h, inr fresh)
  acquire_if-IsSettled w (raise row_not_inserted) why fresh = (λ j h. h, inr fresh)
  acquire_if-IsSettled w (raise mint_failed) why fresh = (λ j h. h, inr fresh)
  acquire_if-IsSettled w (raise staging_failed) why fresh = (λ j h. h, inr fresh)
  acquire_if-IsSettled w (raise start_failed) why fresh = (λ j h. h, inr fresh)
  acquire_if-IsSettled w (ok u) why fresh = acquire-IsSettled w fresh

-- The part on keys of how `spawn` ends.
pub spawn-IsSettled :
    (s : Services) (now : ℕ) (run_id : String) (run : RunRow) (q : Request) (w : World)
    → ((alias : String) (vk : VirtualKey) → s.mints alias ≡ some vk → str_eq vk.key "" ≡ false)
    → ((k : String) → s.deletes k ≡ true)
    → Dict.get s.new_thread_id w.threads ≡ none
    → let (w', answer) = spawn s now run_id run q w in
      IsSettled s.deletes w.calls s.new_thread_id w' answer
unfolding spawn
spawn-IsSettled s now run_id run q w full deletes fresh =
    elim (Option-cases (model_option s.available_models (lane_model s q.model))) [
      | inr unknown ↦ rw (unknown, spawn) (λ j h. h, inr fresh)
      | inl (option, known) ↦
          rw (known, spawn)
            (acquire_if-IsSettled s now run_id run q option full deletes w
              (check_reasoning option q.reasoning) refl fresh)
    ]
