-- ===== src/Threads/NewRow.antt =====
-- The row that `spawn` leaves, and the rows that it leaves alone.
use z_agent.Base.{
  ℕ, String, ◌≡◌, refl, ap, ◌∙◌, ◌⊎◌, inl, inr, Bool, true, false, Option, none, some, str_eq,
  if◌then◌else◌, Bool-cases, Option-cases, eq_self, take_text, Result, ok, raise,
}
use z_agent.Base.{str_append}
use z_agent.Base.Dict
use z_agent.Base.Dict.{Dict, get-put}
use z_agent.Capacity.{Refusal, try_acquire, commit_reservation}
use z_agent.Threads.{
  capacity_rows, Thread, RunRow, World, Services, ModelOption, VirtualKey, mint_key,
  start_container, call, edit_thread, edit_row, mark,
}
use z_agent.Threads.Cleanup.{on_row, cleaned, edit_row-get, edit_row_self}
use z_agent.Threads.Marks.{stamp, mark_lem}
use z_agent.Threads.Keys.{failed-over}
use z_agent.Threads.Request.{
  Request, SpawnError, unknown_model, permission_mode_for, new_thread, model_option, lane_model,
  check_reasoning,
}
use z_agent.Threads.Spawn.{
  store_key, started, staging_fails, after_start, launch, after_mint, mint, insert, after_insert,
  insert_if, acquire, acquire_if, spawn,
}

-- The other rows are as they were.
abbrev pub Others : String → Dict Thread → World → Type 0
Others id threads w = (j : String) → str_eq id j ≡ false → Dict.get j w.threads ≡ Dict.get j threads

-- The row of a spawn that returns: the new thread, with its key, in its container.
abbrev pub IsNew : String → Thread → ℕ → World → Result SpawnError String → Type 0
IsNew id t now w (raise e) = Unit
IsNew id t now w (ok i) =
    (i ≡ id)
    × (vk : VirtualKey) × (c : String) × (Dict.get id w.threads
        ≡ some (started now c (store_key vk t)))

on_row-other : (b : Bool) (f : Thread → Thread) (o : Option Thread) → b ≡ false → on_row b f o ≡ o
on_row-other b f none h = refl
on_row-other b f (some t) h = rw h refl

edit-others :
    (id j : String) (f : Thread → Thread) (d : Dict Thread)
    → str_eq id j ≡ false
    → Dict.get j (edit_row id f d) ≡ Dict.get j d
edit-others id j f d other =
    edit_row-get id j f d ∙ on_row-other (str_eq id j) f (Dict.get j d) other

mark-Others :
    (s : Services) (now : ℕ) (id : String) (w : World) (t : Thread)
    → Dict.get id w.threads ≡ some t
    → Others id w.threads (mark s now id "failed" w)
mark-Others s now id w t found j other =
    (mark_lem s now id "failed" w t found failed-over).4 j
    ∙ on_row-other (str_eq id j) (λ u. cleaned s now (stamp "failed" u)) (Dict.get j w.threads)
        other

module _ (s : Services) (now : ℕ) (run_id : String) (run : RunRow) (q : Request)
    (option : ModelOption) where
  after_start-row :
      (w : World) (t : Thread) (vk : VirtualKey) (c : String) (commits publishes : Bool)
      → Dict.get s.new_thread_id w.threads ≡ some (store_key vk t)
      → let (w', answer) = after_start s now run_id c w commits publishes in
        Others s.new_thread_id w.threads w' × IsNew s.new_thread_id t now w' answer
  after_start-row w t vk c false publishes found = (λ j other. refl, tt)
  after_start-row w t vk c true false found =
      (λ j other. edit-others s.new_thread_id j (started now c) w.threads other, tt)
  after_start-row w t vk c true true found = (
    λ j other. edit-others s.new_thread_id j (started now c) w.threads other,
    (refl, vk, c, edit_row_self s.new_thread_id (started now c) w.threads (store_key vk t) found),
  )

  launch-row :
      (w : World) (t : Thread) (vk : VirtualKey)
      → Dict.get s.new_thread_id w.threads ≡ some (store_key vk t)
      → let (w', answer) = launch s now run_id run q option w in
        Others s.new_thread_id w.threads w' × IsNew s.new_thread_id t now w' answer
  unfolding launch
  launch-row w t vk found =
      let id = s.new_thread_id in
      let w' : World = call (start_container id (permission_mode_for run.autonomy)) w in
      elim (Bool-cases (staging_fails s option q)) [
        | inl fails ↦ rw (fails, launch) (mark-Others s now id w (store_key vk t) found, tt)
        | inr copied ↦ elim (Option-cases (s.starts id)) [
          | inr dead ↦
              rw (copied, launch)
                (rw (dead, launch) (mark-Others s now id w' (store_key vk t) found, tt))
          | inl (c, alive) ↦
              rw (copied, launch)
                (rw (alive, launch) (after_start-row w' t vk c s.run_commits s.publishes found))
        ]
      ]

  after_mint-row :
      (w : World) (t : Thread) (vk : VirtualKey) (commits : Bool)
      → Dict.get s.new_thread_id w.threads ≡ some t
      → let (w', answer) = after_mint s now run_id run q option vk w commits in
        Others s.new_thread_id w.threads w' × IsNew s.new_thread_id t now w' answer
  after_mint-row w t vk false found = (mark-Others s now s.new_thread_id w t found, tt)
  after_mint-row w t vk true found =
      let id = s.new_thread_id in
      let keyed : World = edit_thread id (store_key vk) w in
      let done = launch-row keyed t vk (edit_row_self id (store_key vk) w.threads t found) in
      (λ j other. done.0 j other ∙ edit-others id j (store_key vk) w.threads other, done.1)

  mint-row :
      (w : World) (t : Thread)
      → Dict.get s.new_thread_id w.threads ≡ some t
      → let (w', answer) = mint s now run_id run q option w in
        Others s.new_thread_id w.threads w' × IsNew s.new_thread_id t now w' answer
  unfolding mint
  mint-row w t found =
      let id = s.new_thread_id in
      elim (Option-cases (s.mints (str_append "thread-" (take_text 8 id)))) [
        | inr refused ↦ rw (refused, mint) (mark-Others s now id w t found, tt)
        | inl (vk, minted) ↦
            rw (minted, mint) (after_mint-row (call (mint_key vk.key) w) t vk s.key_commits found)
      ]

  after_insert-row :
      (w : World) (t : Thread) (commits : Bool)
      → let (w', answer) = after_insert s now run_id run q option w t commits in
        Others s.new_thread_id w.threads w' × IsNew s.new_thread_id t now w' answer
  after_insert-row w t false = (λ j other. refl, tt)
  after_insert-row w t true =
      let id = s.new_thread_id in
      let done =
        mint-row (record w { threads = Dict.put id t w.threads }) t
          (get-put id id t w.threads
            ∙ ap (λ b. if b then some t else Dict.get id w.threads) (eq_self id)) in
      (
        λ j other.
            done.0 j other
            ∙ (get-put id j t w.threads
                ∙ ap (λ b. if b then some t else Dict.get j w.threads) other),
        done.1,
      )

  insert_if-row :
      (w : World) (a : Result Refusal (Unit {0}))
      → let (w', answer) = insert_if s now run_id run q option w a in
        Others s.new_thread_id w.threads w'
        × IsNew s.new_thread_id (new_thread s run_id run q option w.threads) now w' answer
  unfolding insert
  insert_if-row w (raise e) = (λ j other. refl, tt)
  insert_if-row w (ok u) =
      let (c, table) =
        commit_reservation s.db_concurrency q.writable_repo w.capacity w.reservations in
      after_insert-row (record w { capacity = c; reservations = table })
        (new_thread s run_id run q option w.threads) s.insert_commits

  acquire_if-row :
      (w : World) (a : Result SpawnError (Unit {0}))
      → let (w', answer) = acquire_if s now run_id run q option w a in
        Others s.new_thread_id w.threads w'
        × IsNew s.new_thread_id (new_thread s run_id run q option w.threads) now w' answer
  unfolding acquire
  acquire_if-row w (raise e) = (λ j other. refl, tt)
  acquire_if-row w (ok u) =
      let (c, table, answer) =
        try_acquire s.global_thread_cap s.db_concurrency q.writable_repo now s.new_token s.between
          (capacity_rows w.threads) w.capacity w.reservations in
      insert_if-row (record w { capacity = c; reservations = table }) answer

-- What a spawn leaves: the other rows, and if it returns, the new row on a registered model.
abbrev pub IsSpawned :
    Services → ℕ → String → RunRow → Request → World → World → Result SpawnError String → Type 0
IsSpawned s now run_id run q w w' answer =
    Others s.new_thread_id w.threads w'
    × ((answer ≡ raise (unknown_model (lane_model s q.model)))
        ⊎ ((option : ModelOption) × (model_option s.available_models (lane_model s q.model)
              ≡ some option)
            × IsNew s.new_thread_id (new_thread s run_id run q option w.threads) now w' answer))

pub spawn-IsSpawned :
    (s : Services) (now : ℕ) (run_id : String) (run : RunRow) (q : Request) (w : World)
    → let (w', answer) = spawn s now run_id run q w in IsSpawned s now run_id run q w w' answer
unfolding spawn
spawn-IsSpawned s now run_id run q w =
    elim (Option-cases (model_option s.available_models (lane_model s q.model))) [
      | inr unknown ↦ rw (unknown, spawn) (λ j other. refl, inl refl)
      | inl (option, known) ↦
          let done =
            acquire_if-row s now run_id run q option w (check_reasoning option q.reasoning) in
          rw (known, spawn) (done.0, inr (option, refl, done.1))
    ]
