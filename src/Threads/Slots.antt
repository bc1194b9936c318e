-- ===== src/Threads/Slots.antt =====
-- No end of `spawn` keeps a reservation: the counter and the set of reserved repos are as before.
use z_agent.Base.{
  ℕ, ◌+◌, ◌-◌, String, ◌≡◌, refl, ap, ◌∙◌, inl, inr, Bool, true, false, Option, none, some, List,
  [], ◌∷◌, arith, eq_iff, leb, Bool-cases, Option-cases, elem, eq_self, take_text, Result, ok,
  raise,
}
use z_agent.Capacity.{
  Capacity, Reservation, ThreadRow, Refusal, writable, write_conflict, add_repo, discard_repo,
  reserve, db_reserve, try_acquire, db_release, commit_reservation, active_thread_count,
}
use z_agent.Base.{str_append}
use z_agent.Base.Dict
use z_agent.Threads.{
  mint_key, capacity_rows, Thread, RunRow, World, Services, ModelOption, VirtualKey,
  start_container, call, edit_thread, mark, terminal_statuses,
}
use z_agent.Threads.Cleanup.{cleanup_terminal_lem}
use z_agent.Threads.Marks.{stamp}
use z_agent.Threads.Request.{
  Request, SpawnError, SpawnError, permission_mode_for, new_thread, model_option, lane_model,
  check_reasoning,
}
use z_agent.Threads.Spawn.{
  store_key, staging_fails, after_start, launch, after_mint, mint, insert, after_insert, insert_if,
  acquire, acquire_if, spawn,
}

-- The two objects hold the same reservations in the process.
abbrev pub SameSlots : Capacity → Capacity → Type 0
SameSlots c c' = (c'.reserved ≡ c.reserved) × (c'.reserved_writable ≡ c.reserved_writable)

discard-absent : (r : String) (rs : List String) → elem r rs ≡ false → discard_repo (some r) rs ≡ rs
discard-absent r [] h = refl
discard-absent r (x ∷ rs) h = ground (arith, discard-absent r rs, eq_iff x r)

-- The end of a reservation undoes it.
discard-add :
    (o : Option String) (c : Capacity) (threads : List ThreadRow)
    → write_conflict o c threads ≡ false
    → discard_repo o (add_repo o c.reserved_writable) ≡ c.reserved_writable
unfolding write_conflict
discard-add none c threads h = refl
discard-add (some r) c threads h = ground (arith, discard-absent r c.reserved_writable, eq_self r)

db_reserve-slots :
    (cap active : ℕ) (repo : Option String) (now : ℕ) (token : String) (between : List Reservation)
    (c : Capacity) (table : List Reservation)
    → SameSlots c (db_reserve cap active repo now token between c table).0
unfolding db_reserve
db_reserve-slots cap active repo now token between c table = (ground arith, ground arith)

commit-slots :
    (db : Bool) (repo : Option String) (c : Capacity) (table : List Reservation)
    → SameSlots
        (record c {
          reserved = c.reserved - 1;
          reserved_writable = discard_repo (writable repo) c.reserved_writable;
        })
        (commit_reservation db repo c table).0
unfolding commit_reservation db_release
commit-slots db repo c table = (ground arith, ground arith)

-- An acquisition that is granted reserves what the repo asks for, and the repo was free.
acquired :
    (cap : ℕ) (db : Bool) (repo : Option String) (now : ℕ) (token : String)
    (between : List Reservation) (threads : List ThreadRow) (c : Capacity)
    (table : List Reservation) (c' : Capacity) (table' : List Reservation)
    → try_acquire cap db repo now token between threads c table ≡ (c', table', ok tt)
    → (c'.reserved ≡ c.reserved + 1)
      × (c'.reserved_writable ≡ add_repo (writable repo) c.reserved_writable)
      × (write_conflict (writable repo) c threads ≡ false)
unfolding try_acquire reserve
acquired cap db repo now token between threads c table c' table' h =
    let slots = db_reserve-slots cap (active_thread_count threads) repo now token between c table in
    elim (Bool-cases (leb cap (active_thread_count threads + c.reserved))) [
      | inl full ↦ absurd (ground arith)
      | inr room ↦ elim (Bool-cases (write_conflict (writable repo) c threads)) [
        | inl busy ↦ absurd (ground arith)
        | inr free ↦ elim (Bool-cases db) [
          | inr single ↦ (ground arith, ground arith, free)
          | inl shared ↦ (ground (arith, slots.0), ground (arith, slots.1), free)
        ]
      ]
    ]

-- The end of a granted reservation leaves the object's slots as before the acquisition.
acquired-commit :
    (cap : ℕ) (db : Bool) (repo : Option String) (now : ℕ) (token : String)
    (between : List Reservation) (threads : List ThreadRow) (c : Capacity)
    (table : List Reservation) (c' : Capacity) (table' : List Reservation)
    → try_acquire cap db repo now token between threads c table ≡ (c', table', ok tt)
    → SameSlots c (commit_reservation db repo c' table').0
acquired-commit cap db repo now token between threads c table c' table' h =
    let got = acquired cap db repo now token between threads c table c' table' h in
    let done = commit-slots db repo c' table' in
    (
      done.0 ∙ omega (arith, got.0),
      done.1
          ∙ (ap (discard_repo (writable repo)) got.1 ∙ discard-add (writable repo) c threads got.2),
    )

-- One that is refused does too.
refused-slots :
    (cap : ℕ) (db : Bool) (repo : Option String) (now : ℕ) (token : String)
    (between : List Reservation) (threads : List ThreadRow) (c : Capacity)
    (table : List Reservation) (c' : Capacity) (table' : List Reservation) (e : Refusal)
    → try_acquire cap db repo now token between threads c table ≡ (c', table', raise e)
    → SameSlots c c'
unfolding try_acquire
refused-slots cap db repo now token between threads c table c' table' e h =
    let slots = db_reserve-slots cap (active_thread_count threads) repo now token between c table in
    (ground (arith, slots.0), ground (arith, slots.1))

mark-capacity :
    (s : Services) (now : ℕ) (id status : String) (w : World)
    → (mark s now id status w).capacity ≡ w.capacity
unfolding mark
mark-capacity s now id status w = elim (Bool-cases (elem status terminal_statuses)) [
  | inr going ↦ rw (going, mark) refl
  | inl over ↦ rw (over, mark) (cleanup_terminal_lem s now id (edit_thread id (stamp status) w)).0
]

module _ (s : Services) (now : ℕ) (run_id : String) (run : RunRow) (q : Request)
    (option : ModelOption) where
  after_start-capacity :
      (c : String) (w : World) (commits publishes : Bool)
      → (after_start s now run_id c w commits publishes).0.capacity ≡ w.capacity
  after_start-capacity c w false publishes = refl
  after_start-capacity c w true false = refl
  after_start-capacity c w true true = refl

  launch-capacity : (w : World) → (launch s now run_id run q option w).0.capacity ≡ w.capacity
  unfolding launch
  launch-capacity w =
      let id = s.new_thread_id in
      let w' : World = call (start_container id (permission_mode_for run.autonomy)) w in
      elim (Bool-cases (staging_fails s option q)) [
        | inl fails ↦ rw (fails, launch) (mark-capacity s now id "failed" w)
        | inr copied ↦ elim (Option-cases (s.starts id)) [
          | inr dead ↦ rw (copied, launch) (rw (dead, launch) (mark-capacity s now id "failed" w'))
          | inl (c, alive) ↦
              rw (copied, launch)
                (rw (alive, launch) (after_start-capacity c w' s.run_commits s.publishes))
        ]
      ]

  after_mint-capacity :
      (vk : VirtualKey) (w : World) (commits : Bool)
      → (after_mint s now run_id run q option vk w commits).0.capacity ≡ w.capacity
  after_mint-capacity vk w false = mark-capacity s now s.new_thread_id "failed" w
  after_mint-capacity vk w true = launch-capacity (edit_thread s.new_thread_id (store_key vk) w)

  mint-capacity : (w : World) → (mint s now run_id run q option w).0.capacity ≡ w.capacity
  unfolding mint
  mint-capacity w =
      elim (Option-cases (s.mints (str_append "thread-" (take_text 8 s.new_thread_id)))) [
        | inr refused ↦ rw (refused, mint) (mark-capacity s now s.new_thread_id "failed" w)
        | inl (vk, minted) ↦
            rw (minted, mint) (after_mint-capacity vk (call (mint_key vk.key) w) s.key_commits)
      ]

  after_insert-capacity :
      (w : World) (t : Thread) (commits : Bool)
      → (after_insert s now run_id run q option w t commits).0.capacity ≡ w.capacity
  after_insert-capacity w t false = refl
  after_insert-capacity w t true =
      mint-capacity (record w { threads = Dict.put s.new_thread_id t w.threads })

  insert-capacity :
      (w : World)
      → (insert s now run_id run q option w).0.capacity
        ≡ (commit_reservation s.db_concurrency q.writable_repo w.capacity w.reservations).0
  unfolding insert
  insert-capacity w =
      let (c, table) =
        commit_reservation s.db_concurrency q.writable_repo w.capacity w.reservations in
      after_insert-capacity (record w { capacity = c; reservations = table })
        (new_thread s run_id run q option w.threads) s.insert_commits

  insert_if-slots :
      (w : World) (c : Capacity) (table : List Reservation) (threads : List ThreadRow)
      (a : Result Refusal (Unit {0}))
      → try_acquire s.global_thread_cap s.db_concurrency q.writable_repo now s.new_token s.between
          threads c table
        ≡ (w.capacity, w.reservations, a)
      → SameSlots c (insert_if s now run_id run q option w a).0.capacity
  insert_if-slots w c table threads (raise e) h =
      refused-slots s.global_thread_cap s.db_concurrency q.writable_repo now s.new_token s.between
        threads c table w.capacity w.reservations e h
  insert_if-slots w c table threads (ok tt) h = rw (insert-capacity w) (
      acquired-commit s.global_thread_cap s.db_concurrency q.writable_repo now s.new_token s.between
        threads c table w.capacity w.reservations h)

  acquire_if-slots :
      (w : World) (a : Result SpawnError (Unit {0}))
      → SameSlots w.capacity (acquire_if s now run_id run q option w a).0.capacity
  unfolding acquire
  acquire_if-slots w (raise e) = (refl, refl)
  acquire_if-slots w (ok u) =
      let (c, table, answer) =
        try_acquire s.global_thread_cap s.db_concurrency q.writable_repo now s.new_token s.between
          (capacity_rows w.threads) w.capacity w.reservations in
      insert_if-slots (record w { capacity = c; reservations = table }) w.capacity w.reservations
        (capacity_rows w.threads) answer refl

-- The part on reservations of how `spawn` ends.
pub spawn-slots :
    (s : Services) (now : ℕ) (run_id : String) (run : RunRow) (q : Request) (w : World)
    → SameSlots w.capacity (spawn s now run_id run q w).0.capacity
unfolding spawn
spawn-slots s now run_id run q w =
    elim (Option-cases (model_option s.available_models (lane_model s q.model))) [
      | inr unknown ↦ rw (unknown, spawn) (refl, refl)
      | inl (option, known) ↦
          rw (known, spawn)
            (acquire_if-slots s now run_id run q option w (check_reasoning option q.reasoning))
    ]
