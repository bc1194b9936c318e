-- ===== src/Threads.antt =====
-- backend/app/orchestrator/thread_manager.py: `ThreadManager`, with the tables it shares with
-- backend/app/orchestrator/run_manager.py (Controls.antt). Here are the state and the ends of a thread
-- (`settle_cost`, `release_key`, `_cleanup_terminal`, `_mark`); Threads.Endings has `finish_thread` and
-- `_boot_watchdog`, Threads.Request and Threads.Spawn have `spawn`. The other children are proofs.
--
-- `World` is the tables, the capacity object, and the calls that leave the process, the last in
-- front. `Services` is what the code asks of others (gateway, Docker, worker, database, settings):
-- each answer is a parameter. An amount of money is a natural number of millionths of a dollar.
-- Times are natural numbers of seconds.
-- Calls run one after the other: what other tasks do at an `await` is left out.
pub mod Endings
pub mod Request
pub mod Spawn
pub mod Cleanup
pub mod Marks
pub mod Keys
pub mod Leaks
pub mod Slots
pub mod NewRow
use z_agent.Base.{
  ℕ, zero, suc, ◌+◌, ◌-◌, ◌*◌, ◌/◌, ◌%◌, ◌≤◌, ◌<◌, String, ◌≡◌, refl, sym, ap, ◌∙◌, ◌≢◌, ◌↔◌, ◌⊎◌,
  inl, inr, Bool, true, false, not, ◌&&◌, ◌||◌, Option, none, some, List, [], ◌∷◌, ◌++◌, map, arith,
  str_eq, eq_iff, ltb, leb, ◌==◌, if◌then◌else◌, Bool-cases, Option-cases, ltb→lt, leb→le, is_some,
  length, any, all, filter, count, take, drop, head?, All, length-append, count-append, count-le,
  length-drop, length-take, All-append, any-append, codes, elem, eq_self, elem-append, take_text,
  Result, ok, raise, or_else,
}
use z_agent.Base.Dict
use z_agent.Base.Dict.{Dict}
use z_agent.Contracts.{RunStage}
use z_agent.Run.{Run}
use z_agent.Capacity.{Capacity, Reservation, ThreadRow}
use z_agent.Approvals.{Approval}

-- `Thread.spawn_context`: a key that is left out is none, empty or false.
pub record SpawnContext : Type 0 where
  pub prompt : String
  pub persona_prompt : String
  pub resume_session : Bool
  pub mode : String
  pub model : String
  pub reasoning : Option String
  pub images : List String
  pub context_repos : List String
  pub preserve_workspace : Bool
  pub resume_from_thread_id : Option String

pub record Thread : Type 0 where
  pub run_id : String
  pub persona : String
  pub repo_scope : Option String
  pub status : String
  pub budget_usd : ℕ
  pub cost_usd : ℕ
  pub session_id : Option String
  pub gateway_key : Option String
  pub gateway_key_alias : Option String
  pub container_id : Option String
  pub heartbeat_at : Option ℕ
  pub finished_at : Option ℕ
  pub next_seq : ℕ
  pub spawn_context : SpawnContext

-- A row of `runs`: the columns of the state machine, and the others that the managers use.
pub record RunRow : Type 0 where
  pub run : Run
  pub title : String
  pub repo : Option String
  pub autonomy : String
  pub idempotency_key : Option String
  pub cost_usd : ℕ
  pub finished_at : Option ℕ
  pub failure_reason : Option String

-- A call that leaves the process.
pub data Call : Type 0 where
  mint_key : String → Call
  delete_key : String → Call
  start_container : String → String → Call
  stop_container : String → Call
  wait_for_container_exit : String → Bool → Call
  interrupt : String → Call
  kill : String → Call
  nudge : String → String → Call
  thread_status : String → String → String → Call
  run_stage : String → RunStage → List String → Call
  note : String → String → Call
  approval_resolved : String → String → String → Call
  register_run : String → Call
  unregister_run : String → Call
  execute : String → Call
  cancel_task : String → Call
  shred_workspace : String → Call

pub record World : Type 0 where
  pub threads : Dict Thread
  pub runs : Dict RunRow
  pub approvals : Dict Approval
  pub capacity : Capacity
  pub reservations : List Reservation
  pub calls : List Call

-- `ModelOption`, without the prices and the label.
pub record ModelOption : Type 0 where
  pub alias : String
  pub vision : Bool
  pub reasoning_efforts : List String
  pub supports_thinking_off : Bool

pub record VirtualKey : Type 0 where
  pub key : String
  pub key_alias : String

-- What the gateway says of a key's spend: an amount, a 404, or another failure.
pub data Spend : Type 0 where
  spent : ℕ → Spend
  key_gone : Spend
  unreadable : Spend

pub record Services : Type 0 where
  pub available_models : List ModelOption
  pub gateway_model : String
  pub default_thread_budget_usd : ℕ
  pub global_thread_cap : ℕ
  pub db_concurrency : Bool
  pub prompt_block : String
  pub new_thread_id : String
  pub new_token : String
  pub between : List Reservation
  pub insert_commits : Bool
  pub mints : String → Option VirtualKey
  pub key_commits : Bool
  pub run_commits : Bool
  pub publishes : Bool
  pub deletes : String → Bool
  pub spend_of : String → Spend
  pub images_copied : Bool
  pub starts : String → Option String
  pub task_running : String → Bool
  pub known_repos : List String
  pub container_running : String → Bool
  pub container_exits : String → Bool
  pub interrupt_acked : String → Bool
  pub stop_raises : String → Bool

-- `if key`: neither None nor the empty text.
abbrev pub present : Option String → Option String
present none = none
present (some k) = if str_eq k "" then none else some k

-- `("completed", "failed", "stopped", "replaced")`
unfoldable pub terminal_statuses : List String
terminal_statuses = "completed" ∷ "failed" ∷ "stopped" ∷ "replaced" ∷ []

unfoldable pub is_over : Thread → Bool
unfolding terminal_statuses
is_over t = elem t.status terminal_statuses

abbrev pub call : Call → World → World
call c w = record w { calls = c ∷ w.calls }

-- The rows as the capacity's queries see them.
abbrev pub capacity_rows : Dict Thread → List ThreadRow
capacity_rows [] = []
capacity_rows ((id, t) ∷ rows) =
    record { status = t.status; repo_scope = t.repo_scope } ∷ capacity_rows rows

abbrev pub run_id_of : String → World → Option String
run_id_of id w = elim (Dict.get id w.threads) [ none ↦ none | some t ↦ some t.run_id ]

-- A read of the row, a change of it if it is there, and a commit.
unfoldable pub edit_row : String → (Thread → Thread) → Dict Thread → Dict Thread
edit_row id f threads = elim (Dict.get id threads) [
  | none ↦ threads
  | some t ↦ Dict.put id (f t) threads
]

abbrev pub edit_thread : String → (Thread → Thread) → World → World
edit_thread id f w = record w { threads = edit_row id f w.threads }

-- `sum(l.cost_usd for l in … filter_by(run_id=run.id))`
unfoldable pub total_cost : String → Dict Thread → ℕ
total_cost run_id [] = 0
total_cost run_id ((id, t) ∷ rows) =
    let rest = total_cost run_id rows in if str_eq t.run_id run_id then t.cost_usd + rest else rest

-- The row after a readback; `finished_at` is stamped once, on a row that is over.
unfoldable pub settled : ℕ → ℕ → Thread → Thread
settled now spend t = record t {
  cost_usd = spend;
  finished_at =
      if is_over t
      then elim t.finished_at [ none ↦ some now | some at ↦ some at ]
      else t.finished_at;
}

unfoldable pub roll_up : String → Dict Thread → Dict RunRow → Dict RunRow
roll_up run_id threads runs = elim (Dict.get run_id runs) [
  | none ↦ runs
  | some r ↦ Dict.put run_id (record r { cost_usd = total_cost run_id threads }) runs
]

-- What `settle_cost` does with the gateway's answer; of a failure the caller hears.
unfoldable pub read_back : ℕ → String → Thread → Spend → World → World × Result (Unit {0}) ℕ
read_back now id t key_gone w = (w, ok t.cost_usd)
read_back now id t unreadable w = (w, raise tt)
read_back now id t (spent c) w =
    let threads = edit_row id (settled now c) w.threads in
    (record w { threads = threads; runs = roll_up t.run_id threads w.runs }, ok c)

unfoldable pub settle_cost : Services → ℕ → String → World → World × Result (Unit {0}) ℕ
unfolding read_back
settle_cost s now id w = elim (Dict.get id w.threads) [
  | none ↦ (w, ok 0)
  | some t ↦ elim (present t.gateway_key) [
    | none ↦ (w, ok 0)
    | some k ↦ read_back now id t (s.spend_of k) w
  ]
]

-- `release_key`: the call is made; whether the gateway deletes the key (`deletes`) is logged and forgotten.
unfoldable pub release_key : String → World → World
release_key id w = record w {
  calls = elim (Dict.get id w.threads) [
    | none ↦ w.calls
    | some t ↦ elim (present t.gateway_key) [ none ↦ w.calls | some k ↦ delete_key k ∷ w.calls ]
  ];
}

abbrev pub clear_key : Thread → Thread
clear_key t = record t { gateway_key = none; gateway_key_alias = none }

-- `_cleanup_terminal`
unfoldable pub cleanup_terminal : Services → ℕ → String → World → World
unfolding settle_cost release_key
cleanup_terminal s now id w = elim (Dict.get id w.threads) [
  | none ↦ w
  | some t ↦ elim (present t.gateway_key) [
    | none ↦ w
    | some k ↦ edit_thread id clear_key (release_key id (settle_cost s now id w).0)
  ]
]

-- `_mark`
unfoldable pub mark : Services → ℕ → String → String → World → World
unfolding terminal_statuses
mark s now id status w =
    let w' = edit_thread id (λ t. record t { status = status }) w in
    if elem status terminal_statuses then cleanup_terminal s now id w' else w'
