-- ===== src/Capacity/System.antt =====
-- One process with the database reservations off: its spawns and threads as a step relation, and what
-- holds between two steps.
use z_agent.Base.{
  ℕ, ◌+◌, ◌≤◌, ◌<◌, String, ◌≡◌, true, false, Option, List, [], ◌∷◌, ◌++◌, str_eq, length, count,
  elem, ok,
}
use z_agent.Capacity.{
  ThreadRow, Capacity, holds_capacity, scope_is, active_thread_count, threads_on, try_acquire,
  commit_reservation,
}

-- The process, the threads table, and the spawns between `try_acquire` and their row, by repo.
pub record System : Type 0 where
  pub capacity : Capacity
  pub threads : List ThreadRow
  pub pending : List (Option String)

-- A live thread may take any status; one that holds no capacity stays so.
abbrev pub MayBecome : ThreadRow → String → Type 0
MayBecome t s = holds_capacity t ≡ false → holds_capacity (record t { status = s }) ≡ false

-- What can happen, with the database reservations off: a spawn acquires; a pending spawn inserts its
-- row and commits, or fails and releases; a thread changes its status.
pub data Step (cap : ℕ) (s : System) : System → Type 0 where
  acquire :
      (repo : Option String) {c : Capacity}
      → try_acquire cap false repo 0 "" [] s.threads s.capacity [] ≡ (c, [], ok tt)
      → Step cap s (record s { capacity = c; pending = repo ∷ s.pending })
  commit :
      (before after : List (Option String)) (repo : Option String)
      → s.pending ≡ before ++ repo ∷ after
      → Step cap s (record {
        capacity = (commit_reservation false repo s.capacity []).0;
        threads = (record { status = "queued"; repo_scope = repo }) ∷ s.threads;
        pending = before ++ after;
      })
  fail :
      (before after : List (Option String)) (repo : Option String)
      → s.pending ≡ before ++ repo ∷ after
      → Step cap s (record s {
        capacity = (commit_reservation false repo s.capacity []).0;
        pending = before ++ after;
      })
  change :
      (before after : List ThreadRow) (t : ThreadRow) (status : String)
      → s.threads ≡ before ++ t ∷ after
      → MayBecome t status
      → Step cap s (record s { threads = before ++ (record t { status = status }) ∷ after })

pub data Reach (cap : ℕ) (s : System) : System → Type 0 where
  here : Reach cap s s
  next : {t u : System} → Reach cap s t → Step cap t u → Reach cap s u

unfoldable pub pending_on : String → List (Option String) → ℕ
pending_on r = count (scope_is r)

pub record Inv (cap : ℕ) (s : System) : Type 0 where
  pub counted : s.capacity.reserved ≡ length s.pending
  pub fits : active_thread_count s.threads + s.capacity.reserved ≤ cap
  pub single :
      (r : String) → str_eq r "" ≡ false → threads_on r s.threads + pending_on r s.pending ≤ 1
  pub held :
      (r : String)
      → str_eq r "" ≡ false
      → 0 < pending_on r s.pending
      → elem r s.capacity.reserved_writable ≡ true
