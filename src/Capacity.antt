-- ===== src/Capacity.antt =====
-- backend/app/orchestrator/semaphores.py: the global thread cap and the per-repo write lock, with the
-- reservations that close the gap between a check and the thread's row. The proofs are in the
-- children.
--
-- The tables are lists of rows. The database's answers are computed from them; the time, the token of
-- `uuid4`, the settings, and the rows that other replicas commit between a check and an insert
-- (`between`) are arguments.
pub mod System
pub mod Steps
pub mod Writers
pub mod Replicas
use z_agent.Base.{
  ℕ, zero, suc, ◌+◌, ◌-◌, ◌*◌, ◌/◌, ◌%◌, ◌≤◌, ◌<◌, String, ◌≡◌, refl, sym, ap, ◌∙◌, ◌≢◌, ◌↔◌, ◌⊎◌,
  inl, inr, Bool, true, false, not, ◌&&◌, ◌||◌, Option, none, some, List, [], ◌∷◌, ◌++◌, map, arith,
  str_eq, eq_iff, ltb, leb, ◌==◌, if◌then◌else◌, Bool-cases, Option-cases, ltb→lt, leb→le, is_some,
  length, any, all, filter, count, take, drop, head?, All, length-append, count-append, count-le,
  length-drop, length-take, All-append, any-append, codes, elem, eq_self, elem-append, Result, ok,
  raise, or_else,
}

-- `CAPACITY_STATUSES`
unfoldable pub capacity_statuses : List String
capacity_statuses = "queued" ∷ "running" ∷ "idle" ∷ "interrupted" ∷ "input_required" ∷ []

-- `RESERVATION_TTL_S`
abbrev pub reservation_ttl_s : ℕ
reservation_ttl_s = 300

pub record ThreadRow : Type 0 where
  pub status : String
  pub repo_scope : Option String

pub record Reservation : Type 0 where
  pub token : String
  pub repo_scope : Option String
  pub created_at : ℕ

-- `reserved_writable` is a set. Tokens are kept with the one reserved last in front.
pub record Capacity : Type 0 where
  pub reserved : ℕ
  pub reserved_writable : List String
  pub db_tokens : List (String × Option String)

pub data Refusal : Type 0 where
  cap_reached : ℕ → Refusal
  repo_busy : Option String → Refusal

-- `if writable_repo:`, which neither None nor the empty text passes.
abbrev pub writable : Option String → Option String
writable none = none
writable (some r) = if str_eq r "" then none else some r

unfoldable pub holds_capacity : ThreadRow → Bool
unfolding capacity_statuses
holds_capacity t = elem t.status capacity_statuses

abbrev pub scope_is : String → Option String → Bool
scope_is r none = false
scope_is r (some s) = str_eq s r

unfoldable pub active_thread_count : List ThreadRow → ℕ
active_thread_count = count holds_capacity

-- A thread that counts, on the repo.
unfoldable pub is_on : String → ThreadRow → Bool
is_on r t = holds_capacity t && scope_is r t.repo_scope

unfoldable pub threads_on : String → List ThreadRow → ℕ
unfolding is_on
threads_on r = count (is_on r)

unfoldable pub reservations_on : String → List Reservation → ℕ
reservations_on r = count (λ v. scope_is r v.repo_scope)

-- Whether a row of the table has the repo; a null repo meets none.
unfoldable pub repo_conflict : Option String → List Reservation → Bool
repo_conflict none table = false
repo_conflict (some r) table = ltb 0 (reservations_on r table)

-- The unique partial index: an insert fails if a row has the same repo, and the repo is not null.
unfoldable pub insert_reservation : Reservation → List Reservation → Option (List Reservation)
insert_reservation row table =
    if repo_conflict row.repo_scope table then none else some (row ∷ table)

-- The delete of the rows older than the cutoff, `now - RESERVATION_TTL_S`.
unfoldable pub sweep : ℕ → List Reservation → List Reservation
sweep now = filter (λ v. not (ltb (v.created_at + reservation_ttl_s) now))

-- What `_db_reserve` leaves: the object, the table, and the answer. A refusal before the insert rolls
-- the sweep back; a collision at the insert rolls back to what the other replicas have committed.
unfoldable pub db_reserve :
    ℕ
    → ℕ
    → Option String
    → ℕ
    → String
    → List Reservation
    → Capacity
    → List Reservation
    → Capacity × List Reservation × Result Refusal (Unit {0})
unfolding sweep insert_reservation
db_reserve cap active repo now token between c table =
    let swept = sweep now table in
    if leb cap (active + length swept)
    then (c, table, raise (cap_reached cap))
    else if repo_conflict (writable repo) swept
    then (c, table, raise (repo_busy repo))
    else elim (insert_reservation (record { token = token; repo_scope = repo; created_at = now })
        (between ++ swept)) [
          | none ↦ (c, between ++ table, raise (repo_busy repo))
          | some table' ↦ (record c { db_tokens = (token, repo) ∷ c.db_tokens }, table', ok tt)
        ]

-- `_db_release`: the argument is not read.
unfoldable pub db_release :
    Option String → Capacity → List Reservation → Capacity × List Reservation
db_release repo c table = elim c.db_tokens [
  | [] ↦ (c, table)
  | t ∷ tokens ↦ (record c { db_tokens = tokens }, filter (λ v. not (str_eq v.token t.0)) table)
]

-- `self._reserved_writable.add(repo)`
abbrev pub add_repo : Option String → List String → List String
add_repo none rs = rs
add_repo (some r) rs = if elem r rs then rs else r ∷ rs

-- `self._reserved_writable.discard(repo)`
abbrev pub discard_repo : Option String → List String → List String
discard_repo none rs = rs
discard_repo (some r) rs = filter (λ s. not (str_eq s r)) rs

-- The conflict checks of `try_acquire` on a repo that is to be written.
unfoldable pub write_conflict : Option String → Capacity → List ThreadRow → Bool
write_conflict none c threads = false
write_conflict (some r) c threads = elem r c.reserved_writable || ltb 0 (threads_on r threads)

unfoldable pub reserve : Option String → Capacity → Capacity
reserve repo c = record c {
  reserved = c.reserved + 1;
  reserved_writable = add_repo (writable repo) c.reserved_writable;
}

-- `try_acquire`, with `feature_db_concurrency` on or off.
unfoldable pub try_acquire :
    ℕ
    → Bool
    → Option String
    → ℕ
    → String
    → List Reservation
    → List ThreadRow
    → Capacity
    → List Reservation
    → Capacity × List Reservation × Result Refusal (Unit {0})
unfolding write_conflict reserve
try_acquire cap db repo now token between threads c table =
    let active = active_thread_count threads in
    let (c', table', answer) = db_reserve cap active repo now token between c table in
    if leb cap (active + c.reserved)
    then (c, table, raise (cap_reached cap))
    else if write_conflict (writable repo) c threads
    then (c, table, raise (repo_busy repo))
    else if db
    then elim answer [ raise e ↦ (c', table', raise e) | ok u ↦ (reserve repo c', table', ok tt) ]
    else (reserve repo c, table, ok tt)

-- `commit_reservation`, which is `release` too. The subtraction stops at 0, as `max(0, …)` does.
unfoldable pub commit_reservation :
    Bool → Option String → Capacity → List Reservation → Capacity × List Reservation
commit_reservation db repo c table =
    let c' = record c {
      reserved = c.reserved - 1;
      reserved_writable = discard_repo (writable repo) c.reserved_writable;
    } in
    if db then db_release repo c' table else (c', table)
