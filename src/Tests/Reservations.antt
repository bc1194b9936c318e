-- ===== src/Tests/Reservations.antt =====
-- Capacity and its reservations at concrete inputs.
use z_agent.Base.{◌+◌, ◌≤◌, String, ◌≡◌, refl, true, false, some, [], ◌∷◌, arith, str_eq, length}
use z_agent.Capacity.{
  Reservation, Capacity, active_thread_count, threads_on, reservations_on, commit_reservation,
  try_acquire,
}
use z_agent.Capacity.System.{System, Reach, here, next, acquire, commit, pending_on, Inv}
use z_agent.Capacity.Writers.{cap_and_single_writer}
use z_agent.Capacity.Replicas.{IsUnique, commit-frees_last_reserved}

abbrev idle_process : System
idle_process = record {
  capacity = record { reserved = 0; reserved_writable = []; db_tokens = [] };
  threads = [];
  pending = [];
}

abbrev one_writer : Capacity
one_writer = record { reserved = 1; reserved_writable = "api" ∷ []; db_tokens = [] }

abbrev acquired : System
acquired = record { capacity = one_writer; threads = []; pending = some "api" ∷ [] }

abbrev spawned : System
spawned = record {
  capacity = record { reserved = 0; reserved_writable = []; db_tokens = [] };
  threads = (record { status = "queued"; repo_scope = some "api" }) ∷ [];
  pending = [];
}

idle_process-Inv : Inv 2 idle_process
unfolding active_thread_count threads_on pending_on
idle_process-Inv = record {
  counted = refl;
  fits = omega arith;
  single = λ r n. omega arith;
  held = λ r n p. absurd (omega arith);
}

Reach-spawned : Reach 2 idle_process spawned
unfolding try_acquire active_thread_count threads_on commit_reservation
Reach-spawned = next (next here (acquire (some "api") refl)) (commit [] [] (some "api") refl)

cap_and_single_writer_example :
    (active_thread_count spawned.threads + length spawned.pending ≤ 2)
    × ((r : String)
        → str_eq r "" ≡ false
        → threads_on r spawned.threads + pending_on r spawned.pending ≤ 1)
cap_and_single_writer_example = cap_and_single_writer idle_process-Inv Reach-spawned

abbrev row_of : String → String → Reservation
row_of t r = record { token = t; repo_scope = some r; created_at = 0 }

no_rows-IsUnique : IsUnique []
unfolding reservations_on
no_rows-IsUnique r = omega arith

abbrev first : Capacity
first = record { reserved = 0; reserved_writable = []; db_tokens = [] }

abbrev two_in_flight : Capacity
two_in_flight = record {
  reserved = 2;
  reserved_writable = "web" ∷ "api" ∷ [];
  db_tokens = ("k2", some "web") ∷ ("k1", some "api") ∷ [];
}

commit-frees_last_reserved_example :
    let table =
      (commit_reservation true
        (some "api")
        two_in_flight
        (row_of "k2" "web" ∷ row_of "k1" "api" ∷ [])).1 in
    (reservations_on "web" table ≡ 0) × (1 ≤ reservations_on "api" table)
unfolding reservations_on
commit-frees_last_reserved_example =
    commit-frees_last_reserved "api" "web" "k1" "k2" 0 0 two_in_flight [] [] refl refl refl refl
      refl
