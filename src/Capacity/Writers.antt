-- ===== src/Capacity/Writers.antt =====
-- One process: the cap and the single writer, over every interleaving of spawns and threads.
use z_agent.Base.{ℕ, ◌+◌, ◌≤◌, String, ◌≡◌, false, arith, str_eq, length}
use z_agent.Capacity.{active_thread_count, threads_on}
use z_agent.Capacity.System.{
  System, Step, acquire, commit, fail, change, Reach, here, next, pending_on, Inv,
}
use z_agent.Capacity.Steps.{try_acquire-Granted, acquire-Inv, commit-Inv, fail-Inv, change-Inv}

Step-Inv : {cap : ℕ} {s t : System} → Step cap s t → Inv cap s → Inv cap t
Step-Inv {cap} {s} (acquire repo {c = c} h) v =
    acquire-Inv cap s repo c v (try_acquire-Granted cap s repo c h)
Step-Inv {cap} {s} (commit before after repo e) v = commit-Inv cap s before after repo v e
Step-Inv {cap} {s} (fail before after repo e) v = fail-Inv cap s before after repo v e
Step-Inv {cap} {s} (change before after t status e h) v =
    change-Inv cap s before after t status v e h

-- Every state that interleaved spawns reach from a state with the invariant has the invariant.
pub Reach-Inv : {cap : ℕ} {s t : System} → Reach cap s t → Inv cap s → Inv cap t
Reach-Inv here v = v
Reach-Inv (next r st) v = Step-Inv st (Reach-Inv r v)

-- In one process, with the reservations of the process only: from a state where the reservations are
-- counted, the threads and the reservations fit the cap and no repo has two writers, however spawns
-- acquire, commit and fail and threads change their status, as long as a thread that holds no capacity
-- never holds it again: the threads that hold capacity and the pending spawns together never pass the cap, and
-- no named repo ever has more than one such thread or pending spawn.
pub cap_and_single_writer :
    {cap : ℕ} {s t : System}
    → Inv cap s
    → Reach cap s t
    → (active_thread_count t.threads + length t.pending ≤ cap)
      × ((r : String) → str_eq r "" ≡ false → threads_on r t.threads + pending_on r t.pending ≤ 1)
cap_and_single_writer {cap} v reach =
    let w = Reach-Inv reach v in (omega (arith, w.fits, w.counted), w.single)
