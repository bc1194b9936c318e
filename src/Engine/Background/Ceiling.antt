-- ===== src/Engine/Background/Ceiling.antt =====
-- The ceiling of a job's output.
use z_agent.Base.{ℕ, ◌+◌, ◌≤◌, ◌≡◌, Bool, true, List, [], ◌∷◌, arith, leb, all}
use z_agent.Engine.Background.{
  BackgroundJob, Read, silence, eof, chunk, output_ceiling_bytes, kill, kill_for, watch, take_chunk,
  pump_one, pump_loop,
}
use z_agent.Engine.Background.Ring.{bytes_read}

-- Each chunk has at most n bytes.
abbrev pub is_small : ℕ → ℕ × Read → Bool
is_small n (now, read) = leb (bytes_read read) n

pump_one-total :
    (deadline now n : ℕ) (read : Read) (job : BackgroundJob)
    → bytes_read read ≤ n
    → job.total_bytes ≤ output_ceiling_bytes + n
    → (pump_one deadline now read job).0.total_bytes ≤ output_ceiling_bytes + n
unfolding pump_one kill_for kill watch take_chunk
pump_one-total deadline now n silence job small h = ground arith
pump_one-total deadline now n eof job small h = ground arith
pump_one-total deadline now n (chunk size later lines hit) job small h = ground arith

-- The output that a job captures is bounded: with chunks of at most n bytes it exceeds the ceiling of 16
-- MiB by n at most, however long the process writes, if it did not exceed it by more at the start.
pub pump_loop-total_bytes :
    (deadline n : ℕ) (reads : List (ℕ × Read)) (job : BackgroundJob)
    → all (is_small n) reads ≡ true
    → job.total_bytes ≤ output_ceiling_bytes + n
    → (pump_loop deadline reads job).total_bytes ≤ output_ceiling_bytes + n
unfolding pump_loop
pump_loop-total_bytes deadline n [] job small h = h
pump_loop-total_bytes deadline n ((now, read) ∷ reads) job small h =
    let next = pump_one deadline now read job in
    let one = pump_one-total deadline now n read job (ground arith) h in
    let rest = pump_loop-total_bytes deadline n reads next.0 (ground arith) one in ground arith
