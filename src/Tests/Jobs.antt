-- ===== src/Tests/Jobs.antt =====
-- The background terminal at concrete inputs.
use z_agent.Base.{
  ℕ, ◌+◌, String, ◌≡◌, refl, true, false, none, some, List, [], ◌∷◌, ◌++◌, is_some, all, take,
}
use z_agent.Engine.Background.{
  BackgroundJob, Read, silence, eof, chunk, exited, pump_loop, pump_one, watch, take_chunk,
  end_pump, completed_notifications, done_notes, hit_notes,
}
use z_agent.Engine.Background.Ring.{Holds, IsCut, lines_of, bytes_of, pump_loop-Holds}

abbrev build : BackgroundJob
build = record {
  job_id = "job-1";
  command = "make";
  thread_id = some "t1";
  has_watch = true;
  has_proc = true;
  is_signalled = false;
  ring = [];
  total_bytes = 0;
  exit_code = none;
  killed_by = none;
  last_watch_hit = 0;
  watch_hits = [];
  is_notified = false;
}

abbrev reads : List (ℕ × Read)
reads =
    (10, chunk 12 10 ("cc a.c" ∷ "cc b.c" ∷ []) none)
    ∷ (11, silence)
    ∷ (12, chunk 4096 12 ("error: b.c" ∷ []) (some "error"))
    ∷ (13, eof)
    ∷ []

abbrev built : BackgroundJob
built = pump_loop 7200 reads build

built-lines :
    (built.ring ≡ "cc a.c" ∷ "cc b.c" ∷ "error: b.c" ∷ []) × (built.watch_hits ≡ "error" ∷ [])
unfolding pump_loop pump_one watch take_chunk
built-lines = (refl, refl)

pump_loop-Holds_example :
    (k : ℕ) × IsCut reads k built
    × Holds ([] ++ lines_of (take k reads)) (0 + bytes_of (take k reads)) built
pump_loop-Holds_example = pump_loop-Holds 7200 reads [] 0 build (refl, refl)

abbrev ended : BackgroundJob
ended = end_pump (exited 2) built

abbrev test : BackgroundJob
test = record ended { job_id = "job-2"; thread_id = some "t2" }

abbrev done_note : BackgroundJob → String
done_note job = job.job_id

abbrev hit_note : BackgroundJob → String → String
hit_note job hit = hit

first-notes :
    (completed_notifications done_note hit_note (some "t1") (ended ∷ test ∷ [])).0
    ≡ "job-1" ∷ "error" ∷ []
unfolding completed_notifications done_notes hit_notes end_pump pump_loop pump_one watch take_chunk
first-notes = refl

both-owned : all (λ job. is_some job.thread_id) (ended ∷ test ∷ []) ≡ true
unfolding end_pump pump_loop pump_one watch take_chunk
both-owned = refl
