-- ===== src/Engine/Background.antt =====
-- worker/worker/engine/tools/background.py: the jobs of the background terminal. The proofs are in the children.
--
-- A job has the fields that its operations read; is_signalled says that SIGTERM was sent. A turn of the pump's
-- loop has its time and what the read gave, with the time after it; a chunk has its size, its lines and what the
-- watch pattern matches in it. The manager's jobs are in the order in which they were started. The texts of the
-- header, the footer and a note are arguments.
pub mod Window
pub mod Ring
pub mod Ceiling
pub mod Notes
use z_agent.Base.{
  ℕ, zero, suc, ◌+◌, ◌-◌, ◌*◌, ◌/◌, ◌%◌, ◌≤◌, ◌<◌, String, ◌≡◌, refl, sym, ap, ◌∙◌, ◌≢◌, ◌↔◌, ◌⊎◌,
  inl, inr, Bool, true, false, not, ◌&&◌, ◌||◌, Option, none, some, List, [], ◌∷◌, ◌++◌, map, arith,
  str_eq, eq_iff, ltb, leb, ◌==◌, if◌then◌else◌, Bool-cases, Option-cases, ltb→lt, leb→le, is_some,
  length, any, all, filter, count, take, drop, head?, All, length-append, count-append, count-le,
  length-drop, length-take, All-append, any-append, codes, elem, eq_self, elem-append, take_text,
  Result, ok, raise, or_else,
}
use z_agent.Base.{take_text, str_append}

-- `OUTPUT_CEILING_BYTES`, `RING_BUFFER_LINES`, `MAX_OUTPUT_CHARS`, `WATCH_DEBOUNCE_S`
abbrev pub output_ceiling_bytes : ℕ
output_ceiling_bytes = 16777216

abbrev pub ring_buffer_lines : ℕ
ring_buffer_lines = 2000

abbrev pub max_output_chars : ℕ
max_output_chars = 32768

abbrev pub watch_debounce_s : ℕ
watch_debounce_s = 5

pub data ExitStatus : Type 0 where
  exited : ℕ → ExitStatus
  signalled : ℕ → ExitStatus

pub record BackgroundJob : Type 0 where
  pub job_id : String
  pub command : String
  pub thread_id : Option String
  pub has_watch : Bool
  pub has_proc : Bool
  pub is_signalled : Bool
  pub ring : List String
  pub total_bytes : ℕ
  pub exit_code : Option ExitStatus
  pub killed_by : Option String
  pub last_watch_hit : ℕ
  pub watch_hits : List String
  pub is_notified : Bool

abbrev pub is_running : BackgroundJob → Bool
is_running job = not (is_some job.exit_code)

-- `deque(maxlen=n)` after an extension: the last n
abbrev pub keep_last : ℕ → List String → List String
keep_last n xs = drop (length xs - n) xs

-- `TerminalManager.kill` of a job, and whether it was alive
unfoldable pub kill : String → BackgroundJob → BackgroundJob × Bool
kill reason job = if not (is_running job) || not job.has_proc then (job, false) else (
  record job {
    is_signalled = true;
    killed_by = elim job.killed_by [ some r ↦ some r | none ↦ some reason ];
  },
  true,
)

-- The pump kills its job for a reason that is set first.
unfoldable pub kill_for : String → BackgroundJob → BackgroundJob
kill_for reason job = (kill reason (record job { killed_by = some reason })).0

-- What one read gives.
pub data Read : Type 0 where
  silence : Read
  eof : Read
  chunk : ℕ → ℕ → List String → Option String → Read

-- A hit of the watch pattern, at most one in five seconds.
unfoldable pub watch : ℕ → Option String → BackgroundJob → BackgroundJob
watch now hit job =
    if job.has_watch && leb watch_debounce_s (now - job.last_watch_hit)
    then elim hit [
      | none ↦ job
      | some text ↦ record job { last_watch_hit = now; watch_hits = job.watch_hits ++ (text ∷ []) }
    ]
    else job

unfoldable pub take_chunk : ℕ → List String → BackgroundJob → BackgroundJob
take_chunk size lines job = record job {
  total_bytes = job.total_bytes + size;
  ring = keep_last ring_buffer_lines (job.ring ++ lines);
}

-- One turn of the loop of `_pump_loop`, and whether there is another.
unfoldable pub pump_one : ℕ → ℕ → Read → BackgroundJob → BackgroundJob × Bool
pump_one deadline now read job =
    if ltb output_ceiling_bytes job.total_bytes
    then (kill_for "ceiling" job, false)
    else if ltb deadline now
    then (kill_for "timeout" job, false)
    else elim read [
      | silence ↦ (job, true)
      | eof ↦ (job, false)
      | chunk size later lines hit ↦
          if ltb output_ceiling_bytes (watch later hit (take_chunk size lines job)).total_bytes
          then (kill_for "ceiling" (watch later hit (take_chunk size lines job)), false)
          else (watch later hit (take_chunk size lines job), true)
    ]

-- `_pump_loop`, over the turns in their order
unfoldable pub pump_loop : ℕ → List (ℕ × Read) → BackgroundJob → BackgroundJob
pump_loop deadline [] job = job
pump_loop deadline ((now, read) ∷ reads) job =
    let next = pump_one deadline now read job in
    let rest = pump_loop deadline reads next.0 in if next.1 then rest else next.0

-- The verdict of `_pump` when its loop ended and the process was reaped.
unfoldable pub end_pump : ExitStatus → BackgroundJob → BackgroundJob
end_pump rc job = record job {
  exit_code = some (elim job.killed_by [
    | none ↦ rc
    | some reason ↦ if str_eq reason "timeout" then exited 124 else rc
  ]);
}

-- A thread skips the jobs of the others.
abbrev pub is_skipped : Option String → BackgroundJob → Bool
is_skipped none job = false
is_skipped (some t) job = elim job.thread_id [ none ↦ false | some own ↦ not (str_eq own t) ]

abbrev pub is_due : Option String → BackgroundJob → Bool
is_due thread_id job =
    not (is_skipped thread_id job) && (not (is_running job) && not job.is_notified)

-- A job after its notes are taken.
abbrev pub noted : Option String → BackgroundJob → BackgroundJob
noted t job =
    if is_skipped t job
    then job
    else record job { is_notified = job.is_notified || not (is_running job); watch_hits = [] }

module _ (done_note : BackgroundJob → String) (hit_note : BackgroundJob → String → String) where
  unfoldable pub done_notes : Option String → List BackgroundJob → List String
  done_notes t [] = []
  done_notes t (job ∷ jobs) =
      if is_due t job then done_note job ∷ done_notes t jobs else done_notes t jobs

  unfoldable pub hit_notes : Option String → List BackgroundJob → List String
  hit_notes t [] = []
  hit_notes t (job ∷ jobs) =
      if is_skipped t job
      then hit_notes t jobs
      else map (hit_note job) job.watch_hits ++ hit_notes t jobs

  -- `completed_notifications`
  unfoldable pub completed_notifications :
      Option String → List BackgroundJob → List String × List BackgroundJob
  completed_notifications t jobs = (done_notes t jobs ++ hit_notes t jobs, map (noted t) jobs)

-- `lines[-n:]`, which is the whole list for zero
abbrev pub last_lines : ℕ → List String → List String
last_lines n xs = if n == 0 then xs else drop (length xs - n) xs

-- The lines of `render`, with the middle left out.
unfoldable pub body_lines : (ℕ → String) → ℕ → List String → List String
body_lines omitted tail lines =
    if ltb tail (length lines)
    then take (tail / 2) lines
      ++ (omitted (length lines - tail) ∷ last_lines (tail - tail / 2) lines)
    else lines

abbrev pub join_lines : List String → String
join_lines [] = ""
join_lines (l ∷ []) = l
join_lines (l ∷ k ∷ ls) = str_append l (str_append "\n" (join_lines (k ∷ ls)))

-- `TerminalManager.render`
unfoldable pub render :
    (ℕ → String) → (BackgroundJob → String) → (BackgroundJob → String) → ℕ → BackgroundJob → String
render omitted header footer tail job = take_text max_output_chars (
    str_append (header job)
      (str_append (join_lines (body_lines omitted tail job.ring)) (footer job)))
