-- ===== src/Engine/Background/Ring.antt =====
-- The ring of a job holds the end of its output.
use z_agent.Base.{
  ℕ, suc, ◌+◌, String, ◌≡◌, refl, sym, ap, ◌∙◌, ◌⊎◌, inl, inr, Bool, true, false, Option, List, [],
  ◌∷◌, ◌++◌, arith, ltb, if◌then◌else◌, Bool-cases, is_some, length, any, take,
}
use z_agent.Engine.Background.{
  BackgroundJob, Read, silence, eof, chunk, keep_last, ring_buffer_lines, output_ceiling_bytes,
  kill, kill_for, watch, take_chunk, pump_one, pump_loop,
}
use z_agent.Engine.Background.Window.{append_nil, append_assoc, keep_last-append}

abbrev pub lines_read : Read → List String
lines_read silence = []
lines_read eof = []
lines_read (chunk size later lines hit) = lines

abbrev pub bytes_read : Read → ℕ
bytes_read silence = 0
bytes_read eof = 0
bytes_read (chunk size later lines hit) = size

-- The output of the reads: their lines, and their bytes.
abbrev pub lines_of : List (ℕ × Read) → List String
lines_of [] = []
lines_of ((now, read) ∷ reads) = lines_read read ++ lines_of reads

abbrev pub bytes_of : List (ℕ × Read) → ℕ
bytes_of [] = 0
bytes_of ((now, read) ∷ reads) = bytes_read read + bytes_of reads

-- The ring and the count of a job hold an output: its end and its size.
abbrev pub Holds : List String → ℕ → BackgroundJob → Type 0
Holds log bytes job = (job.ring ≡ keep_last ring_buffer_lines log) × (job.total_bytes ≡ bytes)

kill_for-Holds :
    (log : List String) (bytes : ℕ) (reason : String) (job : BackgroundJob)
    → Holds log bytes job
    → Holds log bytes (kill_for reason job)
unfolding kill_for kill
kill_for-Holds log bytes reason job h = ground arith

chunk-Holds :
    (log : List String) (bytes now size : ℕ) (lines : List String) (hit : Option String)
    (job : BackgroundJob)
    → Holds log bytes job
    → Holds (log ++ lines) (bytes + size) (watch now hit (take_chunk size lines job))
unfolding watch take_chunk
chunk-Holds log bytes now size lines hit job (ring, total) =
    let kept : keep_last ring_buffer_lines (job.ring ++ lines)
        ≡ keep_last ring_buffer_lines (log ++ lines) =
      ap (λ r. keep_last ring_buffer_lines (r ++ lines)) ring
      ∙ keep_last-append ring_buffer_lines log lines in
    ground arith

-- The job holds the output that has more behind it, if the more is empty.
more-Holds :
    (log lines : List String) (bytes size : ℕ) (job : BackgroundJob)
    → lines ≡ []
    → size ≡ 0
    → Holds log bytes job
    → Holds (log ++ lines) (bytes + size) job
more-Holds log lines bytes size job none_more no_size (ring, total) = (
  ring ∙ ap (keep_last ring_buffer_lines) (sym (ap (λ ls. log ++ ls) none_more ∙ append_nil log)),
  omega (arith, total, no_size),
)

-- A turn that ends the loop before it reads leaves the output as it was; any other adds what it read.
pump_one-Holds :
    (deadline now : ℕ) (read : Read) (log : List String) (bytes : ℕ) (job : BackgroundJob)
    → Holds log bytes job
    → (((pump_one deadline now read job).1 ≡ false)
        × Holds log bytes (pump_one deadline now read job).0)
      ⊎ Holds (log ++ lines_read read) (bytes + bytes_read read) (pump_one deadline now read job).0
unfolding pump_one
pump_one-Holds deadline now read log bytes job h =
    elim (Bool-cases (ltb output_ceiling_bytes job.total_bytes)) [
      | inl over ↦
          inl (ground arith, rw (over, pump_one) (kill_for-Holds log bytes "ceiling" job h))
      | inr under ↦ elim (Bool-cases (ltb deadline now)) [
        | inl late ↦ inl (
          ground arith,
          rw (under, pump_one) (rw (late, pump_one) (kill_for-Holds log bytes "timeout" job h)),
        )
        | inr early ↦
            elim read
              as (λ r.
                (((pump_one deadline now r job).1 ≡ false)
                  × Holds log bytes (pump_one deadline now r job).0)
                ⊎ Holds (log ++ lines_read r) (bytes + bytes_read r)
                    (pump_one deadline now r job).0) [
                      | silence ↦ inr (
                          rw (under, pump_one)
                            (rw (early, pump_one) (more-Holds log [] bytes 0 job refl refl h)))
                      | eof ↦ inr (
                          rw (under, pump_one)
                            (rw (early, pump_one) (more-Holds log [] bytes 0 job refl refl h)))
                      | chunk size later lines hit ↦
                          let next = watch later hit (take_chunk size lines job) in
                          let held = chunk-Holds log bytes later size lines hit job h in
                          elim (Bool-cases (ltb output_ceiling_bytes next.total_bytes)) [
                            | inl over ↦ inr (
                                rw (under, pump_one)
                                  (rw (early, pump_one)
                                    (rw (over, pump_one)
                                      (kill_for-Holds (log ++ lines) (bytes + size) "ceiling" next
                                        held))))
                            | inr fits ↦ inr (
                                rw (under, pump_one)
                                  (rw (early, pump_one) (rw (fits, pump_one) held)))
                          ]
                    ]
      ]
    ]

-- Output that is held by parts is held whole.
joined-Holds :
    (log first rest : List String) (bytes size more : ℕ) (job : BackgroundJob)
    → Holds ((log ++ first) ++ rest) ((bytes + size) + more) job
    → Holds (log ++ (first ++ rest)) (bytes + (size + more)) job
joined-Holds log first rest bytes size more job (ring, total) =
    (ring ∙ ap (keep_last ring_buffer_lines) (append_assoc log first rest), omega (arith, total))

abbrev pub is_eof : ℕ × Read → Bool
is_eof (now, silence) = false
is_eof (now, eof) = true
is_eof (now, chunk size later lines hit) = false

-- The loop ends by a kill or the end of the output.
pump_one-ends :
    (deadline now : ℕ) (read : Read) (job : BackgroundJob)
    → (pump_one deadline now read job).1 ≡ false
    → (is_some (pump_one deadline now read job).0.killed_by ≡ true) ⊎ (is_eof (now, read) ≡ true)
unfolding pump_one kill_for kill
pump_one-ends deadline now silence job h = ground arith
pump_one-ends deadline now eof job h = inr refl
pump_one-ends deadline now (chunk size later lines hit) job h = ground arith

-- Why a loop over the reads took only some of them.
abbrev pub IsCut : List (ℕ × Read) → ℕ → BackgroundJob → Type 0
IsCut reads k job = (k ≡ length reads) ⊎ (is_some job.killed_by ≡ true) ⊎ (any is_eof reads ≡ true)

-- The loop of the pump refines an unbounded log: if the ring is the end of an output, two thousand lines of it at
-- most, and the count its size, then so they are after the loop, of that output with what the first reads gave
-- behind it; and these are all the reads, unless the job was killed or the output came to its end.
pub pump_loop-Holds :
    (deadline : ℕ) (reads : List (ℕ × Read)) (log : List String) (bytes : ℕ) (job : BackgroundJob)
    → Holds log bytes job
    → (k : ℕ) × IsCut reads k (pump_loop deadline reads job)
      × Holds
          (log ++ lines_of (take k reads))
          (bytes + bytes_of (take k reads))
          (pump_loop deadline reads job)
unfolding pump_loop
pump_loop-Holds deadline [] log bytes job h =
    (0, inl refl, more-Holds log [] bytes 0 job refl refl h)
pump_loop-Holds deadline ((now, read) ∷ reads) log bytes job h =
    let next = pump_one deadline now read job in
    let out = pump_loop deadline ((now, read) ∷ reads) job in
    elim (Bool-cases next.1) [
      | inr stops ↦
          let ended : out ≡ next.0 =
            ap (λ b. if b then pump_loop deadline reads next.0 else next.0) stops in
          let why = pump_one-ends deadline now read job stops in
          let cut : (is_some out.killed_by ≡ true) ⊎ (any is_eof ((now, read) ∷ reads) ≡ true) =
            elim why [
              | inl killed ↦ inl (ap (λ x. is_some x.killed_by) ended ∙ killed)
              | inr end ↦ inr (ground arith)
            ] in
          elim (pump_one-Holds deadline now read log bytes job h) [
            | inl (_, held) ↦ (
              0,
              inr cut,
              rw (stops, pump_loop) (more-Holds log [] bytes 0 next.0 refl refl held),
            )
            | inr held ↦ (
              1,
              inr cut,
              rw (stops, pump_loop)
                  (joined-Holds log (lines_read read) [] bytes (bytes_read read) 0 next.0 (
                    more-Holds (log ++ lines_read read) [] (bytes + bytes_read read) 0 next.0 refl
                      refl held)),
            )
          ]
      | inl goes ↦
          let on : out ≡ pump_loop deadline reads next.0 =
            ap (λ b. if b then pump_loop deadline reads next.0 else next.0) goes in
          elim (pump_one-Holds deadline now read log bytes job h) [
            | inl (stops, _) ↦ absurd (ground arith)
            | inr held ↦
                let (k, cut, rest) =
                  pump_loop-Holds deadline reads (log ++ lines_read read) (bytes + bytes_read read)
                    next.0 held in
                (
                  suc k,
                  elim cut [
                    | inl whole ↦ inl (omega (arith, whole))
                    | inr (inl killed) ↦ inr (inl (ap (λ x. is_some x.killed_by) on ∙ killed))
                    | inr (inr end) ↦ inr (inr (ground arith))
                  ],
                  rw (goes, pump_loop)
                      (joined-Holds log (lines_read read) (lines_of (take k reads)) bytes
                        (bytes_read read) (bytes_of (take k reads))
                        (pump_loop deadline reads next.0) rest),
                )
          ]
    ]
