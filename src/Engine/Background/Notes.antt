-- ===== src/Engine/Background/Notes.antt =====
-- The completion notes of the jobs, each taken once and by its own thread.
use z_agent.Base.{
  String, ◌≡◌, refl, ap, ◌∙◌, inl, inr, true, false, not, Option, none, some, List, [], ◌∷◌, ◌++◌,
  map, arith, str_eq, eq_iff, if◌then◌else◌, Bool-cases, Option-cases, is_some, all,
}
use z_agent.Engine.Background.{
  BackgroundJob, is_skipped, is_due, done_notes, hit_notes, noted, completed_notifications,
}

skipped-noted :
    (t : Option String) (job : BackgroundJob) → is_skipped t job ≡ true → noted t job ≡ job
skipped-noted t job h = rw h refl

thread_id-noted :
    (t : Option String) (job : BackgroundJob) → (noted t job).thread_id ≡ job.thread_id
thread_id-noted t job = ground arith

is_skipped-noted :
    (t u : Option String) (job : BackgroundJob) → is_skipped u (noted t job) ≡ is_skipped u job
is_skipped-noted t none job = refl
is_skipped-noted t (some u) job =
    ap (λ o. elim o [ none ↦ false | some own ↦ not (str_eq own u) ]) (thread_id-noted t job)

noted_taken :
    (t : Option String) (job : BackgroundJob)
    → is_skipped t job ≡ false
    → (is_due t (noted t job) ≡ false) × ((noted t job).watch_hits ≡ [])
noted_taken t job own = (ground (arith, is_skipped-noted t t job), rw (own, noted) refl)

-- A job of another thread is skipped, if every job has its own.
skipped_by :
    (t u : String) (job : BackgroundJob)
    → str_eq t u ≡ false
    → is_some job.thread_id ≡ true
    → is_skipped (some t) job ≡ false
    → is_skipped (some u) job ≡ true
skipped_by t u job d own h = elim (Option-cases job.thread_id) [
  | inr nobody ↦ absurd (ground arith)
  | inl (k, known) ↦
      let mine : str_eq k t ≡ true = ground arith in
      rw (known, is_skipped) (rw ((eq_iff k t).0 mine) (rw d refl))
]

module _ (done_note : BackgroundJob → String) (hit_note : BackgroundJob → String → String) where
  drained :
      (t : Option String) (jobs : List BackgroundJob)
      → (done_notes done_note hit_note t (map (noted t) jobs) ≡ [])
        × (hit_notes done_note hit_note t (map (noted t) jobs) ≡ [])
  unfolding done_notes hit_notes
  drained t [] = (refl, refl)
  drained t (job ∷ jobs) =
      let (dones, hits) = drained t jobs in
      let still = is_skipped-noted t t job in
      elim (Bool-cases (is_skipped t job)) [
        | inl skipped ↦ (ground (arith, still), ground (arith, still))
        | inr own ↦
            let (not_due, empty) = noted_taken t job own in (ground arith, ground (arith, still))
      ]

  other_notes :
      (t u : String) (jobs : List BackgroundJob)
      → str_eq t u ≡ false
      → all (λ job. is_some job.thread_id) jobs ≡ true
      → (done_notes done_note hit_note (some u) (map (noted (some t)) jobs)
          ≡ done_notes done_note hit_note (some u) jobs)
        × (hit_notes done_note hit_note (some u) (map (noted (some t)) jobs)
            ≡ hit_notes done_note hit_note (some u) jobs)
  unfolding done_notes hit_notes
  other_notes t u [] d h = (refl, refl)
  other_notes t u (job ∷ jobs) d h =
      let (dones, hits) = other_notes t u jobs d (ground arith) in
      elim (Bool-cases (is_skipped (some t) job)) [
        | inl skipped ↦
            let same = skipped-noted (some t) job skipped in
            (
              ap
                    (λ j.
                      if is_due (some u) j
                      then done_note j
                        ∷ done_notes done_note hit_note (some u) (map (noted (some t)) jobs)
                      else done_notes done_note hit_note (some u) (map (noted (some t)) jobs))
                    same
                  ∙ ap (λ ns. if is_due (some u) job then done_note job ∷ ns else ns) dones,
              ap
                    (λ j.
                      if is_skipped (some u) j
                      then hit_notes done_note hit_note (some u) (map (noted (some t)) jobs)
                      else map (hit_note j) j.watch_hits
                        ++ hit_notes done_note hit_note (some u) (map (noted (some t)) jobs))
                    same
                  ∙ ap
                      (λ ns.
                        if is_skipped (some u) job
                        then ns
                        else map (hit_note job) job.watch_hits ++ ns)
                      hits,
            )
        | inr own ↦
            let theirs = skipped_by t u job d (ground arith) own in
            let still = is_skipped-noted (some t) (some u) job in
            (ground (arith, still), ground (arith, still))
      ]

  -- The notes of a thread are taken once: right after, there are none for it; and what another thread is still
  -- to take is as it was, if every job has its thread.
  pub completed_notifications_once :
      (t u : String) (jobs : List BackgroundJob)
      → str_eq t u ≡ false
      → all (λ job. is_some job.thread_id) jobs ≡ true
      → let after = (completed_notifications done_note hit_note (some t) jobs).1 in
        ((completed_notifications done_note hit_note (some t) after).0 ≡ [])
        × ((completed_notifications done_note hit_note (some u) after).0
            ≡ (completed_notifications done_note hit_note (some u) jobs).0)
  unfolding completed_notifications
  completed_notifications_once t u jobs d h =
      let (dones, hits) = drained (some t) jobs in
      let (their_dones, their_hits) = other_notes t u jobs d h in
      (rw (dones, hits) refl, rw (their_dones, their_hits) refl)
