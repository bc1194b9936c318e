-- ===== src/Controls/Replaced.antt =====
-- What `kill_replace_thread` leaves of the old thread, and gives the new one.
use z_agent.Base.{
  ℕ, String, ◌≡◌, refl, sym, ap, ◌∙◌, inl, inr, Bool, true, false, Option, none, some, List, arith,
  str_eq, Bool-cases, eq_self, Result, ok, raise,
}
use z_agent.Base.Dict
use z_agent.Base.Dict.{Dict}
use z_agent.Threads.{
  Thread, RunRow, World, Services, kill, wait_for_container_exit, thread_status, present, is_over,
  terminal_statuses, call, edit_thread,
}
use z_agent.Threads.Cleanup.{on_row, cleaned, cleanup_terminal_lem, edit_row_self}
use z_agent.Threads.Marks.{cleaned-key, cleaned-status}
use z_agent.Threads.Request.{Request, SpawnError, new_thread, lane_model}
use z_agent.Threads.Spawn.{spawn, store_key, started}
use z_agent.Threads.NewRow.{IsSpawned, spawn-IsSpawned}
use z_agent.Controls.{end_thread, resolve_pending_approvals}
use z_agent.Base.{eq_iff, leb, ◌-◌, if◌then◌else◌}
use z_agent.Controls.Abandoned.{is_ended}
use z_agent.Controls.Replace.{
  ReplaceError, not_in_run, already_terminal, container_survived, not_spawned, remaining_budget,
  replay, announce, retire_old, budget_left, respawn, fail_unless_over, survived, after_wait,
  after_kill, kill_replace_thread,
}

-- What is left of a budget, and at least 0.25.
abbrev pub budget_after : ℕ → ℕ
budget_after left = if leb 250000 left then left else 250000

-- The old row, replaced and without its key, and the new one, which goes on with what is left.
abbrev pub IsHandedOver : Services → String → String → Thread → World → Type 0
IsHandedOver s run_id id t w =
    (old new : Thread) × (Dict.get id w.threads ≡ some old)
    × (old.status ≡ "replaced")
    × (present old.gateway_key ≡ none)
    × (Dict.get s.new_thread_id w.threads ≡ some new)
    × (new.status ≡ "running")
    × (new.run_id ≡ run_id)
    × (new.budget_usd ≡ budget_after (old.budget_usd - old.cost_usd))
    × (new.spawn_context.model ≡ lane_model s (some t.spawn_context.model))

-- The container that the thread had is gone.
abbrev pub IsGone : Services → Thread → Type 0
IsGone s t = (c : String) → present t.container_id ≡ some c → s.container_exits c ≡ true

-- How a replacement of a thread ends.
abbrev pub IsReplaced :
    Services → String → String → Thread → World → Result ReplaceError String → Type 0
IsReplaced s run_id id t w (ok i) =
    (i ≡ s.new_thread_id) × IsGone s t × IsHandedOver s run_id id t w
IsReplaced s run_id id t w (raise (not_spawned e)) =
    IsGone s t
    × (old : Thread) × (Dict.get id w.threads ≡ some old)
    × (old.status ≡ "replaced")
    × (present old.gateway_key ≡ none)
IsReplaced s run_id id t w (raise (container_survived c)) =
    (present t.container_id ≡ some c)
    × (s.container_exits c ≡ false)
    × (old : Thread) × (Dict.get id w.threads ≡ some old)
    × (is_ended old ≡ true)
IsReplaced s run_id id t w (raise e) = ⊥

-- How `kill_replace_thread` ends: it refuses a thread of another run or at an end, and changes nothing.
abbrev pub IsAnswered :
    Services → String → String → Thread → World → World → Result ReplaceError String → Type 0
IsAnswered s run_id id t w w' (raise not_in_run) = (str_eq t.run_id run_id ≡ false) × (w' ≡ w)
IsAnswered s run_id id t w w' (raise (already_terminal status)) =
    (t.run_id ≡ run_id) × (is_ended t ≡ true) × (w' ≡ w)
IsAnswered s run_id id t w w' (raise (container_survived c)) =
    (t.run_id ≡ run_id)
    × (is_ended t ≡ false)
    × IsReplaced s run_id id t w' (raise (container_survived c))
IsAnswered s run_id id t w w' (raise (not_spawned e)) =
    (t.run_id ≡ run_id) × (is_ended t ≡ false) × IsReplaced s run_id id t w' (raise (not_spawned e))
IsAnswered s run_id id t w w' (ok i) =
    (t.run_id ≡ run_id) × (is_ended t ≡ false) × IsReplaced s run_id id t w' (ok i)

going-IsAnswered :
    (s : Services) (run_id id : String) (t : Thread) (w w' : World)
    (answer : Result ReplaceError String)
    → t.run_id ≡ run_id
    → is_ended t ≡ false
    → IsReplaced s run_id id t w' answer
    → IsAnswered s run_id id t w w' answer
going-IsAnswered s run_id id t w w' (ok i) mine going h = (mine, going, h)
going-IsAnswered s run_id id t w w' (raise not_in_run) mine going h = absurd h
going-IsAnswered s run_id id t w w' (raise (already_terminal status)) mine going h = absurd h
going-IsAnswered s run_id id t w w' (raise (container_survived c)) mine going h = (mine, going, h)
going-IsAnswered s run_id id t w w' (raise (not_spawned e)) mine going h = (mine, going, h)

some-injective : {a b : String} → some a ≡ some b → a ≡ b
some-injective h = ground arith

no_box : (c : String) → none ≡ some c → ⊥
no_box c h = ground arith

fail-over : (now : ℕ) (t : Thread) → is_ended (fail_unless_over now t) ≡ true
unfolding is_over terminal_statuses
fail-over now t = elim (Bool-cases (is_over t)) [
  | inl over ↦ rw (over, fail_unless_over) over
  | inr going ↦ rw (going, fail_unless_over) refl
]

module _ (s : Services) (now : ℕ) (run_id id : String) (extra : List String) (run : RunRow)
    (t : Thread) where
  retired-row :
      (w : World)
      → Dict.get id w.threads ≡ some t
      → Dict.get id (retire_old s now run_id id w).threads
        ≡ some (cleaned s now (end_thread now "replaced" t))
  unfolding retire_old resolve_pending_approvals
  retired-row w found =
      let ended : World = resolve_pending_approvals now run_id "stopped" (some id) (
        call (thread_status run_id id "replaced") (edit_thread id (end_thread now "replaced") w)) in
      let row : Dict.get id ended.threads ≡ some (end_thread now "replaced" t) =
        edit_row_self id (end_thread now "replaced") w.threads t found in
      (cleanup_terminal_lem s now id ended).4 id
      ∙ (ap (λ b. on_row b (cleaned s now) (Dict.get id ended.threads)) (eq_self id)
          ∙ ap (on_row true (cleaned s now)) row)

  abbrev old : Thread
  old = cleaned s now (end_thread now "replaced" t)

  announced-IsReplaced :
      (q : Request) (w w' : World) (answer : Result SpawnError String)
      → Dict.get id w.threads ≡ some old
      → str_eq s.new_thread_id id ≡ false
      → q.budget_usd ≡ some (remaining_budget old)
      → q.model ≡ some t.spawn_context.model
      → IsGone s t
      → IsSpawned s now run_id run q w w' answer
      → let (v, a) = announce run_id (w', answer) in IsReplaced s run_id id t v a
  unfolding new_thread remaining_budget
  announced-IsReplaced q w w' (raise e) found other budget model gone spawned = (
    gone,
    old,
    spawned.0 id other ∙ found,
    cleaned-status s now (end_thread now "replaced" t),
    cleaned-key s now (end_thread now "replaced" t),
  )
  announced-IsReplaced q w w' (ok i) found other budget model gone spawned = elim spawned.1 [
    | inl refused ↦ absurd (ground arith)
    | inr (option, known, (same, vk, c, row)) ↦ (
      same,
      gone,
      (
        old,
        started now c (store_key vk (new_thread s run_id run q option w.threads)),
        spawned.0 id other ∙ found,
        cleaned-status s now (end_thread now "replaced" t),
        cleaned-key s now (end_thread now "replaced" t),
        row,
        refl,
        refl,
        ap (λ o. elim o [ none ↦ s.default_thread_budget_usd | some b ↦ b ]) budget,
        ap (lane_model s) model,
      ),
    )
  ]

  respawn-IsReplaced :
      (w : World)
      → Dict.get id w.threads ≡ some t
      → str_eq s.new_thread_id id ≡ false
      → IsGone s t
      → let (v, a) = respawn s now run_id id extra run t w in IsReplaced s run_id id t v a
  unfolding respawn replay
  respawn-IsReplaced w found other gone =
      let retired = retire_old s now run_id id w in
      let row = retired-row w found in
      let q : Request = record (replay s id extra t 0) {
        budget_usd = budget_left (Dict.get id retired.threads);
      } in
      let (w', answer) = spawn s now run_id run q retired in
      announced-IsReplaced q retired w' answer row other (ap budget_left row) refl gone
        (spawn-IsSpawned s now run_id run q retired)

  survived-IsReplaced :
      (c : String) (w : World)
      → Dict.get id w.threads ≡ some t
      → present t.container_id ≡ some c
      → s.container_exits c ≡ false
      → let (v, a) = survived now run_id id c w in IsReplaced s run_id id t v a
  survived-IsReplaced c w found box alive = (
    box,
    alive,
    fail_unless_over now t,
    edit_row_self id (fail_unless_over now) w.threads t found,
    fail-over now t,
  )

  after_wait-IsReplaced :
      (c : String) (gone : Bool) (w : World)
      → Dict.get id w.threads ≡ some t
      → str_eq s.new_thread_id id ≡ false
      → present t.container_id ≡ some c
      → s.container_exits c ≡ gone
      → let (v, a) = after_wait s now run_id id extra run t c gone w in IsReplaced s run_id id t v a
  after_wait-IsReplaced c false w found other box alive = survived-IsReplaced c w found box alive
  after_wait-IsReplaced c true w found other box dead =
      respawn-IsReplaced w found other
        (λ d box'. ap s.container_exits (some-injective (sym box' ∙ box)) ∙ dead)

  killed-IsReplaced :
      (o : Option String) (w : World)
      → present t.container_id ≡ o
      → Dict.get id w.threads ≡ some t
      → str_eq s.new_thread_id id ≡ false
      → let (v, a) = after_kill s now run_id id extra run t o w in IsReplaced s run_id id t v a
  killed-IsReplaced none w box found other =
      respawn-IsReplaced (call (kill id) w) found other
        (λ d box'. absurd (no_box d (sym box ∙ box')))
  killed-IsReplaced (some c) w box found other =
      let gone = s.container_exits c in
      after_wait-IsReplaced c gone (call (wait_for_container_exit c gone) (call (kill id) w)) found
        other box refl

-- However `kill_replace_thread` ends on a thread that is there, with a fresh id for the new one. A thread of another
-- run, or one of the run that is completed, failed, stopped or replaced, is refused, and nothing changes;
-- in all other cases the thread is of the run and at none of these ends. If it returns, the old
-- container is gone, the old row says replaced and holds no key, and the new one is running for the same
-- run, on the old one's model, with the budget that the settled cost leaves; if the spawn fails, the old
-- container is gone and the old row is replaced without a key; if the old container outlives the kill, the
-- old row is at an end.
pub kill_replace_thread-IsReplaced :
    (s : Services) (now : ℕ) (run_id id : String) (extra : List String) (run : RunRow) (w : World)
    (t : Thread)
    → Dict.get id w.threads ≡ some t
    → str_eq s.new_thread_id id ≡ false
    → let (w', answer) = kill_replace_thread s now run_id id extra run w in
      IsAnswered s run_id id t w w' answer
unfolding kill_replace_thread is_over terminal_statuses
kill_replace_thread-IsReplaced s now run_id id extra run w t found other =
    elim (Bool-cases (str_eq t.run_id run_id)) [
      | inr theirs ↦
          rw (found, kill_replace_thread) (rw (theirs, kill_replace_thread) (theirs, refl))
      | inl mine ↦
          let ours : t.run_id ≡ run_id = (eq_iff t.run_id run_id).0 mine in
          elim (Bool-cases (is_ended t)) [
            | inl over ↦
                rw (found, kill_replace_thread)
                  (rw (mine, kill_replace_thread)
                    (rw (over, kill_replace_thread) (ours, over, refl)))
            | inr going ↦
                let box = present t.container_id in
                let (w', answer) = after_kill s now run_id id extra run t box w in
                rw (found, kill_replace_thread)
                  (rw (mine, kill_replace_thread)
                    (rw (going, kill_replace_thread)
                      (going-IsAnswered s run_id id t w w' answer ours going
                        (killed-IsReplaced s now run_id id extra run t box w refl found other))))
          ]
    ]
