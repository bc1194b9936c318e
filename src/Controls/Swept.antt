-- ===== src/Controls/Swept.antt =====
-- Which runs `reconcile_on_boot` interrupts: the working ones with no sign of life, and no others.
use z_agent.Base.{
  ℕ, String, ◌≡◌, refl, sym, ◌∙◌, ◌⊎◌, inl, inr, true, some, List, [], ◌∷◌, arith, str_eq,
  Bool-cases, Option-cases, elem,
}
use z_agent.Base.{Some}
use z_agent.Base.{Bool, ltb, false, ◌&&◌, Option, none, ◌-◌, ◌<◌, ◌↔◌, ap, eq_iff}
use mathlib.Core.Path.{subst}
use z_agent.Contracts.{
  RunStage, queued, provisioning, investigating, planning, awaiting_user, developing, verifying,
  pr_ready, interrupted, completed, failed, abandoned,
}
use z_agent.Heartbeats.{is_working}
use z_agent.Threads.{Thread, present}
use z_agent.Controls.{is_live, live_statuses, move}
use z_agent.Controls.Reconcile.{is_fresh, shows_life, sign_of_life}
use z_agent.Controls.Stopped.{is_going}
use z_agent.Base.Dict
use z_agent.Base.Dict.{Dict, get-put}
use z_agent.Threads.{RunRow, World, Services, cleanup_terminal}
use z_agent.Controls.{ids_where}
use z_agent.Controls.Abandon.{anything}
use z_agent.Controls.Reconcile.{
  look, look_all, clean_threads, announce_swept, announce_all, keys, reconcile_on_boot,
}
use z_agent.Controls.Rows.{run_of, sans_cost, cleanup-run}
use z_agent.Controls.Turns.{fate, look-Turn, fate_in, IsDone, turn-IsDone, turn-fate, turn-kept}

get-keys :
    (r : String) (d : Dict RunRow) (row : RunRow) → Dict.get r d ≡ some row → elem r (keys d) ≡ true
unfolding Dict.get
get-keys r [] row h = absurd (ground arith)
get-keys r ((j, t) ∷ d) row h = ground (arith, get-keys r d row)

module _ (s : Services) (now : ℕ) where
  look_all-fate :
      (ids : List String) (r : String) (w : World)
      → IsDone s now r w ⊎ (elem r ids ≡ true)
      → run_of (Dict.get r (look_all s now ids w).0.runs) ≡ fate_in s now r w
  look_all-fate [] r w (inl done) = sym done
  look_all-fate [] r w (inr there) = absurd (ground arith)
  look_all-fate (id ∷ ids) r w h =
      let w' = (look s now id w).0 in
      let turn = look-Turn s now id w in
      look_all-fate ids r w' (elim h [
        | inl done ↦ inl (turn-kept s now id r w w' turn done)
        | inr there ↦ elim (Bool-cases (str_eq id r)) [
          | inl here ↦ inl (turn-IsDone s now id r w w' turn here)
          | inr other ↦ inr (ground arith)
        ]
      ])
      ∙ turn-fate s now id r w w' turn

  clean_threads-run :
      (ids : List String) (r : String) (w : World)
      → run_of (Dict.get r (clean_threads s now ids w).runs) ≡ run_of (Dict.get r w.runs)
  clean_threads-run [] r w = refl
  clean_threads-run (id ∷ ids) r w =
      clean_threads-run ids r (cleanup_terminal s now id w) ∙ cleanup-run s now id r w

  announce_swept-run :
      (id r : String) (w : World)
      → run_of (Dict.get r (announce_swept s now id w).runs) ≡ run_of (Dict.get r w.runs)
  unfolding announce_swept
  announce_swept-run id r w = elim (Option-cases (Dict.get id w.runs)) [
    | inr missing ↦ rw (missing, announce_swept) refl
    | inl (row, found) ↦
        rw (found, announce_swept) (clean_threads-run (ids_where anything id w.threads) r w)
  ]

  announce_all-run :
      (ids : List String) (r : String) (w : World)
      → run_of (Dict.get r (announce_all s now ids w).runs) ≡ run_of (Dict.get r w.runs)
  announce_all-run [] r w = refl
  announce_all-run (id ∷ ids) r w =
      announce_all-run ids r (announce_swept s now id w) ∙ announce_swept-run id r w

  known-IsDone : (r : String) (w : World) → IsDone s now r w ⊎ (elem r (keys w.runs) ≡ true)
  unfolding fate
  known-IsDone r w = elim (Option-cases (Dict.get r w.runs)) [
    | inr missing ↦ inl (rw missing refl)
    | inl (row, found) ↦ inr (get-keys r w.runs row found)
  ]

pub sweep-fate :
    (s : Services) (now : ℕ) (w : World) (r : String)
    → run_of (Dict.get r (reconcile_on_boot s now w).0.runs)
      ≡ fate s now r w.threads (Dict.get r w.runs)
unfolding reconcile_on_boot
sweep-fate s now w r =
    let (w', swept) = look_all s now (keys w.runs) w in
    announce_all-run s now swept r w'
    ∙ look_all-fate s now (keys w.runs) r w (known-IsDone s now r w)

-- The stages at which a run has work in flight.
abbrev pub is_at_work : RunStage → Bool
is_at_work queued = true
is_at_work provisioning = true
is_at_work investigating = true
is_at_work planning = true
is_at_work developing = true
is_at_work _ = false

at_work : (stage : RunStage) → is_working stage ≡ is_at_work stage
unfolding is_working
at_work queued = refl
at_work provisioning = refl
at_work investigating = refl
at_work planning = refl
at_work developing = refl
at_work awaiting_user = refl
at_work verifying = refl
at_work pr_ready = refl
at_work interrupted = refl
at_work completed = refl
at_work failed = refl
at_work abandoned = refl

-- The last heartbeat, if any, is less than 180 seconds old.
abbrev pub Beats : ℕ → Option ℕ → Type 0
Beats now none = ⊥
Beats now (some at) = now - at < 180

-- There is a container, and it runs.
abbrev pub Runs : Services → Option String → Type 0
Runs s none = ⊥
Runs s (some c) = (str_eq c "" ≡ false) × (s.container_running c ≡ true)

-- The row is of the run's, and is running, idle, queued or waiting for input with a fresh heartbeat or a
-- container that runs.
abbrev pub IsAlive : Services → ℕ → String → String × Thread → Type 0
IsAlive s now run_id (id, t) =
    (t.run_id ≡ run_id) × (is_going t ≡ true) × (Beats now t.heartbeat_at ⊎ Runs s t.container_id)

fresh_iff :
    (now : ℕ) (o : Option ℕ)
    → ((elim o [ none ↦ false | some at ↦ ltb (now - at) 180 ]) ≡ true) ↔ Beats now o
fresh_iff now none = (λ h. absurd (ground arith), λ b. absurd b)
fresh_iff now (some at) = (λ h. ground arith, λ b. ground arith)

box_iff :
    (s : Services) (o : Option String)
    → ((elim (present o) [ none ↦ false | some c ↦ s.container_running c ]) ≡ true) ↔ Runs s o
box_iff s none = (λ h. absurd (ground arith), λ b. absurd b)
box_iff s (some c) = elim (Bool-cases (str_eq c "")) [
  | inl blank ↦ rw blank (λ h. absurd (ground arith), λ b. absurd (ground (arith, b.0)))
  | inr full ↦ rw full (λ h. (refl, h), λ b. b.1)
]

shows_iff :
    (s : Services) (now : ℕ) (run_id id : String) (t : Thread)
    → ((str_eq t.run_id run_id && shows_life s now t) ≡ true) ↔ IsAlive s now run_id (id, t)
unfolding shows_life is_fresh is_live live_statuses
shows_iff s now run_id id t = (
  λ h. (
    (eq_iff t.run_id run_id).0 (ground arith),
    ground arith,
    elim (Bool-cases (is_fresh now t)) [
      | inl yes_ ↦ inl ((fresh_iff now t.heartbeat_at).0 yes_)
      | inr no_ ↦ inr ((box_iff s t.container_id).0 (ground arith))
    ],
  ),
  λ a. elim a.2 [
    | inl beats ↦
        ground (arith, a.1, (eq_iff t.run_id run_id).1 a.0, (fresh_iff now t.heartbeat_at).1 beats)
    | inr runs ↦
        ground (arith, a.1, (eq_iff t.run_id run_id).1 a.0, (box_iff s t.container_id).1 runs)
  ],
)

life_iff :
    (s : Services) (now : ℕ) (run_id : String) (d : Dict Thread)
    → (sign_of_life s now run_id d ≡ true) ↔ Some (IsAlive s now run_id) d
unfolding sign_of_life
life_iff s now run_id [] = (λ h. absurd (ground arith), λ w. absurd w)
life_iff s now run_id ((id, t) ∷ d) = (
  λ h. elim (Bool-cases (str_eq t.run_id run_id && shows_life s now t)) [
    | inl here ↦ inl ((shows_iff s now run_id id t).0 here)
    | inr not_here ↦ inr ((life_iff s now run_id d).0 (ground arith))
  ],
  λ w. elim w [
    | inl here ↦ ground (arith, (shows_iff s now run_id id t).1 here)
    | inr there ↦ ground (arith, (life_iff s now run_id d).1 there)
  ],
)

-- The end of a run's row, from the rows of the threads before.
abbrev pub IsFated : Services → ℕ → String → Dict Thread → RunRow → Option RunRow → Type 0
IsFated s now run_id threads r after =
    ((is_at_work r.run.stage ≡ true)
      × (¬ Some (IsAlive s now run_id) threads)
      × (after ≡ some (sans_cost (move interrupted r))))
    ⊎ (((is_at_work r.run.stage ≡ false) ⊎ Some (IsAlive s now run_id) threads)
        × (after ≡ some (sans_cost r)))

fate-IsFated :
    (s : Services) (now : ℕ) (run_id : String) (threads : Dict Thread) (r : RunRow)
    → IsFated s now run_id threads r (fate s now run_id threads (some r))
unfolding fate
fate-IsFated s now run_id threads r = elim (Bool-cases (is_working r.run.stage)) [
  | inr idle ↦ inr (inl (sym (at_work r.run.stage) ∙ idle), rw idle refl)
  | inl working ↦ elim (Bool-cases (sign_of_life s now run_id threads)) [
    | inl alive ↦
        inr (inr ((life_iff s now run_id threads).0 alive), rw (working, fate) (rw alive refl))
    | inr dead ↦ inl (
      sym (at_work r.run.stage) ∙ working,
      λ w. absurd (ground (arith, dead, (life_iff s now run_id threads).1 w)),
      rw (working, fate) (rw dead refl),
    )
  ]
]

-- After the sweep at boot, the row of a run, but for its cost, is interrupted by the state machine if the run was
-- queued, provisioning, investigating, planning or developing and no row of its threads was alive: running,
-- idle, queued or waiting for input with a heartbeat of less than 180 seconds or a running container. In
-- all other cases it is as it was.
pub reconcile_on_boot-IsFated :
    (s : Services) (now : ℕ) (w : World) (run_id : String) (r : RunRow)
    → Dict.get run_id w.runs ≡ some r
    → IsFated s now run_id w.threads r (run_of (Dict.get run_id (reconcile_on_boot s now w).0.runs))
reconcile_on_boot-IsFated s now w run_id r found =
    subst (IsFated s now run_id w.threads r)
      (sym (sweep-fate s now w run_id ∙ ap (fate s now run_id w.threads) found))
      (fate-IsFated s now run_id w.threads r)
