-- ===== src/Intents/Gate.antt =====
-- What the gate lets through, and what typed text can do.
use z_agent.Base.{
  ℕ, String, ◌≡◌, refl, ap, ◌≢◌, ◌↔◌, Bool, true, false, Option, some, List, [], ◌∷◌, arith, eq_iff,
  All, elem, elem-append, ok, raise,
}
use z_agent.Contracts.{ActionKind, value, UserIntent, stop_run, start_planning, move_to_development}
use z_agent.Run.{Run, compute_available_actions}
use z_agent.Run.Stages.{IsConsistent}
use z_agent.Intents.{
  read_only, needs_confirmation, always_legal, is_legal, from_text, gate_intent, keyword_map,
  classify_loop, classify_text, ThreadRow, load_run_for_user, load_thread_for_run,
}

module _ (normalise : String → String) (has_phrase : String → String → Bool) where
  abbrev StateChanging : List (ActionKind × List String) → Type 0
  StateChanging = All (λ e. read_only e.0 ≡ false)

  record Classified (run : Run) (i : UserIntent) : Type 0 where
    offered : elem (value i.intent) run.available_actions ≡ true
    typed : from_text i.source ≡ true
    unconfirmed : i.confirmed ≡ false
    changing : read_only i.intent ≡ false
    own_run : i.run_id ≡ run.id

  classify_loop-Classified :
      (run : Run) (typed : String) (entries : List (ActionKind × List String)) (i : UserIntent)
      → StateChanging entries
      → classify_loop normalise has_phrase run typed entries ≡ some i
      → Classified run i
  unfolding classify_loop
  classify_loop-Classified run typed [] i c h = absurd (cc)
  classify_loop-Classified run typed ((kind, phrases) ∷ entries) i c h =
      ground (arith, classify_loop-Classified run typed entries i c.1)

  keyword_map-StateChanging : StateChanging keyword_map
  unfolding keyword_map read_only
  keyword_map-StateChanging = (refl, (refl, (refl, (refl, (refl, (refl, (refl, tt)))))))

  -- An intent read from typed text is one of the row's actions, names the run, and is never executed
  -- at once: the gate asks for confirmation, and passes the same intent when it is confirmed.
  pub classify_text-gate_intent :
      (run : Run) (typed : String) (i : UserIntent)
      → classify_text normalise has_phrase run typed ≡ some i
      → (i.run_id ≡ run.id)
        × (elem (value i.intent) run.available_actions ≡ true)
        × (gate_intent run i ≡ raise (needs_confirmation i))
        × (gate_intent run (record i { confirmed = true }) ≡ ok tt)
  unfolding classify_text gate_intent is_legal
  classify_text-gate_intent run typed i h =
      let c : Classified run i =
        classify_loop-Classified run typed keyword_map i keyword_map-StateChanging h in
      (
        c.own_run,
        c.offered,
        ground arith,
        ground (arith, elem-append (value i.intent) run.available_actions always_legal),
      )

-- The actions that the table of stages never offers.
never_offered :
    (run : Run)
    → IsConsistent run
    → (elem (value stop_run) run.available_actions ≡ false)
      × (elem (value start_planning) run.available_actions ≡ false)
      × (elem (value move_to_development) run.available_actions ≡ false)
unfolding compute_available_actions
never_offered run h = rw h (ground arith)

-- For a row whose actions are those of its stage and mode, no typed text, "stop" and "halt" included,
-- is ever read as stopping the run, as starting planning or as moving to development.
pub classify_text-never_stops :
    (normalise : String → String) (has_phrase : String → String → Bool) (run : Run) (typed : String)
    (i : UserIntent)
    → IsConsistent run
    → classify_text normalise has_phrase run typed ≡ some i
    → (value i.intent ≢ value stop_run)
      × (value i.intent ≢ value start_planning)
      × (value i.intent ≢ value move_to_development)
classify_text-never_stops normalise has_phrase run typed i c h =
    let offered = (classify_text-gate_intent normalise has_phrase run typed i h).1 in
    let never = never_offered run c in
    (
      λ e. cc (ap (λ v. elem v run.available_actions) e),
      λ e. cc (ap (λ v. elem v run.available_actions) e),
      λ e. cc (ap (λ v. elem v run.available_actions) e),
    )

-- A thread that passes both guards belongs to the run that was named, and that run to the user;
-- and every such thread passes them.
guards_iff :
    (runs : String → Option Run) (threads : String → Option ThreadRow) (run_id thread_id : String)
    (user : ℕ) (run : Run) (thread : ThreadRow)
    → ((load_run_for_user runs run_id user ≡ some run)
        × (load_thread_for_run threads run_id thread_id ≡ some thread))
      ↔ ((runs run_id ≡ some run)
          × (threads thread_id ≡ some thread)
          × (run.created_by ≡ user)
          × (thread.run_id ≡ run_id))
unfolding load_run_for_user load_thread_for_run
guards_iff runs threads run_id thread_id user run thread = (
  λ h. ground (arith, eq_iff thread.run_id run_id),
  λ h. ground (arith, eq_iff thread.run_id run_id),
)
