-- ===== src/Threads/Keys.antt =====
-- Which keys are live at the gateway, and what a failed thread's mark does to them.
use z_agent.Base.{if◌then◌else◌}
use z_agent.Base.{
  ℕ, String, ◌≡◌, refl, sym, ap, ◌∙◌, ◌⊎◌, Bool, true, false, not, Option, none, some, List, [],
  ◌∷◌, arith, str_eq, eq_iff, is_some, filter, elem, eq_self, Result, ok, raise,
}
use z_agent.Base.Dict
use z_agent.Base.Dict.{Dict, get-put}
use z_agent.Threads.{
  Thread, World, Services, Call, mint_key, delete_key, present, terminal_statuses, mark,
}
use z_agent.Threads.Cleanup.{cleaned, cleanup_calls}
use z_agent.Threads.Marks.{cleaned-key, cleaned-status, stamp, mark_lem}
use z_agent.Threads.Request.{SpawnError, key_not_stored, row_not_started, not_announced}

-- The keys that were minted and not deleted since, of a gateway that deletes some of the keys that it is told to.
unfoldable pub live_keys : (String → Bool) → List Call → List String
live_keys deletes [] = []
live_keys deletes (mint_key k ∷ cs) = k ∷ live_keys deletes cs
live_keys deletes (delete_key k ∷ cs) =
    let rest = live_keys deletes cs in
    if deletes k then filter (λ j. not (str_eq j k)) rest else rest
live_keys deletes (_ ∷ cs) = live_keys deletes cs

-- Every key that is live after is live before.
abbrev pub NoNewKeys : (String → Bool) → List Call → List Call → Type 0
NoNewKeys deletes before after =
    (j : String)
    → elem j (live_keys deletes after) ≡ true
    → elem j (live_keys deletes before) ≡ true

-- The failed thread: its row says so and holds no key.
abbrev pub IsFailed : Option Thread → Type 0
IsFailed none = ⊥
IsFailed (some t) = (t.status ≡ "failed") × (present t.gateway_key ≡ none)

-- The thread at a status, with the one new live key.
abbrev pub IsKeyed : (String → Bool) → String → List Call → World → Option Thread → Type 0
IsKeyed deletes status before w none = ⊥
IsKeyed deletes status before w (some t) =
    (t.status ≡ status)
    × (k : String) × (t.gateway_key ≡ some k)
    × (live_keys deletes w.calls ≡ k ∷ live_keys deletes before)

-- The row has a container.
abbrev pub IsBoxed : Option Thread → Type 0
IsBoxed none = ⊥
IsBoxed (some t) = is_some t.container_id ≡ true

-- What `spawn` leaves, from a world with these calls.
abbrev pub IsSettled :
    (String → Bool) → List Call → String → World → Result SpawnError String → Type 0
IsSettled deletes before id w (raise key_not_stored) =
    IsFailed (Dict.get id w.threads)
    × (k : String) × (live_keys deletes w.calls ≡ k ∷ live_keys deletes before)
IsSettled deletes before id w (raise row_not_started) =
    IsKeyed deletes "queued" before w (Dict.get id w.threads)
IsSettled deletes before id w (raise not_announced) =
    IsBoxed (Dict.get id w.threads) × IsKeyed deletes "running" before w (Dict.get id w.threads)
IsSettled deletes before id w (raise e) =
    NoNewKeys deletes before w.calls
    × (IsFailed (Dict.get id w.threads) ⊎ (Dict.get id w.threads ≡ none))
IsSettled deletes before id w (ok i) =
    (i ≡ id)
    × IsBoxed (Dict.get id w.threads)
    × IsKeyed deletes "running" before w (Dict.get id w.threads)

elem-filter :
    (j k : String) (ks : List String)
    → elem j (filter (λ i. not (str_eq i k)) ks) ≡ true
    → (elem j ks ≡ true) × (str_eq j k ≡ false)
elem-filter j k [] h = absurd (ground arith)
elem-filter j k (i ∷ ks) h = ground (arith, elem-filter j k ks, eq_iff i k, eq_iff i j, eq_iff j k)

pub failed-over : elem "failed" terminal_statuses ≡ true
unfolding terminal_statuses
failed-over = refl

pub IsFailed-now :
    (s : Services) (now : ℕ) (id : String) (w : World) (t : Thread)
    → Dict.get id w.threads ≡ some t
    → IsFailed (Dict.get id (mark s now id "failed" w).threads)
IsFailed-now s now id w t found =
    let step = mark_lem s now id "failed" w t found failed-over in
    let row : Dict.get id (mark s now id "failed" w).threads
        ≡ some (cleaned s now (stamp "failed" t)) =
      step.4 id ∙ rw (eq_self id, found) refl in
    rw row (cleaned-status s now (stamp "failed" t), cleaned-key s now (stamp "failed" t))

-- A mark of a row with the one new key, which deletes it.
pub fail-held :
    (s : Services) (now : ℕ) (id : String) (before : List Call) (w : World) (t : Thread)
    (k : String)
    → s.deletes k ≡ true
    → Dict.get id w.threads ≡ some t
    → present t.gateway_key ≡ some k
    → live_keys s.deletes w.calls ≡ k ∷ live_keys s.deletes before
    → NoNewKeys s.deletes before (mark s now id "failed" w).calls
unfolding cleanup_calls live_keys
fail-held s now id before w t k deletes found held live j h =
    let step = mark_lem s now id "failed" w t found failed-over in
    let calls : (mark s now id "failed" w).calls ≡ delete_key k ∷ w.calls =
      step.3 ∙ rw (held, cleanup_calls) refl in
    let gone : live_keys s.deletes (delete_key k ∷ w.calls)
        ≡ filter (λ i. not (str_eq i k)) (live_keys s.deletes w.calls) =
      ap
        (λ b.
          if b
          then filter (λ i. not (str_eq i k)) (live_keys s.deletes w.calls)
          else live_keys s.deletes w.calls)
        deletes in
    let kept =
      elem-filter j k (live_keys s.deletes w.calls)
        (sym (ap (λ cs. elem j (live_keys s.deletes cs)) calls ∙ ap (elem j) gone) ∙ h) in
    let first = sym (ap (elem j) live) ∙ kept.0 in
    ground (arith, first, kept.1, eq_iff k j, eq_iff j k)

-- A mark of a row with no key makes no call.
pub fail-calls :
    (s : Services) (now : ℕ) (id : String) (w : World) (t : Thread)
    → Dict.get id w.threads ≡ some t
    → present t.gateway_key ≡ none
    → (mark s now id "failed" w).calls ≡ w.calls
unfolding cleanup_calls
fail-calls s now id w t found bare =
    (mark_lem s now id "failed" w t found failed-over).3 ∙ rw (bare, cleanup_calls) refl
