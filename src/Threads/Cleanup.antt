-- ===== src/Threads/Cleanup.antt =====
-- What `_cleanup_terminal` and `_mark` of the thread manager leave of the tables.
use z_agent.Base.{
  ℕ, String, ◌≡◌, refl, sym, ap, ◌∙◌, inl, inr, Bool, true, false, Option, none, some, List, ◌∷◌,
  str_eq, eq_iff, if◌then◌else◌, Bool-cases, Option-cases, eq_self,
}
use z_agent.Base.Dict
use z_agent.Base.Dict.{Dict, get-put}
use z_agent.Threads.{
  Thread, World, Services, Call, delete_key, Spend, spent, key_gone, unreadable, present,
  edit_thread, edit_row, settled, read_back, settle_cost, release_key, clear_key, cleanup_terminal,
}

-- A row of the table after a change of one row.
abbrev pub on_row {ℓ} : {A : Type ℓ} → Bool → (A → A) → Option A → Option A
on_row b f none = none
on_row b f (some t) = some (if b then f t else t)

-- What the readback makes of a row.
unfoldable pub read : ℕ → Spend → Thread → Thread
read now (spent c) t = settled now c t
read now key_gone t = t
read now unreadable t = t

-- What the cleanup makes of a row: the spend is read if it can be, and the key is gone.
unfoldable pub cleaned : Services → ℕ → Thread → Thread
cleaned s now t = elim (present t.gateway_key) [
  | none ↦ t
  | some k ↦ clear_key (read now (s.spend_of k) t)
]

-- The calls of the cleanup of a row: its key is deleted.
unfoldable pub cleanup_calls : Option Thread → List Call → List Call
cleanup_calls none cs = cs
cleanup_calls (some t) cs = elim (present t.gateway_key) [ none ↦ cs | some k ↦ delete_key k ∷ cs ]

on_row-skip : (f : Thread → Thread) (o : Option Thread) → o ≡ on_row false f o
on_row-skip f none = refl
on_row-skip f (some t) = refl

row_missing :
    (id j : String) (f : Thread → Thread) (d : Dict Thread)
    → Dict.get id d ≡ none
    → Dict.get j d ≡ on_row (str_eq id j) f (Dict.get j d)
row_missing id j f d missing = elim (Bool-cases (str_eq id j)) [
  | inr other ↦ rw other (on_row-skip f (Dict.get j d))
  | inl same ↦ rw (← (eq_iff id j).0 same, missing) refl
]

row_found :
    (id j : String) (f : Thread → Thread) (d : Dict Thread) (t : Thread)
    → Dict.get id d ≡ some t
    → (if str_eq id j then some (f t) else Dict.get j d) ≡ on_row (str_eq id j) f (Dict.get j d)
row_found id j f d t found = elim (Bool-cases (str_eq id j)) [
  | inr other ↦ rw other (on_row-skip f (Dict.get j d))
  | inl same ↦ rw (← (eq_iff id j).0 same, found, eq_self id) refl
]

pub edit_row-get :
    (id j : String) (f : Thread → Thread) (d : Dict Thread)
    → Dict.get j (edit_row id f d) ≡ on_row (str_eq id j) f (Dict.get j d)
unfolding edit_row
edit_row-get id j f d = elim (Option-cases (Dict.get id d)) [
  | inr missing ↦ rw (missing, edit_row) (row_missing id j f d missing)
  | inl (t, found) ↦ rw (found, edit_row) (get-put id j (f t) d ∙ row_found id j f d t found)
]

-- The row of the thread itself.
pub edit_row_self :
    (id : String) (f : Thread → Thread) (d : Dict Thread) (t : Thread)
    → Dict.get id d ≡ some t
    → Dict.get id (edit_row id f d) ≡ some (f t)
edit_row_self id f d t found = edit_row-get id id f d ∙ rw (found, eq_self id) refl

on_row_self : (b : Bool) (o : Option Thread) → o ≡ on_row b (λ t. t) o
on_row_self b none = refl
on_row_self true (some t) = refl
on_row_self false (some t) = refl

pub on_row-compose :
    (b : Bool) (f g : Thread → Thread) (o : Option Thread)
    → on_row b g (on_row b f o) ≡ on_row b (λ t. g (f t)) o
on_row-compose b f g none = refl
on_row-compose true f g (some t) = refl
on_row-compose false f g (some t) = refl

-- A step that changes one row, and leaves these calls; at most the costs of the runs change besides.
abbrev pub Changes : String → (Thread → Thread) → List Call → World → World → Type 0
Changes id f calls w w' =
    (w'.capacity ≡ w.capacity)
    × (w'.reservations ≡ w.reservations)
    × (w'.approvals ≡ w.approvals)
    × (w'.calls ≡ calls)
    × ((j : String) → Dict.get j w'.threads ≡ on_row (str_eq id j) f (Dict.get j w.threads))

read_back-Changes :
    (now : ℕ) (id : String) (t : Thread) (a : Spend) (w : World)
    → Changes id (read now a) w.calls w (read_back now id t a w).0
unfolding read_back read
read_back-Changes now id t (spent c) w =
    (refl, refl, refl, refl, λ j. edit_row-get id j (settled now c) w.threads)
read_back-Changes now id t key_gone w =
    (refl, refl, refl, refl, λ j. on_row_self (str_eq id j) (Dict.get j w.threads))
read_back-Changes now id t unreadable w =
    (refl, refl, refl, refl, λ j. on_row_self (str_eq id j) (Dict.get j w.threads))

read-key : (now : ℕ) (a : Spend) (t : Thread) → (read now a t).gateway_key ≡ t.gateway_key
unfolding read settled
read-key now (spent c) t = refl
read-key now key_gone t = refl
read-key now unreadable t = refl

release_key-calls :
    (id : String) (w : World) (t : Thread) (k : String)
    → Dict.get id w.threads ≡ some t
    → present t.gateway_key ≡ some k
    → (release_key id w).calls ≡ delete_key k ∷ w.calls
unfolding release_key
release_key-calls id w t k found held = rw (found, release_key) (rw (held, release_key) refl)

settle_cost-held :
    (s : Services) (now : ℕ) (id : String) (w : World) (t : Thread) (k : String)
    → Dict.get id w.threads ≡ some t
    → present t.gateway_key ≡ some k
    → settle_cost s now id w ≡ read_back now id t (s.spend_of k) w
unfolding settle_cost
settle_cost-held s now id w t k found held = rw (found, settle_cost) (rw (held, settle_cost) refl)

on_row-agree :
    (id j : String) (f g : Thread → Thread) (d : Dict Thread) (t : Thread)
    → Dict.get id d ≡ some t
    → f t ≡ g t
    → on_row (str_eq id j) f (Dict.get j d) ≡ on_row (str_eq id j) g (Dict.get j d)
on_row-agree id j f g d t found same = elim (Bool-cases (str_eq id j)) [
  | inr other ↦ rw other (sym (on_row-skip f (Dict.get j d)) ∙ on_row-skip g (Dict.get j d))
  | inl here ↦ rw (← (eq_iff id j).0 here, found, eq_self id) (ap some same)
]

pub cleaned-bare :
    (s : Services) (now : ℕ) (t : Thread) → present t.gateway_key ≡ none → cleaned s now t ≡ t
unfolding cleaned
cleaned-bare s now t bare = rw (bare, cleaned) refl

pub cleaned-held :
    (s : Services) (now : ℕ) (t : Thread) (k : String)
    → present t.gateway_key ≡ some k
    → cleaned s now t ≡ clear_key (read now (s.spend_of k) t)
unfolding cleaned
cleaned-held s now t k held = rw (held, cleaned) refl

pub cleanup_terminal-held :
    (s : Services) (now : ℕ) (id : String) (w : World) (t : Thread) (k : String)
    → Dict.get id w.threads ≡ some t
    → present t.gateway_key ≡ some k
    → cleanup_terminal s now id w
      ≡ edit_thread id clear_key (release_key id (read_back now id t (s.spend_of k) w).0)
unfolding cleanup_terminal
cleanup_terminal-held s now id w t k found held =
    rw (found, cleanup_terminal)
      (rw (held, cleanup_terminal)
        (ap (λ r. edit_thread id clear_key (release_key id r.0))
          (settle_cost-held s now id w t k found held)))

-- The whole cleanup, on a row that is there with a key.
cleanup-held :
    (s : Services) (now : ℕ) (id : String) (w : World) (t : Thread) (k : String)
    → Dict.get id w.threads ≡ some t
    → present t.gateway_key ≡ some k
    → Changes id (cleaned s now) (delete_key k ∷ w.calls) w (cleanup_terminal s now id w)
unfolding release_key
cleanup-held s now id w t k found held =
    let a = s.spend_of k in
    let w' : World = (read_back now id t a w).0 in
    let step : Changes id (read now a) w.calls w w' = read_back-Changes now id t a w in
    let row : Dict.get id w'.threads ≡ some (read now a t) =
      step.4 id ∙ rw (eq_self id, found) refl in
    let calls : (release_key id w').calls ≡ delete_key k ∷ w'.calls =
      release_key-calls id w' (read now a t) k row (ap present (read-key now a t) ∙ held) in
    let whole = cleanup_terminal-held s now id w t k found held in
    (
      ap (λ v. v.capacity) whole ∙ step.0,
      ap (λ v. v.reservations) whole ∙ step.1,
      ap (λ v. v.approvals) whole ∙ step.2,
      ap (λ v. v.calls) whole ∙ (calls ∙ ap (λ cs. delete_key k ∷ cs) step.3),
      λ j.
          ap (λ v. Dict.get j v.threads) whole
          ∙ (edit_row-get id j clear_key w'.threads
              ∙ (ap (on_row (str_eq id j) clear_key) (step.4 j)
                  ∙ (on_row-compose (str_eq id j) (read now a) clear_key (Dict.get j w.threads)
                      ∙ on_row-agree id j (λ u. clear_key (read now a u)) (cleaned s now) w.threads
                          t found (sym (cleaned-held s now t k held))))),
    )

-- The cleanup of any thread: its row is cleaned, its key deleted; no other row changes.
pub cleanup_terminal_lem :
    (s : Services) (now : ℕ) (id : String) (w : World)
    → Changes id
        (cleaned s now)
        (cleanup_calls (Dict.get id w.threads) w.calls)
        w
        (cleanup_terminal s now id w)
unfolding cleanup_terminal cleanup_calls
cleanup_terminal_lem s now id w = elim (Option-cases (Dict.get id w.threads)) [
  | inr missing ↦
      rw (missing, cleanup_terminal, cleanup_calls)
        (refl, refl, refl, refl, λ j. row_missing id j (cleaned s now) w.threads missing)
  | inl (t, found) ↦ elim (Option-cases (present t.gateway_key)) [
    | inr bare ↦
        rw (found, cleanup_terminal, cleanup_calls)
          (rw (bare, cleanup_terminal, cleanup_calls)
            (
              refl,
              refl,
              refl,
              refl,
              λ j.
                  on_row_self (str_eq id j) (Dict.get j w.threads)
                  ∙ on_row-agree id j (λ u. u) (cleaned s now) w.threads t found
                      (sym (cleaned-bare s now t bare)),
            ))
    | inl (k, held) ↦
        rw (found, cleanup_calls)
          (rw (held, cleanup_calls) (cleanup-held s now id w t k found held))
  ]
]
