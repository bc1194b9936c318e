-- ===== src/Controls/Rows.antt =====
-- The tables after the steps that the controls are made of.
use z_agent.Base.{
  ℕ, String, ◌≡◌, refl, sym, ap, ◌∙◌, ◌⊎◌, inl, inr, Bool, true, false, ◌&&◌, Option, none, some,
  List, [], ◌∷◌, arith, str_eq, eq_iff, if◌then◌else◌, Bool-cases, Option-cases, elem, eq_self,
}
use mathlib.Core.Path.{subst}
use z_agent.Base.Dict
use z_agent.Base.Dict.{Dict, get-put}
use z_agent.Threads.{
  Thread, World, Services, RunRow, present, call, settle_cost, release_key, cleanup_terminal,
  thread_status, roll_up, total_cost, edit_row, settled, read_back, Spend, spent, key_gone,
  unreadable,
}
use z_agent.Threads.Cleanup.{on_row, cleaned, cleanup_terminal_lem, cleanup_terminal-held}
use z_agent.Threads.Marks.{cleaned-key, cleaned-status, cleaned-run_id}
use z_agent.Controls.{edit_where, ids_where, retire}

-- The row of a run that passes the test is changed.
abbrev pub where_row : (Thread → Bool) → String → (Thread → Thread) → Thread → Thread
where_row p run_id f t = if str_eq t.run_id run_id && p t then f t else t

pub edit_where-get :
    (p : Thread → Bool) (run_id : String) (f : Thread → Thread) (j : String) (d : Dict Thread)
    → Dict.get j (edit_where p run_id f d) ≡ on_row true (where_row p run_id f) (Dict.get j d)
unfolding edit_where Dict.get
edit_where-get p run_id f j [] = refl
edit_where-get p run_id f j ((i, t) ∷ d) = elim (Bool-cases (str_eq i j)) [
  | inl here ↦ rw here refl
  | inr other ↦ rw other (edit_where-get p run_id f j d)
]

-- What a cleanup keeps of a row: its status and its run.
abbrev pub View : Type 0
View = Option (String × String)

abbrev pub view : Option Thread → View
view none = none
view (some t) = some (t.status, t.run_id)

view-cleaned :
    (s : Services) (now : ℕ) (b : Bool) (o : Option Thread)
    → view (on_row b (cleaned s now) o) ≡ view o
view-cleaned s now b none = refl
view-cleaned s now false (some t) = refl
view-cleaned s now true (some t) = rw (cleaned-status s now t, cleaned-run_id s now t) refl

pub cleanup-view :
    (s : Services) (now : ℕ) (id j : String) (w : World)
    → view (Dict.get j (cleanup_terminal s now id w).threads) ≡ view (Dict.get j w.threads)
cleanup-view s now id j w =
    ap view ((cleanup_terminal_lem s now id w).4 j)
    ∙ view-cleaned s now (str_eq id j) (Dict.get j w.threads)

pub retire-view :
    (s : Services) (now : ℕ) (run_id : String) (ids : List String) (j : String) (w : World)
    → view (Dict.get j (retire s now run_id ids w).threads) ≡ view (Dict.get j w.threads)
retire-view s now run_id [] j w = refl
retire-view s now run_id (id ∷ ids) j w =
    retire-view s now run_id ids j
      (cleanup_terminal s now id (call (thread_status run_id id "stopped") w))
    ∙ cleanup-view s now id j (call (thread_status run_id id "stopped") w)

-- A run's row but for its cost, which is all that a cleanup changes of it.
abbrev pub sans_cost : RunRow → RunRow
sans_cost r = record r { cost_usd = 0 }

abbrev pub run_of : Option RunRow → Option RunRow
run_of none = none
run_of (some r) = some (sans_cost r)

roll_up-run :
    (r j : String) (threads : Dict Thread) (runs : Dict RunRow)
    → run_of (Dict.get j (roll_up r threads runs)) ≡ run_of (Dict.get j runs)
unfolding roll_up
roll_up-run r j threads runs = elim (Option-cases (Dict.get r runs)) [
  | inr missing ↦ rw (missing, roll_up) refl
  | inl (row, found) ↦
      rw (found, roll_up)
        (ap run_of (get-put r j (record row { cost_usd = total_cost r threads }) runs)
          ∙ elim (Bool-cases (str_eq r j)) [
            | inr other ↦ rw other refl
            | inl same ↦ rw (← (eq_iff r j).0 same, eq_self r, found) refl
          ])
]

read_back-run :
    (now : ℕ) (id j : String) (t : Thread) (a : Spend) (w : World)
    → run_of (Dict.get j (read_back now id t a w).0.runs) ≡ run_of (Dict.get j w.runs)
unfolding read_back
read_back-run now id j t (spent c) w =
    roll_up-run t.run_id j (edit_row id (settled now c) w.threads) w.runs
read_back-run now id j t key_gone w = refl
read_back-run now id j t unreadable w = refl

pub cleanup-run :
    (s : Services) (now : ℕ) (id j : String) (w : World)
    → run_of (Dict.get j (cleanup_terminal s now id w).runs) ≡ run_of (Dict.get j w.runs)
unfolding cleanup_terminal settle_cost release_key
cleanup-run s now id j w = elim (Option-cases (Dict.get id w.threads)) [
  | inr missing ↦ rw (missing, cleanup_terminal) refl
  | inl (t, found) ↦ elim (Option-cases (present t.gateway_key)) [
    | inr bare ↦ rw (found, cleanup_terminal) (rw (bare, cleanup_terminal) refl)
    | inl (k, held) ↦
        ap (λ v. run_of (Dict.get j v.runs)) (cleanup_terminal-held s now id w t k found held)
        ∙ read_back-run now id j t (s.spend_of k) w
  ]
]

pub retire-run :
    (s : Services) (now : ℕ) (run_id : String) (ids : List String) (j : String) (w : World)
    → run_of (Dict.get j (retire s now run_id ids w).runs) ≡ run_of (Dict.get j w.runs)
retire-run s now run_id [] j w = refl
retire-run s now run_id (id ∷ ids) j w =
    retire-run s now run_id ids j
      (cleanup_terminal s now id (call (thread_status run_id id "stopped") w))
    ∙ cleanup-run s now id j (call (thread_status run_id id "stopped") w)

-- A row without a key, and one whose thread is cleaned up.
abbrev pub IsBare : Option Thread → Type 0
IsBare none = Unit
IsBare (some t) = present t.gateway_key ≡ none

cleaned-IsBare :
    (s : Services) (now : ℕ) (b : Bool) (o : Option Thread)
    → IsBare o ⊎ (b ≡ true)
    → IsBare (on_row b (cleaned s now) o)
cleaned-IsBare s now b none h = tt
cleaned-IsBare s now true (some t) h = cleaned-key s now t
cleaned-IsBare s now false (some t) (inl bare) = bare
cleaned-IsBare s now false (some t) (inr no_) = absurd (ground arith)

pub cleanup-IsBare :
    (s : Services) (now : ℕ) (id j : String) (w : World)
    → IsBare (Dict.get j w.threads) ⊎ (str_eq id j ≡ true)
    → IsBare (Dict.get j (cleanup_terminal s now id w).threads)
cleanup-IsBare s now id j w h =
    subst IsBare (sym ((cleanup_terminal_lem s now id w).4 j))
      (cleaned-IsBare s now (str_eq id j) (Dict.get j w.threads) h)

retire-IsBare_before :
    (s : Services) (now : ℕ) (run_id : String) (ids : List String) (j : String) (w : World)
    → IsBare (Dict.get j w.threads)
    → IsBare (Dict.get j (retire s now run_id ids w).threads)
retire-IsBare_before s now run_id [] j w h = h
retire-IsBare_before s now run_id (id ∷ ids) j w h =
    retire-IsBare_before s now run_id ids j
      (cleanup_terminal s now id (call (thread_status run_id id "stopped") w))
      (cleanup-IsBare s now id j (call (thread_status run_id id "stopped") w) (inl h))

pub retire-IsBare :
    (s : Services) (now : ℕ) (run_id : String) (ids : List String) (j : String) (w : World)
    → elem j ids ≡ true
    → IsBare (Dict.get j (retire s now run_id ids w).threads)
retire-IsBare s now run_id [] j w h = absurd (ground arith)
retire-IsBare s now run_id (id ∷ ids) j w h =
    let w' : World = cleanup_terminal s now id (call (thread_status run_id id "stopped") w) in
    elim (Bool-cases (str_eq id j)) [
      | inl here ↦
          retire-IsBare_before s now run_id ids j w'
            (cleanup-IsBare s now id j (call (thread_status run_id id "stopped") w) (inr here))
      | inr other ↦ retire-IsBare s now run_id ids j w' (ground arith)
    ]

-- The ids of a query hold every row that the query selects.
pub ids_where-elem :
    (p : Thread → Bool) (run_id j : String) (u : Thread) (d : Dict Thread)
    → Dict.get j d ≡ some u
    → (str_eq u.run_id run_id && p u) ≡ true
    → elem j (ids_where p run_id d) ≡ true
unfolding ids_where Dict.get
ids_where-elem p run_id j u [] found mine = absurd (ground arith)
ids_where-elem p run_id j u ((i, t) ∷ d) found mine = elim (Bool-cases (str_eq i j)) [
  | inr other ↦ ground (arith, ids_where-elem p run_id j u d, other)
  | inl here ↦
      let same : t ≡ u = ground arith in
      rw (ap (λ v. str_eq v.run_id run_id && p v) same ∙ mine) (rw here refl)
]
