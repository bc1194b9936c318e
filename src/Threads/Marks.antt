-- ===== src/Threads/Marks.antt =====
-- What `_mark` of the thread manager leaves of the tables, for a status that ends a thread.
use z_agent.Base.{
  ℕ, String, ◌≡◌, refl, ap, ◌∙◌, inl, inr, true, none, some, str_eq, Option-cases, elem,
}
use z_agent.Base.Dict
use z_agent.Base.Dict.{Dict}
use z_agent.Threads.{
  Thread, World, Services, Spend, spent, key_gone, unreadable, present, edit_thread, settled,
  terminal_statuses, mark,
}
use z_agent.Threads.Cleanup.{
  on_row, read, cleaned, cleanup_calls, Changes, on_row-compose, edit_row-get, edit_row_self,
  cleaned-bare, cleaned-held, cleanup_terminal_lem,
}

pub cleaned-key :
    (s : Services) (now : ℕ) (t : Thread) → present (cleaned s now t).gateway_key ≡ none
cleaned-key s now t = elim (Option-cases (present t.gateway_key)) [
  | inr bare ↦ ap (λ u. present u.gateway_key) (cleaned-bare s now t bare) ∙ bare
  | inl (k, held) ↦ ap (λ u. present u.gateway_key) (cleaned-held s now t k held)
]

read-status : (now : ℕ) (a : Spend) (t : Thread) → (read now a t).status ≡ t.status
unfolding read settled
read-status now (spent c) t = refl
read-status now key_gone t = refl
read-status now unreadable t = refl

pub cleaned-status : (s : Services) (now : ℕ) (t : Thread) → (cleaned s now t).status ≡ t.status
cleaned-status s now t = elim (Option-cases (present t.gateway_key)) [
  | inr bare ↦ ap (λ u. u.status) (cleaned-bare s now t bare)
  | inl (k, held) ↦
      ap (λ u. u.status) (cleaned-held s now t k held) ∙ read-status now (s.spend_of k) t
]

read-run_id : (now : ℕ) (a : Spend) (t : Thread) → (read now a t).run_id ≡ t.run_id
unfolding read settled
read-run_id now (spent c) t = refl
read-run_id now key_gone t = refl
read-run_id now unreadable t = refl

pub cleaned-run_id : (s : Services) (now : ℕ) (t : Thread) → (cleaned s now t).run_id ≡ t.run_id
cleaned-run_id s now t = elim (Option-cases (present t.gateway_key)) [
  | inr bare ↦ ap (λ u. u.run_id) (cleaned-bare s now t bare)
  | inl (k, held) ↦
      ap (λ u. u.run_id) (cleaned-held s now t k held) ∙ read-run_id now (s.spend_of k) t
]

abbrev pub stamp : String → Thread → Thread
stamp status t = record t { status = status }

-- A terminal mark of a row that is there.
pub mark_lem :
    (s : Services) (now : ℕ) (id status : String) (w : World) (t : Thread)
    → Dict.get id w.threads ≡ some t
    → elem status terminal_statuses ≡ true
    → Changes id
        (λ u. cleaned s now (stamp status u))
        (cleanup_calls (some t) w.calls)
        w
        (mark s now id status w)
unfolding mark cleanup_calls
mark_lem s now id status w t found over =
    let w' : World = edit_thread id (stamp status) w in
    let clean = cleanup_terminal_lem s now id w' in
    let row = edit_row_self id (stamp status) w.threads t found in
    rw (over, mark)
      (
        clean.0,
        clean.1,
        clean.2,
        clean.3 ∙ ap (λ o. cleanup_calls o w.calls) row,
        λ j.
            clean.4 j
            ∙ (ap (on_row (str_eq id j) (cleaned s now))
                  (edit_row-get id j (stamp status) w.threads)
                ∙ on_row-compose (str_eq id j) (stamp status) (cleaned s now)
                    (Dict.get j w.threads)),
      )
