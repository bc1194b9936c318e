-- ===== src/Engine/Tasks.antt =====
-- worker/worker/engine/tools/extended.py: apply_task_updates, the reducer of the plan and its tracker. The proofs
-- are in the child.
--
-- A task has its texts; an update has those that its action may read, the empty text for a missing one. Errors are
-- told apart by what they refuse.
pub mod Plan
use z_agent.Base.{
  ℕ, zero, suc, ◌+◌, ◌-◌, ◌*◌, ◌/◌, ◌%◌, ◌≤◌, ◌<◌, String, ◌≡◌, refl, sym, ap, ◌∙◌, ◌≢◌, ◌↔◌, ◌⊎◌,
  inl, inr, Bool, true, false, not, ◌&&◌, ◌||◌, Option, none, some, List, [], ◌∷◌, ◌++◌, map, arith,
  str_eq, eq_iff, ltb, leb, ◌==◌, if◌then◌else◌, Bool-cases, Option-cases, ltb→lt, leb→le, is_some,
  length, any, all, filter, count, take, drop, head?, All, length-append, count-append, count-le,
  length-drop, length-take, All-append, any-append, codes, elem, eq_self, elem-append, take_text,
  Result, ok, raise, or_else,
}
use z_agent.Base.Dict
use z_agent.Base.Dict.{Dict}

pub record Task : Type 0 where
  pub id : String
  pub content : String
  pub scope : String
  pub acceptance : String

pub record Tasks : Type 0 where
  pub artifact : List Task
  pub tracker : Dict String

pub record Update : Type 0 where
  pub action : Option String
  pub id : String
  pub content : String
  pub scope : String
  pub acceptance : String
  pub status : String

pub data UpdateError : Type 0 where
  needs_id : UpdateError
  needs_content : UpdateError
  bad_status : UpdateError
  unknown_task : UpdateError
  unknown_action : UpdateError
  many_in_progress : UpdateError

-- `TASK_STATUSES`
abbrev pub task_statuses : List String
task_statuses = "pending" ∷ "in_progress" ∷ "completed" ∷ "cancelled" ∷ []

abbrev pub is_planned : String → List Task → Bool
is_planned tid artifact = any (λ a. str_eq a.id tid) artifact

abbrev pub without : String → List Task → List Task
without tid artifact = filter (λ a. not (str_eq a.id tid)) artifact

-- `upd.get("action", "upsert")`
abbrev pub action_of : Option String → String
action_of none = "upsert"
action_of (some a) = a

unfoldable pub add : Update → Tasks → Tasks
add u t = record {
  artifact =
      without u.id t.artifact
      ++ (record { id = u.id; content = u.content; scope = u.scope; acceptance = u.acceptance }
          ∷ []);
  tracker =
      if is_some (Dict.get u.id t.tracker) then t.tracker else Dict.put u.id "pending" t.tracker;
}

-- One turn of the loop.
unfoldable pub apply_one : Update → Tasks → Result UpdateError Tasks
apply_one u t =
    if str_eq u.id ""
    then raise needs_id
    else if str_eq (action_of u.action) "add"
    then (if str_eq u.content "" then raise needs_content else ok (add u t))
    else if str_eq (action_of u.action) "status"
    then (if not (elem u.status task_statuses)
        then raise bad_status
        else if not (is_some (Dict.get u.id t.tracker)) && not (is_planned u.id t.artifact)
        then raise unknown_task
        else ok (record t { tracker = Dict.put u.id u.status t.tracker }))
    else if str_eq (action_of u.action) "remove"
    then ok (record { artifact = without u.id t.artifact; tracker = Dict.remove u.id t.tracker })
    else raise unknown_action

unfoldable pub apply_all : List Update → Tasks → Result UpdateError Tasks
apply_all [] t = ok t
apply_all (u ∷ us) t = elim (apply_one u t) [ raise e ↦ raise e | ok t' ↦ apply_all us t' ]

abbrev pub in_progress : Tasks → ℕ
in_progress t = Dict.count_values (λ s. str_eq s "in_progress") t.tracker

-- `apply_task_updates`: the tasks, and the error if there is one
unfoldable pub apply_task_updates : Tasks → List Update → Tasks × Option UpdateError
apply_task_updates t us = elim (apply_all us t) [
  | raise e ↦ (t, some e)
  | ok t' ↦ if ltb 1 (in_progress t') then (t, some many_in_progress) else (t', none)
]
