-- ===== src/Intents.antt =====
-- backend/app/services/intents.py: the intent bus. The proofs are in the child.
--
-- Python's `str.strip().lower()` and the word-boundary search of `re` are the parameters `normalise`
-- and `has_phrase`.
pub mod Gate
use z_agent.Base.{
  ℕ, zero, suc, ◌+◌, ◌-◌, ◌*◌, ◌/◌, ◌%◌, ◌≤◌, ◌<◌, String, ◌≡◌, refl, sym, ap, ◌∙◌, ◌≢◌, ◌↔◌, ◌⊎◌,
  inl, inr, Bool, true, false, not, ◌&&◌, ◌||◌, Option, none, some, List, [], ◌∷◌, ◌++◌, map, arith,
  str_eq, eq_iff, ltb, leb, ◌==◌, if◌then◌else◌, Bool-cases, Option-cases, ltb→lt, leb→le, is_some,
  length, any, all, filter, count, take, drop, head?, All, length-append, count-append, count-le,
  length-drop, length-take, All-append, any-append, codes, elem, eq_self, elem-append, Result, ok,
  raise, or_else,
}
use z_agent.Contracts.{
  ActionKind, review_plan, approve_plan, reject_plan, stop_thread, nudge, let_it_run, pin_finding,
  kill_replace, review_evidence, create_pr, review_diff, merge_pr, start_planning,
  move_to_development, switch_mode, stop_run, abandon_run, send_message, ask_counsel,
  summarize_thread, value, irreversible, IntentSource, text, voice, UserIntent, RunStage,
}
use z_agent.Run.{Run}

-- `READ_ONLY_INTENTS`
unfoldable pub read_only : ActionKind → Bool
read_only review_plan = true
read_only review_evidence = true
read_only review_diff = true
read_only nudge = true
read_only send_message = true
read_only let_it_run = true
read_only pin_finding = true
read_only ask_counsel = true
read_only summarize_thread = true
read_only _ = false

pub data IntentError : Type 0 where
  needs_confirmation : UserIntent → IntentError
  not_legal : ActionKind → RunStage → IntentError

-- The controls that `gate_intent` adds to the row's actions.
unfoldable pub always_legal : List String
unfolding value
always_legal = map value (
    nudge ∷ send_message ∷ stop_run ∷ abandon_run ∷ stop_thread ∷ pin_finding ∷ kill_replace
    ∷ let_it_run ∷ switch_mode ∷ [])

unfoldable pub is_legal : Run → ActionKind → Bool
is_legal run kind = elem (value kind) (run.available_actions ++ always_legal)

-- `source in (IntentSource.TEXT, IntentSource.VOICE)`
abbrev pub from_text : IntentSource → Bool
from_text text = true
from_text voice = true
from_text _ = false

unfoldable pub gate_intent : Run → UserIntent → Result IntentError (Unit {0})
gate_intent run i =
    if irreversible i.intent && not i.confirmed
    then raise (needs_confirmation i)
    else if from_text i.source && (not (read_only i.intent) && not i.confirmed)
    then raise (needs_confirmation i)
    else if is_legal run i.intent
    then ok tt
    else raise (not_legal i.intent run.stage)

unfoldable pub keyword_map : List (ActionKind × List String)
keyword_map =
    (approve_plan, "approve" ∷ "lgtm" ∷ "looks good" ∷ "go ahead" ∷ [])
    ∷ (reject_plan, "reject" ∷ "no, redo" ∷ "try again" ∷ [])
    ∷ (merge_pr, "merge" ∷ "ship it" ∷ "mark done" ∷ [])
    ∷ (create_pr, "create pr" ∷ "open pr" ∷ "make the pr" ∷ [])
    ∷ (start_planning, "plan this" ∷ "start planning" ∷ [])
    ∷ (move_to_development, "develop" ∷ "start development" ∷ "code it" ∷ [])
    ∷ (stop_run, "stop" ∷ "halt" ∷ [])
    ∷ []

module _ (normalise : String → String) (has_phrase : String → String → Bool) where
  -- The loop of `classify_text` over the entries of the map.
  unfoldable pub classify_loop : Run → String → List (ActionKind × List String) → Option UserIntent
  classify_loop run typed [] = none
  classify_loop run typed ((kind, phrases) ∷ entries) =
      if elem (value kind) run.available_actions
        && any (λ p. has_phrase p (normalise typed)) phrases
      then some (record {
        run_id = run.id;
        intent = kind;
        source = text;
        thread_id = none;
        text = some typed;
        confirmed = false;
      })
      else classify_loop run typed entries

  unfoldable pub classify_text : Run → String → Option UserIntent
  unfolding classify_loop keyword_map
  classify_text run typed = classify_loop run typed keyword_map

-- A row of the threads table, as the guards read it.
pub record ThreadRow : Type 0 where
  pub id : String
  pub run_id : String

-- `session.get(Run, run_id)` and `session.get(Thread, thread_id)` are the two look-ups.
unfoldable pub load_run_for_user : (String → Option Run) → String → ℕ → Option Run
load_run_for_user runs run_id user_id = elim (runs run_id) [
  | none ↦ none
  | some run ↦ if run.created_by == user_id then some run else none
]

unfoldable pub load_thread_for_run :
    (String → Option ThreadRow) → String → String → Option ThreadRow
load_thread_for_run threads run_id thread_id = elim (threads thread_id) [
  | none ↦ none
  | some thread ↦ if str_eq thread.run_id run_id then some thread else none
]
