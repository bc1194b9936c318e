-- ===== src/Launch.antt =====
-- backend/app/orchestrator/run_manager.py: how a run begins, and how one that raises ends. Here are the
-- checks of the composer's choices and the parts of a new run; Launch.Create has `create_run`,
-- Launch.Failures `_fail_pre_execute` and the failure path of `_guarded_execute`. The other children are proofs.
--
-- Python's `str.strip`, the decimal form of a number, the title of a work item, the rows of `modes`,
-- and what the image checks and the image preparation answer are parameters (`Composer`). `raced` is
-- the rows of `runs` that other requests commit between the look-up and the insert.
pub mod Failures
pub mod Create
pub mod Models
pub mod Failed
pub mod Final
pub mod Once
pub mod Again
use z_agent.Base.{
  ℕ, zero, suc, ◌+◌, ◌-◌, ◌*◌, ◌/◌, ◌%◌, ◌≤◌, ◌<◌, String, ◌≡◌, refl, sym, ap, ◌∙◌, ◌≢◌, ◌↔◌, ◌⊎◌,
  inl, inr, Bool, true, false, not, ◌&&◌, ◌||◌, Option, none, some, List, [], ◌∷◌, ◌++◌, map, arith,
  str_eq, eq_iff, ltb, leb, ◌==◌, if◌then◌else◌, Bool-cases, Option-cases, ltb→lt, leb→le, is_some,
  length, any, all, filter, count, take, drop, head?, All, length-append, count-append, count-le,
  length-drop, length-take, All-append, any-append, codes, elem, eq_self, elem-append, take_text,
  Result, ok, raise, or_else,
}
use z_agent.Base.Dict
use z_agent.Base.Dict.{Dict}
use z_agent.Contracts.{queued}
use z_agent.Run.{Run}
use z_agent.Heartbeats.{to_stage}
use z_agent.Threads.{
  RunRow, World, Services, ModelOption, register_run, run_stage, execute, present, call,
}
use z_agent.Threads.Request.{model_option}

pub data LaunchError : Type 0 where
  unknown_model : String → LaunchError
  one_model_only : String → LaunchError
  unknown_swarm_model : String → LaunchError
  unused_model : String → LaunchError
  always_thinks : String → LaunchError
  bad_reasoning : String → String → LaunchError
  bad_image : LaunchError
  no_task : LaunchError
  bad_mode : String → LaunchError
  not_prepared : LaunchError
  duplicate : LaunchError

-- The columns of `modes` that `create_run` reads.
pub record Mode : Type 0 where
  pub enabled : Bool
  pub autonomy_default : String

pub record Composer : Type 0 where
  pub strip : String → String
  pub decimal : ℕ → String
  pub hydrate : ℕ → String → Option String
  pub modes : Dict Mode
  pub images_valid : Bool
  pub images_prepared : Bool
  pub new_run_id : String
  pub raced : Dict RunRow

-- The arguments of `create_run`.
pub record Order : Type 0 where
  pub initiated_by : ℕ
  pub mode_name : String
  pub task : String
  pub repo : Option String
  pub work_item_id : Option ℕ
  pub autonomy : Option String
  pub models : List String
  pub reasoning : Dict String
  pub images : List String
  pub swarm_model : Option String
  pub idempotency_key : Option String

-- `_title_is_generic`
unfoldable pub title_is_generic : Composer → String → ℕ → Bool
title_is_generic c task work_item_id =
    let stripped = c.strip task in
    ltb (length (codes stripped)) 4 || str_eq stripped (c.decimal work_item_id)

abbrev pub aliases : List ModelOption → List String
aliases [] = []
aliases (m ∷ ms) = m.alias ∷ aliases ms

-- `list(dict.fromkeys(models))`: each alias once, in the order of its first place.
unfoldable pub dedupe : List String → List String → List String
dedupe seen [] = []
dedupe seen (m ∷ ms) =
    let rest = dedupe (if elem m seen then seen else m ∷ seen) ms in
    if elem m seen then rest else m ∷ rest

abbrev pub first_unknown : List String → List String → Option String
first_unknown known [] = none
first_unknown known (m ∷ ms) =
    let rest = first_unknown known ms in if elem m known then rest else some m

-- `_validate_models`; no selection is the empty list.
unfoldable pub validate_models : Services → List String → String → Result LaunchError (List String)
unfolding dedupe
validate_models s models mode_name =
    let picked = dedupe [] models in
    elim (first_unknown (aliases s.available_models) picked) [
      | some m ↦ raise (unknown_model m)
      | none ↦
          if ltb 1 (length picked) && not (str_eq mode_name "ask")
          then raise (one_model_only mode_name)
          else ok picked
    ]

-- `_validate_swarm_model`
unfoldable pub validate_swarm_model : Services → Option String → Result LaunchError (Option String)
validate_swarm_model s swarm_model = elim (present swarm_model) [
  | none ↦ ok none
  | some m ↦
      if elem m (aliases s.available_models) then ok (some m) else raise (unknown_swarm_model m)
]

-- The check of one entry of the reasoning choices.
unfoldable pub check_effort : Services → List String → String → String → Option LaunchError
unfolding model_option
check_effort s used alias effort =
    if not (elem alias used)
    then some (unused_model alias)
    else elim (model_option s.available_models alias) [
      | none ↦ some (unknown_model alias)
      | some option ↦
          if str_eq effort "off"
          then if option.supports_thinking_off then none else some (always_thinks alias)
          else if elem effort option.reasoning_efforts
          then none
          else some (bad_reasoning alias effort)
    ]

-- The loop over the entries: the first that is refused raises.
unfoldable pub check_efforts :
    Services → List String → Dict String → Result LaunchError (Dict String)
unfolding check_effort
check_efforts s used [] = ok []
check_efforts s used ((alias, effort) ∷ rest) =
    let checked = check_efforts s used rest in
    elim (check_effort s used alias effort) [
      | some e ↦ raise e
      | none ↦ elim checked [ raise e ↦ raise e | ok clean ↦ ok ((alias, effort) ∷ clean) ]
    ]

abbrev pub used_models : Services → List String → List String
used_models s [] = s.gateway_model ∷ []
used_models s (m ∷ ms) = m ∷ ms

-- `_validate_reasoning`
unfoldable pub validate_reasoning :
    Services → Dict String → List String → Result LaunchError (Dict String)
unfolding check_efforts
validate_reasoning s reasoning models = check_efforts s (used_models s models) reasoning

abbrev pub image_instruction : String
image_instruction =
    "The user sent image attachment(s) with no text. Examine them carefully and respond helpfully — describe what you see and answer any question the images imply."

-- The title that a generic one is replaced by; an empty one is not taken.
unfoldable pub hydrated : Composer → Order → String
unfolding title_is_generic
hydrated c o = elim o.work_item_id [
  | none ↦ o.task
  | some item ↦
      if title_is_generic c o.task item
      then elim (present (c.hydrate item o.task)) [ none ↦ o.task | some title ↦ title ]
      else o.task
]

-- The task that the run is given, if there is one.
unfoldable pub final_task : Composer → Order → Option String
unfolding hydrated
final_task c o =
    if str_eq (c.strip (hydrated c o)) ""
    then if is_some (head? o.images) then some image_instruction else none
    else some (hydrated c o)

abbrev pub key_is : String → Option String → Bool
key_is k none = false
key_is k (some j) = str_eq j k

-- The row of the user with the key, `filter_by(created_by=…, idempotency_key=…)`.
unfoldable pub run_with_key : ℕ → String → Dict RunRow → Option String
run_with_key user k [] = none
run_with_key user k ((id, r) ∷ rows) =
    let rest = run_with_key user k rows in
    if (r.run.created_by == user) && key_is k r.idempotency_key then some id else rest

-- A new run, before its stage is set.
unfoldable pub new_run : Composer → Order → Mode → String → RunRow
new_run c o mode task = record {
  run = record {
    id = c.new_run_id;
    created_by = o.initiated_by;
    stage = queued;
    mode = o.mode_name;
    available_actions = [];
  };
  title = take_text 256 task;
  repo = o.repo;
  autonomy = elim (present o.autonomy) [ none ↦ mode.autonomy_default | some a ↦ a ];
  idempotency_key = o.idempotency_key;
  cost_usd = 0;
  finished_at = none;
  failure_reason = none;
}

-- `Mode … filter_by(name=mode_name, enabled=True)`
unfoldable pub enabled_mode : String → Dict Mode → Option Mode
enabled_mode name modes = elim (Dict.get name modes) [
  | none ↦ none
  | some mode ↦ if mode.enabled then some mode else none
]
