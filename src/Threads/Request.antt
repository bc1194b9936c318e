-- ===== src/Threads/Request.antt =====
-- What `spawn` of backend/app/orchestrator/thread_manager.py is asked for, its checks of model and
-- reasoning, and the row that it inserts; with `permission_mode_for` of
-- backend/app/orchestrator/autonomy.py and `model_option` of backend/app/core/config.py.
--
-- A request holds the arguments that the callers pass. Of a repo the name is kept.
use z_agent.Base.{
  ℕ, String, Bool, not, ◌&&◌, Option, none, some, List, [], ◌∷◌, str_eq, if◌then◌else◌, is_some,
  head?, elem, Result, ok, raise,
}
use z_agent.Base.{str_append}
use z_agent.Base.Dict
use z_agent.Base.Dict.{Dict}
use z_agent.Capacity.{Refusal}
use z_agent.Threads.{Thread, RunRow, Services, ModelOption, present}

pub record Request : Type 0 where
  pub persona : String
  pub prompt : String
  pub persona_prompt : String
  pub writable_repo : Option String
  pub context_repos : List String
  pub resume_session : Bool
  pub resume_from_thread_id : Option String
  pub preserve_workspace : Bool
  pub budget_usd : Option ℕ
  pub model : Option String
  pub reasoning : Option String
  pub images : List String
  pub image_notes : Option String

pub data SpawnError : Type 0 where
  unknown_model : String → SpawnError
  always_thinks : String → SpawnError
  bad_reasoning : String → String → SpawnError
  no_capacity : Refusal → SpawnError
  row_not_inserted : SpawnError
  mint_failed : SpawnError
  key_not_stored : SpawnError
  staging_failed : SpawnError
  start_failed : SpawnError
  row_not_started : SpawnError
  not_announced : SpawnError

-- `PERMISSION_MODE_BY_AUTONOMY`
unfoldable pub permission_mode_by_autonomy : Dict String
permission_mode_by_autonomy =
    ("supervised", "default") ∷ ("gated", "acceptEdits") ∷ ("autonomous", "bypassPermissions") ∷ []

unfoldable pub permission_mode_for : String → String
unfolding permission_mode_by_autonomy
permission_mode_for autonomy = elim (Dict.get autonomy permission_mode_by_autonomy) [
  | none ↦ "default"
  | some mode ↦ mode
]

-- `model_option`: the first entry with the alias.
unfoldable pub model_option : List ModelOption → String → Option ModelOption
model_option [] alias = none
model_option (m ∷ ms) alias =
    let rest = model_option ms alias in if str_eq m.alias alias then some m else rest

-- `model or self.settings.gateway_model`
unfoldable pub lane_model : Services → Option String → String
lane_model s model = elim (present model) [ none ↦ s.gateway_model | some m ↦ m ]

-- The test of the reasoning choice.
unfoldable pub check_reasoning : ModelOption → Option String → Result SpawnError (Unit {0})
check_reasoning option reasoning = elim (present reasoning) [
  | none ↦ ok tt
  | some r ↦
      if str_eq r "off"
      then if option.supports_thinking_off then ok tt else raise (always_thinks option.alias)
      else if elem r option.reasoning_efforts
      then ok tt
      else raise (bad_reasoning option.alias r)
]

-- `if images and not option.vision and image_notes: prompt += image_notes`
unfoldable pub full_prompt : ModelOption → Request → String
full_prompt option q = elim (present q.image_notes) [
  | none ↦ q.prompt
  | some notes ↦
      if is_some (head? q.images) && not option.vision then str_append q.prompt notes else q.prompt
]

-- The session that the prior thread leaves.
unfoldable pub inherited_session_id : Option String → Dict Thread → Option String
inherited_session_id prior threads = elim (present prior) [
  | none ↦ none
  | some id ↦ elim (Dict.get id threads) [ none ↦ none | some t ↦ t.session_id ]
]

-- The row that `spawn` inserts.
unfoldable pub new_thread :
    Services → String → RunRow → Request → ModelOption → Dict Thread → Thread
unfolding lane_model full_prompt inherited_session_id
new_thread s run_id run q option threads = record {
  run_id = run_id;
  persona = q.persona;
  repo_scope = q.writable_repo;
  status = "queued";
  budget_usd = elim q.budget_usd [ none ↦ s.default_thread_budget_usd | some b ↦ b ];
  cost_usd = 0;
  session_id = inherited_session_id q.resume_from_thread_id threads;
  gateway_key = none;
  gateway_key_alias = none;
  container_id = none;
  heartbeat_at = none;
  finished_at = none;
  next_seq = 0;
  spawn_context = record {
    prompt = full_prompt option q;
    persona_prompt = str_append q.persona_prompt s.prompt_block;
    resume_session = q.resume_session;
    mode = run.run.mode;
    model = lane_model s q.model;
    reasoning = present q.reasoning;
    images = q.images;
    context_repos = q.context_repos;
    preserve_workspace = q.preserve_workspace;
    resume_from_thread_id = present q.resume_from_thread_id;
  };
}
