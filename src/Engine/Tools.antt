-- ===== src/Engine/Tools.antt =====
-- worker/worker/engine/tools/__init__.py: the capability map, the approval default and the tool
-- surface of each mode. The proofs are in the child.
--
-- A mode is the text of its enum member, as `mode.value` gives it; an unknown text is treated as ask
-- mode, as in the source. The sets of names are lists.
pub mod Surface
use z_agent.Base.{
  ℕ, zero, suc, ◌+◌, ◌-◌, ◌*◌, ◌/◌, ◌%◌, ◌≤◌, ◌<◌, String, ◌≡◌, refl, sym, ap, ◌∙◌, ◌≢◌, ◌↔◌, ◌⊎◌,
  inl, inr, Bool, true, false, not, ◌&&◌, ◌||◌, Option, none, some, List, [], ◌∷◌, ◌++◌, map, arith,
  str_eq, eq_iff, ltb, leb, ◌==◌, if◌then◌else◌, Bool-cases, Option-cases, ltb→lt, leb→le, is_some,
  length, any, all, filter, count, take, drop, head?, All, length-append, count-append, count-le,
  length-drop, length-take, All-append, any-append, codes, elem, eq_self, elem-append, Result, ok,
  raise, or_else,
}
use text.Mathlib.Text.{starts_with}
use z_agent.Engine.Permissions.{Effect, allow, ask, deny, Rule, Args, decision_for_call}

pub data Capability : Type 0 where
  readonly mutating destructive mcp : Capability

unfoldable pub capability_table : List (String × Capability)
capability_table =
    ("file_read", readonly)
    ∷ ("file_search", readonly)
    ∷ ("file_glob", readonly)
    ∷ ("file_edit", mutating)
    ∷ ("file_write", mutating)
    ∷ ("terminal_exec", mutating)
    ∷ ("memory_search", readonly)
    ∷ ("ask_user", readonly)
    ∷ ("spawn_agent", mutating)
    ∷ ("spawn_swarm", mutating)
    ∷ ("web_fetch", readonly)
    ∷ ("git_snapshot", readonly)
    ∷ ("update_tasks", readonly)
    ∷ ("compact", readonly)
    ∷ ("knowledge_draft", mutating)
    ∷ ("tool_search", readonly)
    ∷ ("web_search", readonly)
    ∷ ("file_delete", destructive)
    ∷ ("terminal_await", readonly)
    ∷ ("playbook_load", readonly)
    ∷ ("mode_request", mutating)
    ∷ []

-- `table.get(name, default)`
abbrev pub table_get {ℓ} : {V : Type ℓ} → String → V → List (String × V) → V
table_get k d [] = d
table_get k d ((j, v) ∷ t) = if str_eq j k then v else table_get k d t

unfoldable pub capability_of : String → Capability
unfolding capability_table
capability_of name = table_get name readonly capability_table

abbrev pub is_mutating_class : Capability → Bool
is_mutating_class mutating = true
is_mutating_class destructive = true
is_mutating_class _ = false

-- `has_args`: the arguments are given and not empty.
unfoldable pub is_mutable_capability : String → Bool → Bool
is_mutable_capability name has_args = elim (capability_of name) [
  | readonly ↦ false
  | mcp ↦ true
  | other ↦ if str_eq name "terminal_exec" && has_args then true else is_mutating_class other
]

abbrev pub is_empty {ℓ} : {A : Type ℓ} → List A → Bool
is_empty [] = true
is_empty (x ∷ xs) = false

abbrev pub is_deny : Effect → Bool
is_deny deny = true
is_deny _ = false

unfoldable pub needs_approval : (String → String → Bool) → String → String → Args → List Rule → Bool
needs_approval fnmatch name autonomy args rules =
    let cap_default = is_mutating_class (capability_of name) in
    let decision = decision_for_call fnmatch name args rules cap_default in
    if str_eq autonomy "autonomous"
    then false
    else if not (is_empty rules)
    then (if is_deny decision.0 then false else decision.1)
    else cap_default

-- `_NAME_ALIASES`
unfoldable pub resolve_tool_name : String → String
resolve_tool_name name = if str_eq name "code_search" then "file_search" else name

-- `DEFAULT_TOOLS`
unfoldable pub default_tools : List String
default_tools =
    "file_read" ∷ "file_edit" ∷ "file_write" ∷ "terminal_exec" ∷ "code_search" ∷ "file_glob"
    ∷ "update_tasks" ∷ "tool_search" ∷ []

-- `_READ_SET`
unfoldable pub read_set : List String
read_set =
    "file_read" ∷ "file_search" ∷ "file_glob" ∷ "terminal_exec" ∷ "update_tasks" ∷ "compact"
    ∷ "web_fetch" ∷ "web_search" ∷ "git_snapshot" ∷ "memory_search" ∷ "tool_search"
    ∷ "playbook_load" ∷ "mode_request" ∷ "mcp__*" ∷ []

-- `_DEV_SET`
unfoldable pub dev_set : List String
unfolding read_set
dev_set =
    read_set
    ++ "file_edit" ∷ "file_write" ∷ "file_delete" ∷ "terminal_await" ∷ "knowledge_draft"
      ∷ "spawn_agent" ∷ "spawn_swarm" ∷ []

-- `MODE_ALLOWED.get(mode_val, MODE_ALLOWED["ask"])`
unfoldable pub mode_set : String → List String
unfolding dev_set
mode_set mode = table_get mode read_set (
    ("ask", read_set)
    ∷ ("plan", read_set)
    ∷ ("development", dev_set)
    ∷ ("debug", dev_set)
    ∷ ("goal", dev_set ++ "ask_user" ∷ [])
    ∷ [])

unfoldable pub mode_allowed : String → String → Bool
unfolding mode_set resolve_tool_name
mode_allowed name mode =
    if starts_with name "mcp__"
    then elem "mcp__*" (mode_set mode)
    else elem (resolve_tool_name name) (mode_set mode)

-- `_MODE_DEFAULT_ADDITIONS.get(mode_val, [])`
unfoldable pub mode_default_additions : String → List String
mode_default_additions mode = table_get mode [] (
    ("development", "spawn_agent" ∷ "spawn_swarm" ∷ [])
    ∷ ("goal", "spawn_agent" ∷ "spawn_swarm" ∷ [])
    ∷ [])

unfoldable pub default_tool_names : String → List String
unfolding default_tools mode_default_additions mode_allowed
default_tool_names mode =
    filter (λ n. mode_allowed n mode) default_tools ++ mode_default_additions mode
