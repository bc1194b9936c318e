-- ===== src/Tests/Contexts.antt =====
-- Compaction at concrete inputs.
use z_agent.Base.{ℕ, String, ◌≡◌, refl, ◌⊎◌, true, none, some, List, [], ◌∷◌, map, any, all, filter}
use z_agent.Base.{contains}
use z_agent.Engine.Compaction.{
  Message, Kind, ai, tool_result, plain, PromptOrigin, user, ai_turn, tool, CompactionPolicy,
  SelfTuningLimit, compact, is_protected, is_same, call_ids, answered_ids, repair_tool_pairs,
  estimate_tokens, window_start, splice, prune, pruned_of, keep_floor, sort_by_index, restore,
  summary, strip_calls, is_honest, is_survival_critical,
}
use z_agent.Engine.Compaction.Pairs.{is_paired}
use z_agent.Engine.Compaction.Honesty.{compact-honest}

abbrev said : ℕ → PromptOrigin → String → String → Kind → Message
said i origin name content kind = record {
  ident = some i;
  origin = origin;
  name = name;
  content = content;
  kind = kind;
}

-- A user's request, an edit that failed, and a later call with its result.
abbrev talk : List Message
talk =
    said 1 user "" "Fix the fetcher" plain
    ∷ said 2 ai_turn "" "" (ai ("c1" ∷ []))
    ∷ said 3 tool "file_edit" "error: no match" (tool_result "c1")
    ∷ said 4 ai_turn "" "" (ai ("c2" ∷ []))
    ∷ said 5 tool "read" "ok" (tool_result "c2")
    ∷ []

abbrev tight : CompactionPolicy
tight = record { context_limit = 1; floor_messages = 1; recent_window = 2; marker = "[compacted]" }

abbrev short : ℕ → String
short n = "some"

abbrev after : List Message
after = (compact tight none short talk true).0

-- The error of the edit, which is to survive, is gone: the repair drops it, since its call was pruned.
after-idents : map (λ m. m.ident) after ≡ some 1 ∷ none ∷ some 4 ∷ some 5 ∷ []
unfolding compact estimate_tokens window_start splice prune pruned_of keep_floor sort_by_index
    restore summary strip_calls is_honest is_survival_critical repair_tool_pairs call_ids
    answered_ids contains
after-idents = refl

compact-honest_example :
    (after ≡ talk)
    ⊎ ((all (λ m. any (is_same m) after) (filter is_protected talk) ≡ true)
        × ((call_ids after ≡ [])
            ⊎ (all (is_paired (call_ids after) (answered_ids after)) after ≡ true)))
compact-honest_example = compact-honest tight none short talk true

abbrev tuned : SelfTuningLimit
tuned = record {
  floor = 32000;
  ceiling = 200000;
  step_down = 8000;
  step_up = 4000;
  healthy_turns_threshold = 20;
  current = 120000;
  healthy_turns = 0;
}
