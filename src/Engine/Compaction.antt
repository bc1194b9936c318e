-- ===== src/Engine/Compaction.antt =====
-- worker/worker/engine/compaction.py: pruning, summarizing and splicing of the messages, with the repair of the
-- tool pairs and the validator; and the context limit that tunes itself. The proofs are in the children.
--
-- A message has its identity as an object (none for one that the compaction makes), its origin, its text, and the
-- ids of its calls or of the call that it answers; a missing id is the empty text. A content is text. The
-- summarizer and the decimal text of a number are arguments.
pub mod Pairs
pub mod Honesty
pub mod Tuning
use z_agent.Base.{
  ℕ, zero, suc, ◌+◌, ◌-◌, ◌*◌, ◌/◌, ◌%◌, ◌≤◌, ◌<◌, String, ◌≡◌, refl, sym, ap, ◌∙◌, ◌≢◌, ◌↔◌, ◌⊎◌,
  inl, inr, Bool, true, false, not, ◌&&◌, ◌||◌, Option, none, some, List, [], ◌∷◌, ◌++◌, map, arith,
  str_eq, eq_iff, ltb, leb, ◌==◌, if◌then◌else◌, Bool-cases, Option-cases, ltb→lt, leb→le, is_some,
  length, any, all, filter, count, take, drop, head?, All, length-append, count-append, count-le,
  length-drop, length-take, All-append, any-append, codes, elem, eq_self, elem-append, take_text,
  Result, ok, raise, or_else,
}
use z_agent.Base.{contains, str_append, take_text}

pub data PromptOrigin : Type 0 where
  system : PromptOrigin
  user : PromptOrigin
  ai_turn : PromptOrigin
  tool : PromptOrigin
  envelope : PromptOrigin
  memory : PromptOrigin
  nudge : PromptOrigin

pub data Kind : Type 0 where
  ai : List String → Kind
  tool_result : String → Kind
  plain : Kind

pub record Message : Type 0 where
  pub ident : Option ℕ
  pub origin : PromptOrigin
  pub name : String
  pub content : String
  pub kind : Kind

abbrev pub tool_calls : Kind → List String
tool_calls (ai ids) = ids
tool_calls _ = []

-- The call that a tool message answers; empty for other messages.
abbrev pub tool_call_id : Kind → String
tool_call_id (tool_result id) = id
tool_call_id _ = ""

abbrev pub is_tool : Message → Bool
is_tool m = elim m.kind [ ai _ ↦ false | tool_result _ ↦ true | plain ↦ false ]

-- `_PROTECTED_ORIGINS`
abbrev pub is_protected : Message → Bool
is_protected m = elim m.origin [
  | system ↦ true
  | user ↦ true
  | nudge ↦ true
  | ai_turn ↦ false
  | tool ↦ false
  | envelope ↦ false
  | memory ↦ false
]

abbrev pub survival_markers : List String
survival_markers =
    "error:" ∷ "[exit 1" ∷ "[exit 2" ∷ "[exit 127" ∷ "approval" ∷ "denied" ∷ "always_allow"
    ∷ "applied" ∷ "edit applied" ∷ "wrote " ∷ []

abbrev pub mutating_names : List String
mutating_names = "file_edit" ∷ "file_write" ∷ "file_delete" ∷ "terminal_exec" ∷ []

-- `_is_survival_critical`
unfoldable pub is_survival_critical : Message → Bool
is_survival_critical m =
    elem m.name mutating_names && any (λ t. contains t m.content) survival_markers

-- The ids of the calls of the messages, and those that tool messages answer; empty ones are left out.
unfoldable pub call_ids : List Message → List String
call_ids [] = []
call_ids (m ∷ ms) = filter (λ c. not (str_eq c "")) (tool_calls m.kind) ++ call_ids ms

unfoldable pub answered_ids : List Message → List String
answered_ids [] = []
answered_ids (m ∷ ms) =
    if is_tool m && not (str_eq (tool_call_id m.kind) "")
    then tool_call_id m.kind ∷ answered_ids ms
    else answered_ids ms

-- A result whose call is gone.
abbrev pub is_orphan : List String → Message → Bool
is_orphan calls m =
    is_tool m && (not (str_eq (tool_call_id m.kind) "") && not (elem (tool_call_id m.kind) calls))

-- A message without its unanswered calls: a copy, if it has any.
unfoldable pub strip_calls : List String → Message → Message
strip_calls answered m =
    if all (λ c. elem c answered) (tool_calls m.kind)
    then m
    else record m { ident = none; kind = ai (filter (λ c. elem c answered) (tool_calls m.kind)) }

-- `_repair_tool_pairs`
unfoldable pub repair_tool_pairs : List Message → List Message
repair_tool_pairs ms = elim (call_ids ms) [
  | [] ↦ ms
  | ◌∷◌ c cs ↦
      let kept = filter (λ m. not (is_orphan (c ∷ cs) m)) ms in
      map (strip_calls (answered_ids kept)) kept
]

pub record CompactionPolicy : Type 0 where
  pub context_limit : ℕ
  pub floor_messages : ℕ
  pub recent_window : ℕ
  pub marker : String

-- `CompactionPolicy.should_compact`
abbrev pub should_compact : CompactionPolicy → ℕ → ℕ → Bool
should_compact p message_count token_count =
    leb p.context_limit token_count && ltb (p.floor_messages + p.recent_window) message_count

-- `_estimate_tokens`
abbrev pub text_size : List Message → ℕ
text_size [] = 0
text_size (m ∷ ms) = length (codes m.content) + text_size ms

unfoldable pub estimate_tokens : List Message → ℕ
estimate_tokens ms = text_size ms / 4

abbrev pub is_tool_at : ℕ → List Message → Bool
is_tool_at n ms = elim (head? (drop n ms)) [ none ↦ false | some m ↦ is_tool m ]

-- The start of the recent window, moved back over tool messages.
unfoldable pub window_start : ℕ → List Message → ℕ
window_start zero ms = zero
window_start (suc n) ms = if is_tool_at (suc n) ms then window_start n ms else suc n

abbrev pub Indexed : Type 0
Indexed = ℕ × Message

abbrev pub enumerate : ℕ → List Message → List Indexed
enumerate n [] = []
enumerate n (m ∷ ms) = (n, m) ∷ enumerate (suc n) ms

-- `items.sort(key=lambda x: x[0])`
abbrev pub insert_by_index : Indexed → List Indexed → List Indexed
insert_by_index x [] = x ∷ []
insert_by_index x (y ∷ ys) = if leb x.0 y.0 then x ∷ y ∷ ys else y ∷ insert_by_index x ys

unfoldable pub sort_by_index : List Indexed → List Indexed
sort_by_index [] = []
sort_by_index (x ∷ xs) = insert_by_index x (sort_by_index xs)

abbrev pub has_origin : PromptOrigin → Indexed → Bool
has_origin tool (i, m) = elim m.origin [ tool ↦ not (is_survival_critical m) | _ ↦ false ]
has_origin envelope (i, m) = elim m.origin [ envelope ↦ true | _ ↦ false ]
has_origin memory (i, m) = elim m.origin [ memory ↦ true | _ ↦ false ]
has_origin ai_turn (i, m) = elim m.origin [ ai_turn ↦ true | _ ↦ false ]
has_origin _ x = false

-- The buckets of _PRUNE_ORDER, most expendable first, and what stays.
unfoldable pub pruned_of : List Indexed → List Indexed
pruned_of span =
    filter (has_origin tool) span
    ++ (filter (has_origin envelope) span
        ++ (filter (has_origin memory) span ++ filter (has_origin ai_turn) span))

abbrev pub is_kept : Indexed → Bool
is_kept x = not (any (λ o. has_origin o x) (tool ∷ envelope ∷ memory ∷ ai_turn ∷ []))

abbrev pub is_live_result : List String → Message → Bool
is_live_result live m =
    not (
      is_tool m && (not (str_eq (tool_call_id m.kind) "") && not (elem (tool_call_id m.kind) live)))

-- The pruned messages, newest first, of which as many are restored as the output lacks: restored and still pruned.
unfoldable pub restore : ℕ → List String → List Indexed → List Indexed × List Indexed
restore deficit live [] = ([], [])
restore deficit live (x ∷ xs) =
    let taken = restore (deficit - 1) (call_ids (x.1 ∷ []) ++ live) xs in
    let left = restore deficit live xs in
    if ltb 0 deficit && is_live_result live x.1
    then (x ∷ taken.0, taken.1)
    else (left.0, x ∷ left.1)

abbrev pub reverse_onto : List Indexed → List Indexed → List Indexed
reverse_onto [] acc = acc
reverse_onto (x ∷ xs) acc = reverse_onto xs (x ∷ acc)

abbrev pub messages_of : List Indexed → List Message
messages_of xs = map (λ x. x.1) xs

-- The floor of the output: what is kept of the span, and what is pruned.
unfoldable pub keep_floor :
    ℕ → List Message → List Indexed → List Indexed → List Indexed × List Indexed
keep_floor floor recent kept pruned =
    let projected = length kept + length recent + 1 in
    if ltb projected floor && ltb 0 (length pruned)
    then (let parts =
          restore (floor - projected) (call_ids (messages_of kept ++ recent))
            (reverse_onto (sort_by_index pruned) []) in
        (sort_by_index (kept ++ sort_by_index parts.0), sort_by_index parts.1))
    else (kept, pruned)

-- `m is nm`
abbrev pub is_same : Message → Message → Bool
is_same m n = elim m.ident [
  | none ↦ false
  | some i ↦ elim n.ident [ none ↦ false | some j ↦ i == j ]
]

abbrev pub joined : List Indexed → String
joined [] = ""
joined (x ∷ []) = take_text 500 x.1.content
joined (x ∷ y ∷ xs) = str_append (take_text 500 x.1.content) (str_append "\n\n" (joined (y ∷ xs)))

pub record CompactionResult : Type 0 where
  pub pruned_count : ℕ
  pub summarized_count : ℕ
  pub rolled_back : Bool

module _ (policy : CompactionPolicy) (summarizer : Option (String → String))
    (decimal : ℕ → String) where
  unfoldable pub summary : List Indexed → Message
  summary pruned = record {
    ident = none;
    origin = memory;
    name = "";
    content = str_append policy.marker (
        str_append " " (elim summarizer [
          | none ↦ str_append (decimal (length pruned)) " messages pruned (no summarizer)."
          | some condense ↦ condense (joined pruned)
        ]));
    kind = ai [];
  }

  -- What is kept of the span, and what is pruned.
  unfoldable pub prune : List Message → List Message → List Indexed × List Indexed
  prune span recent =
      keep_floor policy.floor_messages recent (sort_by_index (filter is_kept (enumerate 0 span)))
        (pruned_of (enumerate 0 span))

  unfoldable pub splice : List Message → List Message → List Message
  splice span recent =
      repair_tool_pairs
        (messages_of (prune span recent).0 ++ (summary (prune span recent).1 ∷ recent))

  -- The validator's test: no protected message is missing.
  unfoldable pub is_honest : List Message → List Message → Bool
  is_honest before after = all (λ m. any (is_same m) after) (filter is_protected before)

  -- `Compactor.compact`
  unfoldable pub compact : List Message → Bool → List Message × CompactionResult
  compact ms force =
      let idle : CompactionResult = record {
        pruned_count = 0;
        summarized_count = 0;
        rolled_back = false;
      } in
      let start = window_start (length ms - policy.recent_window) ms in
      let span = take start ms in
      let recent = drop start ms in
      let new_messages = splice span recent in
      if not force && not (should_compact policy (length ms) (estimate_tokens ms))
      then (ms, idle)
      else if force && leb (length ms) policy.recent_window
      then (ms, idle)
      else if is_honest ms new_messages
      then (
        new_messages,
        record {
          pruned_count = length (prune span recent).1;
          summarized_count = 1;
          rolled_back = false;
        },
      )
      else (
        ms,
        record {
          pruned_count = length (prune span recent).1;
          summarized_count = 1;
          rolled_back = true;
        },
      )

-- `SelfTuningLimit`
pub record SelfTuningLimit : Type 0 where
  pub floor : ℕ
  pub ceiling : ℕ
  pub step_down : ℕ
  pub step_up : ℕ
  pub healthy_turns_threshold : ℕ
  pub current : ℕ
  pub healthy_turns : ℕ

-- `observe_error`, on the error's lower-cased text
unfoldable pub observe_error : String → SelfTuningLimit → SelfTuningLimit
observe_error low t =
    if (contains "context" low && contains "length" low)
      || (contains "maximum context" low || contains "too many tokens" low)
    then record t {
      current = if leb t.floor (t.current - t.step_down) then t.current - t.step_down else t.floor;
      healthy_turns = 0;
    }
    else t

unfoldable pub observe_healthy_turn : SelfTuningLimit → SelfTuningLimit
observe_healthy_turn t =
    if leb t.healthy_turns_threshold (suc t.healthy_turns)
    then record t {
      current = if leb (t.current + t.step_up) t.ceiling then t.current + t.step_up else t.ceiling;
      healthy_turns = 0;
    }
    else record t { healthy_turns = suc t.healthy_turns }
