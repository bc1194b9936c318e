-- ===== src/Engine/Approvals.antt =====
-- worker/worker/engine/approvals.py: the in-process `ApprovalGate`, which asks before a mutating tool runs.
-- The proofs are in the child.
--
-- The class's always-allow set is loaded from Redis at every request, so the set in Redis is the state; what
-- the blocking pop returns is an argument. A payload that is no JSON and one that is no dict are denied
-- alike, and are `none`.
pub mod Request
use z_agent.Base.{str_append}
use z_agent.Base.{
  ℕ, zero, suc, ◌+◌, ◌-◌, ◌*◌, ◌/◌, ◌%◌, ◌≤◌, ◌<◌, String, ◌≡◌, refl, sym, ap, ◌∙◌, ◌≢◌, ◌↔◌, ◌⊎◌,
  inl, inr, Bool, true, false, not, ◌&&◌, ◌||◌, Option, none, some, List, [], ◌∷◌, ◌++◌, map, arith,
  str_eq, eq_iff, ltb, leb, ◌==◌, if◌then◌else◌, Bool-cases, Option-cases, ltb→lt, leb→le, is_some,
  length, any, all, filter, count, take, drop, head?, All, length-append, count-append, count-le,
  length-drop, length-take, All-append, any-append, codes, elem, eq_self, elem-append, take_text,
  Result, ok, raise, or_else,
}
use z_agent.Engine.Permissions.{Args}
use z_agent.Engine.Gate.{Decision, is_destructive, reason_of}

pub data Popped : Type 0 where
  channel_error : String → Popped
  timed_out : Popped
  popped : Option Decision → Popped

-- The dict that `request` returns: how it is approved, or why it is denied; and the args.
pub data Answer : Type 0 where
  approved : String → Args → Answer
  denied : String → Args → Answer

-- `_ALWAYS_ALLOWABLE_CLASSES`
unfoldable pub always_allowable_classes : List String
always_allowable_classes = "file_edit" ∷ "file_write" ∷ "terminal_exec" ∷ []

module _ (destructive_search : String → Bool) where
  unfoldable pub may_persist : String → Args → Bool
  unfolding always_allowable_classes
  may_persist name args =
      elem name always_allowable_classes && not (is_destructive destructive_search name args)

  unfoldable pub answer_to :
      Option String → String → List String → String → Args → Answer × List String
  answer_to none reason members name args = (denied reason args, members)
  answer_to (some dec) reason members name args =
      if str_eq dec "always_allow"
      then if may_persist name args
        then (approved "always_allow" args, name ∷ members)
        else (approved "always_allow_unpersisted" args, members)
      else if str_eq dec "allow" || str_eq dec "allow_once"
      then (approved dec args, members)
      else (denied reason args, members)

  unfoldable pub request : Popped → List String → String → Args → Answer × List String
  unfolding answer_to
  request answer members name args =
      if elem name members && not (is_destructive destructive_search name args)
      then (approved "always_allow" args, members)
      else elim answer [
        | channel_error e ↦ (
          denied (str_append "approval channel error — denied (" (str_append e ")")) args,
          members,
        )
        | timed_out ↦ (denied "approval timed out — denied" args, members)
        | popped p ↦ elim p [
          | none ↦ (denied "malformed decision payload — denied" args, members)
          | some d ↦ answer_to d.decision (reason_of d) members name args
        ]
      ]
