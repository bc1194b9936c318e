-- ===== src/Engine/Compaction/Honesty.antt =====
-- What a compaction keeps.
use mathlib.Core.Path.{subst}
use z_agent.Base.{
  ℕ, ◌-◌, String, ◌≡◌, refl, sym, ap, ◌∙◌, ◌⊎◌, inl, inr, Bool, true, not, ◌&&◌, Option, List, [],
  ◌∷◌, ◌++◌, leb, Bool-cases, length, any, all, filter, take, drop,
}
use z_agent.Engine.Compaction.{
  Message, CompactionPolicy, is_protected, is_same, is_honest, compact, estimate_tokens,
  should_compact, splice, prune, summary, messages_of, window_start, call_ids, answered_ids,
}
use z_agent.Engine.Compaction.Pairs.{is_paired, repair_tool_pairs-paired}

module _ (policy : CompactionPolicy) (summarizer : Option (String → String))
    (decimal : ℕ → String) where
  -- How a compaction ends: the messages are as they were, or are spliced and the validator finds them honest.
  compact-cases :
      (ms : List Message) (force : Bool)
      → ((compact policy summarizer decimal ms force).0 ≡ ms)
        ⊎ ((is_honest policy summarizer decimal ms (compact policy summarizer decimal ms force).0
              ≡ true)
            × ((start : ℕ) × ((compact policy summarizer decimal ms force).0
                  ≡ splice policy summarizer decimal (take start ms) (drop start ms))))
  unfolding compact
  compact-cases ms force =
      let start = window_start (length ms - policy.recent_window) ms in
      let new_messages = splice policy summarizer decimal (take start ms) (drop start ms) in
      elim (Bool-cases
        (not force && not (should_compact policy (length ms) (estimate_tokens ms)))) [
          | inl small ↦ inl (rw (small, compact) refl)
          | inr large ↦ elim (Bool-cases (force && leb (length ms) policy.recent_window)) [
            | inl short ↦ inl (rw (large, compact) (rw (short, compact) refl))
            | inr long ↦ elim (Bool-cases (is_honest policy summarizer decimal ms new_messages)) [
              | inl honest ↦ inr (
                rw (large, compact) (rw (long, compact) (rw (honest, compact) honest)),
                (start, rw (large, compact) (rw (long, compact) (rw (honest, compact) refl))),
              )
              | inr lying ↦
                  inl (rw (large, compact) (rw (long, compact) (rw (lying, compact) refl)))
            ]
          ]
        ]

  -- What is spliced is repaired.
  splice-paired :
      (span recent : List Message)
      → let out = splice policy summarizer decimal span recent in
        (call_ids out ≡ []) ⊎ (all (is_paired (call_ids out) (answered_ids out)) out ≡ true)
  unfolding splice
  splice-paired span recent =
      elim (repair_tool_pairs-paired (
        messages_of (prune policy summarizer decimal span recent).0
        ++ (summary policy summarizer decimal (prune policy summarizer decimal span recent).1
            ∷ recent))) [
              | inl (silent, same) ↦ inl (ap call_ids same ∙ silent)
              | inr paired ↦ inr paired
            ]

  -- A compaction, forced or not and whatever the summarizer writes, leaves the messages as they were, or else keeps
  -- each protected message (of the system, of a user, a nudge) as the same object, and leaves the calls and
  -- the results paired: unless no message makes a call, each tool message answers a call that is there, and each
  -- call is answered.
  pub compact-honest :
      (ms : List Message) (force : Bool)
      → let out = (compact policy summarizer decimal ms force).0 in
        (out ≡ ms)
        ⊎ ((all (λ m. any (is_same m) out) (filter is_protected ms) ≡ true)
            × ((call_ids out ≡ [])
                ⊎ (all (is_paired (call_ids out) (answered_ids out)) out ≡ true)))
  unfolding is_honest
  compact-honest ms force = elim (compact-cases ms force) [
    | inl same ↦ inl same
    | inr (honest, (start, spliced)) ↦ inr (
      honest,
      subst
          (λ out.
            (call_ids out ≡ []) ⊎ (all (is_paired (call_ids out) (answered_ids out)) out ≡ true))
          (sym spliced) (splice-paired (take start ms) (drop start ms)),
    )
  ]
