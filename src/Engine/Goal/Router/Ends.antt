-- ===== src/Engine/Goal/Router/Ends.antt =====
-- The goal pipeline ends.
use z_agent.Base.{
  ℕ, ◌+◌, ◌-◌, ◌*◌, ◌≤◌, ◌<◌, String, ◌≡◌, refl, ap, ◌∙◌, ◌≢◌, ◌⊎◌, inl, inr, Bool, true, false,
  Option, none, some, List, [], ◌∷◌, arith, if◌then◌else◌, Bool-cases, length,
}
use z_agent.Engine.Goal.{
  GoalStage, intake, clarify, explore, plan, implement, verify, rebase_gate, pr, done, blocked,
}
use z_agent.Engine.Goal.Router.{GoalState, goal_router_node}
use z_agent.Engine.Goal.Router.Moves.{
  Turn, after_turn, stage_now, goal_router-Move, Move, unclear, clear, answered, explored, planned,
  replanned, implemented, verified, sent_back, rebased, opened, gave_up, over,
}

-- How many more passes there can be.
unfoldable pub rank_of : Option GoalStage → ℕ → ℕ
rank_of none i = 14
rank_of (some intake) i = 0
rank_of (some clarify) i = 13
rank_of (some explore) i = 12
rank_of (some plan) i = 9 + (2 - i)
rank_of (some implement) i = 4 + 2 * (2 - i)
rank_of (some verify) i = 3 + 2 * (2 - i)
rank_of (some rebase_gate) i = 2
rank_of (some pr) i = 1
rank_of (some done) i = 1
rank_of (some blocked) i = 1

abbrev pub rank : GoalState → ℕ
rank s = rank_of (stage_now s) s.critic_iterations

abbrev pub is_intake : Option GoalStage → Bool
is_intake (some intake) = true
is_intake _ = false

pub not_intake : (o : Option GoalStage) → is_intake o ≡ false → o ≢ some intake
not_intake o h e = absurd (ground (arith, ap is_intake e))

rank-bounds :
    (o : Option GoalStage) (i : ℕ) → is_intake o ≡ false → (0 < rank_of o i) × (rank_of o i ≤ 14)
unfolding rank_of
rank-bounds none i h = ground arith
rank-bounds (some intake) i h = absurd (ground arith)
rank-bounds (some clarify) i h = ground arith
rank-bounds (some explore) i h = ground arith
rank-bounds (some plan) i h = (omega arith, omega arith)
rank-bounds (some implement) i h = (omega arith, omega arith)
rank-bounds (some verify) i h = (omega arith, omega arith)
rank-bounds (some rebase_gate) i h = ground arith
rank-bounds (some pr) i h = ground arith
rank-bounds (some done) i h = ground arith
rank-bounds (some blocked) i h = ground arith

-- A move ends the turn, or leaves fewer moves.
rank-Move :
    (s n : GoalState) (a b : Option GoalStage)
    → Move s n a b
    → (n.is_done ≡ true)
      ⊎ ((is_intake b ≡ false) × (rank_of b n.critic_iterations < rank_of a s.critic_iterations))
unfolding rank_of
rank-Move s n a b unclear = ground arith
rank-Move s n a b clear = ground arith
rank-Move s n a b (answered h) = ground arith
rank-Move s n a b (explored h) = inr (refl, omega arith)
rank-Move s n a b (planned h k) = inr (refl, omega (arith, h))
rank-Move s n a b (replanned h k) = inr (refl, omega (arith, h, k))
rank-Move s n a b (implemented h) = inr (refl, omega (arith, h))
rank-Move s n a b (verified h k) = inr (refl, omega arith)
rank-Move s n a b (sent_back h k) = inr (refl, omega (arith, h, k))
rank-Move s n a b rebased = ground arith
rank-Move s n a b (opened h) = inl h
rank-Move s n a b (gave_up h) = inl h
rank-Move s n a b (over h) = inl h

-- A pass that is made leaves the intake stage behind.
pub left-Move :
    (s n : GoalState) (a b : Option GoalStage)
    → Move s n a b
    → is_intake a ≡ false
    → is_intake b ≡ false
left-Move s n a b unclear h = refl
left-Move s n a b clear h = refl
left-Move s n a b (answered _) h = refl
left-Move s n a b (explored _) h = refl
left-Move s n a b (planned _ _) h = refl
left-Move s n a b (replanned _ _) h = refl
left-Move s n a b (implemented _) h = refl
left-Move s n a b (verified _ _) h = refl
left-Move s n a b (sent_back _ _) h = refl
left-Move s n a b rebased h = refl
left-Move s n a b (opened _) h = refl
left-Move s n a b (gave_up _) h = refl
left-Move s n a b (over _) h = h

pub turn-stage : (t : Turn) (s : GoalState) → stage_now (after_turn t s) ≡ stage_now s
unfolding after_turn stage_now
turn-stage t s = refl

module _ (lower strip : String → String) (goal_id : String) where
  -- The passes of the router, each after a turn of the agent, until one ends the run.
  unfoldable pub passes : List Turn → GoalState → GoalState
  passes [] s = s
  passes (t ∷ ts) s =
      let rest = passes ts (goal_router_node lower strip goal_id (after_turn t s)) in
      if s.is_done then s else rest

  after-rank :
      (t : Turn) (s : GoalState)
      → (stage_now (after_turn t s) ≡ stage_now s)
        × ((after_turn t s).critic_iterations ≡ s.critic_iterations)
  unfolding after_turn stage_now
  after-rank t s = (refl, refl)

  pub passes_over : (ts : List Turn) (s : GoalState) → s.is_done ≡ true → passes ts s ≡ s
  unfolding passes
  passes_over [] s h = refl
  passes_over (t ∷ ts) s h =
      ap (λ b. if b then s else passes ts (goal_router_node lower strip goal_id (after_turn t s))) h

  pub passes_on :
      (t : Turn) (ts : List Turn) (s : GoalState)
      → s.is_done ≡ false
      → passes (t ∷ ts) s ≡ passes ts (goal_router_node lower strip goal_id (after_turn t s))
  unfolding passes
  passes_on t ts s h =
      ap (λ b. if b then s else passes ts (goal_router_node lower strip goal_id (after_turn t s))) h

  passes-rank :
      (ts : List Turn) (s : GoalState)
      → is_intake (stage_now s) ≡ false
      → rank_of (stage_now s) s.critic_iterations ≤ length ts
      → (passes ts s).is_done ≡ true
  passes-rank [] s q h = absurd (omega (arith, (rank-bounds (stage_now s) s.critic_iterations q).0))
  passes-rank (t ∷ ts) s q h =
      let u = after_turn t s in
      let n = goal_router_node lower strip goal_id u in
      let (same, rounds) = after-rank t s in
      let before : is_intake (stage_now u) ≡ false = ap is_intake same ∙ q in
      elim (Bool-cases s.is_done) [
        | inl ended ↦ ap (λ x. x.is_done) (passes_over (t ∷ ts) s ended) ∙ ended
        | inr going ↦
            ap (λ x. x.is_done) (passes_on t ts s going)
            ∙ elim (rank-Move u n (stage_now u) (stage_now n)
                (goal_router-Move lower strip goal_id u (not_intake (stage_now u) before))) [
                  | inl ended ↦ ap (λ x. x.is_done) (passes_over ts n ended) ∙ ended
                  | inr (later, fewer) ↦
                      let size : rank_of (stage_now u) u.critic_iterations
                          ≡ rank_of (stage_now s) s.critic_iterations =
                        rw (same, rounds) refl in
                      passes-rank ts n later (omega (arith, fewer, h, size))
                ]
      ]

  -- The goal pipeline ends: unless the goal is at the intake stage, which the router never leaves it in, fourteen
  -- passes of the router leave the goal's done flag set, whatever the agent's turns between them leave in the
  -- messages, the tracker and the questions.
  pub passes_end :
      (ts : List Turn) (s : GoalState)
      → is_intake (stage_now s) ≡ false
      → 14 ≤ length ts
      → (passes ts s).is_done ≡ true
  passes_end ts s q h =
      passes-rank ts s q (omega (arith, h, (rank-bounds (stage_now s) s.critic_iterations q).1))
