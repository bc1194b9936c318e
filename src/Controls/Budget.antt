-- ===== src/Controls/Budget.antt =====
-- What a thread and its replacements may spend, each within the budget that it was given.
use z_agent.Base.{ℕ, ◌+◌, ◌*◌, ◌≤◌, List, [], ◌∷◌, arith, length}
use z_agent.Threads.{Thread}
use z_agent.Controls.Replace.{least_budget, remaining_budget}

-- The budget of the replacement of a thread with this budget and this settled cost.
abbrev pub carried : Thread → ℕ → ℕ → ℕ
carried t budget cost = remaining_budget (record t { budget_usd = budget; cost_usd = cost })

-- Each cost is within the budget that is carried to its thread.
abbrev pub Within : Thread → ℕ → List ℕ → Type 0
Within t budget [] = Unit
Within t budget (c ∷ cs) = (c ≤ budget) × Within t (carried t budget c) cs

abbrev pub total : List ℕ → ℕ
total [] = 0
total (c ∷ cs) = c + total cs

carried-le :
    (t : Thread) (budget cost : ℕ)
    → cost ≤ budget
    → cost + carried t budget cost ≤ budget + least_budget
unfolding remaining_budget
carried-le t budget cost h = ground arith

-- If a thread and all its replacements stay within the budgets that they are given, together they spend at most the first
-- budget and the floor of 0.25 for each of the threads.
pub carried-total :
    (t : Thread) (budget : ℕ) (costs : List ℕ)
    → Within t budget costs
    → total costs ≤ budget + length costs * least_budget
carried-total t budget [] h = omega arith
carried-total t budget (c ∷ cs) h =
    omega (arith, carried-total t (carried t budget c) cs h.1, carried-le t budget c h.0)
