-- ===== src/Engine/Watchdogs/Reminders.antt =====
-- A thread is reminded of its budget once a level.
use z_agent.Base.{
  String, ◌≡◌, refl, ap, ◌∙◌, ◌⊎◌, inl, inr, true, false, none, some, List, [], ◌∷◌, arith, str_eq,
  eq_iff, if◌then◌else◌, Bool-cases, elem, eq_self,
}
use z_agent.Engine.Watchdogs.{BudgetWatchdog, BudgetReminder, Usage, check}

unfoldable pub checks : List Usage → BudgetWatchdog → List BudgetReminder
checks [] w = []
checks (u ∷ us) w =
    let rest = checks us (check u w).0 in elim (check u w).1 [ none ↦ rest | some r ↦ r ∷ rest ]

-- The levels of the reminders of a thread, in order.
unfoldable pub levels : String → List BudgetReminder → List String
levels t [] = []
levels t (r ∷ rs) = if str_eq r.thread_id t then r.level ∷ levels t rs else levels t rs

-- What a check does, by the thread's place in the two sets.
check-other :
    (t : String) (u : Usage) (us : List Usage) (w : BudgetWatchdog)
    → str_eq u.thread_id t ≡ false
    → (elem t (check u w).0.fired_50 ≡ elem t w.fired_50)
      × (elem t (check u w).0.fired_80 ≡ elem t w.fired_80)
      × (levels t (checks (u ∷ us) w) ≡ levels t (checks us (check u w).0))
unfolding check checks levels
check-other t u us w h = ground arith

-- A check of the thread itself: silent, or the reminder of a level that has not fired.
check-own :
    (t : String) (u : Usage) (us : List Usage) (w : BudgetWatchdog)
    → u.thread_id ≡ t
    → (((check u w).0 ≡ w) × (levels t (checks (u ∷ us) w) ≡ levels t (checks us w)))
      ⊎ ((elem t w.fired_80 ≡ false)
          × (elem t (check u w).0.fired_50 ≡ true)
          × (elem t (check u w).0.fired_80 ≡ true)
          × (levels t (checks (u ∷ us) w) ≡ "80" ∷ levels t (checks us (check u w).0)))
      ⊎ ((elem t w.fired_50 ≡ false)
          × (elem t (check u w).0.fired_50 ≡ true)
          × (elem t (check u w).0.fired_80 ≡ elem t w.fired_80)
          × (levels t (checks (u ∷ us) w) ≡ "50" ∷ levels t (checks us (check u w).0)))
unfolding check checks levels
check-own t u us w h = ground (arith, eq_self t, (eq_iff u.thread_id t).1 h)

both_fired :
    (t : String) (us : List Usage) (w : BudgetWatchdog)
    → elem t w.fired_50 ≡ true
    → elem t w.fired_80 ≡ true
    → levels t (checks us w) ≡ []
unfolding checks levels
both_fired t [] w p q = refl
both_fired t (u ∷ us) w p q = elim (Bool-cases (str_eq u.thread_id t)) [
  | inr other ↦
      let (same_50, same_80, out) = check-other t u us w other in
      out ∙ both_fired t us (check u w).0 (same_50 ∙ p) (same_80 ∙ q)
  | inl mine ↦ elim (check-own t u us w ((eq_iff u.thread_id t).0 mine)) [
    | inl (same, out) ↦ out ∙ both_fired t us w p q
    | inr (inl (fresh, _, _, _)) ↦ absurd (ground arith)
    | inr (inr (fresh, _, _, _)) ↦ absurd (ground arith)
  ]
]

half_fired :
    (t : String) (us : List Usage) (w : BudgetWatchdog)
    → elem t w.fired_50 ≡ true
    → (levels t (checks us w) ≡ []) ⊎ (levels t (checks us w) ≡ "80" ∷ [])
unfolding checks levels
half_fired t [] w p = inl refl
half_fired t (u ∷ us) w p = elim (Bool-cases (str_eq u.thread_id t)) [
  | inr other ↦
      let (same_50, same_80, out) = check-other t u us w other in
      elim (half_fired t us (check u w).0 (same_50 ∙ p)) [
        | inl none_left ↦ inl (out ∙ none_left)
        | inr one_left ↦ inr (out ∙ one_left)
      ]
  | inl mine ↦ elim (check-own t u us w ((eq_iff u.thread_id t).0 mine)) [
    | inl (same, out) ↦ elim (half_fired t us w p) [
      | inl none_left ↦ inl (out ∙ none_left)
      | inr one_left ↦ inr (out ∙ one_left)
    ]
    | inr (inl (fresh, after_50, after_80, out)) ↦
        inr (out ∙ ap (λ ls. "80" ∷ ls) (both_fired t us (check u w).0 after_50 after_80))
    | inr (inr (fresh, _, _, _)) ↦ absurd (ground arith)
  ]
]

-- However the checks of the threads come, a thread that no reminder has fired for is reminded at most of 50% and
-- then of 80%: each level at most once, and of 50% never after 80%.
pub checks-levels :
    (t : String) (us : List Usage) (w : BudgetWatchdog)
    → elem t w.fired_50 ≡ false
    → elem t w.fired_80 ≡ false
    → (levels t (checks us w) ≡ [])
      ⊎ (levels t (checks us w) ≡ "50" ∷ [])
      ⊎ (levels t (checks us w) ≡ "80" ∷ [])
      ⊎ (levels t (checks us w) ≡ "50" ∷ "80" ∷ [])
unfolding checks levels
checks-levels t [] w p q = inl refl
checks-levels t (u ∷ us) w p q = elim (Bool-cases (str_eq u.thread_id t)) [
  | inr other ↦
      let (same_50, same_80, out) = check-other t u us w other in
      ground (arith, checks-levels t us (check u w).0 (same_50 ∙ p) (same_80 ∙ q))
  | inl mine ↦ elim (check-own t u us w ((eq_iff u.thread_id t).0 mine)) [
    | inl (same, out) ↦ ground (arith, checks-levels t us w p q)
    | inr (inl (fresh, after_50, after_80, out)) ↦
        inr
          (inr (inl (out ∙ ap (λ ls. "80" ∷ ls) (both_fired t us (check u w).0 after_50 after_80))))
    | inr (inr (fresh, after_50, _, out)) ↦ elim (half_fired t us (check u w).0 after_50) [
      | inl none_left ↦ inr (inl (out ∙ ap (λ ls. "50" ∷ ls) none_left))
      | inr one_left ↦ inr (inr (inr (out ∙ ap (λ ls. "50" ∷ ls) one_left)))
    ]
  ]
]
