-- ===== src/Engine/Tasks/Plan.antt =====
-- The plan and its tracker agree.
use mathlib.Core.Path.{subst}
use z_agent.Base.{
  ◌≤◌, String, ◌≡◌, refl, sym, ap, ◌∙◌, ◌⊎◌, inl, inr, true, not, ◌&&◌, ◌||◌, none, some, List, [],
  ◌∷◌, arith, str_eq, eq_iff, ltb, if◌then◌else◌, Bool-cases, Option-cases, is_some, any-append,
  elem, Result, ok, raise,
}
use z_agent.Base.Dict
use z_agent.Base.Dict.{Dict, get-put, get-remove}
use z_agent.Engine.Tasks.{
  Task, Tasks, Update, UpdateError, task_statuses, is_planned, without, add, apply_one, apply_all,
  in_progress, apply_task_updates,
}

-- A task is tracked exactly when it is planned, and a tracked status is one of the four.
abbrev pub Agrees : String → Tasks → Type 0
Agrees k t =
    (is_some (Dict.get k t.tracker) ≡ is_planned k t.artifact)
    × ((s : String) → Dict.get k t.tracker ≡ some s → elem s task_statuses ≡ true)

is_planned-without :
    (tid k : String) (ts : List Task)
    → is_planned k (without tid ts) ≡ (not (str_eq tid k) && is_planned k ts)
is_planned-without tid k [] = ground arith
is_planned-without tid k (a ∷ ts) =
    ground (arith, is_planned-without tid k ts, eq_iff a.id tid, eq_iff a.id k, eq_iff tid k)

is_planned-add :
    (k : String) (u : Update) (t : Tasks)
    → is_planned k (add u t).artifact ≡ (str_eq u.id k || is_planned k t.artifact)
unfolding add
is_planned-add k u t = ground (
  arith,
  any-append (λ a. str_eq a.id k) (without u.id t.artifact)
      (record { id = u.id; content = u.content; scope = u.scope; acceptance = u.acceptance } ∷ []),
  is_planned-without u.id k t.artifact,
)

-- A change that puts a status for one task, planned by then.
put-Agrees :
    (k tid s : String) (t t' : Tasks)
    → Agrees k t
    → elem s task_statuses ≡ true
    → Dict.get k t'.tracker ≡ (if str_eq tid k then some s else Dict.get k t.tracker)
    → is_planned k t'.artifact ≡ (str_eq tid k || is_planned k t.artifact)
    → Agrees k t'
put-Agrees k tid s t t' (same, valid) known row planned = elim (Bool-cases (str_eq tid k)) [
  | inl mine ↦
      let here : Dict.get k t'.tracker ≡ some s =
        row ∙ ap (λ b. if b then some s else Dict.get k t.tracker) mine in
      let there : is_planned k t'.artifact ≡ true =
        planned ∙ ap (λ b. b || is_planned k t.artifact) mine in
      (
        ap is_some here ∙ sym there,
        λ s' h.
            ap (λ o. elim o [ none ↦ true | some x ↦ elem x task_statuses ]) (sym h ∙ here) ∙ known,
      )
  | inr other ↦
      let here : Dict.get k t'.tracker ≡ Dict.get k t.tracker =
        row ∙ ap (λ b. if b then some s else Dict.get k t.tracker) other in
      let there : is_planned k t'.artifact ≡ is_planned k t.artifact =
        planned ∙ ap (λ b. b || is_planned k t.artifact) other in
      (ap is_some here ∙ (same ∙ sym there), λ s' h. valid s' (sym here ∙ h))
]

add-tracked :
    (u : Update) (t : Tasks) (s : String)
    → Dict.get u.id t.tracker ≡ some s
    → (add u t).tracker ≡ t.tracker
unfolding add
add-tracked u t s h = ap (λ o. if is_some o then t.tracker else Dict.put u.id "pending" t.tracker) h

add-untracked :
    (u : Update) (t : Tasks)
    → Dict.get u.id t.tracker ≡ none
    → (add u t).tracker ≡ Dict.put u.id "pending" t.tracker
unfolding add
add-untracked u t h = ap (λ o. if is_some o then t.tracker else Dict.put u.id "pending" t.tracker) h

add-Agrees : (k : String) (u : Update) (t : Tasks) → Agrees k t → Agrees k (add u t)
add-Agrees k u t (same, valid) = elim (Option-cases (Dict.get u.id t.tracker)) [
  | inr untracked ↦
      put-Agrees k u.id "pending" t (add u t) (same, valid) refl
        (ap (Dict.get k) (add-untracked u t untracked) ∙ get-put u.id k "pending" t.tracker)
        (is_planned-add k u t)
  | inl (s, tracked) ↦
      let here : Dict.get k (add u t).tracker ≡ Dict.get k t.tracker =
        ap (Dict.get k) (add-tracked u t s tracked) in
      let there : is_planned k (add u t).artifact ≡ is_planned k t.artifact =
        is_planned-add k u t ∙ elim (Bool-cases (str_eq u.id k)) [
          | inl mine ↦
              let row : Dict.get k t.tracker ≡ some s = rw (← (eq_iff u.id k).0 mine) tracked in
              ap (λ b. b || is_planned k t.artifact) mine ∙ (sym (ap is_some row) ∙ same)
          | inr other ↦ ap (λ b. b || is_planned k t.artifact) other
        ] in
      (ap is_some here ∙ (same ∙ sym there), λ s' h. valid s' (sym here ∙ h))
]

remove-Agrees :
    (k tid : String) (t : Tasks)
    → Agrees k t
    → Agrees k (record { artifact = without tid t.artifact; tracker = Dict.remove tid t.tracker })
remove-Agrees k tid t (same, valid) =
    let row = get-remove tid k t.tracker in
    let planned = is_planned-without tid k t.artifact in
    elim (Bool-cases (str_eq tid k)) [
      | inl mine ↦
          let here : Dict.get k (Dict.remove tid t.tracker) ≡ none =
            row ∙ ap (λ b. if b then none else Dict.get k t.tracker) mine in
          (
            ap is_some here ∙ sym (planned ∙ ap (λ b. not b && is_planned k t.artifact) mine),
            λ s' h. absurd (ground (arith, sym here ∙ h)),
          )
      | inr other ↦
          let here : Dict.get k (Dict.remove tid t.tracker) ≡ Dict.get k t.tracker =
            row ∙ ap (λ b. if b then none else Dict.get k t.tracker) other in
          (
            ap is_some here
                ∙ (same ∙ sym (planned ∙ ap (λ b. not b && is_planned k t.artifact) other)),
            λ s' h. valid s' (sym here ∙ h),
          )
    ]

-- The four ways an update ends.
apply_one-cases :
    (u : Update) (t t' : Tasks)
    → apply_one u t ≡ ok t'
    → (add u t ≡ t')
      ⊎ ((record { artifact = without u.id t.artifact; tracker = Dict.remove u.id t.tracker } ≡ t'))
      ⊎ ((elem u.status task_statuses ≡ true)
          × ((is_some (Dict.get u.id t.tracker) || is_planned u.id t.artifact) ≡ true)
          × (record t { tracker = Dict.put u.id u.status t.tracker } ≡ t'))
unfolding apply_one
apply_one-cases u t t' h = ground arith

abbrev pub AgreesAll : Tasks → Type 0
AgreesAll t = (k : String) → Agrees k t

status-planned :
    (k : String) (u : Update) (t : Tasks)
    → AgreesAll t
    → (is_some (Dict.get u.id t.tracker) || is_planned u.id t.artifact) ≡ true
    → is_planned k t.artifact ≡ (str_eq u.id k || is_planned k t.artifact)
status-planned k u t all_agree known = elim (Bool-cases (str_eq u.id k)) [
  | inr other ↦ sym (ap (λ b. b || is_planned k t.artifact) other)
  | inl mine ↦
      let own : is_planned u.id t.artifact ≡ true = ground (arith, (all_agree u.id).0) in
      let here : is_planned k t.artifact ≡ true = rw (← (eq_iff u.id k).0 mine) own in
      here ∙ sym (ap (λ b. b || is_planned k t.artifact) mine)
]

apply_one-AgreesAll :
    (u : Update) (t t' : Tasks) → AgreesAll t → apply_one u t ≡ ok t' → AgreesAll t'
apply_one-AgreesAll u t t' all_agree h k = elim (apply_one-cases u t t' h) [
  | inl added ↦ subst (Agrees k) added (add-Agrees k u t (all_agree k))
  | inr (inl removed) ↦ subst (Agrees k) removed (remove-Agrees k u.id t (all_agree k))
  | inr (inr (valid, known, set)) ↦ subst (Agrees k) set (
      put-Agrees k u.id u.status t (record t { tracker = Dict.put u.id u.status t.tracker })
        (all_agree k) valid (get-put u.id k u.status t.tracker)
        (status-planned k u t all_agree known))
]

Result-cases :
    (r : Result UpdateError Tasks)
    → ((t : Tasks) × (r ≡ ok t)) ⊎ ((e : UpdateError) × (r ≡ raise e))
Result-cases (ok t) = inl (t, refl)
Result-cases (raise e) = inr (e, refl)

apply_all-AgreesAll :
    (us : List Update) (t t' : Tasks) → AgreesAll t → apply_all us t ≡ ok t' → AgreesAll t'
unfolding apply_all
apply_all-AgreesAll [] t t' all_agree h =
    let same : t ≡ t' = ground arith in subst AgreesAll same all_agree
apply_all-AgreesAll (u ∷ us) t t' all_agree h = elim (Result-cases (apply_one u t)) [
  | inr (e, refused) ↦ absurd (ground arith)
  | inl (next, one) ↦
      let rest : apply_all us next ≡ ok t' =
        sym (ap (λ r. elim r [ raise e ↦ raise e | ok x ↦ apply_all us x ]) one) ∙ h in
      apply_all-AgreesAll us next t' (apply_one-AgreesAll u t next all_agree one) rest
]

-- A refused batch changes nothing; another leaves one task in progress at most.
apply_task_updates-cases :
    (t : Tasks) (us : List Update)
    → ((apply_task_updates t us).0 ≡ t)
      ⊎ ((t' : Tasks) × (apply_all us t ≡ ok t')
          × (in_progress t' ≤ 1)
          × ((apply_task_updates t us).0 ≡ t'))
unfolding apply_task_updates
apply_task_updates-cases t us = elim (Result-cases (apply_all us t)) [
  | inr (e, refused) ↦ inl (rw (refused, apply_task_updates) refl)
  | inl (t', applied) ↦ elim (Bool-cases (ltb 1 (in_progress t'))) [
    | inl many ↦ inl (rw (applied, apply_task_updates) (rw (many, apply_task_updates) refl))
    | inr few ↦ inr (
      t',
      applied,
      ground arith,
      rw (applied, apply_task_updates) (rw (few, apply_task_updates) refl),
    )
  ]
]

abbrev pub IsPlan : Tasks → Type 0
IsPlan t = AgreesAll t × (in_progress t ≤ 1)

-- The state after a sequence of batches.
unfoldable pub batches : List (List Update) → Tasks → Tasks
batches [] t = t
batches (us ∷ uss) t = batches uss (apply_task_updates t us).0

-- Over any batches of updates, refused ones included, the plan and its tracker stay in agreement: a task is tracked
-- exactly when it is planned, with one of the four statuses, and one task at most is in progress; if that was so
-- at the start.
pub batches-IsPlan : (uss : List (List Update)) (t : Tasks) → IsPlan t → IsPlan (batches uss t)
unfolding batches
batches-IsPlan [] t plan = plan
batches-IsPlan (us ∷ uss) t (all_agree, few) = elim (apply_task_updates-cases t us) [
  | inl same ↦
      batches-IsPlan uss (apply_task_updates t us).0 (subst IsPlan (sym same) (all_agree, few))
  | inr (t', applied, one, out) ↦
      batches-IsPlan uss (apply_task_updates t us).0
        (subst IsPlan (sym out) (apply_all-AgreesAll us t t' all_agree applied, one))
]
