-- ===== src/Engine/Tools/Surface.antt =====
-- What a mode's tool surface can hold, and which calls need a card.
use z_agent.Base.{
  String, ◌≡◌, refl, sym, ◌∙◌, ◌↔◌, ◌⊎◌, inl, inr, Bool, true, false, not, ◌&&◌, Option, some, List,
  [], ◌∷◌, arith, str_eq, eq_iff, if◌then◌else◌, Bool-cases, filter, All, All-append, elem,
}
use z_agent.Engine.Permissions.{Effect, allow, deny, Rule, Args, evaluate, decision_for_call}
use z_agent.Engine.Permissions.FindLast.{IsLast, evaluate_iff}
use z_agent.Engine.Tools.{
  Capability, readonly, capability_table, capability_of, is_mutating_class, needs_approval,
  read_set, mode_set, mode_allowed, default_tools, mode_default_additions, default_tool_names,
  table_get,
}

All-filter {ℓ} : {A : Type ℓ} (p : A → Bool) (xs : List A) → All (λ x. p x ≡ true) (filter p xs)
All-filter p [] = tt
All-filter p (x ∷ xs) = elim (Bool-cases (p x)) [
  | inl e ↦ rw (e, if◌then◌else◌) (e, All-filter p xs)
  | inr e ↦ rw (e, if◌then◌else◌) (All-filter p xs)
]

additions_allowed :
    (mode : String) → All (λ n. mode_allowed n mode ≡ true) (mode_default_additions mode)
unfolding mode_default_additions mode_allowed
additions_allowed mode = elim (Bool-cases (str_eq "development" mode)) [
  | inl e ↦ rw (← (eq_iff "development" mode).0 e) (refl, (refl, tt))
  | inr e ↦ elim (Bool-cases (str_eq "goal" mode)) [
    | inl g ↦ rw (← (eq_iff "goal" mode).0 g) (refl, (refl, tt))
    | inr g ↦ rw (e, g) tt
  ]
]

-- Every tool that a mode binds from the start is one that the mode allows, whatever the mode's text.
default_tools_allowed :
    (mode : String) → All (λ n. mode_allowed n mode ≡ true) (default_tool_names mode)
unfolding default_tool_names
default_tools_allowed mode =
    All-append (λ n. mode_allowed n mode ≡ true) (filter (λ n. mode_allowed n mode) default_tools)
      (mode_default_additions mode) (All-filter (λ n. mode_allowed n mode) default_tools)
      (additions_allowed mode)

-- The names of the table's entries in a class that needs approval.
gated_names : List (String × Capability) → List String
gated_names [] = []
gated_names ((k, c) ∷ t) =
    let rest = gated_names t in if is_mutating_class c then k ∷ rest else rest

elem-gated_names :
    (k : String) (t : List (String × Capability))
    → is_mutating_class (table_get k readonly t) ≡ true
    → elem k (gated_names t) ≡ true
unfolding gated_names
elem-gated_names k [] h = absurd (cc)
elem-gated_names k ((j, c) ∷ t) h = ground (arith, elem-gated_names k t)

All_of_elem {κ} :
    (P : String → Type κ) (k : String) (ks : List String) → All P ks → elem k ks ≡ true → P k
All_of_elem P k [] a h = absurd (cc)
All_of_elem P k (j ∷ ks) a h = elim (Bool-cases (str_eq j k)) [
  | inl e ↦ rw (← (eq_iff j k).0 e) a.0
  | inr e ↦ All_of_elem P k ks a.1 (ground arith)
]

-- Neither a development, a debug nor a goal mode.
abbrev pub is_read_mode : String → Bool
is_read_mode mode =
    not (str_eq "development" mode) && (not (str_eq "debug" mode) && not (str_eq "goal" mode))

mode_set-read_mode : (mode : String) → is_read_mode mode ≡ true → mode_set mode ≡ read_set
unfolding mode_set
mode_set-read_mode mode h = ground arith

abbrev Gated : String → String → Type 0
Gated mode name = mode_allowed name mode ≡ true → (name ≡ "terminal_exec") ⊎ (name ≡ "mode_request")

Gated-allowed :
    (mode : String) → is_read_mode mode ≡ true → All (Gated mode) (gated_names capability_table)
unfolding gated_names capability_table mode_allowed
Gated-allowed mode r =
    let e = mode_set-read_mode mode r in
    rw e (
      λ h. cc,
      (λ h. cc, (λ h. inl refl, (λ h. cc, (λ h. cc, (λ h. cc, (λ h. cc, (λ h. inr refl, tt))))))),
    )

-- In a mode other than development, debug and goal, the only tools of a mutating or destructive class
-- that the mode allows are terminal_exec and mode_request.
read_modes_surface :
    (mode name : String)
    → is_read_mode mode ≡ true
    → is_mutating_class (capability_of name) ≡ true
    → mode_allowed name mode ≡ true
    → (name ≡ "terminal_exec") ⊎ (name ≡ "mode_request")
unfolding capability_of
read_modes_surface mode name r m =
    All_of_elem (Gated mode) name (gated_names capability_table) (Gated-allowed mode r)
      (elem-gated_names name capability_table m)

module _ (fnmatch : String → String → Bool) (name autonomy : String) (args : Args) where
  needs_of : Option Effect → Bool
  needs_of (some allow) = false
  needs_of (some deny) = false
  needs_of _ = true

  needs_approval_lem :
      (rules : List Rule)
      → str_eq autonomy "autonomous" ≡ false
      → is_mutating_class (capability_of name) ≡ true
      → needs_approval fnmatch name autonomy args rules
        ≡ needs_of (evaluate fnmatch name args rules)
  unfolding needs_approval decision_for_call needs_of
  needs_approval_lem [] a m = rw (a, m) (unfold evaluate in refl)
  needs_approval_lem (r ∷ rules) a m = ground arith

  needs_of_iff : (o : Option Effect) → (needs_of o ≡ false) ↔ ((o ≡ some allow) ⊎ (o ≡ some deny))
  unfolding needs_of
  needs_of_iff o = (λ h. ground arith, λ h. ground arith)

  -- Outside autonomous runs, a call of a mutating or destructive tool goes without a card exactly
  -- when the last rule that speaks on it says allow or deny.
  needs_approval_iff :
      (rules : List Rule)
      → str_eq autonomy "autonomous" ≡ false
      → is_mutating_class (capability_of name) ≡ true
      → (needs_approval fnmatch name autonomy args rules ≡ false)
        ↔ (IsLast fnmatch name args rules allow ⊎ IsLast fnmatch name args rules deny)
  needs_approval_iff rules a m =
      let o = evaluate fnmatch name args rules in
      let e = needs_approval_lem rules a m in
      let is_allow = evaluate_iff fnmatch name args rules allow in
      let is_deny = evaluate_iff fnmatch name args rules deny in
      (
        λ h. elim ((needs_of_iff o).0 (sym e ∙ h)) [
          | inl p ↦ inl (is_allow.0 p)
          | inr p ↦ inr (is_deny.0 p)
        ],
        λ l. elim l [
          | inl p ↦ e ∙ (needs_of_iff o).1 (inl (is_allow.1 p))
          | inr p ↦ e ∙ (needs_of_iff o).1 (inr (is_deny.1 p))
        ],
      )
