-- ===== src/Launch/Models.antt =====
-- What `_validate_models` lets through.
use z_agent.Base.{
  ℕ, ◌≤◌, String, ◌≡◌, refl, sym, ◌∙◌, inl, inr, true, false, not, ◌&&◌, none, some, List, [], ◌∷◌,
  arith, str_eq, eq_iff, ltb, if◌then◌else◌, Bool-cases, Option-cases, length, count, elem, eq_self,
  Result, ok, raise,
}
use z_agent.Threads.{Services}
use z_agent.Launch.{
  LaunchError, unknown_model, one_model_only, aliases, dedupe, first_unknown, validate_models,
}

-- How often the alias is in the list.
abbrev pub times : String → List String → ℕ
times m = count (λ j. str_eq j m)

-- The picked aliases are the selected ones, once each and registered; several only for ask. A refused
-- alias was selected and is not registered.
abbrev pub IsChecked : Services → List String → String → Result LaunchError (List String) → Type 0
IsChecked s models mode (ok picked) =
    ((m : String) → elem m picked ≡ elem m models)
    × ((m : String) → times m picked ≤ 1)
    × ((m : String) → elem m picked ≡ true → elem m (aliases s.available_models) ≡ true)
    × (str_eq mode "ask" ≡ false → length picked ≤ 1)
IsChecked s models mode (raise (unknown_model m)) =
    (elem m models ≡ true) × (elem m (aliases s.available_models) ≡ false)
IsChecked s models mode (raise (one_model_only m)) = (m ≡ mode) × (str_eq mode "ask" ≡ false)
IsChecked s models mode (raise e) = ⊥

elem-dedupe :
    (m : String) (seen models : List String)
    → elem m (dedupe seen models) ≡ (elem m models && not (elem m seen))
unfolding dedupe
elem-dedupe m seen [] = refl
elem-dedupe m seen (j ∷ models) = elim (Bool-cases (elem j seen)) [
  | inl old ↦ rw (old, dedupe) (ground (arith, elem-dedupe m seen models, eq_iff j m))
  | inr new ↦ rw (new, dedupe) (ground (arith, elem-dedupe m (j ∷ seen) models, eq_iff j m))
]

times-dedupe :
    (m : String) (seen models : List String)
    → times m (dedupe seen models) ≤ (if elem m seen then 0 else 1)
unfolding dedupe
times-dedupe m seen [] = ground arith
times-dedupe m seen (j ∷ models) = elim (Bool-cases (elem j seen)) [
  | inl old ↦ rw (old, dedupe) (times-dedupe m seen models)
  | inr new ↦ rw (new, dedupe) (ground (arith, times-dedupe m (j ∷ seen) models, eq_iff j m))
]

first_unknown-known :
    (known models : List String) (m : String)
    → first_unknown known models ≡ none
    → elem m models ≡ true
    → elem m known ≡ true
first_unknown-known known [] m h there = absurd (ground arith)
first_unknown-known known (j ∷ models) m h there =
    ground (arith, first_unknown-known known models m, eq_iff j m)

first_unknown_lem :
    (known models : List String) (m : String)
    → first_unknown known models ≡ some m
    → (elem m models ≡ true) × (elem m known ≡ false)
first_unknown_lem known [] m h = absurd (ground arith)
first_unknown_lem known (j ∷ models) m h =
    ground (arith, first_unknown_lem known models m, eq_iff j m, eq_self j)

-- However the check of the selected models ends: if it passes, the answer has the selected aliases, each once, all of them
-- registered, and more than one only for the mode ask; if it refuses an alias, that was selected and is
-- not registered; if it refuses to compare, the mode is not ask.
pub validate_models-IsChecked :
    (s : Services) (models : List String) (mode : String)
    → IsChecked s models mode (validate_models s models mode)
unfolding validate_models
validate_models-IsChecked s models mode =
    let picked = dedupe [] models in
    let same : (m : String) → elem m picked ≡ elem m models =
      λ m. ground (arith, elem-dedupe m [] models) in
    let known = aliases s.available_models in
    elim (Option-cases (first_unknown known picked)) [
      | inl (m, stranger) ↦
          rw (stranger, validate_models)
            (let it = first_unknown_lem known picked m stranger in (sym (same m) ∙ it.0, it.1))
      | inr none_unknown ↦ elim (Bool-cases (ltb 1 (length picked) && not (str_eq mode "ask"))) [
        | inl compares ↦
            rw (none_unknown, validate_models) (rw (compares, validate_models) (refl, ground arith))
        | inr fine ↦
            rw (none_unknown, validate_models)
              (rw (fine, validate_models)
                (
                  same,
                  λ m. times-dedupe m [] models,
                  λ m there. first_unknown-known known picked m none_unknown there,
                  λ other. ground arith,
                ))
      ]
    ]
