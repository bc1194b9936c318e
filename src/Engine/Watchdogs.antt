-- ===== src/Engine/Watchdogs.antt =====
-- worker/worker/engine/watchdogs.py: the budget reminders, the collision radar, the idle gate and the critics'
-- rubric. The proofs are in the children.
--
-- Amounts are natural numbers (of the smallest unit), and a share of a budget is compared by multiplying: the code
-- divides floats. The drift watchdog, which averages floats, is left out. `str.lower` and `str.strip` are
-- arguments. A plan is its list of steps, an evidence its tests_pass.
pub mod Reminders
use z_agent.Base.{
  ℕ, zero, suc, ◌+◌, ◌-◌, ◌*◌, ◌/◌, ◌%◌, ◌≤◌, ◌<◌, String, ◌≡◌, refl, sym, ap, ◌∙◌, ◌≢◌, ◌↔◌, ◌⊎◌,
  inl, inr, Bool, true, false, not, ◌&&◌, ◌||◌, Option, none, some, List, [], ◌∷◌, ◌++◌, map, arith,
  str_eq, eq_iff, ltb, leb, ◌==◌, if◌then◌else◌, Bool-cases, Option-cases, ltb→lt, leb→le, is_some,
  length, any, all, filter, count, take, drop, head?, All, length-append, count-append, count-le,
  length-drop, length-take, All-append, any-append, codes, elem, eq_self, elem-append, take_text,
  Result, ok, raise, or_else,
}
use z_agent.Base.{contains, str_append}
use z_agent.Base.Dict
use z_agent.Base.Dict.{Dict}

pub record BudgetWatchdog : Type 0 where
  pub fired_50 : List String
  pub fired_80 : List String

-- A check's arguments.
pub record Usage : Type 0 where
  pub thread_id : String
  pub used : ℕ
  pub cap : ℕ

pub record BudgetReminder : Type 0 where
  pub thread_id : String
  pub used : ℕ
  pub cap : ℕ
  pub level : String

-- `used / cap >= percent`
abbrev pub has_reached : ℕ → Usage → Bool
has_reached percent u = leb (percent * u.cap) (100 * u.used)

abbrev pub reminder : Usage → String → BudgetReminder
reminder u level = record { thread_id = u.thread_id; used = u.used; cap = u.cap; level = level }

-- `BudgetWatchdog.check`
unfoldable pub check : Usage → BudgetWatchdog → BudgetWatchdog × Option BudgetReminder
check u w =
    if leb u.cap 0
    then (w, none)
    else if has_reached 80 u && not (elem u.thread_id w.fired_80)
    then (
      record { fired_50 = u.thread_id ∷ w.fired_50; fired_80 = u.thread_id ∷ w.fired_80 },
      some (reminder u "80"),
    )
    else if has_reached 50 u && not (elem u.thread_id w.fired_50)
    then (record w { fired_50 = u.thread_id ∷ w.fired_50 }, some (reminder u "50"))
    else (w, none)

pub record Scoped : Type 0 where
  pub thread_id : Option String
  pub repo_scope : Option String

pub record CollisionWarning : Type 0 where
  pub thread_a : String
  pub thread_b : String
  pub repo : String

abbrev pub id_or_unknown : Option String → String
id_or_unknown none = "?"
id_or_unknown (some t) = t

-- A thread without a repo, or with an empty one, is skipped.
abbrev pub repo_of : Option String → String
repo_of none = ""
repo_of (some r) = r

unfoldable pub collisions : List Scoped → Dict String → List CollisionWarning
collisions [] seen = []
collisions (t ∷ ts) seen =
    if str_eq (repo_of t.repo_scope) ""
    then collisions ts seen
    else elim (Dict.get (repo_of t.repo_scope) seen) [
      | some first ↦
          record {
            thread_a = first;
            thread_b = id_or_unknown t.thread_id;
            repo = repo_of t.repo_scope;
          }
          ∷ collisions ts seen
      | none ↦ collisions ts (Dict.put (repo_of t.repo_scope) (id_or_unknown t.thread_id) seen)
    ]

-- `CollisionRadar.check`
unfoldable pub radar : List Scoped → List CollisionWarning
radar ts = collisions ts []

-- `IdleGate.check`
abbrev pub is_idle : ℕ → String → ℕ → Bool
is_idle idle_ttl_s status idle_for_s = str_eq status "idle" && ltb idle_ttl_s idle_for_s

pub data CriticDimension : Type 0 where
  correctness : CriticDimension
  completeness : CriticDimension
  risk : CriticDimension

pub record CriticFinding : Type 0 where
  pub dimension : CriticDimension
  pub severity : String
  pub detail : String

abbrev pub tests_pass : Option Bool → Bool
tests_pass none = false
tests_pass (some b) = b

abbrev pub has_steps : Option (List String) → Bool
has_steps none = false
has_steps (some []) = false
has_steps (some (s ∷ ss)) = true

abbrev pub text_or_empty : Option String → String
text_or_empty none = ""
text_or_empty (some s) = s

abbrev pub blocks : CriticFinding → Bool
blocks f = str_eq f.severity "block"

-- `"; ".join(…)`
abbrev pub join_details : List CriticFinding → String
join_details [] = ""
join_details (f ∷ []) = f.detail
join_details (f ∷ g ∷ fs) = str_append f.detail (str_append "; " (join_details (g ∷ fs)))

-- `CriticRubric.should_block`
unfoldable pub should_block : List CriticFinding → Bool × String
should_block findings = elim (filter blocks findings) [
  | [] ↦ (false, "")
  | ◌∷◌ f fs ↦ (true, join_details (f ∷ fs))
]

module _ (lower strip : String → String) where
  -- `CriticRubric.evaluate`
  unfoldable pub evaluate : Option (List String) → Option Bool → Option String → List CriticFinding
  evaluate plan evidence diff_summary =
      let diff = text_or_empty diff_summary in
      (if tests_pass evidence
        then []
        else (record {
          dimension = correctness;
          severity = "block";
          detail = "tests do not pass — success criteria not verified";
        }
            ∷ []))
      ++ ((if has_steps plan && (str_eq diff "" || str_eq (strip diff) "")
            then (record {
              dimension = completeness;
              severity = "block";
              detail = "diff is empty but plan has steps — incomplete";
            }
                ∷ [])
            else [])
          ++ (if not (str_eq diff "")
                && (contains "force" (lower diff) || ltb 10000 (length (codes diff)))
              then (record {
                dimension = risk;
                severity = "warn";
                detail = "large or force-bearing change — review carefully";
              }
                  ∷ [])
              else []))
