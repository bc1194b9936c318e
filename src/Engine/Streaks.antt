-- ===== src/Engine/Streaks.antt =====
-- worker/worker/engine/graph.py: the stuck-loop watchdog of tools_node, which counts the failures of a call.
--
-- A result is the call's signature (the name and the hash of the args) with whether it succeeded; results are
-- listed with the newest first. Texts and events are left out.
use z_agent.Base.{
  ℕ, suc, ◌≤◌, String, ◌≡◌, refl, ◌∙◌, ◌↔◌, inl, inr, Bool, true, false, ◌&&◌, Option, none, some,
  List, [], ◌∷◌, arith, str_eq, eq_iff, leb, ◌==◌, if◌then◌else◌, Bool-cases, count, eq_self,
}
use z_agent.Base.Dict
use z_agent.Base.Dict.{Dict, get-put, get-remove}

-- `_STREAK_NUDGE`, `_STREAK_MENU`, `_STREAK_HANDOFF`, `_STREAK_FORCE_STOP`
abbrev pub streak_nudge : ℕ
streak_nudge = 3

abbrev pub streak_menu : ℕ
streak_menu = 5

abbrev pub streak_handoff : ℕ
streak_handoff = 8

abbrev pub streak_force_stop : ℕ
streak_force_stop = 12

pub data Response : Type 0 where
  nudge : Response
  menu : Response
  handoff : Response
  force_stop : Response

-- `_streak_response`
unfoldable pub streak_response : ℕ → Option Response
streak_response count =
    if count == streak_nudge
    then some nudge
    else if count == streak_menu
    then some menu
    else if count == streak_handoff
    then some handoff
    else if leb streak_force_stop count
    then some force_stop
    else none

-- `streaks.get(sig, 0)`
unfoldable pub streak_of : String → Dict ℕ → ℕ
streak_of sig streaks = elim (Dict.get sig streaks) [ none ↦ 0 | some n ↦ n ]

-- One result: the streaks, and what the watchdog answers.
unfoldable pub count_result : String × Bool → Dict ℕ → Dict ℕ × Option Response
count_result (sig, is_ok) streaks = if is_ok then (Dict.remove sig streaks, none) else (
  Dict.put sig (suc (streak_of sig streaks)) streaks,
  streak_response (suc (streak_of sig streaks)),
)

unfoldable pub count_results : List (String × Bool) → Dict ℕ
count_results [] = []
count_results (r ∷ older) = (count_result r (count_results older)).0

-- The newest results, back to the last success of the call.
abbrev pub since_success : String → List (String × Bool) → List (String × Bool)
since_success sig [] = []
since_success sig ((s, is_ok) ∷ older) =
    if str_eq s sig && is_ok then [] else (s, is_ok) ∷ since_success sig older

-- How often the call failed since it last succeeded.
abbrev pub failures : String → List (String × Bool) → ℕ
failures sig rs = count (λ r. str_eq r.0 sig) (since_success sig rs)

streak-put :
    (s sig : String) (n : ℕ) (d : Dict ℕ)
    → streak_of sig (Dict.put s n d) ≡ (if str_eq s sig then n else streak_of sig d)
unfolding streak_of
streak-put s sig n d = ground (arith, get-put s sig n d)

streak-remove :
    (s sig : String) (d : Dict ℕ)
    → streak_of sig (Dict.remove s d) ≡ (if str_eq s sig then 0 else streak_of sig d)
unfolding streak_of
streak-remove s sig d = ground (arith, get-remove s sig d)

none_counted : (sig : String) → streak_of sig [] ≡ 0
unfolding streak_of Dict.get
none_counted sig = refl

-- Whatever results come, of this call and of others between, the streak of a call is the number of its failures
-- since it last succeeded.
pub streak_of-count_results :
    (sig : String) (rs : List (String × Bool)) → streak_of sig (count_results rs) ≡ failures sig rs
unfolding count_results count_result
streak_of-count_results sig [] = none_counted sig
streak_of-count_results sig ((s, true) ∷ older) =
    let rest = streak_of-count_results sig older in
    streak-remove s sig (count_results older) ∙ elim (Bool-cases (str_eq s sig)) [
      | inl mine ↦ ground arith
      | inr other ↦ ground (arith, rest)
    ]
streak_of-count_results sig ((s, false) ∷ older) =
    let rest = streak_of-count_results sig older in
    streak-put s sig (suc (streak_of s (count_results older))) (count_results older)
    ∙ elim (Bool-cases (str_eq s sig)) [
      | inl mine ↦
          let own : streak_of s (count_results older) ≡ failures s older =
            streak_of-count_results s older in
          let key = (eq_iff s sig).0 mine in rw (← key) (ground (arith, own, eq_self s))
      | inr other ↦ ground (arith, rest)
    ]

-- What the watchdog answers at a failure: nudges at the third, the menu at the fifth, the hand-off at the eighth,
-- and from the twelfth on the forced stop, where a call's failures are counted since it last succeeded and
-- the results of other calls do not matter.
count_result-answers :
    (sig : String) (older : List (String × Bool))
    → let answer = (count_result (sig, false) (count_results older)).1 in
      let n = suc (failures sig older) in
      ((answer ≡ some nudge) ↔ (n ≡ 3))
      × ((answer ≡ some menu) ↔ (n ≡ 5))
      × ((answer ≡ some handoff) ↔ (n ≡ 8))
      × ((answer ≡ some force_stop) ↔ (12 ≤ n))
unfolding count_result streak_response
count_result-answers sig older =
    rw (streak_of-count_results sig older) (ground arith, ground arith, ground arith, ground arith)
