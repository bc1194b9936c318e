-- ===== src/Engine/Compaction/Tuning.antt =====
-- The bounds of the context limit that tunes itself.
use z_agent.Base.{◌≤◌, ◌<◌, String, ◌≡◌, List, [], ◌∷◌, arith, count}
use z_agent.Engine.Compaction.{SelfTuningLimit, observe_error, observe_healthy_turn}

-- What the limit sees: an error's text, or a turn without one.
pub data Observation : Type 0 where
  error : String → Observation
  healthy : Observation

unfoldable pub observe : Observation → SelfTuningLimit → SelfTuningLimit
observe (error low) t = observe_error low t
observe healthy t = observe_healthy_turn t

unfoldable pub observe_all : List Observation → SelfTuningLimit → SelfTuningLimit
observe_all [] t = t
observe_all (o ∷ os) t = observe_all os (observe o t)

abbrev pub IsBounded : SelfTuningLimit → Type 0
IsBounded t =
    (t.floor ≤ t.current) × (t.current ≤ t.ceiling) × (t.healthy_turns < t.healthy_turns_threshold)

observe-IsBounded :
    (o : Observation) (t : SelfTuningLimit)
    → IsBounded t
    → IsBounded (observe o t)
      × ((observe o t).floor ≡ t.floor)
      × ((observe o t).ceiling ≡ t.ceiling)
unfolding observe observe_error observe_healthy_turn
observe-IsBounded (error low) t h = ground arith
observe-IsBounded healthy t h = ground arith

-- Over any errors and healthy turns the context limit stays between the floor and the ceiling that it started
-- with, and the count of healthy turns below its threshold, if that was so at the start.
observe_all-IsBounded :
    (os : List Observation) (t : SelfTuningLimit)
    → IsBounded t
    → (t.floor ≤ (observe_all os t).current)
      × ((observe_all os t).current ≤ t.ceiling)
      × ((observe_all os t).healthy_turns < (observe_all os t).healthy_turns_threshold)
unfolding observe_all
observe_all-IsBounded [] t h = h
observe_all-IsBounded (o ∷ os) t h =
    let (next, same_floor, same_ceiling) = observe-IsBounded o t h in
    let (low, high, count) = observe_all-IsBounded os (observe o t) next in
    (omega (arith, low, same_floor), omega (arith, high, same_ceiling), count)
