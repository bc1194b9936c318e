-- ===== src/Tests/Spawns.antt =====
-- The spawn registry at concrete inputs.
use z_agent.Base.{ℕ, zero, suc, ◌≤◌, String, ◌≡◌, refl, ap, true, some, List, [], ◌∷◌, arith}
use z_agent.Engine.Fanout.{Registry, live_count, Slice, swarm_max_slices}
use z_agent.Engine.Fanout.Registry.{
  Op, agent_tool, swarm_tool, publish, parent_stops, finished, steps, live_count-steps-le,
}

abbrev two_slices : List Slice
two_slices =
    (record { prompt = some "read the api" }) ∷ (record { prompt = some "read the db" }) ∷ []

-- "", "x", "xx", …: ids that are all different.
ids : ℕ → String
ids zero = String.[]
ids (suc n) = String.◌∷◌ "x" (ids n)

tail_text : String → String
tail_text String.[] = String.[]
tail_text (String.◌∷◌ c s) = s

ids_injective : (j k : ℕ) → ids j ≡ ids k → j ≡ k
unfolding ids tail_text
ids_injective zero zero e = refl
ids_injective zero (suc k) e = cc
ids_injective (suc j) zero e = cc
ids_injective (suc j) (suc k) e = ap suc (ids_injective j k (ap tail_text e))

abbrev history : List Op
history =
    agent_tool "t1" "a"
    ∷ publish (λ i. true) ("a" ∷ [])
    ∷ swarm_tool "t1" ids two_slices
    ∷ finished "a" "completed"
    ∷ parent_stops "t1"
    ∷ []

live_count-steps-le_example : live_count (steps history []) ≤ swarm_max_slices
unfolding live_count
live_count-steps-le_example =
    live_count-steps-le history [] (tt, (tt, (tt, (refl, (tt, tt))))) (omega arith)

abbrev two_parents : Registry
two_parents =
    ("a", record { parent_thread_id = "t1"; status = "running"; watchdog = true })
    ∷ ("b", record { parent_thread_id = "t2"; status = "running"; watchdog = true })
    ∷ []
