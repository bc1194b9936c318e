-- ===== src/Engine/Fanout/Registry.antt =====
-- The live spawns over every sequence of operations.
use z_agent.Base.{
  ℕ, suc, ◌+◌, ◌≤◌, String, ◌≡◌, inl, inr, Bool, true, false, ◌||◌, List, [], ◌∷◌, arith, str_eq,
  Bool-cases, Option-cases, length, All,
}
use z_agent.Base.Dict
use z_agent.Base.Dict.{Dict, count_values-put}
use z_agent.Engine.Fanout.{
  swarm_max_slices, Spawn, Registry, is_live, register, live_count, drain, update, arm_watchdog,
  finish, enforce_timeout, publish_one, publish_spawn_requests, Slice, SpawnRequest, agent, swarm,
  incoming, veto, vet, is_allowed, spawn_agent, register_all, spawn_swarm,
}

-- What can happen to a registry. `finished` carries the status that the end of a spawn reports.
pub data Op : Type 0 where
  agent_tool : String → String → Op
  swarm_tool : String → (ℕ → String) → List Slice → Op
  publish : (String → Bool) → List String → Op
  parent_stops : String → Op
  armed : String → Op
  finished : String → String → Op
  times_out : String → Op

unfoldable pub step : Op → Registry → Registry
step (agent_tool t i) r = (spawn_agent t i r).0
step (swarm_tool t uuid slices) r = (spawn_swarm t uuid slices r).0
step (publish xadd ids) r = publish_spawn_requests xadd ids r
step (parent_stops t) r = (drain t r).0
step (armed i) r = arm_watchdog i r
step (finished i status) r = finish i status r
step (times_out i) r = enforce_timeout i r

unfoldable pub steps : List Op → Registry → Registry
unfolding step
steps [] r = r
steps (op ∷ ops) r = steps ops (step op r)

-- A spawn ends in a status that is not live.
abbrev pub EndsSpawns : Op → Type 0
EndsSpawns (finished i status) = (str_eq status "running" || str_eq status "requested") ≡ false
EndsSpawns _ = Unit

live_count-register :
    (i t : String) (r : Registry) → live_count (register i t r) ≤ suc (live_count r)
unfolding live_count register is_live
live_count-register i t r = omega (
  arith,
  count_values-put is_live i
      (record { parent_thread_id = t; status = "requested"; watchdog = false }) r,
)

-- An update that never makes a spawn live does not raise the count.
live_count-update :
    (i : String) (f : Spawn → Spawn) (r : Registry)
    → ((sp : Spawn) → is_live sp ≡ false → is_live (f sp) ≡ false)
    → live_count (update i f r) ≤ live_count r
unfolding live_count update
live_count-update i f r keeps = elim (Option-cases (Dict.get i r)) [
  | inl (sp, e) ↦ rw (e, update) (ground (arith, keeps sp, count_values-put is_live i (f sp) r))
  | inr e ↦ rw (e, update) (omega arith)
]

live_count-drain : (t : String) (r : Registry) → live_count (drain t r).0 ≤ live_count r
unfolding live_count drain
live_count-drain t [] = omega arith
live_count-drain t ((i, sp) ∷ r) = ground (arith, live_count-drain t r)

live_count-publish_one :
    (landed : Bool) (i : String) (r : Registry) → live_count (publish_one landed i r) ≤ live_count r
unfolding publish_one
live_count-publish_one landed i r = live_count-update i _ r (λ sp d. unfold is_live in ground arith)

live_count-publish :
    (xadd : String → Bool) (ids : List String) (r : Registry)
    → live_count (publish_spawn_requests xadd ids r) ≤ live_count r
unfolding publish_spawn_requests
live_count-publish xadd [] r = omega arith
live_count-publish xadd (i ∷ ids) r = omega (
  arith,
  live_count-publish_one (xadd i) i r,
  live_count-publish xadd ids (publish_one (xadd i) i r),
)

live_count-register_all :
    (t : String) (uuid : ℕ → String) (i : ℕ) (slices : List Slice) (r : Registry)
    → live_count (register_all t uuid i slices r) ≤ live_count r + length slices
unfolding register_all
live_count-register_all t uuid i [] r = omega arith
live_count-register_all t uuid i (s ∷ slices) r = omega (
  arith,
  live_count-register (uuid i) t r,
  live_count-register_all t uuid (suc i) slices (register (uuid i) t r),
)

-- An allowed request fits under the cap.
vet-fits :
    (req : SpawnRequest) (r : Registry)
    → is_allowed (vet req r) ≡ true
    → live_count r + incoming req ≤ swarm_max_slices
unfolding vet veto
vet-fits req r h = ground arith

length-le-incoming : (slices : List Slice) → length slices ≤ incoming (swarm slices)
unfolding incoming
length-le-incoming [] = omega arith
length-le-incoming (s ∷ slices) = omega arith

live_count-spawn_agent :
    (t i : String) (r : Registry)
    → live_count r ≤ swarm_max_slices
    → live_count (spawn_agent t i r).0 ≤ swarm_max_slices
unfolding spawn_agent
live_count-spawn_agent t i r h = elim (Bool-cases (is_allowed (vet agent r))) [
  | inl e ↦ rw e (
      let fits : live_count r + 1 ≤ swarm_max_slices = unfold incoming in vet-fits agent r e in
      omega (arith, live_count-register i t r))
  | inr e ↦ rw e h
]

live_count-spawn_swarm :
    (t : String) (uuid : ℕ → String) (slices : List Slice) (r : Registry)
    → live_count r ≤ swarm_max_slices
    → live_count (spawn_swarm t uuid slices r).0 ≤ swarm_max_slices
unfolding spawn_swarm
live_count-spawn_swarm t uuid slices r h = elim (Bool-cases (is_allowed (vet (swarm slices) r))) [
  | inl e ↦ rw e (
      omega (
        arith,
        vet-fits (swarm slices) r e,
        length-le-incoming slices,
        live_count-register_all t uuid 0 slices r,
      ))
  | inr e ↦ rw e h
]

live_count-arm_watchdog : (i : String) (r : Registry) → live_count (arm_watchdog i r) ≤ live_count r
unfolding arm_watchdog is_live
live_count-arm_watchdog i r = live_count-update i _ r (λ sp d. d)

live_count-finish :
    (i status : String) (r : Registry)
    → (str_eq status "running" || str_eq status "requested") ≡ false
    → live_count (finish i status r) ≤ live_count r
unfolding finish is_live
live_count-finish i status r e = live_count-update i _ r (λ sp d. e)

live_count-enforce_timeout :
    (i : String) (r : Registry) → live_count (enforce_timeout i r) ≤ live_count r
unfolding enforce_timeout is_live
live_count-enforce_timeout i r = live_count-update i _ r (λ sp d. ground arith)

step_bounded :
    (op : Op) (r : Registry)
    → EndsSpawns op
    → live_count r ≤ swarm_max_slices
    → live_count (step op r) ≤ swarm_max_slices
unfolding step
step_bounded (agent_tool t i) r e h = live_count-spawn_agent t i r h
step_bounded (swarm_tool t uuid slices) r e h = live_count-spawn_swarm t uuid slices r h
step_bounded (publish xadd ids) r e h = omega (arith, live_count-publish xadd ids r)
step_bounded (parent_stops t) r e h = omega (arith, live_count-drain t r)
step_bounded (armed i) r e h = omega (arith, live_count-arm_watchdog i r)
step_bounded (finished i status) r e h = omega (arith, live_count-finish i status r e)
step_bounded (times_out i) r e h = omega (arith, live_count-enforce_timeout i r)

-- Whatever sequence of tool calls, publications, stops, ends and timeouts a registry goes through,
-- if spawns end in statuses that are not live then never more than eight spawns are live, provided
-- no more than eight were at the start.
pub live_count-steps-le :
    (ops : List Op) (r : Registry)
    → All EndsSpawns ops
    → live_count r ≤ swarm_max_slices
    → live_count (steps ops r) ≤ swarm_max_slices
unfolding steps
live_count-steps-le [] r e h = h
live_count-steps-le (op ∷ ops) r e h =
    live_count-steps-le ops (step op r) e.1 (step_bounded op r e.0 h)
