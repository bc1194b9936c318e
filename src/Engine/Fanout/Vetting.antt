-- ===== src/Engine/Fanout/Vetting.antt =====
-- What the engine's veto lets through, and that a swarm is registered whole or not at all.
use z_agent.Base.{
  ℕ, suc, ◌+◌, ◌≤◌, String, ◌≡◌, refl, ◌↔◌, inl, inr, Bool, true, false, not, ◌&&◌, none, some,
  List, [], ◌∷◌, arith, eq_iff, ltb, Option-cases, length, elem,
}
use z_agent.Base.Dict
use z_agent.Base.Dict.{Dict, get-put, count_values-put}
use z_agent.Engine.Fanout.{
  swarm_max_slices, Registry, is_live, register, live_count, Slice, SpawnRequest, agent, swarm,
  allowed, incoming, prompts_of, set_size, vet_slices, veto, vet, is_allowed, register_all,
  spawn_swarm,
}

-- No text twice.
abbrev pub are_distinct : List String → Bool
are_distinct [] = true
are_distinct (p ∷ ps) = not (elem p ps) && are_distinct ps

set_size-le : (ps : List String) → set_size ps ≤ length ps
unfolding set_size
set_size-le [] = omega arith
set_size-le (p ∷ ps) = ground (arith, set_size-le ps)

set_size-are_distinct : (ps : List String) → ltb (set_size ps) (length ps) ≡ not (are_distinct ps)
unfolding set_size
set_size-are_distinct [] = refl
set_size-are_distinct (p ∷ ps) = ground (arith, set_size-le ps, set_size-are_distinct ps)

length-prompts_of :
    (slices : List Slice) (ps : List String)
    → prompts_of slices ≡ some ps
    → length ps ≡ length slices
unfolding prompts_of
length-prompts_of [] ps h = ground arith
length-prompts_of (s ∷ slices) [] h = ground arith
length-prompts_of (s ∷ slices) (p ∷ ps) h = ground (arith, length-prompts_of slices ps)

-- A request that has at most eight slices, each with a prompt, no prompt twice.
abbrev pub IsWellFormed : SpawnRequest → Type 0
IsWellFormed agent = Unit
IsWellFormed (swarm slices) =
    (ps : List String) × (prompts_of slices ≡ some ps)
    × (1 ≤ length slices)
    × (are_distinct ps ≡ true)

vet_slices_iff :
    (slices : List Slice)
    → length slices ≤ swarm_max_slices
    → (vet_slices slices ≡ allowed) ↔ IsWellFormed (swarm slices)
unfolding vet_slices
vet_slices_iff [] h = (λ e. cc, λ w. absurd (omega arith))
vet_slices_iff (s ∷ rest) h = elim (Option-cases (prompts_of (s ∷ rest))) [
  | inl (ps, e) ↦ rw e (
    λ a. (
      ps,
      refl,
      omega arith,
      ground (arith, length-prompts_of (s ∷ rest) ps e, set_size-are_distinct ps),
    ),
    λ w. ground (arith, length-prompts_of (s ∷ rest) ps e, set_size-are_distinct ps),
  )
  | inr e ↦ rw e (λ a. ground arith, λ w. ground arith)
]

incoming-pos : (req : SpawnRequest) → 1 ≤ incoming req
unfolding incoming
incoming-pos agent = omega arith
incoming-pos (swarm []) = omega arith
incoming-pos (swarm (s ∷ slices)) = omega arith

length-le-incoming : (slices : List Slice) → length slices ≤ incoming (swarm slices)
unfolding incoming
length-le-incoming [] = omega arith
length-le-incoming (s ∷ slices) = omega arith

-- The veto on the current registry allows a request exactly when the live spawns and the new ones
-- together are at most eight and, for a swarm, there is at least one slice, every slice has a prompt
-- and no two prompts are the same.
pub vet_iff :
    (req : SpawnRequest) (r : Registry)
    → (vet req r ≡ allowed) ↔ ((live_count r + incoming req ≤ swarm_max_slices) × IsWellFormed req)
unfolding vet veto
vet_iff agent r =
    (λ e. (ground (arith, incoming-pos agent), tt), λ w. ground (arith, incoming-pos agent))
vet_iff (swarm slices) r = (
  λ e.
      let fits : live_count r + incoming (swarm slices) ≤ swarm_max_slices =
        ground (arith, incoming-pos (swarm slices)) in
      let small : length slices ≤ swarm_max_slices = omega (arith, length-le-incoming slices) in
      (fits, (vet_slices_iff slices small).0 (ground (arith, incoming-pos (swarm slices)))),
  λ w.
      let small : length slices ≤ swarm_max_slices =
        omega (arith, w.0, length-le-incoming slices) in
      ground (arith, w.0, incoming-pos (swarm slices), (vet_slices_iff slices small).1 w.1),
)

-- The ids are new to the registry, and no two are the same.
abbrev pub AreFresh : (ℕ → String) → ℕ → Registry → Type 0
AreFresh uuid i r = (j : ℕ) → i ≤ j → Dict.get (uuid j) r ≡ none

live_count-register_new :
    (sid t : String) (r : Registry)
    → Dict.get sid r ≡ none
    → live_count (register sid t r) ≡ suc (live_count r)
unfolding live_count register is_live
live_count-register_new sid t r h = ground (
  arith,
  count_values-put is_live sid
      (record { parent_thread_id = t; status = "requested"; watchdog = false }) r,
)

AreFresh-register :
    (uuid : ℕ → String) (i : ℕ) (t : String) (r : Registry)
    → ((j k : ℕ) → uuid j ≡ uuid k → j ≡ k)
    → AreFresh uuid i r
    → AreFresh uuid (suc i) (register (uuid i) t r)
unfolding register
AreFresh-register uuid i t r inj f j h = ground (
  arith,
  get-put (uuid i) (uuid j)
      (record { parent_thread_id = t; status = "requested"; watchdog = false }) r,
  eq_iff (uuid i) (uuid j),
  inj i j,
  f j (omega arith),
)

live_count-register_all_new :
    (uuid : ℕ → String) (t : String) (i : ℕ) (slices : List Slice) (r : Registry)
    → ((j k : ℕ) → uuid j ≡ uuid k → j ≡ k)
    → AreFresh uuid i r
    → live_count (register_all t uuid i slices r) ≡ live_count r + length slices
unfolding register_all
live_count-register_all_new uuid t i [] r inj f = omega arith
live_count-register_all_new uuid t i (s ∷ slices) r inj f = omega (
  arith,
  live_count-register_new (uuid i) t r (f i (omega arith)),
  live_count-register_all_new uuid t (suc i) slices (register (uuid i) t r) inj
      (AreFresh-register uuid i t r inj f),
)

-- With ids that are new and all different, a swarm is registered whole or not at all: an allowed one
-- raises the live count by exactly the number of its slices, and a refused one leaves the registry
-- as it was.
pub spawn_swarm_atomic :
    (t : String) (uuid : ℕ → String) (slices : List Slice) (r : Registry)
    → ((j k : ℕ) → uuid j ≡ uuid k → j ≡ k)
    → AreFresh uuid 0 r
    → (is_allowed (spawn_swarm t uuid slices r).1 ≡ true
        → live_count (spawn_swarm t uuid slices r).0 ≡ live_count r + length slices)
      × (is_allowed (spawn_swarm t uuid slices r).1 ≡ false → (spawn_swarm t uuid slices r).0 ≡ r)
unfolding spawn_swarm
spawn_swarm_atomic t uuid slices r inj f =
    (λ a. rw a (live_count-register_all_new uuid t 0 slices r inj f), λ n. rw n)
