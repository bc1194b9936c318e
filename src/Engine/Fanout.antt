-- ===== src/Engine/Fanout.antt =====
-- worker/worker/engine/fanout.py: spawn requests, their veto, and the registry of live spawns. The
-- proofs are in the children.
--
-- A spawn keeps the fields that some operation reads; kind, context_id, prompt, repo and started_at are
-- only copied into the request that is published. A watchdog is armed or not. Ids are those that
-- `uuid.uuid4` gives, taken as arguments; what `xadd` answers is the argument `xadd`.
pub mod Registry
pub mod Vetting
pub mod Drain
use z_agent.Base.{
  ℕ, zero, suc, ◌+◌, ◌-◌, ◌*◌, ◌/◌, ◌%◌, ◌≤◌, ◌<◌, String, ◌≡◌, refl, sym, ap, ◌∙◌, ◌≢◌, ◌↔◌, ◌⊎◌,
  inl, inr, Bool, true, false, not, ◌&&◌, ◌||◌, Option, none, some, List, [], ◌∷◌, ◌++◌, map, arith,
  str_eq, eq_iff, ltb, leb, ◌==◌, if◌then◌else◌, Bool-cases, Option-cases, ltb→lt, leb→le, is_some,
  length, any, all, filter, count, take, drop, head?, All, length-append, count-append, count-le,
  length-drop, length-take, All-append, any-append, codes, elem, eq_self, elem-append, Result, ok,
  raise, or_else,
}
use z_agent.Base.Dict
use z_agent.Base.Dict.{Dict}

-- `SWARM_MAX_SLICES`
abbrev pub swarm_max_slices : ℕ
swarm_max_slices = 8

pub record Spawn : Type 0 where
  pub parent_thread_id : String
  pub status : String
  pub watchdog : Bool

abbrev pub Registry : Type 0
Registry = Dict Spawn

-- `status in ("running", "requested")`
unfoldable pub is_live : Spawn → Bool
is_live sp = str_eq sp.status "running" || str_eq sp.status "requested"

unfoldable pub register : String → String → Registry → Registry
register spawn_id parent r =
    Dict.put spawn_id (record { parent_thread_id = parent; status = "requested"; watchdog = false })
      r

unfoldable pub live_count : Registry → ℕ
live_count r = Dict.count_values is_live r

unfoldable pub is_saturated : Registry → ℕ → Bool
is_saturated r cap = leb cap (live_count r)

-- The loop of `drain`: the registry, and the ids that were drained.
unfoldable pub drain : String → Registry → Registry × List String
drain parent [] = ([], [])
drain parent ((sid, sp) ∷ r) =
    let (r', drained) = drain parent r in
    if str_eq sp.parent_thread_id parent && is_live sp
    then ((sid, record sp { status = "drained"; watchdog = false }) ∷ r', sid ∷ drained)
    else ((sid, sp) ∷ r', drained)

-- `self.spawns.get(spawn_id)` and an update of the entry in place; a missing id changes nothing.
unfoldable pub update : String → (Spawn → Spawn) → Registry → Registry
update spawn_id f r = elim (Dict.get spawn_id r) [ none ↦ r | some sp ↦ Dict.put spawn_id (f sp) r ]

unfoldable pub arm_watchdog : String → Registry → Registry
unfolding update
arm_watchdog spawn_id = update spawn_id (λ sp. record sp { watchdog = true })

unfoldable pub cancel_watchdog : String → Registry → Registry
unfolding update
cancel_watchdog spawn_id = update spawn_id (λ sp. record sp { watchdog = false })

unfoldable pub finish : String → String → Registry → Registry
unfolding update
finish spawn_id status = update spawn_id (λ sp. record sp { status = status; watchdog = false })

-- `enforce_timeout`, when its sleep is over.
unfoldable pub enforce_timeout : String → Registry → Registry
unfolding update
enforce_timeout spawn_id =
    update spawn_id (λ sp. if is_live sp then record sp { status = "timed_out" } else sp)

-- One turn of the loop of `publish_spawn_requests`.
unfoldable pub publish_one : Bool → String → Registry → Registry
unfolding update
publish_one landed spawn_id = update spawn_id (λ sp.
    if str_eq sp.status "requested"
    then record sp { status = if landed then "running" else "vetoed" }
    else sp)

unfoldable pub publish_spawn_requests : (String → Bool) → List String → Registry → Registry
publish_spawn_requests xadd [] r = r
publish_spawn_requests xadd (sid ∷ sids) r =
    publish_spawn_requests xadd sids (publish_one (xadd sid) sid r)

-- A slice is a dict; `prompt` may be missing.
pub record Slice : Type 0 where
  pub prompt : Option String

pub data SpawnRequest : Type 0 where
  agent : SpawnRequest
  swarm : List Slice → SpawnRequest

pub data VetoReason : Type 0 where
  pool_saturated : VetoReason
  exceeds_cap : ℕ → ℕ → VetoReason
  no_slices : VetoReason
  too_wide : ℕ → VetoReason
  duplicate_prompts : VetoReason

-- `key_error`: a slice without a prompt raises in `s["prompt"]`.
pub data Verdict : Type 0 where
  allowed : Verdict
  refused : VetoReason → Verdict
  key_error : Verdict

unfoldable pub incoming : SpawnRequest → ℕ
incoming agent = 1
incoming (swarm []) = 1
incoming (swarm (s ∷ slices)) = length (s ∷ slices)

abbrev pub add_prompt : Option String → Option (List String) → Option (List String)
add_prompt none rest = none
add_prompt (some p) none = none
add_prompt (some p) (some ps) = some (p ∷ ps)

-- `[s["prompt"] for s in slices]`, or the KeyError.
unfoldable pub prompts_of : List Slice → Option (List String)
prompts_of [] = some []
prompts_of (s ∷ slices) = add_prompt s.prompt (prompts_of slices)

-- How many elements the set of the texts has.
unfoldable pub set_size : List String → ℕ
set_size [] = 0
set_size (p ∷ ps) = let rest = set_size ps in if elem p ps then rest else suc rest

unfoldable pub vet_slices : List Slice → Verdict
unfolding prompts_of set_size
vet_slices [] = refused no_slices
vet_slices (s ∷ rest) =
    let slices = s ∷ rest in
    if ltb swarm_max_slices (length slices)
    then refused (too_wide (length slices))
    else elim (prompts_of slices) [
      | none ↦ key_error
      | some prompts ↦
          if ltb (set_size prompts) (length slices) then refused duplicate_prompts else allowed
    ]

abbrev pub vet_kind : SpawnRequest → Verdict
vet_kind agent = allowed
vet_kind (swarm slices) = vet_slices slices

unfoldable pub veto : SpawnRequest → Bool → ℕ → Verdict
unfolding incoming
veto req worker_idle live =
    if not worker_idle
    then refused pool_saturated
    else if ltb swarm_max_slices (live + incoming req)
    then refused (exceeds_cap live (incoming req))
    else vet_kind req

abbrev pub is_allowed : Verdict → Bool
is_allowed allowed = true
is_allowed _ = false

-- The verdict that both tools ask for, on the registry as it is.
unfoldable pub vet : SpawnRequest → Registry → Verdict
unfolding is_saturated
vet req r = veto req (not (is_saturated r swarm_max_slices)) (live_count r)

unfoldable pub spawn_agent : String → String → Registry → Registry × Verdict
unfolding vet
spawn_agent thread_id spawn_id r =
    let v = vet agent r in (if is_allowed v then register spawn_id thread_id r else r, v)

-- The loop of `spawn_swarm`; `uuid i` is the id of slice `i`.
unfoldable pub register_all : String → (ℕ → String) → ℕ → List Slice → Registry → Registry
register_all thread_id uuid i [] r = r
register_all thread_id uuid i (s ∷ slices) r =
    register_all thread_id uuid (suc i) slices (register (uuid i) thread_id r)

unfoldable pub spawn_swarm : String → (ℕ → String) → List Slice → Registry → Registry × Verdict
unfolding vet
spawn_swarm thread_id uuid slices r =
    let v = vet (swarm slices) r in
    (if is_allowed v then register_all thread_id uuid 0 slices r else r, v)

-- `reset_registry` cancels every watchdog and starts an empty registry.
unfoldable pub reset_registry : Registry → Registry
reset_registry r = []
