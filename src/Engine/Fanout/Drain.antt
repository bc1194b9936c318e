-- ===== src/Engine/Fanout/Drain.antt =====
-- The cascade drain.
use z_agent.Base.{
  String, ◌≡◌, refl, Bool, false, ◌&&◌, none, some, [], ◌∷◌, arith, str_eq, if◌then◌else◌, length,
}
use z_agent.Base.Dict
use z_agent.Base.Dict.{Dict}
use z_agent.Engine.Fanout.{Spawn, Registry, is_live, drain}

-- What the drain of `parent` makes of one entry.
abbrev pub drained_entry : String → Spawn → Spawn
drained_entry parent sp =
    if str_eq sp.parent_thread_id parent && is_live sp
    then record sp { status = "drained"; watchdog = false }
    else sp

get-drain :
    (parent sid : String) (r : Registry)
    → Dict.get sid (drain parent r).0
      ≡ elim (Dict.get sid r) [ none ↦ none | some sp ↦ some (drained_entry parent sp) ]
unfolding drain Dict.get
get-drain parent sid [] = refl
get-drain parent sid ((i, sp) ∷ r) = ground (arith, get-drain parent sid r)

-- The entries of the registry that a parent has running or requested.
abbrev pub is_child : String → Spawn → Bool
is_child parent sp = str_eq sp.parent_thread_id parent && is_live sp

no_child-drain :
    (parent : String) (r : Registry) → Dict.count_values (is_child parent) (drain parent r).0 ≡ 0
unfolding drain is_live
no_child-drain parent [] = refl
no_child-drain parent ((i, sp) ∷ r) = ground (arith, no_child-drain parent r)

length-drained :
    (parent : String) (r : Registry)
    → length (drain parent r).1 ≡ Dict.count_values (is_child parent) r
unfolding drain
length-drained parent [] = refl
length-drained parent ((i, sp) ∷ r) = ground (arith, length-drained parent r)

-- Draining a parent marks exactly its running and requested spawns as drained, with their watchdogs
-- cancelled, and leaves every other entry as it was; afterwards the parent has no such spawn, and as
-- many ids are returned as there were.
drain_lem :
    (parent : String) (r : Registry)
    → ((sid : String)
        → Dict.get sid (drain parent r).0
          ≡ elim (Dict.get sid r) [ none ↦ none | some sp ↦ some (drained_entry parent sp) ])
      × (Dict.count_values (is_child parent) (drain parent r).0 ≡ 0)
      × (length (drain parent r).1 ≡ Dict.count_values (is_child parent) r)
drain_lem parent r =
    (λ sid. get-drain parent sid r, no_child-drain parent r, length-drained parent r)
