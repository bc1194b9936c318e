-- ===== src/Approvals/Rows.antt =====
-- An approval's row: decided once, by a human or by the clock.
use z_agent.Base.{
  ℕ, String, ◌≡◌, refl, inl, inr, true, Option, none, some, List, [], ◌∷◌, arith, eq_iff,
  if◌then◌else◌, Option-cases, eq_self, ok,
}
use z_agent.Base.Dict
use z_agent.Base.Dict.{Dict, get-put}
use z_agent.Approvals.{
  Approval, Redis, is_expired, stamp_timeout, stamp, decide, is_stale, expire_stale, create_card,
}

-- What the service does to the table: a card from a worker, a decision of a user, a sweep.
pub data Op : Type 0 where
  card : ℕ → ℕ → String → Option String → String → String → String → Op
  decision : String → String → ℕ → String → Option String → ℕ → Op
  sweep : ℕ → Op

abbrev pub apply : Op → Dict Approval × Redis → Dict Approval × Redis
apply (card now ttl run_id thread_id kind payload id) (table, r) =
    (create_card now ttl run_id thread_id kind payload id table, r)
apply (decision id d by reason edited_args now) (table, r) =
    let out = decide id d by reason edited_args now table r in (out.0, out.1)
apply (sweep now) (table, r) = ((expire_stale now table).0, r)

abbrev pub apply_all : List Op → Dict Approval × Redis → Dict Approval × Redis
apply_all [] s = s
apply_all (op ∷ ops) s = apply_all ops (apply op s)

abbrev swept : ℕ → Approval → Approval
swept now a = if is_stale now a then stamp_timeout now a else a

pub get-expire_stale :
    (now : ℕ) (id : String) (table : Dict Approval)
    → Dict.get id (expire_stale now table).0
      ≡ elim (Dict.get id table) [ none ↦ none | some a ↦ some (swept now a) ]
unfolding expire_stale Dict.get
get-expire_stale now id [] = refl
get-expire_stale now id ((j, a) ∷ rows) = ground (arith, get-expire_stale now id rows)

get-create_card :
    (now ttl : ℕ) (run_id : String) (thread_id : Option String) (kind payload id k : String)
    (table : Dict Approval) (a : Approval)
    → Dict.get k table ≡ some a
    → Dict.get k (create_card now ttl run_id thread_id kind payload id table) ≡ some a
unfolding create_card
get-create_card now ttl run_id thread_id kind payload id k table a h =
    elim (Option-cases (Dict.get id table)) [
      | inl (old, p) ↦ rw (p, create_card) h
      | inr p ↦ rw (p, create_card) (rw (get-put id k _ table) (ground (arith, eq_iff id k)))
    ]

get-decide :
    (id d : String) (by : ℕ) (reason : String) (edited_args : Option String) (now : ℕ)
    (table : Dict Approval) (r : Redis) (k : String) (a : Approval) (old : String)
    → Dict.get k table ≡ some a
    → a.decision ≡ some old
    → Dict.get k (decide id d by reason edited_args now table r).0 ≡ some a
unfolding decide
get-decide id d by reason edited_args now table r k a old h done =
    elim (Option-cases (Dict.get id table)) [
      | inl (b, p) ↦ ground (
        arith,
        p,
        eq_iff id k,
        get-put id k (stamp_timeout now b) table,
        get-put id k (stamp d by now b) table,
      )
      | inr p ↦ ground arith
    ]

-- A row that is decided, by a human or by the clock, is left as it is, every field of it, by any sequence
-- of cards, decisions and sweeps.
pub decided_stays :
    (ops : List Op) (table : Dict Approval) (r : Redis) (k : String) (a : Approval) (d : String)
    → Dict.get k table ≡ some a
    → a.decision ≡ some d
    → Dict.get k (apply_all ops (table, r)).0 ≡ some a
decided_stays [] table r k a d h done = h
decided_stays (card now ttl run_id thread_id kind payload id ∷ ops) table r k a d h done =
    decided_stays ops (create_card now ttl run_id thread_id kind payload id table) r k a d
      (get-create_card now ttl run_id thread_id kind payload id k table a h) done
decided_stays (decision id dec by reason edited_args now ∷ ops) table r k a d h done =
    decided_stays ops (decide id dec by reason edited_args now table r).0
      (decide id dec by reason edited_args now table r).1 k a d
      (get-decide id dec by reason edited_args now table r k a d h done) done
decided_stays (sweep now ∷ ops) table r k a d h done =
    decided_stays ops (expire_stale now table).0 r k a d
      (rw (get-expire_stale now k table) (ground arith)) done

-- A decision that comes after the deadline of a pending card leaves the row that a sweep at that time
-- leaves, publishes nothing to the worker, and raises nothing.
late_decide :
    (id d : String) (by : ℕ) (reason : String) (edited_args : Option String) (now : ℕ)
    (table : Dict Approval) (r : Redis) (a : Approval)
    → Dict.get id table ≡ some a
    → a.decision ≡ none
    → is_expired a.expires_at now ≡ true
    → (Dict.get id (decide id d by reason edited_args now table r).0
        ≡ Dict.get id (expire_stale now table).0)
      × ((decide id d by reason edited_args now table r).1 ≡ r)
      × ((decide id d by reason edited_args now table r).2 ≡ ok (stamp_timeout now a))
unfolding decide
late_decide id d by reason edited_args now table r a h pending late =
    ground
      (arith, get-expire_stale now id table, get-put id id (stamp_timeout now a) table, eq_self id)
