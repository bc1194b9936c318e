-- ===== src/Approvals/Bridge.antt =====
-- A decision on its way to the worker: published once, and read as it was meant.
use mathlib.Core.Path.{subst}
use z_agent.Base.{Result, [], ◌∷◌, sym, if◌then◌else◌}
use z_agent.Approvals.{denied, not_json, ReadError, channel_error, timed_out}
use z_agent.Base.{
  ℕ, String, ◌≡◌, refl, ap, ◌↔◌, ◌⊎◌, inl, inr, Bool, true, false, not, ◌||◌, Option, none, some,
  arith, str_eq, eq_iff, Bool-cases, elem, eq_self, ok, raise,
}
use z_agent.Base.Dict
use z_agent.Base.Dict.{Dict, get-put}
use z_agent.Approvals.{
  Approval, Verdict, Payload, not_dict, dict, Redis, worker_decisions, worker_decision,
  worker_reason, is_expired, resolve_approval, decide, known_decisions, attribute_error,
  read_decision, Popped, answered, wait_decision,
}

-- The decisions that let a tool run.
abbrev pub is_approving : String → Bool
is_approving d =
    str_eq "allow" d
    || (str_eq "allow_once" d
        || (str_eq "always_allow" d || (str_eq "edited_allow" d || str_eq "approved" d)))

worker_decision_lem :
    (d : String)
    → ◌≡◌ {A = Bool × Bool}
        (str_eq (worker_decision d) "deny", elem (worker_decision d) known_decisions)
        (not (is_approving d), true)
unfolding worker_decision worker_decisions known_decisions Dict.get
worker_decision_lem d = elim (Bool-cases (str_eq "allow" d)) [
  | inl h ↦ rw (← (eq_iff "allow" d).0 h) refl
  | inr n0 ↦ elim (Bool-cases (str_eq "allow_once" d)) [
    | inl h ↦ rw (← (eq_iff "allow_once" d).0 h) refl
    | inr n1 ↦ elim (Bool-cases (str_eq "always_allow" d)) [
      | inl h ↦ rw (← (eq_iff "always_allow" d).0 h) refl
      | inr n2 ↦ elim (Bool-cases (str_eq "edited_allow" d)) [
        | inl h ↦ rw (← (eq_iff "edited_allow" d).0 h) refl
        | inr n3 ↦ elim (Bool-cases (str_eq "deny" d)) [
          | inl h ↦ rw (← (eq_iff "deny" d).0 h) refl
          | inr n4 ↦ elim (Bool-cases (str_eq "deny_tool" d)) [
            | inl h ↦ rw (← (eq_iff "deny_tool" d).0 h) refl
            | inr n5 ↦ elim (Bool-cases (str_eq "approved" d)) [
              | inl h ↦ rw (← (eq_iff "approved" d).0 h) refl
              | inr n6 ↦ elim (Bool-cases (str_eq "rejected" d)) [
                | inl h ↦ rw (← (eq_iff "rejected" d).0 h) refl
                | inr n7 ↦
                    rw (n0, worker_decision)
                      (rw (n1, worker_decision)
                        (rw (n2, worker_decision)
                          (rw (n3, worker_decision)
                            (rw (n4, worker_decision)
                              (rw (n5, worker_decision)
                                (rw (n6, worker_decision) (rw (n7, worker_decision) refl)))))))
              ]
            ]
          ]
        ]
      ]
    ]
  ]
]

worker_decision-known : (d : String) → elem (worker_decision d) known_decisions ≡ true
worker_decision-known d = ap (λ p. p.1) (worker_decision_lem d)

abbrev pub sent : String → String → Option String → Verdict
sent d reason edited_args = record {
  decision = some (worker_decision d);
  reason = worker_reason d reason;
  edited_args = edited_args;
}

read_decision-sent :
    (d reason : String) (edited_args : Option String)
    → read_decision (dict (sent d reason edited_args)) ≡ ok (sent d reason edited_args)
unfolding read_decision
read_decision-sent d reason edited_args = rw (worker_decision-known d) refl

-- A decision of a user on a pending card in time: whatever the worker's blocking pop returns, the worker
-- reads that decision from the durable copy, in the worker's words, with its reason and its edited args; and
-- it is read as a denial unless the user's word is one of those that approve.
pub decide-wait_decision :
    (id d : String) (by : ℕ) (reason : String) (edited_args : Option String) (now : ℕ)
    (table : Dict Approval) (r : Redis) (a : Approval) (popped : Popped)
    → Dict.get id table ≡ some a
    → a.decision ≡ none
    → is_expired a.expires_at now ≡ false
    → (wait_decision
          (Dict.get id (decide id d by reason edited_args now table r).1.decision_values)
          popped
        ≡ ok (sent d reason edited_args))
      × (str_eq (worker_decision d) "deny" ≡ not (is_approving d))
unfolding decide resolve_approval wait_decision
decide-wait_decision id d by reason edited_args now table r a popped h pending early =
    let found : Dict.get id (decide id d by reason edited_args now table r).1.decision_values
        ≡ some (dict (sent d reason edited_args)) =
      ground
        (arith, eq_self id, get-put id id (dict (sent d reason edited_args)) r.decision_values) in
    (rw found (read_decision-sent d reason edited_args), ap (λ p. p.0) (worker_decision_lem d))

-- The decisions that a worker acts on.
abbrev pub IsKnown : Option String → Type 0
IsKnown none = ⊥
IsKnown (some d) =
    elem d ("allow" ∷ "allow_once" ∷ "always_allow" ∷ "edited_allow" ∷ "deny" ∷ []) ≡ true

abbrev answered_with : Verdict → Result ReadError Verdict
answered_with v = ok v

-- What the test of the payload's word lets through.
named :
    (u v : Verdict) (o : Option String)
    → u.decision ≡ o
    → (elim o [
      | none ↦ ok (denied "unknown decision — denied")
      | some d ↦ if elem d known_decisions then ok u else ok (denied "unknown decision — denied")
    ])
      ≡ answered_with v
    → (v.decision ≡ some "deny") ⊎ (IsKnown v.decision × (dict u ≡ dict v))
unfolding known_decisions
named u v none word h = inl (ground arith)
named u v (some d) word h = elim (Bool-cases (elem d known_decisions)) [
  | inr unknown ↦ inl (ground arith)
  | inl known ↦
      let same : u ≡ v = ground arith in
      inr (subst (λ x. IsKnown x.decision) same (subst IsKnown (sym word) known), ap dict same)
]

read_decision-ok :
    (p : Payload) (v : Verdict)
    → read_decision p ≡ ok v
    → (v.decision ≡ some "deny") ⊎ (IsKnown v.decision × (p ≡ dict v))
unfolding read_decision
read_decision-ok not_json v h = inl (ground arith)
read_decision-ok not_dict v h = absurd (ground arith)
read_decision-ok (dict u) v h = named u v u.decision refl h

answer :
    (durable : Option Payload) (popped : Popped) (v : Verdict)
    → wait_decision durable popped ≡ ok v
    → (v.decision ≡ some "deny")
      ⊎ (IsKnown v.decision
          × ((durable ≡ some (dict v)) ⊎ ((durable ≡ none) × (popped ≡ answered (dict v)))))
unfolding wait_decision
answer (some p) popped v h = elim (read_decision-ok p v h) [
  | inl deny ↦ inl deny
  | inr (known, same) ↦ inr (known, inl (ap some same))
]
answer none (channel_error e) v h = inl (ground arith)
answer none timed_out v h = inl (ground arith)
answer none (answered p) v h = elim (read_decision-ok p v h) [
  | inl deny ↦ inl deny
  | inr (known, same) ↦ inr (known, inr (refl, ap answered same))
]

-- The broker fails closed: what it returns is the payload's own verdict, and that names one of the five known
-- decisions, or else it is a denial; and it raises exactly on a payload that is no dict.
pub wait_decision_iff :
    (durable : Option Payload) (popped : Popped)
    → ((v : Verdict)
        → wait_decision durable popped ≡ ok v
        → (v.decision ≡ some "deny")
          ⊎ (IsKnown v.decision
              × ((durable ≡ some (dict v)) ⊎ ((durable ≡ none) × (popped ≡ answered (dict v))))))
      × ((wait_decision durable popped ≡ raise attribute_error)
          ↔ ((durable ≡ some not_dict) ⊎ ((durable ≡ none) × (popped ≡ answered not_dict))))
unfolding wait_decision read_decision
wait_decision_iff durable popped = (λ v h. answer durable popped v h, ground arith)
