-- ===== src/Approvals/Once.antt =====
-- A worker is sent one decision at most.
use z_agent.Base.{
  ℕ, suc, String, ◌≡◌, refl, ap, ◌∙◌, ◌≢◌, ◌⊎◌, inl, inr, true, false, Option, none, some, List, [],
  ◌∷◌, ◌++◌, arith, str_eq, eq_iff, if◌then◌else◌, Bool-cases, Option-cases, length, length-append,
}
use z_agent.Base.Dict
use z_agent.Base.Dict.{Dict, get-put}
use z_agent.Approvals.{
  Approval, Verdict, dict, Redis, worker_decision, worker_reason, is_expired, stamp, list_of,
  resolve_approval, decide,
}
use z_agent.Approvals.Rows.{Op, card, decision, sweep, apply, apply_all, decided_stays}

-- Nothing was sent, or one decision was and the row is decided.
abbrev pub IsSettled : String → Dict Approval × Redis → Type 0
IsSettled k (table, r) =
    (length (list_of k r) ≡ 0)
    ⊎ ((length (list_of k r) ≡ 1)
        × (a : Approval) × (d : String) × (Dict.get k table ≡ some a)
        × (a.decision ≡ some d))

list_of-resolve_approval :
    (id k : String) (v : Verdict) (r : Redis)
    → length (list_of k (resolve_approval id v r))
      ≡ (if str_eq id k then suc (length (list_of k r)) else length (list_of k r))
unfolding resolve_approval
list_of-resolve_approval id k v r = ground (
  arith,
  eq_iff id k,
  get-put id k (list_of id r ++ (dict v ∷ [])) r.decision_lists,
  length-append (list_of id r) (dict v ∷ []),
)

module _ (id d : String) (by : ℕ) (reason : String) (edited_args : Option String) (now : ℕ)
    (table : Dict Approval) (r : Redis) where
  abbrev outcome : Dict Approval × Redis
  outcome = let out = decide id d by reason edited_args now table r in (out.0, out.1)

  abbrev sent : Verdict
  sent = record {
    decision = some (worker_decision d);
    reason = worker_reason d reason;
    edited_args = edited_args;
  }

  decide_late :
      (a : Approval)
      → Dict.get id table ≡ some a
      → (a.decision ≢ none) ⊎ (is_expired a.expires_at now ≡ true)
      → outcome.1 ≡ r
  unfolding decide
  decide_late a p h = ground arith

  decide_sends :
      (a : Approval)
      → Dict.get id table ≡ some a
      → a.decision ≡ none
      → is_expired a.expires_at now ≡ false
      → outcome ≡ (Dict.put id (stamp d by now a) table, resolve_approval id sent r)
  unfolding decide
  decide_sends a p h e =
      rw (p, outcome, decide) (rw (h, outcome, decide) (rw (e, outcome, decide) refl))

  decide_missing : Dict.get id table ≡ none → outcome.1 ≡ r
  unfolding decide
  decide_missing p = ground arith

  sends :
      (k : String) (b : Approval)
      → Dict.get id table ≡ some b
      → b.decision ≡ none
      → outcome ≡ (Dict.put id (stamp d by now b) table, resolve_approval id sent r)
      → (length (list_of k outcome.1) ≡ length (list_of k r))
        ⊎ ((length (list_of k outcome.1) ≡ suc (length (list_of k r)))
            × (a : Approval) × (Dict.get k table ≡ some a)
            × (a.decision ≡ none)
            × (Dict.get k outcome.0 ≡ some (stamp d by now a)))
  sends k b p q out =
      let sizes : length (list_of k outcome.1) ≡ length (list_of k (resolve_approval id sent r)) =
        ap (λ o. length (list_of k o.1)) out in
      let row : Dict.get k outcome.0 ≡ Dict.get k (Dict.put id (stamp d by now b) table) =
        ap (λ o. Dict.get k o.0) out in
      elim (Bool-cases (str_eq id k)) [
        | inl same ↦ inr (
          sizes ∙ (list_of-resolve_approval id k sent r ∙ rw same refl),
          b,
          rw (← (eq_iff id k).0 same) p,
          q,
          row ∙ (get-put id k (stamp d by now b) table ∙ rw same refl),
        )
        | inr other ↦ inl (sizes ∙ (list_of-resolve_approval id k sent r ∙ rw other refl))
      ]

  -- A call sends nothing, unless the row was pending; then it is decided.
  decide-list :
      (k : String)
      → (length (list_of k outcome.1) ≡ length (list_of k r))
        ⊎ ((length (list_of k outcome.1) ≡ suc (length (list_of k r)))
            × (a : Approval) × (Dict.get k table ≡ some a)
            × (a.decision ≡ none)
            × (Dict.get k outcome.0 ≡ some (stamp d by now a)))
  decide-list k = elim (Option-cases (Dict.get id table)) [
    | inl (b, p) ↦ elim (Option-cases b.decision) [
      | inl (old, q) ↦ inl (ap (λ t. length (list_of k t)) (decide_late b p (ground arith)))
      | inr q ↦ elim (Bool-cases (is_expired b.expires_at now)) [
        | inl late ↦ inl (ap (λ t. length (list_of k t)) (decide_late b p (inr late)))
        | inr early ↦ sends k b p q (decide_sends b p q early)
      ]
    ]
    | inr p ↦ inl (ap (λ t. length (list_of k t)) (decide_missing p))
  ]

apply-IsSettled :
    (k : String) (op : Op) (s : Dict Approval × Redis) → IsSettled k s → IsSettled k (apply op s)
apply-IsSettled k (card now ttl run_id thread_id kind payload id) (table, r) (inl z) = inl z
apply-IsSettled k (sweep now) (table, r) (inl z) = inl z
apply-IsSettled k (card now ttl run_id thread_id kind payload id) (table, r)
      (inr (one, a, d, p, q)) =
    inr (
      one,
      a,
      d,
      decided_stays (card now ttl run_id thread_id kind payload id ∷ []) table r k a d p q,
      q,
    )
apply-IsSettled k (sweep now) (table, r) (inr (one, a, d, p, q)) =
    inr (one, a, d, decided_stays (sweep now ∷ []) table r k a d p q, q)
apply-IsSettled k (decision id dec by reason edited_args now) (table, r) (inr (one, a, d, p, q)) =
    elim (decide-list id dec by reason edited_args now table r k) [
      | inl same ↦ inr (
        same ∙ one,
        a,
        d,
        decided_stays (decision id dec by reason edited_args now ∷ []) table r k a d p q,
        q,
      )
      | inr (_, b, p', q', _) ↦ absurd (ground arith)
    ]
apply-IsSettled k (decision id d by reason edited_args now) (table, r) (inl z) =
    elim (decide-list id d by reason edited_args now table r k) [
      | inl same ↦ inl (same ∙ z)
      | inr (more, a, p, q, row) ↦ inr (more ∙ ap suc z, stamp d by now a, d, row, refl)
    ]

apply_all-IsSettled :
    (k : String) (ops : List Op) (s : Dict Approval × Redis)
    → IsSettled k s
    → IsSettled k (apply_all ops s)
apply_all-IsSettled k [] s v = v
apply_all-IsSettled k (op ∷ ops) s v =
    apply_all-IsSettled k ops (apply op s) (apply-IsSettled k op s v)

-- However cards come, users decide and the sweep runs, the worker is sent at most one decision of an
-- approval of which none was sent before; and if one was, its row is decided.
pub sent_once :
    (ops : List Op) (table : Dict Approval) (r : Redis) (k : String)
    → length (list_of k r) ≡ 0
    → IsSettled k (apply_all ops (table, r))
sent_once ops table r k z = apply_all-IsSettled k ops (table, r) (inl z)
