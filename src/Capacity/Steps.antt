-- ===== src/Capacity/Steps.antt =====
-- Every step of the process keeps the invariant.
use z_agent.Base.{
  ℕ, ◌+◌, ◌≤◌, ◌<◌, String, ◌≡◌, refl, ap, ◌∙◌, inl, inr, Bool, true, false, ◌||◌, Option, none,
  some, List, [], ◌∷◌, ◌++◌, arith, str_eq, eq_iff, leb, if◌then◌else◌, Bool-cases, length, count,
  length-append, count-append, elem, ok,
}
use z_agent.Capacity.{
  ThreadRow, Capacity, writable, holds_capacity, scope_is, active_thread_count, is_on, threads_on,
  write_conflict, add_repo, discard_repo, reserve, try_acquire, commit_reservation,
}
use z_agent.Capacity.System.{System, MayBecome, pending_on, Inv}

elem-add_repo :
    (r : String) (o : Option String) (rs : List String)
    → elem r (add_repo o rs) ≡ (elem r rs || scope_is r o)
elem-add_repo r none rs = ground arith
elem-add_repo r (some q) rs = ground (arith, eq_iff q r)

elem-discard_repo :
    (r : String) (o : Option String) (rs : List String)
    → scope_is r o ≡ false
    → elem r (discard_repo o rs) ≡ elem r rs
elem-discard_repo r none rs h = refl
elem-discard_repo r (some q) [] h = refl
elem-discard_repo r (some q) (x ∷ rs) h =
    ground (arith, elem-discard_repo r (some q) rs, eq_iff q r, eq_iff x r, eq_iff x q)

-- What a granted acquisition says of the state that it met.
pub record Granted (cap : ℕ) (s : System) (repo : Option String) (c : Capacity) : Type 0 where
  pub reserved : c ≡ reserve repo s.capacity
  pub room : active_thread_count s.threads + s.capacity.reserved < cap
  pub free : write_conflict (writable repo) s.capacity s.threads ≡ false

pub try_acquire-Granted :
    (cap : ℕ) (s : System) (repo : Option String) (c : Capacity)
    → try_acquire cap false repo 0 "" [] s.threads s.capacity [] ≡ (c, [], ok tt)
    → Granted cap s repo c
unfolding try_acquire
try_acquire-Granted cap s repo c h =
    elim (Bool-cases (leb cap (active_thread_count s.threads + s.capacity.reserved))) [
      | inl full ↦ absurd (ground arith)
      | inr room ↦ elim (Bool-cases (write_conflict (writable repo) s.capacity s.threads)) [
        | inl busy ↦ absurd (ground arith)
        | inr free ↦ record { reserved = ground arith; room = ground arith; free = free }
      ]
    ]

-- A repo that a granted spawn may write is neither pending nor held by a live thread.
Granted-free :
    (cap : ℕ) (s : System) (repo : Option String) (c : Capacity) (r : String)
    → Inv cap s
    → Granted cap s repo c
    → str_eq r "" ≡ false
    → scope_is r repo ≡ true
    → threads_on r s.threads + pending_on r s.pending ≡ 0
unfolding write_conflict
Granted-free cap s none c r v g n e = absurd (cc)
Granted-free cap s (some q) c r v g n e =
    let same : q ≡ r = (eq_iff q r).0 e in
    let free : write_conflict (writable (some r)) s.capacity s.threads ≡ false =
      rw (← same) g.free in
    ground (arith, v.held r n)

scope_is-writable :
    (r : String) (repo : Option String)
    → str_eq r "" ≡ false
    → scope_is r (writable repo) ≡ scope_is r repo
scope_is-writable r none n = refl
scope_is-writable r (some q) n = ground (arith, eq_iff q r, eq_iff q "", eq_iff r "")

held_add :
    (r : String) (repo : Option String) (rs : List String) (pending : List (Option String))
    → str_eq r "" ≡ false
    → (0 < pending_on r pending → elem r rs ≡ true)
    → 0 < pending_on r (repo ∷ pending)
    → elem r (add_repo (writable repo) rs) ≡ true
unfolding pending_on
held_add r repo rs pending n h p =
    ground (arith, elem-add_repo r (writable repo) rs, scope_is-writable r repo n)

pub acquire-Inv :
    (cap : ℕ) (s : System) (repo : Option String) (c : Capacity)
    → Inv cap s
    → Granted cap s repo c
    → Inv cap (record s { capacity = c; pending = repo ∷ s.pending })
acquire-Inv cap s repo c v g = record {
  counted = rw g.reserved (unfold reserve in omega (arith, v.counted));
  fits = rw g.reserved (unfold reserve in omega (arith, g.room));
  single =
      λ r n. unfold pending_on in ground (arith, v.single r n, Granted-free cap s repo c r v g n);
  held = λ r n p.
      rw g.reserved
        (unfold reserve in held_add r repo s.capacity.reserved_writable s.pending n (v.held r n) p);
}

-- The end of a reservation, whether its row exists or its spawn failed.
pending_on-split :
    (r : String) (before after : List (Option String)) (repo : Option String)
    → pending_on r (before ++ repo ∷ after)
      ≡ pending_on r (before ++ after) + (if scope_is r repo then 1 else 0)
unfolding pending_on
pending_on-split r before after repo =
    ground (
      arith,
      count-append (scope_is r) before (repo ∷ after),
      count-append (scope_is r) before after,
    )

length-split :
    {A : Type 0} (before after : List A) (a : A)
    → length (before ++ a ∷ after) ≡ length (before ++ after) + 1
length-split before after a =
    omega (arith, length-append before (a ∷ after), length-append before after)

held_discard :
    (r : String) (repo : Option String) (rs : List String) (before after : List (Option String))
    → str_eq r "" ≡ false
    → pending_on r (before ++ repo ∷ after) ≤ 1
    → (0 < pending_on r (before ++ repo ∷ after) → elem r rs ≡ true)
    → 0 < pending_on r (before ++ after)
    → elem r (discard_repo (writable repo) rs) ≡ true
held_discard r repo rs before after n one h p = elim (Bool-cases (scope_is r repo)) [
  | inl same ↦ absurd (ground (arith, pending_on-split r before after repo))
  | inr other ↦
      elem-discard_repo r (writable repo) rs (scope_is-writable r repo n ∙ other)
      ∙ h (omega (arith, pending_on-split r before after repo))
]

module _ (cap : ℕ) (s : System) (before after : List (Option String)) (repo : Option String) where
  pub commit-Inv :
      Inv cap s
      → s.pending ≡ before ++ repo ∷ after
      → Inv cap (record {
        capacity = (commit_reservation false repo s.capacity []).0;
        threads = (record { status = "queued"; repo_scope = repo }) ∷ s.threads;
        pending = before ++ after;
      })
  unfolding commit_reservation
  commit-Inv v e =
      let len = length-split before after repo in
      let counted : s.capacity.reserved ≡ length (before ++ repo ∷ after) =
        v.counted ∙ ap length e in
      record {
        counted = omega (arith, len, counted);
        fits = unfold active_thread_count holds_capacity in omega (arith, len, counted, v.fits);
        single = λ r n.
            let one : threads_on r s.threads + pending_on r (before ++ repo ∷ after) ≤ 1 =
              rw e at (v.single r n) in
            unfold threads_on holds_capacity in
            ground (arith, one, pending_on-split r before after repo);
        held = λ r n p.
            let one : threads_on r s.threads + pending_on r (before ++ repo ∷ after) ≤ 1 =
              rw e at (v.single r n) in
            held_discard r repo s.capacity.reserved_writable before after n (omega arith)
              (rw e at (v.held r n)) p;
      }

  pub fail-Inv :
      Inv cap s
      → s.pending ≡ before ++ repo ∷ after
      → Inv cap (record s {
        capacity = (commit_reservation false repo s.capacity []).0;
        pending = before ++ after;
      })
  unfolding commit_reservation
  fail-Inv v e =
      let len = length-split before after repo in
      let counted : s.capacity.reserved ≡ length (before ++ repo ∷ after) =
        v.counted ∙ ap length e in
      record {
        counted = omega (arith, len, counted);
        fits = omega (arith, len, counted, v.fits);
        single = λ r n.
            let one : threads_on r s.threads + pending_on r (before ++ repo ∷ after) ≤ 1 =
              rw e at (v.single r n) in
            omega (arith, one, pending_on-split r before after repo);
        held = λ r n p.
            let one : threads_on r s.threads + pending_on r (before ++ repo ∷ after) ≤ 1 =
              rw e at (v.single r n) in
            held_discard r repo s.capacity.reserved_writable before after n (omega arith)
              (rw e at (v.held r n)) p;
      }

-- A thread that changes its status stays where it is, and holds capacity only if it did.
change-count :
    (p : ThreadRow → Bool) (before after : List ThreadRow) (t : ThreadRow) (status : String)
    → (p t ≡ false → p (record t { status = status }) ≡ false)
    → count p (before ++ (record t { status = status }) ∷ after) ≤ count p (before ++ t ∷ after)
change-count p before after t status h = ground (
  arith,
  count-append p before (t ∷ after),
  count-append p before ((record t { status = status }) ∷ after),
)

pub change-Inv :
    (cap : ℕ) (s : System) (before after : List ThreadRow) (t : ThreadRow) (status : String)
    → Inv cap s
    → s.threads ≡ before ++ t ∷ after
    → MayBecome t status
    → Inv cap (record s { threads = before ++ (record t { status = status }) ∷ after })
change-Inv cap s before after t status v e h = record {
  counted = v.counted;
  fits =
      let fits : active_thread_count (before ++ t ∷ after) + s.capacity.reserved ≤ cap =
        rw e at v.fits in
      unfold active_thread_count in
      omega (arith, fits, change-count holds_capacity before after t status h);
  single = λ r n.
      let single : threads_on r (before ++ t ∷ after) + pending_on r s.pending ≤ 1 =
        rw e at (v.single r n) in
      unfold threads_on in
      omega (
        arith,
        single,
        change-count (is_on r) before after t status (unfold is_on in ground (arith, h)),
      );
  held = v.held;
}
