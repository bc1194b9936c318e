-- ===== src/Capacity/Replicas.antt =====
-- Several replicas: the reservations table, and what a release frees.
use z_agent.Base.{
  ℕ, ◌+◌, ◌≤◌, ◌<◌, String, ◌≡◌, ◌⊎◌, inl, inr, Bool, true, false, not, Option, none, some, List,
  [], ◌∷◌, ◌++◌, arith, str_eq, eq_iff, ltb, length, filter, count, count-append, eq_self, Result,
  ok,
}
use z_agent.Capacity.{
  Capacity, Reservation, Refusal, scope_is, reservations_on, insert_reservation, sweep, db_reserve,
  db_release, commit_reservation, repo_conflict,
}

-- The unique partial index: no repo has two rows.
abbrev pub IsUnique : List Reservation → Type 0
IsUnique table = (r : String) → reservations_on r table ≤ 1

count-filter-le {ℓ} :
    {A : Type ℓ} (p q : A → Bool) (xs : List A) → count p (filter q xs) ≤ count p xs
count-filter-le p q [] = omega arith
count-filter-le p q (x ∷ xs) = ground (arith, count-filter-le p q xs)

reservations_on-append :
    (r : String) (xs ys : List Reservation)
    → reservations_on r (xs ++ ys) ≡ reservations_on r xs + reservations_on r ys
unfolding reservations_on
reservations_on-append r xs ys = count-append (λ v. scope_is r v.repo_scope) xs ys

reservations_on-sweep :
    (r : String) (now : ℕ) (table : List Reservation)
    → reservations_on r (sweep now table) ≤ reservations_on r table
unfolding reservations_on sweep
reservations_on-sweep r now table = count-filter-le (λ v. scope_is r v.repo_scope) _ table

no_conflict :
    (o : Option String) (r : String) (table : List Reservation)
    → repo_conflict o table ≡ false
    → scope_is r o ≡ true
    → reservations_on r table ≡ 0
unfolding repo_conflict
no_conflict none r table h e = absurd (cc)
no_conflict (some q) r table h e =
    let same : q ≡ r = (eq_iff q r).0 e in
    let free : ltb 0 (reservations_on r table) ≡ false = rw (← same) h in ground arith

-- An insert adds its row, and only where no row has its repo.
insert_reservation-some :
    (row : Reservation) (table table' : List Reservation)
    → insert_reservation row table ≡ some table'
    → (table' ≡ row ∷ table) × (repo_conflict row.repo_scope table ≡ false)
unfolding insert_reservation
insert_reservation-some row table table' h = (ground arith, ground arith)

insert-IsUnique :
    (row : Reservation) (table table' : List Reservation)
    → IsUnique table
    → insert_reservation row table ≡ some table'
    → IsUnique table'
insert-IsUnique row table table' u h r =
    let (e, free) = insert_reservation-some row table table' h in
    rw e (unfold reservations_on in ground (arith, u r, no_conflict row.repo_scope r table free))

-- What a granted reservation leaves.
module _ (cap active now : ℕ) (repo : Option String) (token : String) (between : List Reservation)
    (c : Capacity) (table : List Reservation) where
  abbrev reserved_row : Reservation
  reserved_row = record { token = token; repo_scope = repo; created_at = now }

  abbrev outcome : Capacity × List Reservation × Result Refusal (Unit {0})
  outcome = db_reserve cap active repo now token between c table

  outcome_table :
      (outcome.1 ≡ table)
      ⊎ (outcome.1 ≡ between ++ table)
      ⊎ (insert_reservation reserved_row (between ++ sweep now table) ≡ some outcome.1)
  unfolding db_reserve
  outcome_table = ground arith

  outcome_ok :
      outcome.2 ≡ ok tt
      → (insert_reservation reserved_row (between ++ sweep now table) ≡ some outcome.1)
        × (outcome.0.db_tokens ≡ (token, repo) ∷ c.db_tokens)
        × (active + length (sweep now table) < cap)
  unfolding db_reserve
  outcome_ok h = ground arith

  IsUnique-swept : IsUnique (between ++ table) → IsUnique (between ++ sweep now table)
  IsUnique-swept u r = omega (
    arith,
    u r,
    reservations_on-append r between table,
    reservations_on-append r between (sweep now table),
    reservations_on-sweep r now table,
  )

  -- Whatever the other replicas commit between the check and the insert, as long as the table with
  -- their rows has no repo twice, so has the table that is left; and a granted reservation is the one
  -- row of its repo, made while the threads and the rows that are not stale were below the cap.
  pub db_reserve_lem :
      IsUnique (between ++ table)
      → IsUnique outcome.1
        × (outcome.2 ≡ ok tt
            → ((r : String) → scope_is r repo ≡ true → reservations_on r outcome.1 ≡ 1)
              × (active + length (sweep now table) < cap))
  db_reserve_lem u = (
    λ r. elim outcome_table [
      | inl e ↦ rw e (omega (arith, u r, reservations_on-append r between table))
      | inr (inl e) ↦ rw e (u r)
      | inr (inr e) ↦
          insert-IsUnique reserved_row (between ++ sweep now table) outcome.1 (IsUnique-swept u) e r
    ],
    λ h.
        let (inserted, _, room) = outcome_ok h in
        let (e, free) =
          insert_reservation-some reserved_row (between ++ sweep now table) outcome.1 inserted in
        (
          λ r s. rw e (
              let none_yet : reservations_on r (between ++ sweep now table) ≡ 0 =
                no_conflict repo r (between ++ sweep now table) free s in
              unfold reservations_on in ground (arith, none_yet)),
          room,
        ),
  )

-- A process with two reservations in flight, on `a` and then on `b`: committing the one on `a` deletes
-- the row of `b` and keeps that of `a`. So another replica finds `b` free while its spawn is still
-- in flight, and `a` taken.
pub commit-frees_last_reserved :
    (a b ta tb : String) (na nb : ℕ) (c : Capacity) (tokens : List (String × Option String))
    (others : List Reservation)
    → c.db_tokens ≡ (tb, some b) ∷ (ta, some a) ∷ tokens
    → str_eq ta tb ≡ false
    → str_eq a b ≡ false
    → reservations_on a others ≡ 0
    → reservations_on b others ≡ 0
    → let table =
        (commit_reservation true (some a) c (
          (record { token = tb; repo_scope = some b; created_at = nb })
          ∷ (record { token = ta; repo_scope = some a; created_at = na })
          ∷ others)).1 in
      (reservations_on b table ≡ 0) × (1 ≤ reservations_on a table)
unfolding commit_reservation db_release reservations_on
commit-frees_last_reserved a b ta tb na nb c tokens others held ne_t ne_r free_a free_b = rw held (
    ground (
      arith,
      eq_self tb,
      eq_self a,
      eq_iff ta tb,
      eq_iff a b,
      count-filter-le (λ (v : Reservation). scope_is b v.repo_scope) (λ v. not (str_eq v.token tb))
          others,
    ))
