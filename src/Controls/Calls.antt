-- ===== src/Controls/Calls.antt =====
-- The calls that the controls of a run make: what was called stays called, and every wait is made.
use z_agent.Base.{
  ℕ, String, ◌≡◌, refl, sym, ap, ◌∙◌, inl, inr, true, Option, none, some, List, [], ◌∷◌, ◌++◌,
  arith, str_eq, eq_iff, Bool-cases, Option-cases, elem,
}
use z_agent.Base.{Some}
use mathlib.Core.Path.{subst}
use z_agent.Base.Dict
use z_agent.Base.Dict.{Dict, get-put}
use z_agent.Approvals.{Approval}
use z_agent.Threads.{
  Thread, World, Services, Call, wait_for_container_exit, thread_status, approval_resolved, present,
  call, cleanup_terminal,
}
use z_agent.Threads.Cleanup.{cleanup_calls, cleanup_terminal_lem}
use z_agent.Controls.{announce_resolved, is_pending, cancel}
use z_agent.Controls.Abandon.{wait_all, clean_all}

-- Calls that were made stay made.
abbrev pub Made : Call → World → Type 0
Made c w = Some (λ x. x ≡ c) w.calls

cleanup_calls-made :
    (o : Option Thread) (c : Call) (cs : List Call)
    → Some (λ x. x ≡ c) cs
    → Some (λ x. x ≡ c) (cleanup_calls o cs)
unfolding cleanup_calls
cleanup_calls-made none c cs h = h
cleanup_calls-made (some t) c cs h = elim (Option-cases (present t.gateway_key)) [
  | inr bare ↦ rw (bare, cleanup_calls) h
  | inl (k, held) ↦ rw (held, cleanup_calls) (inr h)
]

pub clean_all-Made :
    (s : Services) (now : ℕ) (run_id : String) (ids : List String) (c : Call) (w : World)
    → Made c w
    → Made c (clean_all s now run_id ids w)
clean_all-Made s now run_id [] c w h = h
clean_all-Made s now run_id (id ∷ ids) c w h =
    clean_all-Made s now run_id ids c
      (call (thread_status run_id id "stopped") (cleanup_terminal s now id w))
      (inr (
        subst (Some (λ x. x ≡ c)) (sym ((cleanup_terminal_lem s now id w).3))
          (cleanup_calls-made (Dict.get id w.threads) c w.calls h)))

wait_all-Made_before :
    (s : Services) (cs : List String) (x : Call) (w : World) → Made x w → Made x (wait_all s cs w)
wait_all-Made_before s [] x w h = h
wait_all-Made_before s (c ∷ cs) x w h =
    wait_all-Made_before s cs x (call (wait_for_container_exit c (s.container_exits c)) w) (inr h)

pub wait_all-Made :
    (s : Services) (cs : List String) (c : String) (w : World)
    → elem c cs ≡ true
    → Made (wait_for_container_exit c (s.container_exits c)) (wait_all s cs w)
wait_all-Made s [] c w h = absurd (ground arith)
wait_all-Made s (d ∷ cs) c w h = elim (Bool-cases (str_eq d c)) [
  | inl here ↦
      wait_all-Made_before s cs (wait_for_container_exit c (s.container_exits c))
        (call (wait_for_container_exit d (s.container_exits d)) w)
        (inl (ap (λ e. wait_for_container_exit e (s.container_exits e)) ((eq_iff d c).0 here)))
  | inr other ↦
      wait_all-Made s cs c (call (wait_for_container_exit d (s.container_exits d)) w) (ground arith)
]

append_one : {A : Type 0} (xs : List A) (x : A) (ys : List A) → (xs ++ x ∷ []) ++ ys ≡ xs ++ x ∷ ys
append_one [] x ys = refl
append_one (y ∷ xs) x ys = ap (λ zs. y ∷ zs) (append_one xs x ys)

pub append_two :
    {A : Type 0} (xs : List A) (x y : A) (ys : List A) → xs ++ x ∷ y ∷ ys ≡ (xs ++ x ∷ y ∷ []) ++ ys
append_two [] x y ys = refl
append_two (z ∷ xs) x y ys = ap (λ zs. z ∷ zs) (append_two xs x y ys)

-- A cancel of the task forgets no call.
pub cancelled :
    (s : Services) (run_id : String) (w : World) (c : Call) → Made c w → Made c (cancel s run_id w)
cancelled s run_id w c h = elim (Bool-cases (s.task_running run_id)) [
  | inl runs ↦ rw runs (inr h)
  | inr idle ↦ rw idle h
]

-- The calls that announce the decided cards come last.
pub announced :
    (run_id decision : String) (d : Dict Approval) (cs : List Call)
    → (front : List Call) × (announce_resolved run_id decision none d cs ≡ front ++ cs)
announced run_id decision [] cs = ([], refl)
announced run_id decision ((id, a) ∷ d) cs = elim (Bool-cases (is_pending run_id none a)) [
  | inr done ↦ let rest = announced run_id decision d cs in (rest.0, rw done rest.1)
  | inl waits ↦
      let rest = announced run_id decision d (approval_resolved run_id id decision ∷ cs) in
      (
        rest.0 ++ approval_resolved run_id id decision ∷ [],
        rw waits (rest.1 ∙ sym (append_one rest.0 (approval_resolved run_id id decision) cs)),
      )
]
