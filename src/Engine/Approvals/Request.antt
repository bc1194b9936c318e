-- ===== src/Engine/Approvals/Request.antt =====
-- When the gate approves, with which args, and what it remembers.
use z_agent.Base.{
  String, ◌≡◌, refl, ◌⊎◌, inl, inr, Bool, true, false, not, ◌&&◌, ◌||◌, Option, none, some, List,
  ◌∷◌, arith, str_eq, Bool-cases, elem,
}
use z_agent.Engine.Permissions.{Args}
use z_agent.Engine.Gate.{is_destructive, reason_of}
use z_agent.Engine.Approvals.{
  Popped, channel_error, timed_out, popped, Answer, approved, denied, may_persist, answer_to,
  request,
}

abbrev pub is_approved : Answer → Bool
is_approved (approved via args) = true
is_approved (denied reason args) = false

abbrev pub args_of : Answer → Args
args_of (approved via args) = args
args_of (denied reason args) = args

abbrev pub says_yes : Option String → Bool
says_yes none = false
says_yes (some dec) = str_eq dec "always_allow" || (str_eq dec "allow" || str_eq dec "allow_once")

-- The answer is a dict whose decision approves.
abbrev pub is_yes : Popped → Bool
is_yes (channel_error e) = false
is_yes timed_out = false
is_yes (popped none) = false
is_yes (popped (some d)) = says_yes d.decision

module _ (destructive_search : String → Bool) (members : List String) (name : String)
    (args : Args) where
  abbrev pub is_remembered : Bool
  is_remembered = elem name members && not (is_destructive destructive_search name args)

  abbrev pub Answered : Bool → Answer × List String → Type 0
  Answered wanted out =
      (is_approved out.0 ≡ wanted)
      × (args_of out.0 ≡ args)
      × ((out.1 ≡ members)
          ⊎ ((out.1 ≡ name ∷ members) × (may_persist destructive_search name args ≡ true)))

  answer_to-Answered :
      (dec : Option String) (reason : String)
      → Answered (says_yes dec) (answer_to destructive_search dec reason members name args)
  unfolding answer_to
  answer_to-Answered none reason = (refl, refl, inl refl)
  answer_to-Answered (some dec) reason = ground arith

  -- The gate approves a call exactly when its class was remembered and it is not destructive, or when the answer
  -- is a dict whose decision approves: an error, a timeout and a malformed answer deny. The args that it
  -- returns are those of the request. And it remembers at most the call's own class, and only an
  -- allowable one of a call that is not destructive.
  pub request_lem :
      (answer : Popped)
      → Answered
          (is_remembered || is_yes answer)
          (request destructive_search answer members name args)
  unfolding request
  request_lem answer = elim (Bool-cases is_remembered) [
    | inl known ↦ rw known (refl, refl, inl refl)
    | inr fresh ↦
        elim answer
          as (λ a.
            Answered (is_remembered || is_yes a) (request destructive_search a members name args)) [
              | channel_error e ↦ rw fresh (refl, refl, inl refl)
              | timed_out ↦ rw fresh (refl, refl, inl refl)
              | popped p ↦
                  elim p
                    as (λ q.
                      Answered (is_remembered || is_yes (popped q))
                        (request destructive_search (popped q) members name args)) [
                          | none ↦ rw fresh (refl, refl, inl refl)
                          | some d ↦ rw fresh (answer_to-Answered d.decision (reason_of d))
                        ]
            ]
  ]
