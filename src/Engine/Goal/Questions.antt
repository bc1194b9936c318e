-- ===== src/Engine/Goal/Questions.antt =====
-- The clarifying questions on their way from ask_user to the state.
use z_agent.Base.{
  ◌≤◌, String, ◌≡◌, refl, ap, ◌∙◌, ◌↔◌, Bool, true, false, not, ◌&&◌, none, some, List, [], ◌∷◌,
  arith, str_eq, leb, length, all, eq_self,
}
use z_agent.Base.Dict
use z_agent.Base.Dict.{Dict, get-put, get-remove}
use z_agent.Engine.Goal.{Question, Pending, ask_user, take_pending, question_error}

-- A question that ask_user accepts.
abbrev pub is_askable : Question → Bool
is_askable q = not (str_eq q.prompt "") && leb 2 (length q.options)

question_error_iff : (qs : List Question) → (question_error qs ≡ none) ↔ (all is_askable qs ≡ true)
question_error_iff [] = (λ h. refl, λ h. refl)
question_error_iff (q ∷ qs) = ground (arith, question_error_iff qs)

-- The questions are accepted exactly when they are two to four, each with a prompt and two options or more.
ask_user_iff :
    (thread_id : String) (qs : List Question) (p : Pending)
    → ((ask_user thread_id qs p).1 ≡ true)
      ↔ ((2 ≤ length qs) × (length qs ≤ 4) × (all is_askable qs ≡ true))
unfolding ask_user
ask_user_iff thread_id qs p = ground (arith, question_error_iff qs)

staged :
    (thread_id : String) (qs : List Question) (p : Pending)
    → (ask_user thread_id qs p).1 ≡ true
    → (ask_user thread_id qs p).0 ≡ Dict.put thread_id qs p
unfolding ask_user
staged thread_id qs p h = ground arith

-- Questions that ask_user accepts in a thread are what is then taken for the thread, and they are taken once: none
-- are left for it; and whatever questions any other thread has staged are as they were.
ask_user-take_pending :
    (thread_id other : String) (qs : List Question) (p : Pending)
    → (ask_user thread_id qs p).1 ≡ true
    → let taken = take_pending thread_id (ask_user thread_id qs p).0 in
      (taken.0 ≡ some qs)
      × (Dict.get thread_id taken.1 ≡ none)
      × ((str_eq thread_id other ≡ false) → Dict.get other taken.1 ≡ Dict.get other p)
unfolding take_pending
ask_user-take_pending thread_id other qs p h =
    let put = staged thread_id qs p h in
    let next = (ask_user thread_id qs p).0 in
    (
      ap (Dict.get thread_id) put
          ∙ (get-put thread_id thread_id qs p ∙ rw (eq_self thread_id) refl),
      get-remove thread_id thread_id next ∙ rw (eq_self thread_id) refl,
      λ d.
          get-remove thread_id other next
          ∙ (rw d (ap (Dict.get other) put) ∙ (get-put thread_id other qs p ∙ rw d refl)),
    )
