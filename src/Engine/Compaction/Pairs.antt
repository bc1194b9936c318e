-- ===== src/Engine/Compaction/Pairs.antt =====
-- The repair of the tool pairs.
use z_agent.Base.{
  String, ◌≡◌, refl, sym, ap, ◌∙◌, ◌⊎◌, inl, inr, Bool, true, not, ◌&&◌, ◌||◌, List, [], ◌∷◌, ◌++◌,
  map, arith, str_eq, eq_iff, if◌then◌else◌, Bool-cases, all, filter, elem, eq_self, elem-append,
}
use z_agent.Engine.Compaction.{
  Message, tool_calls, tool_call_id, is_tool, call_ids, answered_ids, is_orphan, strip_calls,
  repair_tool_pairs,
}

-- A message's result is not an orphan, and each of its calls is answered.
abbrev pub is_paired : List String → List String → Message → Bool
is_paired calls answered m =
    not (is_orphan calls m) && all (λ c. elem c answered) (tool_calls m.kind)

elem-filter :
    (p : String → Bool) (c : String) (cs : List String)
    → elem c cs ≡ true
    → p c ≡ true
    → elem c (filter p cs) ≡ true
elem-filter p c [] h k = h
elem-filter p c (d ∷ cs) h k = elim (Bool-cases (str_eq d c)) [
  | inl same ↦
      let kept : p d ≡ true = rw ((eq_iff d c).0 same) k in rw (kept, filter) (ground arith)
  | inr other ↦
      let rest = elem-filter p c cs (ground arith) k in
      elim (Bool-cases (p d)) [
        | inl kept ↦ rw (kept, filter) (ground arith)
        | inr cut ↦ rw (cut, filter) rest
      ]
]

tool-calls : (m : Message) → is_tool m ≡ true → tool_calls m.kind ≡ []
tool-calls m h = ground arith

call_ids-filter :
    (calls : List String) (ms : List Message)
    → call_ids (filter (λ m. not (is_orphan calls m)) ms) ≡ call_ids ms
unfolding call_ids
call_ids-filter calls [] = refl
call_ids-filter calls (m ∷ ms) = elim (Bool-cases (is_orphan calls m)) [
  | inr kept ↦
      rw (kept, filter)
        (ap (λ cs. filter (λ c. not (str_eq c "")) (tool_calls m.kind) ++ cs)
          (call_ids-filter calls ms))
  | inl cut ↦ rw (cut, filter) (rw (tool-calls m (ground arith)) (call_ids-filter calls ms))
]

strip-answer :
    (a : List String) (m : Message)
    → (is_tool (strip_calls a m) ≡ is_tool m)
      × (tool_call_id (strip_calls a m).kind ≡ tool_call_id m.kind)
unfolding strip_calls
strip-answer a m = ground arith

answered_ids-strip :
    (a : List String) (ms : List Message) → answered_ids (map (strip_calls a) ms) ≡ answered_ids ms
unfolding answered_ids
answered_ids-strip a [] = refl
answered_ids-strip a (m ∷ ms) =
    let (same, id) = strip-answer a m in rw (same, id, answered_ids-strip a ms) refl

all-filter : {A : Type 0} (p : A → Bool) (cs : List A) → all p (filter p cs) ≡ true
all-filter p [] = refl
all-filter p (c ∷ cs) = ground (arith, all-filter p cs)

-- What is stripped has only answered calls, and keeps those.
strip-answered :
    (a : List String) (m : Message) → all (λ c. elem c a) (tool_calls (strip_calls a m).kind) ≡ true
unfolding strip_calls
strip-answered a m = elim (Bool-cases (all (λ c. elem c a) (tool_calls m.kind))) [
  | inl whole ↦ rw (whole, strip_calls) whole
  | inr part ↦ rw (part, strip_calls) (all-filter (λ c. elem c a) (tool_calls m.kind))
]

elem-cut :
    (p : String → Bool) (c : String) (cs : List String)
    → elem c (filter p cs) ≡ true
    → (elem c cs ≡ true) × (p c ≡ true)
elem-cut p c [] h = absurd (ground arith)
elem-cut p c (d ∷ cs) h = elim (Bool-cases (p d)) [
  | inr cut ↦
      let rest : elem c (filter p cs) ≡ true =
        sym (ap (λ b. elem c (if b then d ∷ filter p cs else filter p cs)) cut) ∙ h in
      let (found, holds) = elem-cut p c cs rest in (ground arith, holds)
  | inl kept ↦ elim (Bool-cases (str_eq d c)) [
    | inl same ↦ (ground arith, rw (← (eq_iff d c).0 same) kept)
    | inr other ↦
        let rest : elem c (d ∷ filter p cs) ≡ true =
          sym (ap (λ b. elem c (if b then d ∷ filter p cs else filter p cs)) kept) ∙ h in
        let (found, holds) = elem-cut p c cs (ground arith) in (ground arith, holds)
  ]
]

abbrev pub nonempty : String → Bool
nonempty c = not (str_eq c "")

-- A call that is answered is still made.
call_ids-strip :
    (a : List String) (c : String) (ms : List Message)
    → elem c (call_ids ms) ≡ true
    → elem c a ≡ true
    → elem c (call_ids (map (strip_calls a) ms)) ≡ true
unfolding call_ids strip_calls
call_ids-strip a c [] h k = h
call_ids-strip a c (m ∷ ms) h k =
    let own = filter nonempty (tool_calls m.kind) in
    let next = call_ids (map (strip_calls a) ms) in
    let here = filter nonempty (tool_calls (strip_calls a m).kind) in
    let parts : (elem c own || elem c (call_ids ms)) ≡ true =
      sym (elem-append c own (call_ids ms)) ∙ h in
    elem-append c here next ∙ elim (Bool-cases (elem c own)) [
      | inr later ↦ let rest = call_ids-strip a c ms (ground arith) k in ground arith
      | inl now ↦
          let (made, named) = elem-cut nonempty c (tool_calls m.kind) now in
          let kept : elem c here ≡ true =
            elim (Bool-cases (all (λ d. elem d a) (tool_calls m.kind))) [
              | inl whole ↦ rw (whole, strip_calls) now
              | inr part ↦
                  rw (part, strip_calls)
                    (elem-filter nonempty c (filter (λ d. elem d a) (tool_calls m.kind))
                      (elem-filter (λ d. elem d a) c (tool_calls m.kind) made k) named)
            ] in
          ground arith
    ]

all_self :
    (xs ys : List String)
    → ((c : String) → elem c xs ≡ true → elem c ys ≡ true)
    → all (λ c. elem c ys) xs ≡ true
all_self [] ys h = refl
all_self (x ∷ xs) ys h = ground (arith, h x, eq_self x, all_self xs ys (λ c k. h c (ground arith)))

paired-map :
    (calls a out : List String) (ms : List Message)
    → ((c : String) → elem c calls ≡ true → elem c a ≡ true → elem c out ≡ true)
    → all (λ m. not (is_orphan calls m)) ms ≡ true
    → all (λ i. elem i a) (answered_ids ms) ≡ true
    → all (is_paired out a) (map (strip_calls a) ms) ≡ true
unfolding answered_ids
paired-map calls a out [] h k l = refl
paired-map calls a out (m ∷ ms) h k l =
    let (same, id) = strip-answer a m in
    let calls_answered = strip-answered a m in
    let issued = h (tool_call_id m.kind) in
    let rest = paired-map calls a out ms h (ground arith) (ground arith) in
    let own : is_paired out a (strip_calls a m) ≡ true =
      rw (same, id, calls_answered) (ground arith) in
    ground arith

List-split :
    (xs : List String) → (xs ≡ []) ⊎ ((x : String) × (rest : List String) × (xs ≡ x ∷ rest))
List-split [] = inl refl
List-split (x ∷ rest) = inr (x, rest, refl)

repaired :
    (ms : List Message) (calls : List String)
    → call_ids ms ≡ calls
    → let kept = filter (λ m. not (is_orphan calls m)) ms in
      let out = map (strip_calls (answered_ids kept)) kept in
      all (is_paired (call_ids out) (answered_ids out)) out ≡ true
repaired ms calls h =
    let kept = filter (λ m. not (is_orphan calls m)) ms in
    let a = answered_ids kept in
    let out = map (strip_calls a) kept in
    rw (answered_ids-strip a kept) (
      paired-map calls a (call_ids out) kept
        (λ c made answered.
          call_ids-strip a c kept (ap (elem c) (call_ids-filter calls ms ∙ h) ∙ made) answered)
        (all-filter (λ m. not (is_orphan calls m)) ms) (all_self a a (λ c k. k)))

-- After the repair the messages are paired: each tool message answers a call that some message makes, and each call
-- of a message is answered by some tool message; but messages without any call are left as they are.
pub repair_tool_pairs-paired :
    (ms : List Message)
    → let out = repair_tool_pairs ms in
      ((call_ids ms ≡ []) × (out ≡ ms))
      ⊎ (all (is_paired (call_ids out) (answered_ids out)) out ≡ true)
unfolding repair_tool_pairs
repair_tool_pairs-paired ms = elim (List-split (call_ids ms)) [
  | inl none_made ↦ inl (none_made, rw (none_made, repair_tool_pairs) refl)
  | inr (c, cs, made) ↦ inr (rw (made, repair_tool_pairs) (repaired ms (c ∷ cs) made))
]
