-- ===== src/Engine/Background/Window.antt =====
-- The last lines of a growing list.
use z_agent.Base.{
  ℕ, zero, suc, ◌+◌, ◌-◌, ◌≤◌, String, ◌≡◌, refl, sym, ap, ◌∙◌, List, [], ◌∷◌, ◌++◌, arith, length,
  drop, length-append, length-drop,
}
use z_agent.Engine.Background.{keep_last}

drop-append : (n : ℕ) (xs ys : List String) → n ≤ length xs → drop n (xs ++ ys) ≡ drop n xs ++ ys
drop-append zero xs ys h = refl
drop-append (suc n) [] ys h = absurd (omega arith)
drop-append (suc n) (x ∷ xs) ys h = drop-append n xs ys (omega arith)

drop_nil : (n : ℕ) → drop {A = String} n [] ≡ []
drop_nil zero = refl
drop_nil (suc n) = refl

drop-drop : (m n : ℕ) (xs : List String) → drop n (drop m xs) ≡ drop (m + n) xs
drop-drop zero n xs = let e : n ≡ 0 + n = omega arith in ap (λ k. drop k xs) e
drop-drop (suc m) n [] = drop_nil n ∙ sym (drop_nil (suc m + n))
drop-drop (suc m) n (x ∷ xs) =
    let e : suc (m + n) ≡ suc m + n = omega arith in drop-drop m n xs ∙ ap (λ k. drop k (x ∷ xs)) e

pub append_nil : (xs : List String) → xs ++ [] ≡ xs
append_nil [] = refl
append_nil (x ∷ xs) = ap (λ ys. x ∷ ys) (append_nil xs)

pub append_assoc : (xs ys zs : List String) → (xs ++ ys) ++ zs ≡ xs ++ (ys ++ zs)
append_assoc [] ys zs = refl
append_assoc (x ∷ xs) ys zs = ap (λ ws. x ∷ ws) (append_assoc xs ys zs)

-- What is kept of what was kept, with more behind it, is what is kept of all.
pub keep_last-append :
    (n : ℕ) (xs ys : List String) → keep_last n (keep_last n xs ++ ys) ≡ keep_last n (xs ++ ys)
keep_last-append n xs ys =
    let cut = length xs - n in
    let whole : keep_last n xs ++ ys ≡ drop cut (xs ++ ys) =
      sym (drop-append cut xs ys (omega arith)) in
    let size : length (keep_last n xs ++ ys) ≡ length xs - cut + length ys =
      length-append (keep_last n xs) ys ∙ ap (λ k. k + length ys) (length-drop cut xs) in
    let left = length (keep_last n xs ++ ys) - n in
    let all_cut : cut + left ≡ length (xs ++ ys) - n = omega (arith, size, length-append xs ys) in
    ap (drop left) whole ∙ (drop-drop cut left (xs ++ ys) ∙ ap (λ k. drop k (xs ++ ys)) all_cut)
