-- ===== src/Base/Text.antt =====
-- Text as code points, and the membership test of a list or set of texts.
use Prim.Native.Nat.{ℕ, zero, suc}
use Prim.Native.Char.{code}
use Prim.Native.String.{String}
use mathlib.Core.Path.{◌≡◌, refl}
use mathlib.Core.Bool.{Bool, true, false, ◌||◌, ◌&&◌}
use mathlib.Core.List.{List, [], ◌∷◌, ◌++◌}
use native.Mathlib.Omega.{arith}
use z_agent.Base.Tests.{◌==◌ as nat_eq}
use text.Mathlib.Text.{◌==◌}
use text.Mathlib.TextPositions.{eq_refl}

abbrev pub codes : String → List ℕ
codes String.[] = []
codes (String.◌∷◌ c s) = code c ∷ codes s

-- `k in ks`
abbrev pub elem : String → List String → Bool
elem k [] = false
elem k (j ∷ ks) = j == k || elem k ks

pub eq_self : (k : String) → (k == k) ≡ true
eq_self k = eq_refl k

pub elem-append : (k : String) (xs ys : List String) → elem k (xs ++ ys) ≡ (elem k xs || elem k ys)
elem-append k [] ys = refl
elem-append k (x ∷ xs) ys = ground (arith, elem-append k xs ys)

-- `s[:n]`, in characters.
unfoldable pub take_text : ℕ → String → String
take_text zero s = String.[]
take_text (suc n) String.[] = String.[]
take_text (suc n) (String.◌∷◌ c s) = String.◌∷◌ c (take_text n s)

-- `s.startswith(t)` and `t in s`, on code points.
abbrev pub starts_codes : List ℕ → List ℕ → Bool
starts_codes [] s = true
starts_codes (c ∷ t) [] = false
starts_codes (c ∷ t) (d ∷ s) = nat_eq c d && starts_codes t s

abbrev pub contains_codes : List ℕ → List ℕ → Bool
contains_codes t [] = starts_codes t []
contains_codes t (d ∷ s) = starts_codes t (d ∷ s) || contains_codes t s

-- `t in s`
unfoldable pub contains : String → String → Bool
contains t s = contains_codes (codes t) (codes s)
