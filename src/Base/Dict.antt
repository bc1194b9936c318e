-- ===== src/Base/Dict.antt =====
-- Python's `dict` with text keys, as an association list in insertion order: a write to a present
-- key stays in place, a new key goes last.
use Prim.Native.String.{String}
use Prim.Native.Nat.{ℕ, suc, ◌+◌}
use mathlib.Core.Path.{◌≡◌, refl}
use mathlib.Core.Bool.{Bool}
use mathlib.Core.List.{List, [], ◌∷◌}
use mathlib.Core.Option.{Option, none, some}
use native.Mathlib.Omega.{arith}
use text.Mathlib.Text.{◌==◌}
use text.Mathlib.TextEquality.{eq_iff}
use z_agent.Base.Tests.{if◌then◌else◌}

abbrev pub Dict {ℓ} : Type ℓ → Type ℓ
Dict V = List (String × V)

module _ {ℓ} {V : Type ℓ} where
  -- `d.get(k)`
  unfoldable pub get : String → Dict V → Option V
  get k [] = none
  get k ((j, v) ∷ d) = if j == k then some v else get k d

  -- `d[k] = v`
  unfoldable pub put : String → V → Dict V → Dict V
  put k v [] = (k, v) ∷ []
  put k v ((j, w) ∷ d) = if j == k then (j, v) ∷ d else (j, w) ∷ put k v d

  -- `d.pop(k, None)`
  unfoldable pub remove : String → Dict V → Dict V
  remove k [] = []
  remove k ((j, v) ∷ d) = let rest = remove k d in if j == k then rest else (j, v) ∷ rest

  pub get-put :
      (k j : String) (v : V) (d : Dict V) → get j (put k v d) ≡ (if k == j then some v else get j d)
  unfolding get put
  get-put k j v [] = refl
  get-put k j v ((i, w) ∷ d) = ground (arith, get-put k j v d, eq_iff k j, eq_iff i k, eq_iff i j)

  pub get-remove :
      (k j : String) (d : Dict V) → get j (remove k d) ≡ (if k == j then none else get j d)
  unfolding get remove
  get-remove k j [] = ground arith
  get-remove k j ((i, w) ∷ d) = ground (arith, get-remove k j d, eq_iff k j, eq_iff i k, eq_iff i j)

module _ {ℓ} {V : Type ℓ} (p : V → Bool) where
  -- How many values of the dict pass the test.
  abbrev pub count_values : Dict V → ℕ
  count_values [] = 0
  count_values ((k, v) ∷ d) = let rest = count_values d in if p v then suc rest else rest

  abbrev pub weight : Option V → ℕ
  weight none = 0
  weight (some v) = if p v then 1 else 0

  -- A write trades the old value's weight for the new one's.
  pub count_values-put :
      (k : String) (v : V) (d : Dict V)
      → count_values (put k v d) + weight (get k d) ≡ count_values d + weight (some v)
  unfolding get put
  count_values-put k v [] = ground arith
  count_values-put k v ((j, w) ∷ d) = ground (arith, count_values-put k v d)
