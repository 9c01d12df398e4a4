-- ===== src/Prelude/Assoc.antt =====
-- Python's `dict` with string keys, as an association list, and its `in` on strings.
use Prim.Native.String.{String}
use mathlib.Core.Path.{◌≡◌, refl, subst}
use mathlib.Core.List.{List, [], ◌∷◌}
use mathlib.Core.Logic.{inl, inr}
use mathlib.Core.Option.{Option, none, some}
use native.Mathlib.Omega.{arith}
use text.Mathlib.Text.{◌==◌ as str_eq}
use text.Mathlib.TextEquality.{eq_iff}
use mathlib.Core.Bool.{Bool}
use Prim.Native.Nat.{ℕ}
use mobius_smart_home.Prelude.Tests.{if◌then◌else◌, ◌==◌, Bool-cases}
use mobius_smart_home.Prelude.Lists.{any}

abbrev pub Dict {ℓ} : Type ℓ → Type ℓ
Dict V = List (String × V)

module _ {ℓ} {V : Type ℓ} where
  -- d.get(k)
  unfoldable pub get : Dict V → String → Option V
  get [] k = none
  get ((j, v) ∷ d) k = if str_eq j k then some v else get d k

  -- d[k] = v
  unfoldable pub put : Dict V → String → V → Dict V
  put [] k v = (k, v) ∷ []
  put ((j, w) ∷ d) k v = if str_eq j k then (k, v) ∷ d else (j, w) ∷ put d k v

  pub get-put :
      (d : Dict V) (k j : String) (v : V)
      → get (put d k v) j ≡ (if str_eq k j then some v else get d j)
  unfolding get put
  get-put [] k j v = refl
  get-put ((i, w) ∷ d) k j v = ground (arith, eq_iff k j, eq_iff i k, eq_iff i j, get-put d k j v)

  -- d.pop(k, None)
  unfoldable pub remove : Dict V → String → Dict V
  remove [] k = []
  remove ((j, v) ∷ d) k = let rest = remove d k in if str_eq j k then rest else (j, v) ∷ rest

  pub get-remove :
      (d : Dict V) (k j : String) → get (remove d k) j ≡ (if str_eq k j then none else get d j)
  unfolding get remove
  get-remove [] k j = ground arith
  get-remove ((i, w) ∷ d) k j = ground (arith, eq_iff k j, eq_iff i k, eq_iff i j, get-remove d k j)

  pub get-put_self : (d : Dict V) (k : String) (v : V) → get (put d k v) k ≡ some v
  get-put_self d k v = rw (get-put d k k v, (eq_iff k k).1 refl)

-- x in xs
unfoldable pub is_in : String → List String → Bool
is_in x xs = any (λ y. str_eq y x) xs

-- d[i] = v on a map of numbers, as a function
unfoldable pub set_at {ℓ} : {V : Type ℓ} → (ℕ → V) → ℕ → V → ℕ → V
set_at d i v j = if i == j then v else d j

-- What holds of the new value, and of the old ones, holds of the values of the new map.
pub set_at_both {ℓ κ} :
    {V : Type ℓ} (P : ℕ → V → Type κ) (d : ℕ → V) (i : ℕ) (v : V)
    → P i v
    → ((j : ℕ) → P j (d j))
    → (j : ℕ) → P j (set_at d i v j)
unfolding set_at
set_at_both P d i v new old j = elim (Bool-cases (i == j)) [
  | inl same ↦ let is_j : i ≡ j = ground (arith, same) in rw same (subst (λ k. P k v) is_j new)
  | inr other ↦ rw other (old j)
]
