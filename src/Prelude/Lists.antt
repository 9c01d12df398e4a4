-- ===== src/Prelude/Lists.antt =====
-- Lists measured by native numbers, with the predicates and folds that run in tests.
use Prim.Native.Nat.{ℕ, suc, ◌+◌}
use mathlib.Core.Path.{◌≡◌, refl}
use mathlib.Core.List.{List, [], ◌∷◌, ◌++◌}
use mobius_smart_home.Prelude.Tests.{if◌then◌else◌, Bool-cases}
use mathlib.Core.Logic.{inl, inr}
use mathlib.Core.Bool.{Bool, true, false, ◌&&◌, ◌||◌}
use native.Mathlib.Omega.{arith}

module _ {ℓ} {A : Type ℓ} where
  abbrev pub length : List A → ℕ
  length [] = 0
  length (_ ∷ xs) = suc (length xs)

  pub length-append : (xs ys : List A) → length (xs ++ ys) ≡ length xs + length ys
  length-append [] ys = omega arith
  length-append (_ ∷ xs) ys = omega (arith, length-append xs ys)

  -- Python's `all(p(x) for x in xs)`
  abbrev pub all : (A → Bool) → List A → Bool
  all p [] = true
  all p (x ∷ xs) = p x && all p xs

  -- Python's `any(p(x) for x in xs)`
  abbrev pub any : (A → Bool) → List A → Bool
  any p [] = false
  any p (x ∷ xs) = p x || any p xs

  -- Python's `[x for x in xs if p(x)]`
  abbrev pub only : (A → Bool) → List A → List A
  only p [] = []
  only p (x ∷ xs) = let rest = only p xs in if p x then x ∷ rest else rest

  pub only-append : (p : A → Bool) (xs ys : List A) → only p (xs ++ ys) ≡ only p xs ++ only p ys
  only-append p [] ys = refl
  only-append p (x ∷ xs) ys = ground (arith, only-append p xs ys)

  pub only-only : (p : A → Bool) (xs : List A) → only p (only p xs) ≡ only p xs
  only-only p [] = refl
  only-only p (x ∷ xs) = elim (Bool-cases (p x)) [
    | inl kept ↦ rw (kept, kept, only-only p xs) refl
    | inr dropped ↦ rw (dropped, only-only p xs) refl
  ]

-- A statement of every element of a list.
abbrev pub All {ℓ κ} : {A : Type ℓ} → (A → Type κ) → List A → Type κ
All P [] = Unit
All P (x ∷ xs) = P x × All P xs
