-- ===== src/Base/Lists.antt =====
-- Lists measured by native numbers, under the library's names, and predicates on all entries.
use Prim.Native.Nat.{ℕ, zero, suc, ◌+◌, min}
use mathlib.Core.Path.{◌≡◌, refl, ap}
use mathlib.Core.List.{List, [], ◌∷◌, ◌++◌}
use native.Mathlib.Omega.{arith}

module _ {ℓ} {A : Type ℓ} where
  abbrev pub length : List A → ℕ
  length [] = 0
  length (x ∷ xs) = suc (length xs)

  pub length-append : (xs ys : List A) → length (xs ++ ys) ≡ length xs + length ys
  length-append [] ys = omega arith
  length-append (x ∷ xs) ys = omega (arith, length-append xs ys)

  abbrev pub take : ℕ → List A → List A
  take zero xs = []
  take (suc n) [] = []
  take (suc n) (x ∷ xs) = x ∷ take n xs

  pub length-take : (n : ℕ) (xs : List A) → length (take n xs) ≡ min n (length xs)
  length-take zero xs = omega arith
  length-take (suc n) [] = omega arith
  length-take (suc n) (x ∷ xs) = omega (arith, length-take n xs)

  pub take-append_exact : (xs ys : List A) → take (length xs) (xs ++ ys) ≡ xs
  take-append_exact [] ys = refl
  take-append_exact (x ∷ xs) ys = ap (◌∷◌ x) (take-append_exact xs ys)

-- A predicate by recursion computes to tuples, which the tactics read and build.
abbrev pub All : {A : Type 0} (P : A → Type 0) (entries : List A) → Type 0
All P [] = Unit
All P (entry ∷ entries) = P entry × All P entries

-- Membership with its place kept.
pub data In {ℓ} {A : Type ℓ} (a : A) : List A → Type ℓ where
  first : {xs : List A} → In a (a ∷ xs)
  later : {xs : List A} (x : A) → In a xs → In a (x ∷ xs)
