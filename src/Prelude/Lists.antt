-- ===== src/Prelude/Lists.antt =====
-- Lists measured by native numbers, under the library's names.
use Prim.Native.Nat.{ℕ, zero, suc, ◌+◌, ◌≤◌}
use mathlib.Core.Path.{◌≡◌}
use mathlib.Core.Bool.{Bool, true, false, ◌&&◌, ◌||◌}
use mathlib.Core.List.{List, [], ◌∷◌, ◌++◌}
use native.Mathlib.Omega.{arith}
use supersonic.Prelude.Tests.{Eq, ◌==◌, if◌then◌else◌, nat_eq}
use native.Mathlib.Decide.{ℕ_discrete}
use mathlib.Core.Logic.{ite}

module _ {ℓ} {A : Type ℓ} where
  abbrev pub length : List A → ℕ
  length [] = 0
  length (x ∷ xs) = suc (length xs)

  abbrev pub take : ℕ → List A → List A
  take zero xs = []
  take (suc n) [] = []
  take (suc n) (x ∷ xs) = x ∷ take n xs

  -- A predicate on every member.
  abbrev pub All {κ} : (A → Type κ) → List A → Type κ
  All P [] = Unit
  All P (x ∷ xs) = P x × All P xs

  pub length-append : (xs ys : List A) → length (xs ++ ys) ≡ length xs + length ys
  length-append [] ys = omega arith
  length-append (x ∷ xs) ys = omega (arith, length-append xs ys)

  pub length-take-le : (n : ℕ) (xs : List A) → length (take n xs) ≤ n
  length-take-le zero xs = omega arith
  length-take-le (suc n) [] = omega arith
  length-take-le (suc n) (x ∷ xs) = omega (arith, length-take-le n xs)

  pub All-append {κ} : (P : A → Type κ) (xs ys : List A) → All P xs → All P ys → All P (xs ++ ys)
  All-append P [] ys hx hy = hy
  All-append P (x ∷ xs) ys hx hy = (hx.0, All-append P xs ys hx.1 hy)

  pub All-take {κ} : (P : A → Type κ) (n : ℕ) (xs : List A) → All P xs → All P (take n xs)
  All-take P zero xs h = tt
  All-take P (suc n) [] h = tt
  All-take P (suc n) (x ∷ xs) h = (h.0, All-take P n xs h.1)

module _ {ℓ} {A : Type ℓ} ⦃e : Eq A⦄ where
  -- `a in xs`
  unfoldable pub contains : A → List A → Bool
  contains a [] = false
  contains a (x ∷ xs) = x == a || contains a xs

  pub All-of_members {κ} :
      (P : A → Type κ) (xs : List A) → ((a : A) → contains a xs ≡ true → P a) → All P xs
  unfolding contains
  All-of_members P [] h = tt
  All-of_members P (x ∷ xs) h =
      (h x (ground arith), All-of_members P xs (λ a m. h a (ground (arith, m))))

  -- `set(xs) <= set(ys)`
  unfoldable pub is_subset : List A → List A → Bool
  unfolding contains
  is_subset [] ys = true
  is_subset (x ∷ xs) ys = contains x ys && is_subset xs ys

  -- `set(xs) == set(ys)`
  unfoldable pub same_set : List A → List A → Bool
  unfolding is_subset
  same_set xs ys = is_subset xs ys && is_subset ys xs

-- `not items`
abbrev pub is_empty {ℓ} : {A : Type ℓ} → List A → Bool
is_empty [] = true
is_empty (_ ∷ _) = false

-- `set.discard`
unfoldable pub discard : ℕ → List ℕ → List ℕ
discard queue [] = []
discard queue (q ∷ qs) = ite (ℕ_discrete q queue) qs (q ∷ discard queue qs)

-- `set.add`
unfoldable pub add : ℕ → List ℕ → List ℕ
add x items = if contains x items then items else items ++ x ∷ []
