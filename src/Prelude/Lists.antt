-- ===== src/Prelude/Lists.antt =====
-- Lists measured by native numbers, Go slices and sets of strings.
use Prim.Native.Nat.{ℕ, zero, suc, ◌+◌, ◌≤◌}
use mathlib.Core.Path.{◌≡◌, refl}
use mathlib.Core.Bool.{Bool, true, false, not, ◌&&◌, ◌||◌}
use mathlib.Core.List.{List, [], ◌∷◌, ◌++◌}
use native.Mathlib.Omega.{arith}
use go_signing_server_anywhe.Prelude.Tests.{if◌then◌else◌}
use go_signing_server_anywhe.Prelude.Classes.{Eq, ◌==◌}

module _ {ℓ} {A : Type ℓ} where
  abbrev pub length : List A → ℕ
  length [] = 0
  length (x ∷ xs) = suc (length xs)

  abbrev pub take : ℕ → List A → List A
  take zero xs = []
  take (suc n) [] = []
  take (suc n) (x ∷ xs) = x ∷ take n xs

  -- The elements that pass a test, in order.
  unfoldable pub keep : (A → Bool) → List A → List A
  keep p [] = []
  keep p (x ∷ xs) = let rest = keep p xs in if p x then x ∷ rest else rest

  -- The number of elements that pass a test.
  unfoldable pub count : (A → Bool) → List A → ℕ
  count p [] = 0
  count p (x ∷ xs) = let n = count p xs in if p x then suc n else n

  pub length-append : (xs ys : List A) → length (xs ++ ys) ≡ length xs + length ys
  length-append [] ys = omega arith
  length-append (x ∷ xs) ys = omega (arith, length-append xs ys)

  pub length-keep-le : (p : A → Bool) (xs : List A) → length (keep p xs) ≤ length xs
  unfolding keep
  length-keep-le p [] = omega arith
  length-keep-le p (x ∷ xs) = ground (arith, length-keep-le p xs)

  pub length-keep-count :
      (p : A → Bool) (xs : List A) → length (keep p xs) + count (λ x. not (p x)) xs ≡ length xs
  unfolding keep count
  length-keep-count p [] = omega arith
  length-keep-count p (x ∷ xs) = ground (arith, length-keep-count p xs)

  pub keep-append : (p : A → Bool) (xs ys : List A) → keep p (xs ++ ys) ≡ keep p xs ++ keep p ys
  unfolding keep
  keep-append p [] ys = refl
  keep-append p (x ∷ xs) ys = ground (arith, keep-append p xs ys)

-- A Go set, `map[string]struct{}`: a list without its duplicates.
module _ {ℓ} {A : Type ℓ} ⦃e : Eq A⦄ where
  unfoldable pub has : A → List A → Bool
  has a [] = false
  has a (x ∷ xs) = (x == a) || has a xs

  unfoldable pub add : A → List A → List A
  unfolding has
  add a xs = if has a xs then xs else a ∷ xs

  unfoldable pub remove : A → List A → List A
  remove a [] = []
  remove a (x ∷ xs) = let rest = remove a xs in if x == a then rest else x ∷ rest

  abbrev pub IsSetList : List A → Type 0
  IsSetList [] = Unit {0}
  IsSetList (x ∷ xs) = (has x xs ≡ false) × IsSetList xs

  pub has-add : (a b : A) (xs : List A) → has b (add a xs) ≡ ((a == b) || has b xs)
  unfolding add has
  has-add a b xs = ground (arith, e.same_iff a b)

  pub has-remove : (a b : A) (xs : List A) → has b (remove a xs) ≡ (not (a == b) && has b xs)
  unfolding has remove
  has-remove a b [] = ground arith
  has-remove a b (x ∷ xs) =
      ground (arith, has-remove a b xs, e.same_iff x a, e.same_iff x b, e.same_iff a b)

  pub add-IsSetList : (a : A) (xs : List A) → IsSetList xs → IsSetList (add a xs)
  unfolding add
  add-IsSetList a xs s = ground arith

  pub remove-IsSetList : (a : A) (xs : List A) → IsSetList xs → IsSetList (remove a xs)
  unfolding remove
  remove-IsSetList a [] s = tt
  remove-IsSetList a (x ∷ xs) s = ground (arith, remove-IsSetList a xs s.1, has-remove a x xs)

  pub remove_absent : (a : A) (xs : List A) → has a xs ≡ false → remove a xs ≡ xs
  unfolding has remove
  remove_absent a [] h = refl
  remove_absent a (x ∷ xs) h = ground (arith, remove_absent a xs)

  pub length-remove :
      (a : A) (xs : List A) → IsSetList xs → has a xs ≡ true → length (remove a xs) + 1 ≡ length xs
  unfolding has remove
  length-remove a [] s h = cc
  length-remove a (x ∷ xs) s h =
      ground (arith, length-remove a xs s.1, remove_absent a xs, e.same_iff x a)

  pub length-remove-le : (a : A) (xs : List A) → length (remove a xs) ≤ length xs
  unfolding remove
  length-remove-le a [] = omega arith
  length-remove-le a (x ∷ xs) = ground (arith, length-remove-le a xs)
