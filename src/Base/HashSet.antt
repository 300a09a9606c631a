-- ===== src/Base/HashSet.antt =====
-- `std::collections::HashSet` as a list without repetition.
use mathlib.Core.Path.{◌≡◌, refl}
use mathlib.Core.Bool.{Bool, true, false, not, ◌&&◌, ◌||◌}
use mathlib.Core.List.{List, [], ◌∷◌, ◌++◌}
use native.Mathlib.Omega.{arith}
use cbox.Base.Tests.{if◌then◌else◌}
use cbox.Base.Equality.{Eq, ◌==◌}

abbrev pub HashSet {ℓ} : Type ℓ → Type ℓ
HashSet A = List A

module _ {ℓ} {A : Type ℓ} ⦃e : Eq A⦄ where
  unfoldable pub contains : A → HashSet A → Bool
  contains a [] = false
  contains a (x ∷ xs) = (x == a) || contains a xs

  unfoldable pub insert : A → HashSet A → HashSet A
  insert a [] = a ∷ []
  insert a (x ∷ xs) = if x == a then x ∷ xs else x ∷ insert a xs

  unfoldable pub remove : A → HashSet A → HashSet A
  remove a [] = []
  remove a (x ∷ xs) = if x == a then remove a xs else x ∷ remove a xs

  -- `xs.extend(ys)`.
  unfoldable pub extend : HashSet A → List A → HashSet A
  extend xs [] = xs
  extend xs (y ∷ ys) = extend (insert y xs) ys

  -- `xs.retain(|x| !gone.contains(x))`, also of a deque.
  unfoldable pub retain_not : HashSet A → List A → List A
  retain_not gone [] = []
  retain_not gone (x ∷ xs) = if contains x gone then retain_not gone xs else x ∷ retain_not gone xs

  pub contains-insert :
      (a b : A) (xs : HashSet A) → contains b (insert a xs) ≡ (a == b) || contains b xs
  unfolding contains insert
  contains-insert a b [] = refl
  contains-insert a b (x ∷ xs) =
      ground (arith, e.beq_iff a b, e.beq_iff x a, e.beq_iff x b, contains-insert a b xs)

  pub contains-remove :
      (a b : A) (xs : HashSet A) → contains b (remove a xs) ≡ not (a == b) && contains b xs
  unfolding contains remove
  contains-remove a b [] = ground arith
  contains-remove a b (x ∷ xs) =
      ground (arith, e.beq_iff a b, e.beq_iff x a, e.beq_iff x b, contains-remove a b xs)

  pub contains-extend :
      (b : A) (xs : HashSet A) (ys : List A)
      → contains b (extend xs ys) ≡ contains b ys || contains b xs
  unfolding extend contains
  contains-extend b xs [] = refl
  contains-extend b xs (y ∷ ys) =
      ground (arith, contains-insert y b xs, contains-extend b (insert y xs) ys)

  pub contains-retain_not :
      (b : A) (gone : HashSet A) (xs : List A)
      → contains b (retain_not gone xs) ≡ not (contains b gone) && contains b xs
  unfolding retain_not contains
  contains-retain_not b gone [] = ground arith
  contains-retain_not b gone (x ∷ xs) = ground (arith, e.beq_iff x b, contains-retain_not b gone xs)

  -- No element twice.
  abbrev pub IsDistinct : List A → Type 0
  IsDistinct [] = Unit
  IsDistinct (x ∷ xs) = (contains x xs ≡ false) × IsDistinct xs

  pub contains-append :
      (a : A) (xs ys : List A) → contains a (xs ++ ys) ≡ contains a xs || contains a ys
  unfolding contains
  contains-append a [] ys = refl
  contains-append a (x ∷ xs) ys = ground (arith, contains-append a xs ys)

  pub IsDistinct-append :
      (xs ys : List A)
      → IsDistinct xs
      → IsDistinct ys
      → ((a : A) → contains a xs ≡ true → contains a ys ≡ false)
      → IsDistinct (xs ++ ys)
  unfolding contains
  IsDistinct-append [] ys h k apart = k
  IsDistinct-append (x ∷ xs) ys h k apart = (
    rw (contains-append x xs ys) (ground (arith, h.0, apart x, e.beq_iff x x)),
    IsDistinct-append xs ys h.1 k (λ a mem. apart a (ground (arith, mem))),
  )
