-- ===== src/Base/Sort.antt =====
-- Sorting, as `sort.Strings` and `sort.Slice` do it: the result is what any sorting algorithm
-- gives where distinct entries compare strictly.
use mathlib.Core.Path.{◌≡◌, refl}
use mathlib.Core.Bool.{Bool, true, false, ◌&&◌, ◌||◌}
use mathlib.Core.List.{List, [], ◌∷◌, Perm}
use mathlib.Core.List.Perm
use mathlib.Core.Logic.{inl, inr}
use native.Mathlib.Omega.{arith}
use kafscale.Base.Tests.{if◌then◌else◌, Bool-cases, ltb, ◌==◌ as nat_eq}
use kafscale.Base.Maps.{Str}

-- Go's `a <= b` on strings: by bytes.
abbrev pub str_le : Str → Str → Bool
str_le [] ys = true
str_le (x ∷ xs) [] = false
str_le (x ∷ xs) (y ∷ ys) = ltb x y || (nat_eq x y && str_le xs ys)

pub str_le_total : (a b : Str) → str_le a b ≡ false → str_le b a ≡ true
str_le_total [] b h = cc
str_le_total (x ∷ xs) [] h = refl
str_le_total (x ∷ xs) (y ∷ ys) h = ground (arith, str_le_total xs ys)

pub str_le_trans : (a b c : Str) → str_le a b ≡ true → str_le b c ≡ true → str_le a c ≡ true
str_le_trans [] b c h k = refl
str_le_trans (x ∷ xs) [] c h k = cc
str_le_trans (x ∷ xs) (y ∷ ys) [] h k = cc
str_le_trans (x ∷ xs) (y ∷ ys) (z ∷ zs) h k = ground (arith, str_le_trans xs ys zs)

module _ {ℓ} {A : Type ℓ} (le : A → A → Bool) where
  unfoldable pub insert : A → List A → List A
  insert a [] = a ∷ []
  insert a (x ∷ xs) = if le a x then a ∷ x ∷ xs else x ∷ insert a xs

  unfoldable pub sort : List A → List A
  unfolding insert
  sort [] = []
  sort (x ∷ xs) = insert x (sort xs)

  pub insert-perm : (a : A) (xs : List A) → Perm (insert a xs) (a ∷ xs)
  unfolding insert
  insert-perm a [] = Perm.refl (a ∷ [])
  insert-perm a (x ∷ xs) = elim (Bool-cases (le a x)) [
    | inl t ↦ rw t (Perm.refl (a ∷ x ∷ xs))
    | inr f ↦ rw f (Perm.trans (Perm.cons x (insert-perm a xs)) (Perm.swap a x xs))
  ]

  pub sort-perm : (xs : List A) → Perm (sort xs) xs
  unfolding sort
  sort-perm [] = Perm.nil
  sort-perm (x ∷ xs) = Perm.trans (insert-perm x (sort xs)) (Perm.cons x (sort-perm xs))
