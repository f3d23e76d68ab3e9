-- ===== src/Base/Shuffle.antt =====
-- The orders in which Go may visit the entries of a map, and sorting, which undoes them.
use mathlib.Core.Path.{◌≡◌, refl, ap, ◌∙◌}
use mathlib.Core.Bool.{Bool, true, false, ◌&&◌}
use mathlib.Core.List.{List, [], ◌∷◌, map}
use native.Mathlib.Omega.{arith}
use kafscale.Base.Bytes.{All}
use kafscale.Base.Sort.{insert, sort}

-- The second list has the entries of the first in some order.
pub data Shuffle {ℓ} {A : Type ℓ} : List A → List A → Type ℓ where
  none_left : Shuffle [] []
  keep : (x : A) {xs ys : List A} → Shuffle xs ys → Shuffle (x ∷ xs) (x ∷ ys)
  exchange : (x y : A) (xs : List A) → Shuffle (x ∷ y ∷ xs) (y ∷ x ∷ xs)
  after : {xs ys zs : List A} → Shuffle xs ys → Shuffle ys zs → Shuffle xs zs

pub Shuffle-refl {ℓ} : {A : Type ℓ} (xs : List A) → Shuffle xs xs
Shuffle-refl [] = none_left
Shuffle-refl (x ∷ xs) = keep x (Shuffle-refl xs)

pub Shuffle-All {ℓ κ} :
    {A : Type ℓ} (P : A → Type κ) {xs ys : List A} → Shuffle xs ys → All P xs → All P ys
Shuffle-All P none_left h = tt
Shuffle-All P (keep x s) h = (h.0, Shuffle-All P s h.1)
Shuffle-All P (exchange x y xs) h = (h.1.0, (h.0, h.1.1))
Shuffle-All P (after s t) h = Shuffle-All P t (Shuffle-All P s h)

pub Shuffle-map {ℓ κ} :
    {A : Type ℓ} {B : Type κ} (f : A → B) {xs ys : List A}
    → Shuffle xs ys
    → Shuffle (map f xs) (map f ys)
Shuffle-map f none_left = none_left
Shuffle-map f (keep x s) = keep (f x) (Shuffle-map f s)
Shuffle-map f (exchange x y xs) = exchange (f x) (f y) (map f xs)
Shuffle-map f (after s t) = after (Shuffle-map f s) (Shuffle-map f t)

module _ {A : Type 0} {B : Type 0} (f : A → B) where
  -- What comes of a list of images are images, in the same order of what they are images of.
  pub Shuffle-unmap :
      {us vs : List B}
      → Shuffle us vs
      → (xs : List A) → us ≡ map f xs
      → (ys : List A) × (vs ≡ map f ys) × Shuffle xs ys
  Shuffle-unmap none_left xs e = (xs, e, Shuffle-refl xs)
  Shuffle-unmap (keep u s) [] e = cc
  Shuffle-unmap (keep u s) (x ∷ xs) e =
      let (ys, is, t) = Shuffle-unmap s xs cc in (x ∷ ys, cc, keep x t)
  Shuffle-unmap (exchange u v us) [] e = cc
  Shuffle-unmap (exchange u v us) (x ∷ []) e = cc
  Shuffle-unmap (exchange u v us) (x ∷ y ∷ xs) e = (y ∷ x ∷ xs, cc, exchange x y xs)
  Shuffle-unmap (after s t) xs e =
      let (ys, is, s') = Shuffle-unmap s xs e in
      let (zs, is', t') = Shuffle-unmap t ys is in (zs, is', after s' t')

module _ {A : Type 0} (le : A → A → Bool) where
  -- No two entries count as equal.
  abbrev pub Apart : A → A → Type 0
  Apart x y = le x y && le y x ≡ false

  abbrev pub AllApart : List A → Type 0
  AllApart [] = Unit {0}
  AllApart (x ∷ xs) = All (Apart x) xs × AllApart xs

  Apart-sym : (x y : A) → Apart x y → Apart y x
  Apart-sym x y h = ground arith

  Shuffle-AllApart : {xs ys : List A} → Shuffle xs ys → AllApart xs → AllApart ys
  Shuffle-AllApart none_left h = tt
  Shuffle-AllApart (keep x s) h = (Shuffle-All (Apart x) s h.0, Shuffle-AllApart s h.1)
  Shuffle-AllApart (exchange x y xs) h = ((Apart-sym x y h.0.0, h.1.0), (h.0.1, h.1.1))
  Shuffle-AllApart (after s t) h = Shuffle-AllApart t (Shuffle-AllApart s h)

  module _ (total : (x y : A) → le x y ≡ false → le y x ≡ true)
      (trans : (x y z : A) → le x y ≡ true → le y z ≡ true → le x z ≡ true) where
    insert_exchange :
        (x y : A) (xs : List A)
        → Apart x y
        → insert le x (insert le y xs) ≡ insert le y (insert le x xs)
    unfolding insert
    insert_exchange x y [] h = ground (arith, total x y, total y x)
    insert_exchange x y (z ∷ xs) h = ground (
      arith,
      total x y,
      total y x,
      total x z,
      total y z,
      trans x y z,
      trans y x z,
      insert_exchange x y xs h,
    )

    -- Sorting gives the same list whatever the order before.
    pub sort-Shuffle : {xs ys : List A} → Shuffle xs ys → AllApart xs → sort le xs ≡ sort le ys
    unfolding sort
    sort-Shuffle none_left h = refl
    sort-Shuffle (keep x s) h = ap (insert le x) (sort-Shuffle s h.1)
    sort-Shuffle (exchange x y xs) h = insert_exchange x y (sort le xs) h.0.0
    sort-Shuffle (after s t) h = sort-Shuffle s h ∙ sort-Shuffle t (Shuffle-AllApart s h)
