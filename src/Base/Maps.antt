-- ===== src/Base/Maps.antt =====
-- Go maps as association lists with one entry for a key, and the equality of their keys.
use Prim.Native.Nat.{ℕ}
use mathlib.Core.Path.{◌≡◌, refl, ◌∙◌}
use mathlib.Core.Logic.{◌↔◌, inl, inr}
use mathlib.Core.Bool.{Bool, true, false, ◌&&◌, ◌||◌}
use mathlib.Core.List.{List, [], ◌∷◌}
use mathlib.Core.Option.{Option, none, some}
use native.Mathlib.Omega.{arith}
use kafscale.Base.Tests.{if◌then◌else◌, Bool-cases, ◌==◌ as nat_eq}

-- What a type of keys has: a test that holds for equal keys only.
pub record Key {ℓ} (K : Type ℓ) : Type ℓ where
  pub same : K → K → Bool
  pub same_iff : (i j : K) → (same i j ≡ true) ↔ (i ≡ j)

-- A Go string is a sequence of bytes.
abbrev pub Str : Type 0
Str = List ℕ

abbrev pub str_eq : Str → Str → Bool
str_eq [] [] = true
str_eq [] (y ∷ ys) = false
str_eq (x ∷ xs) [] = false
str_eq (x ∷ xs) (y ∷ ys) = nat_eq x y && str_eq xs ys

pub str_eq_iff : (a b : Str) → (str_eq a b ≡ true) ↔ (a ≡ b)
str_eq_iff [] [] = ground arith
str_eq_iff [] (y ∷ ys) = ground arith
str_eq_iff (x ∷ xs) [] = ground arith
str_eq_iff (x ∷ xs) (y ∷ ys) = ground (arith, str_eq_iff xs ys)

instance abbrev pub str_Key : Key Str
str_Key = record { same = str_eq; same_iff = str_eq_iff }

pub same_refl {ℓ} : {K : Type ℓ} ⦃e : Key K⦄ (k : K) → e.same k k ≡ true
same_refl ⦃e⦄ k = (e.same_iff k k).1 refl

module _ {ℓ κ} {K : Type ℓ} {V : Type κ} ⦃e : Key K⦄ where
  -- `m[k]`, with the second result of `v, ok := m[k]`
  unfoldable pub get : K → List (K × V) → Option V
  get k [] = none
  get k ((j, v) ∷ m) = if e.same j k then some v else get k m

  unfoldable pub has : K → List (K × V) → Bool
  has k [] = false
  has k ((j, v) ∷ m) = e.same j k || has k m

  -- `m[k] = v`
  unfoldable pub put : K → V → List (K × V) → List (K × V)
  put k v [] = (k, v) ∷ []
  put k v ((j, w) ∷ m) = if e.same j k then (j, v) ∷ m else (j, w) ∷ put k v m

  -- `delete(m, k)`
  unfoldable pub delete : K → List (K × V) → List (K × V)
  delete k [] = []
  delete k ((j, v) ∷ m) = if e.same j k then delete k m else (j, v) ∷ delete k m

  pub get-put :
      (k j : K) (v : V) (m : List (K × V))
      → get j (put k v m) ≡ (if e.same k j then some v else get j m)
  unfolding get put
  get-put k j v [] = refl
  get-put k j v ((i, w) ∷ m) =
      ground (arith, e.same_iff k j, e.same_iff i k, e.same_iff i j, get-put k j v m)

  pub get-put_self : (k : K) (v : V) (m : List (K × V)) → get k (put k v m) ≡ some v
  get-put_self k v m = get-put k k v m ∙ rw (same_refl k) refl

  pub get-delete :
      (k j : K) (m : List (K × V)) → get j (delete k m) ≡ (if e.same k j then none else get j m)
  unfolding get delete
  get-delete k j [] = ground arith
  get-delete k j ((i, w) ∷ m) =
      ground (arith, e.same_iff k j, e.same_iff i k, e.same_iff i j, get-delete k j m)

  pub has-get : (k : K) (m : List (K × V)) → has k m ≡ true → (v : V) × (get k m ≡ some v)
  unfolding has get
  has-get k [] h = ground arith
  has-get k ((j, v) ∷ m) h = elim (Bool-cases (e.same j k)) [
    | inl t ↦ (v, rw t)
    | inr f ↦ rw (f) (has-get k m (rw f at h))
  ]

  pub has-put : (k j : K) (v : V) (m : List (K × V)) → has j (put k v m) ≡ (e.same k j || has j m)
  unfolding has put
  has-put k j v [] = refl
  has-put k j v ((i, w) ∷ m) =
      ground (arith, e.same_iff k j, e.same_iff i k, e.same_iff i j, has-put k j v m)

  pub has-delete :
      (k j : K) (m : List (K × V)) → has j (delete k m) ≡ (if e.same k j then false else has j m)
  unfolding has delete
  has-delete k j [] = ground arith
  has-delete k j ((i, w) ∷ m) =
      ground (arith, e.same_iff k j, e.same_iff i k, e.same_iff i j, has-delete k j m)

  pub get-has : (k : K) (v : V) (m : List (K × V)) → get k m ≡ some v → has k m ≡ true
  unfolding has get
  get-has k v [] h = cc
  get-has k v ((j, w) ∷ m) h = ground (arith, get-has k v m)

  pub get-none : (k : K) (m : List (K × V)) → has k m ≡ false → get k m ≡ none
  unfolding has get
  get-none k [] h = refl
  get-none k ((j, w) ∷ m) h = ground (arith, get-none k m)
