-- ===== src/Common/Sort.antt =====
-- `Array.prototype.sort`, which is stable, by insertion, and what a caller may rely on.
use Prim.Native.Nat.{suc}
use mathlib.Core.Path.{◌≡◌, refl, ap, ◌∙◌}
use mathlib.Core.Bool.{Bool, true, false}
use mathlib.Core.List.{List, [], ◌∷◌, Perm}
use mathlib.Core.List.Perm
use native.Mathlib.Omega.{arith}
use deepseek_harness_gateway.Common.Tests.{if◌then◌else◌, Bool-cases}
use mathlib.Core.Logic.{inl, inr}
use deepseek_harness_gateway.Common.Lists.{length, All, filter}

module _ {ℓ} {A : Type ℓ} (lt : A → A → Bool) where
  -- Behind what sorts before it, in front of what it ties with.
  unfoldable pub insert_sorted : A → List A → List A
  insert_sorted x [] = x ∷ []
  insert_sorted x (y ∷ ys) =
      let rest = insert_sorted x ys in if lt y x then y ∷ rest else x ∷ y ∷ ys

  unfoldable pub sort : List A → List A
  unfolding insert_sorted
  sort [] = []
  sort (x ∷ xs) = insert_sorted x (sort xs)

  -- No later element sorts before an earlier one.
  abbrev pub IsSorted : List A → Type 0
  IsSorted [] = Unit
  IsSorted (x ∷ xs) = All (λ y. lt y x ≡ false) xs × IsSorted xs

  insert_sorted-perm : (x : A) (xs : List A) → Perm (insert_sorted x xs) (x ∷ xs)
  unfolding insert_sorted
  insert_sorted-perm x [] = Perm.refl (x ∷ [])
  insert_sorted-perm x (y ∷ ys) = elim (Bool-cases (lt y x)) [
    | inl e ↦ rw e (Perm.trans (Perm.cons y (insert_sorted-perm x ys)) (Perm.swap x y ys))
    | inr e ↦ rw e (Perm.refl (x ∷ y ∷ ys))
  ]

  pub sort-perm : (xs : List A) → Perm (sort xs) xs
  unfolding sort
  sort-perm [] = Perm.refl []
  sort-perm (x ∷ xs) = Perm.trans (insert_sorted-perm x (sort xs)) (Perm.cons x (sort-perm xs))

  pub length-insert_sorted : (x : A) (xs : List A) → length (insert_sorted x xs) ≡ suc (length xs)
  unfolding insert_sorted
  length-insert_sorted x [] = refl
  length-insert_sorted x (y ∷ ys) = ground (arith, length-insert_sorted x ys)

  pub length-sort : (xs : List A) → length (sort xs) ≡ length xs
  unfolding sort
  length-sort [] = refl
  length-sort (x ∷ xs) = length-insert_sorted x (sort xs) ∙ ap suc (length-sort xs)

module _ {ℓ} {A : Type ℓ} {lt : A → A → Bool} (asym : (x y : A) → lt x y ≡ true → lt y x ≡ false)
    (negtrans : (x y z : A) → lt x y ≡ false → lt y z ≡ false → lt x z ≡ false) where
  All-above :
      (x y : A) (zs : List A)
      → lt y x ≡ false
      → All (λ z. lt z y ≡ false) zs
      → All (λ z. lt z x ≡ false) zs
  All-above x y [] h a = tt
  All-above x y (z ∷ zs) h a = (negtrans z y x a.0 h, All-above x y zs h a.1)

  All-insert :
      (x y : A) (ys : List A)
      → lt x y ≡ false
      → All (λ z. lt z y ≡ false) ys
      → All (λ z. lt z y ≡ false) (insert_sorted lt x ys)
  unfolding insert_sorted
  All-insert x y [] h a = (h, tt)
  All-insert x y (z ∷ zs) h a = ground (arith, All-insert x y zs h a.1)

  insert_sorted-IsSorted :
      (x : A) (ys : List A) → IsSorted lt ys → IsSorted lt (insert_sorted lt x ys)
  unfolding insert_sorted
  insert_sorted-IsSorted x [] s = (tt, tt)
  insert_sorted-IsSorted x (y ∷ ys) s = elim (Bool-cases (lt y x)) [
    | inl e ↦ rw e (All-insert x y ys (asym y x e) s.0, insert_sorted-IsSorted x ys s.1)
    | inr e ↦ rw e ((e, All-above x y ys e s.0), s)
  ]

  pub sort-IsSorted : (xs : List A) → IsSorted lt (sort lt xs)
  unfolding sort
  sort-IsSorted [] = tt
  sort-IsSorted (x ∷ xs) = insert_sorted-IsSorted x (sort lt xs) (sort-IsSorted xs)

-- Stability: elements that a test cannot tell apart by order keep their places among themselves.
module _ {ℓ} {A : Type ℓ} (lt : A → A → Bool) (p : A → Bool)
    (ties : (x y : A) → p x ≡ true → p y ≡ true → lt x y ≡ false) where
  filter-insert_sorted :
      (x : A) (ys : List A) → filter p (insert_sorted lt x ys) ≡ filter p (x ∷ ys)
  unfolding insert_sorted filter
  filter-insert_sorted x [] = refl
  filter-insert_sorted x (y ∷ ys) = ground (arith, ties y x, filter-insert_sorted x ys)

  pub filter-sort : (xs : List A) → filter p (sort lt xs) ≡ filter p xs
  unfolding sort filter
  filter-sort [] = refl
  filter-sort (x ∷ xs) = filter-insert_sorted x (sort lt xs) ∙ (ground (arith, filter-sort xs))
