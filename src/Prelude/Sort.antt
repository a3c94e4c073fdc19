-- ===== src/Prelude/Sort.antt =====
-- A stable sort by a Boolean `less`, the model of Go's `sort` package: which algorithm the package
-- uses is not observed, since every use here sorts values that are equal when neither is less.
use Prim.Native.Nat.{◌+◌}
use mathlib.Core.Path.{◌≡◌, refl}
use mathlib.Core.Bool.{Bool}
use mathlib.Core.List.{List, [], ◌∷◌, Perm}
use mathlib.Core.List.Perm
use mathlib.Core.Logic.{inl, inr}
use native.Mathlib.Omega.{arith}
use argos_fx.Prelude.Tests.{if◌then◌else◌, Bool-cases}
use argos_fx.Prelude.Lists.{length, All, count_p}

module _ {ℓ} {A : Type ℓ} (less : A → A → Bool) where
  unfoldable pub sort_insert : A → List A → List A
  sort_insert x [] = x ∷ []
  sort_insert x (y ∷ ys) = if less x y then x ∷ y ∷ ys else y ∷ sort_insert x ys

  unfoldable pub sort : List A → List A
  unfolding sort_insert
  sort [] = []
  sort (x ∷ xs) = sort_insert x (sort xs)

  sort_insert-perm : (x : A) (ys : List A) → Perm (sort_insert x ys) (x ∷ ys)
  unfolding sort_insert
  sort_insert-perm x [] = Perm.refl _
  sort_insert-perm x (y ∷ ys) = elim (Bool-cases (less x y)) [
    | inl e ↦ rw (e, if◌then◌else◌) (Perm.refl _)
    | inr e ↦
        rw (e, if◌then◌else◌) (Perm.trans (Perm.cons y (sort_insert-perm x ys)) (Perm.swap x y ys))
  ]

  pub sort-perm : (xs : List A) → Perm (sort xs) xs
  unfolding sort
  sort-perm [] = Perm.refl _
  sort-perm (x ∷ xs) = Perm.trans (sort_insert-perm x (sort xs)) (Perm.cons x (sort-perm xs))

  sort_insert-count :
      (p : A → Bool) (x : A) (ys : List A) → count_p p (sort_insert x ys) ≡ count_p p (x ∷ ys)
  unfolding sort_insert
  sort_insert-count p x [] = refl
  sort_insert-count p x (y ∷ ys) = ground (arith, sort_insert-count p x ys)

  pub sort-count : (p : A → Bool) (xs : List A) → count_p p (sort xs) ≡ count_p p xs
  unfolding sort
  sort-count p [] = refl
  sort-count p (x ∷ xs) = omega (arith, sort_insert-count p x (sort xs), sort-count p xs)

  length-sort_insert : (x : A) (ys : List A) → length (sort_insert x ys) ≡ length ys + 1
  unfolding sort_insert
  length-sort_insert x [] = refl
  length-sort_insert x (y ∷ ys) = ground (arith, length-sort_insert x ys)

  pub length-sort : (xs : List A) → length (sort xs) ≡ length xs
  unfolding sort
  length-sort [] = refl
  length-sort (x ∷ xs) = omega (arith, length-sort_insert x (sort xs), length-sort xs)

  module _ {κ} (P : A → Type κ) where
    pub All-sort_insert : (x : A) (ys : List A) → P x → All P ys → All P (sort_insert x ys)
    unfolding sort_insert
    All-sort_insert x [] p _ = (p, tt)
    All-sort_insert x (y ∷ ys) p (q, qs) = elim (Bool-cases (less x y)) [
      | inl e ↦ rw (e, if◌then◌else◌) (p, (q, qs))
      | inr e ↦ rw (e, if◌then◌else◌) (q, All-sort_insert x ys p qs)
    ]

    pub All-sort : (xs : List A) → All P xs → All P (sort xs)
    unfolding sort
    All-sort [] _ = tt
    All-sort (x ∷ xs) (p, ps) = All-sort_insert x (sort xs) p (All-sort xs ps)

    All-of_insert : (x : A) (ys : List A) → All P (sort_insert x ys) → P x × All P ys
    unfolding sort_insert
    All-of_insert x [] h = h
    All-of_insert x (y ∷ ys) h = elim (Bool-cases (less x y)) [
      | inl e ↦ rw (e, if◌then◌else◌) at h
      | inr e ↦
          let (p, ps) = rw (e, if◌then◌else◌) at h in
          let (q, qs) = All-of_insert x ys ps in (q, (p, qs))
    ]

    pub All-of_sort : (xs : List A) → All P (sort xs) → All P xs
    unfolding sort
    All-of_sort [] h = tt
    All-of_sort (x ∷ xs) h = let (p, ps) = All-of_insert x (sort xs) h in (p, All-of_sort xs ps)
