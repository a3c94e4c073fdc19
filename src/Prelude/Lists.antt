-- ===== src/Prelude/Lists.antt =====
-- Lists measured and indexed by native numbers, under the library's names, and predicates on lists.
use Prim.Native.Nat.{ℕ, zero, suc, ◌+◌, ◌<◌}
use mathlib.Core.Path.{◌≡◌, refl, ap, ◌∙◌}
use mathlib.Core.Bool.{Bool, true, false}
use mathlib.Core.Logic.{inl, inr, ∥∥₁_elim}
use mathlib.Core.List.{List, [], ◌∷◌, ◌++◌, map, Perm, Permᴰ, Perm-prop, Sublist, nil-sublist}
use mathlib.Core.List.Perm
use mathlib.Core.List.Sublist
use mathlib.Core.Option.{Option, none, some}
use native.Mathlib.Omega.{arith}
use native.Mathlib.Nat.{ℕ_set}
use argos_fx.Prelude.Tests.{if◌then◌else◌, Bool-cases}

module _ {ℓ} {A : Type ℓ} where
  abbrev pub length : List A → ℕ
  length [] = 0
  length (x ∷ xs) = suc (length xs)

  abbrev pub get_elem? : List A → ℕ → Option A
  get_elem? [] i = none
  get_elem? (x ∷ xs) zero = some x
  get_elem? (x ∷ xs) (suc i) = get_elem? xs i

  abbrev pub get_or : List A → ℕ → A → A
  get_or [] i d = d
  get_or (x ∷ xs) zero d = x
  get_or (x ∷ xs) (suc i) d = get_or xs i d

  pub length-append : (xs ys : List A) → length (xs ++ ys) ≡ length xs + length ys
  length-append [] ys = omega arith
  length-append (x ∷ xs) ys = omega (arith, length-append xs ys)

  abbrev pub All {κ} : (A → Type κ) → List A → Type κ
  All P [] = Unit
  All P (x ∷ xs) = P x × All P xs

  pub All-append {κ} : (P : A → Type κ) (xs ys : List A) → All P xs → All P ys → All P (xs ++ ys)
  All-append P [] ys _ q = q
  All-append P (x ∷ xs) ys (p, ps) q = (p, All-append P xs ys ps q)

  pub All-map_pred {κ μ} :
      {P : A → Type κ} {Q : A → Type μ} (f : (a : A) → P a → Q a) (xs : List A)
      → All P xs
      → All Q xs
  All-map_pred f [] _ = tt
  All-map_pred f (x ∷ xs) (p, ps) = (f x p, All-map_pred f xs ps)

  -- How many items pass a test.
  abbrev pub count_p : (A → Bool) → List A → ℕ
  count_p p [] = 0
  count_p p (x ∷ xs) = (if p x then 1 else 0) + count_p p xs

  -- The items that pass a test, in order.
  abbrev pub keep : (A → Bool) → List A → List A
  keep p [] = []
  keep p (x ∷ xs) = if p x then x ∷ keep p xs else keep p xs

  abbrev pub any : (A → Bool) → List A → Bool
  any p [] = false
  any p (x ∷ xs) = if p x then true else any p xs

module _ {ℓ κ} {A : Type ℓ} {B : Type κ} where
  pub length-map : (f : A → B) (xs : List A) → length (map f xs) ≡ length xs
  length-map f [] = refl
  length-map f (x ∷ xs) = ap suc (length-map f xs)

module _ {ℓ} {A : Type ℓ} (p : A → Bool) where
  pub length-keep : (xs : List A) → length (keep p xs) ≡ count_p p xs
  length-keep [] = refl
  length-keep (x ∷ xs) = ground (arith, length-keep xs)

  pub All-keep {κ} : (P : A → Type κ) (xs : List A) → All P xs → All P (keep p xs)
  All-keep P [] _ = tt
  All-keep P (x ∷ xs) (h, hs) = elim (Bool-cases (p x)) [
    | inl e ↦ rw (e, if◌then◌else◌) (h, All-keep P xs hs)
    | inr e ↦ rw (e, if◌then◌else◌) (All-keep P xs hs)
  ]

  pub All-keep_test : (xs : List A) → All (λ x. p x ≡ true) (keep p xs)
  All-keep_test [] = tt
  All-keep_test (x ∷ xs) = elim (Bool-cases (p x)) [
    | inl e ↦ rw (e, if◌then◌else◌) (e, All-keep_test xs)
    | inr e ↦ rw (e, if◌then◌else◌) (All-keep_test xs)
  ]

  pub keep-sublist : (xs : List A) → Sublist (keep p xs) xs
  keep-sublist [] = nil-sublist []
  keep-sublist (x ∷ xs) = elim (Bool-cases (p x)) [
    | inl e ↦ rw (e, if◌then◌else◌) (Sublist.cons-cons x (keep-sublist xs))
    | inr e ↦ rw (e, if◌then◌else◌) (Sublist.cons x (keep-sublist xs))
  ]

  pub count_p-pos :
      (dflt : A) (xs : List A) (i : ℕ)
      → i < length xs
      → p (get_or xs i dflt) ≡ true
      → 0 < count_p p xs
  count_p-pos dflt [] i h e = absurd (omega arith)
  count_p-pos dflt (x ∷ xs) zero h e = rw e (omega arith)
  count_p-pos dflt (x ∷ xs) (suc i) h e = omega (arith, count_p-pos dflt xs i (omega arith) e)

  keep_swap : (a b : A) (l : List A) → Perm (keep p (a ∷ b ∷ l)) (keep p (b ∷ a ∷ l))
  keep_swap a b l = elim (Bool-cases (p a)) [
    | inl e ↦ elim (Bool-cases (p b)) [
      | inl f ↦ rw (e, f, if◌then◌else◌) (Perm.swap b a _)
      | inr f ↦ rw (e, f, if◌then◌else◌) (Perm.refl _)
    ]
    | inr e ↦ elim (Bool-cases (p b)) [
      | inl f ↦ rw (e, f, if◌then◌else◌) (Perm.refl _)
      | inr f ↦ rw (e, f, if◌then◌else◌) (Perm.refl _)
    ]
  ]

  keep-Permᴰ : {xs ys : List A} → Permᴰ xs ys → Perm (keep p xs) (keep p ys)
  keep-Permᴰ Permᴰ.nil = Perm.refl _
  keep-Permᴰ (Permᴰ.cons {a = a} {l₁ = l} e d) = rw (← e) (keep_both a (keep-Permᴰ d))
    where
      keep_both :
          (a : A) {xs ys : List A}
          → Perm xs ys
          → Perm (if p a then a ∷ xs else xs) (if p a then a ∷ ys else ys)
      keep_both a q = elim (Bool-cases (p a)) [
        | inl f ↦ rw (f, if◌then◌else◌) (Perm.cons a q)
        | inr f ↦ rw (f, if◌then◌else◌) q
      ]
  keep-Permᴰ (Permᴰ.swap {a = a} {b = b} {l = l} e f) = rw (← e, ← f) (keep_swap a b l)
  keep-Permᴰ (Permᴰ.trans d f) = Perm.trans (keep-Permᴰ d) (keep-Permᴰ f)

  pub keep-perm : (xs ys : List A) → Perm xs ys → Perm (keep p xs) (keep p ys)
  keep-perm xs ys h = ∥∥₁_elim h Perm-prop keep-Permᴰ

module _ {ℓ} {A : Type ℓ} where
  length-Permᴰ : {xs ys : List A} → Permᴰ xs ys → length xs ≡ length ys
  length-Permᴰ Permᴰ.nil = refl
  length-Permᴰ (Permᴰ.cons e d) = ap suc (length-Permᴰ d)
  length-Permᴰ (Permᴰ.swap e f) = refl
  length-Permᴰ (Permᴰ.trans d f) = length-Permᴰ d ∙ length-Permᴰ f

  pub length-perm : (xs ys : List A) → Perm xs ys → length xs ≡ length ys
  length-perm xs ys h = ∥∥₁_elim h (ℕ_set _ _) length-Permᴰ
