-- ===== src/Prelude/Sorted.antt =====
-- What `sort` promises: an ascending list, the same one for every order of the input.
use mathlib.Core.Path.{◌≡◌, refl, ◌∙◌}
use mathlib.Core.Bool.{Bool, true, false}
use mathlib.Core.List.{List, [], ◌∷◌, Perm, Permᴰ}
use mathlib.Core.List
use mathlib.Core.List.Permᴰ
use mathlib.Core.Logic.{inl, inr, ∥∥₁_elim}
use native.Mathlib.Omega.{arith}
use argos_fx.Prelude.Tests.{if◌then◌else◌, Bool-cases}
use argos_fx.Prelude.Lists.{All}
use argos_fx.Prelude.Order.{IsSorted}
use argos_fx.Prelude.Sort.{sort, sort_insert, All-sort}

-- `less` is a strict order, and total, on the values with `P`.
pub record IsStrict {ℓ κ} {A : Type ℓ} (P : A → Type κ) (less : A → A → Bool) : Type (ℓ ⊔ κ) where
  pub asymm : (x y : A) → P x → P y → less x y ≡ true → less y x ≡ false
  pub trans : (x y z : A) → P x → P y → P z → less x y ≡ true → less y z ≡ true → less x z ≡ true
  pub connected : (x y : A) → P x → P y → less x y ≡ false → less y x ≡ false → x ≡ y

-- `x` does not come after `y`.
abbrev pub Before {ℓ} : {A : Type ℓ} → (A → A → Bool) → A → A → Type 0
Before less x y = less y x ≡ false

module _ {ℓ κ} {A : Type ℓ} {P : A → Type κ} {less : A → A → Bool} (strict : IsStrict P less) where
  open strict use {asymm, trans, connected}

  pub Before-trans :
      (x y z : A) → P x → P y → P z → Before less x y → Before less y z → Before less x z
  Before-trans x y z p q r h k = elim (Bool-cases (less z x)) [
    | inr e ↦ e
    | inl e ↦ elim (Bool-cases (less y z)) [
      | inl f ↦ absurd (cc (trans y z x q r p f e))
      | inr f ↦ absurd (cc (connected y z q r f k))
    ]
  ]

  All-Before :
      (x y : A) (ys : List A)
      → P x
      → P y
      → All P ys
      → Before less x y
      → All (Before less y) ys
      → All (Before less x) ys
  All-Before x y [] p q _ h _ = tt
  All-Before x y (z ∷ zs) p q (r, rs) h (k, ks) =
      (Before-trans x y z p q r h k, All-Before x y zs p q rs h ks)

  sort_insert-IsSorted :
      (x : A) (ys : List A)
      → P x
      → All P ys
      → IsSorted (Before less) ys
      → IsSorted (Before less) (sort_insert less x ys)
  unfolding sort_insert
  sort_insert-IsSorted x [] p _ _ = (tt, tt)
  sort_insert-IsSorted x (y ∷ ys) p (q, qs) (b, s) = elim (Bool-cases (less x y)) [
    | inl e ↦
        let first : Before less x y = asymm x y p q e in
        rw (e, if◌then◌else◌) ((first, All-Before x y ys p q qs first b), (b, s))
    | inr e ↦
        rw (e, if◌then◌else◌) (All-sort_insert_Before x ys e b, sort_insert-IsSorted x ys p qs s)
  ]
    where
      All-sort_insert_Before :
          (x : A) (ys : List A)
          → Before less y x
          → All (Before less y) ys
          → All (Before less y) (sort_insert less x ys)
      All-sort_insert_Before x [] h _ = (h, tt)
      All-sort_insert_Before x (z ∷ zs) h (k, ks) = elim (Bool-cases (less x z)) [
        | inl e ↦ rw (e, if◌then◌else◌) (h, (k, ks))
        | inr e ↦ rw (e, if◌then◌else◌) (k, All-sort_insert_Before x zs h ks)
      ]

  pub sort-IsSorted : (xs : List A) → All P xs → IsSorted (Before less) (sort less xs)
  unfolding sort
  sort-IsSorted [] _ = tt
  sort-IsSorted (x ∷ xs) (p, ps) =
      sort_insert-IsSorted x (sort less xs) p (All-sort less P xs ps) (sort-IsSorted xs ps)

  sort_insert_comm :
      (x y : A) (zs : List A)
      → P x
      → P y
      → All P zs
      → sort_insert less x (sort_insert less y zs) ≡ sort_insert less y (sort_insert less x zs)
  unfolding sort_insert
  sort_insert_comm x y [] p q _ = ground (arith, asymm x y p q, connected x y p q)
  sort_insert_comm x y (z ∷ zs) p q (r, rs) = ground (
    arith,
    asymm x y p q,
    connected x y p q,
    trans x y z p q r,
    trans y x z q p r,
    sort_insert_comm x y zs p q rs,
  )

  All-Permᴰ : {xs ys : List A} → Permᴰ xs ys → All P xs → All P ys
  All-Permᴰ Permᴰ.nil h = h
  All-Permᴰ (Permᴰ.cons e p) (h, hs) = (rw (← e) h, All-Permᴰ p hs)
  All-Permᴰ (Permᴰ.swap e f) (h, (k, hs)) = (rw (← f) k, (rw (← e) h, hs))
  All-Permᴰ (Permᴰ.trans p q) h = All-Permᴰ q (All-Permᴰ p h)

  sort-Permᴰ : {xs ys : List A} → Permᴰ xs ys → All P xs → sort less xs ≡ sort less ys
  unfolding sort
  sort-Permᴰ Permᴰ.nil h = refl
  sort-Permᴰ (Permᴰ.cons e p) (h, hs) = rw (e, sort-Permᴰ p hs)
  sort-Permᴰ (Permᴰ.swap {a = a} {b = b} {l = l} e f) (h, (k, hs)) =
      sort_insert_comm a b (sort less l) h k (All-sort less P l hs) ∙ rw (e, f)
  sort-Permᴰ (Permᴰ.trans p q) h = sort-Permᴰ p h ∙ sort-Permᴰ q (All-Permᴰ p h)

  -- The order of the input does not matter.
  pub sort_congr : IsSet A → (xs ys : List A) → Perm xs ys → All P xs → sort less xs ≡ sort less ys
  sort_congr set xs ys p h = ∥∥₁_elim p (List.is_set set _ _) (λ d. sort-Permᴰ d h)
