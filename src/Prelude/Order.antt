-- ===== src/Prelude/Order.antt =====
-- Lists in ascending order, for an order that is given as a family.
use mathlib.Core.List.{List, [], ◌∷◌}
use argos_fx.Prelude.Lists.{All}

module _ {ℓ κ} {A : Type ℓ} where
  abbrev pub IsSorted : (A → A → Type κ) → List A → Type κ
  IsSorted R [] = Unit
  IsSorted R (x ∷ xs) = All (R x) xs × IsSorted R xs

module _ {ℓ κ μ ν} {A : Type ℓ} {P : A → Type μ} where
  All-map :
      {R : A → Type κ} {S : A → Type ν} (ys : List A)
      → ((b : A) → P b → R b → S b)
      → All P ys
      → All R ys
      → All S ys
  All-map [] f _ _ = tt
  All-map (y ∷ ys) f (q, qs) (k, ks) = (f y q k, All-map ys f qs ks)

  pub IsSorted-map :
      {R : A → A → Type κ} {S : A → A → Type ν}
      → ((a b : A) → P a → P b → R a b → S a b)
      → (xs : List A) → All P xs
      → IsSorted R xs
      → IsSorted S xs
  IsSorted-map f [] _ _ = tt
  IsSorted-map {R} {S} f (x ∷ xs) (p, ps) (h, s) =
      (All-map {R = R x} {S = S x} xs (λ b. f x b p) ps h, IsSorted-map f xs ps s)
