-- ===== src/Prelude/Pairwise.antt =====
-- Lists in which each item stands in a relation to every later one.
use argos_fx.Prelude.Tests.{if◌then◌else◌, Bool-cases}
use argos_fx.Prelude.Lists.{All, All-append, All-keep, keep}
use mathlib.Core.Bool.{Bool}
use mathlib.Core.Logic.{inl, inr}
use mathlib.Core.List.{List, [], ◌∷◌, ◌++◌}

module _ {ℓ κ} {A : Type ℓ} (R : A → A → Type κ) where
  abbrev pub IsPairwise : List A → Type κ
  IsPairwise [] = Unit
  IsPairwise (x ∷ xs) = All (R x) xs × IsPairwise xs

  pub IsPairwise-append_one :
      (xs : List A) (y : A) → IsPairwise xs → All (λ x. R x y) xs → IsPairwise (xs ++ (y ∷ []))
  IsPairwise-append_one [] y _ _ = (tt, tt)
  IsPairwise-append_one (x ∷ xs) y (p, ps) (q, qs) =
      (All-append (R x) xs (y ∷ []) p (q, tt), IsPairwise-append_one xs y ps qs)

  pub IsPairwise-keep : (t : A → Bool) (xs : List A) → IsPairwise xs → IsPairwise (keep t xs)
  IsPairwise-keep t [] _ = tt
  IsPairwise-keep t (x ∷ xs) (p, ps) = elim (Bool-cases (t x)) [
    | inl e ↦ rw (e, if◌then◌else◌) (All-keep t (R x) xs p, IsPairwise-keep t xs ps)
    | inr e ↦ rw (e, if◌then◌else◌) (IsPairwise-keep t xs ps)
  ]
