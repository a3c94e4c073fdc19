-- ===== src/Store/Yields.antt =====
-- What the value of an effect that succeeds is known to be.
use argos_fx.Prelude.{◌≡◌, refl, Bool, true, false, if◌then◌else◌}
use mathlib.Core.Path.{subst}
use argos_fx.Error.{Error, ok-inj, Outcome, ok, err}
use argos_fx.Store.Monad.{Effect, ◌>>=◌, after, return, fail, of_outcome}

module _ {S A : Type 0} (P : A → Type 0) where
  pub record Yields (m : Effect S A) : Type 0 where
    pub at_success : (w : S) (a : A) → (m w).0 ≡ ok a → P a

  pub Yields-return : (a : A) → P a → Yields (return a)
  unfolding return
  Yields-return a p = record { at_success = λ w b h. subst P (ok-inj h) p }

  pub Yields-fail : (e : Error) → Yields (fail e)
  unfolding fail
  Yields-fail e = record { at_success = λ w b h. absurd cc h }

  pub Yields-of_outcome : (r : Outcome A) → ((a : A) → r ≡ ok a → P a) → Yields (of_outcome r)
  unfolding of_outcome
  Yields-of_outcome r p = record { at_success = λ w a h. p a h }

  pub Yields-if :
      (t : Bool) (m n : Effect S A)
      → (t ≡ true → Yields m)
      → (t ≡ false → Yields n)
      → Yields (if t then m else n)
  Yields-if true m n p q = p refl
  Yields-if false m n p q = q refl

module _ {S A B : Type 0} (Q : A → Type 0) (P : B → Type 0) where
  after-yields :
      (f : A → Effect S B) (out : Outcome A × S) (b : B)
      → ((a : A) → out.0 ≡ ok a → Q a)
      → ((a : A) → Q a → Yields P (f a))
      → (after f out).0 ≡ ok b
      → P b
  after-yields f (ok a, w) b q p h = (p a (q a refl)).at_success w b h
  after-yields f (err e, w) b q p h = absurd cc h

  pub Yields-bind :
      (m : Effect S A) (f : A → Effect S B)
      → Yields Q m
      → ((a : A) → Q a → Yields P (f a))
      → Yields P (m >>= f)
  unfolding ◌>>=◌
  Yields-bind m f q p = record { at_success = λ w b. after-yields f (m w) b (q.at_success w) p }

module _ {S A B : Type 0} (P : B → Type 0) where
  -- Whatever the first effect gives.
  pub Yields-any :
      (m : Effect S A) (f : A → Effect S B) → ((a : A) → Yields P (f a)) → Yields P (m >>= f)
  Yields-any m f p =
      Yields-bind (λ _. Unit) P m f (record { at_success = λ w a h. tt }) (λ a _. p a)
