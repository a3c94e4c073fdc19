-- ===== src/Error.antt =====
-- Errors as values: Go's `error` with `fmt.Errorf` and `%w`, and the pair of a result and an error.
-- A message is its format; the values printed in it are kept where the program reads them only.
use Prim.Native.String.{String}
use argos_fx.Prelude.{◌≡◌, ℕ, Bool, true, false}
use argos_fx.Prelude.Int.{ℤ}

pub data Error : Type 0 where
  -- an error of the database driver
  driver : Error
  -- a constraint of the schema is violated
  constraint : Error
  -- `sql.ErrNoRows`
  no_rows : Error
  -- an error of a provider's API
  upstream : Error
  -- `ErrInsufficientProviders`, with the numbers of its message: have and need
  insufficient_providers : ℕ → ℤ → Error
  -- `errors.New` and `fmt.Errorf` with no wrapped error
  message : String → Error
  -- `fmt.Errorf("context: %w", err)`
  wrap : String → Error → Error

-- `errors.Is(err, ErrInsufficientProviders)`.
unfoldable pub is_insufficient : Error → Bool
is_insufficient (insufficient_providers h n) = true
is_insufficient (wrap s e) = is_insufficient e
is_insufficient _ = false

-- `errors.Is(err, sql.ErrNoRows)`.
unfoldable pub is_no_rows : Error → Bool
is_no_rows no_rows = true
is_no_rows (wrap s e) = is_no_rows e
is_no_rows _ = false

pub data Outcome {ℓ} (A : Type ℓ) : Type ℓ where
  ok : A → Outcome A
  err : Error → Outcome A

-- `if err != nil { return fmt.Errorf("context: %w", err) }`.
abbrev pub in_context {ℓ} : {A : Type ℓ} → String → Outcome A → Outcome A
in_context s (ok a) = ok a
in_context s (err e) = err (wrap s e)

pub ok-inj : {A : Type 0} {a b : A} → Outcome.ok a ≡ ok b → a ≡ b
ok-inj h = cc
