-- ===== src/Provider.antt =====
-- internal/provider/provider.go: what a provider of rates is to the rest of the program. Its API is
-- not part of the repository: the answers to its calls are an arbitrary function.
use argos_fx.Prelude.{ℕ, List}
use argos_fx.Text.{Text}
use argos_fx.Clock.{Time}
use argos_fx.Error.{Outcome}

pub record Reading (F : Type 0) : Type 0 where
  pub base : Text
  pub quote : Text
  pub rate : F
  pub fetched_at : Time
  pub provider_ts : Text

pub record Provider (F : Type 0) : Type 0 where
  pub name : Text
  pub kind : Text
  -- the answer to the n-th call in the life of the program
  pub fetch : ℕ → Text → List Text → Outcome (List (Reading F))
