-- ===== src/Aggregator/Types.antt =====
-- internal/aggregator/aggregator.go: the configuration and the results.
use argos_fx.Prelude.{ℕ, List, if◌then◌else◌}
use argos_fx.Prelude.Int.{ℤ}
use argos_fx.Text.{Text, codes, is_empty}
use argos_fx.Clock.{Time}

pub record Config (F : Type 0) : Type 0 where
  pub outlier_tolerance_pct : F
  pub min_providers : ℤ
  pub max_age_seconds : ℤ
  pub base : Text

pub record Source (F : Type 0) : Type 0 where
  pub provider_id : ℕ
  pub provider_name : Text
  pub rate : F
  pub fetched_at : Time
  pub provider_ts : Text

pub record Result (F : Type 0) : Type 0 where
  pub from : Text
  pub to : Text
  pub rate : F
  pub freshness_seconds : F
  pub providers_used : List Text
  pub sources : List (Text × Source F)
  pub median_from : F
  pub median_to : F
  pub computed_at : Time

abbrev pub usd : Text
usd = codes "USD"

-- `New`, but for the handle of the database, which is the world's.
unfoldable pub new : {F : Type 0} → Config F → Config F
new cfg = record cfg { base = if is_empty cfg.base then usd else cfg.base }
