-- ===== src/Tests/Rates.antt =====
-- The aggregator in the sample world.
use mathlib.Core.List.Perm
use argos_fx.Prelude.{◌≡◌, refl, arith}
use argos_fx.Prelude.Int.{pos}
use argos_fx.Text.{to_upper, text_discrete}
use argos_fx.Clock.{rfc3339}
use argos_fx.Error.{ok}
use argos_fx.Float.{◌≼◌}
use argos_fx.Float.Fixed.{Fixed, micro, fixed_double, Fixed-IsIeee}
use argos_fx.Store.{latest_rows, fresh_rows}
use argos_fx.Aggregator.Types.{Config, Result, usd}
use argos_fx.Aggregator.Direct.{compute_direct}
use argos_fx.Aggregator.Direct.Rate.{rate_of, row_rates, compute_direct-rate, compute_direct_bounds}
use argos_fx.Tests.Sample.{eur, sample_world, sample_config}

rows : Unit {0}
unfolding latest_rows to_upper rfc3339 text_discrete
rows = tt

abbrev strict_config : Config Fixed
strict_config = record sample_config { min_providers = pos 4 }

compute_direct-rate_example :
    (r : Result Fixed) × ((compute_direct sample_config eur 0 sample_world).0 ≡ ok r)
    × (r.rate ≡ rate_of sample_config (row_rates (fresh_rows sample_world eur 0)))
    × (r.from ≡ usd)
    × (r.to ≡ to_upper eur)
    × ((compute_direct sample_config eur 0 sample_world).1.db ≡ sample_world.db)
unfolding rows
compute_direct-rate_example =
    compute_direct-rate Fixed-IsIeee sample_config eur 0 sample_world refl (Perm.refl _) refl refl
      (ground arith)

compute_direct_bounds_example :
    (r : Result Fixed) × ((compute_direct sample_config eur 0 sample_world).0 ≡ ok r)
    × (micro 920000 ≼ r.rate)
    × (r.rate ≼ micro 2500000)
unfolding rows
compute_direct_bounds_example =
    compute_direct_bounds Fixed-IsIeee sample_config eur 0 sample_world refl (Perm.refl _)
      (micro 920000) (micro 2500000) refl refl (omega arith) (ground arith)
