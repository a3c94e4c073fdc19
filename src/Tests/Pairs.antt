-- ===== src/Tests/Pairs.antt =====
-- Pairs of currencies in the sample world.
use argos_fx.Prelude.{◌≡◌, refl}
use argos_fx.Prelude.Int.{pos}
use argos_fx.Text.{Text, codes, to_upper, text_discrete}
use argos_fx.Clock.{rfc3339}
use argos_fx.Error.{ok, is_insufficient}
use argos_fx.Float.Fixed.{Fixed, fixed_double}
use argos_fx.Prelude.Sort.{sort}
use argos_fx.Store.{latest_rows}
use argos_fx.Float.{float_less}
use argos_fx.Aggregator.Stats.{median, middle, filter_outliers, drop_outliers, within}
use argos_fx.Aggregator.Types.{Result, usd}
use argos_fx.Aggregator.Compute.{compute_pair, compute_cross}
use argos_fx.Aggregator.Compute.Cases.{compute_cross-freshness}
use argos_fx.Aggregator.Compute.Rates.{HasRate, side, compute_pair-rates}
use argos_fx.Tests.Sample.{eur, brl, instant, sample_world, sample_config}

rows : Unit {0}
unfolding latest_rows to_upper rfc3339 text_discrete is_insufficient median middle filter_outliers
    drop_outliers within sort float_less
rows = tt

abbrev zzz : Text
zzz = codes "ZZZ"

compute_pair-rates_example :
    HasRate
      (compute_pair sample_config usd eur 0)
      sample_world
      (side sample_config 0 sample_world eur)
    × HasRate
        (compute_pair sample_config brl usd 0)
        sample_world
        (fixed_double.div fixed_double.one (side sample_config 0 sample_world brl))
    × HasRate (compute_pair sample_config brl eur 0) sample_world (
        fixed_double.div
          (side sample_config 0 sample_world eur)
          (side sample_config 0 sample_world brl))
unfolding rows
compute_pair-rates_example =
    compute_pair-rates sample_config brl eur 0 sample_world (λ _. refl) refl refl refl refl refl

compute_cross-freshness_example :
    (r : Result Fixed) × ((compute_cross sample_config brl eur 0 sample_world).0 ≡ ok r)
    × (r.freshness_seconds ≡ fixed_double.seconds (pos 0))
unfolding rows
compute_cross-freshness_example =
    compute_cross-freshness sample_config brl eur 0 sample_world instant (λ _. refl) (λ _. refl)
      refl refl refl
