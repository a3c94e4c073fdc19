-- ===== src/Tests/Stats.antt =====
-- `Median` and `FilterOutliers` on fixed-point numbers.
use argos_fx.Prelude.{
  ◌*◌, ◌≤◌, ◌<◌, ◌≡◌, refl, true, false, List, [], ◌∷◌, arith, length, count_p, keep,
}
use argos_fx.Prelude.Sort.{sort}
use argos_fx.Float.{float_less}
use argos_fx.Float.Fixed.{Fixed, micro, fixed_double, Fixed-IsIeee}
use argos_fx.Aggregator.Stats.{median, middle, filter_outliers, drop_outliers, within}
use argos_fx.Aggregator.Stats.Bounds.{median_middle}
use argos_fx.Aggregator.Stats.Filter.{filter_outliers_odd}

abbrev quotes : List Fixed
quotes = micro 930000 ∷ micro 920000 ∷ micro 2500000 ∷ []

abbrev shuffled : List Fixed
shuffled = micro 920000 ∷ micro 930000 ∷ micro 2500000 ∷ []

median_odd : median quotes ≡ (micro 930000, true)
unfolding median middle sort float_less
median_odd = refl

median_even : median (micro 1 ∷ micro 4 ∷ micro 2 ∷ micro 9 ∷ []) ≡ (micro 3, true)
unfolding median middle sort float_less
median_even = refl

median_empty : median {F = Fixed} [] ≡ (micro 0, false)
unfolding median
median_empty = refl

filter_drops : filter_outliers quotes (micro 20000) ≡ micro 930000 ∷ micro 920000 ∷ []
unfolding filter_outliers drop_outliers within median middle sort float_less
filter_drops = refl

median_middle_example :
    ((median quotes).1 ≡ true)
    × (3 ≤ 2 * count_p (λ v. fixed_double.le v (median quotes).0) quotes)
    × (3 ≤ 2 * count_p (λ v. fixed_double.le (median quotes).0 v) quotes)
median_middle_example = median_middle Fixed-IsIeee quotes (ground arith) (omega arith)

filter_outliers_odd_example :
    (filter_outliers quotes (micro 20000) ≡ keep (within (median quotes).0 (micro 20000)) quotes)
    × (0 < length (keep (within (median quotes).0 (micro 20000)) quotes))
filter_outliers_odd_example =
    filter_outliers_odd Fixed-IsIeee quotes (micro 20000) (ground arith) refl (omega arith)
      (ground arith)
