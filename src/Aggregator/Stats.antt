-- ===== src/Aggregator/Stats.antt =====
-- internal/aggregator/stats.go: the median of a list of rates, and the outlier filter.
pub mod Bounds
pub mod Filter
use argos_fx.Prelude.{
  ℕ, ◌-◌, ◌/◌, ◌%◌, ◌≡◌, Bool, true, false, not, ◌||◌, List, [], ◌∷◌, arith, length, get_or, leb,
  ◌==◌, if◌then◌else◌, keep,
}
use argos_fx.Prelude.Sort.{sort}
use argos_fx.Float.{Double, float_less}

module _ {F : Type 0} ⦃d : Double F⦄ where
  -- The rest of `Median` behind the sort. An index out of range would be a panic; `Bounds` shows
  -- that both indices are in range.
  unfoldable pub middle : List F → F
  middle sorted =
      let mid = length sorted / 2 in
      if length sorted % 2 == 0
      then d.div (d.add (get_or sorted (mid - 1) d.nought) (get_or sorted mid d.nought)) d.two
      else get_or sorted mid d.nought

  unfoldable pub median : List F → F × Bool
  median [] = (d.nought, false)
  median (x ∷ xs) = (middle (sort float_less (x ∷ xs)), true)

  -- The test of the filter's loop.
  unfoldable pub within : F → F → F → Bool
  within med tolerance v = d.le (d.div (d.abs (d.sub v med)) med) tolerance

  -- The loop of `FilterOutliers` and what follows it.
  unfoldable pub drop_outliers : F → F → List F → List F
  drop_outliers med tolerance values =
      let out = keep (within med tolerance) values in if length out == 0 then values else out

  unfoldable pub filter_outliers : List F → F → List F
  filter_outliers values tolerance =
      if leb (length values) 2 || d.le tolerance d.nought
      then values
      else let (med, found) = median values in
        if not found || d.eq med d.nought then values else drop_outliers med tolerance values
