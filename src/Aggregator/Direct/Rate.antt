-- ===== src/Aggregator/Direct/Rate.antt =====
-- The rate of one currency against the base, by the table of readings alone.
use mathlib.Core.List.Perm
use argos_fx.Prelude.{
  ℕ, ◌+◌, ◌≡◌, ◌<◌, refl, sym, All-map_pred, true, false, List, [], ◌∷◌, map, length, All, Perm,
  if◌then◌else◌, ◌==◌, length-map, length-perm, Bool-cases, inl, inr, ap,
}
use argos_fx.Prelude.Int.{pos, ltb_ℤ}
use argos_fx.Text.{Text, to_upper}
use argos_fx.Prelude.Sort.{sort}
use argos_fx.Clock.{Time, sub_time}
use argos_fx.Error.{ok, err, insufficient_providers}
use argos_fx.Float.{Double, IsIeee, IsPositive, ◌≼◌}
use argos_fx.Store.{
  ReadingRow, World, ◌>>=◌, now, scan_reading, scan_provider, provider_less, asked, fresh_rows,
  latest_arranged, latest_readings_answer, list_providers_answer,
}
use argos_fx.Aggregator.Types.{Config, Result}
use argos_fx.Aggregator.Stats.{median, filter_outliers}
use argos_fx.Aggregator.Stats.Bounds.{IsModest, median_bounds, median-perm}
use argos_fx.Aggregator.Stats.Filter.{
  filter_outliers-perm, All-filter_outliers, filter_outliers-sublist,
}
use argos_fx.Aggregator.Direct.{rates, newest, age_seconds, direct_result, compute_direct}

module _ {F : Type 0} ⦃d : Double F⦄ where
  abbrev pub row_rates : List (ReadingRow F) → List F
  row_rates = map λ r. r.rate

  -- The specification: the median of the rates that pass the outlier filter.
  abbrev pub rate_of : Config F → List F → F
  rate_of cfg values =
      (median (filter_outliers values (d.div cfg.outlier_tolerance_pct d.hundred))).0

  pub rates-scan : (rows : List (ReadingRow F)) → rates (map scan_reading rows) ≡ row_rates rows
  unfolding scan_reading
  rates-scan [] = refl
  rates-scan (r ∷ rows) = rw (rates-scan rows)

  age_seconds_answer :
      (t : Time) (w : World F)
      → (age : F) × (n : ℕ) × (age_seconds t w ≡ (ok age, record w { ticks = n }))
  unfolding age_seconds ◌>>=◌ now
  age_seconds_answer t w = elim (Bool-cases (t == 0)) [
    | inl e ↦ (d.nought, w.ticks, rw (e, if◌then◌else◌))
    | inr e ↦ (d.seconds (sub_time (w.clock w.ticks) t), w.ticks + 1, rw (e, if◌then◌else◌))
  ]

module _ {F : Type 0} ⦃d : Double F⦄ (cfg : Config F) (quote : Text) (since : Time) (w : World F)
    (first_answers : w.broken w.queries ≡ false) where
  pub compute_direct_few :
      ltb_ℤ (pos (length (latest_arranged w quote since))) cfg.min_providers ≡ true
      → (compute_direct cfg quote since w).0
        ≡ err (insufficient_providers (length (latest_arranged w quote since)) cfg.min_providers)
  unfolding compute_direct ◌>>=◌
  compute_direct_few few = rw (
    latest_readings_answer w first_answers quote since,
    compute_direct,
    length-map scan_reading (latest_arranged w quote since),
    few,
    if◌then◌else◌,
  )

  pub compute_direct_enough :
      w.broken (w.queries + 1) ≡ false
      → ltb_ℤ (pos (length (latest_arranged w quote since))) cfg.min_providers ≡ false
      → (age : F) × (n : ℕ) × (compute_direct cfg quote since w ≡ (
        ok (
            direct_result cfg quote
              (map scan_reading (latest_arranged w quote since))
              (map (λ r. r.provider_id) (latest_arranged w quote since))
              (map (scan_provider w.unmarshal_config) (sort provider_less w.db.providers))
              age
              (w.clock n)),
        record w { queries = w.queries + 1 + 1; ticks = n + 1 },
      ))
  unfolding compute_direct ◌>>=◌ now
  compute_direct_enough second_answers enough =
      let readings = map scan_reading (latest_arranged w quote since) in
      let (age, n, aged) =
        age_seconds_answer (newest readings 0) (record w { queries = w.queries + 1 + 1 }) in
      (
        age,
        n,
        rw (
          latest_readings_answer w first_answers quote since,
          compute_direct,
          length-map scan_reading (latest_arranged w quote since),
          enough,
          if◌then◌else◌,
          list_providers_answer (asked w) second_answers,
          aged,
        ),
      )

module _ {F : Type 0} ⦃d : Double F⦄ (laws : IsIeee F) (cfg : Config F) where
  -- The rate does not depend on the order of the readings.
  rate_of-perm : (xs ys : List F) → Perm xs ys → All IsPositive xs → rate_of cfg xs ≡ rate_of cfg ys
  rate_of-perm xs ys p h =
      ap (λ m. m.0)
        (median-perm laws _ _ (filter_outliers-perm laws xs ys _ p h)
          (All-filter_outliers xs _ IsPositive h))

  rate_of_bounds :
      (lo hi : F) (xs : List F)
      → All (λ v. IsModest v × (lo ≼ v) × (v ≼ hi)) xs
      → 0 < length xs
      → (lo ≼ rate_of cfg xs) × (rate_of cfg xs ≼ hi)
  rate_of_bounds lo hi xs h some_rates =
      let tolerance = d.div cfg.outlier_tolerance_pct d.hundred in
      median_bounds laws lo hi (filter_outliers xs tolerance)
        (All-filter_outliers xs tolerance (λ v. IsModest v × (lo ≼ v) × (v ≼ hi)) h)
        (filter_outliers-sublist xs tolerance some_rates).1

module _ {F : Type 0} ⦃d : Double F⦄ (laws : IsIeee F) (cfg : Config F) (quote : Text)
    (since : Time) (w : World F) (first_answers : w.broken w.queries ≡ false)
    (shuffled : Perm (latest_arranged w quote since) (fresh_rows w quote since)) where
  -- With fewer rows for the currency, fresh and the latest of their providers, than the configured
  -- least number, `computeDirect` returns the error for too few providers, with both numbers.
  pub compute_direct-too_few :
      ltb_ℤ (pos (length (fresh_rows w quote since))) cfg.min_providers ≡ true
      → (compute_direct cfg quote since w).0
        ≡ err (insufficient_providers (length (fresh_rows w quote since)) cfg.min_providers)
  compute_direct-too_few few =
      let same = length-perm _ _ shuffled in
      rw (← same) (compute_direct_few cfg quote since w first_answers (rw same few))

  -- With enough of these rows, whose rates are positive, and a database that answers, it succeeds.
  -- The rate is the median of the rates that pass the outlier filter, whatever the order in which
  -- the database returns the rows; the result names the base and the currency in upper case, and
  -- the database is left as it is.
  pub compute_direct-rate :
      w.broken (w.queries + 1) ≡ false
      → ltb_ℤ (pos (length (fresh_rows w quote since))) cfg.min_providers ≡ false
      → All IsPositive (row_rates (fresh_rows w quote since))
      → (r : Result F) × ((compute_direct cfg quote since w).0 ≡ ok r)
        × (r.rate ≡ rate_of cfg (row_rates (fresh_rows w quote since)))
        × (r.from ≡ cfg.base)
        × (r.to ≡ to_upper quote)
        × ((compute_direct cfg quote since w).1.db ≡ w.db)
  unfolding direct_result
  compute_direct-rate second_answers enough positive =
      let same = length-perm _ _ shuffled in
      let (age, n, run) =
        compute_direct_enough cfg quote since w first_answers second_answers (rw same enough) in
      let rows = latest_arranged w quote since in
      let rated : rate_of cfg (rates (map scan_reading rows)) ≡ _ =
        rw (rates-scan rows) (
          sym (rate_of-perm laws cfg _ _ (Perm.map (λ r. r.rate) (Perm.symm shuffled)) positive)) in
      (_, ap (λ p. p.0) run, rated, refl, refl, ap (λ p. p.1.db) run)

  -- If these rates lie between two bounds, none of them so large that its double overflows, and
  -- there is at least one, the computed rate lies between the bounds too.
  pub compute_direct_bounds :
      (lo hi : F)
      → w.broken (w.queries + 1) ≡ false
      → ltb_ℤ (pos (length (fresh_rows w quote since))) cfg.min_providers ≡ false
      → 0 < length (fresh_rows w quote since)
      → All (λ v. IsModest v × (lo ≼ v) × (v ≼ hi)) (row_rates (fresh_rows w quote since))
      → (r : Result F) × ((compute_direct cfg quote since w).0 ≡ ok r)
        × (lo ≼ r.rate)
        × (r.rate ≼ hi)
  compute_direct_bounds lo hi second_answers enough some_rows bounded =
      let values = row_rates (fresh_rows w quote since) in
      let positive : All IsPositive values = All-map_pred (λ v p. p.0.0) values bounded in
      let (r, run, rated, _, _, _) = compute_direct-rate second_answers enough positive in
      let (low, high) =
        rate_of_bounds laws cfg lo hi values bounded
          (rw (length-map (λ (r : ReadingRow F). r.rate) (fresh_rows w quote since)) some_rows) in
      (r, run, rw rated low, rw rated high)
