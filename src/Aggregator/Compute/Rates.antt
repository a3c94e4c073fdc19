-- ===== src/Aggregator/Compute/Rates.antt =====
-- How the rates of pairs follow from the stored readings.
use argos_fx.Prelude.{ℕ, ◌+◌, ◌≡◌, true, false, arith, if◌then◌else◌, ap, length}
use argos_fx.Prelude.Int.{pos, ltb_ℤ}
use argos_fx.Text.{Text}
use argos_fx.Clock.{Time}
use argos_fx.Error.{ok}
use argos_fx.Float.{Double}
use argos_fx.Store.{World, M, text_eq, latest_arranged}
use argos_fx.Aggregator.Types.{Config, Result}
use argos_fx.Aggregator.Direct.{direct_result, compute_direct}
use argos_fx.Aggregator.Direct.Rate.{rate_of, row_rates, compute_direct_enough, rates-scan}
use argos_fx.Aggregator.Compute.{compute_pair, cross_result, inverse_of}
use argos_fx.Aggregator.Compute.Cases.{compute_pair-inverse, compute_cross-rate}

text_eq_refl : (s : Text) → text_eq s s ≡ true
text_eq_refl s = ground arith

module _ {F : Type 0} where
  -- The effect succeeds in this world, with this rate.
  abbrev pub HasRate : M F (Result F) → World F → F → Type 0
  HasRate m w x = (r : Result F) × ((m w).0 ≡ ok r) × (r.rate ≡ x)

module _ {F : Type 0} ⦃d : Double F⦄ (cfg : Config F) (since : Time) where
  -- The rate against the base: the median of the rates of the latest rows that pass the filter.
  abbrev pub side : World F → Text → F
  side w quote = rate_of cfg (row_rates (latest_arranged w quote since))

  direct_run :
      (quote : Text) (w : World F)
      → ((n : ℕ) → w.broken n ≡ false)
      → ltb_ℤ (pos (length (latest_arranged w quote since))) cfg.min_providers ≡ false
      → (r : Result F) × (n : ℕ) × (compute_direct cfg quote since w
          ≡ (ok r, record w { queries = w.queries + 1 + 1; ticks = n + 1 }))
        × (r.rate ≡ side w quote)
  unfolding direct_result
  direct_run quote w answers enough =
      let (_, n, run) = compute_direct_enough cfg quote since w (answers _) (answers _) enough in
      (_, n, run, rw (rates-scan (latest_arranged w quote since)))

module _ {F : Type 0} ⦃d : Double F⦄ (cfg : Config F) (from to : Text) (since : Time) (w : World F)
    (answers : (n : ℕ) → w.broken n ≡ false) where
  -- When the database answers and both currencies, neither of them the base, have enough rows, and
  -- the rate of the first is not zero: the pair from the base has the rate of its currency against
  -- the base, the pair to the base has one divided by that rate, and the pair of the two has the
  -- quotient of their rates, each computed from the same tables.
  pub compute_pair-rates :
      text_eq from cfg.base ≡ false
      → text_eq to cfg.base ≡ false
      → ltb_ℤ (pos (length (latest_arranged w from since))) cfg.min_providers ≡ false
      → ltb_ℤ (pos (length (latest_arranged w to since))) cfg.min_providers ≡ false
      → d.eq (side cfg since w from) d.nought ≡ false
      → HasRate (compute_pair cfg cfg.base to since) w (side cfg since w to)
        × HasRate (compute_pair cfg from cfg.base since) w (d.div d.one (side cfg since w from))
        × HasRate
            (compute_pair cfg from to since)
            w
            (d.div (side cfg since w to) (side cfg since w from))
  unfolding cross_result compute_pair inverse_of
  compute_pair-rates other_from other_to enough_from enough_to nonzero =
      let (f, n, first, f_rate) = direct_run cfg since from w answers enough_from in
      let (b, _, alone, b_rate) = direct_run cfg since to w answers enough_to in
      let (t, m, second, t_rate) =
        direct_run cfg since to (record w { queries = w.queries + 1 + 1; ticks = n + 1 }) answers
          enough_to in
      let f_nonzero : d.eq f.rate d.nought ≡ false = rw f_rate nonzero in
      let base = text_eq_refl cfg.base in
      let inverse =
        (compute_pair-inverse cfg from cfg.base since w f _ other_from base first f_nonzero).0 in
      let cross = compute_cross-rate cfg from to since w f t first second f_nonzero in
      let c = cross_result from to f t (w.clock (m + 1)) (w.clock (m + 1 + 1)) in
      (
        (b, rw (base, if◌then◌else◌) (ap (λ p. p.0) alone), b_rate),
        (_, ap (λ p. p.0) inverse, ap (d.div d.one) f_rate),
        (c, rw (other_from, other_to, if◌then◌else◌) (ap (λ p. p.0) cross), rw (t_rate, f_rate)),
      )
