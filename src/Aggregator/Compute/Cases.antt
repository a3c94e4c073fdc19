-- ===== src/Aggregator/Compute/Cases.antt =====
-- The cases of `Compute`: which error, which names, and how the rate follows from the rates against
-- the base.
use argos_fx.Prelude.{
  ℕ, ◌+◌, ◌≡◌, refl, true, false, arith, if◌then◌else◌, ap, length, ltb, Bool-cases, inl, inr,
}
use argos_fx.Prelude.Int.{pos, ltb_ℤ}
use argos_fx.Text.{Text, to_upper}
use argos_fx.Text.Laws.{to_upper_idem}
use argos_fx.Clock.{Time, sub_time}
use argos_fx.Error.{Error, ok, err, wrap, is_insufficient}
use argos_fx.Float.{Double}
use argos_fx.Store.{World, ◌>>=◌, text_eq, now, latest_arranged}
use argos_fx.Aggregator.Types.{Config, Result}
use argos_fx.Aggregator.Direct.{direct_result, compute_direct}
use argos_fx.Aggregator.Direct.Rate.{rate_of, row_rates, compute_direct_enough, rates-scan}
use argos_fx.Aggregator.Compute.{
  compute, compute_pair, compute_cross, cross_result, invert_to, inverse_of,
}

-- Between times that are all one no time passes.
no_age : (t t' a b : Time) → t' ≡ t → a ≡ t → b ≡ t → sub_time t' (if ltb a b then a else b) ≡ pos 0
unfolding sub_time
no_age t t' a b p q r = ground arith

module _ {F : Type 0} ⦃d : Double F⦄ (cfg : Config F) where
  -- The case of the letters of the two codes does not matter.
  pub compute-to_upper :
      (from to : Text) (w : World F)
      → compute cfg (to_upper from) (to_upper to) w ≡ compute cfg from to w
  unfolding compute
  compute-to_upper from to w = rw (to_upper_idem from, to_upper_idem to)

  module _ (from to : Text) (since : Time) (w : World F) where
    -- A pair into the base is the inverse of the pair out of it: one divided by the rate, the two
    -- names exchanged, and the freshness and the providers of that rate.
    pub compute_pair-inverse :
        (r : Result F) (w' : World F)
        → text_eq from cfg.base ≡ false
        → text_eq to cfg.base ≡ true
        → compute_direct cfg from since w ≡ (ok r, w')
        → d.eq r.rate d.nought ≡ false
        → let x = inverse_of r to in
          (compute_pair cfg from to since w ≡ (ok x, w'))
          × (x.rate ≡ d.div d.one r.rate)
          × (x.from ≡ r.to)
          × (x.to ≡ to_upper to)
          × (x.freshness_seconds ≡ r.freshness_seconds)
          × (x.providers_used ≡ r.providers_used)
    unfolding compute_pair ◌>>=◌ invert_to inverse_of
    compute_pair-inverse r w' other base run nonzero =
        (rw (other, base, if◌then◌else◌, run, nonzero), refl, refl, refl, refl, refl)

    -- The rate of a pair that does not name the base is the quotient of the two rates against the
    -- base, the second over the first.
    pub compute_cross-rate :
        (f t : Result F) {w' w'' : World F}
        → compute_direct cfg from since w ≡ (ok f, w')
        → compute_direct cfg to since w' ≡ (ok t, w'')
        → d.eq f.rate d.nought ≡ false
        → compute_cross cfg from to since w ≡ (
          ok (cross_result from to f t (w''.clock w''.ticks) (w''.clock (w''.ticks + 1))),
          record w'' { ticks = w''.ticks + 1 + 1 },
        )
    unfolding compute_cross ◌>>=◌ now
    compute_cross-rate f t first second nonzero =
        rw (first, compute_cross, second, nonzero, if◌then◌else◌)

    -- If the first currency of a pair, which is not the base, has too few providers, then the error
    -- of the pair says so to `errors.Is`, for an inverse and for a cross rate.
    pub compute_pair-insufficient_from :
        (e : Error) {w' : World F}
        → text_eq from cfg.base ≡ false
        → compute_direct cfg from since w ≡ (err e, w')
        → is_insufficient e ≡ true
        → (e' : Error) × ((compute_pair cfg from to since w).0 ≡ err e')
          × (is_insufficient e' ≡ true)
    unfolding compute_pair compute_cross ◌>>=◌ is_insufficient
    compute_pair-insufficient_from e other failed known = elim (Bool-cases (text_eq to cfg.base)) [
      | inl base ↦ (e, rw (other, base, if◌then◌else◌, failed), known)
      | inr cross ↦
          (wrap "from-side" e, rw (other, cross, if◌then◌else◌, compute_cross, failed), known)
    ]

    -- If the second currency of a cross rate has too few providers, then the error of the pair says
    -- so to `errors.Is`.
    pub compute_pair-insufficient_to :
        (f : Result F) (e : Error) {w' w'' : World F}
        → text_eq from cfg.base ≡ false
        → text_eq to cfg.base ≡ false
        → compute_direct cfg from since w ≡ (ok f, w')
        → compute_direct cfg to since w' ≡ (err e, w'')
        → is_insufficient e ≡ true
        → (e' : Error) × ((compute_pair cfg from to since w).0 ≡ err e')
          × (is_insufficient e' ≡ true)
    unfolding compute_pair compute_cross ◌>>=◌ is_insufficient
    compute_pair-insufficient_to f e other cross first failed known =
        (wrap "to-side" e, rw (other, cross, if◌then◌else◌, compute_cross, first, failed), known)

    -- A cross rate that is computed while the clock stands still, from a database that answers with
    -- enough rows for both currencies, the first of a rate that is not zero, has the freshness of
    -- zero seconds, however old the readings of its two sides are.
    pub compute_cross-freshness :
        (t : Time)
        → ((n : ℕ) → w.clock n ≡ t)
        → ((n : ℕ) → w.broken n ≡ false)
        → ltb_ℤ (pos (length (latest_arranged w from since))) cfg.min_providers ≡ false
        → ltb_ℤ (pos (length (latest_arranged w to since))) cfg.min_providers ≡ false
        → d.eq (rate_of cfg (row_rates (latest_arranged w from since))) d.nought ≡ false
        → (r : Result F) × ((compute_cross cfg from to since w).0 ≡ ok r)
          × (r.freshness_seconds ≡ d.seconds (pos 0))
    unfolding direct_result cross_result
    compute_cross-freshness t stands answers enough_from enough_to nonzero =
        let (_, n, first) =
          compute_direct_enough cfg from since w (answers _) (answers _) enough_from in
        let (_, m, second) =
          compute_direct_enough cfg to since
            (record w { queries = w.queries + 1 + 1; ticks = n + 1 }) (answers _) (answers _)
            enough_to in
        (
          _,
          ap (λ p. p.0)
              (compute_cross-rate _ _ first second
                (rw (rates-scan (latest_arranged w from since)) nonzero)),
          ap d.seconds (no_age t _ _ _ (stands _) (stands _) (stands _)),
        )
