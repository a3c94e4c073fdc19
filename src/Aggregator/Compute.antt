-- ===== src/Aggregator/Compute.antt =====
-- internal/aggregator/aggregator.go: `Compute`, its three cases, and `AllCurrencies`.
pub mod Cases
pub mod Rates
pub mod Effects
pub mod Names
use argos_fx.Prelude.{
  ℕ, Bool, true, false, ◌||◌, List, [], ◌∷◌, ◌++◌, map, Option, none, some, ltb, if◌then◌else◌,
}
use argos_fx.Prelude.Int.{ℤ}
use argos_fx.Prelude.Sort.{sort}
use argos_fx.Text.{Text, codes, text_discrete, text_less, to_upper, is_empty}
use argos_fx.Clock.{Time, add_duration, neg_duration, seconds_duration, sub_time}
use argos_fx.Error.{Outcome, ok, err, in_context, message}
use argos_fx.Assoc.{get, put}
use argos_fx.Float.{Double}
use argos_fx.Store.{M, ◌>>=◌, ◌>>◌, return, fail, of_outcome, map_outcome, attempt, now, text_eq}
use argos_fx.Aggregator.Types.{Config, Source, Result}
use argos_fx.Aggregator.Direct.{contains, compute_direct}

-- One loop of `mergeUnique`; the map `seen` holds just what is in `out`.
unfoldable pub add_unseen : List Text → List Text → List Text
unfolding contains
add_unseen [] out = out
add_unseen (s ∷ ss) out = add_unseen ss (if contains out s then out else out ++ (s ∷ []))

unfoldable pub merge_unique : List Text → List Text → List Text
unfolding add_unseen
merge_unique xs ys = sort text_less (add_unseen ys (add_unseen xs []))

module _ {F : Type 0} ⦃d : Double F⦄ where
  -- `mergedSources[k+"→"+code] = v`, for each source.
  unfoldable pub merge_sources :
      Text → List (Text × Source F) → List (Text × Source F) → List (Text × Source F)
  unfolding put
  merge_sources code [] m = m
  merge_sources code ((k, v) ∷ sources) m =
      merge_sources code sources (put text_discrete (k ++ codes "→" ++ code) v m)

  abbrev pub invert_source : Source F → Source F
  invert_source s = record s { rate = d.div d.one s.rate }

  -- The loop builds the map anew, with the same keys.
  unfoldable pub invert_sources : List (Text × Source F) → List (Text × Source F)
  invert_sources = map λ s. (s.0, invert_source s.1)

  unfoldable pub inverse_of : Result F → Text → Result F
  unfolding invert_sources
  inverse_of r to = record r {
    from = r.to;
    to = to_upper to;
    rate = d.div d.one r.rate;
    median_from = r.median_to;
    median_to = d.div d.one r.rate;
    sources = invert_sources r.sources;
  }

  unfoldable pub invert_to : Result F → Text → Outcome (Result F)
  invert_to r to =
      if d.eq r.rate d.nought
      then err (message "rate is zero, cannot invert")
      else ok (inverse_of r to)

  -- The result of a cross rate, at two readings of the clock.
  unfoldable pub cross_result : Text → Text → Result F → Result F → Time → Time → Result F
  unfolding merge_sources merge_unique
  cross_result from to from_usd to_usd t t' =
      let freshness =
        if ltb to_usd.computed_at from_usd.computed_at
        then to_usd.computed_at
        else from_usd.computed_at in
      record {
        from = from;
        to = to;
        rate = d.div to_usd.rate from_usd.rate;
        freshness_seconds = d.seconds (sub_time t freshness);
        providers_used = merge_unique from_usd.providers_used to_usd.providers_used;
        sources = merge_sources to to_usd.sources (merge_sources from from_usd.sources []);
        median_from = from_usd.rate;
        median_to = to_usd.rate;
        computed_at = t';
      }

  unfoldable pub compute_cross : Config F → Text → Text → Time → M F (Result F)
  compute_cross cfg from to since = do
    from_usd ← map_outcome (in_context "from-side") (compute_direct cfg from since)
    to_usd ← map_outcome (in_context "to-side") (compute_direct cfg to since)
    (if d.eq from_usd.rate d.nought then fail (message "from-side rate is zero") else return tt)
    t ← now
    t' ← now
    return (cross_result from to from_usd to_usd t t')

  -- The oldest time that a reading may have.
  unfoldable pub oldest : Config F → Time → Time
  oldest cfg t = add_duration t (neg_duration (seconds_duration cfg.max_age_seconds))

  unfoldable pub identity : Text → Time → Result F
  identity code t = record {
    from = code;
    to = code;
    rate = d.one;
    freshness_seconds = d.nought;
    providers_used = [];
    sources = [];
    median_from = d.nought;
    median_to = d.nought;
    computed_at = t;
  }

  -- The `switch` of `Compute`, on texts in upper case.
  unfoldable pub compute_pair : Config F → Text → Text → Time → M F (Result F)
  compute_pair cfg from to since =
      if text_eq from cfg.base
      then compute_direct cfg to since
      else if text_eq to cfg.base
      then (do r ← compute_direct cfg from since; of_outcome (invert_to r to))
      else compute_cross cfg from to since

  unfoldable pub compute_upper : Config F → Text → Text → M F (Result F)
  unfolding compute_pair identity oldest
  compute_upper cfg from to =
      if is_empty from || is_empty to
      then fail (message "from and to are required")
      else if text_eq from to
      then (do t ← now; return (identity from t))
      else do t ← now; compute_pair cfg from to (oldest cfg t)

  unfoldable pub compute : Config F → Text → Text → M F (Result F)
  unfolding compute_upper
  compute cfg from to = compute_upper cfg (to_upper from) (to_upper to)

  -- A code whose rate fails is passed over.
  unfoldable pub add_found :
      Text → Outcome (Result F) → List (Text × Result F) → List (Text × Result F)
  unfolding put
  add_found code (ok r) out = put text_discrete code r out
  add_found code (err e) out = out

  -- One round of the loop of `AllCurrencies`: the base is passed over too.
  unfoldable pub collect_one :
      Config F → Time → Text → List (Text × Result F) → M F (List (Text × Result F))
  unfolding add_found
  collect_one cfg since code out =
      if text_eq code cfg.base
      then return out
      else do r ← attempt (compute_direct cfg code since); return (add_found code r out)

  unfoldable pub collect :
      Config F → Time → List Text → List (Text × Result F) → M F (List (Text × Result F))
  unfolding collect_one
  collect cfg since [] out = return out
  collect cfg since (code ∷ rest) out = do
    out' ← collect_one cfg since code out
    collect cfg since rest out'

  unfoldable pub all_currencies : Config F → List Text → M F (List (Text × Result F))
  unfolding collect oldest
  all_currencies cfg code_list = do t ← now; collect cfg (oldest cfg t) code_list []
