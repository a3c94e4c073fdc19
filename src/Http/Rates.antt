-- ===== src/Http/Rates.antt =====
-- internal/httpapi/httpapi.go: the handlers of rates.
use argos_fx.Prelude.{Bool, not, ◌||◌, List, [], ◌∷◌, ◌++◌, Option, none, some, any, if◌then◌else◌}
use argos_fx.Text.{Text, codes, text_discrete, to_upper}
use argos_fx.Assoc.{put}
use argos_fx.Error.{Error, Outcome, ok, err, is_insufficient}
use argos_fx.Float.{Double}
use argos_fx.Store.{text_eq}
use argos_fx.Aggregator.Types.{Config, Result, usd}
use argos_fx.Aggregator.Compute.{compute, all_currencies}
use argos_fx.Http.Types.{
  Server, Library, Response, SingleRateResponse, RatesResponse, rate, rates, write_error,
  write_json, write_bytes, with_max_age, single_rate_of,
}
use argos_fx.Http.Site.{H, ◌>>=◌, pure, run, now, cache_lookup, cache_store, pair_key}
use argos_fx.Http.SortedKeys.{sorted_keys}

-- `isAllowed`, and `allowedCodes`, whose order is the map's.
unfoldable pub is_allowed : {F : Type 0} → Server F → Text → Bool
is_allowed s code = any (text_eq code) s.currencies

abbrev pub allowed_codes : {F : Type 0} → Server F → List Text
allowed_codes s = s.currencies

-- The variables of the loops: the rates by code, the set of providers and the greatest freshness.
pub record Collected (F : Type 0) : Type 0 where
  pub out : List (Text × F)
  pub names : List Text
  pub freshness : F

-- `providers[p] = struct{}{}`.
unfoldable pub add_name : Text → List Text → List Text
add_name p names = if any (text_eq p) names then names else p ∷ names

unfoldable pub add_names : List Text → List Text → List Text
unfolding add_name
add_names [] names = names
add_names (p ∷ ps) names = add_names ps (add_name p names)

module _ {F : Type 0} ⦃d : Double F⦄ where
  abbrev pub nothing_yet : Collected F
  nothing_yet = record { out = []; names = []; freshness = d.nought }

  -- What one rate adds.
  unfoldable pub add_rate : Text → F → F → List Text → Collected F → Collected F
  unfolding add_names put
  add_rate code r freshness used acc = record {
    out = put text_discrete code r acc.out;
    names = add_names used acc.names;
    freshness = if d.lt acc.freshness freshness then freshness else acc.freshness;
  }

  -- The loop over the results of `AllCurrencies`.
  unfoldable pub add_results : List (Text × Result F) → Collected F → Collected F
  unfolding add_rate
  add_results [] acc = acc
  add_results ((code, res) ∷ rest) acc =
      add_results rest (add_rate code res.rate res.freshness_seconds res.providers_used acc)

module _ {F : Type 0} ⦃d : Double F⦄ (lib : Library F) (s : Server F) where
  unfoldable pub rates_response : Text → Collected F → Text → RatesResponse F
  unfolding sorted_keys
  rates_response base acc as_of = record {
    base = base;
    as_of = as_of;
    freshness_seconds = acc.freshness;
    providers_used = sorted_keys acc.names;
    rates = acc.out;
  }

  -- An error is logged only.
  abbrev results_of : Outcome (List (Text × Result F)) → List (Text × Result F)
  results_of (ok results) = results
  results_of (err e) = []

  abbrev all_key : Text
  all_key = codes "USD:*"

  unfoldable pub all_rates_computed : Config F → List Text → H F Response
  unfolding add_results rates_response write_bytes with_max_age
  all_rates_computed cfg code_list = do
    results ← run (all_currencies cfg code_list)
    t ← now
    let resp = rates_response usd (add_results (results_of results) nothing_yet) (lib.time_text t)
    body ← cache_store lib all_key (rates resp)
    pure (with_max_age lib s (write_bytes body))

  unfoldable pub all_rates_cached : Config F → List Text → Option Text → H F Response
  unfolding all_rates_computed write_bytes
  all_rates_cached cfg code_list (some body) = pure (write_bytes body)
  all_rates_cached cfg code_list none = all_rates_computed cfg code_list

  unfoldable pub all_rates_from : Config F → List Text → H F Response
  unfolding all_rates_cached write_json rates_response
  all_rates_from cfg [] = do
    t ← now
    pure (write_json lib 200 (rates (rates_response usd nothing_yet (lib.time_text t))))
  all_rates_from cfg (c ∷ code_list) = cache_lookup all_key >>= all_rates_cached cfg (c ∷ code_list)

  -- `allRates`.
  unfoldable pub all_rates : H F Response
  unfolding all_rates_from write_error
  all_rates = elim s.agg [
    | none ↦ pure (write_error lib 503 (codes "aggregator not configured"))
    | some cfg ↦ all_rates_from cfg (allowed_codes s)
  ]

  -- A cached body that does not parse counts as missing.
  abbrev parsed : Option Text → Option (SingleRateResponse F)
  parsed none = none
  parsed (some body) = lib.unmarshal_rate body

  unfoldable pub base_result : Text → Text → Collected F → Outcome (Result F) → H F (Collected F)
  unfolding add_rate single_rate_of
  base_result base code acc (err e) = pure acc
  base_result base code acc (ok res) = do
    t ← now
    _ ← cache_store lib (pair_key base code) (rate (single_rate_of lib res t))
    pure (add_rate code res.rate res.freshness_seconds res.providers_used acc)

  unfoldable pub base_found :
      Config F → Text → Text → Collected F → Option (SingleRateResponse F) → H F (Collected F)
  unfolding base_result add_rate
  base_found cfg base code acc (some v) =
      pure (add_rate code v.rate v.freshness_seconds v.providers_used acc)
  base_found cfg base code acc none = run (compute cfg base code) >>= base_result base code acc

  -- One round of the loop of `ratesFromBase`.
  unfoldable pub base_step : Config F → Text → Text → Collected F → H F (Collected F)
  unfolding base_found put
  base_step cfg base code acc =
      if text_eq code base
      then pure (record acc { out = put text_discrete code d.one acc.out })
      else do body ← cache_lookup (pair_key base code); base_found cfg base code acc (parsed body)

  unfoldable pub base_loop : Config F → Text → List Text → Collected F → H F (Collected F)
  unfolding base_step
  base_loop cfg base [] acc = pure acc
  base_loop cfg base (code ∷ rest) acc = do
    acc' ← base_step cfg base code acc
    base_loop cfg base rest acc'

  unfoldable pub base_rates : Config F → Text → H F Response
  unfolding base_loop rates_response write_json with_max_age
  base_rates cfg base = do
    acc ← base_loop cfg base (allowed_codes s) nothing_yet
    t ← now
    pure (
        with_max_age lib s (write_json lib 200 (rates (rates_response base acc (lib.time_text t)))))

  unfoldable pub rates_from_upper : Text → H F Response
  unfolding base_rates is_allowed write_error
  rates_from_upper base =
      if not (is_allowed s base)
      then pure
          (write_error lib 400 (codes "currency " ++ (lib.quoted base ++ codes " not allowed")))
      else elim s.agg [
        | none ↦ pure (write_error lib 503 (codes "aggregator not configured"))
        | some cfg ↦ base_rates cfg base
      ]

  -- `ratesFromBase`.
  unfoldable pub rates_from_base : Text → H F Response
  unfolding rates_from_upper
  rates_from_base base = rates_from_upper (to_upper base)

  unfoldable pub rate_failed : Error → Response
  unfolding write_error
  rate_failed e =
      if is_insufficient e
      then write_error lib 503 (lib.error_text e)
      else write_error lib 500 (lib.error_text e)

  unfoldable pub rate_result : Text → Text → Outcome (Result F) → H F Response
  unfolding rate_failed single_rate_of write_bytes with_max_age
  rate_result from to (err e) = pure (rate_failed e)
  rate_result from to (ok res) = do
    t ← now
    body ← cache_store lib (pair_key from to) (rate (single_rate_of lib res t))
    pure (with_max_age lib s (write_bytes body))

  unfoldable pub rate_found : Config F → Text → Text → Option Text → H F Response
  unfolding rate_result write_bytes with_max_age
  rate_found cfg from to (some body) = pure (with_max_age lib s (write_bytes body))
  rate_found cfg from to none = run (compute cfg from to) >>= rate_result from to

  unfoldable pub single_upper : Text → Text → H F Response
  unfolding rate_found is_allowed write_error
  single_upper from to =
      if not (is_allowed s from) || not (is_allowed s to)
      then pure (write_error lib 400 (codes "currency not allowed"))
      else elim s.agg [
        | none ↦ pure (write_error lib 503 (codes "aggregator not configured"))
        | some cfg ↦ cache_lookup (pair_key from to) >>= rate_found cfg from to
      ]

  -- `singleRate`.
  unfoldable pub single_rate : Text → Text → H F Response
  unfolding single_upper
  single_rate base quote = single_upper (to_upper base) (to_upper quote)
