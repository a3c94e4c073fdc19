-- ===== src/Tests/Api.antt =====
-- Requests of the API in the sample world.
use mathlib.Core.List.Perm
use argos_fx.Prelude.{
  arith, ◌≡◌, refl, true, [], ◌∷◌, List, none, some, Perm, IsSorted, All, if◌then◌else◌,
}
use argos_fx.Prelude.Sorted.{Before}
use argos_fx.Text.{Text, codes, to_upper, text_discrete, text_less, upper_code}
use argos_fx.Clock.{
  add_duration, neg_duration, minute, rfc3339, parse_rfc3339, seconds_duration, sub_time,
}
use argos_fx.Assoc.{get, put}
use argos_fx.Error.{Error, driver, Outcome, ok, err, is_insufficient}
use argos_fx.Float.Fixed.{Fixed-IsIeee, Fixed, micro, fixed_double}
use argos_fx.Metrics.{Metrics, new_metrics}
use argos_fx.Cache
use argos_fx.Cache.{Cache, new_cache}
use argos_fx.Store.{
  World, Provider, latest_reading_at, scan_provider, latest_rows, ◌>>=◌, now, query, arrange,
  latest_readings_per_provider, list_providers, scan_reading, provider_less, in_group, is_latest,
  max_fetched, fail, return,
}
use argos_fx.Aggregator.Types.{Result, usd}
use argos_fx.Aggregator.Compute.{oldest, compute, compute_upper, compute_pair}
use argos_fx.Aggregator.Direct.{
  compute_direct, direct_result, age_seconds, newest, name_by_id, add_names, add_sources, source_of,
  used_names, add_used, index_of, index_from, contains,
}
use argos_fx.Http.{
  is_allowed, provider_label, Server, Library, Json, rate, handle, every_rate, single_rate,
  single_rate_of, sorted_keys, HistoryQuery, history_range, day, readyz, refresh_all, ◌then_check◌,
}
use argos_fx.Http.Site.{Site, pair_key}
use argos_fx.Http.Effects.{handle-SameTables}
use argos_fx.Http.Sorted.{sorted_keys-IsSorted}
use argos_fx.Http.Answers.{readiness, readyz-readiness, IsRange, history_range-IsRange}
use argos_fx.Http.Cached.{tick, Is200, after_compute, single_rate-again}
use argos_fx.Http.Failed.{single_rate-failed, single_rate-too_few}
use argos_fx.Http.Gauges.{IsShown, refresh_all-IsShown}
use argos_fx.Prelude.Sort.{sort, sort_insert}
use argos_fx.Float.{float_less}
use argos_fx.Aggregator.Stats.{median, middle, filter_outliers, drop_outliers, within}
use argos_fx.Tests.Sample.{eur, brl, sample_world, sample_config, instant, provider_row_of}

rows : Unit {0}
unfolding latest_rows to_upper rfc3339 text_discrete is_insufficient median middle filter_outliers
    drop_outliers within sort float_less
rows = tt

whole : Unit {0}
unfolding rows compute compute_upper compute_pair ◌>>=◌ now compute_direct
    latest_readings_per_provider query arrange add_duration neg_duration seconds_duration
    list_providers age_seconds newest direct_result scan_provider scan_reading name_by_id add_names
    add_sources source_of used_names add_used index_of index_from contains parse_rfc3339 sub_time
    provider_less in_group is_latest max_fetched upper_code sort_insert text_less put fail return
whole = tt

abbrev body_of : Json Fixed → Text
body_of (rate r) = pair_key r.from r.to
body_of _ = codes "{}"

-- Texts are short here: a rate is its pair, and every duration is a minute.
abbrev pub sample_library : Library Fixed
sample_library = record {
  marshal = λ v. some (body_of v);
  unmarshal_rate = λ _. none;
  time_text = λ t. [];
  parse_time = λ _. none;
  duration_text = λ _. codes "1m0s";
  parse_duration = λ _. some minute;
  round_second = λ d. d;
  quoted = λ s. s;
  int_text = λ _. codes "60";
  error_text = λ _. codes "error";
  numbers = record { float = λ _. codes "1"; uint = λ _. codes "1" };
}

abbrev pub sample_server : Server Fixed
sample_server = record {
  agg = some sample_config;
  has_store = true;
  currencies = usd ∷ eur ∷ brl ∷ [];
  cache_ttl = minute;
  max_age = minute;
}

abbrev sample_cache : Cache Text
sample_cache = record { ttl = minute; items = [] }

abbrev sample_site : Site Fixed
sample_site = record { world = sample_world; cache = some sample_cache }

handle-SameTables_example :
    (handle sample_library sample_server every_rate sample_site).1.world.db ≡ sample_world.db
handle-SameTables_example =
    (handle-SameTables sample_library sample_server every_rate sample_site).same_db

sorted_keys-IsSorted_example :
    Perm (sorted_keys (eur ∷ brl ∷ [])) (eur ∷ brl ∷ [])
    × IsSorted (Before text_less) (sorted_keys (eur ∷ brl ∷ []))
    × ((other : List Text)
        → Perm (eur ∷ brl ∷ []) other
        → sorted_keys (eur ∷ brl ∷ []) ≡ sorted_keys other)
sorted_keys-IsSorted_example = sorted_keys-IsSorted (eur ∷ brl ∷ [])

sorted_two : sorted_keys (eur ∷ brl ∷ []) ≡ brl ∷ eur ∷ []
unfolding sorted_keys text_less
sorted_two = refl

one_line : codes "\n" ≡ 10 ∷ []
one_line = refl

readyz-readiness_example :
    (readyz sample_library sample_server sample_site).0.status
    ≡ readiness sample_library minute
        ((latest_reading_at sample_world).1.clock (latest_reading_at sample_world).1.ticks)
        (latest_reading_at sample_world).0
readyz-readiness_example = readyz-readiness sample_library sample_server sample_site refl refl

abbrev plain_query : HistoryQuery
plain_query = record { start = []; end = []; step = codes "1m" }

history_range-IsRange_example :
    IsRange sample_library plain_query instant
      (add_duration instant (neg_duration day), instant, minute)
unfolding history_range ◌then_check◌
history_range-IsRange_example =
    history_range-IsRange sample_library plain_query instant
      (add_duration instant (neg_duration day), instant, minute) refl

abbrev result_of : Outcome (Result Fixed) → Result Fixed
result_of (ok r) = r
result_of (err e) = record {
  from = [];
  to = [];
  rate = micro 0;
  freshness_seconds = micro 0;
  providers_used = [];
  sources = [];
  median_from = micro 0;
  median_to = micro 0;
  computed_at = 0;
}

abbrev computed_world : World Fixed
computed_world = after_compute sample_library sample_server sample_config usd eur sample_world

single_rate-again_example :
    (let first = single_rate sample_library sample_server usd eur sample_site in
      let again =
        single_rate sample_library sample_server usd
          (codes "eur")
          (record { world = sample_world; cache = first.1.cache }) in
      (first.0 ≡ Is200 sample_library sample_server sample_config usd eur (codes "USD->EUR"))
      × (again.0 ≡ first.0)
      × (again.1.world ≡ tick sample_world))
unfolding whole Cache.get Cache.find get is_allowed single_rate_of
single_rate-again_example =
    single_rate-again sample_library sample_server sample_config usd eur refl refl refl sample_world
      sample_world sample_cache (result_of (compute sample_config usd eur (tick sample_world)).0)
      (codes "USD->EUR") usd (codes "eur") refl refl refl refl refl refl

abbrev error_of : Outcome (Result Fixed) → Error
error_of (ok r) = driver
error_of (err e) = e

abbrev broken_world : World Fixed
broken_world = record sample_world { broken = λ _. true }

abbrev failure : Error
failure = error_of (compute sample_config usd eur (tick broken_world)).0

single_rate-failed_example :
    (single_rate sample_library sample_server usd eur
      (record { world = broken_world; cache = some sample_cache })).0.status
    ≡ (if is_insufficient failure then 503 else 500)
unfolding whole Cache.get Cache.find get is_allowed
single_rate-failed_example =
    (single_rate-failed sample_library sample_server sample_config usd eur broken_world sample_cache
      failure refl refl refl refl refl).0

abbrev two_providers : List Provider
two_providers =
    scan_provider (λ json. none) (provider_row_of 1 (codes "a"))
    ∷ scan_provider (λ json. none) (provider_row_of 2 (codes "b"))
    ∷ []

refresh_all-IsShown_example :
    (m : Metrics Fixed) × ((refresh_all sample_library instant two_providers 0
        sample_site).1.world.metrics
      ≡ some m)
    × All (IsShown sample_library instant sample_world.db.usage m) two_providers
unfolding scan_provider provider_label
refresh_all-IsShown_example =
    refresh_all-IsShown sample_library instant sample_world two_providers 0 new_metrics
      (some sample_cache) (λ _. refl) (((λ e. absurd (ground arith)), tt), (tt, tt))

-- No provider has a rate of the yen.
abbrev jpy : Text
jpy = codes "JPY"

abbrev wide_server : Server Fixed
wide_server = record sample_server { currencies = jpy ∷ usd ∷ [] }

single_rate-too_few_example :
    (single_rate sample_library wide_server (codes "jpy") usd sample_site).0.status ≡ 503
unfolding whole Cache.get Cache.find get is_allowed oldest
single_rate-too_few_example =
    single_rate-too_few Fixed-IsIeee sample_library wide_server sample_config (codes "jpy") usd
      sample_world sample_cache refl refl refl refl refl refl refl refl refl (Perm.refl _) refl
