-- ===== src/Tests/Starts.antt =====
-- A start on a new database, with two providers.
use argos_fx.Prelude.{arith, ◌≡◌, refl, true, List, [], ◌∷◌, none, some}
use argos_fx.Prelude.Int.{pos}
use argos_fx.Text.{Text, codes, text_discrete}
use argos_fx.Error.{ok, Outcome, err}
use argos_fx.Float.Fixed.{Fixed, fixed_double, micro}
use argos_fx.Config
use argos_fx.Store.{
  World, ◌>>=◌, now, query, return, attempt, upsert_provider, upsert_sql, find_provider,
  provider_row,
}
use argos_fx.Store.Sound.{new_db}
use argos_fx.Start.{Started, start_providers, job_of, start_provider, stored_provider}
use argos_fx.Start.Jobs.{IsServed, start_providers-IsServed}
use argos_fx.Config.{is_enabled}
use argos_fx.Clock.{rfc3339}
use argos_fx.Assoc.{get}
use argos_fx.Scheduler.{compute_schedule}
use argos_fx.Adapters.{named, yahoo_fetch, new_yahoo, new_from_config, string_config}
use argos_fx.Http.Site.{Site}
use argos_fx.Tests.Sample.{eur, brl, sample_world}
use argos_fx.Tests.Fetches.{steady}

abbrev settings : Text → Text → Config.Provider
settings name kind = record {
  name = name;
  kind = kind;
  config = none;
  priority = pos 0;
  calls_per_day = some (pos 4);
  schedule_cron = [];
  enabled = true;
}

abbrev two_settings : List Config.Provider
two_settings =
    settings (codes "a") (codes "yahoo") ∷ settings (codes "b") (codes "frankfurter") ∷ []

abbrev new_world : World Fixed
new_world = record sample_world { db = new_db }

start_providers-IsServed_example :
    (started : List (Started Fixed)) × ((start_providers steady
        (λ _. true)
        (eur ∷ brl ∷ [])
        two_settings
        []
        new_world).0
      ≡ ok started)
    × IsServed started
        (start_providers steady
          (λ _. true)
          (eur ∷ brl ∷ [])
          two_settings
          []
          new_world).1.db.providers
start_providers-IsServed_example =
    start_providers-IsServed steady (λ _. true) (eur ∷ brl ∷ []) two_settings 0 new_world refl
      (((λ e. absurd (ground arith)), tt), (tt, tt))

abbrev pub two_config : Config.Config Fixed
two_config = record {
  server = record { listen = codes ":8080" };
  cache = record { compute_ttl_seconds = pos 60; http_cache_max_age_sec = pos 60 };
  aggregator = record {
    outlier_tolerance_pct = micro 2_000_000;
    min_providers = pos 1;
    max_age_seconds = pos 400;
    retention_days = pos 30;
  };
  providers = two_settings;
}

abbrev pub polls_of : Outcome (List (Started Fixed)) → List (Started Fixed)
polls_of (ok started) = started
polls_of (err e) = []

abbrev registered_polls : List (Started Fixed)
registered_polls =
    polls_of (start_providers steady (λ _. true) (eur ∷ brl ∷ []) two_settings [] new_world).0

abbrev pub yahoo_poll : Started Fixed
yahoo_poll =
    job_of steady (λ _. true) (eur ∷ brl ∷ []) (settings (codes "a") (codes "yahoo"))
      (named steady (codes "yahoo")
        (yahoo_fetch steady (new_yahoo (codes "https://query2.finance.yahoo.com"))))
      1

abbrev started_site : Site Fixed
started_site = record {
  world = (start_providers steady (λ _. true) (eur ∷ brl ∷ []) two_settings [] new_world).1;
  cache = none;
}

unfoldable pub whole : Unit {0}
unfolding start_providers start_provider is_enabled new_from_config string_config get text_discrete
    ◌>>=◌ upsert_provider upsert_sql find_provider now query return attempt stored_provider
    compute_schedule rfc3339 provider_row
whole = tt
