-- ===== src/Tests/Polls.antt =====
-- Polls of a provider with a limit of two calls a day, in the sample world.
use argos_fx.Prelude.{none, ◌*◌, ◌^◌, ◌≡◌, ◌++◌, List, refl, [], ◌∷◌, arith}
use argos_fx.Prelude.Int.{pos}
use argos_fx.Text.{codes, text_discrete}
use argos_fx.Clock.{day_of}
use argos_fx.Error.{Outcome, ok, err, upstream, wrap}
use argos_fx.Float.Fixed.{Fixed, micro, fixed_double}
use argos_fx.Provider
use argos_fx.Store.{Db, World, upsert_sql, scan_provider, bump_usage, usage_count}
use argos_fx.Store.ReadOnly.{SameData}
use argos_fx.Store.Sound.{new_db}
use argos_fx.Aggregator.Types.{usd}
use argos_fx.Scheduler.{
  compute_schedule, kind_every, ProviderJob, run_once, budget_allowed, record_two,
}
use argos_fx.Scheduler.Outcomes.{
  rows_from, run_once-exhausted, run_once-upstream_error, run_once-stored,
}
use argos_fx.Tests.Sample.{eur, instant, provider_row_of, sample_world}

abbrev quote : Provider.Reading Fixed
quote = record {
  base = usd;
  quote = eur;
  rate = micro 910000;
  fetched_at = instant;
  provider_ts = [];
}

abbrev job_of : Outcome (List (Provider.Reading Fixed)) → ProviderJob Fixed
job_of answer = record {
  provider_id = 2;
  provider = record {
    name = codes "moneyconvert";
    kind = codes "moneyconvert";
    fetch = λ _ _ _. answer;
  };
  currency_codes = eur ∷ [];
  base = usd;
  calls_per_day = pos 2;
}

abbrev pub job : ProviderJob Fixed
job = job_of (ok (quote ∷ []))

abbrev broken_job : ProviderJob Fixed
broken_job = job_of (err upstream)

abbrev two_calls : World Fixed
two_calls = record sample_world {
  db = record sample_world.db { usage = record { provider_id = 2; day = 0; count = 2 } ∷ [] };
}

run : Unit {0}
unfolding usage_count day_of budget_allowed text_discrete
run = tt

run_once-exhausted_example :
    ((run_once job two_calls).0 ≡ ok tt) × SameData two_calls (run_once job two_calls).1
unfolding run
run_once-exhausted_example = run_once-exhausted job two_calls refl 1 refl (omega arith)

run_once-upstream_error_example :
    ((run_once broken_job sample_world).0 ≡ err (wrap "fetch" upstream))
    × ((run_once broken_job sample_world).1.db ≡ sample_world.db)
    × ((run_once broken_job sample_world).1.fetches ≡ 1)
    × ((run_once broken_job sample_world).1.metrics
        ≡ record_two
            (codes "argosfx_fetch_errors_total")
            (codes "moneyconvert")
            sample_world.metrics)
unfolding run
run_once-upstream_error_example =
    run_once-upstream_error broken_job sample_world refl upstream refl refl

run_once-stored_example :
    ((run_once job sample_world).0 ≡ ok tt)
    × ((run_once job sample_world).1.db.readings
        ≡ sample_world.db.readings ++ rows_from 6 2 (quote ∷ []))
    × ((run_once job sample_world).1.db.usage
        ≡ bump_usage 2 (day_of (sample_world.clock 1)) sample_world.db.usage)
    × ((run_once job sample_world).1.fetches ≡ 1)
    × ((run_once job sample_world).1.metrics
        ≡ record_two (codes "argosfx_fetch_total") (codes "moneyconvert") sample_world.metrics)
unfolding run
run_once-stored_example =
    run_once-stored job sample_world (λ _. refl) (quote ∷ []) (refl, tt) refl refl refl

abbrev tables : Db Fixed
tables =
    (upsert_sql 7 (codes "null")
      (scan_provider (λ json. none) (provider_row_of 0 (codes "moneyconvert"))) new_db).1

abbrev first_world : World Fixed
first_world = record sample_world { db = tables }

abbrev first_job : ProviderJob Fixed
first_job = record job { provider_id = 1 }

-- A thousand calls a day are 77.76 seconds apart.
schedule_spaced :
    compute_schedule Fixed (pos 1000) []
    ≡ record { kind = kind_every; cron = []; every = pos (7776 * 10 ^ 7) }
unfolding compute_schedule
schedule_spaced = refl
