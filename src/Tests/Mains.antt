-- ===== src/Tests/Mains.antt =====
-- `main` on a new database file, with two providers.
use argos_fx.Prelude.{none, ◌≡◌, refl, ◌≤◌, true, false, List, [], ◌∷◌, some}
use argos_fx.Text.{codes, text_discrete, trim_space, split, to_upper, byte_length}
use argos_fx.Error.{ok, Outcome, err}
use argos_fx.Float.Fixed.{Fixed, fixed_double}
use argos_fx.Config.{load, apply_defaults, validate, load_currencies, Currencies}
use argos_fx.Store.Schema.{empty_file}
use argos_fx.Start.Main.{Host, Cron, Running, serving, main}
use argos_fx.Start.Main.Serves.{main-serves, main-IsServing, IsServing, registered}
use argos_fx.Clock.{day_of}
use argos_fx.Store.{World, usage_count}
use argos_fx.Store.Sound.{IsSound}
use argos_fx.Store.Migrate.Opened.{created}
use argos_fx.Store.Migrate.Works.{whole_open}
use argos_fx.Scheduler.{run_with_timeout}
use argos_fx.Start.{Started, env_or, server_of, response_cache}
use argos_fx.Http.{handle, rate_of_pair, single_rate}
use argos_fx.Http.Site.{Site}
use argos_fx.Http.Honest.Pairs.{IsHonestAnswer}
use argos_fx.Program.Honest.{IsComputed, main-answers}
use argos_fx.Program.{request, here, idle, poll}
use argos_fx.Program.Whole.{main-budget}
use argos_fx.Tests.Api.{sample_library}
use argos_fx.Tests.Fetches.{steady}
use argos_fx.Tests.Sample.{instant, settings_text}
use argos_fx.Tests.Starts.{two_config, whole, polls_of, yahoo_poll}

abbrev sample_host : Host Fixed
sample_host = record {
  args = codes "argosfx" ∷ [];
  config_path = [];
  db_path = codes "/tmp/a.db";
  listen = [];
  currencies = codes "eur, brl";
  read_file = λ path. ok path;
  unmarshal = λ bytes. ok two_config;
  is_null = λ rate. false;
  marshal_config = settings_text;
  unmarshal_config = λ json. none;
  disk = λ path. empty_file;
  clock = λ _. instant;
  broken = λ _. false;
  arrange = λ rows. rows;
  get = λ url. ok 200;
}

abbrev sample_cron : Cron
sample_cron = record { accepts = λ e. true; show_duration = λ d. codes "5m0s" }

abbrev codes_of : Outcome Currencies → Currencies
codes_of (ok c) = c
codes_of (err e) = record { allowed = [] }

main-serves_example : (r : Running Fixed) × (main steady sample_cron sample_host ≡ serving r)
unfolding load apply_defaults validate text_discrete load_currencies trim_space split to_upper
    byte_length
main-serves_example =
    main-serves steady sample_cron sample_host two_config
      (codes_of (load_currencies (codes "eur, brl"))) refl refl refl refl

abbrev allowed_currencies : Currencies
allowed_currencies = codes_of (load_currencies (codes "eur, brl"))

abbrev first_of : List (Started Fixed) → Started Fixed → Started Fixed
first_of [] s = s
first_of (s ∷ rest) t = s

-- The state of the listening, of what the loop over the providers returns.
abbrev sample_running : Outcome (List (Started Fixed)) × World Fixed → Running Fixed
sample_running out = record {
  config = two_config;
  polls = polls_of out.0;
  removal = true;
  server = server_of two_config allowed_currencies;
  site = record { world = out.1; cache = some (response_cache two_config) };
  listen = two_config.server.listen;
}

abbrev listening : Running Fixed
listening = sample_running (registered steady sample_cron sample_host two_config allowed_currencies)

abbrev first_poll : Started Fixed
first_poll = first_of listening.polls yahoo_poll

main-budget_example :
    (usage_count first_poll.job.provider_id 0
        (run_with_timeout first_poll.job listening.site.world).1.db.usage
      ≤ 4)
    × IsSound (run_with_timeout first_poll.job listening.site.world).1.db
unfolding whole whole_open load apply_defaults validate load_currencies trim_space split to_upper
    byte_length main env_or day_of
main-budget_example =
    main-budget steady sample_cron sample_host sample_library listening first_poll 3 0
      (record listening.site { world = (run_with_timeout first_poll.job listening.site.world).1 })
      created refl here refl (λ t. refl) (poll first_poll here idle)

main-IsServing_example : IsServing steady sample_cron sample_host listening
unfolding whole whole_open load apply_defaults validate load_currencies trim_space split to_upper
    byte_length main env_or
main-IsServing_example = main-IsServing steady sample_cron sample_host listening refl

abbrev polled_site : Site Fixed
polled_site = record listening.site {
  world = (run_with_timeout first_poll.job listening.site.world).1;
}

-- A poll, and a request, whose answer is put into the cache.
abbrev after_request : Site Fixed
after_request =
    (handle sample_library listening.server (rate_of_pair (codes "eur") (codes "brl"))
      polled_site).1

main-answers_example :
    IsHonestAnswer sample_library
      (IsComputed listening.server)
      (to_upper (codes "eur"))
      (to_upper (codes "brl"))
      (single_rate sample_library listening.server (codes "eur") (codes "brl") after_request).0
unfolding whole whole_open load apply_defaults validate load_currencies trim_space split to_upper
    byte_length main env_or
main-answers_example =
    main-answers steady sample_cron sample_host sample_library listening after_request (codes "eur")
      (codes "brl") refl
      (request (rate_of_pair (codes "eur") (codes "brl")) (poll first_poll here idle))
