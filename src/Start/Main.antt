-- ===== src/Start/Main.antt =====
-- cmd/argosfx/main.go: `main` up to the listening, with every exit, and `runHealthcheck`. The
-- environment, the files, the HTTP client and the cron library's parser are arguments.
pub mod Serves
use argos_fx.Prelude.{
  ℕ, Bool, true, false, not, List, [], ◌∷◌, ◌++◌, Option, none, some, ◌==◌, if◌then◌else◌,
}
use argos_fx.Prelude.Int.{pos, leb_ℤ}
use argos_fx.Text.{Text, codes}
use argos_fx.Clock.{Time, Duration}
use argos_fx.Cache.{Cache}
use argos_fx.Error.{Outcome, ok, err}
use argos_fx.Float.{Double}
use argos_fx.Metrics.{new_metrics}
use argos_fx.Store.{World, ReadingRow, Settings, text_eq}
use argos_fx.Store.Schema.{File, tables_of}
use argos_fx.Store.Migrate.{Opening, migrations_fs, open_store}
use argos_fx.Aggregator.Types.{usd}
use argos_fx.Config
use argos_fx.Config.{Currencies, load, load_currencies}
use argos_fx.Scheduler.{Schedule, expression, set_metrics}
use argos_fx.Adapters.{Net}
use argos_fx.Http.{Server}
use argos_fx.Http.Site.{Site}
use argos_fx.Start.{Started, env_or, quote_codes, server_of, response_cache, start_providers}

-- What the program finds where it runs: its arguments, the variables of the environment (empty if
-- they are not set), the files, the clock, and what the driver does.
pub record Host (F : Type 0) : Type 0 where
  pub args : List Text
  pub config_path : Text
  pub db_path : Text
  pub listen : Text
  pub currencies : Text
  pub read_file : Text → Outcome Text
  pub unmarshal : Text → Outcome (Config.Config F)
  -- the numbers that the driver stores as NULL
  pub is_null : F → Bool
  -- the encoder and the decoder of a provider's settings
  pub marshal_config : Settings → Option Text
  pub unmarshal_config : Text → Settings
  pub disk : Text → File F
  pub clock : ℕ → Time
  pub broken : ℕ → Bool
  pub arrange : List (ReadingRow F) → List (ReadingRow F)
  -- the status of the answer to a GET
  pub get : Text → Outcome ℕ

-- The cron library's parser of expressions, and `Duration.String`.
pub record Cron : Type 0 where
  pub accepts : Text → Bool
  pub show_duration : Duration → Text

-- Whether the cron library takes the expression of a schedule.
abbrev pub takes : Cron → Schedule → Bool
takes cron s = cron.accepts (expression cron.show_duration s)

-- The program while it listens.
pub record Running (F : Type 0) : Type 0 where
  pub config : Config.Config F
  pub polls : List (Started F)
  -- whether the removal of every day is scheduled
  pub removal : Bool
  pub server : Server F
  pub site : Site F
  pub listen : Text

pub data Boot (F : Type 0) : Type 0 where
  -- the program ends with this status
  exit : ℕ → Boot F
  serving : Running F → Boot F

-- `runHealthcheck`, of the status of the answer.
abbrev pub health_status : Outcome ℕ → ℕ
health_status (err e) = 1
health_status (ok status) = if status == 200 then 0 else 1

-- `len(os.Args) > 1 && os.Args[1] == "--healthcheck"`.
abbrev pub is_healthcheck : List Text → Bool
is_healthcheck (program ∷ flag ∷ rest) = text_eq flag (codes "--healthcheck")
is_healthcheck _ = false

module _ {F : Type 0} where
  unfoldable pub health_url : Host F → Text
  unfolding env_or
  health_url host =
      codes "http://127.0.0.1" ++ (env_or host.listen (codes ":8080") ++ codes "/v1/healthz")

  unfoldable pub run_healthcheck : Host F → ℕ
  unfolding health_url
  run_healthcheck host = health_status (host.get (health_url host))

  -- The database file at the path, before `store.Open`.
  abbrev pub opening_of : Host F → Opening F
  opening_of host = record {
    file = host.disk (env_or host.db_path (codes "/data/argosfx.db"));
    connected = false;
    last_rowid = 0;
    clock = host.clock;
    ticks = 0;
    broken = host.broken;
    queries = 0;
  }

  -- The world on the open database, with a new registry of metrics.
  abbrev pub world_of : Host F → Opening F → World F
  world_of host o = set_metrics new_metrics (record {
    db = record (tables_of o.file) { last_rowid = o.last_rowid };
    clock = o.clock;
    ticks = o.ticks;
    broken = o.broken;
    queries = o.queries;
    arrange = host.arrange;
    fetches = 0;
    is_null = host.is_null;
    marshal_config = host.marshal_config;
    unmarshal_config = host.unmarshal_config;
    metrics = none;
  })

module _ {F : Type 0} ⦃d : Double F⦄ (net : Net F) (cron : Cron) (host : Host F) where
  abbrev pub running_of :
      Config.Config F → Currencies → Outcome (List (Started F)) × World F → Boot F
  running_of cfg currencies (err e, w) = exit 1
  running_of cfg currencies (ok started, w) = serving (record {
    config = cfg;
    polls = started;
    removal =
        if not (leb_ℤ cfg.aggregator.retention_days (pos 0))
        then cron.accepts (codes "@daily")
        else false;
    server = server_of cfg currencies;
    site = record { world = w; cache = some (response_cache cfg) };
    listen = cfg.server.listen;
  })

  -- After `store.Open`: the providers, the removal of every day and the server.
  unfoldable pub main_opened :
      Config.Config F → Currencies → Outcome (Unit {0}) × Opening F → Boot F
  main_opened cfg currencies (err e, o) = exit 1
  main_opened cfg currencies (ok _, o) = running_of cfg currencies (
      start_providers net (takes cron) (quote_codes currencies usd) cfg.providers []
        (world_of host o))

  unfoldable pub main_configured : Config.Config F → Outcome Currencies → Boot F
  unfolding main_opened
  main_configured cfg (err e) = exit 1
  main_configured cfg (ok currencies) =
      main_opened cfg currencies (open_store (migrations_fs F) (opening_of host))

  unfoldable pub main_loaded : Outcome (Config.Config F) → Boot F
  unfolding main_configured
  main_loaded (err e) = exit 1
  main_loaded (ok cfg) = main_configured cfg (load_currencies host.currencies)

  -- `main`.
  unfoldable pub main : Boot F
  unfolding main_loaded env_or
  main =
      if is_healthcheck host.args
      then exit (run_healthcheck host)
      else main_loaded (
          load (host.read_file (env_or host.config_path (codes "/etc/argosfx/config.yaml")))
            host.unmarshal)
