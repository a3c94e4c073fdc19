-- ===== src/Start.antt =====
-- cmd/argosfx/main.go: the start of the program, which registers the providers and makes the server.
-- The environment, signals, the listening and the log are not modelled.
pub mod Jobs
mod Rows
pub mod Durations
pub mod Main
use argos_fx.Prelude.{
  ℕ, Bool, true, not, List, [], ◌∷◌, ◌++◌, Option, none, some, keep, ◌*◌, ◌^◌, if◌then◌else◌,
}
use argos_fx.Prelude.Int.{ℤ, pos, leb_ℤ, int64, ◌*ℤ◌}
use argos_fx.Text.{Text, codes, is_empty}
use argos_fx.Clock.{Time, Duration}
use argos_fx.Cache.{Cache, new_cache}
use argos_fx.Error.{Outcome, ok, err}
use argos_fx.Float.{Double}
use argos_fx.Store
use argos_fx.Store.{M, ◌>>=◌, return, attempt, upsert_provider, text_eq}
use argos_fx.Aggregator.Types.{Config, usd}
use argos_fx.Aggregator.History.{prune}
use argos_fx.Config
use argos_fx.Config.{Currencies, compute_ttl, http_max_age, max_age, is_enabled}
use argos_fx.Provider
use argos_fx.Scheduler.{ProviderJob, Schedule, compute_schedule}
use argos_fx.Adapters.{Net, new_from_config}
use argos_fx.Http.{Server, new_server}

-- `envOr`, of the value of the variable.
unfoldable pub env_or : Text → Text → Text
env_or v fallback = if is_empty v then fallback else v

unfoldable pub deref_int : Option ℤ → ℤ
deref_int none = pos 0
deref_int (some n) = n

-- `quoteCodes`, in the order of the map.
unfoldable pub quote_codes : Currencies → Text → List Text
quote_codes c base = keep (λ code. not (text_eq code base)) c.allowed

-- The row that the start stores for a provider of the configuration.
unfoldable pub stored_provider : Config.Provider → Store.Provider
stored_provider pc = record {
  id = 0;
  name = pc.name;
  kind = pc.kind;
  config = pc.config;
  priority = pc.priority;
  calls_per_day = pc.calls_per_day;
  schedule_cron = pc.schedule_cron;
  enabled = pc.enabled;
  created_at = 0;
  updated_at = 0;
}

-- `time.Duration(days) * 24 * time.Hour`.
unfoldable pub retention : ℤ → Duration
retention days = int64 (int64 (days *ℤ pos 24) *ℤ pos (3600 * 10 ^ 9))

module _ {F : Type 0} where
  unfoldable pub aggregator_config : Config.Config F → Config F
  aggregator_config cfg = record {
    outlier_tolerance_pct = cfg.aggregator.outlier_tolerance_pct;
    min_providers = cfg.aggregator.min_providers;
    max_age_seconds = cfg.aggregator.max_age_seconds;
    base = usd;
  }

  unfoldable pub server_of : Config.Config F → Currencies → Server F
  unfolding aggregator_config new_server
  server_of cfg currencies = new_server (record {
    agg = some (aggregator_config cfg);
    has_store = true;
    currencies = currencies.allowed;
    cache_ttl = http_max_age cfg.cache;
    max_age = max_age cfg.aggregator;
  })

  unfoldable pub response_cache : {V : Type 0} → Config.Config F → Cache V
  response_cache cfg = new_cache (compute_ttl cfg.cache)

module _ {F : Type 0} ⦃d : Double F⦄ where
  abbrev prune_if : Bool → ℤ → M F (Unit {0})
  prune_if daily days =
      if daily then (do _ ← attempt (prune (retention days)); return tt) else return tt

  -- The job of every day, which only logs its errors.
  unfoldable pub prune_daily : Config.Config F → M F (Unit {0})
  unfolding retention
  prune_daily cfg =
      prune_if (not (leb_ℤ cfg.aggregator.retention_days (pos 0))) cfg.aggregator.retention_days

-- A poll that was handed to the cron library.
pub record Started (F : Type 0) : Type 0 where
  pub job : ProviderJob F
  pub schedule : Schedule

module _ {F : Type 0} ⦃d : Double F⦄ (net : Net F) (accepts : Schedule → Bool)
    (code_list : List Text) where
  abbrev pub job_of : Config.Provider → Provider.Provider F → ℕ → Started F
  job_of pc prov stored = record {
    job = record {
      provider_id = stored;
      provider = prov;
      currency_codes = code_list;
      base = usd;
      calls_per_day = deref_int pc.calls_per_day;
    };
    schedule = compute_schedule F (deref_int pc.calls_per_day) pc.schedule_cron;
  }

  -- `mgr.Add`: the cron library can refuse the expression.
  unfoldable pub add_job :
      Config.Provider → Provider.Provider F → Outcome ℕ → List (Started F) → List (Started F)
  unfolding deref_int
  add_job pc prov (err e) started = started
  add_job pc prov (ok stored) started =
      let s = job_of pc prov stored in if accepts s.schedule then started ++ (s ∷ []) else started

  unfoldable pub start_made :
      Config.Provider → Outcome (Provider.Provider F) → List (Started F) → M F (List (Started F))
  unfolding add_job stored_provider
  start_made pc (err e) started = return started
  start_made pc (ok prov) started = do
    stored ← attempt (upsert_provider (stored_provider pc))
    return (add_job pc prov stored started)

  -- One round of the loop over the configured providers.
  unfoldable pub start_provider : Config.Provider → List (Started F) → M F (List (Started F))
  unfolding start_made
  start_provider pc started =
      if not (is_enabled pc) then return started else start_made pc (new_from_config net pc) started

  unfoldable pub start_providers : List Config.Provider → List (Started F) → M F (List (Started F))
  unfolding start_provider
  start_providers [] started = return started
  start_providers (pc ∷ rest) started = do
    started' ← start_provider pc started
    start_providers rest started'
