-- ===== src/Http/Effects.antt =====
-- Requests of the API leave the tables as they are and call no provider.
mod Rates
pub mod Status
use argos_fx.Prelude.{
  refl, Bool, true, false, List, [], ◌∷◌, Option, none, some, Option-cases, inl, inr, ℕ, arith,
  if◌then◌else◌,
}
use argos_fx.Prelude.Int.{ℤ}
use argos_fx.Text.{Text, to_upper}
use argos_fx.Clock.{Time, Duration}
use argos_fx.Error.{Outcome, ok, err}
use argos_fx.Float.{Double}
use argos_fx.Metrics.{Metrics}
use argos_fx.Store.{Provider, HistoryPoint, usage_today, latest_reading_at, list_providers}
use argos_fx.Store.ReadOnly.{IsReadOnly, IsReadOnly-query, list_providers-IsReadOnly}
use argos_fx.Aggregator.Types.{Config, Result}
use argos_fx.Aggregator.Compute.Effects.{
  compute-IsReadOnly, all_currencies-IsReadOnly, history_upper-IsReadOnly,
}
use argos_fx.Aggregator.History
use argos_fx.Http.Types.{Server, Library, Response, SingleRateResponse}
use argos_fx.Http.Site.{Site, H, pure, run, ◌>>=◌, with_metrics}
use argos_fx.Http.Quiet.{
  IsQuiet, SameTables, same_tables, of_along, quiet_rules, IsQuiet-pure, IsQuiet-bind, IsQuiet-run,
  IsQuiet-with_metrics,
}
use argos_fx.Http.Rates.{
  Collected, all_rates, all_rates_from, all_rates_cached, all_rates_computed, base_result,
  base_found, base_step, base_loop, base_rates, rates_from_base, rates_from_upper, rate_result,
  rate_found, single_upper, single_rate,
}
use argos_fx.Http.History.{
  HistoryQuery, Checked, accepted, refused, history_result, history_found, history_checked,
  history_upper, history_handler,
}
use argos_fx.Http.Routes.{
  Call, health, readiness, metrics, every_rate, base_rates_of, rate_of_pair, history_of_pair,
  provider_list, handle,
}
use argos_fx.Http.Status.{
  refreshed, healthz, ready, ready_if_fresh, ready_after, readyz, refresh_provider, refresh_all,
  refresh_cache_size, refresh_listed, refresh_provider_metrics, metrics_if, metrics_handler,
  provider_views, providers_listed, handle_providers, limit_gauge,
}
use Rates.{
  single_upper-IsQuiet, rates_from_upper-IsQuiet, all_rates-IsQuiet, history_handler-IsQuiet,
}
use Status.{readyz-IsAlong, metrics_handler-IsAlong, handle_providers-IsAlong}

module _ {F : Type 0} ⦃d : Double F⦄ (lib : Library F) (s : Server F) where
  handle-IsQuiet : (call : Call) → IsQuiet (handle lib s call)
  unfolding handle healthz single_rate rates_from_base
  handle-IsQuiet health = search quiet_rules depth 12
  handle-IsQuiet readiness = of_along (readyz-IsAlong lib s)
  handle-IsQuiet metrics = of_along (metrics_handler-IsAlong lib s)
  handle-IsQuiet every_rate = all_rates-IsQuiet lib s
  handle-IsQuiet (base_rates_of base) = rates_from_upper-IsQuiet lib s (to_upper base)
  handle-IsQuiet (rate_of_pair base quote) =
      single_upper-IsQuiet lib s (to_upper base) (to_upper quote)
  handle-IsQuiet (history_of_pair base quote q) = history_handler-IsQuiet lib s base quote q
  handle-IsQuiet provider_list = of_along (handle_providers-IsAlong lib s)

  -- Whatever request comes, and whatever the database, the clock, the cache and the libraries do,
  -- the handler leaves the tables as they are and calls no provider.
  pub handle-SameTables : (call : Call) (site : Site F) → SameTables site (handle lib s call site).1
  handle-SameTables call site = (handle-IsQuiet call).keeps site
