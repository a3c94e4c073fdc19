-- ===== src/Http/Routes.antt =====
-- internal/httpapi/httpapi.go: `routes`.
use argos_fx.Text.{Text}
use argos_fx.Float.{Double}
use argos_fx.Http.Types.{Server, Library, Response}
use argos_fx.Http.Site.{H}
use argos_fx.Http.Rates.{all_rates, rates_from_base, single_rate}
use argos_fx.Http.History.{HistoryQuery, history_handler}
use argos_fx.Http.Status.{healthz, readyz, metrics_handler, handle_providers}

-- A request to the API.
pub data Call : Type 0 where
  health : Call
  readiness : Call
  metrics : Call
  every_rate : Call
  base_rates_of : Text → Call
  rate_of_pair : Text → Text → Call
  history_of_pair : Text → Text → HistoryQuery → Call
  provider_list : Call

module _ {F : Type 0} ⦃d : Double F⦄ (lib : Library F) (s : Server F) where
  -- `routes`.
  unfoldable pub handle : Call → H F Response
  handle health = healthz lib
  handle readiness = readyz lib s
  handle metrics = metrics_handler lib s
  handle every_rate = all_rates lib s
  handle (base_rates_of base) = rates_from_base lib s base
  handle (rate_of_pair base quote) = single_rate lib s base quote
  handle (history_of_pair base quote q) = history_handler lib s base quote q
  handle provider_list = handle_providers lib s
