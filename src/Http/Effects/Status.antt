-- ===== src/Http/Effects/Status.antt =====
-- The handlers of health, of metrics and of the list of providers.
use argos_fx.Prelude.{Bool, List, [], ◌∷◌, Option, none, some, ℕ}
use argos_fx.Prelude.Int.{ℤ}
use argos_fx.Text.{Text}
use argos_fx.Clock.{Time, Duration}
use argos_fx.Error.{Outcome, ok, err}
use argos_fx.Float.{Double}
use argos_fx.Metrics.{Metrics}
use argos_fx.Cache.{Cache}
use argos_fx.Store.{World, Provider, usage_today, latest_reading_at}
use argos_fx.Store.ReadOnly.{IsReadOnly, IsReadOnly-query, list_providers-IsReadOnly}
use argos_fx.Http.Types.{Server, Library}
use argos_fx.Http.Site.{Site}
use argos_fx.Http.Along.{
  Steps, IsAlong, along_rules, IsAlong-pure, IsAlong-bind, IsAlong-run, IsAlong-with_metrics,
}
use argos_fx.Http.Status.{
  ready, ready_if_fresh, ready_after, readyz, refresh_provider, refresh_all, refresh_cache_size,
  refresh_listed, refresh_provider_metrics, provider_views, providers_listed, handle_providers,
  limit_gauge, metrics_if, metrics_handler, refreshed,
}

usage_today-IsReadOnly : {F : Type 0} (p : ℕ) (t : Time) → IsReadOnly {F = F} (usage_today p t)
unfolding usage_today
usage_today-IsReadOnly p t = IsReadOnly-query _

module _ {F : Type 0} ⦃d : Double F⦄ (lib : Library F) (R : Site F → Site F → Type 0)
    ⦃steps : Steps R⦄ where
  refresh_cache_size_at :
      (w : World F) (c : Option (Cache Text))
      → R
          (record { world = w; cache = c })
          (refresh_cache_size lib (record { world = w; cache = c })).1
  unfolding refresh_cache_size
  refresh_cache_size_at w none = steps.stays _
  refresh_cache_size_at w (some c) = steps.counts _ (record { world = w; cache = some c })

module _ {F : Type 0} ⦃d : Double F⦄ (lib : Library F) (s : Server F) {R : Site F → Site F → Type 0}
    ⦃steps : Steps R⦄ where
  ready_after-IsAlong :
      (limit : Duration) (r : Outcome (Time × Bool)) → IsAlong R (ready_after lib limit r)
  unfolding ready_after ready_if_fresh ready
  ready_after-IsAlong limit (ok (latest, found)) = search along_rules depth 16
  ready_after-IsAlong limit (err e) = IsAlong-pure _

  pub readyz-IsAlong : IsAlong R (readyz lib s)
  unfolding readyz ready latest_reading_at
  readyz-IsAlong = search (along_rules, ready_after-IsAlong, IsReadOnly-query) depth 16

  limit_gauge-IsAlong : (label : Text) (n : Option ℤ) → IsAlong R (limit_gauge lib label n)
  unfolding limit_gauge
  limit_gauge-IsAlong label none = IsAlong-pure _
  limit_gauge-IsAlong label (some n) = IsAlong-with_metrics _

  refresh_all-IsAlong : (t : Time) (ps : List Provider) (n : ℕ) → IsAlong R (refresh_all lib t ps n)
  unfolding refresh_all refresh_provider
  refresh_all-IsAlong t [] n = IsAlong-pure _
  refresh_all-IsAlong t (p ∷ ps) n =
      IsAlong-bind _ _ (search (along_rules, limit_gauge-IsAlong, usage_today-IsReadOnly) depth 16)
        (λ _. refresh_all-IsAlong t ps _)

  refresh_cache_size-IsAlong : IsAlong R (refresh_cache_size lib)
  refresh_cache_size-IsAlong = record {
    keeps = λ site. refresh_cache_size_at lib R site.world site.cache;
  }

  refresh_listed-IsAlong : (r : Outcome (List Provider)) → IsAlong R (refresh_listed lib r)
  unfolding refresh_listed
  refresh_listed-IsAlong (ok ps) =
      search (along_rules, refresh_all-IsAlong, refresh_cache_size-IsAlong) depth 16
  refresh_listed-IsAlong (err e) = IsAlong-pure _

  pub refresh-IsAlong : IsAlong R (refresh_provider_metrics lib s)
  unfolding refresh_provider_metrics
  refresh-IsAlong = search (along_rules, refresh_listed-IsAlong, list_providers-IsReadOnly) depth 16

  provider_views-IsAlong : (t : Time) (ps : List Provider) → IsAlong R (provider_views lib t ps)
  unfolding provider_views
  provider_views-IsAlong t [] = IsAlong-pure _
  provider_views-IsAlong t (p ∷ ps) =
      IsAlong-bind _ _ (IsAlong-run _ (usage_today-IsReadOnly p.id t))
        λ used. IsAlong-bind _ _ (provider_views-IsAlong t ps) λ rest. IsAlong-pure _

  providers_listed-IsAlong : (r : Outcome (List Provider)) → IsAlong R (providers_listed lib r)
  unfolding providers_listed
  providers_listed-IsAlong (ok ps) = search (along_rules, provider_views-IsAlong) depth 16
  providers_listed-IsAlong (err e) = IsAlong-pure _

  pub handle_providers-IsAlong : IsAlong R (handle_providers lib s)
  unfolding handle_providers
  handle_providers-IsAlong =
      search (along_rules, providers_listed-IsAlong, list_providers-IsReadOnly) depth 16

  metrics_if-IsAlong : (m : Option (Metrics F)) → IsAlong R (metrics_if lib s m)
  unfolding metrics_if refreshed
  metrics_if-IsAlong none = search along_rules depth 12
  metrics_if-IsAlong (some m) = record { keeps = (refresh-IsAlong).keeps }

  pub metrics_handler-IsAlong : IsAlong R (metrics_handler lib s)
  unfolding metrics_handler
  metrics_handler-IsAlong = record {
    keeps = λ site. (metrics_if-IsAlong site.world.metrics).keeps site;
  }
