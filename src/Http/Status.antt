-- ===== src/Http/Status.antt =====
-- internal/httpapi/httpapi.go: the handlers of health, of metrics and of the list of providers.
use argos_fx.Prelude.{
  ℕ, ◌+◌, Bool, not, List, [], ◌∷◌, ◌++◌, Option, none, some, length, if◌then◌else◌,
}
use argos_fx.Prelude.Int.{ℤ, pos, leb_ℤ, ltb_ℤ}
use argos_fx.Text.{Text, codes}
use argos_fx.Clock.{Time, Duration, sub_time}
use argos_fx.Error.{Outcome, ok, err}
use argos_fx.Float.{Double}
use argos_fx.Metrics.{Metrics, set_gauge, set_labeled, exposition}
use argos_fx.Cache
use argos_fx.Store.{Provider, latest_reading_at, list_providers, usage_today}
use argos_fx.Http.Types.{
  Server, Library, Response, ProviderView, status, providers, write_json, write_error,
}
use argos_fx.Http.Site.{H, ◌>>=◌, pure, run, now, with_metrics}

abbrev metrics_type : Text
metrics_type = codes "text/plain; version=0.0.4; charset=utf-8"

module _ {F : Type 0} (lib : Library F) where
  -- `healthz`.
  unfoldable pub healthz : H F Response
  unfolding write_json
  healthz = do t ← now; pure (write_json lib 200 (status (codes "ok") (lib.time_text t)))

  unfoldable pub ready : H F Response
  unfolding write_json
  ready = do t ← now; pure (write_json lib 200 (status (codes "ready") (lib.time_text t)))

  -- `time.Since(latest)` is taken once for the test and once for the message.
  unfoldable pub ready_if_fresh : Duration → Time → H F Response
  unfolding ready write_error
  ready_if_fresh limit latest = do
    t ← now
    if ltb_ℤ limit (sub_time t latest)
        then (do
          t' ← now
          pure (
              write_error lib 503 (
                codes "newest reading is "
                ++ (lib.duration_text (lib.round_second (sub_time t' latest))
                    ++ (codes " old (limit " ++ (lib.duration_text limit ++ codes ")"))))))
        else ready

  unfoldable pub ready_after : Duration → Outcome (Time × Bool) → H F Response
  unfolding ready_if_fresh write_error
  ready_after limit (err e) = pure (write_error lib 503 (codes "store read failed"))
  ready_after limit (ok (latest, found)) =
      if not found
      then pure (write_error lib 503 (codes "no readings yet"))
      else ready_if_fresh limit latest

  -- `readyz`.
  unfoldable pub readyz : Server F → H F Response
  unfolding ready_after ready write_error
  readyz s =
      if not s.has_store
      then pure (write_error lib 503 (codes "store not configured"))
      else if leb_ℤ s.max_age (pos 0)
      then ready
      else run latest_reading_at >>= ready_after s.max_age

  -- `quote`: the label of a provider.
  unfoldable pub provider_label : Text → Text
  provider_label name = codes "provider=" ++ lib.quoted name

-- The zero value stands for a count that could not be read.
abbrev pub or_zero : Outcome ℕ → ℕ
or_zero (ok n) = n
or_zero (err e) = 0

module _ {F : Type 0} ⦃d : Double F⦄ where
  abbrev pub of_count : ℕ → F
  of_count n = d.of_int (pos n)

module _ {F : Type 0} ⦃d : Double F⦄ (lib : Library F) where
  unfoldable pub limit_gauge : Text → Option ℤ → H F (Unit {0})
  limit_gauge label none = pure tt
  limit_gauge label (some n) =
      with_metrics (set_labeled (codes "argosfx_budget_limit") label (d.of_int n))

  -- The gauges of one provider.
  unfoldable pub refresh_provider : Time → Provider → H F (Unit {0})
  unfolding provider_label limit_gauge
  refresh_provider t p = do
    let label = provider_label lib p.name
    _ ← with_metrics (set_labeled (codes "argosfx_budget_used_today") label (of_count 0))
    used ← run (usage_today p.id t)
    _ ←
        with_metrics
          (set_labeled (codes "argosfx_budget_used_today") label (of_count (or_zero used)))
    limit_gauge label p.calls_per_day

  -- The loop, with the number of providers that are enabled.
  unfoldable pub refresh_all : Time → List Provider → ℕ → H F ℕ
  unfolding refresh_provider
  refresh_all t [] enabled = pure enabled
  refresh_all t (p ∷ ps) enabled = do
    _ ← refresh_provider t p
    refresh_all t ps (if p.enabled then enabled + 1 else enabled)

  -- The number of entries in the cache, if there is a cache.
  unfoldable pub refresh_cache_size : H F (Unit {0})
  refresh_cache_size s = elim s.cache [
    | none ↦ (tt, s)
    | some c ↦ with_metrics (set_gauge (codes "argosfx_cache_size") (of_count (Cache.len c))) s
  ]

  unfoldable pub refresh_listed : Outcome (List Provider) → H F (Unit {0})
  unfolding refresh_all refresh_cache_size
  refresh_listed (err e) = pure tt
  refresh_listed (ok ps) = do
    t ← now
    _ ← with_metrics (set_gauge (codes "argosfx_providers_total") (of_count (length ps)))
    enabled ← refresh_all t ps 0
    _ ← with_metrics (set_gauge (codes "argosfx_providers_enabled") (of_count enabled))
    refresh_cache_size

  -- `refreshProviderMetrics`, which is called with a registry.
  unfoldable pub refresh_provider_metrics : Server F → H F (Unit {0})
  unfolding refresh_listed
  refresh_provider_metrics s =
      if not s.has_store then pure tt else run list_providers >>= refresh_listed

  abbrev metrics_text : Option (Metrics F) → Text
  metrics_text none = []
  metrics_text (some m) = exposition lib.numbers m

  -- The text of the registry after the refresh, which cannot take it away.
  unfoldable pub refreshed : Server F → H F Response
  unfolding refresh_provider_metrics exposition
  refreshed s site =
      let site' = (refresh_provider_metrics s site).1 in
      (
        record {
          status = 200;
          content_type = metrics_type;
          cache_control = none;
          body = metrics_text site'.world.metrics;
        },
        site',
      )

  -- The answer without a registry is that of `http.Error`.
  unfoldable pub metrics_if : Server F → Option (Metrics F) → H F Response
  unfolding refreshed
  metrics_if s none = pure (record {
    status = 503;
    content_type = codes "text/plain; charset=utf-8";
    cache_control = none;
    body = codes "metrics not configured\n";
  })
  metrics_if s (some m) = refreshed s

  -- `metricsHandler`.
  unfoldable pub metrics_handler : Server F → H F Response
  unfolding metrics_if
  metrics_handler s site = metrics_if s site.world.metrics site

  unfoldable pub provider_view : Provider → ℕ → ProviderView
  provider_view p used = record {
    name = p.name;
    kind = p.kind;
    priority = p.priority;
    enabled = p.enabled;
    calls_per_day = p.calls_per_day;
    schedule = p.schedule_cron;
    used_today = used;
  }

  unfoldable pub provider_views : Time → List Provider → H F (List ProviderView)
  unfolding provider_view
  provider_views t [] = pure []
  provider_views t (p ∷ ps) = do
    used ← run (usage_today p.id t)
    rest ← provider_views t ps
    pure (provider_view p (or_zero used) ∷ rest)

  unfoldable pub providers_listed : Outcome (List Provider) → H F Response
  unfolding provider_views write_error write_json
  providers_listed (err e) = pure (write_error lib 500 (lib.error_text e))
  providers_listed (ok ps) = do
    t ← now
    views ← provider_views t ps
    pure (write_json lib 200 (providers views))

  -- `handleProviders`.
  unfoldable pub handle_providers : Server F → H F Response
  unfolding providers_listed write_error
  handle_providers s =
      if not s.has_store
      then pure (write_error lib 503 (codes "store not configured"))
      else run list_providers >>= providers_listed
