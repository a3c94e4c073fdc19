-- ===== src/Scheduler/Run.antt =====
-- internal/scheduler/manager.go: one poll of a provider, in the world of the database.
use argos_fx.Prelude.{
  ◌≡◌, refl, ℕ, ◌+◌, Bool, true, List, [], ◌∷◌, ◌++◌, Option, none, some, if◌then◌else◌,
}
use argos_fx.Prelude.Int.{ℤ, pos, ltb_ℤ, leb_ℤ}
use argos_fx.Text.{Text, codes}
use argos_fx.Metrics.{Metrics, inc_counter}
use argos_fx.Error.{wrap, Outcome, ok, err, in_context}
use argos_fx.Store.{
  Reading, World, M, ◌>>=◌, ◌>>◌, return, fail, map_outcome, attempt, now, insert_reading,
  increment_usage, usage_today,
}
use argos_fx.Provider

unfoldable pub budget_allowed : ℕ → ℤ → Bool
budget_allowed used_today calls_per_day =
    if leb_ℤ calls_per_day (pos 0) then true else ltb_ℤ (pos used_today) calls_per_day

pub record ProviderJob (F : Type 0) : Type 0 where
  pub provider_id : ℕ
  pub provider : Provider.Provider F
  pub currency_codes : List Text
  pub base : Text
  pub calls_per_day : ℤ

-- `if m.metrics == nil { return }`, and the total and the provider's counter.
abbrev pub record_two : {F : Type 0} → Text → Text → Option (Metrics F) → Option (Metrics F)
record_two total name none = none
record_two total name (some m) =
    some (inc_counter (total ++ (codes "_" ++ name)) (inc_counter total m))

module _ {F : Type 0} where
  unfoldable pub record_success : Text → M F (Unit {0})
  unfolding inc_counter
  record_success name w =
      (ok tt, record w { metrics = record_two (codes "argosfx_fetch_total") name w.metrics })

  unfoldable pub record_error : Text → M F (Unit {0})
  unfolding inc_counter
  record_error name w =
      (ok tt, record w { metrics = record_two (codes "argosfx_fetch_errors_total") name w.metrics })

  -- `j.Provider.Fetch(ctx, j.Base, j.CurrencyCodes)`.
  unfoldable pub fetch_readings : ProviderJob F → M F (List (Provider.Reading F))
  fetch_readings j w =
      (j.provider.fetch w.fetches j.base j.currency_codes, record w { fetches = w.fetches + 1 })

  abbrev pub reading_of : ℕ → Provider.Reading F → Reading F
  reading_of provider r = record {
    id = 0;
    provider_id = provider;
    base = r.base;
    quote = r.quote;
    rate = r.rate;
    fetched_at = r.fetched_at;
    provider_ts = r.provider_ts;
  }

  -- The loop over the readings.
  unfoldable pub insert_all : ℕ → List (Provider.Reading F) → M F (Unit {0})
  insert_all provider [] = return tt
  insert_all provider (r ∷ rs) =
      map_outcome (in_context "insert reading") (insert_reading (reading_of provider r))
      >> insert_all provider rs

  unfoldable pub store_fetched : ProviderJob F → List (Provider.Reading F) → M F (Unit {0})
  unfolding insert_all
  store_fetched j readings = do
    _ ← insert_all j.provider_id readings
    t ← now
    _ ← map_outcome (in_context "increment usage") (increment_usage j.provider_id t)
    record_success j.provider.name

  unfoldable pub after_fetch : ProviderJob F → Outcome (List (Provider.Reading F)) → M F (Unit {0})
  after_fetch j (ok readings) = store_fetched j readings
  after_fetch j (err e) = record_error j.provider.name >> fail (wrap "fetch" e)

  unfoldable pub fetch_and_store : ProviderJob F → M F (Unit {0})
  unfolding after_fetch
  fetch_and_store j = attempt (fetch_readings j) >>= after_fetch j

  -- `RunOnce`.
  unfoldable pub run_once : ProviderJob F → M F (Unit {0})
  unfolding fetch_and_store budget_allowed
  run_once j = do
    t ← now
    used ← map_outcome (in_context "read usage") (usage_today j.provider_id t)
    if budget_allowed used j.calls_per_day then fetch_and_store j else return tt

  -- `SetMetrics`.
  abbrev pub set_metrics : Metrics F → World F → World F
  set_metrics mx w = record w { metrics = some mx }

  -- `runWithTimeout`: an error, also that of the context when its time is up, is only logged.
  unfoldable pub run_with_timeout : ProviderJob F → M F (Unit {0})
  run_with_timeout j = do _ ← attempt (run_once j); return tt

  pub run_with_timeout-world :
      (j : ProviderJob F) (w : World F) → (run_with_timeout j w).1 ≡ (run_once j w).1
  unfolding run_with_timeout ◌>>=◌
  run_with_timeout-world j w = refl

  pub run_with_timeout-ok : (j : ProviderJob F) (w : World F) → (run_with_timeout j w).0 ≡ ok tt
  unfolding run_with_timeout ◌>>=◌
  run_with_timeout-ok j w = refl
