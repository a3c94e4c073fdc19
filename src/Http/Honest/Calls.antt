-- ===== src/Http/Honest/Calls.antt =====
-- internal/httpapi/httpapi.go: every request leaves only bodies that belong to their keys.
use argos_fx.Prelude.{
  ◌≡◌, Bool-cases, inl, inr, List, Option, none, some, Option-cases, All, any, if◌then◌else◌,
}
use argos_fx.Text.{Text, to_upper}
use argos_fx.Clock.{Time, Duration}
use argos_fx.Error.{Outcome, ok, err}
use argos_fx.Float.{Double}
use argos_fx.Store.{text_eq, HistoryPoint}
use argos_fx.Config.Allowed.{IsCode}
use argos_fx.Aggregator.Types.{Result, Config}
use argos_fx.Aggregator.Compute.Effects.{history_upper-IsReadOnly}
use argos_fx.Aggregator.History
use argos_fx.Http.Types.{Server, Library}
use argos_fx.Http.Along.{
  Steps, IsAlong, along_rules, IsAlong-pure, IsAlong-run, IsAlong-if, IsAlong-bind, IsAlong-now,
}
use argos_fx.Http.Honest.{KeepsWritten, IsAlong-cache_lookup, IsAlong-cache_store}
use argos_fx.Http.Honest.Keys.{of_history}
use argos_fx.Http.Honest.Handlers.{
  IsSource, any-IsCode, rate_found-IsHonest, base_loop-IsHonest, all_rates_from-IsHonest,
}
use argos_fx.Http.Effects.Status.{readyz-IsAlong, metrics_handler-IsAlong, handle_providers-IsAlong}
use argos_fx.Http.Rates.{
  is_allowed, all_rates, base_rates, rates_from_base, rates_from_upper, single_upper, single_rate,
}
use argos_fx.Http.History.{
  HistoryQuery, Checked, accepted, refused, history_result, history_found, history_checked,
  history_upper, history_handler, history_key, history_response,
}
use argos_fx.Http.Status.{healthz}
use argos_fx.Http.Routes.{
  Call, health, readiness, metrics, every_rate, base_rates_of, rate_of_pair, history_of_pair,
  provider_list, handle,
}

module _ {F : Type 0} ⦃d : Double F⦄ (lib : Library F) (s : Server F)
    (computed : Text → Text → Result F → Type 0)
    (sources : (cfg : Config F) → s.agg ≡ some cfg → IsSource computed cfg)
    ⦃steps : Steps (KeepsWritten lib computed)⦄ where
  base_rates-IsHonest :
      (cfg : Config F) (base : Text)
      → IsSource computed cfg
      → IsCode base
      → All IsCode s.currencies
      → IsAlong (KeepsWritten lib computed) (base_rates lib s cfg base)
  unfolding base_rates
  base_rates-IsHonest cfg base source p ps =
      IsAlong-bind _ _ (base_loop-IsHonest lib s computed cfg base s.currencies _ source p ps)
        λ acc. IsAlong-bind _ _ IsAlong-now λ t. IsAlong-pure _

  rates_from_upper-IsHonest :
      (base : Text)
      → All IsCode s.currencies
      → IsAlong (KeepsWritten lib computed) (rates_from_upper lib s base)
  unfolding rates_from_upper is_allowed
  rates_from_upper-IsHonest base ps = elim (Bool-cases (any (text_eq base) s.currencies)) [
    | inr e ↦ rw (e, if◌then◌else◌) (IsAlong-pure _)
    | inl e ↦ elim (Option-cases s.agg) [
      | inl k ↦ rw (e, k, if◌then◌else◌) (IsAlong-pure _)
      | inr (cfg, k) ↦
          rw (e, k, if◌then◌else◌)
            (base_rates-IsHonest cfg base (sources cfg k) (any-IsCode base s.currencies ps e) ps)
    ]
  ]

  single_upper-IsHonest :
      (from to : Text)
      → All IsCode s.currencies
      → IsAlong (KeepsWritten lib computed) (single_upper lib s from to)
  unfolding single_upper is_allowed
  single_upper-IsHonest from to ps = elim (Bool-cases (any (text_eq from) s.currencies)) [
    | inr e ↦ rw (e, if◌then◌else◌) (IsAlong-pure _)
    | inl e ↦ elim (Bool-cases (any (text_eq to) s.currencies)) [
      | inr f ↦ rw (e, f, if◌then◌else◌) (IsAlong-pure _)
      | inl f ↦ elim (Option-cases s.agg) [
        | inl k ↦ rw (e, f, k, if◌then◌else◌) (IsAlong-pure _)
        | inr (cfg, k) ↦
            rw (e, f, k, if◌then◌else◌)
              (IsAlong-bind _ _ (IsAlong-cache_lookup lib computed _) λ found.
                rate_found-IsHonest lib s computed cfg from to found (sources cfg k)
                  (any-IsCode from s.currencies ps e) (any-IsCode to s.currencies ps f))
      ]
    ]
  ]

  all_rates-IsHonest : IsAlong (KeepsWritten lib computed) (all_rates lib s)
  unfolding all_rates
  all_rates-IsHonest = elim (Option-cases s.agg) [
    | inl e ↦ rw e (IsAlong-pure _)
    | inr (cfg, e) ↦ rw e (all_rates_from-IsHonest lib s computed cfg s.currencies)
  ]

  history_result-IsHonest :
      (from to : Text) (range : Time × Time × Duration) (r : Outcome (List (HistoryPoint F)))
      → IsAlong (KeepsWritten lib computed) (history_result lib s from to range r)
  unfolding history_result history_key history_response
  history_result-IsHonest from to range (err e) = IsAlong-pure _
  history_result-IsHonest from to (start, end, step) (ok pts) =
      IsAlong-bind _ _
        (IsAlong-cache_store lib computed _ _
          λ body e. of_history (history_response lib from to (start, end, step) pts) _ e)
        λ body. IsAlong-pure _

  history_found-IsHonest :
      (cfg : Config F) (from to : Text) (range : Time × Time × Duration) (found : Option Text)
      → IsAlong (KeepsWritten lib computed) (history_found lib s cfg from to range found)
  unfolding history_found History.history
  history_found-IsHonest cfg from to range (some body) = IsAlong-pure _
  history_found-IsHonest cfg from to (start, end, step) none =
      IsAlong-bind _ _
        (IsAlong-run _ (history_upper-IsReadOnly cfg (to_upper from) (to_upper to) start end step))
        (history_result-IsHonest from to (start, end, step))

  history_checked-IsHonest :
      (cfg : Config F) (from to : Text) (r : Checked (Time × Time × Duration))
      → IsAlong (KeepsWritten lib computed) (history_checked lib s cfg from to r)
  unfolding history_checked
  history_checked-IsHonest cfg from to (refused message) = IsAlong-pure _
  history_checked-IsHonest cfg from to (accepted range) =
      IsAlong-bind _ _ (IsAlong-cache_lookup lib computed _)
        (history_found-IsHonest cfg from to range)

  history_upper-IsHonest :
      (cfg : Config F) (from to : Text) (q : HistoryQuery)
      → IsAlong (KeepsWritten lib computed) (history_upper lib s cfg from to q)
  unfolding history_upper
  history_upper-IsHonest cfg from to q =
      IsAlong-if _ _ _ (IsAlong-pure _)
        (IsAlong-bind _ _ IsAlong-now λ t. history_checked-IsHonest cfg from to _)

  history_handler-IsHonest :
      (base quote : Text) (q : HistoryQuery)
      → IsAlong (KeepsWritten lib computed) (history_handler lib s base quote q)
  unfolding history_handler
  history_handler-IsHonest base quote q = elim (Option-cases s.agg) [
    | inl e ↦ rw e (IsAlong-pure _)
    | inr (cfg, e) ↦ rw e (history_upper-IsHonest cfg (to_upper base) (to_upper quote) q)
  ]

  -- Whatever request comes, if the allowed currencies are codes of three bytes in upper case, what
  -- is in the cache stays written under its keys.
  pub handle-IsHonest :
      (call : Call)
      → All IsCode s.currencies
      → IsAlong (KeepsWritten lib computed) (handle lib s call)
  unfolding handle healthz single_rate rates_from_base
  handle-IsHonest health ps = search along_rules depth 12
  handle-IsHonest readiness ps = readyz-IsAlong lib s
  handle-IsHonest metrics ps = metrics_handler-IsAlong lib s
  handle-IsHonest every_rate ps = all_rates-IsHonest
  handle-IsHonest (base_rates_of base) ps = rates_from_upper-IsHonest (to_upper base) ps
  handle-IsHonest (rate_of_pair base quote) ps =
      single_upper-IsHonest (to_upper base) (to_upper quote) ps
  handle-IsHonest (history_of_pair base quote q) ps = history_handler-IsHonest base quote q
  handle-IsHonest provider_list ps = handle_providers-IsAlong lib s
