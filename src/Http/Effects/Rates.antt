-- ===== src/Http/Effects/Rates.antt =====
-- The handlers of rates and of histories.
use argos_fx.Prelude.{List, [], ◌∷◌, Option, none, some, Option-cases, inl, inr}
use argos_fx.Text.{Text, to_upper}
use argos_fx.Clock.{Time, Duration}
use argos_fx.Error.{Outcome, ok, err}
use argos_fx.Float.{Double}
use argos_fx.Store.{HistoryPoint}
use argos_fx.Aggregator.Types.{Config, Result}
use argos_fx.Aggregator.Compute.Effects.{
  compute-IsReadOnly, all_currencies-IsReadOnly, history_upper-IsReadOnly,
}
use argos_fx.Aggregator.History
use argos_fx.Http.Types.{Server, Library, SingleRateResponse}
use argos_fx.Http.Quiet.{IsQuiet, quiet_rules, IsQuiet-pure, IsQuiet-bind, IsQuiet-run}
use argos_fx.Http.Rates.{
  Collected, all_rates, all_rates_from, all_rates_cached, all_rates_computed, base_result,
  base_found, base_step, base_loop, base_rates, rates_from_upper, rate_result, rate_found,
  single_upper,
}
use argos_fx.Http.History.{
  HistoryQuery, Checked, accepted, refused, history_result, history_found, history_checked,
  history_upper, history_handler,
}

module _ {F : Type 0} ⦃d : Double F⦄ (lib : Library F) (s : Server F) where
  all_rates_computed-IsQuiet :
      (cfg : Config F) (code_list : List Text) → IsQuiet (all_rates_computed lib s cfg code_list)
  unfolding all_rates_computed
  all_rates_computed-IsQuiet cfg code_list =
      search (quiet_rules, all_currencies-IsReadOnly) depth 12

  all_rates_cached-IsQuiet :
      (cfg : Config F) (code_list : List Text) (found : Option Text)
      → IsQuiet (all_rates_cached lib s cfg code_list found)
  unfolding all_rates_cached
  all_rates_cached-IsQuiet cfg code_list none = all_rates_computed-IsQuiet cfg code_list
  all_rates_cached-IsQuiet cfg code_list (some body) = IsQuiet-pure _

  all_rates_from-IsQuiet :
      (cfg : Config F) (code_list : List Text) → IsQuiet (all_rates_from lib s cfg code_list)
  unfolding all_rates_from
  all_rates_from-IsQuiet cfg [] = search quiet_rules depth 12
  all_rates_from-IsQuiet cfg (c ∷ code_list) =
      search (quiet_rules, all_rates_cached-IsQuiet) depth 12

  base_result-IsQuiet :
      (base code : Text) (acc : Collected F) (r : Outcome (Result F))
      → IsQuiet (base_result lib s base code acc r)
  unfolding base_result
  base_result-IsQuiet base code acc (ok res) = search quiet_rules depth 12
  base_result-IsQuiet base code acc (err e) = IsQuiet-pure _

  base_found-IsQuiet :
      (cfg : Config F) (base code : Text) (acc : Collected F) (v : Option (SingleRateResponse F))
      → IsQuiet (base_found lib s cfg base code acc v)
  unfolding base_found
  base_found-IsQuiet cfg base code acc none =
      search (quiet_rules, compute-IsReadOnly, base_result-IsQuiet) depth 12
  base_found-IsQuiet cfg base code acc (some v) = IsQuiet-pure _

  base_step-IsQuiet :
      (cfg : Config F) (base code : Text) (acc : Collected F)
      → IsQuiet (base_step lib s cfg base code acc)
  unfolding base_step
  base_step-IsQuiet cfg base code acc = search (quiet_rules, base_found-IsQuiet) depth 12

  base_loop-IsQuiet :
      (cfg : Config F) (base : Text) (code_list : List Text) (acc : Collected F)
      → IsQuiet (base_loop lib s cfg base code_list acc)
  unfolding base_loop
  base_loop-IsQuiet cfg base [] acc = IsQuiet-pure _
  base_loop-IsQuiet cfg base (code ∷ rest) acc =
      IsQuiet-bind _ _ (base_step-IsQuiet cfg base code acc) (base_loop-IsQuiet cfg base rest)

  base_rates-IsQuiet : (cfg : Config F) (base : Text) → IsQuiet (base_rates lib s cfg base)
  unfolding base_rates
  base_rates-IsQuiet cfg base = search (quiet_rules, base_loop-IsQuiet) depth 12

  rate_result-IsQuiet :
      (from to : Text) (r : Outcome (Result F)) → IsQuiet (rate_result lib s from to r)
  unfolding rate_result
  rate_result-IsQuiet from to (ok res) = search quiet_rules depth 12
  rate_result-IsQuiet from to (err e) = IsQuiet-pure _

  rate_found-IsQuiet :
      (cfg : Config F) (from to : Text) (found : Option Text)
      → IsQuiet (rate_found lib s cfg from to found)
  unfolding rate_found
  rate_found-IsQuiet cfg from to none =
      search (quiet_rules, compute-IsReadOnly, rate_result-IsQuiet) depth 12
  rate_found-IsQuiet cfg from to (some body) = IsQuiet-pure _

  pub single_upper-IsQuiet : (from to : Text) → IsQuiet (single_upper lib s from to)
  unfolding single_upper
  single_upper-IsQuiet from to = elim (Option-cases s.agg) [
    | inl e ↦ rw e (search quiet_rules depth 12)
    | inr (cfg, e) ↦ rw e (search (quiet_rules, rate_found-IsQuiet) depth 12)
  ]

  pub rates_from_upper-IsQuiet : (base : Text) → IsQuiet (rates_from_upper lib s base)
  unfolding rates_from_upper
  rates_from_upper-IsQuiet base = elim (Option-cases s.agg) [
    | inl e ↦ rw e (search quiet_rules depth 12)
    | inr (cfg, e) ↦ rw e (search (quiet_rules, base_rates-IsQuiet) depth 12)
  ]

  pub all_rates-IsQuiet : IsQuiet (all_rates lib s)
  unfolding all_rates
  all_rates-IsQuiet = elim (Option-cases s.agg) [
    | inl e ↦ rw e (IsQuiet-pure _)
    | inr (cfg, e) ↦ rw e (all_rates_from-IsQuiet cfg s.currencies)
  ]

  history_result-IsQuiet :
      (from to : Text) (range : Time × Time × Duration) (r : Outcome (List (HistoryPoint F)))
      → IsQuiet (history_result lib s from to range r)
  unfolding history_result
  history_result-IsQuiet from to range (ok pts) = search quiet_rules depth 12
  history_result-IsQuiet from to range (err e) = IsQuiet-pure _

  history_found-IsQuiet :
      (cfg : Config F) (from to : Text) (range : Time × Time × Duration) (found : Option Text)
      → IsQuiet (history_found lib s cfg from to range found)
  unfolding history_found History.history
  history_found-IsQuiet cfg from to (start, end, step) none =
      IsQuiet-bind _ _
        (IsQuiet-run _ (history_upper-IsReadOnly cfg (to_upper from) (to_upper to) start end step))
        (history_result-IsQuiet from to (start, end, step))
  history_found-IsQuiet cfg from to range (some body) = IsQuiet-pure _

  history_checked-IsQuiet :
      (cfg : Config F) (from to : Text) (r : Checked (Time × Time × Duration))
      → IsQuiet (history_checked lib s cfg from to r)
  unfolding history_checked
  history_checked-IsQuiet cfg from to (accepted range) =
      search (quiet_rules, history_found-IsQuiet) depth 12
  history_checked-IsQuiet cfg from to (refused message) = IsQuiet-pure _

  history_upper-IsQuiet :
      (cfg : Config F) (from to : Text) (q : HistoryQuery)
      → IsQuiet (history_upper lib s cfg from to q)
  unfolding history_upper
  history_upper-IsQuiet cfg from to q = search (quiet_rules, history_checked-IsQuiet) depth 12

  pub history_handler-IsQuiet :
      (base quote : Text) (q : HistoryQuery) → IsQuiet (history_handler lib s base quote q)
  unfolding history_handler
  history_handler-IsQuiet base quote q = elim (Option-cases s.agg) [
    | inl e ↦ rw e (IsQuiet-pure _)
    | inr (cfg, e) ↦ rw e (history_upper-IsQuiet cfg (to_upper base) (to_upper quote) q)
  ]
