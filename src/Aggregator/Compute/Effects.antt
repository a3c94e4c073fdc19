-- ===== src/Aggregator/Compute/Effects.antt =====
-- Requests for rates only read: they change no table, call no provider and count nothing.
use argos_fx.Prelude.{List, [], ◌∷◌}
use argos_fx.Text.{Text, to_upper}
use argos_fx.Clock.{Time, Duration}
use argos_fx.Float.{Double}
use argos_fx.Store.{World}
use argos_fx.Store.ReadOnly.{
  IsReadOnly, SameData, IsReadOnly-bind, IsReadOnly-return, read_rules, latest_readings-IsReadOnly,
  list_providers-IsReadOnly, history-IsReadOnly,
}
use argos_fx.Aggregator.Types.{Config, Result}
use argos_fx.Aggregator.Direct.{age_seconds, compute_direct}
use argos_fx.Aggregator.Compute.{
  compute, compute_pair, compute_cross, collect_one, collect, all_currencies,
}
use argos_fx.Aggregator.History
use argos_fx.Aggregator.History.{history_side, history_upper}

module _ {F : Type 0} ⦃d : Double F⦄ where
  age_seconds-IsReadOnly : (t : Time) → IsReadOnly {F = F} (age_seconds t)
  unfolding age_seconds
  age_seconds-IsReadOnly t = search read_rules

module _ {F : Type 0} ⦃d : Double F⦄ (cfg : Config F) where
  compute_direct-IsReadOnly :
      (quote : Text) (since : Time) → IsReadOnly (compute_direct cfg quote since)
  unfolding compute_direct
  compute_direct-IsReadOnly quote since =
      search
        (read_rules, latest_readings-IsReadOnly, list_providers-IsReadOnly, age_seconds-IsReadOnly)
        depth 12

  compute_cross-IsReadOnly :
      (from to : Text) (since : Time) → IsReadOnly (compute_cross cfg from to since)
  unfolding compute_cross
  compute_cross-IsReadOnly from to since = search (read_rules, compute_direct-IsReadOnly) depth 12

  compute_pair-IsReadOnly :
      (from to : Text) (since : Time) → IsReadOnly (compute_pair cfg from to since)
  unfolding compute_pair
  compute_pair-IsReadOnly from to since =
      search (read_rules, compute_direct-IsReadOnly, compute_cross-IsReadOnly) depth 12

  pub compute-IsReadOnly : (from to : Text) → IsReadOnly (compute cfg from to)
  unfolding compute
  compute-IsReadOnly from to = search (read_rules, compute_pair-IsReadOnly) depth 12

  collect_one-IsReadOnly :
      (since : Time) (code : Text) (out : List (Text × Result F))
      → IsReadOnly (collect_one cfg since code out)
  unfolding collect_one
  collect_one-IsReadOnly since code out = search (read_rules, compute_direct-IsReadOnly) depth 12

  collect-IsReadOnly :
      (since : Time) (code_list : List Text) (out : List (Text × Result F))
      → IsReadOnly (collect cfg since code_list out)
  unfolding collect
  collect-IsReadOnly since [] out = IsReadOnly-return out
  collect-IsReadOnly since (code ∷ rest) out =
      IsReadOnly-bind _ _ (collect_one-IsReadOnly since code out) (collect-IsReadOnly since rest)

  pub all_currencies-IsReadOnly :
      (code_list : List Text) → IsReadOnly (all_currencies cfg code_list)
  unfolding all_currencies
  all_currencies-IsReadOnly code_list = search (read_rules, collect-IsReadOnly) depth 12

  history_side-IsReadOnly :
      (quote : Text) (start end : Time) (step : Duration)
      → IsReadOnly {F = F} (history_side quote start end step)
  unfolding history_side
  history_side-IsReadOnly quote start end step = search (read_rules, history-IsReadOnly) depth 12

  pub history_upper-IsReadOnly :
      (from to : Text) (start end : Time) (step : Duration)
      → IsReadOnly (history_upper cfg from to start end step)
  unfolding history_upper
  history_upper-IsReadOnly from to start end step =
      search (read_rules, history_side-IsReadOnly) depth 12

  -- A request for one rate, for all rates or for a history leaves the tables as they are, calls no
  -- provider and changes no counter, on every path and whatever fails.
  pub requests-SameData :
      (from to : Text) (code_list : List Text) (start end : Time) (step : Duration) (w : World F)
      → SameData w (compute cfg from to w).1
        × SameData w (all_currencies cfg code_list w).1
        × SameData w (History.history cfg from to start end step w).1
  unfolding History.history
  requests-SameData from to code_list start end step w = (
    (compute-IsReadOnly from to).keeps w,
    (all_currencies-IsReadOnly code_list).keeps w,
    (history_upper-IsReadOnly (to_upper from) (to_upper to) start end step).keeps w,
  )
