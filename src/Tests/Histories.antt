-- ===== src/Tests/Histories.antt =====
-- Histories of two currencies, with one second in common.
use argos_fx.Prelude.{[], ◌∷◌, List, All, Sublist}
use argos_fx.Clock.{Time}
use argos_fx.Float.Fixed.{Fixed, micro, fixed_double}
use argos_fx.Store.{HistoryPoint}
use argos_fx.Aggregator.History.{cross_history}
use argos_fx.Aggregator.History.Cross.{IsCrossed, times, cross_history-IsCrossed}

abbrev at : Time → Fixed → HistoryPoint Fixed
at t r = record { fetched_at = t; rate = r }

abbrev euros : List (HistoryPoint Fixed)
euros = at 1000000000 (micro 900000) ∷ at 2000000000 (micro 910000) ∷ []

abbrev reals : List (HistoryPoint Fixed)
reals = at 2000000000 (micro 5400000) ∷ at 3000000000 (micro 5500000) ∷ []

cross_history-IsCrossed_example :
    All (IsCrossed euros reals) (cross_history euros reals)
    × Sublist (times (cross_history euros reals)) (times reals)
cross_history-IsCrossed_example = cross_history-IsCrossed euros reals
