-- ===== src/Tests/Retentions.antt =====
-- The removal of every day with one day to keep, and with more days than an `int64` of nanoseconds
-- has; and the spacing of the polls.
use argos_fx.Prelude.{◌+◌, ◌*◌, ◌^◌, ◌≡◌, refl, not, arith, [], keep, ltb}
use argos_fx.Prelude.Int.{pos}
use argos_fx.Clock.{rfc3339, neg_duration, add_duration}
use argos_fx.Float.Fixed.{Fixed, fixed_double}
use argos_fx.Store.{
  World, ◌>>=◌, attempt, return, now, query, prune_older_than, prune_older_than_sql,
}
use argos_fx.Aggregator.History.{prune}
use argos_fx.Config
use argos_fx.Scheduler.{compute_schedule}
use argos_fx.Start.{retention, prune_daily}
use argos_fx.Start.Durations.{prune_daily-kept}
use argos_fx.Tests.Sample.{sample_world}
use argos_fx.Tests.Starts.{two_config}
use argos_fx.Config.{compute_ttl, http_max_age, max_age}

abbrev keep_days : Config.Config Fixed → Config.Config Fixed
keep_days cfg = record cfg { aggregator = record cfg.aggregator { retention_days = pos 1 } }

-- A day and 920 seconds after the beginning of the clock.
abbrev next_day : World Fixed
next_day = record sample_world { clock = λ _. (86400 + 920) * 10 ^ 9 }

prune_daily-kept_example : (prune_daily (keep_days two_config) next_day).1.db ≡ record next_day.db {
  readings = keep (λ r. not (ltb r.fetched_at (rfc3339 (920 * 10 ^ 9)))) next_day.db.readings;
}
prune_daily-kept_example =
    prune_daily-kept (keep_days two_config) next_day 1 refl (omega arith) (omega arith) refl

abbrev keep_for_ever : Config.Config Fixed → Config.Config Fixed
keep_for_ever cfg = record cfg {
  aggregator = record cfg.aggregator { retention_days = pos 106_752 };
}

-- One day more wraps around: every reading is removed, the newest too.
removes_all : (prune_daily (keep_for_ever two_config) next_day).1.db.readings ≡ []
unfolding prune_daily prune prune_older_than prune_older_than_sql ◌>>=◌ attempt return now query
    retention neg_duration add_duration rfc3339
removes_all = refl

-- A thousand polls with the interval of a thousand calls a day take nine tenths of a day.
spacing_of_1000 : (compute_schedule Fixed (pos 1000) []).every ≡ pos (77_760 * 10 ^ 6)
unfolding compute_schedule
spacing_of_1000 = refl
