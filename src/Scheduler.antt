-- ===== src/Scheduler.antt =====
-- internal/scheduler/scheduler.go and manager.go: when a provider is polled, and one poll. The cron
-- library that starts the polls, and the log, are not modelled.
mod Run
pub mod Usage
mod Calls
pub mod Budget
mod Overlap
pub mod Excess
pub mod Alone
unfoldable pub use Overlap.*
pub mod Outcomes
pub mod Tables
pub mod Jitter
unfoldable pub use Run.*
use argos_fx.Prelude.{◌++◌, ◌*◌, ◌^◌, List, [], if◌then◌else◌}
use argos_fx.Prelude.Int.{ℤ, pos, leb_ℤ}
use argos_fx.Text.{Text, codes, is_empty}
use argos_fx.Clock.{Duration, second}
use argos_fx.Float.{Double}

pub data ScheduleKind : Type 0 where
  kind_every : ScheduleKind
  kind_cron : ScheduleKind

pub record Schedule : Type 0 where
  pub kind : ScheduleKind
  pub cron : Text
  pub every : Duration

-- What `Manager.Add` hands to the cron library, with `Duration.String`.
unfoldable pub expression : (Duration → Text) → Schedule → Text
expression show_duration s = elim s.kind [
  | kind_every ↦ codes "@every " ++ show_duration s.every
  | kind_cron ↦ s.cron
]

module _ (F : Type 0) ⦃d : Double F⦄ where
  -- A day is spread over the calls, with a margin, and at most one call a second.
  abbrev spacing : ℤ → F
  spacing calls_per_day =
      let seconds = d.mul (d.div (d.of_int (pos 86400)) (d.of_int calls_per_day)) d.nine_tenths in
      if d.lt seconds d.one then d.one else seconds

  unfoldable pub compute_schedule : ℤ → Text → Schedule
  compute_schedule calls_per_day cron_expr =
      if is_empty cron_expr
      then record {
        kind = kind_every;
        cron = [];
        every =
            if leb_ℤ calls_per_day (pos 0)
            then pos (5 * 60 * 10 ^ 9)
            else d.to_int (d.mul (spacing calls_per_day) (d.of_int second));
      }
      else record { kind = kind_cron; cron = cron_expr; every = pos 0 }
