-- ===== src/Tests/Overlaps.antt =====
-- Polls that overlap, in the sample world.
use argos_fx.Prelude.{◌≡◌, ◌≤◌, refl, true, [], ◌∷◌, arith}
use argos_fx.Clock.{day_of}
use argos_fx.Error.{ok}
use argos_fx.Float.Fixed.{Fixed}
use argos_fx.Store.{
  World, usage_count, bump_usage, ◌>>=◌, now, query, usage_today, increment_usage, return,
}
use argos_fx.Scheduler.{
  budget_allowed, begin_poll, go_on, fetching, storing, none_yet, begun, gone_on, record_success,
}
use argos_fx.Scheduler.Excess.{Overlaps-budget}
use argos_fx.Tests.Sample.{sample_world}
use argos_fx.Tests.Polls.{job}

-- One call of two is counted.
abbrev one_call : World Fixed
one_call = record sample_world {
  db = record sample_world.db { usage = record { provider_id = 2; day = 0; count = 1 } ∷ [] };
}

abbrev first_begun : World Fixed
first_begun = (begin_poll job one_call).1

abbrev both_begun : World Fixed
both_begun = (begin_poll job first_begun).1

abbrev first_counted : World Fixed
first_counted = (go_on job (storing []) both_begun).1

run : Unit {0}
unfolding usage_count bump_usage day_of budget_allowed begin_poll go_on ◌>>=◌ now query usage_today
    increment_usage return record_success
run = tt

both_allowed : (begin_poll job first_begun).0 ≡ ok true
unfolding run
both_allowed = refl

-- Two polls that both passed the test of the budget count three calls of two.
three_of_two : usage_count 2 0 (go_on job (storing []) first_counted).1.db.usage ≡ 3
unfolding run
three_of_two = refl

Overlaps-budget_example : usage_count 2 0 (go_on job fetching both_begun).1.db.usage ≤ 3
unfolding run
Overlaps-budget_example =
    Overlaps-budget job 1 refl 2 0 one_call _ (λ t. refl) (omega arith) (omega arith)
      (gone_on [] (fetching ∷ []) fetching refl
        (begun (omega arith) refl (begun (omega arith) refl none_yet)))
