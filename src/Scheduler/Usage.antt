-- ===== src/Scheduler/Usage.antt =====
-- internal/store/store.go, as the scheduler uses it: counting one call.
use argos_fx.Prelude.{ℕ, ◌+◌, ◌≡◌, ◌&&◌, List, [], ◌∷◌, arith, ◌==◌, if◌then◌else◌}
use argos_fx.Store.{UsageRow, bump_usage, usage_count}

-- Counting a call of one provider on one day adds one to the count of that provider on that day,
-- and changes no other count.
pub usage_count-bump_usage :
    (p q d e : ℕ) (us : List UsageRow)
    → usage_count q e (bump_usage p d us)
      ≡ usage_count q e us + (if q == p && (e == d) then 1 else 0)
unfolding usage_count bump_usage
usage_count-bump_usage p q d e [] = ground arith
usage_count-bump_usage p q d e (u ∷ us) = ground (arith, usage_count-bump_usage p q d e us)
