-- ===== src/Start/Durations.antt =====
-- cmd/argosfx/main.go and internal/config/config.go: the durations that the settings give, and the
-- removal of every day.
use argos_fx.Prelude.{
  ℕ, ◌-◌, ◌*◌, ◌^◌, ◌≤◌, ◌<◌, ◌≡◌, refl, arith, true, false, not, keep, ltb, if◌then◌else◌,
}
use argos_fx.Prelude.Int.{ℤ, pos, negsuc, int64, ◌≤ℤ◌, ◌*ℤ◌, leb_ℤ}
use argos_fx.Clock.{Time, rfc3339, neg_duration, add_duration, seconds_duration, second, hour}
use argos_fx.Float.{Double}
use argos_fx.Store.{
  World, ◌>>=◌, attempt, return, now, query, prune_older_than, prune_older_than_sql,
}
use argos_fx.Aggregator.History.{prune}
use argos_fx.Config
use argos_fx.Config.{compute_ttl, http_max_age, max_age}
use argos_fx.Start.{retention, prune_daily}

-- A value of Go's `int64`.
pub record IsInt64 (n : ℤ) : Type 0 where
  pub low : negsuc (2 ^ 63 - 1) ≤ℤ n
  pub high : n ≤ℤ pos (2 ^ 63 - 1)

int64-IsInt64 : (n : ℤ) → IsInt64 (int64 n)
int64-IsInt64 (pos n) = record { low = ground arith; high = ground arith }
int64-IsInt64 (negsuc n) = record { low = ground arith; high = ground arith }

module _ {F : Type 0} where
  -- The times to live, the age limit and the retention of any configuration are `int64` values.
  pub durations-IsInt64 :
      (cfg : Config.Config F)
      → IsInt64 (compute_ttl cfg.cache)
        × IsInt64 (http_max_age cfg.cache)
        × IsInt64 (max_age cfg.aggregator)
        × IsInt64 (retention cfg.aggregator.retention_days)
  unfolding compute_ttl http_max_age max_age retention seconds_duration
  durations-IsInt64 cfg = (
    int64-IsInt64 (cfg.cache.compute_ttl_seconds *ℤ second),
    int64-IsInt64 (cfg.cache.http_cache_max_age_sec *ℤ second),
    int64-IsInt64 (cfg.aggregator.max_age_seconds *ℤ second),
    int64-IsInt64 (int64 (cfg.aggregator.retention_days *ℤ pos 24) *ℤ hour),
  )

-- The product does not wrap around up to 106751 days, about 292 years.
retention_exact : (n : ℕ) → n ≤ 106_751 → retention (pos n) ≡ pos (n * 24 * (3600 * 10 ^ 9))
unfolding retention
retention_exact n h = ground arith

neg_retention : (n : ℕ) → 0 < n → n < 2 ^ 63 → neg_duration (pos n) ≡ negsuc (n - 1)
unfolding neg_duration
neg_retention n p h = ground arith

cutoff_exact :
    (t : Time) (n : ℕ)
    → 0 < n
    → n ≤ 106_751
    → add_duration t (neg_duration (retention (pos n))) ≡ t - n * 24 * (3600 * 10 ^ 9)
unfolding add_duration
cutoff_exact t n p h =
    rw (retention_exact n h, neg_retention (n * 24 * (3600 * 10 ^ 9)) (omega arith) (omega arith))
      (omega arith)

module _ {F : Type 0} ⦃d : Double F⦄ where
  -- With one to 106751 days to keep and a driver that answers, the removal of every day keeps
  -- exactly the readings that are, to the second, at most that many days old, in their order, and
  -- the rest of the database.
  pub prune_daily-kept :
      (cfg : Config.Config F) (w : World F) (n : ℕ)
      → cfg.aggregator.retention_days ≡ pos n
      → 0 < n
      → n ≤ 106_751
      → w.broken w.queries ≡ false
      → (prune_daily cfg w).1.db ≡ record w.db {
        readings =
            keep
              (λ r. not (ltb r.fetched_at (rfc3339 (w.clock w.ticks - n * 24 * (3600 * 10 ^ 9)))))
              w.db.readings;
      }
  unfolding prune_daily prune ◌>>=◌ attempt return now query prune_older_than prune_older_than_sql
  prune_daily-kept cfg w n days p h answers =
      let some_days : not (leb_ℤ (pos n) (pos 0)) ≡ true = ground arith in
      rw (days, some_days, if◌then◌else◌, answers, cutoff_exact (w.clock w.ticks) n p h) refl
