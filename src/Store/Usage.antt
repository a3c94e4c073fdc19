-- ===== src/Store/Usage.antt =====
-- internal/store/store.go: the table `usage`, the calls of each provider on each day.
use argos_fx.Prelude.{
  ℕ, ◌+◌, Bool, ◌&&◌, List, [], ◌∷◌, Option, none, some, length, ◌==◌, if◌then◌else◌,
}
use argos_fx.Clock.{Time, day_of}
use argos_fx.Error.{Outcome, ok}
use argos_fx.Store.Tables.{Db, UsageRow}
use argos_fx.Store.Monad.{M, query}

-- WHERE provider_id = ? AND day = ?.
abbrev pub is_for : ℕ → ℕ → UsageRow → Bool
is_for provider day u = u.provider_id == provider && (u.day == day)

-- INSERT ... VALUES(?, ?, 1) ON CONFLICT(provider_id, day) DO UPDATE SET count = count + 1.
unfoldable pub bump_usage : ℕ → ℕ → List UsageRow → List UsageRow
bump_usage provider day [] = record { provider_id = provider; day = day; count = 1 } ∷ []
bump_usage provider day (u ∷ us) =
    if is_for provider day u
    then record u { count = u.count + 1 } ∷ us
    else u ∷ bump_usage provider day us

-- SELECT count FROM usage WHERE provider_id=? AND day=?.
unfoldable pub find_usage : ℕ → ℕ → List UsageRow → Option ℕ
find_usage provider day [] = none
find_usage provider day (u ∷ us) =
    if is_for provider day u then some u.count else find_usage provider day us

-- A missing row counts as no call.
unfoldable pub usage_count : ℕ → ℕ → List UsageRow → ℕ
unfolding find_usage
usage_count provider day us = elim (find_usage provider day us) [ none ↦ 0 | some n ↦ n ]

module _ {F : Type 0} where
  -- The INSERT of `IncrementUsage`. A new row gets the next rowid.
  unfoldable pub increment_sql : ℕ → ℕ → Db F → Outcome (Unit {0}) × Db F
  unfolding bump_usage find_usage
  increment_sql provider day db = (
    ok tt,
    record db {
      usage = bump_usage provider day db.usage;
      last_rowid = elim (find_usage provider day db.usage) [
        | none ↦ length db.usage + 1
        | some n ↦ db.last_rowid
      ];
    },
  )

  unfoldable pub increment_usage : ℕ → Time → M F (Unit {0})
  unfolding increment_sql
  increment_usage provider t = query (increment_sql provider (day_of t))

  unfoldable pub usage_today : ℕ → Time → M F ℕ
  unfolding usage_count
  usage_today provider t = query λ db. (ok (usage_count provider (day_of t) db.usage), db)
