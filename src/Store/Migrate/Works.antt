-- ===== src/Store/Migrate/Works.antt =====
-- internal/store/store.go: `Open` with a driver that works.
use argos_fx.Prelude.{
  ◌≡◌, refl, Bool-cases, inl, inr, Bool, false, List, Option, Option-cases, some, if◌then◌else◌,
}
use argos_fx.Prelude.Sort.{sort}
use argos_fx.Text.{codes, text_discrete, has_suffix}
use argos_fx.Clock.{rfc3339}
use argos_fx.Error.{ok, is_no_rows}
use argos_fx.Store.Monad.{◌>>=◌}
use argos_fx.Store.Schema.{
  create_providers, create_readings, index_lookup, index_provider, create_usage, create_migrations,
  is_applied, is_in, select_applied, insert_migration, create_table, Migration,
}
use argos_fx.Store.Migrate.{
  Opening, migrations_fs, execute, run_script, apply_migration, unless_applied, migrate_one,
  migrate_all, migrate, connect, ping, close_on, time_now, note_rowid, open_store, sql_names,
}

unfoldable pub whole_open : Unit {0}
unfolding open_store migrate migrate_all migrate_one unless_applied apply_migration run_script
    execute connect ping close_on time_now note_rowid sql_names has_suffix text_discrete sort
    create_migrations select_applied insert_migration is_applied create_providers create_readings
    index_lookup index_provider create_usage create_table migrations_fs is_no_rows ◌>>=◌ rfc3339
whole_open = tt

abbrev found_in : Option (List Migration) → Bool
found_in rows = is_in (codes "0001_init.sql") rows

module _ {F : Type 0} where
  -- When no call of the driver fails, `Open` succeeds on any file.
  pub open_store-works :
      (w : Opening F) → w.broken ≡ (λ n. false) → (open_store (migrations_fs F) w).0 ≡ ok tt
  unfolding whole_open
  open_store-works w h = elim (Option-cases w.file.readings) [
    | inl r ↦ elim (Option-cases w.file.schema_migrations) [
      | inl m ↦ rw (h, m, r) refl
      | inr (rows, m) ↦ elim (Bool-cases (found_in (some rows))) [
        | inl e ↦ rw (h, m, r, e) refl
        | inr e ↦ rw (h, m, r, e, if◌then◌else◌, e) refl
      ]
    ]
    | inr (rs, r) ↦ elim (Option-cases w.file.schema_migrations) [
      | inl m ↦ rw (h, m, r) refl
      | inr (rows, m) ↦ elim (Bool-cases (found_in (some rows))) [
        | inl e ↦ rw (h, m, r, e) refl
        | inr e ↦ rw (h, m, r, e, if◌then◌else◌, e) refl
      ]
    ]
  ]
