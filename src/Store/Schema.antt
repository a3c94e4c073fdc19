-- ===== src/Store/Schema.antt =====
-- internal/store/migrations/0001_init.sql and internal/store/store.go: the database file, which
-- lacks the tables until the migration has made them, and the statements on its schema.
use argos_fx.Prelude.{
  ℕ, Bool, true, false, List, [], ◌∷◌, ◌++◌, Option, none, some, any, if◌then◌else◌,
}
use argos_fx.Text.{Text}
use argos_fx.Error.{driver, constraint, no_rows, Outcome, ok, err}
use argos_fx.Store.Tables.{ProviderRow, ReadingRow, UsageRow, Db}
use argos_fx.Store.Providers.{name_eq}

-- A row of `schema_migrations`.
pub record Migration : Type 0 where
  pub name : Text
  pub applied_at : ℕ

-- A table that is not there is `none`. The counters of AUTOINCREMENT start at one.
pub record File (F : Type 0) : Type 0 where
  pub providers : Option (List ProviderRow)
  pub readings : Option (List (ReadingRow F))
  pub ix_readings_lookup : Bool
  pub ix_readings_provider : Bool
  pub usage : Option (List UsageRow)
  pub next_provider : ℕ
  pub next_reading : ℕ
  pub schema_migrations : Option (List Migration)

-- CREATE TABLE IF NOT EXISTS.
unfoldable pub create_table : {A : Type 0} → Option (List A) → Option (List A)
create_table none = some []
create_table (some rows) = some rows

abbrev pub is_in : Text → Option (List Migration) → Bool
is_in name none = false
is_in name (some rows) = any (λ m. name_eq m.name name) rows

-- The row of a SELECT 1, or that there is no table or no row.
abbrev pub found_one : Option (List Migration) → Bool → Outcome ℕ
found_one none found = err driver
found_one (some rows) found = if found then ok 1 else err no_rows

-- An INSERT, unless the table is missing or the key is found.
abbrev pub insert_row :
    Option (List Migration) → Bool → Migration → Outcome (Unit {0}) × Option (List Migration)
insert_row none found m = (err driver, none)
insert_row (some rows) found m =
    if found then (err constraint, some rows) else (ok tt, some (rows ++ (m ∷ [])))

-- The rows of a table, which has none if it is not there.
abbrev pub rows_of : {A : Type 0} → Option (List A) → List A
rows_of none = []
rows_of (some rows) = rows

module _ {F : Type 0} where
  abbrev pub empty_file : File F
  empty_file = record {
    providers = none;
    readings = none;
    ix_readings_lookup = false;
    ix_readings_provider = false;
    usage = none;
    next_provider = 1;
    next_reading = 1;
    schema_migrations = none;
  }

  -- CREATE INDEX IF NOT EXISTS ... ON readings: the table has to be there.
  abbrev pub on_readings :
      Option (List (ReadingRow F)) → File F → File F → Outcome (Unit {0}) × File F
  on_readings none f indexed = (err driver, f)
  on_readings (some rows) f indexed = (ok tt, indexed)

  unfoldable pub create_providers : File F → Outcome (Unit {0}) × File F
  unfolding create_table
  create_providers f = (ok tt, record f { providers = create_table f.providers })

  unfoldable pub create_readings : File F → Outcome (Unit {0}) × File F
  unfolding create_table
  create_readings f = (ok tt, record f { readings = create_table f.readings })

  unfoldable pub index_lookup : File F → Outcome (Unit {0}) × File F
  index_lookup f = on_readings f.readings f (record f { ix_readings_lookup = true })

  unfoldable pub index_provider : File F → Outcome (Unit {0}) × File F
  index_provider f = on_readings f.readings f (record f { ix_readings_provider = true })

  unfoldable pub create_usage : File F → Outcome (Unit {0}) × File F
  unfolding create_table
  create_usage f = (ok tt, record f { usage = create_table f.usage })

  -- The statements of 0001_init.sql, in order.
  abbrev pub init_sql : List (File F → Outcome (Unit {0}) × File F)
  init_sql = create_providers ∷ create_readings ∷ index_lookup ∷ index_provider ∷ create_usage ∷ []

  -- CREATE TABLE IF NOT EXISTS schema_migrations.
  unfoldable pub create_migrations : File F → Outcome (Unit {0}) × File F
  unfolding create_table
  create_migrations f = (ok tt, record f { schema_migrations = create_table f.schema_migrations })

  -- Whether a migration is recorded.
  unfoldable pub is_applied : Text → File F → Bool
  is_applied name f = is_in name f.schema_migrations

  -- SELECT 1 FROM schema_migrations WHERE name=?, and `Scan`.
  unfoldable pub select_applied : Text → File F → Outcome ℕ × File F
  unfolding is_applied
  select_applied name f = (found_one f.schema_migrations (is_applied name f), f)

  -- INSERT INTO schema_migrations(name, applied_at) VALUES(?, ?), where `name` is the primary key.
  unfoldable pub insert_migration : Text → ℕ → File F → Outcome (Unit {0}) × File F
  unfolding is_applied
  insert_migration name applied_at f =
      let (r, rows) =
        insert_row f.schema_migrations (is_applied name f)
          (record { name = name; applied_at = applied_at }) in
      (r, record f { schema_migrations = rows })

  -- The tables as the statements of the program see them on a new connection, if all are there.
  unfoldable pub db_of : File F → Option (Db F)
  db_of f = elim f.providers [
    | none ↦ none
    | some ps ↦ elim f.readings [
      | none ↦ none
      | some rs ↦ elim f.usage [
        | none ↦ none
        | some us ↦ some (record {
          providers = ps;
          readings = rs;
          usage = us;
          next_provider = f.next_provider;
          next_reading = f.next_reading;
          last_rowid = 0;
        })
      ]
    ]
  ]

  -- The rows that a file holds.
  abbrev pub tables_of : File F → Db F
  tables_of f = record {
    providers = rows_of f.providers;
    readings = rows_of f.readings;
    usage = rows_of f.usage;
    next_provider = f.next_provider;
    next_reading = f.next_reading;
    last_rowid = 0;
  }
