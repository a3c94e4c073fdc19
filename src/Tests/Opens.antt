-- ===== src/Tests/Opens.antt =====
-- The first start of a new database fails after two of the migration's statements; the second works.
use argos_fx.Prelude.{◌≡◌, refl, false, [], none, some, ◌==◌}
use argos_fx.Float.Fixed.{Fixed}
use argos_fx.Store.Sound.{new_db}
use argos_fx.Store.Schema.{empty_file, db_of}
use argos_fx.Store.Migrate.{Opening, migrations_fs, open_store}
use argos_fx.Store.Migrate.Again.{open_store-again}
use argos_fx.Store.Migrate.Opened.{created, opened, open_store-tables, migrations_fs-IsModest}
use argos_fx.Store.Migrate.Works.{open_store-works, whole_open}
use argos_fx.Tests.Sample.{instant}

abbrev first_start : Opening Fixed
first_start = record {
  file = empty_file;
  connected = false;
  last_rowid = 0;
  clock = λ _. instant;
  ticks = 0;
  broken = λ n. n == 6;
  queries = 0;
}

abbrev second_start : Opening Fixed
second_start = record first_start {
  file = (open_store (migrations_fs Fixed) first_start).1.file;
  broken = λ _. false;
}

-- The first start leaves two tables, and no record of the migration.
half_made :
    (second_start.file.readings ≡ some [])
    × (second_start.file.usage ≡ none)
    × (second_start.file.schema_migrations ≡ some [])
unfolding whole_open
half_made = (refl, refl, refl)

open_store-tables_example :
    db_of (open_store (migrations_fs Fixed) second_start).1.file ≡ some new_db
open_store-tables_example =
    open_store-tables new_db second_start (opened first_start created)
      (open_store-works second_start refl)

abbrev third_start : Opening Fixed
third_start = record first_start { file = (open_store (migrations_fs Fixed) second_start).1.file }

open_store-again_example : (open_store (migrations_fs Fixed) third_start).1.file ≡ third_start.file
open_store-again_example =
    open_store-again (migrations_fs Fixed) migrations_fs-IsModest second_start third_start
      (open_store-works second_start refl) refl
