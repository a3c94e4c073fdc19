-- ===== src/Store/Migrate/Opened.antt =====
-- internal/store/store.go: the database file over the starts of the program.
use argos_fx.Prelude.{
  ℕ, ◌≡◌, ◌∙◌, refl, sym, ap, Bool-cases, inl, inr, true, List, ◌++◌, Option, none, some,
  if◌then◌else◌,
}
use argos_fx.Text.{Text, codes, text_discrete, has_suffix}
use argos_fx.Clock.{rfc3339}
use argos_fx.Error.{ok, ok-inj, in_context}
use argos_fx.Store.Tables.{Db, ReadingRow}
use argos_fx.Store.Providers.{name_eq}
use argos_fx.Store.Sound.{new_db}
use argos_fx.Store.Monad.{map_outcome}
use argos_fx.Store.Schema.{
  File, empty_file, init_sql, create_providers, create_readings, index_lookup, index_provider,
  create_usage, is_applied, is_in, Migration, insert_migration, create_migrations, db_of, tables_of,
  create_table, on_readings,
}
use argos_fx.Store.Migrate.{
  Opening, Script, migrations_fs, run_script, apply_migration, open_store, time_now, note_rowid,
  sql_names,
}
use argos_fx.Store.Migrate.Keeping.{
  IsKept, IsKeeping, IsKeeping-bind, IsKeeping-same, IsKeeping-execute, IsKeeping-of_outcome,
  IsKeeping-map_outcome, IsKeeping-run_script, migrate-IsKeeping, open_store-IsKeeping,
}
use argos_fx.Store.Migrate.Ensuring.{IsKeeping-ensured, IsEnsuring, IsEnsuring-in_context}
use argos_fx.Store.Migrate.Applied.{IsModest, LeavesRecords}
use argos_fx.Store.Migrate.Again.{open_store-recorded}
use argos_fx.Store.Migrate.Makes.{init_sql-IsWhole}
use argos_fx.Store.Migrate.Made.{
  init_name, IsWhole, IsConsistent, db_of-IsWhole, init_sql-IsConsistent,
}

is_in-create_table :
    (name : Text) (o : Option (List Migration)) → is_in name (create_table o) ≡ is_in name o
unfolding create_table
is_in-create_table name none = refl
is_in-create_table name (some rows) = refl

module _ {F : Type 0} where
  -- The only file of the directory.
  read-init_sql :
      (path : Text) (body : Script F) → (migrations_fs F).read_file path ≡ ok body → body ≡ init_sql
  unfolding migrations_fs
  read-init_sql path body h = elim (Bool-cases (name_eq path (codes "migrations/0001_init.sql"))) [
    | inl e ↦ sym (ok-inj (rw (e, if◌then◌else◌) at h))
    | inr e ↦ absurd cc (rw (e, if◌then◌else◌) at h)
  ]

  on_readings-records :
      (o : Option (List (ReadingRow F))) (f g : File F)
      → g.schema_migrations ≡ f.schema_migrations
      → (on_readings o f g).1.schema_migrations ≡ f.schema_migrations
  on_readings-records none f g h = refl
  on_readings-records (some rows) f g h = h

  init_sql-LeavesRecords : LeavesRecords {F = F} init_sql
  unfolding create_providers create_readings index_lookup index_provider create_usage
  init_sql-LeavesRecords = (
    (λ f. refl),
    (
      (λ f. refl),
      (
        (λ f. on_readings-records f.readings f (record f { ix_readings_lookup = true }) refl),
        (
          (λ f. on_readings-records f.readings f (record f { ix_readings_provider = true }) refl),
          ((λ f. refl), tt),
        ),
      ),
    ),
  )

  pub migrations_fs-IsModest : IsModest (migrations_fs F)
  migrations_fs-IsModest = record {
    leaves = λ path body h. rw (read-init_sql path body h) init_sql-LeavesRecords;
  }

  module _ (t : Db F) where
    abbrev IsReady : File F → Type 0
    IsReady f = IsConsistent t f × IsWhole f

    insert-IsReady : (name : Text) (stamp : ℕ) → IsKept IsReady (insert_migration name stamp)
    unfolding insert_migration
    insert-IsReady name stamp f (c, h) =
        let all : IsWhole (insert_migration name stamp f).1 = record {
          has_providers = h.has_providers;
          has_readings = h.has_readings;
          has_lookup = h.has_lookup;
          has_provider = h.has_provider;
          has_usage = h.has_usage;
        } in
        (record { same = c.same; whole = λ k. all }, all)

    apply-IsConsistent :
        (name : Text) → IsKeeping (IsConsistent t) (apply_migration (migrations_fs F) name)
    unfolding apply_migration time_now note_rowid
    apply-IsConsistent name = IsKeeping-of_outcome _ _ _ λ body read.
        IsKeeping-ensured _ IsWhole _ _ (IsKeeping-map_outcome _ _ _ (kept body read))
          (made body read)
          λ _. IsKeeping-bind _ _ _ (IsKeeping-same _ _ (λ w. refl)) λ stamp.
            IsKeeping-bind _ _ _ (IsKeeping-execute _ _ (insert-IsReady name (rfc3339 stamp)))
              λ _. IsKeeping-same _ _ (λ w. refl)
      where
        kept :
            (body : Script F)
            → (migrations_fs F).read_file (codes "migrations/" ++ name) ≡ ok body
            → IsKeeping (IsConsistent t) (run_script body)
        kept body read =
            rw (read-init_sql _ body read)
              (IsKeeping-run_script _ init_sql (init_sql-IsConsistent t))

        made :
            (body : Script F)
            → (migrations_fs F).read_file (codes "migrations/" ++ name) ≡ ok body
            → IsEnsuring IsWhole (map_outcome (in_context "apply %s: %w") (run_script body))
        made body read =
            rw (read-init_sql _ body read) (IsEnsuring-in_context _ _ _ init_sql-IsWhole)

    create-IsConsistent : IsKept (IsConsistent t) create_migrations
    unfolding create_migrations is_applied
    create-IsConsistent f c = record {
      same = c.same;
      whole = λ h.
          let all = c.whole (sym (is_in-create_table init_name f.schema_migrations) ∙ h) in
          record {
            has_providers = all.has_providers;
            has_readings = all.has_readings;
            has_lookup = all.has_lookup;
            has_provider = all.has_provider;
            has_usage = all.has_usage;
          };
    }

    open_store-IsConsistent : IsKeeping (IsConsistent t) (open_store (migrations_fs F))
    open_store-IsConsistent =
        open_store-IsKeeping _ _ (migrate-IsKeeping _ _ apply-IsConsistent create-IsConsistent)

  abbrev pub with_rows : Db F → File F → File F
  with_rows db f = record f {
    providers = some db.providers;
    readings = some db.readings;
    usage = some db.usage;
    next_provider = db.next_provider;
    next_reading = db.next_reading;
  }

  -- The database file over the starts of the program, with the rows that the program last left:
  -- a new file, an `Open` that fails anywhere or succeeds, and any work on the open tables.
  pub data Lives : Db F → File F → Type 0 where
    created : Lives new_db empty_file
    opened :
        (w : Opening F) {t : Db F}
        → Lives t w.file
        → Lives t (open_store (migrations_fs F) w).1.file
    worked :
        (db : Db F) {t : Db F} {f : File F}
        → Lives t f
        → db_of f ≡ some t
        → Lives (record db { last_rowid = 0 }) (with_rows db f)

  Lives-IsConsistent : {t : Db F} {f : File F} → Lives t f → IsConsistent t f
  unfolding is_applied
  Lives-IsConsistent created = record { same = refl; whole = λ h. absurd cc h }
  Lives-IsConsistent (opened w {t = t} l) =
      (open_store-IsConsistent t).keeps w (Lives-IsConsistent l)
  Lives-IsConsistent (worked db {f = f} l h) = record {
    same = refl;
    whole = λ k.
        let all = (Lives-IsConsistent l).whole k in
        record {
          has_providers = refl;
          has_readings = refl;
          has_lookup = all.has_lookup;
          has_provider = all.has_provider;
          has_usage = refl;
        };
  }

  -- An `Open`, whether it fails or not, keeps the rows.
  pub open_store-rows :
      (t : Db F) (w : Opening F)
      → Lives t w.file
      → tables_of (open_store (migrations_fs F) w).1.file ≡ t
  open_store-rows t w l = (Lives-IsConsistent (opened w l)).same

  init-recorded :
      (w : Opening F)
      → (open_store (migrations_fs F) w).0 ≡ ok tt
      → is_applied init_name (open_store (migrations_fs F) w).1.file ≡ true
  unfolding migrations_fs sql_names has_suffix text_discrete
  init-recorded w h = (open_store-recorded (migrations_fs F) migrations_fs-IsModest w h _ refl).0

  -- Whatever failed at the starts before, an `Open` that succeeds finds every table there, with
  -- the rows that the program last left in it.
  pub open_store-tables :
      (t : Db F) (w : Opening F)
      → Lives t w.file
      → (open_store (migrations_fs F) w).0 ≡ ok tt
      → db_of (open_store (migrations_fs F) w).1.file ≡ some t
  open_store-tables t w l h =
      let c = Lives-IsConsistent (opened w l) in
      db_of-IsWhole _ (c.whole (init-recorded w h)) ∙ ap some c.same
