-- ===== src/Store/Migrate.antt =====
-- internal/store/store.go: `Open`, `migrate` and `Close`. The driver can fail at each statement, and
-- the statements before it stay, since a migration is not run in a transaction.
pub mod Keeping
pub mod Ensuring
pub mod Applied
pub mod Again
pub mod Made
pub mod Makes
pub mod Opened
pub mod Works
use argos_fx.Prelude.{ℕ, ◌+◌, Bool, true, false, not, List, [], ◌∷◌, ◌++◌, length, if◌then◌else◌}
use argos_fx.Prelude.Sort.{sort}
use argos_fx.Text.{Text, codes, text_less, has_suffix}
use argos_fx.Clock.{Time, rfc3339}
use argos_fx.Error.{Error, driver, message, wrap, Outcome, ok, err, in_context, is_no_rows}
use argos_fx.Store.Providers.{name_eq}
use argos_fx.Store.Monad.{Effect, ◌>>=◌, return, fail, of_outcome, map_outcome, attempt}
use argos_fx.Store.Schema.{
  File, rows_of, init_sql, create_migrations, select_applied, insert_migration,
}

-- The database file while it is opened, whether a connection is open, and the environment, as in
-- the world of the open database.
pub record Opening (F : Type 0) : Type 0 where
  pub file : File F
  pub connected : Bool
  -- `last_insert_rowid` of the connection
  pub last_rowid : ℕ
  pub clock : ℕ → Time
  pub ticks : ℕ
  pub broken : ℕ → Bool
  pub queries : ℕ

abbrev pub Script : Type 0 → Type 0
Script F = List (File F → Outcome (Unit {0}) × File F)

pub record Entry : Type 0 where
  pub name : Text
  pub is_dir : Bool

-- `migrationsFS`: `ReadDir("migrations")` and `ReadFile`, of the statements of a file.
pub record Embedded (F : Type 0) : Type 0 where
  pub entries : Outcome (List Entry)
  pub read_file : Text → Outcome (Script F)

-- The directory `migrations` of the repository.
unfoldable pub migrations_fs : (F : Type 0) → Embedded F
migrations_fs F = record {
  entries = ok (record { name = codes "0001_init.sql"; is_dir = false } ∷ []);
  read_file = λ path.
      if name_eq path (codes "migrations/0001_init.sql")
      then ok init_sql
      else err (message "file does not exist");
}

-- The names of the directory that are migrations.
unfoldable pub sql_names : List Entry → List Text
unfolding has_suffix
sql_names [] = []
sql_names (e ∷ es) =
    if (if not e.is_dir then has_suffix e.name (codes ".sql") else false)
    then e.name ∷ sql_names es
    else sql_names es

module _ {F : Type 0} where
  -- One call of the driver: it fails and changes nothing, or the statement runs.
  unfoldable pub execute : {A : Type 0} → (File F → Outcome A × File F) → Effect (Opening F) A
  execute statement w =
      let w' = record w { queries = w.queries + 1 } in
      if w.broken w.queries
      then (err driver, w')
      else let (r, f) = statement w.file in (r, record w' { file = f })

  unfoldable pub time_now : Effect (Opening F) Time
  time_now w = (ok (w.clock w.ticks), record w { ticks = w.ticks + 1 })

  -- `ExecContext` with several statements: up to the first that fails.
  unfoldable pub run_script : Script F → Effect (Opening F) (Unit {0})
  run_script [] = return tt
  run_script (s ∷ ss) = do _ ← execute s; run_script ss

  -- `sql.Open`.
  unfoldable pub connect : Effect (Opening F) (Unit {0})
  connect w =
      let w' = record w { queries = w.queries + 1 } in
      if w.broken w.queries
      then (err driver, w')
      else (ok tt, record w' { connected = true; last_rowid = 0 })

  -- `PingContext`.
  unfoldable pub ping : Effect (Opening F) (Unit {0})
  unfolding execute
  ping = execute λ f. (ok tt, f)

  -- The rowid of the row that was just added to `schema_migrations`, of which none is deleted.
  unfoldable pub note_rowid : Effect (Opening F) (Unit {0})
  note_rowid w = (ok tt, record w { last_rowid = length (rows_of w.file.schema_migrations) })

  -- `Close`.
  unfoldable pub close : Effect (Opening F) (Unit {0})
  close w = (ok tt, record w { connected = false })

  -- `if err := ...; err != nil { _ = db.Close(); return nil, fmt.Errorf(...) }`.
  unfoldable pub close_on :
      {A : Type 0} → (Error → Error) → Outcome A × Opening F → Outcome A × Opening F
  unfolding close
  close_on f (ok a, w) = (ok a, w)
  close_on f (err e, w) = (err (f e), (close w).1)

module _ {F : Type 0} (fs : Embedded F) where
  -- A migration that is not recorded is run, and recorded.
  unfoldable pub apply_migration : Text → Effect (Opening F) (Unit {0})
  apply_migration name = do
    body ← of_outcome (fs.read_file (codes "migrations/" ++ name))
    _ ← map_outcome (in_context "apply %s: %w") (run_script body)
    t ← time_now
    _ ← execute (insert_migration name (rfc3339 t))
    note_rowid

  unfoldable pub unless_applied : Text → Outcome ℕ → Effect (Opening F) (Unit {0})
  unless_applied name (ok n) = return tt
  unless_applied name (err e) = if is_no_rows e then apply_migration name else fail e

  -- One round of the loop over the names.
  unfoldable pub migrate_one : Text → Effect (Opening F) (Unit {0})
  migrate_one name = do
    applied ← attempt (execute (select_applied name))
    unless_applied name applied

  unfoldable pub migrate_all : List Text → Effect (Opening F) (Unit {0})
  migrate_all [] = return tt
  migrate_all (name ∷ names) = do _ ← migrate_one name; migrate_all names

  unfoldable pub migrate : Effect (Opening F) (Unit {0})
  migrate = do
    _ ← execute create_migrations
    entries ← of_outcome fs.entries
    migrate_all (sort text_less (sql_names entries))

  unfoldable pub open_store : Effect (Opening F) (Unit {0})
  open_store = do
    _ ← map_outcome (in_context "open sqlite: %w") connect
    _ ← λ w. close_on (wrap "ping sqlite: %w") (ping w)
    λ w. close_on (wrap "migrate: %w") (migrate w)
