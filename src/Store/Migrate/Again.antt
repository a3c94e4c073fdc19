-- ===== src/Store/Migrate/Again.antt =====
-- internal/store/store.go: `Open` of a database whose migrations are all recorded.
use argos_fx.Prelude.{
  ℕ, ◌≡◌, ◌∙◌, refl, sym, Bool, true, Bool-cases, inl, inr, List, [], ◌∷◌, ◌++◌, ap, Option,
  Option-cases, some, All, if◌then◌else◌,
}
use argos_fx.Prelude.Sort.{sort, All-sort, All-of_sort}
use argos_fx.Text.{Text, text_less}
use argos_fx.Clock.{rfc3339}
use argos_fx.Error.{ok-inj, ok, is_no_rows}
use argos_fx.Store.Monad.{◌>>=◌, return, attempt}
use argos_fx.Store.Schema.{
  File, Migration, is_applied, is_in, select_applied, found_one, create_migrations, create_table,
  insert_migration,
}
use argos_fx.Store.Migrate.{
  Opening, Script, Entry, Embedded, sql_names, execute, unless_applied, migrate_one, migrate_all,
  migrate, open_store, apply_migration, time_now, note_rowid,
}
use argos_fx.Store.Migrate.Keeping.{
  IsKeeping, IsKept, IsKeeping-bind, IsKeeping-execute, IsKeeping-of_outcome, IsKeeping-same,
  open_store-IsKeeping, migrate_all-IsKeeping, IsKeeping-run_script, IsKeeping-map_outcome,
}
use argos_fx.Store.Migrate.Ensuring.{
  IsEnsuring, IsEnsuring-bind, IsEnsuring-execute, IsEnsuring-first, IsEnsuring-of_outcome,
  open_store-IsEnsuring,
}
use argos_fx.Store.Migrate.Applied.{IsModest, LeavesRecords, migrate_all-recorded}

create_table-there :
    (o : Option (List Migration)) (rows : List Migration) → o ≡ some rows → create_table o ≡ o
unfolding create_table
create_table-there o rows e = rw e refl

found_one-ok :
    (o : Option (List Migration)) (b : Bool) (rows : List Migration)
    → o ≡ some rows
    → b ≡ true
    → found_one o b ≡ ok 1
found_one-ok o b rows e h = rw (e, h) refl

module _ {F : Type 0} (fs : Embedded F) (modest : IsModest fs) where
  -- Every migration of the directory is recorded.
  abbrev pub AreRecorded : File F → Type 0
  AreRecorded f =
      (entries : List Entry)
      → fs.entries ≡ ok entries
      → All (λ name. is_applied name f ≡ true) (sql_names entries)

  migrate-recorded : IsEnsuring AreRecorded (migrate fs)
  unfolding migrate
  migrate-recorded = IsEnsuring-bind _ _ _ λ _. IsEnsuring-of_outcome _ _ _ λ entries same. record {
    at_success = λ w a h entries' same'.
        let e : entries ≡ entries' = ok-inj (sym same ∙ same') in
        rw (← e) (
          All-of_sort text_less _ (sql_names entries)
            (migrate_all-recorded fs modest (sort text_less (sql_names entries)) w a h));
  }

  -- An `Open` that succeeds leaves every migration of the directory recorded.
  pub open_store-recorded :
      (w : Opening F) → (open_store fs w).0 ≡ ok tt → AreRecorded (open_store fs w).1.file
  open_store-recorded w = (open_store-IsEnsuring AreRecorded fs migrate-recorded).at_success w tt

  abbrev HasRecords : File F → Type 0
  HasRecords f = (rows : List Migration) × (f.schema_migrations ≡ some rows)

  create-HasRecords : (f : File F) → HasRecords (create_migrations f).1
  unfolding create_migrations
  create-HasRecords f = elim (Option-cases f.schema_migrations) [
    | inl e ↦ ([], rw e refl)
    | inr (rows, e) ↦ (rows, rw e refl)
  ]

  insert-HasRecords :
      (name : Text) (t : ℕ) (f : File F) → HasRecords f → HasRecords (insert_migration name t f).1
  unfolding insert_migration is_applied
  insert-HasRecords name t f (rows, e) = elim (Bool-cases (is_in name f.schema_migrations)) [
    | inl g ↦ (rows, rw (e, rw e at g, if◌then◌else◌) refl)
    | inr g ↦ (
      rows ++ (record { name = name; applied_at = t } ∷ []),
      rw (e, rw e at g, if◌then◌else◌) refl,
    )
  ]

  script-HasRecords : (ss : Script F) → LeavesRecords ss → All (IsKept HasRecords) ss
  script-HasRecords [] _ = tt
  script-HasRecords (s ∷ ss) (p, ps) = ((λ f h. (h.0, p f ∙ h.1)), script-HasRecords ss ps)

  apply-HasRecords : (name : Text) → IsKeeping HasRecords (apply_migration fs name)
  unfolding apply_migration time_now note_rowid
  apply-HasRecords name = IsKeeping-of_outcome _ (fs.read_file _) _ λ body same.
      IsKeeping-bind _ _ _
        (IsKeeping-map_outcome _ _ _
          (IsKeeping-run_script _ body (script-HasRecords body (modest.leaves _ body same))))
        λ _. IsKeeping-bind _ _ _ (IsKeeping-same _ _ (λ w. refl)) λ t.
          IsKeeping-bind _ _ _ (IsKeeping-execute _ _ (insert-HasRecords name (rfc3339 t)))
            λ _. IsKeeping-same _ _ (λ w. refl)

  migrate-HasRecords : IsEnsuring HasRecords (migrate fs)
  unfolding migrate
  migrate-HasRecords =
      IsEnsuring-first _ _ _ (IsEnsuring-execute _ _ λ f a h. create-HasRecords f)
        λ _. IsKeeping-of_outcome _ _ _ λ entries _. migrate_all-IsKeeping _ fs apply-HasRecords _

  module _ (rows : List Migration) (f : File F) (e : f.schema_migrations ≡ some rows) where
    found_lem :
        (name : Text) (g : File F)
        → g ≡ f
        → is_applied name f ≡ true
        → (select_applied name g).0 ≡ ok 1
    unfolding select_applied
    found_lem name g same h =
        found_one-ok g.schema_migrations (is_applied name g) rows
          (ap (λ g. g.schema_migrations) same ∙ e) (ap (is_applied name) same ∙ h)

    migrate_one-same :
        (name : Text) → is_applied name f ≡ true → IsKeeping (λ g. g ≡ f) (migrate_one fs name)
    unfolding migrate_one ◌>>=◌ attempt execute unless_applied is_no_rows return select_applied
    migrate_one-same name h = record {
      keeps = λ w same. elim (Bool-cases (w.broken w.queries)) [
        | inl k ↦ rw (k, if◌then◌else◌) same
        | inr k ↦ rw (k, if◌then◌else◌, found_lem name w.file same h) same
      ];
    }

    migrate_all-same :
        (names : List Text)
        → All (λ name. is_applied name f ≡ true) names
        → IsKeeping (λ g. g ≡ f) (migrate_all fs names)
    unfolding migrate_all return
    migrate_all-same [] _ = IsKeeping-same _ _ (λ w. refl)
    migrate_all-same (name ∷ names) (h, hs) =
        IsKeeping-bind _ _ _ (migrate_one-same name h) λ _. migrate_all-same names hs

    create-same : (g : File F) → g ≡ f → (create_migrations g).1 ≡ f
    unfolding create_migrations
    create-same g same =
        ap (λ m. record g { schema_migrations = m })
          (create_table-there g.schema_migrations rows (ap (λ g. g.schema_migrations) same ∙ e))
        ∙ same

    migrate-same : AreRecorded f → IsKeeping (λ g. g ≡ f) (migrate fs)
    unfolding migrate
    migrate-same recorded = IsKeeping-bind _ _ _ (IsKeeping-execute _ _ create-same) λ _.
        IsKeeping-of_outcome _ _ _ λ entries same.
          migrate_all-same (sort text_less (sql_names entries))
            (All-sort text_less _ (sql_names entries) (recorded entries same))

  -- After an `Open` that succeeded, another one, whether it fails or not, runs no migration and
  -- leaves the file as it is.
  pub open_store-again :
      (w v : Opening F)
      → (open_store fs w).0 ≡ ok tt
      → v.file ≡ (open_store fs w).1.file
      → (open_store fs v).1.file ≡ v.file
  open_store-again w v h same =
      let (rows, e) = (open_store-IsEnsuring HasRecords fs migrate-HasRecords).at_success w tt h in
      let recorded = open_store-recorded w h in
      (open_store-IsKeeping _ fs (migrate-same rows _ e recorded)).keeps v same ∙ sym same
