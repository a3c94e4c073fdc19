-- ===== src/Store/Migrate/Made.antt =====
-- internal/store/migrations/0001_init.sql: what its statements make of a database file, up to the
-- one that fails.
use argos_fx.Prelude.{
  ◌≡◌, refl, Bool, true, false, inl, inr, List, Option, Option-cases, none, some, All,
}
use argos_fx.Text.{Text, codes}
use argos_fx.Store.Tables.{Db, ReadingRow}
use argos_fx.Store.Schema.{
  File, on_readings, create_table, create_providers, create_readings, index_lookup, index_provider,
  create_usage, init_sql, is_applied, db_of, rows_of, tables_of,
}
use argos_fx.Store.Migrate.Keeping.{IsKept}

abbrev pub is_some : {A : Type 0} → Option A → Bool
is_some none = false
is_some (some x) = true

rows_of-create_table : {A : Type 0} (o : Option (List A)) → rows_of (create_table o) ≡ rows_of o
unfolding create_table
rows_of-create_table none = refl
rows_of-create_table (some rows) = refl

pub is_some-create_table : {A : Type 0} (o : Option (List A)) → is_some (create_table o) ≡ true
unfolding create_table
is_some-create_table none = refl
is_some-create_table (some rows) = refl

abbrev pub init_name : Text
init_name = codes "0001_init.sql"

module _ {F : Type 0} where
  -- Every table and every index of 0001_init.sql is there.
  pub record IsWhole (f : File F) : Type 0 where
    pub has_providers : is_some f.providers ≡ true
    pub has_readings : is_some f.readings ≡ true
    pub has_lookup : f.ix_readings_lookup ≡ true
    pub has_provider : f.ix_readings_provider ≡ true
    pub has_usage : is_some f.usage ≡ true

  -- The file holds these rows, and is whole if the migration is recorded.
  pub record IsConsistent (t : Db F) (f : File F) : Type 0 where
    pub same : tables_of f ≡ t
    pub whole : is_applied init_name f ≡ true → IsWhole f

  pub db_of-IsWhole : (f : File F) → IsWhole f → db_of f ≡ some (tables_of f)
  unfolding db_of
  db_of-IsWhole f h = elim (Option-cases f.providers) [
    | inl e ↦ absurd cc (rw e at h.has_providers)
    | inr (ps, e) ↦ elim (Option-cases f.readings) [
      | inl k ↦ absurd cc (rw k at h.has_readings)
      | inr (rs, k) ↦ elim (Option-cases f.usage) [
        | inl l ↦ absurd cc (rw l at h.has_usage)
        | inr (us, l) ↦ rw (e, k, l) refl
      ]
    ]
  ]

  pub on_readings-kept :
      (Q : File F → Type 0) (o : Option (List (ReadingRow F))) (f g : File F)
      → Q f
      → Q g
      → Q (on_readings o f g).1
  on_readings-kept Q none f g p q = p
  on_readings-kept Q (some rows) f g p q = q

  module _ (t : Db F) where
    create_providers-IsConsistent : IsKept (IsConsistent t) create_providers
    unfolding create_providers is_applied
    create_providers-IsConsistent f c = record {
      same = rw (rows_of-create_table f.providers) c.same;
      whole = λ h.
          let all = c.whole h in
          record {
            has_providers = is_some-create_table f.providers;
            has_readings = all.has_readings;
            has_lookup = all.has_lookup;
            has_provider = all.has_provider;
            has_usage = all.has_usage;
          };
    }

    create_readings-IsConsistent : IsKept (IsConsistent t) create_readings
    unfolding create_readings is_applied
    create_readings-IsConsistent f c = record {
      same = rw (rows_of-create_table f.readings) c.same;
      whole = λ h.
          let all = c.whole h in
          record {
            has_providers = all.has_providers;
            has_readings = is_some-create_table f.readings;
            has_lookup = all.has_lookup;
            has_provider = all.has_provider;
            has_usage = all.has_usage;
          };
    }

    create_usage-IsConsistent : IsKept (IsConsistent t) create_usage
    unfolding create_usage is_applied
    create_usage-IsConsistent f c = record {
      same = rw (rows_of-create_table f.usage) c.same;
      whole = λ h.
          let all = c.whole h in
          record {
            has_providers = all.has_providers;
            has_readings = all.has_readings;
            has_lookup = all.has_lookup;
            has_provider = all.has_provider;
            has_usage = is_some-create_table f.usage;
          };
    }

    index_lookup-IsConsistent : IsKept (IsConsistent t) index_lookup
    unfolding index_lookup is_applied
    index_lookup-IsConsistent f c =
        on_readings-kept (IsConsistent t) f.readings f (record f { ix_readings_lookup = true }) c
          (record {
            same = c.same;
            whole = λ h.
                let all = c.whole h in
                record {
                  has_providers = all.has_providers;
                  has_readings = all.has_readings;
                  has_lookup = refl;
                  has_provider = all.has_provider;
                  has_usage = all.has_usage;
                };
          })

    index_provider-IsConsistent : IsKept (IsConsistent t) index_provider
    unfolding index_provider is_applied
    index_provider-IsConsistent f c =
        on_readings-kept (IsConsistent t) f.readings f (record f { ix_readings_provider = true }) c
          (record {
            same = c.same;
            whole = λ h.
                let all = c.whole h in
                record {
                  has_providers = all.has_providers;
                  has_readings = all.has_readings;
                  has_lookup = all.has_lookup;
                  has_provider = refl;
                  has_usage = all.has_usage;
                };
          })

    pub init_sql-IsConsistent : All (IsKept (IsConsistent t)) init_sql
    init_sql-IsConsistent = (
      create_providers-IsConsistent,
      (
        create_readings-IsConsistent,
        (index_lookup-IsConsistent, (index_provider-IsConsistent, (create_usage-IsConsistent, tt))),
      ),
    )
