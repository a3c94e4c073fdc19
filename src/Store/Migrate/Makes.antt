-- ===== src/Store/Migrate/Makes.antt =====
-- internal/store/migrations/0001_init.sql: a script that succeeds makes every table and index.
use argos_fx.Prelude.{◌≡◌, refl, Bool, true, List, ◌∷◌, Option, none, some, All}
use argos_fx.Error.{Outcome, ok}
use argos_fx.Store.Tables.{ReadingRow}
use argos_fx.Store.Schema.{
  File, on_readings, create_providers, create_readings, index_lookup, index_provider, create_usage,
  init_sql,
}
use argos_fx.Store.Migrate.{Script, run_script}
use argos_fx.Store.Migrate.Keeping.{IsKept, IsKeeping-run_script}
use argos_fx.Store.Migrate.Ensuring.{
  IsEnsuring, IsEnsuring-first, IsEnsuring-bind, IsEnsuring-execute,
}
use argos_fx.Store.Migrate.Made.{is_some, is_some-create_table, on_readings-kept, IsWhole}

module _ {F : Type 0} where
  -- What one statement makes stays there when the others run.
  module _ (p : File F → Bool) where
    abbrev IsTrue : File F → Type 0
    IsTrue f = p f ≡ true

    lookup_stays :
        ((f : File F) → IsTrue f → IsTrue (record f { ix_readings_lookup = true }))
        → IsKept IsTrue index_lookup
    unfolding index_lookup
    lookup_stays p f h =
        on_readings-kept IsTrue f.readings f (record f { ix_readings_lookup = true }) h (p f h)

    provider_stays :
        ((f : File F) → IsTrue f → IsTrue (record f { ix_readings_provider = true }))
        → IsKept IsTrue index_provider
    unfolding index_provider
    provider_stays p f h =
        on_readings-kept IsTrue f.readings f (record f { ix_readings_provider = true }) h (p f h)

    makes_first :
        (s : File F → Outcome (Unit {0}) × File F) (ss : Script F)
        → ((f : File F) (a : Unit {0}) → (s f).0 ≡ ok a → IsTrue (s f).1)
        → All (IsKept IsTrue) ss
        → IsEnsuring IsTrue (run_script (s ∷ ss))
    unfolding run_script
    makes_first s ss h hs =
        IsEnsuring-first _ _ _ (IsEnsuring-execute _ s h) λ _. IsKeeping-run_script _ ss hs

    makes_later :
        (s : File F → Outcome (Unit {0}) × File F) (ss : Script F)
        → IsEnsuring IsTrue (run_script ss)
        → IsEnsuring IsTrue (run_script (s ∷ ss))
    unfolding run_script
    makes_later s ss h = IsEnsuring-bind _ _ _ λ _. h

  on_readings-made :
      (p : File F → Bool) (o : Option (List (ReadingRow F))) (f g : File F) (a : Unit {0})
      → p g ≡ true
      → (on_readings o f g).0 ≡ ok a
      → p (on_readings o f g).1 ≡ true
  on_readings-made p none f g a q h = absurd cc h
  on_readings-made p (some rows) f g a q h = q

  makes_providers : IsEnsuring (IsTrue λ f. is_some f.providers) (run_script init_sql)
  unfolding create_providers create_readings create_usage
  makes_providers =
      makes_first _ _ _ (λ f a k. is_some-create_table f.providers)
        ((λ f h. h), (lookup_stays _ (λ f h. h), (provider_stays _ (λ f h. h), ((λ f h. h), tt))))

  makes_readings : IsEnsuring (IsTrue λ f. is_some f.readings) (run_script init_sql)
  unfolding create_readings create_usage
  makes_readings = makes_later _ _ _ (
      makes_first _ _ _ (λ f a k. is_some-create_table f.readings)
        (lookup_stays _ (λ f h. h), (provider_stays _ (λ f h. h), ((λ f h. h), tt))))

  makes_lookup : IsEnsuring (IsTrue λ f. f.ix_readings_lookup) (run_script init_sql)
  unfolding index_lookup create_usage
  makes_lookup = makes_later _ _ _ (
      makes_later _ _ _ (
        makes_first _ _ _
          (λ f a k.
            on_readings-made (λ f. f.ix_readings_lookup) f.readings f
              (record f { ix_readings_lookup = true }) a refl k)
          (provider_stays _ (λ f h. h), ((λ f h. h), tt))))

  makes_provider : IsEnsuring (IsTrue λ f. f.ix_readings_provider) (run_script init_sql)
  unfolding index_provider create_usage
  makes_provider = makes_later _ _ _ (
      makes_later _ _ _ (
        makes_later _ _ _ (
          makes_first _ _ _
            (λ f a k.
              on_readings-made (λ f. f.ix_readings_provider) f.readings f
                (record f { ix_readings_provider = true }) a refl k)
            ((λ f h. h), tt))))

  makes_usage : IsEnsuring (IsTrue λ f. is_some f.usage) (run_script init_sql)
  unfolding create_usage
  makes_usage = makes_later _ _ _ (
      makes_later _ _ _ (
        makes_later _ _ _
          (makes_later _ _ _ (makes_first _ _ _ (λ f a k. is_some-create_table f.usage) tt))))

  -- The script only succeeds with every table and index made.
  pub init_sql-IsWhole : IsEnsuring (IsWhole {F = F}) (run_script init_sql)
  init_sql-IsWhole = record {
    at_success = λ w a h. record {
      has_providers = makes_providers.at_success w a h;
      has_readings = makes_readings.at_success w a h;
      has_lookup = makes_lookup.at_success w a h;
      has_provider = makes_provider.at_success w a h;
      has_usage = makes_usage.at_success w a h;
    };
  }
