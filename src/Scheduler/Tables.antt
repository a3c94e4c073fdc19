-- ===== src/Scheduler/Tables.antt =====
-- Polls keep the tables sound, whatever fails on the way.
use argos_fx.Prelude.{ℕ, refl, List, [], ◌∷◌}
use argos_fx.Clock.{day_of}
use argos_fx.Error.{Outcome, ok, err}
use argos_fx.Store.{
  World, return, fail, attempt, now, insert_reading, bind_rate, increment_usage, usage_today,
}
use argos_fx.Store.Sound.{Reach, insert, increment, IsSound, Reach-IsSound}
use argos_fx.Store.Writing.{
  IsWriting, IsWriting-same, IsWriting-query, IsWriting-map_outcome, IsWriting-if, IsWriting-bind,
}
use argos_fx.Provider
use argos_fx.Scheduler.Run.{
  ProviderJob, budget_allowed, run_once, fetch_and_store, after_fetch, store_fetched, insert_all,
  fetch_readings, record_success, record_error, reading_of,
}

module _ {F : Type 0} where
  IsWriting-insert_all : (p : ℕ) (rs : List (Provider.Reading F)) → IsWriting (insert_all p rs)
  unfolding insert_all return insert_reading bind_rate
  IsWriting-insert_all p [] = IsWriting-same _ (λ w. refl)
  IsWriting-insert_all p (r ∷ rs) =
      IsWriting-bind _ _
        (IsWriting-map_outcome _ _ (
          IsWriting-bind _ _ (IsWriting-same _ (λ w. refl))
            λ null. IsWriting-query _ λ db. insert null (reading_of p r)))
        (λ _. IsWriting-insert_all p rs)

  IsWriting-store_fetched :
      (j : ProviderJob F) (rs : List (Provider.Reading F)) → IsWriting (store_fetched j rs)
  unfolding store_fetched now record_success increment_usage
  IsWriting-store_fetched j rs = IsWriting-bind _ _ (IsWriting-insert_all j.provider_id rs) λ _.
      IsWriting-bind _ _ (IsWriting-same _ (λ w. refl)) λ t.
        IsWriting-bind _ _
          (IsWriting-map_outcome _ _ (IsWriting-query _ λ db. increment j.provider_id (day_of t)))
          (λ _. IsWriting-same (record_success j.provider.name) (λ w. refl))

  IsWriting-after_fetch :
      (j : ProviderJob F) (r : Outcome (List (Provider.Reading F))) → IsWriting (after_fetch j r)
  unfolding after_fetch record_error fail
  IsWriting-after_fetch j (ok rs) = IsWriting-store_fetched j rs
  IsWriting-after_fetch j (err x) =
      IsWriting-bind _ _ (IsWriting-same _ (λ w. refl)) (λ _. IsWriting-same _ (λ w. refl))

  IsWriting-fetch_and_store : (j : ProviderJob F) → IsWriting (fetch_and_store j)
  unfolding fetch_and_store attempt fetch_readings
  IsWriting-fetch_and_store j =
      IsWriting-bind _ _ (IsWriting-same _ (λ w. refl)) (IsWriting-after_fetch j)

  pub IsWriting-run_once : (j : ProviderJob F) → IsWriting (run_once j)
  unfolding run_once now usage_today return
  IsWriting-run_once j = IsWriting-bind _ _ (IsWriting-same _ (λ w. refl)) λ t.
      IsWriting-bind _ _ (IsWriting-map_outcome _ _ (IsWriting-query _ λ db r. r)) (λ used.
        IsWriting-if (budget_allowed used j.calls_per_day) (fetch_and_store j) (return tt)
          (IsWriting-fetch_and_store j) (IsWriting-same _ (λ w. refl)))

  -- After a poll of tables that the program has written, whatever the API and the database do, the
  -- tables are sound: ids increase, names are distinct, and every reading is of a provider in the
  -- table.
  pub run_once-IsSound :
      (j : ProviderJob F) (w : World F) → Reach w.db → IsSound (run_once j w).1.db
  run_once-IsSound j w r = Reach-IsSound _ ((IsWriting-run_once j).reaches w r)
