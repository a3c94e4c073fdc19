-- ===== src/Scheduler/Outcomes.antt =====
-- What one poll does on each of its paths.
use argos_fx.Prelude.{
  All, ℕ, suc, ◌+◌, ◌≡◌, ◌≤◌, refl, true, false, List, [], ◌∷◌, ◌++◌, arith, if◌then◌else◌, any,
  ◌==◌, length,
}
use mathlib.Core.List.{append-nil, append_assoc}
use argos_fx.Prelude.Int.{pos}
use argos_fx.Text.{codes}
use argos_fx.Clock.{day_of}
use argos_fx.Error.{Error, wrap, ok, err}
use argos_fx.Store.{
  Db, ReadingRow, World, ◌>>=◌, return, map_outcome, now, query, insert_reading, insert_reading_sql,
  bind_rate, reading_row, increment_usage, increment_sql, usage_today, usage_count, bump_usage,
}
use argos_fx.Store.ReadOnly.{SameData}
use argos_fx.Provider
use argos_fx.Scheduler.Run.{
  ProviderJob, budget_allowed, run_once, fetch_and_store, after_fetch, store_fetched, insert_all,
  fetch_readings, record_success, record_error, record_two, reading_of,
}

module _ {F : Type 0} (j : ProviderJob F) (w : World F) (answers : w.broken w.queries ≡ false) where
  -- The calls of the day so far, on the day that the clock shows.
  abbrev pub used : ℕ
  used = usage_count j.provider_id (day_of (w.clock w.ticks)) w.db.usage

  -- The world when the budget has been read.
  abbrev pub checked : World F
  checked = record w { ticks = w.ticks + 1; queries = w.queries + 1 }

  run_once-checked :
      run_once j w
      ≡ (if budget_allowed used j.calls_per_day then fetch_and_store j else return tt) checked
  unfolding run_once ◌>>=◌ now usage_today query
  run_once-checked = rw answers

  run_once-skipped : budget_allowed used j.calls_per_day ≡ false → run_once j w ≡ (ok tt, checked)
  unfolding return
  run_once-skipped over = rw (run_once-checked, over, if◌then◌else◌)

  run_once-fetched :
      budget_allowed used j.calls_per_day ≡ true → run_once j w ≡ fetch_and_store j checked
  run_once-fetched under = rw (run_once-checked, under, if◌then◌else◌)

  -- When the driver answers the query for the calls of the day, and they have reached the limit,
  -- a poll ends without an error, calls no provider, counts nothing and leaves the tables as they
  -- are.
  pub run_once-exhausted :
      (n : ℕ)
      → j.calls_per_day ≡ pos (n + 1)
      → n + 1 ≤ used
      → ((run_once j w).0 ≡ ok tt) × SameData w (run_once j w).1
  unfolding budget_allowed
  run_once-exhausted n limit reached =
      let skip : run_once j w ≡ (ok tt, checked) = run_once-skipped (ground arith) in
      rw skip (
        refl,
        record { same_db = refl; same_clock = refl; same_fetches = refl; same_metrics = refl },
      )

  -- When the budget allows a poll and the provider's API fails, the poll fails with the API's error
  -- in its context, after one call of the API: the tables are as they were, the call is not counted
  -- in the usage of the day, and the two error counters go up.
  pub run_once-upstream_error :
      (e : Error)
      → budget_allowed used j.calls_per_day ≡ true
      → j.provider.fetch w.fetches j.base j.currency_codes ≡ err e
      → ((run_once j w).0 ≡ err (wrap "fetch" e))
        × ((run_once j w).1.db ≡ w.db)
        × ((run_once j w).1.fetches ≡ w.fetches + 1)
        × ((run_once j w).1.metrics
            ≡ record_two (codes "argosfx_fetch_errors_total") j.provider.name w.metrics)
  unfolding fetch_and_store fetch_readings record_error ◌>>=◌
  run_once-upstream_error e under failed =
      let fetched : run_once j w ≡ fetch_and_store j checked = run_once-fetched under in
      rw (fetched, fetch_and_store, failed) (refl, refl, refl, refl)

add_zero : (n : ℕ) → n + 0 ≡ n
add_zero n = omega arith

add_suc : (m n : ℕ) → n + 1 + m ≡ n + suc m
add_suc m n = omega arith

module _ {F : Type 0} where
  -- The rows of the readings, numbered.
  abbrev pub rows_from : ℕ → ℕ → List (Provider.Reading F) → List (ReadingRow F)
  rows_from next provider [] = []
  rows_from next provider (r ∷ rs) =
      reading_row next (reading_of provider r) ∷ rows_from (next + 1) provider rs

  abbrev last_of : ℕ → ℕ → List (Provider.Reading F) → ℕ
  last_of last next [] = last
  last_of last next (r ∷ rs) = last_of next (next + 1) rs

  -- The tables after the loop.
  abbrev with_readings : ℕ → List (Provider.Reading F) → Db F → Db F
  with_readings provider rs db = record db {
    readings = db.readings ++ rows_from db.next_reading provider rs;
    next_reading = db.next_reading + length rs;
    last_rowid = last_of db.last_rowid db.next_reading rs;
  }

  -- The world after the first insertion.
  abbrev inserted : ℕ → Provider.Reading F → World F → World F
  inserted provider r w = record w {
    db = record w.db {
      readings = w.db.readings ++ (reading_row w.db.next_reading (reading_of provider r) ∷ []);
      next_reading = w.db.next_reading + 1;
      last_rowid = w.db.next_reading;
    };
    queries = w.queries + 1;
  }

  -- The driver stores the rate of each reading as a number.
  abbrev pub AreNumbers : World F → List (Provider.Reading F) → Type 0
  AreNumbers w rs = All (λ (r : Provider.Reading F). w.is_null r.rate ≡ false) rs

  insert_all_lem :
      (provider : ℕ) (rs : List (Provider.Reading F)) (w : World F)
      → ((n : ℕ) → w.broken n ≡ false)
      → AreNumbers w rs
      → any (λ p. p.id == provider) w.db.providers ≡ true
      → insert_all provider rs w
        ≡ (ok tt, record w { db = with_readings provider rs w.db; queries = w.queries + length rs })
  unfolding insert_all ◌>>=◌ insert_reading bind_rate query reading_of
  insert_all_lem provider [] w answers numbers known =
      rw (append-nil, add_zero w.db.next_reading, add_zero w.queries)
  insert_all_lem provider (r ∷ rs) w answers (number, numbers) known = rw (
    map_outcome,
    answers w.queries,
    insert_reading_sql,
    number,
    known,
    if◌then◌else◌,
    insert_all_lem provider rs (inserted provider r w) answers numbers known,
    append_assoc,
    add_suc (length rs) w.db.next_reading,
    add_suc (length rs) w.queries,
  )

module _ {F : Type 0} (j : ProviderJob F) (w : World F)
    (answers : (n : ℕ) → w.broken n ≡ false) where
  -- When the driver answers, the provider is known, the budget allows a poll and the provider's
  -- API returns readings, none with a rate that is stored as NULL, the poll succeeds after one
  -- call of the API: every reading is added behind the old ones, in order and with the next
  -- numbers, one call is counted on the day that the clock shows then, and the two success
  -- counters go up.
  pub run_once-stored :
      (rs : List (Provider.Reading F))
      → AreNumbers w rs
      → any (λ p. p.id == j.provider_id) w.db.providers ≡ true
      → budget_allowed (used j w (answers w.queries)) j.calls_per_day ≡ true
      → j.provider.fetch w.fetches j.base j.currency_codes ≡ ok rs
      → ((run_once j w).0 ≡ ok tt)
        × ((run_once j w).1.db.readings
            ≡ w.db.readings ++ rows_from w.db.next_reading j.provider_id rs)
        × ((run_once j w).1.db.usage
            ≡ bump_usage j.provider_id (day_of (w.clock (w.ticks + 1))) w.db.usage)
        × ((run_once j w).1.fetches ≡ w.fetches + 1)
        × ((run_once j w).1.metrics
            ≡ record_two (codes "argosfx_fetch_total") j.provider.name w.metrics)
  unfolding fetch_and_store fetch_readings store_fetched record_success increment_usage
      increment_sql now query ◌>>=◌
  run_once-stored rs numbers known under fetched =
      let go : run_once j w ≡ fetch_and_store j (checked j w (answers w.queries)) =
        run_once-fetched j w (answers w.queries) under in
      let called : World F = record (checked j w (answers w.queries)) { fetches = w.fetches + 1 } in
      rw
        (
          go,
          fetch_and_store,
          fetched,
          after_fetch,
          insert_all_lem j.provider_id rs called answers numbers known,
          answers (w.queries + 1 + length rs),
          if◌then◌else◌,
        )
        (refl, refl, refl, refl, refl)
