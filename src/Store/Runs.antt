-- ===== src/Store/Runs.antt =====
-- What the reading statements return in a world where the driver answers.
use argos_fx.Prelude.{◌+◌, ◌≡◌, false, List, map}
use argos_fx.Prelude.Sort.{sort}
use argos_fx.Text.{Text, to_upper}
use argos_fx.Clock.{Time, rfc3339}
use argos_fx.Error.{ok}
use argos_fx.Store.Tables.{ReadingRow}
use argos_fx.Store.Monad.{World, ◌>>=◌, query, arrange}
use argos_fx.Store.Readings.{scan_reading, latest_rows, latest_readings_per_provider}
use argos_fx.Store.Providers.{scan_provider, provider_less, list_providers, scan_providers}

module _ {F : Type 0} (w : World F) where
  -- The world after one query that changes nothing.
  abbrev pub asked : World F
  asked = record w { queries = w.queries + 1 }

  -- The rows that `LatestReadingsPerProvider` finds, and those rows in the order in which they
  -- come.
  abbrev pub fresh_rows : Text → Time → List (ReadingRow F)
  fresh_rows quote since = latest_rows w.db.readings (to_upper quote) (rfc3339 since)

  abbrev pub latest_arranged : Text → Time → List (ReadingRow F)
  latest_arranged quote since = w.arrange (fresh_rows quote since)

module _ {F : Type 0} (w : World F) (answers : w.broken w.queries ≡ false) where
  pub latest_readings_answer :
      (quote : Text) (since : Time)
      → latest_readings_per_provider quote since w ≡ (
        ok (
          map scan_reading (latest_arranged w quote since),
          map (λ r. r.provider_id) (latest_arranged w quote since),
        ),
        asked w,
      )
  unfolding latest_readings_per_provider ◌>>=◌ query arrange
  latest_readings_answer quote since = rw answers

  pub list_providers_answer :
      list_providers w
      ≡ (ok (map (scan_provider w.unmarshal_config) (sort provider_less w.db.providers)), asked w)
  unfolding list_providers scan_providers ◌>>=◌ query
  list_providers_answer = rw answers
