-- ===== src/Store/Readings.antt =====
-- internal/store/store.go: the table `readings`.
use argos_fx.Prelude.{
  ℕ, ◌+◌, Bool, true, false, ◌&&◌, List, [], ◌∷◌, ◌++◌, map, Option, none, some, length, keep, any,
  leb, ltb, ◌==◌, if◌then◌else◌, not,
}
use argos_fx.Text.{Text, text_discrete, is_empty, to_upper}
use argos_fx.Clock.{Time, rfc3339, parse_rfc3339}
use argos_fx.Error.{constraint, Outcome, ok, err}
use argos_fx.Store.Tables.{Db, Reading, ReadingRow}
use argos_fx.Store.Monad.{M, ◌>>=◌, return, query, arrange}

abbrev pub text_eq : Text → Text → Bool
text_eq s t = elim (text_discrete s t) [ yes _ ↦ true | no _ ↦ false ]

-- `nullableStr`, and the reading of a nullable column.
unfoldable pub nullable_str : Text → Option Text
nullable_str s = if is_empty s then none else some s

abbrev null_string : Option Text → Text
null_string none = []
null_string (some s) = s

module _ {F : Type 0} where
  -- The row that the INSERT of `InsertReading` makes.
  unfoldable pub reading_row : ℕ → Reading F → ReadingRow F
  reading_row id r = record {
    id = id;
    provider_id = r.provider_id;
    base = r.base;
    quote = r.quote;
    rate = r.rate;
    fetched_at = rfc3339 r.fetched_at;
    provider_ts = nullable_str r.provider_ts;
  }

  -- `provider_id` REFERENCES `providers(id)`, with `foreign_keys(1)`, and `rate` NOT NULL, where the
  -- first argument is whether the rate is stored as NULL.
  unfoldable pub insert_reading_sql : Bool → Reading F → Db F → Outcome (Unit {0}) × Db F
  unfolding reading_row
  insert_reading_sql null r db =
      if not null && any (λ p. p.id == r.provider_id) db.providers
      then (
        ok tt,
        record db {
          readings = db.readings ++ (reading_row db.next_reading r ∷ []);
          next_reading = db.next_reading + 1;
          last_rowid = db.next_reading;
        },
      )
      else (err constraint, db)

  -- How the driver binds the rate.
  unfoldable pub bind_rate : F → M F Bool
  bind_rate rate w = (ok (w.is_null rate), w)

  unfoldable pub insert_reading : Reading F → M F (Unit {0})
  unfolding bind_rate insert_reading_sql
  insert_reading r = do null ← bind_rate r.rate; query (insert_reading_sql null r)

  -- `rows.Scan` into a `Reading`.
  unfoldable pub scan_reading : ReadingRow F → Reading F
  scan_reading r = record {
    id = r.id;
    provider_id = r.provider_id;
    base = r.base;
    quote = r.quote;
    rate = r.rate;
    fetched_at = parse_rfc3339 r.fetched_at;
    provider_ts = null_string r.provider_ts;
  }

  -- WHERE quote = ? AND fetched_at >= ? GROUP BY provider_id: the group of one provider.
  unfoldable pub in_group : ℕ → Text → ℕ → ReadingRow F → Bool
  in_group provider quote since r =
      r.provider_id == provider && text_eq r.quote quote && leb since r.fetched_at

  -- MAX(fetched_at), NULL for no row.
  unfoldable pub max_fetched : List (ReadingRow F) → Option ℕ
  max_fetched [] = none
  max_fetched (r ∷ rs) = elim (max_fetched rs) [
    | none ↦ some r.fetched_at
    | some m ↦ some (if ltb m r.fetched_at then r.fetched_at else m)
  ]

  -- The join: a row of the quote whose time is that of its provider's group.
  unfoldable pub is_latest : List (ReadingRow F) → Text → ℕ → ReadingRow F → Bool
  unfolding in_group max_fetched
  is_latest rows quote since r =
      text_eq r.quote quote
      && (elim (max_fetched (keep (in_group r.provider_id quote since) rows)) [
        | none ↦ false
        | some m ↦ r.fetched_at == m
      ])

  unfoldable pub latest_rows : List (ReadingRow F) → Text → ℕ → List (ReadingRow F)
  unfolding is_latest
  latest_rows rows quote since = keep (is_latest rows quote since) rows

  -- The readings, and the providers that they come from. The rows come in no certain order.
  unfoldable pub latest_readings_per_provider : Text → Time → M F (List (Reading F) × List ℕ)
  unfolding latest_rows
  latest_readings_per_provider quote since = do
    rows ← query λ db. (ok (latest_rows db.readings (to_upper quote) (rfc3339 since)), db)
    arranged ← arrange rows
    return (map scan_reading arranged, map (λ r. r.provider_id) arranged)

  -- SELECT MAX(fetched_at) FROM readings.
  unfoldable pub latest_reading_at : M F (Time × Bool)
  unfolding max_fetched
  latest_reading_at = query λ db. (
    elim (max_fetched db.readings) [ none ↦ ok (0, false) | some s ↦ ok (parse_rfc3339 s, true) ],
    db,
  )

  -- DELETE FROM readings WHERE fetched_at < ?, and the number of rows affected.
  unfoldable pub prune_older_than_sql : Time → Db F → Outcome ℕ × Db F
  prune_older_than_sql cutoff db =
      let old = λ (r : ReadingRow F). ltb r.fetched_at (rfc3339 cutoff) in
      (
        ok (length (keep old db.readings)),
        record db { readings = keep (λ r. not (old r)) db.readings },
      )

  unfoldable pub prune_older_than : Time → M F ℕ
  unfolding prune_older_than_sql
  prune_older_than cutoff = query (prune_older_than_sql cutoff)
