-- ===== src/Tests/Tables.antt =====
-- Statements on the tables of the sample world.
use argos_fx.Prelude.{false, ℕ, ◌≡◌, ◌≢◌, ◌≤◌, ◌<◌, refl, true, [], none, some, All, arith}
use argos_fx.Prelude.Int.{pos}
use argos_fx.Text.{codes, text_discrete}
use argos_fx.Error.{ok}
use argos_fx.Float.Fixed.{Fixed, micro}
use argos_fx.Store.{
  Db, World, Provider, Reading, latest_rows, text_eq, find_provider, upsert_sql, upsert_provider,
  insert_reading_sql, get_provider_by_name, provider_row,
}
use argos_fx.Store.Latest.{group, of_provider, latest_rows_newest, latest_rows_found}
use argos_fx.Store.Sound.{IsSound, new_db, created, insert, upsert, Reach-IsSound}
use argos_fx.Store.Upsert.Returns.{
  IsStored, upsert_provider-get, upsert_provider-id, upsert_provider-stale,
}
use argos_fx.Aggregator.Types.{usd}
use argos_fx.Tests.Sample.{eur, sample_db, sample_world}

latest_rows_newest_example :
    All
      (λ r.
        (text_eq r.quote eur ≡ true)
        × (400 ≤ r.fetched_at)
        × All (λ s. s.fetched_at ≤ r.fetched_at) (group sample_db.readings eur 400 r.provider_id))
      (latest_rows sample_db.readings eur 400)
latest_rows_newest_example = latest_rows_newest sample_db.readings eur 400

latest_rows_found_example :
    0 < of_provider sample_db.readings eur 400 1 (latest_rows sample_db.readings eur 400)
unfolding latest_rows text_discrete
latest_rows_found_example = latest_rows_found sample_db.readings eur 400 1 (omega arith)

abbrev yahoo : Provider
yahoo = record {
  id = 0;
  name = codes "yahoo";
  kind = codes "yahoo";
  config = none;
  priority = pos 5;
  calls_per_day = some (pos 100);
  schedule_cron = [];
  enabled = true;
  created_at = 0;
  updated_at = 0;
}

abbrev reading : Reading Fixed
reading = record {
  id = 0;
  provider_id = 1;
  base = usd;
  quote = eur;
  rate = micro 920000;
  fetched_at = 5;
  provider_ts = [];
}

abbrev written : Db Fixed
written = (insert_reading_sql false reading (upsert_sql 7 (codes "null") yahoo new_db).1).1

Reach-IsSound_example : IsSound written
Reach-IsSound_example =
    Reach-IsSound written (insert false reading (upsert 7 (codes "null") yahoo (created 0)))

abbrev ecb : Provider
ecb = record yahoo { name = codes "ecb" }

upsert_provider-get_example :
    (q : Provider) × ((get_provider_by_name
        (codes "yahoo")
        (upsert_provider yahoo sample_world).1).0
      ≡ ok q)
    × IsStored sample_world yahoo q
    × (q.id ≡ 3)
unfolding find_provider text_discrete
upsert_provider-get_example = upsert_provider-get yahoo sample_world refl

abbrev shared : World Fixed
shared = record sample_world { db = (upsert_sql 7 (codes "null") yahoo new_db).1 }

upsert_provider-stale_example :
    ((upsert_provider ecb shared).0 ≡ ok 2)
    × ((upsert_provider yahoo (upsert_provider ecb shared).1).0 ≡ ok 2)
    × (◌≢◌ {A = ℕ} 1 2)
unfolding find_provider text_discrete upsert_sql
upsert_provider-stale_example =
    upsert_provider-stale ecb yahoo shared (provider_row 1 7 (codes "null") yahoo) refl
      (Reach-IsSound shared.db (upsert 7 (codes "null") yahoo (created 0))) (omega arith) refl refl

upsert_provider-id_example :
    (q : Provider) × ((get_provider_by_name
        (codes "yahoo")
        (upsert_provider yahoo sample_world).1).0
      ≡ ok q)
    × ((upsert_provider yahoo sample_world).0 ≡ ok q.id)
upsert_provider-id_example = upsert_provider-id yahoo sample_world refl refl (omega arith)
