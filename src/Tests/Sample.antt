-- ===== src/Tests/Sample.antt =====
-- A world with three providers: rates of the euro that nearly agree, but for one, and one rate of
-- the real, seen at one instant.
use argos_fx.Prelude.{ℕ, ◌*◌, ◌^◌, false, [], ◌∷◌, Option, none, some}
use argos_fx.Prelude.Int.{pos}
use argos_fx.Text.{Text, codes}
use argos_fx.Float.Fixed.{Fixed, micro}
use argos_fx.Metrics.{new_metrics}
use argos_fx.Store.{ProviderRow, ReadingRow, Db, World, Settings}
use argos_fx.Aggregator.Types.{Config, usd}

abbrev pub eur : Text
eur = codes "EUR"

abbrev pub brl : Text
brl = codes "BRL"

abbrev pub provider_row_of : ℕ → Text → ProviderRow
provider_row_of id name = record {
  id = id;
  name = name;
  kind = name;
  config_json = codes "null";
  priority = pos id;
  calls_per_day = some (pos 2);
  schedule_cron = [];
  enabled = 1;
  created_at = 0;
  updated_at = 0;
}

abbrev pub row : ℕ → ℕ → Text → ℕ → ℕ → ReadingRow Fixed
row id provider quote rate seconds = record {
  id = id;
  provider_id = provider;
  base = usd;
  quote = quote;
  rate = micro rate;
  fetched_at = seconds;
  provider_ts = none;
}

abbrev pub sample_db : Db Fixed
sample_db = record {
  providers =
      provider_row_of 1 (codes "frankfurter")
      ∷ provider_row_of 2 (codes "moneyconvert")
      ∷ provider_row_of 3 (codes "yahoo")
      ∷ [];
  readings =
      row 1 1 eur 915000 500
      ∷ row 2 1 eur 920000 900
      ∷ row 3 2 eur 930000 900
      ∷ row 4 3 eur 2500000 950
      ∷ row 5 3 brl 5400000 950
      ∷ [];
  usage = [];
  next_provider = 4;
  next_reading = 6;
  last_rowid = 0;
}

abbrev pub instant : ℕ
instant = 1000 * 10 ^ 9

-- Settings that are not nil cannot be encoded here.
abbrev pub settings_text : Settings → Option Text
settings_text none = some (codes "null")
settings_text (some _) = none

abbrev pub sample_world : World Fixed
sample_world = record {
  db = sample_db;
  clock = λ _. instant;
  ticks = 0;
  broken = λ _. false;
  queries = 0;
  arrange = λ rows. rows;
  fetches = 0;
  is_null = λ rate. false;
  marshal_config = settings_text;
  unmarshal_config = λ json. none;
  metrics = some new_metrics;
}

abbrev pub sample_config : Config Fixed
sample_config = record {
  outlier_tolerance_pct = micro 2_000_000;
  min_providers = pos 1;
  max_age_seconds = pos 400;
  base = usd;
}
