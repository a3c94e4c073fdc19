-- ===== src/Tests/Fetches.antt =====
-- Fetches over a network that always gives the same answer.
use argos_fx.Prelude.{refl, false, true, List, [], ◌∷◌, none, some}
use argos_fx.Prelude.Int.{pos}
use argos_fx.Text.{Text, codes, to_upper, text_discrete}
use argos_fx.Assoc.{get}
use argos_fx.Error.{Outcome, ok, err}
use argos_fx.Float.Fixed.{Fixed, micro, fixed_double}
use argos_fx.Provider
use argos_fx.Config
use argos_fx.Adapters.{
  frankfurter_fetch, ◌>>=◌, Net, answered, Yahoo, new_yahoo, yahoo_fetch, new_from_config,
}
use argos_fx.Adapters.Readings.{IsAnswer, IsWhole, yahoo_fetch-IsWhole, new_from_config-IsAnswer}
use argos_fx.Tests.Sample.{eur, brl, instant}

abbrev pub steady : Net Fixed
steady = record {
  clock = λ _. instant;
  is_url = λ _. true;
  reply = λ n k request. answered 200 [];
  decode_latest =
      λ _. some (record { base = codes "usd"; date = []; rates = (eur, micro 920000) ∷ [] });
  decode_chart = λ _. some (record {
    has_error = false;
    result =
        record {
          regular_market_price = micro 0;
          regular_market_time = pos 5;
          closes = (micro 900000 ∷ micro 910000 ∷ []) ∷ [];
        }
        ∷ [];
  });
  with_key = λ key url. url;
  unix_text = λ _. [];
}

abbrev readings_of : Outcome (List (Provider.Reading Fixed)) → List (Provider.Reading Fixed)
readings_of (ok rs) = rs
readings_of (err e) = []

abbrev yahoo : Yahoo
yahoo = new_yahoo []

abbrev two_quotes : List Text
two_quotes = codes "eur" ∷ brl ∷ []

yahoo_fetch-IsWhole_example :
    IsWhole (codes "USD") two_quotes (readings_of (yahoo_fetch steady yahoo 0 [] two_quotes))
unfolding yahoo_fetch ◌>>=◌
yahoo_fetch-IsWhole_example =
    yahoo_fetch-IsWhole steady 0 [] yahoo two_quotes
      (readings_of (yahoo_fetch steady yahoo 0 [] two_quotes)) refl

abbrev frankfurter_settings : Config.Provider
frankfurter_settings = record {
  name = codes "ecb";
  kind = codes "frankfurter";
  config = none;
  priority = pos 0;
  calls_per_day = none;
  schedule_cron = [];
  enabled = true;
}

abbrev provider_of : Outcome (Provider.Provider Fixed) → Provider.Provider Fixed
provider_of (ok p) = p
provider_of (err e) = record { name = []; kind = []; fetch = λ n base quotes. err e }

abbrev frankfurter : Provider.Provider Fixed
frankfurter = provider_of (new_from_config steady frankfurter_settings)

new_from_config-IsAnswer_example :
    IsAnswer (codes "USD") two_quotes (readings_of (frankfurter.fetch 0 [] two_quotes))
unfolding new_from_config ◌>>=◌ text_discrete get to_upper frankfurter_fetch
new_from_config-IsAnswer_example =
    new_from_config-IsAnswer steady 0 [] frankfurter_settings frankfurter two_quotes
      (readings_of (frankfurter.fetch 0 [] two_quotes)) refl refl
