-- ===== src/Adapters/Latest.antt =====
-- internal/provider/adapters/frankfurter.go and moneyconvert.go: the providers that answer all
-- currencies at once.
use argos_fx.Prelude.{ℕ, Bool, List, [], ◌∷◌, ◌++◌, none, some, if◌then◌else◌}
use argos_fx.Text.{Text, codes, text_discrete, to_upper, is_empty}
use argos_fx.Clock.{Time}
use argos_fx.Assoc.{get}
use argos_fx.Error.{Outcome, ok}
use argos_fx.Store.{text_eq}
use argos_fx.Provider.{Reading}
use argos_fx.Adapters.Network.{Net, ◌>>=◌, require, exchange, trim_slashes}

pub record Frankfurter : Type 0 where
  pub base_url : Text

pub record MoneyConvert : Type 0 where
  pub base_url : Text
  pub api_key : Text

abbrev pub or_text : Text → Text → Text
or_text s fallback = if is_empty s then fallback else s

unfoldable pub new_frankfurter : Text → Frankfurter
unfolding trim_slashes
new_frankfurter base_url = record {
  base_url = trim_slashes (or_text base_url (codes "https://api.frankfurter.app"));
}

unfoldable pub new_money_convert : Text → Text → MoneyConvert
unfolding trim_slashes
new_money_convert base_url api_key = record {
  base_url = trim_slashes (or_text base_url (codes "https://cdn.moneyconvert.net"));
  api_key = api_key;
}

-- `strings.Join(quotes, ",")`.
unfoldable pub join_commas : List Text → Text
join_commas [] = []
join_commas (q ∷ []) = q
join_commas (q ∷ r ∷ rest) = q ++ (codes "," ++ join_commas (r ∷ rest))

-- `strings.EqualFold`, on the letters of ASCII.
unfoldable pub equal_fold : Text → Text → Bool
unfolding to_upper
equal_fold s t = text_eq (to_upper s) (to_upper t)

module _ {F : Type 0} where
  -- The loop over the quotes: a quote without a rate is passed over.
  unfoldable pub latest_readings :
      Text → Text → Time → List (Text × F) → List Text → List (Reading F)
  unfolding get
  latest_readings base date t rates [] = []
  latest_readings base date t rates (q ∷ qs) =
      let rest = latest_readings base date t rates qs in
      elim (get text_discrete (to_upper q) rates) [
        | none ↦ rest
        | some rate ↦
            record {
              base = to_upper base;
              quote = to_upper q;
              rate = rate;
              fetched_at = t;
              provider_ts = date;
            }
            ∷ rest
      ]

module _ {F : Type 0} (net : Net F) where
  unfoldable pub frankfurter_fetch : Frankfurter → ℕ → Text → List Text → Outcome (List (Reading F))
  unfolding exchange equal_fold latest_readings
  frankfurter_fetch f n base [] = ok []
  frankfurter_fetch f n base (q ∷ qs) = do
    let from = or_text base (codes "USD")
    let url =
        f.base_url ++ (codes "/latest?from=" ++ (from ++ (codes "&to=" ++ join_commas (q ∷ qs))))
    out ←
        exchange net net.decode_latest "frankfurter fetch" "frankfurter status %d: %s"
          "frankfurter decode" n 0 (record { url = url; user_agent = none })
    _ ← require (equal_fold out.base from) "frankfurter base mismatch: want %s got %s"
    ok (latest_readings out.base out.date (net.clock n) out.rates (q ∷ qs))

  unfoldable pub money_convert_fetch :
      MoneyConvert → ℕ → Text → List Text → Outcome (List (Reading F))
  unfolding exchange equal_fold latest_readings
  money_convert_fetch m n base [] = ok []
  money_convert_fetch m n base (q ∷ qs) = do
    let from = or_text base (codes "USD")
    let url = m.base_url ++ codes "/api/latest.json"
    let keyed = if is_empty m.api_key then url else net.with_key m.api_key url
    out ←
        exchange net net.decode_latest "moneyconvert fetch" "moneyconvert status %d: %s"
          "moneyconvert decode" n 0 (record { url = keyed; user_agent = none })
    _ ← require (equal_fold out.base from) "moneyconvert base mismatch: want %s got %s"
    ok (latest_readings out.base [] (net.clock n) out.rates (q ∷ qs))
