-- ===== src/Adapters/Chart.antt =====
-- internal/provider/adapters/yahoo.go: the provider that is asked for one pair at a time.
use argos_fx.Prelude.{ℕ, ◌+◌, not, List, [], ◌∷◌, ◌++◌, some, if◌then◌else◌}
use argos_fx.Prelude.Int.{ℤ, pos, ltb_ℤ}
use argos_fx.Text.{Text, codes, to_upper}
use argos_fx.Error.{message, Outcome, ok, err}
use argos_fx.Float.{Double}
use argos_fx.Provider.{Reading}
use argos_fx.Adapters.Network.{Net, ChartResult, ◌>>=◌, require, exchange, trim_slashes}
use argos_fx.Adapters.Latest.{or_text}

pub record Yahoo : Type 0 where
  pub base_url : Text
  pub user_agent : Text

unfoldable pub new_yahoo : Text → Yahoo
unfolding trim_slashes
new_yahoo base_url = record {
  base_url = trim_slashes (or_text base_url (codes "https://query2.finance.yahoo.com"));
  user_agent = codes "Mozilla/5.0 (compatible; ArgosFX/1.0)";
}

module _ {F : Type 0} where
  -- `closes[len(closes)-1]`, or the other rate if there is none.
  unfoldable pub last_or : F → List F → F
  last_or r [] = r
  last_or r (x ∷ xs) = last_or x xs

  abbrev first_or : F → List (List F) → F
  first_or r [] = r
  first_or r (closes ∷ rest) = last_or r closes

module _ {F : Type 0} ⦃d : Double F⦄ where
  -- The market price, or the last closing price where that is zero.
  unfoldable pub chart_rate : ChartResult F → F
  unfolding last_or
  chart_rate r =
      if d.eq r.regular_market_price d.nought
      then first_or r.regular_market_price r.closes
      else r.regular_market_price

  abbrev first_result : List (ChartResult F) → Outcome (ChartResult F)
  first_result [] = err (message "yahoo: no result for %s")
  first_result (r ∷ rest) = ok r

module _ {F : Type 0} ⦃d : Double F⦄ (net : Net F) (y : Yahoo) where
  unfoldable pub market_time : ℤ → Text
  market_time t = if ltb_ℤ (pos 0) t then net.unix_text t else []

  -- One round of the loop: the k-th request of the n-th fetch.
  unfoldable pub yahoo_quote : ℕ → ℕ → Text → Text → Outcome (Reading F)
  unfolding exchange chart_rate market_time
  yahoo_quote n k base q = do
    let quote = to_upper q
    let url =
        y.base_url
        ++ (codes "/v8/finance/chart/" ++ (base ++ (quote ++ codes "=X?interval=1d&range=1d")))
    out ←
        exchange net net.decode_chart "yahoo fetch %s" "yahoo status %d for %s: %s"
          "yahoo decode %s" n k (record { url = url; user_agent = some y.user_agent })
    _ ← require (not out.has_error) "yahoo error for %s: %v"
    first ← first_result out.result
    let rate = chart_rate first
    _ ← require (not (d.eq rate d.nought)) "yahoo: zero rate for %s"
    ok (record {
      base = to_upper base;
      quote = quote;
      rate = rate;
      fetched_at = net.clock n;
      provider_ts = market_time first.regular_market_time;
    })

  -- The first error ends the loop, and the readings so far are dropped.
  unfoldable pub yahoo_quotes : ℕ → ℕ → Text → List Text → Outcome (List (Reading F))
  unfolding yahoo_quote
  yahoo_quotes n k base [] = ok []
  yahoo_quotes n k base (q ∷ qs) = do
    r ← yahoo_quote n k base q
    rs ← yahoo_quotes n (k + 1) base qs
    ok (r ∷ rs)

  unfoldable pub yahoo_fetch : ℕ → Text → List Text → Outcome (List (Reading F))
  unfolding yahoo_quotes
  yahoo_fetch n base quotes = yahoo_quotes n 0 (or_text base (codes "USD")) quotes
