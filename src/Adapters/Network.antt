-- ===== src/Adapters/Network.antt =====
-- What the adapters ask of the network and of the libraries: the answers of the HTTP client, the
-- clock, the JSON decoder for each provider's answers, and the encoding of URLs. All are arbitrary.
use argos_fx.Prelude.{ℕ, ◌/◌, Bool, List, [], ◌∷◌, Option, none, some, ◌==◌, if◌then◌else◌}
use argos_fx.Prelude.Int.{ℤ}
use argos_fx.Text.{Text, is_empty}
use argos_fx.Clock.{Time}
use argos_fx.Error.{message, upstream, wrap, Outcome, ok, err, in_context}
use Prim.Native.String.{String}

pub record Request : Type 0 where
  pub url : Text
  pub user_agent : Option Text

-- `HTTPClient.Do`: an error, or a status and a body.
pub data Reply : Type 0 where
  failed : Reply
  answered : ℕ → Text → Reply

-- `frankfurterResponse` and `moneyConvertResponse`, with the fields that are read.
pub record LatestResponse (F : Type 0) : Type 0 where
  pub base : Text
  pub date : Text
  pub rates : List (Text × F)

-- An element of `Chart.Result`, with the closing prices of each of its quotes.
pub record ChartResult (F : Type 0) : Type 0 where
  pub regular_market_price : F
  pub regular_market_time : ℤ
  pub closes : List (List F)

-- `yahooChartResponse`.
pub record ChartResponse (F : Type 0) : Type 0 where
  pub has_error : Bool
  pub result : List (ChartResult F)

pub record Net (F : Type 0) : Type 0 where
  -- `time.Now().UTC()` in the n-th fetch
  pub clock : ℕ → Time
  -- `http.NewRequestWithContext` accepts the URL
  pub is_url : Text → Bool
  -- the answer to the k-th request of the n-th fetch
  pub reply : ℕ → ℕ → Request → Reply
  pub decode_latest : Text → Option (LatestResponse F)
  pub decode_chart : Text → Option (ChartResponse F)
  -- the URL with the parameter `key`
  pub with_key : Text → Text → Text
  -- `time.Unix(t, 0).UTC().Format(time.RFC3339)`
  pub unix_text : ℤ → Text

infixl 5 ◌>>=◌
unfoldable pub ◌>>=◌ : {A B : Type 0} → Outcome A → (A → Outcome B) → Outcome B
◌>>=◌ (ok a) f = f a
◌>>=◌ (err e) f = err e

abbrev pub require : Bool → String → Outcome (Unit {0})
require b s = if b then ok tt else err (message s)

abbrev or_err {ℓ} : {A : Type ℓ} → Option A → Outcome A
or_err none = err upstream
or_err (some a) = ok a

-- `if resp.StatusCode/100 != 2`, for an answer that came.
abbrev pub body_of : String → String → Reply → Outcome Text
body_of fetch_context status_format failed = err (wrap fetch_context upstream)
body_of fetch_context status_format (answered status body) =
    if status / 100 == 2 then ok body else err (message status_format)

module _ {F : Type 0} (net : Net F) where
  -- The request, its answer with a status of success, and the decoded body. The bodies of other
  -- answers go into the message only.
  unfoldable pub exchange :
      {A : Type 0} → (Text → Option A) → String → String → String → ℕ → ℕ → Request → Outcome A
  exchange decode fetch_context status_format decode_context n k request = do
    _ ← if net.is_url request.url then ok tt else err upstream
    body ← body_of fetch_context status_format (net.reply n k request)
    in_context decode_context (or_err (decode body))

-- `strings.TrimRight(s, "/")`.
unfoldable pub trim_slashes : Text → Text
trim_slashes [] = []
trim_slashes (c ∷ s) =
    let rest = trim_slashes s in
    if c == b'/' then (if is_empty rest then [] else c ∷ rest) else c ∷ rest
