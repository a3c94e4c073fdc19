-- ===== src/Http/Types.antt =====
-- internal/httpapi/httpapi.go: the server's options, what it answers, and the standard library that
-- it uses: the texts of times, durations, numbers and errors, and the JSON library, which can fail.
use argos_fx.Prelude.{ℕ, Bool, List, [], ◌++◌, Option, none, some, ◌*◌, ◌^◌, if◌then◌else◌}
use argos_fx.Prelude.Int.{ℤ, pos, leb_ℤ}
use argos_fx.Text.{Text, codes}
use argos_fx.Clock.{Time, Duration}
use argos_fx.Error.{Error}
use argos_fx.Float.{Double}
use argos_fx.Metrics.{NumberFormat}
use argos_fx.Store.{HistoryPoint}
use argos_fx.Aggregator.Types.{Config, Result}

-- `Server` and `Options`, but for the router, the log, and the cache and the metrics, which change.
pub record Server (F : Type 0) : Type 0 where
  pub agg : Option (Config F)
  -- `s.store != nil`
  pub has_store : Bool
  pub currencies : List Text
  pub cache_ttl : Duration
  pub max_age : Duration

unfoldable pub new_server : {F : Type 0} → Server F → Server F
new_server opts = record opts {
  cache_ttl = if leb_ℤ opts.cache_ttl (pos 0) then pos (60 * 10 ^ 9) else opts.cache_ttl;
}

pub record SingleRateResponse (F : Type 0) : Type 0 where
  pub from : Text
  pub to : Text
  pub rate : F
  pub as_of : Text
  pub freshness_seconds : F
  pub providers_used : List Text

pub record RatesResponse (F : Type 0) : Type 0 where
  pub base : Text
  pub as_of : Text
  pub freshness_seconds : F
  pub providers_used : List Text
  pub rates : List (Text × F)

pub record HistoryResponse (F : Type 0) : Type 0 where
  pub from : Text
  pub to : Text
  pub start : Text
  pub end : Text
  pub step : Text
  pub points : List (HistoryPoint F)

pub record ProviderView : Type 0 where
  pub name : Text
  pub kind : Text
  pub priority : ℤ
  pub enabled : Bool
  pub calls_per_day : Option ℤ
  pub schedule : Text
  pub used_today : ℕ

-- The values that are handed to `json.Marshal` and `json.Encoder`.
pub data Json (F : Type 0) : Type 0 where
  -- {"status": …, "time": …}
  status : Text → Text → Json F
  -- {"error": …}
  error : Text → Json F
  rate : SingleRateResponse F → Json F
  rates : RatesResponse F → Json F
  history : HistoryResponse F → Json F
  -- {"providers": …}
  providers : List ProviderView → Json F

pub record Library (F : Type 0) : Type 0 where
  -- `json.Marshal`, and `json.Unmarshal` into a `singleRateResponse`
  pub marshal : Json F → Option Text
  pub unmarshal_rate : Text → Option (SingleRateResponse F)
  -- `Format(time.RFC3339)` and `time.Parse(time.RFC3339, v)`, in UTC
  pub time_text : Time → Text
  pub parse_time : Text → Option Time
  -- `Duration.String`, `time.ParseDuration` and `Round(time.Second)`
  pub duration_text : Duration → Text
  pub parse_duration : Text → Option Duration
  pub round_second : Duration → Duration
  -- `%q`, `%d` and `err.Error()`
  pub quoted : Text → Text
  pub int_text : ℤ → Text
  pub error_text : Error → Text
  -- strconv
  pub numbers : NumberFormat F

pub record Response : Type 0 where
  pub status : ℕ
  pub content_type : Text
  pub cache_control : Option Text
  pub body : Text

abbrev pub json_type : Text
json_type = codes "application/json"

module _ {F : Type 0} (lib : Library F) where
  -- What `Encoder.Encode` writes: the line, or nothing if it fails.
  abbrev encoded : Option Text → Text
  encoded none = []
  encoded (some body) = body ++ codes "\n"

  unfoldable pub write_json : ℕ → Json F → Response
  write_json code body = record {
    status = code;
    content_type = json_type;
    cache_control = none;
    body = encoded (lib.marshal body);
  }

  unfoldable pub write_error : ℕ → Text → Response
  unfolding write_json
  write_error code message = write_json code (error message)

-- The status is 200 when a handler writes without one.
unfoldable pub write_bytes : Text → Response
write_bytes body = record {
  status = 200;
  content_type = json_type;
  cache_control = none;
  body = body;
}

module _ {F : Type 0} ⦃d : Double F⦄ (lib : Library F) where
  -- `w.Header().Set("Cache-Control", fmt.Sprintf("max-age=%d", int(s.cacheTTL.Seconds())))`.
  unfoldable pub with_max_age : Server F → Response → Response
  with_max_age s r = record r {
    cache_control = some (codes "max-age=" ++ lib.int_text (d.to_int (d.seconds s.cache_ttl)));
  }

module _ {F : Type 0} where
  unfoldable pub single_rate_of : Library F → Result F → Time → SingleRateResponse F
  single_rate_of lib res t = record {
    from = res.from;
    to = res.to;
    rate = res.rate;
    as_of = lib.time_text t;
    freshness_seconds = res.freshness_seconds;
    providers_used = res.providers_used;
  }
