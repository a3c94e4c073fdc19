-- ===== src/Http/History.antt =====
-- internal/httpapi/httpapi.go: the handler of histories.
use argos_fx.Prelude.{◌*◌, ◌^◌, ◌||◌, not, List, ◌++◌, Option, none, some, if◌then◌else◌}
use argos_fx.Prelude.Int.{pos, ltb_ℤ}
use argos_fx.Text.{Text, codes, to_upper, is_empty}
use argos_fx.Clock.{Time, Duration, add_duration, neg_duration, hour, minute}
use argos_fx.Error.{Outcome, ok, err}
use argos_fx.Float.{Double}
use argos_fx.Store.{HistoryPoint}
use argos_fx.Aggregator.Types.{Config}
use argos_fx.Aggregator.History
use argos_fx.Http.Types.{
  Server, Library, Response, HistoryResponse, history, write_error, write_bytes, with_max_age,
}
use argos_fx.Http.Site.{H, ◌>>=◌, pure, run, now, cache_lookup, cache_store}
use argos_fx.Http.Rates.{is_allowed}

-- The parameters of the query; an absent one is empty.
pub record HistoryQuery : Type 0 where
  pub start : Text
  pub end : Text
  pub step : Text

-- What the parameters say, or the message with which they are refused.
pub data Checked (A : Type 0) : Type 0 where
  accepted : A → Checked A
  refused : Text → Checked A

infixl 5 ◌then_check◌
unfoldable pub ◌then_check◌ : {A B : Type 0} → Checked A → (A → Checked B) → Checked B
◌then_check◌ (accepted a) f = f a
◌then_check◌ (refused m) f = refused m

-- A day, in nanoseconds.
abbrev pub day : Duration
day = pos (24 * (3600 * 10 ^ 9))

abbrev or_refuse : {A : Type 0} → Text → Option A → Checked A
or_refuse message none = refused message
or_refuse message (some a) = accepted a

module _ {F : Type 0} (lib : Library F) where
  -- `if v := q.Get("end"); v != ""` with what it parses to.
  unfoldable pub time_param : Text → Text → Time → Checked Time
  time_param message v default =
      if is_empty v then accepted default else or_refuse message (lib.parse_time v)

  unfoldable pub step_in_range : Duration → Checked Duration
  step_in_range d =
      if ltb_ℤ d minute || ltb_ℤ day d
      then refused (codes "step must be between 1m and 24h")
      else accepted d

  unfoldable pub step_param : Text → Checked Duration
  unfolding step_in_range
  step_param v =
      if is_empty v
      then accepted hour
      else or_refuse (codes "step must be a Go duration (e.g. 1m, 1h, 24h)") (lib.parse_duration v)
        then_check step_in_range

  -- The start, the end and the step of a request at a time.
  unfoldable pub history_range : HistoryQuery → Time → Checked (Time × Time × Duration)
  unfolding time_param step_param
  history_range q t = time_param (codes "end must be RFC3339") q.end t then_check λ end.
      time_param (codes "start must be RFC3339") q.start (add_duration t (neg_duration day))
      then_check λ start. step_param q.step then_check λ step. accepted (start, end, step)

  -- `fmt.Sprintf("hist:%s:%s:%s:%s:%s", …)`.
  unfoldable pub history_key : Text → Text → Time × Time × Duration → Text
  history_key from to (start, end, step) =
      codes "hist:"
      ++ (from
          ++ (codes ":"
              ++ (to
                  ++ (codes ":"
                      ++ (lib.time_text start
                          ++ (codes ":"
                              ++ (lib.time_text end ++ (codes ":" ++ lib.duration_text step))))))))

  unfoldable pub history_response :
      Text → Text → Time × Time × Duration → List (HistoryPoint F) → HistoryResponse F
  history_response from to (start, end, step) points = record {
    from = from;
    to = to;
    start = lib.time_text start;
    end = lib.time_text end;
    step = lib.duration_text step;
    points = points;
  }

module _ {F : Type 0} ⦃d : Double F⦄ (lib : Library F) (s : Server F) where
  unfoldable pub history_result :
      Text → Text → Time × Time × Duration → Outcome (List (HistoryPoint F)) → H F Response
  unfolding history_key history_response write_error write_bytes with_max_age
  history_result from to range (err e) = pure (write_error lib 400 (lib.error_text e))
  history_result from to range (ok pts) = do
    body ←
        cache_store lib (history_key lib from to range)
          (history (history_response lib from to range pts))
    pure (with_max_age lib s (write_bytes body))

  unfoldable pub history_found :
      Config F → Text → Text → Time × Time × Duration → Option Text → H F Response
  unfolding history_result write_bytes with_max_age
  history_found cfg from to range (some body) = pure (with_max_age lib s (write_bytes body))
  history_found cfg from to (start, end, step) none =
      run (History.history cfg from to start end step) >>= history_result from to (start, end, step)

  unfoldable pub history_checked :
      Config F → Text → Text → Checked (Time × Time × Duration) → H F Response
  unfolding history_found history_key write_error
  history_checked cfg from to (refused message) = pure (write_error lib 400 message)
  history_checked cfg from to (accepted range) =
      cache_lookup (history_key lib from to range) >>= history_found cfg from to range

  unfoldable pub history_upper : Config F → Text → Text → HistoryQuery → H F Response
  unfolding history_checked history_range is_allowed write_error
  history_upper cfg from to q =
      if not (is_allowed s from) || not (is_allowed s to)
      then pure (write_error lib 400 (codes "currency not allowed"))
      else do t ← now; history_checked cfg from to (history_range lib q t)

  -- `historyHandler`.
  unfoldable pub history_handler : Text → Text → HistoryQuery → H F Response
  unfolding history_upper write_error
  history_handler base quote q = elim s.agg [
    | none ↦ pure (write_error lib 503 (codes "aggregator not configured"))
    | some cfg ↦ history_upper cfg (to_upper base) (to_upper quote) q
  ]
