-- ===== src/Clock.antt =====
-- `time.Time` and `time.Duration`. A time is the number of nanoseconds since Go's zero time, the
-- first of January of the year 1, in UTC; a duration is an `int64` of nanoseconds.
use argos_fx.Prelude.{
  ℕ, ◌+◌, ◌-◌, ◌*◌, ◌/◌, ◌%◌, ◌^◌, ◌≤◌, ◌<◌, arith, leb, min, ◌==◌, if◌then◌else◌,
}
use argos_fx.Prelude.Int.{ℤ, pos, negsuc, int64, ◌*ℤ◌}

abbrev pub Time : Type 0
Time = ℕ

abbrev pub Duration : Type 0
Duration = ℤ

abbrev pub nanosecond_per_second : ℕ
nanosecond_per_second = 10 ^ 9

abbrev pub second : Duration
second = pos (10 ^ 9)

abbrev pub minute : Duration
minute = pos (60 * 10 ^ 9)

abbrev pub hour : Duration
hour = pos (3600 * 10 ^ 9)

-- `t.Add(d)`. A time before the year 1 is left at the zero time: no reading is older than either.
unfoldable pub add_duration : Time → Duration → Time
add_duration t (pos n) = t + n
add_duration t (negsuc n) = t - (n + 1)

-- `-d` on `int64`.
unfoldable pub neg_duration : Duration → Duration
neg_duration d = int64 (negsuc 0 *ℤ d)

-- `time.Duration(n) * time.Second`.
unfoldable pub seconds_duration : ℤ → Duration
seconds_duration n = int64 (n *ℤ second)

-- `t.Sub(u)`, which stops at the least and the greatest duration.
unfoldable pub sub_time : Time → Time → Duration
sub_time t u =
    if leb u t then pos (min (t - u) (2 ^ 63 - 1)) else negsuc (min (u - t - 1) (2 ^ 63 - 1))

-- What `Format(time.RFC3339)` in UTC keeps of a time: whole seconds. In the years 1 to 9999 the
-- texts are ordered as these numbers are, and `time.Parse` gives the whole second back.
unfoldable pub rfc3339 : Time → ℕ
rfc3339 t = t / nanosecond_per_second

unfoldable pub parse_rfc3339 : ℕ → Time
parse_rfc3339 s = s * nanosecond_per_second

-- What `Format("2006-01-02")` keeps: the day.
unfoldable pub day_of : Time → ℕ
day_of t = t / (86400 * nanosecond_per_second)

-- `t.Truncate(d)`: down to a multiple of `d` since the zero time, or `t` if `d <= 0`.
unfoldable pub truncate : Time → Duration → Time
truncate t (pos n) = if n == 0 then t else t - t % n
truncate t (negsuc n) = t

-- A stored time is at most a second old, and never in the future of what was stored.
pub parse-rfc3339 :
    (t : Time) → (parse_rfc3339 (rfc3339 t) ≤ t) × (t < parse_rfc3339 (rfc3339 t) + 10 ^ 9)
unfolding rfc3339 parse_rfc3339
parse-rfc3339 t = omega arith
