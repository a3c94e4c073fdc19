-- ===== src/Scheduler/Jitter.antt =====
-- internal/scheduler/scheduler.go: `Jitter`, of the clock.
use argos_fx.Prelude.{ℕ, ◌+◌, ◌*◌, ◌%◌, ◌^◌, ◌<◌, ◌≡◌, arith, if◌then◌else◌}
use argos_fx.Prelude.Int.{ℤ, pos, negsuc, int64, leb_ℤ, pos_part, ◌-ℤ◌, ◌≤ℤ◌, ◌<ℤ◌}
use argos_fx.Clock.{Time, Duration}

-- The first of January 1970.
abbrev pub unix_epoch : Time
unix_epoch = 62_135_596_800 * 10 ^ 9

-- `UnixNano`.
unfoldable unix_nano : Time → ℤ
unix_nano t = int64 (pos t -ℤ pos unix_epoch)

-- `%` on `int64`, with a positive divisor: the sign is that of the dividend.
unfoldable remainder : ℤ → ℕ → ℤ
remainder (pos n) m = pos (n % m)
remainder (negsuc n) m = pos 0 -ℤ pos ((n + 1) % m)

unfoldable pub jitter : Time → Duration → Duration
unfolding unix_nano remainder
jitter t d = if leb_ℤ d (pos 0) then pos 0 else remainder (unix_nano t) (pos_part d)

unix_nano_exact : (n : ℕ) → n < 2 ^ 63 → unix_nano (unix_epoch + n) ≡ pos n
unfolding unix_nano
unix_nano_exact n h = ground arith

-- From 1970 on, as long as the nanoseconds since then are an `int64`, the jitter is not negative
-- and less than the duration.
pub jitter-IsBelow :
    (n m : ℕ)
    → n < 2 ^ 63
    → (pos 0 ≤ℤ jitter (unix_epoch + n) (pos (m + 1)))
      × (jitter (unix_epoch + n) (pos (m + 1)) <ℤ pos (m + 1))
unfolding jitter remainder
jitter-IsBelow n m h = rw (unix_nano_exact n h) (ground arith)
