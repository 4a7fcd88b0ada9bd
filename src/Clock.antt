-- ===== src/Clock.antt =====
-- time.Time and time.Duration as numbers of nanoseconds, and the texts of dates and durations.
use souin.Prelude.{ℕ, ◌+◌, ◌-◌, ◌%◌, ◌^◌, ◌<◌, String, ◌≡◌, Option, arith, ltb, if◌then◌else◌}
use souin.Prelude.Int.{ℤ, pos, negsuc, sub_ℕ, pos_part, neg_part, ◌+ℤ◌, ◌-ℤ◌, quot}

abbrev pub second : ℕ
second = 1_000_000_000

-- The int64 that an integer wraps to.
unfoldable pub wrap64 : ℤ → ℤ
wrap64 (pos n) = let m = n % 2 ^ 64 in if ltb m (2 ^ 63) then pos m else sub_ℕ m (2 ^ 64)
wrap64 (negsuc n) =
    let m = 2 ^ 64 - 1 - n % 2 ^ 64 in if ltb m (2 ^ 63) then pos m else sub_ℕ m (2 ^ 64)

-- d + e on durations
unfoldable pub add_duration : ℤ → ℤ → ℤ
unfolding wrap64 ◌+ℤ◌
add_duration d e = wrap64 (d +ℤ e)

-- d - e on durations
unfoldable pub sub_duration : ℤ → ℤ → ℤ
unfolding wrap64 ◌-ℤ◌
sub_duration d e = wrap64 (d -ℤ e)

-- t.Sub(u): the difference stops at the ends of int64.
unfoldable pub sub_time : ℤ → ℤ → ℤ
unfolding ◌-ℤ◌
sub_time t u =
    let d = t -ℤ u in
    if ltb (2 ^ 63 - 1) (pos_part d)
    then pos (2 ^ 63 - 1)
    else if ltb (2 ^ 63) (neg_part d)
    then negsuc (2 ^ 63 - 1)
    else d

-- int(d.Seconds())
abbrev pub seconds : ℤ → ℤ
seconds d = quot d second

-- int(math.Ceil(d.Seconds())) of a duration that is not negative
abbrev pub ceil_seconds : ℤ → ℤ
ceil_seconds d = quot (sub_ℕ (pos_part d + (second - 1)) 0) second

-- A duration that fits in int64.
abbrev pub Fits : ℤ → Type 0
Fits d = (pos_part d < 2 ^ 63) × (neg_part d < 2 ^ 63 + 1)

pub wrap64-Fits : (d : ℤ) → Fits d → wrap64 d ≡ d
unfolding wrap64
wrap64-Fits (pos n) h = ground arith
wrap64-Fits (negsuc n) h = ground arith

-- What the package time reads and prints. These formats are not modelled: they are arguments of
-- the definitions that use them.
pub record Dates : Type 0 where
  -- http.ParseTime, and time.Parse(time.RFC1123, …)
  pub parse_time : String → Option ℤ
  pub parse_rfc1123 : String → Option ℤ
  -- t.Format(http.TimeFormat), and t.Format(time.RFC1123)
  pub format_time : ℤ → String
  pub format_rfc1123 : ℤ → String
  -- time.ParseDuration and d.String()
  pub parse_duration : String → Option ℤ
  pub duration_string : ℤ → String
