-- ===== src/Wire/GoTime.antt =====
-- Go's time.Time and time.Duration, as far as the code reads them: nanoseconds since 1970 and, in
-- what time.Now returns, a reading of the monotonic clock. A duration is an int64.
use manage_robot.Common.{
  ◌-◌, ◌%◌, Bool, Option, none, some, ℤ, pos, negsuc, ◌-ℤ◌, ◌+ℤ◌, ltb_ℤ, eqb_ℤ, to_int64,
  if◌then◌else◌,
}

pub record Time : Type 0 where
  pub wall : ℤ
  pub mono : Option ℤ

-- time.Unix(0, ns).
abbrev pub unix_ns : ℤ → Time
unix_ns ns = record { wall = ns; mono = none }

abbrev pub max_duration : ℤ
max_duration = pos 9223372036854775807

abbrev pub min_duration : ℤ
min_duration = negsuc 9223372036854775807

-- Time.Sub saturates.
unfoldable pub saturate : ℤ → ℤ
saturate d =
    if ltb_ℤ max_duration d then max_duration else if ltb_ℤ d min_duration then min_duration else d

-- Arithmetic on durations wraps.
unfoldable pub wrap64 : ℤ → ℤ
wrap64 (pos n) = to_int64 (n % 0x10000000000000000)
wrap64 (negsuc n) = to_int64 (0xffffffffffffffff - n % 0x10000000000000000)

-- The monotonic readings are compared where both times have one.
abbrev raw_sub : Option ℤ → Option ℤ → ℤ → ℤ
raw_sub (some m) (some n) walls = m -ℤ n
raw_sub (some m) none walls = walls
raw_sub none n walls = walls

unfoldable pub time_sub : Time → Time → ℤ
unfolding saturate
time_sub t u = saturate (raw_sub t.mono u.mono (t.wall -ℤ u.wall))

abbrev raw_before : Option ℤ → Option ℤ → Bool → Bool
raw_before (some m) (some n) walls = ltb_ℤ m n
raw_before (some m) none walls = walls
raw_before none n walls = walls

unfoldable pub before : Time → Time → Bool
before t u = raw_before t.mono u.mono (ltb_ℤ t.wall u.wall)

abbrev pub after : Time → Time → Bool
after t u = before u t

raw_add : Option ℤ → ℤ → Option ℤ
raw_add none d = none
raw_add (some m) d = some (m +ℤ d)

unfoldable pub time_add : Time → ℤ → Time
unfolding raw_add
time_add t d = record { wall = t.wall +ℤ d; mono = raw_add t.mono d }

-- January 1 of the year 1, the zero value of time.Time.
abbrev pub is_zero : Time → Bool
is_zero t = eqb_ℤ t.wall (negsuc 62135596799999999999)

abbrev pub second : ℤ
second = pos 1000000000

-- -d; -minInt64 is minInt64.
unfoldable pub neg : ℤ → ℤ
unfolding wrap64
neg d = wrap64 (pos 0 -ℤ d)
