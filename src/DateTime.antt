-- ===== src/DateTime.antt =====
-- Python's `datetime`, as the program uses it: a wall-clock reading with a time zone. Adding a
-- `timedelta` moves the wall clock and keeps the zone, also across a change of the zone's offset.
use ai_compliance_orquestrat.Prelude.{
  ℕ, ◌+◌, ◌-◌, ◌*◌, ◌/◌, ◌%◌, String, Bool, false, Option, none, some, ltb, leb, if◌then◌else◌,
}

-- `wall` counts microseconds from 0001-01-01T00:00 on the zone's own clock; a naive reading has
-- no zone.
pub record DateTime : Type 0 where
  pub wall : ℕ
  pub fold : Bool
  pub tzinfo : Option String

abbrev pub second : ℕ
second = 1000000

abbrev pub minute : ℕ
minute = 60000000

abbrev pub hour : ℕ
hour = 3600000000

abbrev pub day : ℕ
day = 86400000000

-- The first reading past 9999-12-31, the last date that Python represents.
abbrev pub end_of_time : ℕ
end_of_time = 3652059 * 86400000000

-- `d.date()` as days from 0001-01-01, and `d.time()` as microseconds from midnight.
abbrev pub date : DateTime → ℕ
date d = d.wall / day

abbrev pub time : DateTime → ℕ
time d = d.wall % day

-- 0001-01-01 was a Monday, which Python numbers 0.
abbrev pub weekday : ℕ → ℕ
weekday n = n % 7

-- `d + timedelta`; `none` is the OverflowError past the last date.
unfoldable pub plus : DateTime → ℕ → Option DateTime
plus d delta =
    if ltb (d.wall + delta) end_of_time
    then some (record d { wall = d.wall + delta; fold = false })
    else none

-- `d - timedelta`; `none` is the OverflowError before the first date.
unfoldable pub minus : DateTime → ℕ → Option DateTime
minus d delta =
    if leb delta d.wall then some (record d { wall = d.wall - delta; fold = false }) else none

-- `d.replace(hour=…, minute=…, second=…, microsecond=…)`
abbrev pub replace_time : DateTime → ℕ → DateTime
replace_time d t = record d { wall = date d * day + t }

-- `datetime.combine(date, time, tzinfo=zone)`
abbrev pub combine : ℕ → ℕ → String → DateTime
combine n t zone = record { wall = n * day + t; fold = false; tzinfo = some zone }
