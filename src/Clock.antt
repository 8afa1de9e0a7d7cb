-- ===== src/Clock.antt =====
-- Instants and wall-clock times in Indian Standard Time. A `datetime` that the code has converted
-- with `astimezone(IST)` is the number of microseconds since the start of 1 January of the year 1, a
-- Monday, on the wall clock; a `time` is the number since midnight.
pub mod Laws
use trader_ai.Prelude.{
  ℕ, ◌+◌, ◌*◌, ◌/◌, ◌%◌, Bool, ◌&&◌, Option, none, some, ℤ, pos, negsuc, List, [], ◌∷◌,
  if◌then◌else◌, ltb,
}
use trader_ai.Prelude.Options.{◌>>=◌}
use trader_ai.Text.{Text, split, to_int}

abbrev pub Datetime : Type 0
Datetime = ℕ

abbrev pub Time : Type 0
Time = ℕ

abbrev pub minute : ℕ
minute = 60_000_000

abbrev pub day : ℕ
day = 86_400_000_000

-- `ts.time()`
abbrev pub time_of : Datetime → Time
time_of ts = ts % day

-- `ts.date()`, as the number of days
abbrev pub date_of : Datetime → ℕ
date_of ts = ts / day

-- `ts.weekday()`: 0 is Monday
abbrev pub weekday : Datetime → ℕ
weekday ts = date_of ts % 7

-- `time(hour=h, minute=m)`, which raises out of range
abbrev pub make_time : ℤ → ℤ → Option Time
make_time (pos h) (pos m) =
    if ltb h 24 && ltb m 60 then some (h * (60 * minute) + m * minute) else none
make_time _ _ = none

-- The pieces of an assignment to two names, which raises unless there are two.
abbrev pub two : List Text → Option (Text × Text)
two (a ∷ b ∷ []) = some (a, b)
two _ = none

-- `_parse_hhmm` of risk/manager.py, and `parse_hhmm` of orchestrator/scheduler.py
unfoldable pub parse_hhmm : Text → Option Time
unfolding split to_int
parse_hhmm value = do
  (hour, minute_text) ← two (split b':' value)
  h ← to_int hour
  m ← to_int minute_text
  make_time h m
