-- ===== src/DateTime/Entry.antt =====
-- Broken-down times: ENUM_DATETIME_UNIT (src/include/classes/DateTime.enum.h) and the structures
-- MqlDateTime and DateTimeEntry (src/include/classes/DateTime.struct.h). An `int` is a 32-bit
-- pattern, so that -1 is 2 ^ 32 - 1.
use ea31337_fft.Prelude.{ℕ, ◌+◌, ◌-◌, ◌%◌, ◌^◌, bit_or, ◌==◌, if◌then◌else◌}
use ea31337_fft.Bits.Flags.{has_any}

-- ENUM_DATETIME_UNIT
abbrev pub datetime_none : ℕ
datetime_none = 0

abbrev pub datetime_second : ℕ
datetime_second = 2 ^ 0

abbrev pub datetime_minute : ℕ
datetime_minute = 2 ^ 1

abbrev pub datetime_hour : ℕ
datetime_hour = 2 ^ 2

abbrev pub datetime_day : ℕ
datetime_day = 2 ^ 3

abbrev pub datetime_week : ℕ
datetime_week = 2 ^ 4

abbrev pub datetime_month : ℕ
datetime_month = 2 ^ 5

abbrev pub datetime_year : ℕ
datetime_year = 2 ^ 6

abbrev pub minus_one : ℕ
minus_one = 2 ^ 32 - 1

pub record MqlDateTime : Type 0 where
  pub year : ℕ
  pub mon : ℕ
  pub day : ℕ
  pub hour : ℕ
  pub minute : ℕ
  pub sec : ℕ
  pub day_of_week : ℕ
  pub day_of_year : ℕ

-- DateTimeEntry, which extends MqlDateTime by a week of the year.
pub record DateTimeEntry : Type 0 where
  pub base : MqlDateTime
  pub week_of_year : ℕ

-- GetValue(ENUM_DATETIME_UNIT)
unfoldable pub get_value : ℕ → DateTimeEntry → ℕ
get_value unit e =
    if unit == datetime_second
    then e.base.sec
    else if unit == datetime_minute
    then e.base.minute
    else if unit == datetime_hour
    then e.base.hour
    else if unit == datetime_day
    then e.base.day
    else if unit == datetime_week
    then minus_one
    else if unit == datetime_month
    then e.base.mon
    else if unit == datetime_year
    then e.base.year
    else minus_one

-- GetDayOfYear
unfoldable pub get_day_of_year : DateTimeEntry → ℕ
get_day_of_year e = (e.base.day_of_year + 1) % 2 ^ 32

-- GetValue(unsigned int)
unfoldable pub get_value_mask : ℕ → DateTimeEntry → ℕ
unfolding has_any get_value get_day_of_year
get_value_mask unit e =
    if has_any unit (bit_or datetime_day datetime_week)
    then e.base.day_of_week
    else if has_any unit (bit_or datetime_day datetime_month)
    then e.base.day
    else if has_any unit (bit_or datetime_day datetime_year)
    then get_day_of_year e
    else get_value unit e

-- The platform: TimeToStruct, which breaks a time down.
module _ (time_to_struct : ℕ → MqlDateTime) where
  -- Set(datetime); Set() and SetGMT() are this at the current time.
  unfoldable pub set_time : ℕ → DateTimeEntry → DateTimeEntry
  set_time time e = record e { base = time_to_struct time }

  -- DateTimeStatic::DayOfWeek(), DayOfYear() and Month(), of the current time.
  unfoldable pub static_day_of_week : ℕ → ℕ
  static_day_of_week now = (time_to_struct now).day_of_week

  unfoldable pub static_day_of_year : ℕ → ℕ
  static_day_of_year now = ((time_to_struct now).day_of_year + 1) % 2 ^ 32

  unfoldable pub static_month : ℕ → ℕ
  static_month now = (time_to_struct now).mon

  -- SetDayOfMonth
  unfoldable pub set_day_of_month : ℕ → ℕ → DateTimeEntry → DateTimeEntry
  set_day_of_month now value e = record e {
    base = record (e.base) {
      day = value;
      day_of_week = static_day_of_week now;
      day_of_year = static_day_of_year now;
    };
  }

  -- SetDayOfYear
  unfoldable pub set_day_of_year : ℕ → ℕ → DateTimeEntry → DateTimeEntry
  set_day_of_year now value e = record e {
    base = record (e.base) {
      day_of_year = (value + 2 ^ 32 - 1) % 2 ^ 32;
      day = static_month now;
      day_of_week = static_day_of_week now;
    };
  }

  -- SetWeekOfYear
  unfoldable pub set_week_of_year : ℕ → DateTimeEntry → DateTimeEntry
  set_week_of_year value e = record e { week_of_year = value }

  -- SetValue(ENUM_DATETIME_UNIT, int), with the setters of one field written out.
  unfoldable pub set_value : ℕ → ℕ → ℕ → DateTimeEntry → DateTimeEntry
  unfolding set_day_of_month set_week_of_year
  set_value now unit value e =
      if unit == datetime_second
      then record e { base = record (e.base) { sec = value } }
      else if unit == datetime_minute
      then record e { base = record (e.base) { minute = value } }
      else if unit == datetime_hour
      then record e { base = record (e.base) { hour = value } }
      else if unit == datetime_day
      then set_day_of_month now value e
      else if unit == datetime_week
      then set_week_of_year value e
      else if unit == datetime_month
      then record e { base = record (e.base) { mon = value } }
      else if unit == datetime_year
      then record e { base = record (e.base) { year = value } }
      else e

  -- SetValue(unsigned short, int)
  unfoldable pub set_value_mask : ℕ → ℕ → ℕ → DateTimeEntry → DateTimeEntry
  unfolding has_any set_value set_day_of_month set_day_of_year
  set_value_mask now unit value e =
      if has_any unit (bit_or datetime_day datetime_month)
      then set_day_of_month now value e
      else if has_any unit (bit_or datetime_day datetime_year)
      then set_day_of_year now value e
      else set_value now unit value e
