-- ===== src/Examples/Times.antt =====
-- Started periods: src/include/classes/DateTime.mqh and DateTime.struct.h.
use ea31337_fft.Prelude.{ℕ, ◌/◌, ◌%◌, ◌≡◌, refl, bit_or, true, ◌||◌, ◌+◌}
use ea31337_fft.Bits.Flags.{has_any}
use ea31337_fft.DateTime.Entry.{
  MqlDateTime, DateTimeEntry, get_value_mask, datetime_second, datetime_minute, datetime_hour,
  datetime_day, datetime_week, datetime_month, datetime_year,
}
use ea31337_fft.DateTime.Periods.{DateTime, started_result, get_started_periods}
use ea31337_fft.DateTime.Periods.Laws.{ne, started_result_flags, get_started_periods_once}

-- A calendar of one month, for times below a month.
abbrev pub clock : ℕ → MqlDateTime
clock time = record {
  year = 1970;
  mon = 1;
  day = 1 + time / 86400;
  hour = time / 3600 % 24;
  minute = time / 60 % 60;
  sec = time % 60;
  day_of_week = (4 + time / 86400) % 7;
  day_of_year = time / 86400;
}

abbrev pub entry_at : ℕ → DateTimeEntry
entry_at time = record { base = clock time; week_of_year = 0 }

abbrev pub times : ℕ → ℕ → DateTime
times now last = record { dt_curr = entry_at now; dt_last = entry_at last }

-- From 00:59:59 to 01:00:00 of the same day.
abbrev next_hour : DateTime
next_hour = times 3600 3599

hour_started :
    started_result next_hour ≡ bit_or datetime_hour (bit_or datetime_minute datetime_second)
unfolding started_result get_value_mask
hour_started = refl

started_result_flags_example :
    let c = next_hour.dt_curr.base in
    let l = next_hour.dt_last.base in
    let r = started_result next_hour in
    (has_any r datetime_year ≡ ne c.year l.year)
    × (has_any r datetime_month ≡ ne c.year l.year || ne c.mon l.mon)
    × (has_any r datetime_day ≡ ne c.year l.year || ne c.mon l.mon || ne c.day l.day)
    × (has_any r datetime_hour
        ≡ ne c.year l.year || ne c.mon l.mon || ne c.day l.day || ne c.hour l.hour)
    × (has_any r datetime_minute
        ≡ ne c.year l.year
          || ne c.mon l.mon
          || ne c.day l.day
          || ne c.hour l.hour
          || ne c.minute l.minute)
    × (has_any r datetime_second
        ≡ ne c.year l.year
          || ne c.mon l.mon
          || ne c.day l.day
          || ne c.hour l.hour
          || ne c.minute l.minute
          || ne c.sec l.sec)
    × (has_any r datetime_week ≡ ne c.day_of_week l.day_of_week)
started_result_flags_example = started_result_flags next_hour

get_started_periods_once_example :
    let seen = (get_started_periods clock true true 7200 next_hour).1 in
    get_started_periods clock true true 7200 seen ≡ (0, seen)
get_started_periods_once_example = get_started_periods_once clock 7200 next_hour
