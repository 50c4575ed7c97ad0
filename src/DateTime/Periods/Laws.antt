-- ===== src/DateTime/Periods/Laws.antt =====
-- What the reported periods say of the two times.
use ea31337_fft.Prelude.{ℕ, ◌≡◌, refl, arith, Bool, true, false, not, ◌||◌, ◌==◌, ap}
use ea31337_fft.Bits.Flags.{has_any}
use ea31337_fft.DateTime.Entry.{
  MqlDateTime, get_value, get_value_mask, set_time, datetime_second, datetime_minute, datetime_hour,
  datetime_day, datetime_week, datetime_month, datetime_year,
}
use ea31337_fft.DateTime.Periods.{DateTime, started_result, get_started_periods}

-- Two fields differ.
abbrev pub ne : ℕ → ℕ → Bool
ne a b = not (a == b)

-- A period is reported as started exactly when it, or a longer one up to the year, differs
-- between the current and the last time; the week is reported when the day of the week differs.
pub started_result_flags :
    (d : DateTime)
    → let c = d.dt_curr.base in
      let l = d.dt_last.base in
      let r = started_result d in
      (has_any r datetime_year ≡ ne c.year l.year)
      × (has_any r datetime_month ≡ ne c.year l.year || ne c.mon l.mon)
      × (has_any r datetime_day ≡ ne c.year l.year || ne c.mon l.mon || ne c.day l.day)
      × (has_any r datetime_hour
          ≡ ne c.year l.year || ne c.mon l.mon || ne c.day l.day || ne c.hour l.hour)
      × (has_any r datetime_minute
          ≡ ne c.year l.year
            || ne c.mon l.mon
            || ne c.day l.day
            || ne c.hour l.hour
            || ne c.minute l.minute)
      × (has_any r datetime_second
          ≡ ne c.year l.year
            || ne c.mon l.mon
            || ne c.day l.day
            || ne c.hour l.hour
            || ne c.minute l.minute
            || ne c.sec l.sec)
      × (has_any r datetime_week ≡ ne c.day_of_week l.day_of_week)
unfolding started_result has_any get_value get_value_mask
started_result_flags d = ground arith

started_result_same : (d : DateTime) → d.dt_curr ≡ d.dt_last → started_result d ≡ 0
unfolding started_result get_value get_value_mask
started_result_same d h = rw h (ground arith)

module _ (time_to_struct : ℕ → MqlDateTime) where
  -- Once the last time is set, a second look at the same moment reports no period, and finds the
  -- two times as the first look left them.
  pub get_started_periods_once :
      (now : ℕ) (d : DateTime)
      → let seen = (get_started_periods time_to_struct true true now d).1 in
        get_started_periods time_to_struct true true now seen ≡ (0, seen)
  unfolding get_started_periods
  get_started_periods_once now d =
      let seen = (get_started_periods time_to_struct true true now d).1 in
      ap {B = ℕ × DateTime} (λ r. (r, seen)) (started_result_same seen refl)

  -- A look that leaves the last time alone changes nothing that the next look reports.
  pub get_started_periods_peek :
      (now later : ℕ) (d : DateTime)
      → let seen = (get_started_periods time_to_struct true false now d).1 in
        get_started_periods time_to_struct true true later seen
        ≡ get_started_periods time_to_struct true true later d
  unfolding get_started_periods set_time
  get_started_periods_peek now later d = refl
