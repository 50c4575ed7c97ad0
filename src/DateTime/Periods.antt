-- ===== src/DateTime/Periods.antt =====
-- The class DateTime of src/include/classes/DateTime.mqh: a current and a last time, and the
-- periods that started between them.
pub mod Laws
use ea31337_fft.Prelude.{ℕ, bit_or, Bool, true, false, not, ◌==◌, ltb, if◌then◌else◌}
use ea31337_fft.DateTime.Entry.{
  MqlDateTime, DateTimeEntry, get_value, get_value_mask, set_time, datetime_none, datetime_second,
  datetime_minute, datetime_hour, datetime_day, datetime_week, datetime_month, datetime_year,
}

pub record DateTime : Type 0 where
  pub dt_curr : DateTimeEntry
  pub dt_last : DateTimeEntry

-- `curr.GetValue(unit) != last.GetValue(unit)`
unfoldable pub differs : ℕ → DateTime → Bool
differs unit d = not (get_value unit d.dt_curr == get_value unit d.dt_last)

-- The ladder of tests in GetStartedPeriods.
unfoldable pub started_units : DateTime → ℕ
unfolding differs
started_units d =
    if differs datetime_year d
    then bit_or datetime_year (
        bit_or datetime_month
          (bit_or datetime_day (bit_or datetime_hour (bit_or datetime_minute datetime_second))))
    else if differs datetime_month d
    then bit_or datetime_month
        (bit_or datetime_day (bit_or datetime_hour (bit_or datetime_minute datetime_second)))
    else if differs datetime_day d
    then bit_or datetime_day (bit_or datetime_hour (bit_or datetime_minute datetime_second))
    else if differs datetime_hour d
    then bit_or datetime_hour (bit_or datetime_minute datetime_second)
    else if differs datetime_minute d
    then bit_or datetime_minute datetime_second
    else if differs datetime_second d
    then datetime_second
    else datetime_none

-- The test for a week, after the ladder.
unfoldable pub week_differs : DateTime → Bool
week_differs d =
    let day_or_week = bit_or datetime_day datetime_week in
    not (get_value_mask day_or_week d.dt_curr == get_value_mask day_or_week d.dt_last)

unfoldable pub started_result : DateTime → ℕ
unfolding started_units week_differs
started_result d =
    if week_differs d then bit_or (started_units d) datetime_week else started_units d

module _ (time_to_struct : ℕ → MqlDateTime) where
  -- Update; `now` is TimeCurrent().
  unfoldable pub update : ℕ → DateTime → DateTime
  unfolding set_time
  update now d = record d { dt_curr = set_time time_to_struct now d.dt_curr }

  -- GetStartedPeriods(_update, _update_last)
  unfoldable pub get_started_periods : Bool → Bool → ℕ → DateTime → ℕ × DateTime
  unfolding update started_result
  get_started_periods do_update update_last now d =
      let u = if do_update then update now d else d in
      (started_result u, if update_last then record u { dt_last = u.dt_curr } else u)

  -- IsNewMinute(_update)
  unfoldable pub is_new_minute : Bool → ℕ → DateTime → Bool × DateTime
  unfolding update
  is_new_minute do_update now d =
      let u = if do_update then update now (record d { dt_last = d.dt_curr }) else d in
      (ltb u.dt_curr.base.sec u.dt_last.base.sec, record u { dt_last = u.dt_curr })
