-- ===== src/Timeframe/Convert.antt =====
-- The conversions between timeframe, index, seconds and name: the static methods of ChartTf in
-- src/include/classes/Chart.struct.tf.h.
use Prim.Native.String.{String}
use ea31337_fft.Prelude.{
  ℕ, ◌+◌, ◌*◌, ◌/◌, ◌||◌, ◌&&◌, Option, none, some, List, [], ◌∷◌, leb, ◌==◌, if◌then◌else◌,
}
use ea31337_fft.UserError.{UserError, invalid_parameter}
use ea31337_fft.Timeframe.Tables.{
  Timeframe, period_current, period_m1, period_m2, period_m3, period_m4, period_m5, period_m6,
  period_m10, period_m12, period_m15, period_m20, period_m30, period_h1, period_h2, period_h3,
  period_h4, period_h6, period_h8, period_h12, period_d1, period_w1, period_mn1, wrong_value,
  tf_value, m1, m2, m3, m4, m5, m6, m10, m12, m15, m20, m30, h1, h2, h3, h4, h6, h8, h12, d1, w1,
  mn1, final_timeframes_index, timeframes_list,
}

-- ChartTf::SecsToTf, with the error that it reports.
unfoldable pub secs_to_tf : ℕ → Timeframe × Option UserError
secs_to_tf secs =
    if secs == 0
    then (period_current, none)
    else if secs == 60
    then (period_m1, none)
    else if secs == 60 * 2
    then (period_m2, none)
    else if secs == 60 * 3
    then (period_m3, none)
    else if secs == 60 * 4
    then (period_m4, none)
    else if secs == 60 * 5
    then (period_m5, none)
    else if secs == 60 * 6
    then (period_m6, none)
    else if secs == 60 * 10
    then (period_m10, none)
    else if secs == 60 * 12
    then (period_m12, none)
    else if secs == 60 * 15
    then (period_m15, none)
    else if secs == 60 * 20
    then (period_m20, none)
    else if secs == 60 * 30
    then (period_m30, none)
    else if secs == 60 * 60
    then (period_h1, none)
    else if secs == 60 * 60 * 2
    then (period_h2, none)
    else if secs == 60 * 60 * 3
    then (period_h3, none)
    else if secs == 60 * 60 * 4
    then (period_h4, none)
    else if secs == 60 * 60 * 6
    then (period_h6, none)
    else if secs == 60 * 60 * 8
    then (period_h8, none)
    else if secs == 60 * 60 * 12
    then (period_h12, none)
    else if secs == 60 * 60 * 24
    then (period_d1, none)
    else if secs == 60 * 60 * 24 * 7
    then (period_w1, none)
    else if leb (60 * 60 * 24 * 28) secs && leb secs (60 * 60 * 24 * 31)
    then (period_mn1, none)
    else (period_current, some invalid_parameter)

-- ChartTf::IndexToTf
unfoldable pub index_to_tf : ℕ → Timeframe
index_to_tf index =
    if index == m1
    then period_m1
    else if index == m2
    then period_m2
    else if index == m3
    then period_m3
    else if index == m4
    then period_m4
    else if index == m5
    then period_m5
    else if index == m6
    then period_m6
    else if index == m10
    then period_m10
    else if index == m12
    then period_m12
    else if index == m15
    then period_m15
    else if index == m20
    then period_m20
    else if index == m30
    then period_m30
    else if index == h1
    then period_h1
    else if index == h2
    then period_h2
    else if index == h3
    then period_h3
    else if index == h4
    then period_h4
    else if index == h6
    then period_h6
    else if index == h8
    then period_h8
    else if index == h12
    then period_h12
    else if index == d1
    then period_d1
    else if index == w1
    then period_w1
    else if index == mn1
    then period_mn1
    else wrong_value

-- The loop of ChartTf::TfToIndex, at index i of the list.
unfoldable pub find_index : List Timeframe → ℕ → Timeframe → ℕ
find_index [] i tf = final_timeframes_index
find_index (t ∷ ts) i tf =
    let rest = find_index ts (i + 1) tf in if tf_value t == tf_value tf then i else rest

-- The first line of ChartTf::TfToIndex; `period` is the platform's `_Period`.
unfoldable pub resolve_tf : Timeframe → Timeframe → Timeframe
unfolding tf_value
resolve_tf period tf =
    if tf_value tf == 0 || tf_value tf == tf_value period_current then period else tf

-- ChartTf::TfToIndex
unfoldable pub tf_to_index : Timeframe → Timeframe → ℕ
unfolding find_index resolve_tf
tf_to_index period tf = find_index timeframes_list 0 (resolve_tf period tf)

-- ChartTf::TfToString, with the error that it reports.
unfoldable pub tf_to_string : Timeframe → String × Option UserError
tf_to_string period_current = ("Current", none)
tf_to_string period_m1 = ("M1", none)
tf_to_string period_m2 = ("M2", none)
tf_to_string period_m3 = ("M3", none)
tf_to_string period_m4 = ("M4", none)
tf_to_string period_m5 = ("M5", none)
tf_to_string period_m6 = ("M6", none)
tf_to_string period_m10 = ("M10", none)
tf_to_string period_m12 = ("M12", none)
tf_to_string period_m15 = ("M15", none)
tf_to_string period_m20 = ("M20", none)
tf_to_string period_m30 = ("M30", none)
tf_to_string period_h1 = ("H1", none)
tf_to_string period_h2 = ("H2", none)
tf_to_string period_h3 = ("H3", none)
tf_to_string period_h4 = ("H4", none)
tf_to_string period_h6 = ("H6", none)
tf_to_string period_h8 = ("H8", none)
tf_to_string period_h12 = ("H12", none)
tf_to_string period_d1 = ("D1", none)
tf_to_string period_w1 = ("W1", none)
tf_to_string period_mn1 = ("MN1", none)
tf_to_string wrong_value = ("Unknown", some invalid_parameter)

-- ChartTf::IndexToString
unfoldable pub index_to_string : ℕ → String × Option UserError
unfolding tf_to_string index_to_tf
index_to_string tfi = tf_to_string (index_to_tf tfi)

-- TfToSeconds, TfToMinutes and TfToHours. `period_seconds` is the platform's PeriodSeconds; both
-- divisions are of integers.
module _ (period_seconds : Timeframe → ℕ) where
  unfoldable pub tf_to_seconds : Timeframe → ℕ
  tf_to_seconds tf = period_seconds tf

  unfoldable pub tf_to_minutes : Timeframe → ℕ
  unfolding tf_to_seconds
  tf_to_minutes tf = tf_to_seconds tf / 60

  unfoldable pub tf_to_hours : Timeframe → ℕ
  unfolding tf_to_seconds
  tf_to_hours tf = tf_to_seconds tf / (60 * 60)
