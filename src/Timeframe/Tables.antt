-- ===== src/Timeframe/Tables.antt =====
-- Chart timeframes (src/include/classes/Chart.enum.h): the enumeration, its index and the list of
-- timeframes.
use ea31337_fft.Prelude.{ℕ, ◌^◌, ◌-◌, List, [], ◌∷◌}

-- ENUM_TIMEFRAMES. `wrong_value` is the cast `(ENUM_TIMEFRAMES)-1`.
pub data Timeframe : Type 0 where
  period_current : Timeframe
  period_m1 : Timeframe
  period_m2 : Timeframe
  period_m3 : Timeframe
  period_m4 : Timeframe
  period_m5 : Timeframe
  period_m6 : Timeframe
  period_m10 : Timeframe
  period_m12 : Timeframe
  period_m15 : Timeframe
  period_m20 : Timeframe
  period_m30 : Timeframe
  period_h1 : Timeframe
  period_h2 : Timeframe
  period_h3 : Timeframe
  period_h4 : Timeframe
  period_h6 : Timeframe
  period_h8 : Timeframe
  period_h12 : Timeframe
  period_d1 : Timeframe
  period_w1 : Timeframe
  period_mn1 : Timeframe
  wrong_value : Timeframe

-- The integer behind an enumerator, as a 32-bit pattern.
unfoldable pub tf_value : Timeframe → ℕ
tf_value period_current = 0
tf_value period_m1 = 1
tf_value period_m2 = 2
tf_value period_m3 = 3
tf_value period_m4 = 4
tf_value period_m5 = 5
tf_value period_m6 = 6
tf_value period_m10 = 10
tf_value period_m12 = 12
tf_value period_m15 = 15
tf_value period_m20 = 20
tf_value period_m30 = 30
tf_value period_h1 = 60
tf_value period_h2 = 120
tf_value period_h3 = 180
tf_value period_h4 = 240
tf_value period_h6 = 360
tf_value period_h8 = 480
tf_value period_h12 = 720
tf_value period_d1 = 1440
tf_value period_w1 = 10080
tf_value period_mn1 = 43200
tf_value wrong_value = 2 ^ 32 - 1

-- ENUM_TIMEFRAMES_INDEX: the enumerators are numbers, since the program casts loop counters to it.
abbrev pub m1 : ℕ
m1 = 0

abbrev pub m2 : ℕ
m2 = 1

abbrev pub m3 : ℕ
m3 = 2

abbrev pub m4 : ℕ
m4 = 3

abbrev pub m5 : ℕ
m5 = 4

abbrev pub m6 : ℕ
m6 = 5

abbrev pub m10 : ℕ
m10 = 6

abbrev pub m12 : ℕ
m12 = 7

abbrev pub m15 : ℕ
m15 = 8

abbrev pub m20 : ℕ
m20 = 9

abbrev pub m30 : ℕ
m30 = 10

abbrev pub h1 : ℕ
h1 = 11

abbrev pub h2 : ℕ
h2 = 12

abbrev pub h3 : ℕ
h3 = 13

abbrev pub h4 : ℕ
h4 = 14

abbrev pub h6 : ℕ
h6 = 15

abbrev pub h8 : ℕ
h8 = 16

abbrev pub h12 : ℕ
h12 = 17

abbrev pub d1 : ℕ
d1 = 18

abbrev pub w1 : ℕ
w1 = 19

abbrev pub mn1 : ℕ
mn1 = 20

abbrev pub final_timeframes_index : ℕ
final_timeframes_index = 21

-- TIMEFRAMES_LIST
abbrev pub timeframes_list : List Timeframe
timeframes_list =
    period_m1 ∷ period_m2 ∷ period_m3 ∷ period_m4 ∷ period_m5 ∷ period_m6 ∷ period_m10 ∷ period_m12
    ∷ period_m15 ∷ period_m20 ∷ period_m30 ∷ period_h1 ∷ period_h2 ∷ period_h3 ∷ period_h4
    ∷ period_h6 ∷ period_h8 ∷ period_h12 ∷ period_d1 ∷ period_w1 ∷ period_mn1 ∷ []
