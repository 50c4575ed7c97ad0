-- ===== src/Examples/Timeframes.antt =====
-- Timeframes: src/include/classes/Chart.struct.tf.h.
use ea31337_fft.Prelude.{ℕ, ◌*◌, ◌<◌, ◌≤◌, ◌≡◌, ◌⊎◌, refl, arith, none, some}
use ea31337_fft.UserError.{invalid_parameter}
use ea31337_fft.Timeframe.Tables.{Timeframe, period_current, period_h1, period_mn1, tf_value}
use ea31337_fft.Timeframe.Convert.{tf_to_index, index_to_tf, secs_to_tf, tf_to_seconds}
use ea31337_fft.Timeframe.Roundtrip.{IsStandard, meant, index_to_tf-tf_to_index}
use ea31337_fft.Timeframe.Seconds.{IsPeriodSeconds, secs_to_tf-tf_to_seconds, secs_to_tf_sound}

h1-IsStandard : IsStandard period_h1
h1-IsStandard = (λ e. ground (arith, e), λ e. ground (arith, e))

-- A platform on which every timeframe has its length.
abbrev seconds_table : Timeframe → ℕ
seconds_table tf = 60 * tf_value tf

seconds_table-IsPeriodSeconds : IsPeriodSeconds seconds_table
seconds_table-IsPeriodSeconds = record { minutes = λ tf h. refl }

index_to_tf-tf_to_index_example :
    (tf_to_index period_h1 period_current < 21)
    × (index_to_tf (tf_to_index period_h1 period_current) ≡ meant period_h1 period_current)
index_to_tf-tf_to_index_example =
    index_to_tf-tf_to_index period_h1 period_current h1-IsStandard (λ e. ground (arith, e))

secs_to_tf-tf_to_seconds_example :
    secs_to_tf (tf_to_seconds seconds_table period_h1) ≡ (period_h1, none)
secs_to_tf-tf_to_seconds_example =
    secs_to_tf-tf_to_seconds seconds_table period_h1 seconds_table-IsPeriodSeconds h1-IsStandard

secs_to_tf_sound_example :
    ((secs_to_tf 14400).1 ≡ none)
      × ((14400 ≡ 60 * tf_value (secs_to_tf 14400).0)
          ⊎ (((secs_to_tf 14400).0 ≡ period_mn1) × (2419200 ≤ 14400) × (14400 ≤ 2678400)))
    ⊎ (secs_to_tf 14400 ≡ (period_current, some invalid_parameter))
secs_to_tf_sound_example = secs_to_tf_sound 14400
