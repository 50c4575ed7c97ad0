-- ===== src/Timeframe/Seconds.antt =====
-- Timeframes and their lengths in seconds.
use ea31337_fft.Prelude.{ℕ, ◌*◌, ◌≤◌, ◌≡◌, ◌⊎◌, refl, arith, none, some}
use ea31337_fft.UserError.{invalid_parameter}
use ea31337_fft.Timeframe.Tables.{Timeframe, period_current, period_mn1, wrong_value, tf_value}
use ea31337_fft.Timeframe.Convert.{secs_to_tf, tf_to_seconds}
use ea31337_fft.Timeframe.Roundtrip.{IsStandard}

-- What the platform documents of PeriodSeconds: the length of each timeframe, a month being
-- 30 days. The values of ENUM_TIMEFRAMES are these lengths in minutes.
pub record IsPeriodSeconds (period_seconds : Timeframe → ℕ) : Type 0 where
  pub minutes : (tf : Timeframe) → IsStandard tf → period_seconds tf ≡ 60 * tf_value tf

-- SecsToTf gives back every timeframe from its length in seconds, and reports no error.
pub secs_to_tf-tf_to_seconds :
    (period_seconds : Timeframe → ℕ) (tf : Timeframe)
    → IsPeriodSeconds period_seconds
    → IsStandard tf
    → secs_to_tf (tf_to_seconds period_seconds tf) ≡ (tf, none)
unfolding secs_to_tf tf_to_seconds tf_value
secs_to_tf-tf_to_seconds period_seconds period_current d h = absurd (h.0 refl)
secs_to_tf-tf_to_seconds period_seconds wrong_value d h = absurd (h.1 refl)
secs_to_tf-tf_to_seconds period_seconds _ d h = rw (d.minutes _ h)

-- A number of seconds that SecsToTf takes without an error is the length of the timeframe that it
-- returns, or between 28 and 31 days for the month; where it reports an error it returns
-- PERIOD_CURRENT.
pub secs_to_tf_sound :
    (secs : ℕ)
    → ((secs_to_tf secs).1 ≡ none)
        × ((secs ≡ 60 * tf_value (secs_to_tf secs).0)
            ⊎ (((secs_to_tf secs).0 ≡ period_mn1) × (2419200 ≤ secs) × (secs ≤ 2678400)))
      ⊎ (secs_to_tf secs ≡ (period_current, some invalid_parameter))
unfolding secs_to_tf tf_value
secs_to_tf_sound secs = ground arith
