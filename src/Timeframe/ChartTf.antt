-- ===== src/Timeframe/ChartTf.antt =====
-- The structure ChartTf of src/include/classes/Chart.struct.tf.h: a timeframe and its index.
use ea31337_fft.Prelude.{ℕ}
use ea31337_fft.Timeframe.Tables.{Timeframe}
use ea31337_fft.Timeframe.Convert.{index_to_tf, tf_to_index}

pub record ChartTf : Type 0 where
  pub tf : Timeframe
  pub tfi : ℕ

-- `period` is the platform's `_Period`.
module _ (period : Timeframe) where
  -- ChartTf(ENUM_TIMEFRAMES)
  unfoldable pub of_tf : Timeframe → ChartTf
  of_tf t = record { tf = t; tfi = tf_to_index period t }

  -- ChartTf::SetTf
  unfoldable pub set_tf : Timeframe → ChartTf → ChartTf
  set_tf t c = record c { tf = t; tfi = tf_to_index period t }

-- ChartTf(ENUM_TIMEFRAMES_INDEX)
unfoldable pub of_index : ℕ → ChartTf
of_index i = record { tf = index_to_tf i; tfi = i }

-- ChartTf::SetIndex
unfoldable pub set_index : ℕ → ChartTf → ChartTf
set_index i c = record c { tf = index_to_tf i; tfi = i }
