-- ===== src/Strategies/Manager.antt =====
-- The strategy collection: ENUM_STRATEGY of src/include/strategies/enum.h, and the class that
-- StrategiesManager::StrategyInitByEnum (src/include/strategies/manager.h) instantiates for each.
use ea31337_fft.Prelude.{Option, none, some}
use ea31337_fft.Strategies.Class.{
  StrategyClass, stg_ac, stg_ad, stg_adx, stg_alligator, stg_ama, stg_arrows, stg_asi, stg_atr,
  stg_awesome, stg_bands, stg_bears_power, stg_bulls_power, stg_bwmfi, stg_cci, stg_chaikin,
  stg_de_marker, stg_dema, stg_dpo, stg_envelopes, stg_fft_phase_clock_color_wave,
  stg_fft_phase_clock_color_wave_signal, stg_force, stg_fractals, stg_gator, stg_heiken_ashi,
  stg_ichimoku, stg_indicator, stg_ma, stg_ma_breakout, stg_ma_cross_pivot, stg_ma_cross_shift,
  stg_ma_cross_sup_res, stg_ma_trend, stg_macd, stg_mfi, stg_momentum, stg_obv, stg_os_ma,
  stg_oscillator, stg_oscillator_cross, stg_oscillator_cross_shift, stg_oscillator_cross_zero,
  stg_oscillator_divergence, stg_oscillator_multi, stg_oscillator_range, stg_oscillator_trend,
  stg_pattern, stg_pinbar, stg_pivot, stg_rsi, stg_rvi, stg_sar, stg_std_dev, stg_stochastic,
  stg_tma_true, stg_tmat_svebb, stg_wpr, stg_zig_zag,
}

pub data CollectionStrategy : Type 0 where
  strat_none : CollectionStrategy
  strat_ac : CollectionStrategy
  strat_ad : CollectionStrategy
  strat_adx : CollectionStrategy
  strat_alligator : CollectionStrategy
  strat_ama : CollectionStrategy
  strat_arrows : CollectionStrategy
  strat_asi : CollectionStrategy
  strat_atr : CollectionStrategy
  strat_awesome : CollectionStrategy
  strat_bands : CollectionStrategy
  strat_bears_power : CollectionStrategy
  strat_bulls_power : CollectionStrategy
  strat_bwmfi : CollectionStrategy
  strat_cci : CollectionStrategy
  strat_chaikin : CollectionStrategy
  strat_dema : CollectionStrategy
  strat_demarker : CollectionStrategy
  strat_dpo : CollectionStrategy
  strat_envelopes : CollectionStrategy
  strat_ewo : CollectionStrategy
  strat_force : CollectionStrategy
  strat_fractals : CollectionStrategy
  strat_gator : CollectionStrategy
  strat_heiken_ashi : CollectionStrategy
  strat_ichimoku : CollectionStrategy
  strat_indicator : CollectionStrategy
  strat_ma : CollectionStrategy
  strat_ma_breakout : CollectionStrategy
  strat_ma_cross_candle : CollectionStrategy
  strat_ma_cross_pivot : CollectionStrategy
  strat_ma_cross_shift : CollectionStrategy
  strat_ma_cross_sup_res : CollectionStrategy
  strat_ma_cross_timeframe : CollectionStrategy
  strat_ma_trend : CollectionStrategy
  strat_macd : CollectionStrategy
  strat_mfi : CollectionStrategy
  strat_momentum : CollectionStrategy
  strat_obv : CollectionStrategy
  strat_oscillator : CollectionStrategy
  strat_oscillator_divergence : CollectionStrategy
  strat_oscillator_martingale : CollectionStrategy
  strat_oscillator_multi : CollectionStrategy
  strat_oscillator_cross : CollectionStrategy
  strat_oscillator_cross_shift : CollectionStrategy
  strat_oscillator_cross_timeframe : CollectionStrategy
  strat_oscillator_cross_zero : CollectionStrategy
  strat_oscillator_overlay : CollectionStrategy
  strat_oscillator_range : CollectionStrategy
  strat_oscillator_trend : CollectionStrategy
  strat_osma : CollectionStrategy
  strat_pattern : CollectionStrategy
  strat_pinbar : CollectionStrategy
  strat_pivot : CollectionStrategy
  strat_retracement : CollectionStrategy
  strat_rsi : CollectionStrategy
  strat_rvi : CollectionStrategy
  strat_sar : CollectionStrategy
  strat_stddev : CollectionStrategy
  strat_stochastic : CollectionStrategy
  strat_sve_bb : CollectionStrategy
  strat_tmat_svebb : CollectionStrategy
  strat_tma_true : CollectionStrategy
  strat_wpr : CollectionStrategy
  strat_zigzag : CollectionStrategy
  strat_fft_phaseclock_colorwave : CollectionStrategy
  strat_fft_phaseclock_colorwave_signal : CollectionStrategy

-- The `switch` of StrategyInitByEnum: `none` is the NULL that it returns.
unfoldable pub manager_class : CollectionStrategy → Option StrategyClass
manager_class strat_ac = some stg_ac
manager_class strat_ad = some stg_ad
manager_class strat_adx = some stg_adx
manager_class strat_alligator = some stg_alligator
manager_class strat_ama = some stg_ama
manager_class strat_arrows = some stg_arrows
manager_class strat_asi = some stg_asi
manager_class strat_atr = some stg_atr
manager_class strat_awesome = some stg_awesome
manager_class strat_bands = some stg_bands
manager_class strat_bears_power = some stg_bears_power
manager_class strat_bulls_power = some stg_bulls_power
manager_class strat_bwmfi = some stg_bwmfi
manager_class strat_cci = some stg_cci
manager_class strat_chaikin = some stg_chaikin
manager_class strat_dema = some stg_dema
manager_class strat_demarker = some stg_de_marker
manager_class strat_dpo = some stg_dpo
manager_class strat_envelopes = some stg_envelopes
manager_class strat_force = some stg_force
manager_class strat_fractals = some stg_fractals
manager_class strat_gator = some stg_gator
manager_class strat_heiken_ashi = some stg_heiken_ashi
manager_class strat_ichimoku = some stg_ichimoku
manager_class strat_indicator = some stg_indicator
manager_class strat_ma = some stg_ma
manager_class strat_ma_breakout = some stg_ma_breakout
manager_class strat_ma_cross_pivot = some stg_ma_cross_pivot
manager_class strat_ma_cross_shift = some stg_ma_cross_shift
manager_class strat_ma_cross_sup_res = some stg_ma_cross_sup_res
manager_class strat_ma_trend = some stg_ma_trend
manager_class strat_macd = some stg_macd
manager_class strat_mfi = some stg_mfi
manager_class strat_momentum = some stg_momentum
manager_class strat_obv = some stg_obv
manager_class strat_oscillator = some stg_oscillator
manager_class strat_oscillator_divergence = some stg_oscillator_divergence
manager_class strat_oscillator_multi = some stg_oscillator_multi
manager_class strat_oscillator_cross = some stg_oscillator_cross
manager_class strat_oscillator_cross_shift = some stg_oscillator_cross_shift
manager_class strat_oscillator_cross_zero = some stg_oscillator_cross_zero
manager_class strat_oscillator_range = some stg_oscillator_range
manager_class strat_oscillator_trend = some stg_oscillator_trend
manager_class strat_osma = some stg_os_ma
manager_class strat_pattern = some stg_pattern
manager_class strat_pinbar = some stg_pinbar
manager_class strat_pivot = some stg_pivot
manager_class strat_rsi = some stg_rsi
manager_class strat_rvi = some stg_rvi
manager_class strat_sar = some stg_sar
manager_class strat_stddev = some stg_std_dev
manager_class strat_stochastic = some stg_stochastic
manager_class strat_tmat_svebb = some stg_tmat_svebb
manager_class strat_tma_true = some stg_tma_true
manager_class strat_wpr = some stg_wpr
manager_class strat_zigzag = some stg_zig_zag
manager_class strat_fft_phaseclock_colorwave = some stg_fft_phase_clock_color_wave
manager_class strat_fft_phaseclock_colorwave_signal = some stg_fft_phase_clock_color_wave_signal
manager_class _ = none
