-- ===== src/Strategies/Libre.antt =====
-- The strategies of the EA: ENUM_STRATEGY of src/include/enum.h, and the class that
-- EALibre::StrategyAddToTfs (src/include/ea.h) instantiates for each.
use ea31337_fft.Prelude.{ℕ, Option, none, some}
use ea31337_fft.Strategies.Class.{
  StrategyClass, stg_ac, stg_ad, stg_adx, stg_alligator, stg_ama, stg_arrows, stg_asi, stg_atr,
  stg_awesome, stg_bands, stg_bears_power, stg_bulls_power, stg_bwmfi, stg_cci, stg_chaikin,
  stg_de_marker, stg_dema, stg_envelopes, stg_fft_phase_clock_color_wave,
  stg_fft_phase_clock_color_wave_signal, stg_force, stg_fractals, stg_gator, stg_heiken_ashi,
  stg_ichimoku, stg_indicator, stg_ma, stg_ma_cross_pivot, stg_ma_cross_shift, stg_ma_cross_sup_res,
  stg_macd, stg_mfi, stg_momentum, stg_obv, stg_os_ma, stg_oscillator, stg_oscillator_cross,
  stg_oscillator_cross_shift, stg_oscillator_cross_zero, stg_oscillator_divergence,
  stg_oscillator_multi, stg_oscillator_range, stg_pattern, stg_pinbar, stg_pivot, stg_rsi, stg_rvi,
  stg_sar, stg_std_dev, stg_stochastic, stg_wpr, stg_zig_zag,
}

pub data LibreStrategy : Type 0 where
  strat_none : LibreStrategy
  strat_ac : LibreStrategy
  strat_ad : LibreStrategy
  strat_adx : LibreStrategy
  strat_alligator : LibreStrategy
  strat_ama : LibreStrategy
  strat_arrows : LibreStrategy
  strat_asi : LibreStrategy
  strat_atr : LibreStrategy
  strat_awesome : LibreStrategy
  strat_bands : LibreStrategy
  strat_bears_power : LibreStrategy
  strat_bulls_power : LibreStrategy
  strat_bwmfi : LibreStrategy
  strat_cci : LibreStrategy
  strat_chaikin : LibreStrategy
  strat_dema : LibreStrategy
  strat_demarker : LibreStrategy
  strat_envelopes : LibreStrategy
  strat_force : LibreStrategy
  strat_fractals : LibreStrategy
  strat_gator : LibreStrategy
  strat_heiken_ashi : LibreStrategy
  strat_ichimoku : LibreStrategy
  strat_indicator : LibreStrategy
  strat_ma : LibreStrategy
  strat_ma_cross_pivot : LibreStrategy
  strat_ma_cross_shift : LibreStrategy
  strat_ma_cross_sup_res : LibreStrategy
  strat_macd : LibreStrategy
  strat_mfi : LibreStrategy
  strat_momentum : LibreStrategy
  strat_obv : LibreStrategy
  strat_oscillator : LibreStrategy
  strat_oscillator_divergence : LibreStrategy
  strat_oscillator_multi : LibreStrategy
  strat_oscillator_cross : LibreStrategy
  strat_oscillator_cross_shift : LibreStrategy
  strat_oscillator_cross_zero : LibreStrategy
  strat_oscillator_range : LibreStrategy
  strat_osma : LibreStrategy
  strat_pattern : LibreStrategy
  strat_pinbar : LibreStrategy
  strat_pivot : LibreStrategy
  strat_retracement : LibreStrategy
  strat_rsi : LibreStrategy
  strat_rvi : LibreStrategy
  strat_sar : LibreStrategy
  strat_stddev : LibreStrategy
  strat_stochastic : LibreStrategy
  strat_wpr : LibreStrategy
  strat_zigzag : LibreStrategy
  strat_fft_phaseclock_colorwave : LibreStrategy
  strat_fft_phaseclock_colorwave_signal : LibreStrategy

-- The integer behind an enumerator.
unfoldable pub strategy_value : LibreStrategy → ℕ
strategy_value strat_none = 0
strategy_value strat_ac = 1
strategy_value strat_ad = 2
strategy_value strat_adx = 3
strategy_value strat_alligator = 4
strategy_value strat_ama = 5
strategy_value strat_arrows = 6
strategy_value strat_asi = 7
strategy_value strat_atr = 8
strategy_value strat_awesome = 9
strategy_value strat_bands = 10
strategy_value strat_bears_power = 11
strategy_value strat_bulls_power = 12
strategy_value strat_bwmfi = 13
strategy_value strat_cci = 14
strategy_value strat_chaikin = 15
strategy_value strat_dema = 16
strategy_value strat_demarker = 17
strategy_value strat_envelopes = 18
strategy_value strat_force = 19
strategy_value strat_fractals = 20
strategy_value strat_gator = 21
strategy_value strat_heiken_ashi = 22
strategy_value strat_ichimoku = 23
strategy_value strat_indicator = 24
strategy_value strat_ma = 25
strategy_value strat_ma_cross_pivot = 26
strategy_value strat_ma_cross_shift = 27
strategy_value strat_ma_cross_sup_res = 28
strategy_value strat_macd = 29
strategy_value strat_mfi = 30
strategy_value strat_momentum = 31
strategy_value strat_obv = 32
strategy_value strat_oscillator = 33
strategy_value strat_oscillator_divergence = 34
strategy_value strat_oscillator_multi = 35
strategy_value strat_oscillator_cross = 36
strategy_value strat_oscillator_cross_shift = 37
strategy_value strat_oscillator_cross_zero = 38
strategy_value strat_oscillator_range = 39
strategy_value strat_osma = 40
strategy_value strat_pattern = 41
strategy_value strat_pinbar = 42
strategy_value strat_pivot = 43
strategy_value strat_retracement = 44
strategy_value strat_rsi = 45
strategy_value strat_rvi = 46
strategy_value strat_sar = 47
strategy_value strat_stddev = 48
strategy_value strat_stochastic = 49
strategy_value strat_wpr = 50
strategy_value strat_zigzag = 51
strategy_value strat_fft_phaseclock_colorwave = 52
strategy_value strat_fft_phaseclock_colorwave_signal = 53

-- The `switch` of StrategyAddToTfs: `none` stands for STRAT_NONE and the default case.
unfoldable pub libre_class : LibreStrategy → Option StrategyClass
libre_class strat_ac = some stg_ac
libre_class strat_ad = some stg_ad
libre_class strat_adx = some stg_adx
libre_class strat_alligator = some stg_alligator
libre_class strat_ama = some stg_ama
libre_class strat_arrows = some stg_arrows
libre_class strat_asi = some stg_asi
libre_class strat_atr = some stg_atr
libre_class strat_awesome = some stg_awesome
libre_class strat_bands = some stg_bands
libre_class strat_bears_power = some stg_bears_power
libre_class strat_bulls_power = some stg_bulls_power
libre_class strat_bwmfi = some stg_bwmfi
libre_class strat_cci = some stg_cci
libre_class strat_chaikin = some stg_chaikin
libre_class strat_dema = some stg_dema
libre_class strat_demarker = some stg_de_marker
libre_class strat_envelopes = some stg_envelopes
libre_class strat_force = some stg_force
libre_class strat_fractals = some stg_fractals
libre_class strat_gator = some stg_gator
libre_class strat_heiken_ashi = some stg_heiken_ashi
libre_class strat_ichimoku = some stg_ichimoku
libre_class strat_indicator = some stg_indicator
libre_class strat_ma = some stg_ma
libre_class strat_ma_cross_pivot = some stg_ma_cross_pivot
libre_class strat_ma_cross_shift = some stg_ma_cross_shift
libre_class strat_ma_cross_sup_res = some stg_ma_cross_sup_res
libre_class strat_macd = some stg_macd
libre_class strat_mfi = some stg_mfi
libre_class strat_momentum = some stg_momentum
libre_class strat_obv = some stg_obv
libre_class strat_oscillator = some stg_oscillator
libre_class strat_oscillator_divergence = some stg_oscillator_divergence
libre_class strat_oscillator_multi = some stg_oscillator_multi
libre_class strat_oscillator_cross = some stg_oscillator_cross
libre_class strat_oscillator_cross_shift = some stg_oscillator_cross_shift
libre_class strat_oscillator_cross_zero = some stg_oscillator_cross_zero
libre_class strat_oscillator_range = some stg_oscillator_range
libre_class strat_osma = some stg_os_ma
libre_class strat_pattern = some stg_pattern
libre_class strat_pinbar = some stg_pinbar
libre_class strat_pivot = some stg_pivot
libre_class strat_rsi = some stg_rsi
libre_class strat_rvi = some stg_rvi
libre_class strat_sar = some stg_sar
libre_class strat_stddev = some stg_std_dev
libre_class strat_stochastic = some stg_stochastic
libre_class strat_wpr = some stg_wpr
libre_class strat_zigzag = some stg_zig_zag
libre_class strat_fft_phaseclock_colorwave = some stg_fft_phase_clock_color_wave
libre_class strat_fft_phaseclock_colorwave_signal = some stg_fft_phase_clock_color_wave_signal
libre_class _ = none
