-- ===== src/Strategies/Class.antt =====
-- The strategy classes that the dispatchers of src/include/ea.h and
-- src/include/strategies/manager.h name.
pub data StrategyClass : Type 0 where
  stg_ac : StrategyClass
  stg_ad : StrategyClass
  stg_adx : StrategyClass
  stg_alligator : StrategyClass
  stg_ama : StrategyClass
  stg_arrows : StrategyClass
  stg_asi : StrategyClass
  stg_atr : StrategyClass
  stg_awesome : StrategyClass
  stg_bands : StrategyClass
  stg_bears_power : StrategyClass
  stg_bulls_power : StrategyClass
  stg_bwmfi : StrategyClass
  stg_cci : StrategyClass
  stg_chaikin : StrategyClass
  stg_de_marker : StrategyClass
  stg_dema : StrategyClass
  stg_dpo : StrategyClass
  stg_envelopes : StrategyClass
  stg_fft_phase_clock_color_wave : StrategyClass
  stg_fft_phase_clock_color_wave_signal : StrategyClass
  stg_force : StrategyClass
  stg_fractals : StrategyClass
  stg_gator : StrategyClass
  stg_heiken_ashi : StrategyClass
  stg_ichimoku : StrategyClass
  stg_indicator : StrategyClass
  stg_ma : StrategyClass
  stg_ma_breakout : StrategyClass
  stg_ma_cross_pivot : StrategyClass
  stg_ma_cross_shift : StrategyClass
  stg_ma_cross_sup_res : StrategyClass
  stg_ma_trend : StrategyClass
  stg_macd : StrategyClass
  stg_mfi : StrategyClass
  stg_momentum : StrategyClass
  stg_obv : StrategyClass
  stg_os_ma : StrategyClass
  stg_oscillator : StrategyClass
  stg_oscillator_cross : StrategyClass
  stg_oscillator_cross_shift : StrategyClass
  stg_oscillator_cross_zero : StrategyClass
  stg_oscillator_divergence : StrategyClass
  stg_oscillator_multi : StrategyClass
  stg_oscillator_range : StrategyClass
  stg_oscillator_trend : StrategyClass
  stg_pattern : StrategyClass
  stg_pinbar : StrategyClass
  stg_pivot : StrategyClass
  stg_rsi : StrategyClass
  stg_rvi : StrategyClass
  stg_sar : StrategyClass
  stg_std_dev : StrategyClass
  stg_stochastic : StrategyClass
  stg_tma_true : StrategyClass
  stg_tmat_svebb : StrategyClass
  stg_wpr : StrategyClass
  stg_zig_zag : StrategyClass
