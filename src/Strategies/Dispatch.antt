-- ===== src/Strategies/Dispatch.antt =====
-- The two dispatchers: which strategies they know, and that no two of them share a class.
use ea31337_fft.Prelude.{
  Option, none, some, ◌≡◌, refl, ◌⊎◌, inl, inr, arith, sym, ◌↔◌, ◌≢◌, ap, ◌∙◌,
}
use ea31337_fft.Strategies.Class.{StrategyClass}
use ea31337_fft.Strategies.Libre.{LibreStrategy, libre_class}
use ea31337_fft.Strategies.Manager.{CollectionStrategy, manager_class}

-- The enumerator of the collection's header that has the same name.
unfoldable pub same_name : LibreStrategy → CollectionStrategy
same_name LibreStrategy.strat_none = CollectionStrategy.strat_none
same_name LibreStrategy.strat_ac = CollectionStrategy.strat_ac
same_name LibreStrategy.strat_ad = CollectionStrategy.strat_ad
same_name LibreStrategy.strat_adx = CollectionStrategy.strat_adx
same_name LibreStrategy.strat_alligator = CollectionStrategy.strat_alligator
same_name LibreStrategy.strat_ama = CollectionStrategy.strat_ama
same_name LibreStrategy.strat_arrows = CollectionStrategy.strat_arrows
same_name LibreStrategy.strat_asi = CollectionStrategy.strat_asi
same_name LibreStrategy.strat_atr = CollectionStrategy.strat_atr
same_name LibreStrategy.strat_awesome = CollectionStrategy.strat_awesome
same_name LibreStrategy.strat_bands = CollectionStrategy.strat_bands
same_name LibreStrategy.strat_bears_power = CollectionStrategy.strat_bears_power
same_name LibreStrategy.strat_bulls_power = CollectionStrategy.strat_bulls_power
same_name LibreStrategy.strat_bwmfi = CollectionStrategy.strat_bwmfi
same_name LibreStrategy.strat_cci = CollectionStrategy.strat_cci
same_name LibreStrategy.strat_chaikin = CollectionStrategy.strat_chaikin
same_name LibreStrategy.strat_dema = CollectionStrategy.strat_dema
same_name LibreStrategy.strat_demarker = CollectionStrategy.strat_demarker
same_name LibreStrategy.strat_envelopes = CollectionStrategy.strat_envelopes
same_name LibreStrategy.strat_force = CollectionStrategy.strat_force
same_name LibreStrategy.strat_fractals = CollectionStrategy.strat_fractals
same_name LibreStrategy.strat_gator = CollectionStrategy.strat_gator
same_name LibreStrategy.strat_heiken_ashi = CollectionStrategy.strat_heiken_ashi
same_name LibreStrategy.strat_ichimoku = CollectionStrategy.strat_ichimoku
same_name LibreStrategy.strat_indicator = CollectionStrategy.strat_indicator
same_name LibreStrategy.strat_ma = CollectionStrategy.strat_ma
same_name LibreStrategy.strat_ma_cross_pivot = CollectionStrategy.strat_ma_cross_pivot
same_name LibreStrategy.strat_ma_cross_shift = CollectionStrategy.strat_ma_cross_shift
same_name LibreStrategy.strat_ma_cross_sup_res = CollectionStrategy.strat_ma_cross_sup_res
same_name LibreStrategy.strat_macd = CollectionStrategy.strat_macd
same_name LibreStrategy.strat_mfi = CollectionStrategy.strat_mfi
same_name LibreStrategy.strat_momentum = CollectionStrategy.strat_momentum
same_name LibreStrategy.strat_obv = CollectionStrategy.strat_obv
same_name LibreStrategy.strat_oscillator = CollectionStrategy.strat_oscillator
same_name LibreStrategy.strat_oscillator_divergence = CollectionStrategy.strat_oscillator_divergence
same_name LibreStrategy.strat_oscillator_multi = CollectionStrategy.strat_oscillator_multi
same_name LibreStrategy.strat_oscillator_cross = CollectionStrategy.strat_oscillator_cross
same_name LibreStrategy.strat_oscillator_cross_shift =
    CollectionStrategy.strat_oscillator_cross_shift
same_name LibreStrategy.strat_oscillator_cross_zero = CollectionStrategy.strat_oscillator_cross_zero
same_name LibreStrategy.strat_oscillator_range = CollectionStrategy.strat_oscillator_range
same_name LibreStrategy.strat_osma = CollectionStrategy.strat_osma
same_name LibreStrategy.strat_pattern = CollectionStrategy.strat_pattern
same_name LibreStrategy.strat_pinbar = CollectionStrategy.strat_pinbar
same_name LibreStrategy.strat_pivot = CollectionStrategy.strat_pivot
same_name LibreStrategy.strat_retracement = CollectionStrategy.strat_retracement
same_name LibreStrategy.strat_rsi = CollectionStrategy.strat_rsi
same_name LibreStrategy.strat_rvi = CollectionStrategy.strat_rvi
same_name LibreStrategy.strat_sar = CollectionStrategy.strat_sar
same_name LibreStrategy.strat_stddev = CollectionStrategy.strat_stddev
same_name LibreStrategy.strat_stochastic = CollectionStrategy.strat_stochastic
same_name LibreStrategy.strat_wpr = CollectionStrategy.strat_wpr
same_name LibreStrategy.strat_zigzag = CollectionStrategy.strat_zigzag
same_name LibreStrategy.strat_fft_phaseclock_colorwave =
    CollectionStrategy.strat_fft_phaseclock_colorwave
same_name LibreStrategy.strat_fft_phaseclock_colorwave_signal =
    CollectionStrategy.strat_fft_phaseclock_colorwave_signal

-- The EA and the collection's manager instantiate the same class for a strategy of the same name,
-- and both know none where one does.
pub dispatchers_agree : (s : LibreStrategy) → manager_class (same_name s) ≡ libre_class s
unfolding manager_class libre_class same_name
dispatchers_agree LibreStrategy.strat_none = refl
dispatchers_agree _ = refl

-- The strategy that a class stands for.
libre_of_class : StrategyClass → LibreStrategy
libre_of_class StrategyClass.stg_ac = LibreStrategy.strat_ac
libre_of_class StrategyClass.stg_ad = LibreStrategy.strat_ad
libre_of_class StrategyClass.stg_adx = LibreStrategy.strat_adx
libre_of_class StrategyClass.stg_alligator = LibreStrategy.strat_alligator
libre_of_class StrategyClass.stg_ama = LibreStrategy.strat_ama
libre_of_class StrategyClass.stg_arrows = LibreStrategy.strat_arrows
libre_of_class StrategyClass.stg_asi = LibreStrategy.strat_asi
libre_of_class StrategyClass.stg_atr = LibreStrategy.strat_atr
libre_of_class StrategyClass.stg_awesome = LibreStrategy.strat_awesome
libre_of_class StrategyClass.stg_bands = LibreStrategy.strat_bands
libre_of_class StrategyClass.stg_bears_power = LibreStrategy.strat_bears_power
libre_of_class StrategyClass.stg_bulls_power = LibreStrategy.strat_bulls_power
libre_of_class StrategyClass.stg_bwmfi = LibreStrategy.strat_bwmfi
libre_of_class StrategyClass.stg_cci = LibreStrategy.strat_cci
libre_of_class StrategyClass.stg_chaikin = LibreStrategy.strat_chaikin
libre_of_class StrategyClass.stg_de_marker = LibreStrategy.strat_demarker
libre_of_class StrategyClass.stg_dema = LibreStrategy.strat_dema
libre_of_class StrategyClass.stg_dpo = LibreStrategy.strat_none
libre_of_class StrategyClass.stg_envelopes = LibreStrategy.strat_envelopes
libre_of_class StrategyClass.stg_fft_phase_clock_color_wave =
    LibreStrategy.strat_fft_phaseclock_colorwave
libre_of_class StrategyClass.stg_fft_phase_clock_color_wave_signal =
    LibreStrategy.strat_fft_phaseclock_colorwave_signal
libre_of_class StrategyClass.stg_force = LibreStrategy.strat_force
libre_of_class StrategyClass.stg_fractals = LibreStrategy.strat_fractals
libre_of_class StrategyClass.stg_gator = LibreStrategy.strat_gator
libre_of_class StrategyClass.stg_heiken_ashi = LibreStrategy.strat_heiken_ashi
libre_of_class StrategyClass.stg_ichimoku = LibreStrategy.strat_ichimoku
libre_of_class StrategyClass.stg_indicator = LibreStrategy.strat_indicator
libre_of_class StrategyClass.stg_ma = LibreStrategy.strat_ma
libre_of_class StrategyClass.stg_ma_breakout = LibreStrategy.strat_none
libre_of_class StrategyClass.stg_ma_cross_pivot = LibreStrategy.strat_ma_cross_pivot
libre_of_class StrategyClass.stg_ma_cross_shift = LibreStrategy.strat_ma_cross_shift
libre_of_class StrategyClass.stg_ma_cross_sup_res = LibreStrategy.strat_ma_cross_sup_res
libre_of_class StrategyClass.stg_ma_trend = LibreStrategy.strat_none
libre_of_class StrategyClass.stg_macd = LibreStrategy.strat_macd
libre_of_class StrategyClass.stg_mfi = LibreStrategy.strat_mfi
libre_of_class StrategyClass.stg_momentum = LibreStrategy.strat_momentum
libre_of_class StrategyClass.stg_obv = LibreStrategy.strat_obv
libre_of_class StrategyClass.stg_os_ma = LibreStrategy.strat_osma
libre_of_class StrategyClass.stg_oscillator = LibreStrategy.strat_oscillator
libre_of_class StrategyClass.stg_oscillator_cross = LibreStrategy.strat_oscillator_cross
libre_of_class StrategyClass.stg_oscillator_cross_shift = LibreStrategy.strat_oscillator_cross_shift
libre_of_class StrategyClass.stg_oscillator_cross_zero = LibreStrategy.strat_oscillator_cross_zero
libre_of_class StrategyClass.stg_oscillator_divergence = LibreStrategy.strat_oscillator_divergence
libre_of_class StrategyClass.stg_oscillator_multi = LibreStrategy.strat_oscillator_multi
libre_of_class StrategyClass.stg_oscillator_range = LibreStrategy.strat_oscillator_range
libre_of_class StrategyClass.stg_oscillator_trend = LibreStrategy.strat_none
libre_of_class StrategyClass.stg_pattern = LibreStrategy.strat_pattern
libre_of_class StrategyClass.stg_pinbar = LibreStrategy.strat_pinbar
libre_of_class StrategyClass.stg_pivot = LibreStrategy.strat_pivot
libre_of_class StrategyClass.stg_rsi = LibreStrategy.strat_rsi
libre_of_class StrategyClass.stg_rvi = LibreStrategy.strat_rvi
libre_of_class StrategyClass.stg_sar = LibreStrategy.strat_sar
libre_of_class StrategyClass.stg_std_dev = LibreStrategy.strat_stddev
libre_of_class StrategyClass.stg_stochastic = LibreStrategy.strat_stochastic
libre_of_class StrategyClass.stg_tma_true = LibreStrategy.strat_none
libre_of_class StrategyClass.stg_tmat_svebb = LibreStrategy.strat_none
libre_of_class StrategyClass.stg_wpr = LibreStrategy.strat_wpr
libre_of_class StrategyClass.stg_zig_zag = LibreStrategy.strat_zigzag

class_of_back : Option StrategyClass → LibreStrategy
class_of_back none = LibreStrategy.strat_none
class_of_back (some c) = libre_of_class c

back-class :
    (s : LibreStrategy) → s ≢ LibreStrategy.strat_retracement → class_of_back (libre_class s) ≡ s
unfolding libre_class libre_of_class class_of_back
back-class LibreStrategy.strat_none h = refl
back-class LibreStrategy.strat_retracement h = absurd (h refl)
back-class _ h = refl

-- The EA knows every strategy of its menu but the empty choice and STRAT_RETRACEMENT.
pub undispatched_iff :
    (s : LibreStrategy)
    → (libre_class s ≡ none)
      ↔ ((s ≡ LibreStrategy.strat_none) ⊎ (s ≡ LibreStrategy.strat_retracement))
unfolding libre_class
undispatched_iff LibreStrategy.strat_none = (λ e. inl refl, λ e. refl)
undispatched_iff LibreStrategy.strat_retracement = (λ e. inr refl, λ e. refl)
undispatched_iff _ = ground arith

class_back : (s : LibreStrategy) (c : StrategyClass) → libre_class s ≡ some c → libre_of_class c ≡ s
unfolding class_of_back libre_class
class_back s c h = sym (ap class_of_back h) ∙ back-class s (λ e. retracement e)
  where
    retracement : s ≡ LibreStrategy.strat_retracement → ⊥
    retracement e = let k : none ≡ some c = sym (ap libre_class e) ∙ h in cc

-- No two strategies of the EA share a class.
pub libre_class-injective :
    (s t : LibreStrategy) (c : StrategyClass)
    → libre_class s ≡ some c
    → libre_class t ≡ some c
    → s ≡ t
libre_class-injective s t c h k = sym (class_back s c h) ∙ class_back t c k
