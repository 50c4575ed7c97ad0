-- ===== src/Strategies/Magic/Blocks.antt =====
-- The blocks of magic numbers of different strategies do not overlap.
use ea31337_fft.Prelude.{
  ℕ, ◌+◌, ◌<◌, ◌≡◌, refl, sym, ap, ◌∙◌, arith, some, List, [], ◌∷◌, get_elem?,
}
use ea31337_fft.Strategies.Libre
use ea31337_fft.Strategies.Libre.{LibreStrategy, strategy_value}
use ea31337_fft.Strategies.Magic.{block_magic}

abbrev all_strategies : List LibreStrategy
all_strategies =
    Libre.strat_none ∷ Libre.strat_ac ∷ Libre.strat_ad ∷ Libre.strat_adx ∷ Libre.strat_alligator
    ∷ Libre.strat_ama ∷ Libre.strat_arrows ∷ Libre.strat_asi ∷ Libre.strat_atr ∷ Libre.strat_awesome
    ∷ Libre.strat_bands ∷ Libre.strat_bears_power ∷ Libre.strat_bulls_power ∷ Libre.strat_bwmfi
    ∷ Libre.strat_cci ∷ Libre.strat_chaikin ∷ Libre.strat_dema ∷ Libre.strat_demarker
    ∷ Libre.strat_envelopes ∷ Libre.strat_force ∷ Libre.strat_fractals ∷ Libre.strat_gator
    ∷ Libre.strat_heiken_ashi ∷ Libre.strat_ichimoku ∷ Libre.strat_indicator ∷ Libre.strat_ma
    ∷ Libre.strat_ma_cross_pivot ∷ Libre.strat_ma_cross_shift ∷ Libre.strat_ma_cross_sup_res
    ∷ Libre.strat_macd ∷ Libre.strat_mfi ∷ Libre.strat_momentum ∷ Libre.strat_obv
    ∷ Libre.strat_oscillator ∷ Libre.strat_oscillator_divergence ∷ Libre.strat_oscillator_multi
    ∷ Libre.strat_oscillator_cross ∷ Libre.strat_oscillator_cross_shift
    ∷ Libre.strat_oscillator_cross_zero ∷ Libre.strat_oscillator_range ∷ Libre.strat_osma
    ∷ Libre.strat_pattern ∷ Libre.strat_pinbar ∷ Libre.strat_pivot ∷ Libre.strat_retracement
    ∷ Libre.strat_rsi ∷ Libre.strat_rvi ∷ Libre.strat_sar ∷ Libre.strat_stddev
    ∷ Libre.strat_stochastic ∷ Libre.strat_wpr ∷ Libre.strat_zigzag
    ∷ Libre.strat_fft_phaseclock_colorwave ∷ Libre.strat_fft_phaseclock_colorwave_signal ∷ []

get_elem?-strategy_value :
    (s : LibreStrategy) → get_elem? all_strategies (strategy_value s) ≡ some s
unfolding strategy_value
get_elem?-strategy_value Libre.strat_none = refl
get_elem?-strategy_value _ = refl

strategy_value-lt : (s : LibreStrategy) → strategy_value s < 54
unfolding strategy_value
strategy_value-lt Libre.strat_none = omega arith
strategy_value-lt _ = omega arith

strategy_value-injective : (s t : LibreStrategy) → strategy_value s ≡ strategy_value t → s ≡ t
strategy_value-injective s t h =
    let back : some s ≡ some t =
      sym (get_elem?-strategy_value s)
      ∙ ap (get_elem? all_strategies) h
      ∙ get_elem?-strategy_value t in
    cc

-- Whatever the EA's first magic number, and also where the 32-bit sum wraps round, two strategies
-- have the same magic number at the indices of two timeframes only if they are one strategy and
-- the indices are one index.
pub block_magic-injective :
    (ea_magic : ℕ) (s t : LibreStrategy) (i j : ℕ)
    → i < 21
    → j < 21
    → block_magic ea_magic s + i ≡ block_magic ea_magic t + j
    → (s ≡ t) × (i ≡ j)
unfolding block_magic
block_magic-injective ea_magic s t i j p q h = (
  strategy_value-injective s t (omega (arith, strategy_value-lt s, strategy_value-lt t)),
  omega (arith, strategy_value-lt s, strategy_value-lt t),
)
