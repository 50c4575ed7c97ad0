-- ===== src/Candle/Words/Three.antt =====
-- The bits of the pattern word of three candles.
use ea31337_fft.Prelude.{ℕ, ◌<◌, ◌≡◌, arith}
use ea31337_fft.Price.{Prices}
use ea31337_fft.Candle.Bar.{BarOhlc}
use ea31337_fft.Candle.Pattern.{check_pattern}
use ea31337_fft.Candle.Three.{
  Pattern3, pattern3_bit, pattern3_value, patterns3, check3, pattern_candle3,
}
use ea31337_fft.Candle.Words.{HasBits, has_any-pattern_word, has_any_none}

patterns3-HasBits : HasBits pattern3_value 0 patterns3
unfolding pattern3_value patterns3
patterns3-HasBits = omega arith

pattern3_bit-lt : (e : Pattern3) → pattern3_bit e < 32
unfolding pattern3_bit
pattern3_bit-lt Pattern3.pattern_none = omega arith
pattern3_bit-lt _ = omega arith

module _ {F : Type 0} (p : Prices F) where
  -- The bit of a pattern in the word of the candles is on exactly when the pattern is told in them.
  pub check_pattern-pattern_candle3 :
      (e : Pattern3) (c : ℕ → BarOhlc F)
      → check_pattern (pattern3_value e) (pattern_candle3 p c) ≡ check3 p e c
  unfolding check_pattern pattern_candle3 pattern3_value patterns3 check3
  check_pattern-pattern_candle3 Pattern3.pattern_none c = has_any_none (pattern_candle3 p c).pattern
  check_pattern-pattern_candle3 e c =
      has_any-pattern_word pattern3_value (λ e. check3 p e c) (pattern3_bit e) patterns3
        (pattern3_bit-lt e) (omega arith) patterns3-HasBits
