-- ===== src/Candle/Words/Two.antt =====
-- The bits of the pattern word of two candles.
use ea31337_fft.Prelude.{ℕ, ◌<◌, ◌≡◌, arith}
use ea31337_fft.Price.{Prices}
use ea31337_fft.Candle.Bar.{BarOhlc}
use ea31337_fft.Candle.Pattern.{check_pattern}
use ea31337_fft.Candle.Two.{
  Pattern2, pattern2_bit, pattern2_value, patterns2, check2, pattern_candle2,
}
use ea31337_fft.Candle.Words.{HasBits, has_any-pattern_word, has_any_none}

patterns2-HasBits : HasBits pattern2_value 0 patterns2
unfolding pattern2_value patterns2
patterns2-HasBits = omega arith

pattern2_bit-lt : (e : Pattern2) → pattern2_bit e < 32
unfolding pattern2_bit
pattern2_bit-lt Pattern2.pattern_none = omega arith
pattern2_bit-lt _ = omega arith

module _ {F : Type 0} (p : Prices F) where
  -- The bit of a pattern in the word of the candles is on exactly when the pattern is told in them.
  pub check_pattern-pattern_candle2 :
      (e : Pattern2) (c : ℕ → BarOhlc F)
      → check_pattern (pattern2_value e) (pattern_candle2 p c) ≡ check2 p e c
  unfolding check_pattern pattern_candle2 pattern2_value patterns2 check2
  check_pattern-pattern_candle2 Pattern2.pattern_none c = has_any_none (pattern_candle2 p c).pattern
  check_pattern-pattern_candle2 e c =
      has_any-pattern_word pattern2_value (λ e. check2 p e c) (pattern2_bit e) patterns2
        (pattern2_bit-lt e) (omega arith) patterns2-HasBits
