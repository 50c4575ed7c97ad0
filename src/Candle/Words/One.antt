-- ===== src/Candle/Words/One.antt =====
-- The bits of the pattern word of one candle.
use ea31337_fft.Prelude.{◌<◌, ◌≡◌, arith}
use ea31337_fft.Price.{Prices}
use ea31337_fft.Candle.Bar.{BarOhlc}
use ea31337_fft.Candle.Pattern.{check_pattern}
use ea31337_fft.Candle.One.{
  Pattern1, pattern1_bit, pattern1_value, patterns1, check1, pattern_candle1,
}
use ea31337_fft.Candle.Words.{HasBits, has_any-pattern_word, has_any_none}

patterns1-HasBits : HasBits pattern1_value 0 patterns1
unfolding pattern1_value patterns1
patterns1-HasBits = omega arith

pattern1_bit-lt : (e : Pattern1) → pattern1_bit e < 32
unfolding pattern1_bit
pattern1_bit-lt Pattern1.pattern_none = omega arith
pattern1_bit-lt _ = omega arith

module _ {F : Type 0} (p : Prices F) where
  -- The bit of a pattern in the word of the candles is on exactly when the pattern is told in them.
  pub check_pattern-pattern_candle1 :
      (e : Pattern1) (c : BarOhlc F)
      → check_pattern (pattern1_value e) (pattern_candle1 p c) ≡ check1 p e c
  unfolding check_pattern pattern_candle1 pattern1_value patterns1 check1
  check_pattern-pattern_candle1 Pattern1.pattern_none c = has_any_none (pattern_candle1 p c).pattern
  check_pattern-pattern_candle1 e c =
      has_any-pattern_word pattern1_value (λ e. check1 p e c) (pattern1_bit e) patterns1
        (pattern1_bit-lt e) (omega arith) patterns1-HasBits
