-- ===== src/Candle/Words/Five.antt =====
-- The bits of the pattern word of five candles.
use ea31337_fft.Prelude.{ℕ, ◌<◌, ◌≡◌, arith}
use ea31337_fft.Price.{Prices}
use ea31337_fft.Candle.Bar.{BarOhlc}
use ea31337_fft.Candle.Pattern.{check_pattern}
use ea31337_fft.Candle.Five.{
  Pattern5, pattern5_bit, pattern5_value, patterns5, check5, pattern_candle5,
}
use ea31337_fft.Candle.Words.{HasBits, has_any-pattern_word, has_any_none}

patterns5-HasBits : HasBits pattern5_value 0 patterns5
unfolding pattern5_value patterns5
patterns5-HasBits = omega arith

pattern5_bit-lt : (e : Pattern5) → pattern5_bit e < 32
unfolding pattern5_bit
pattern5_bit-lt Pattern5.pattern_none = omega arith
pattern5_bit-lt _ = omega arith

module _ {F : Type 0} (p : Prices F) where
  -- The bit of a pattern in the word of the candles is on exactly when the pattern is told in them.
  pub check_pattern-pattern_candle5 :
      (e : Pattern5) (c : ℕ → BarOhlc F)
      → check_pattern (pattern5_value e) (pattern_candle5 p c) ≡ check5 p e c
  unfolding check_pattern pattern_candle5 pattern5_value patterns5 check5
  check_pattern-pattern_candle5 Pattern5.pattern_none c = has_any_none (pattern_candle5 p c).pattern
  check_pattern-pattern_candle5 e c =
      has_any-pattern_word pattern5_value (λ e. check5 p e c) (pattern5_bit e) patterns5
        (pattern5_bit-lt e) (omega arith) patterns5-HasBits
