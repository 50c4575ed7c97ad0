-- ===== src/Candle/Words/Four.antt =====
-- The bits of the pattern word of four candles.
use ea31337_fft.Prelude.{ℕ, ◌<◌, ◌≡◌, arith}
use ea31337_fft.Price.{Prices}
use ea31337_fft.Candle.Bar.{BarOhlc}
use ea31337_fft.Candle.Pattern.{check_pattern}
use ea31337_fft.Candle.Four.{
  Pattern4, pattern4_bit, pattern4_value, patterns4, check4, pattern_candle4,
}
use ea31337_fft.Candle.Words.{HasBits, has_any-pattern_word, has_any_none}

patterns4-HasBits : HasBits pattern4_value 0 patterns4
unfolding pattern4_value patterns4
patterns4-HasBits = omega arith

pattern4_bit-lt : (e : Pattern4) → pattern4_bit e < 32
unfolding pattern4_bit
pattern4_bit-lt Pattern4.pattern_none = omega arith
pattern4_bit-lt _ = omega arith

module _ {F : Type 0} (p : Prices F) where
  -- The bit of a pattern in the word of the candles is on exactly when the pattern is told in them.
  pub check_pattern-pattern_candle4 :
      (e : Pattern4) (c : ℕ → BarOhlc F)
      → check_pattern (pattern4_value e) (pattern_candle4 p c) ≡ check4 p e c
  unfolding check_pattern pattern_candle4 pattern4_value patterns4 check4
  check_pattern-pattern_candle4 Pattern4.pattern_none c = has_any_none (pattern_candle4 p c).pattern
  check_pattern-pattern_candle4 e c =
      has_any-pattern_word pattern4_value (λ e. check4 p e c) (pattern4_bit e) patterns4
        (pattern4_bit-lt e) (omega arith) patterns4-HasBits
