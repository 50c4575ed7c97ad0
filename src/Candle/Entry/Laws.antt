-- ===== src/Candle/Entry/Laws.antt =====
-- What a pattern entry says of the candles it was made from.
use ea31337_fft.Prelude.{ℕ, ◌≡◌, refl}
use ea31337_fft.Price.{Prices}
use ea31337_fft.Bits.Digits.{bit_not}
use ea31337_fft.Bits.Flags.{has_any, add_flags, remove_flags, set_flag}
use ea31337_fft.Candle.Bar.{BarOhlc}
use ea31337_fft.Candle.Pattern.{check_pattern}
use ea31337_fft.Candle.One.{Pattern1, pattern1_value, check1}
use ea31337_fft.Candle.Two.{Pattern2, pattern2_value, check2}
use ea31337_fft.Candle.Three.{Pattern3, pattern3_value, check3}
use ea31337_fft.Candle.Four.{Pattern4, pattern4_value, check4}
use ea31337_fft.Candle.Five.{Pattern5, pattern5_value, check5}
use ea31337_fft.Candle.Words.One.{check_pattern-pattern_candle1}
use ea31337_fft.Candle.Words.Two.{check_pattern-pattern_candle2}
use ea31337_fft.Candle.Words.Three.{check_pattern-pattern_candle3}
use ea31337_fft.Candle.Words.Four.{check_pattern-pattern_candle4}
use ea31337_fft.Candle.Words.Five.{check_pattern-pattern_candle5}
use ea31337_fft.Candle.Entry.{pattern_entry, entry_at}

module _ {F : Type 0} (p : Prices F) (c : ℕ → BarOhlc F) where
  -- In the entry of some candles, the word at the index k has the bit of a pattern of k candles on
  -- exactly when the pattern is told in the first k of them, for k up to 5; the words from 6 to 10 are 0.
  pub entry_at-pattern_entry :
      (e1 : Pattern1) (e2 : Pattern2) (e3 : Pattern3) (e4 : Pattern4) (e5 : Pattern5)
      → (has_any (entry_at 1 (pattern_entry p c)) (pattern1_value e1) ≡ check1 p e1 (c 0))
        × (has_any (entry_at 2 (pattern_entry p c)) (pattern2_value e2) ≡ check2 p e2 c)
        × (has_any (entry_at 3 (pattern_entry p c)) (pattern3_value e3) ≡ check3 p e3 c)
        × (has_any (entry_at 4 (pattern_entry p c)) (pattern4_value e4) ≡ check4 p e4 c)
        × (has_any (entry_at 5 (pattern_entry p c)) (pattern5_value e5) ≡ check5 p e5 c)
        × (entry_at 6 (pattern_entry p c) ≡ 0)
        × (entry_at 7 (pattern_entry p c) ≡ 0)
        × (entry_at 8 (pattern_entry p c) ≡ 0)
        × (entry_at 9 (pattern_entry p c) ≡ 0)
        × (entry_at 10 (pattern_entry p c) ≡ 0)
  unfolding entry_at pattern_entry check_pattern add_flags remove_flags set_flag bit_not
  entry_at-pattern_entry e1 e2 e3 e4 e5 = (
    check_pattern-pattern_candle1 p e1 (c 0),
    check_pattern-pattern_candle2 p e2 c,
    check_pattern-pattern_candle3 p e3 c,
    check_pattern-pattern_candle4 p e4 c,
    check_pattern-pattern_candle5 p e5 c,
    refl,
    refl,
    refl,
    refl,
    refl,
  )
