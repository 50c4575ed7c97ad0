-- ===== src/Candle/Entry.antt =====
-- The structures PatternCandle6 to PatternCandle10, which know no pattern, and PatternEntry of
-- src/include/classes/Pattern.struct.h.
use ea31337_fft.Prelude.{ℕ, zero, suc, ◌+◌, ◌^◌, Bool, false, ◌==◌, if◌then◌else◌}
use ea31337_fft.Price.{Prices}
use ea31337_fft.Candle.Bar.{BarOhlc}
use ea31337_fft.Candle.Pattern.{PatternCandle, set_pattern}
use ea31337_fft.Candle.One.{pattern_candle1}
use ea31337_fft.Candle.Two.{pattern_candle2}
use ea31337_fft.Candle.Three.{pattern_candle3}
use ea31337_fft.Candle.Four.{pattern_candle4}
use ea31337_fft.Candle.Five.{pattern_candle5}
pub mod Laws

-- The loop of a constructor over the bits from `i` on, where the enumeration has no name for a bit.
unfoldable pub set_bits : (ℕ → Bool) → ℕ → ℕ → PatternCandle → PatternCandle
unfolding set_pattern
set_bits check zero i c = c
set_bits check (suc left) i c = set_bits check left (i + 1) (set_pattern (2 ^ i) (check (2 ^ i)) c)

unfoldable pub check6 : ℕ → Bool
check6 value = false

unfoldable pub check7 : ℕ → Bool
check7 value = false

unfoldable pub check8 : ℕ → Bool
check8 value = false

unfoldable pub check9 : ℕ → Bool
check9 value = false

unfoldable pub check10 : ℕ → Bool
check10 value = false

unfoldable pub pattern_candle6 : PatternCandle
unfolding set_bits check6
pattern_candle6 = set_bits check6 32 0 (record { pattern = 0 })

unfoldable pub pattern_candle7 : PatternCandle
unfolding set_bits check7
pattern_candle7 = set_bits check7 32 0 (record { pattern = 0 })

unfoldable pub pattern_candle8 : PatternCandle
unfolding set_bits check8
pattern_candle8 = set_bits check8 32 0 (record { pattern = 0 })

unfoldable pub pattern_candle9 : PatternCandle
unfolding set_bits check9
pattern_candle9 = set_bits check9 32 0 (record { pattern = 0 })

unfoldable pub pattern_candle10 : PatternCandle
unfolding set_bits check10
pattern_candle10 = set_bits check10 32 0 (record { pattern = 0 })

pub record PatternEntry : Type 0 where
  pub pattern1 : PatternCandle
  pub pattern2 : PatternCandle
  pub pattern3 : PatternCandle
  pub pattern4 : PatternCandle
  pub pattern5 : PatternCandle
  pub pattern6 : PatternCandle
  pub pattern7 : PatternCandle
  pub pattern8 : PatternCandle
  pub pattern9 : PatternCandle
  pub pattern10 : PatternCandle

-- The constructors, without and with candles.
unfoldable pub empty_entry : PatternEntry
empty_entry = record {
  pattern1 = record { pattern = 0 };
  pattern2 = record { pattern = 0 };
  pattern3 = record { pattern = 0 };
  pattern4 = record { pattern = 0 };
  pattern5 = record { pattern = 0 };
  pattern6 = record { pattern = 0 };
  pattern7 = record { pattern = 0 };
  pattern8 = record { pattern = 0 };
  pattern9 = record { pattern = 0 };
  pattern10 = record { pattern = 0 };
}

unfoldable pub pattern_entry : {F : Type 0} → Prices F → (ℕ → BarOhlc F) → PatternEntry
unfolding pattern_candle1 pattern_candle2 pattern_candle3 pattern_candle4 pattern_candle5
    pattern_candle6 pattern_candle7 pattern_candle8 pattern_candle9 pattern_candle10
pattern_entry p c = record {
  pattern1 = pattern_candle1 p (c 0);
  pattern2 = pattern_candle2 p c;
  pattern3 = pattern_candle3 p c;
  pattern4 = pattern_candle4 p c;
  pattern5 = pattern_candle5 p c;
  pattern6 = pattern_candle6;
  pattern7 = pattern_candle7;
  pattern8 = pattern_candle8;
  pattern9 = pattern_candle9;
  pattern10 = pattern_candle10;
}

-- operator[]
unfoldable pub entry_at : ℕ → PatternEntry → ℕ
entry_at index e =
    if index == 1
    then e.pattern1.pattern
    else if index == 2
    then e.pattern2.pattern
    else if index == 3
    then e.pattern3.pattern
    else if index == 4
    then e.pattern4.pattern
    else if index == 5
    then e.pattern5.pattern
    else if index == 6
    then e.pattern6.pattern
    else if index == 7
    then e.pattern7.pattern
    else if index == 8
    then e.pattern8.pattern
    else if index == 9
    then e.pattern9.pattern
    else if index == 10
    then e.pattern10.pattern
    else 0
