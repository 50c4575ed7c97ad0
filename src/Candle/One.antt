-- ===== src/Candle/One.antt =====
-- The patterns of one candle of src/include/classes/Pattern.enum.h, and how PatternCandle1 of
-- src/include/classes/Pattern.struct.h tells them.
use ea31337_fft.Prelude.{ℕ, ◌^◌, Bool, false, ◌&&◌, List, [], ◌∷◌}
use ea31337_fft.Price.{Prices}
use ea31337_fft.Candle.Bar.{
  BarOhlc, get_min_oc, get_median, get_pivot, get_pivot_de_mark, get_pivot_with_open, get_weighted,
  get_body, get_wick_sum, get_wick_lower_in_pct, get_wick_upper_in_pct, get_change_in_pct,
  get_body_in_pct, is_bear, is_bull,
}
use ea31337_fft.Candle.Pattern.{PatternCandle, pattern_word}

-- ENUM_PATTERN_1CANDLE
pub data Pattern1 : Type 0 where
  pattern_none : Pattern1
  bear : Pattern1
  bull : Pattern1
  body_gt_med : Pattern1
  body_gt_pp : Pattern1
  body_gt_pp_dm : Pattern1
  body_gt_pp_open : Pattern1
  body_gt_weighted : Pattern1
  body_gt_wicks : Pattern1
  change_gt_01pc : Pattern1
  change_gt_02pc : Pattern1
  close_gt_med : Pattern1
  close_gt_pp : Pattern1
  close_gt_pp_dm : Pattern1
  close_gt_pp_open : Pattern1
  close_gt_weighted : Pattern1
  close_lt_pp : Pattern1
  close_lt_pp_dm : Pattern1
  close_lt_pp_open : Pattern1
  close_lt_weighted : Pattern1
  has_wick_lw : Pattern1
  has_wick_up : Pattern1
  is_doji_dragon : Pattern1
  is_doji_grave : Pattern1
  is_hammer_inv : Pattern1
  is_hammer_up : Pattern1
  is_hangman : Pattern1
  is_long_shadow_lw : Pattern1
  is_long_shadow_up : Pattern1
  is_marubozu : Pattern1
  is_shaven_lw : Pattern1
  is_shaven_up : Pattern1
  is_spinningtop : Pattern1

-- The position of the bit of a pattern.
unfoldable pub pattern1_bit : Pattern1 → ℕ
pattern1_bit pattern_none = 0
pattern1_bit bear = 0
pattern1_bit bull = 1
pattern1_bit body_gt_med = 2
pattern1_bit body_gt_pp = 3
pattern1_bit body_gt_pp_dm = 4
pattern1_bit body_gt_pp_open = 5
pattern1_bit body_gt_weighted = 6
pattern1_bit body_gt_wicks = 7
pattern1_bit change_gt_01pc = 8
pattern1_bit change_gt_02pc = 9
pattern1_bit close_gt_med = 10
pattern1_bit close_gt_pp = 11
pattern1_bit close_gt_pp_dm = 12
pattern1_bit close_gt_pp_open = 13
pattern1_bit close_gt_weighted = 14
pattern1_bit close_lt_pp = 15
pattern1_bit close_lt_pp_dm = 16
pattern1_bit close_lt_pp_open = 17
pattern1_bit close_lt_weighted = 18
pattern1_bit has_wick_lw = 19
pattern1_bit has_wick_up = 20
pattern1_bit is_doji_dragon = 21
pattern1_bit is_doji_grave = 22
pattern1_bit is_hammer_inv = 23
pattern1_bit is_hammer_up = 24
pattern1_bit is_hangman = 25
pattern1_bit is_long_shadow_lw = 26
pattern1_bit is_long_shadow_up = 27
pattern1_bit is_marubozu = 28
pattern1_bit is_shaven_lw = 29
pattern1_bit is_shaven_up = 30
pattern1_bit is_spinningtop = 31

-- The values of the enumeration; 1 << 31 stands as a pattern of 32 bits.
unfoldable pub pattern1_value : Pattern1 → ℕ
unfolding pattern1_bit
pattern1_value pattern_none = 0
pattern1_value e = 2 ^ pattern1_bit e

-- The values 1 << i, for i from 0 to 31, as patterns.
unfoldable pub patterns1 : List Pattern1
patterns1 =
    bear ∷ bull ∷ body_gt_med ∷ body_gt_pp ∷ body_gt_pp_dm ∷ body_gt_pp_open ∷ body_gt_weighted
    ∷ body_gt_wicks ∷ change_gt_01pc ∷ change_gt_02pc ∷ close_gt_med ∷ close_gt_pp ∷ close_gt_pp_dm
    ∷ close_gt_pp_open ∷ close_gt_weighted ∷ close_lt_pp ∷ close_lt_pp_dm ∷ close_lt_pp_open
    ∷ close_lt_weighted ∷ has_wick_lw ∷ has_wick_up ∷ is_doji_dragon ∷ is_doji_grave ∷ is_hammer_inv
    ∷ is_hammer_up ∷ is_hangman ∷ is_long_shadow_lw ∷ is_long_shadow_up ∷ is_marubozu ∷ is_shaven_lw
    ∷ is_shaven_up ∷ is_spinningtop ∷ []

module _ {F : Type 0} (p : Prices F) where
  open p use {add, sub, mul, div, abs, max, min, lt, of_nat, decimal}

  -- CheckPattern
  unfoldable pub check1 : Pattern1 → BarOhlc F → Bool
  check1 bear c = is_bear p c
  check1 bull c = is_bull p c
  check1 body_gt_med c = lt (get_median p c) (get_min_oc p c)
  check1 body_gt_pp c = lt (get_pivot p c) (get_min_oc p c)
  check1 body_gt_pp_dm c = lt (get_pivot_de_mark p c) (get_min_oc p c)
  check1 body_gt_pp_open c = lt (get_pivot_with_open p c) (get_min_oc p c)
  check1 body_gt_weighted c = lt (get_weighted p c) (get_min_oc p c)
  check1 body_gt_wicks c = lt (get_wick_sum p c) (get_body p c)
  check1 change_gt_01pc c = lt (decimal 1 1) (get_change_in_pct p 100 c)
  check1 change_gt_02pc c = lt (decimal 2 1) (get_change_in_pct p 100 c)
  check1 close_gt_med c = lt (get_median p c) c.close
  check1 close_gt_pp c = lt (get_pivot p c) c.close
  check1 close_gt_pp_dm c = lt (get_pivot_de_mark p c) c.close
  check1 close_gt_pp_open c = lt (get_pivot_with_open p c) c.close
  check1 close_gt_weighted c = lt (get_weighted p c) c.close
  check1 close_lt_pp c = lt c.close (get_pivot p c)
  check1 close_lt_pp_dm c = lt c.close (get_pivot_de_mark p c)
  check1 close_lt_pp_open c = lt c.close (get_weighted p c)
  check1 close_lt_weighted c = lt c.close (get_weighted p c)
  check1 has_wick_lw c = lt (of_nat 2) (get_wick_lower_in_pct p c)
  check1 has_wick_up c = lt (of_nat 2) (get_wick_upper_in_pct p c)
  check1 is_doji_dragon c = lt (of_nat 95) (get_wick_lower_in_pct p c)
  check1 is_doji_grave c = lt (of_nat 95) (get_wick_upper_in_pct p c)
  check1 is_hammer_inv c =
      lt (mul (get_body_in_pct p 100 c) (of_nat 2)) (get_wick_upper_in_pct p c)
      && lt (get_wick_lower_in_pct p c) (of_nat 2)
  check1 is_hammer_up c =
      lt (mul (get_body_in_pct p 100 c) (of_nat 2)) (get_wick_lower_in_pct p c)
      && lt (get_wick_upper_in_pct p c) (of_nat 2)
  check1 is_hangman c =
      lt (mul (get_body_in_pct p 100 c) (of_nat 3)) (get_wick_lower_in_pct p c)
      && lt (get_wick_upper_in_pct p c) (of_nat 2)
  check1 is_long_shadow_lw c = lt (of_nat 60) (get_wick_lower_in_pct p c)
  check1 is_long_shadow_up c = lt (of_nat 60) (get_wick_upper_in_pct p c)
  check1 is_marubozu c = lt (of_nat 96) (get_body_in_pct p 100 c)
  check1 is_shaven_lw c =
      lt (of_nat 50) (get_wick_upper_in_pct p c) && lt (get_wick_lower_in_pct p c) (of_nat 2)
  check1 is_shaven_up c =
      lt (of_nat 50) (get_wick_lower_in_pct p c) && lt (get_wick_upper_in_pct p c) (of_nat 2)
  check1 is_spinningtop c =
      lt (get_body_in_pct p 100 c) (of_nat 30)
      && lt (of_nat 20) (get_wick_lower_in_pct p c)
      && lt (of_nat 20) (get_wick_upper_in_pct p c)
  check1 pattern_none c = false

  -- The constructor from candles.
  unfoldable pub pattern_candle1 : BarOhlc F → PatternCandle
  unfolding pattern_word pattern1_value check1 patterns1
  pattern_candle1 c = pattern_word pattern1_value (λ e. check1 e c) patterns1
