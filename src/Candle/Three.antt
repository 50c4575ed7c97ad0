-- ===== src/Candle/Three.antt =====
-- The patterns of three candles of src/include/classes/Pattern.enum.h, and how PatternCandle3 of
-- src/include/classes/Pattern.struct.h tells them.
use ea31337_fft.Prelude.{ℕ, ◌^◌, Bool, false, ◌&&◌, ◌||◌, List, [], ◌∷◌}
use ea31337_fft.Price.{Prices}
use ea31337_fft.Candle.Bar.{
  BarOhlc, get_pivot, get_body_abs, get_wick_sum, get_range, is_bear, is_bull,
}
use ea31337_fft.Candle.Pattern.{PatternCandle, pattern_word}

-- ENUM_PATTERN_3CANDLE
pub data Pattern3 : Type 0 where
  pattern_none : Pattern3
  bears : Pattern3
  body0_dbl_sum : Pattern3
  body0_gt_sum : Pattern3
  body_dec : Pattern3
  body_inc : Pattern3
  bulls : Pattern3
  close_dec : Pattern3
  close_inc : Pattern3
  high0_lt_low2 : Pattern3
  high1_lt_pp : Pattern3
  high_dec : Pattern3
  high_inc : Pattern3
  low0_gt_high2 : Pattern3
  low1_gt_pp : Pattern3
  low_dec : Pattern3
  low_inc : Pattern3
  open0_gt_high2 : Pattern3
  open0_lt_low2 : Pattern3
  open_dec : Pattern3
  open_inc : Pattern3
  peak : Pattern3
  pp_dec : Pattern3
  pp_inc : Pattern3
  range0_gt_sum : Pattern3
  range1_gt_sum : Pattern3
  range_dec : Pattern3
  range_inc : Pattern3
  wicks0_dbl_sum : Pattern3
  wicks0_gt_body : Pattern3
  wicks0_gt_sum : Pattern3
  wicks1_dbl_body : Pattern3
  wicks1_gt_body : Pattern3

-- The position of the bit of a pattern.
unfoldable pub pattern3_bit : Pattern3 → ℕ
pattern3_bit pattern_none = 0
pattern3_bit bears = 0
pattern3_bit body0_dbl_sum = 1
pattern3_bit body0_gt_sum = 2
pattern3_bit body_dec = 3
pattern3_bit body_inc = 4
pattern3_bit bulls = 5
pattern3_bit close_dec = 6
pattern3_bit close_inc = 7
pattern3_bit high0_lt_low2 = 8
pattern3_bit high1_lt_pp = 9
pattern3_bit high_dec = 10
pattern3_bit high_inc = 11
pattern3_bit low0_gt_high2 = 12
pattern3_bit low1_gt_pp = 13
pattern3_bit low_dec = 14
pattern3_bit low_inc = 15
pattern3_bit open0_gt_high2 = 16
pattern3_bit open0_lt_low2 = 17
pattern3_bit open_dec = 18
pattern3_bit open_inc = 19
pattern3_bit peak = 20
pattern3_bit pp_dec = 21
pattern3_bit pp_inc = 22
pattern3_bit range0_gt_sum = 23
pattern3_bit range1_gt_sum = 24
pattern3_bit range_dec = 25
pattern3_bit range_inc = 26
pattern3_bit wicks0_dbl_sum = 27
pattern3_bit wicks0_gt_body = 28
pattern3_bit wicks0_gt_sum = 29
pattern3_bit wicks1_dbl_body = 30
pattern3_bit wicks1_gt_body = 31

-- The values of the enumeration; 1 << 31 stands as a pattern of 32 bits.
unfoldable pub pattern3_value : Pattern3 → ℕ
unfolding pattern3_bit
pattern3_value pattern_none = 0
pattern3_value e = 2 ^ pattern3_bit e

-- The values 1 << i, for i from 0 to 31, as patterns.
unfoldable pub patterns3 : List Pattern3
patterns3 =
    bears ∷ body0_dbl_sum ∷ body0_gt_sum ∷ body_dec ∷ body_inc ∷ bulls ∷ close_dec ∷ close_inc
    ∷ high0_lt_low2 ∷ high1_lt_pp ∷ high_dec ∷ high_inc ∷ low0_gt_high2 ∷ low1_gt_pp ∷ low_dec
    ∷ low_inc ∷ open0_gt_high2 ∷ open0_lt_low2 ∷ open_dec ∷ open_inc ∷ peak ∷ pp_dec ∷ pp_inc
    ∷ range0_gt_sum ∷ range1_gt_sum ∷ range_dec ∷ range_inc ∷ wicks0_dbl_sum ∷ wicks0_gt_body
    ∷ wicks0_gt_sum ∷ wicks1_dbl_body ∷ wicks1_gt_body ∷ []

module _ {F : Type 0} (p : Prices F) where
  open p use {add, sub, mul, div, abs, max, min, lt, of_nat, decimal}

  -- CheckPattern
  unfoldable pub check3 : Pattern3 → (ℕ → BarOhlc F) → Bool
  check3 bears c = is_bear p (c 0) && is_bear p (c 1) && is_bear p (c 2)
  check3 body0_dbl_sum c =
      lt (mul (add (get_body_abs p (c 1)) (get_body_abs p (c 2))) (of_nat 2)) (get_body_abs p (c 0))
  check3 body0_gt_sum c =
      lt (add (get_body_abs p (c 1)) (get_body_abs p (c 2))) (get_body_abs p (c 0))
  check3 body_dec c =
      lt (get_body_abs p (c 0)) (get_body_abs p (c 1))
      && lt (get_body_abs p (c 1)) (get_body_abs p (c 2))
  check3 body_inc c =
      lt (get_body_abs p (c 1)) (get_body_abs p (c 0))
      && lt (get_body_abs p (c 2)) (get_body_abs p (c 1))
  check3 bulls c = is_bull p (c 0) && is_bull p (c 1) && is_bull p (c 2)
  check3 close_dec c = lt (c 0).close (c 1).close && lt (c 1).close (c 2).close
  check3 close_inc c = lt (c 1).close (c 0).close && lt (c 2).close (c 1).close
  check3 high0_lt_low2 c = lt (c 0).high (c 2).low
  check3 high1_lt_pp c = lt (c 1).high (min (get_pivot p (c 0)) (get_pivot p (c 2)))
  check3 high_dec c = lt (c 0).high (c 1).high && lt (c 1).high (c 2).high
  check3 high_inc c = lt (c 1).high (c 0).high && lt (c 2).high (c 1).high
  check3 low0_gt_high2 c = lt (c 2).high (c 0).low
  check3 low1_gt_pp c = lt (max (get_pivot p (c 0)) (get_pivot p (c 2))) (c 1).low
  check3 low_dec c = lt (c 0).low (c 1).low && lt (c 1).low (c 2).low
  check3 low_inc c = lt (c 1).low (c 0).low && lt (c 2).low (c 1).low
  check3 open0_gt_high2 c = lt (c 2).high (c 0).open_price
  check3 open0_lt_low2 c = lt (c 0).open_price (c 2).low
  check3 open_dec c = lt (c 0).open_price (c 1).open_price && lt (c 1).open_price (c 2).open_price
  check3 open_inc c = lt (c 1).open_price (c 0).open_price && lt (c 2).open_price (c 1).open_price
  check3 peak c =
      lt (max (c 1).high (c 2).high) (c 0).high || lt (c 0).low (min (c 1).low (c 2).low)
  check3 pp_dec c =
      lt (get_pivot p (c 0)) (get_pivot p (c 1)) && lt (get_pivot p (c 1)) (get_pivot p (c 2))
  check3 pp_inc c =
      lt (get_pivot p (c 1)) (get_pivot p (c 0)) && lt (get_pivot p (c 2)) (get_pivot p (c 1))
  check3 range0_gt_sum c = lt (add (get_range p (c 1)) (get_range p (c 2))) (get_range p (c 0))
  check3 range1_gt_sum c = lt (add (get_range p (c 0)) (get_range p (c 2))) (get_range p (c 1))
  check3 range_dec c =
      lt (get_range p (c 0)) (get_range p (c 1)) && lt (get_range p (c 1)) (get_range p (c 2))
  check3 range_inc c =
      lt (get_range p (c 1)) (get_range p (c 0)) && lt (get_range p (c 2)) (get_range p (c 1))
  check3 wicks0_dbl_sum c =
      lt (mul (add (get_wick_sum p (c 1)) (get_wick_sum p (c 2))) (of_nat 2)) (get_wick_sum p (c 0))
  check3 wicks0_gt_body c =
      lt (add (get_body_abs p (c 1)) (get_body_abs p (c 2))) (get_wick_sum p (c 0))
  check3 wicks0_gt_sum c =
      lt (add (get_wick_sum p (c 1)) (get_wick_sum p (c 2))) (get_wick_sum p (c 0))
  check3 wicks1_dbl_body c =
      lt (mul (add (get_body_abs p (c 0)) (get_body_abs p (c 2))) (of_nat 2)) (get_wick_sum p (c 1))
  check3 wicks1_gt_body c =
      lt (add (get_body_abs p (c 0)) (get_body_abs p (c 2))) (get_wick_sum p (c 1))
  check3 pattern_none c = false

  -- The constructor from candles.
  unfoldable pub pattern_candle3 : (ℕ → BarOhlc F) → PatternCandle
  unfolding pattern_word pattern3_value check3 patterns3
  pattern_candle3 c = pattern_word pattern3_value (λ e. check3 e c) patterns3
