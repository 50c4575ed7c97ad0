-- ===== src/Candle/Four.antt =====
-- The patterns of four candles of src/include/classes/Pattern.enum.h, and how PatternCandle4 of
-- src/include/classes/Pattern.struct.h tells them.
use ea31337_fft.Prelude.{ℕ, ◌^◌, Bool, false, not, ◌&&◌, ◌||◌, ◌==◌, List, [], ◌∷◌}
use ea31337_fft.Price.{Prices}
use ea31337_fft.Candle.Bar.{
  BarOhlc, minutes_between, same_minutes, get_min_oc, get_max_oc, get_pivot, get_body_abs,
  get_wick_sum, get_wick_lower, get_wick_upper, get_range, get_type, is_bear, is_bull,
}
use ea31337_fft.Candle.Pattern.{PatternCandle, pattern_word, check_pattern}
use ea31337_fft.Candle.Three.{Pattern3, pattern3_value, pattern_candle3}

-- ENUM_PATTERN_4CANDLE
pub data Pattern4 : Type 0 where
  pattern_none : Pattern4
  bears : Pattern4
  bear_cont : Pattern4
  bear_rev : Pattern4
  bebu_mixed : Pattern4
  body0_gt_sum : Pattern4
  body_dec : Pattern4
  body_inc : Pattern4
  bulls : Pattern4
  bull_cont : Pattern4
  bull_rev : Pattern4
  close_dec : Pattern4
  close_inc : Pattern4
  high_dec : Pattern4
  high_inc : Pattern4
  inv_hammer : Pattern4
  low_dec : Pattern4
  low_inc : Pattern4
  open_dec : Pattern4
  open_inc : Pattern4
  peak : Pattern4
  pp_dec : Pattern4
  pp_inc : Pattern4
  range0_gt_sum : Pattern4
  range_dec : Pattern4
  range_inc : Pattern4
  shoot_star : Pattern4
  time_gaps : Pattern4
  wicks0_gt_sum : Pattern4
  wicks_dec : Pattern4
  wicks_gt_body : Pattern4
  wicks_inc : Pattern4
  wicks_upper : Pattern4

-- The position of the bit of a pattern.
unfoldable pub pattern4_bit : Pattern4 → ℕ
pattern4_bit pattern_none = 0
pattern4_bit bears = 0
pattern4_bit bear_cont = 1
pattern4_bit bear_rev = 2
pattern4_bit bebu_mixed = 3
pattern4_bit body0_gt_sum = 4
pattern4_bit body_dec = 5
pattern4_bit body_inc = 6
pattern4_bit bulls = 7
pattern4_bit bull_cont = 8
pattern4_bit bull_rev = 9
pattern4_bit close_dec = 10
pattern4_bit close_inc = 11
pattern4_bit high_dec = 12
pattern4_bit high_inc = 13
pattern4_bit inv_hammer = 14
pattern4_bit low_dec = 15
pattern4_bit low_inc = 16
pattern4_bit open_dec = 17
pattern4_bit open_inc = 18
pattern4_bit peak = 19
pattern4_bit pp_dec = 20
pattern4_bit pp_inc = 21
pattern4_bit range0_gt_sum = 22
pattern4_bit range_dec = 23
pattern4_bit range_inc = 24
pattern4_bit shoot_star = 25
pattern4_bit time_gaps = 26
pattern4_bit wicks0_gt_sum = 27
pattern4_bit wicks_dec = 28
pattern4_bit wicks_gt_body = 29
pattern4_bit wicks_inc = 30
pattern4_bit wicks_upper = 31

-- The values of the enumeration; 1 << 31 stands as a pattern of 32 bits.
unfoldable pub pattern4_value : Pattern4 → ℕ
unfolding pattern4_bit
pattern4_value pattern_none = 0
pattern4_value e = 2 ^ pattern4_bit e

-- The values 1 << i, for i from 0 to 31, as patterns.
unfoldable pub patterns4 : List Pattern4
patterns4 =
    bears ∷ bear_cont ∷ bear_rev ∷ bebu_mixed ∷ body0_gt_sum ∷ body_dec ∷ body_inc ∷ bulls
    ∷ bull_cont ∷ bull_rev ∷ close_dec ∷ close_inc ∷ high_dec ∷ high_inc ∷ inv_hammer ∷ low_dec
    ∷ low_inc ∷ open_dec ∷ open_inc ∷ peak ∷ pp_dec ∷ pp_inc ∷ range0_gt_sum ∷ range_dec ∷ range_inc
    ∷ shoot_star ∷ time_gaps ∷ wicks0_gt_sum ∷ wicks_dec ∷ wicks_gt_body ∷ wicks_inc ∷ wicks_upper
    ∷ []

module _ {F : Type 0} (p : Prices F) where
  open p use {add, sub, mul, div, abs, max, min, lt, of_nat, decimal}

  -- CheckPattern
  unfoldable pub check4 : Pattern4 → (ℕ → BarOhlc F) → Bool
  check4 bears c = is_bear p (c 0) && is_bear p (c 1) && is_bear p (c 2) && is_bear p (c 3)
  check4 bear_cont c =
      lt (c 0).close (c 0).open_price
      && lt (c 0).low (c 3).low
      && check_pattern (pattern3_value Pattern3.body0_gt_sum) (pattern_candle3 p c)
      && lt (c 1).open_price (c 1).close
      && lt (c 2).open_price (c 2).close
      && lt (c 3).close (c 3).open_price
      && lt (c 3).low (min (c 2).low (c 1).low)
  check4 bear_rev c =
      lt (c 0).close (c 0).open_price
      && lt (get_min_oc p (c 0)) (min (min (c 1).low (c 2).low) (c 3).low)
      && lt (c 1).close (c 1).open_price
      && lt (c 2).open_price (c 2).close
      && lt (c 3).open_price (c 3).close
  check4 bebu_mixed c =
      not ((get_type p (c 0)) == (get_type p (c 1)))
      && not ((get_type p (c 1)) == (get_type p (c 2)))
      && not ((get_type p (c 2)) == (get_type p (c 3)))
  check4 body0_gt_sum c =
      lt (add (add (get_body_abs p (c 1)) (get_body_abs p (c 2))) (get_body_abs p (c 3)))
        (get_body_abs p (c 0))
  check4 body_dec c =
      lt (get_body_abs p (c 0)) (get_body_abs p (c 1))
      && lt (get_body_abs p (c 1)) (get_body_abs p (c 2))
      && lt (get_body_abs p (c 2)) (get_body_abs p (c 3))
  check4 body_inc c =
      lt (get_body_abs p (c 1)) (get_body_abs p (c 0))
      && lt (get_body_abs p (c 2)) (get_body_abs p (c 1))
      && lt (get_body_abs p (c 3)) (get_body_abs p (c 2))
  check4 bulls c = is_bull p (c 0) && is_bull p (c 1) && is_bull p (c 2) && is_bull p (c 3)
  check4 bull_cont c =
      lt (c 0).open_price (c 0).close
      && lt (c 3).high (c 0).high
      && check_pattern (pattern3_value Pattern3.body0_gt_sum) (pattern_candle3 p c)
      && lt (c 1).close (c 1).open_price
      && lt (c 2).close (c 2).open_price
      && lt (c 3).open_price (c 3).close
      && lt (max (c 2).high (c 1).high) (c 3).high
  check4 bull_rev c =
      lt (c 0).open_price (c 0).close
      && lt (max (max (c 1).high (c 2).high) (c 3).high) (get_max_oc p (c 0))
      && lt (c 1).open_price (c 1).close
      && lt (c 2).close (c 2).open_price
      && lt (c 3).close (c 3).open_price
  check4 close_dec c =
      lt (c 0).close (c 1).close && lt (c 1).close (c 2).close && lt (c 2).close (c 3).close
  check4 close_inc c =
      lt (c 1).close (c 0).close && lt (c 2).close (c 1).close && lt (c 3).close (c 2).close
  check4 high_dec c =
      lt (c 0).high (c 1).high && lt (c 1).high (c 2).high && lt (c 2).high (c 3).high
  check4 high_inc c =
      lt (c 1).high (c 0).high && lt (c 2).high (c 1).high && lt (c 3).high (c 2).high
  check4 inv_hammer c =
      lt (c 0).open_price (c 0).close
      && lt (c 1).open_price (c 1).close
      && lt (c 2).close (c 2).open_price
      && lt (c 3).close (c 3).open_price
      && lt (add (get_wick_sum p (c 0)) (get_wick_sum p (c 3)))
          (max (get_wick_upper p (c 1)) (get_wick_upper p (c 2)))
  check4 low_dec c = lt (c 0).low (c 1).low && lt (c 1).low (c 2).low && lt (c 2).low (c 3).low
  check4 low_inc c = lt (c 1).low (c 0).low && lt (c 2).low (c 1).low && lt (c 3).low (c 2).low
  check4 open_dec c =
      lt (c 0).open_price (c 1).open_price
      && lt (c 1).open_price (c 2).open_price
      && lt (c 2).open_price (c 3).open_price
  check4 open_inc c =
      lt (c 1).open_price (c 0).open_price
      && lt (c 2).open_price (c 1).open_price
      && lt (c 3).open_price (c 2).open_price
  check4 peak c =
      lt (max (max (c 1).high (c 2).high) (c 3).high) (c 0).high
      || lt (c 0).low (min (min (c 1).low (c 2).low) (c 3).low)
  check4 pp_dec c =
      lt (get_pivot p (c 0)) (get_pivot p (c 1))
      && lt (get_pivot p (c 1)) (get_pivot p (c 2))
      && lt (get_pivot p (c 2)) (get_pivot p (c 3))
  check4 pp_inc c =
      lt (get_pivot p (c 1)) (get_pivot p (c 0))
      && lt (get_pivot p (c 2)) (get_pivot p (c 1))
      && lt (get_pivot p (c 3)) (get_pivot p (c 2))
  check4 range0_gt_sum c =
      lt (add (add (get_range p (c 1)) (get_range p (c 2))) (get_range p (c 3))) (get_range p (c 0))
  check4 range_dec c =
      lt (get_range p (c 0)) (get_range p (c 1))
      && lt (get_range p (c 1)) (get_range p (c 2))
      && lt (get_range p (c 2)) (get_range p (c 3))
  check4 range_inc c =
      lt (get_range p (c 1)) (get_range p (c 0))
      && lt (get_range p (c 2)) (get_range p (c 1))
      && lt (get_range p (c 3)) (get_range p (c 2))
  check4 shoot_star c =
      lt (c 0).close (c 0).open_price
      && lt (c 1).close (c 1).open_price
      && lt (c 2).open_price (c 2).close
      && lt (c 3).open_price (c 3).close
      && lt (add (get_wick_sum p (c 0)) (get_wick_sum p (c 3)))
          (max (get_wick_lower p (c 1)) (get_wick_lower p (c 2)))
  check4 time_gaps c =
      not (
        same_minutes (minutes_between (c 0).time (c 1).time)
          (minutes_between (c 1).time (c 2).time))
      || not (
          same_minutes (minutes_between (c 1).time (c 2).time)
            (minutes_between (c 2).time (c 3).time))
  check4 wicks0_gt_sum c =
      lt (add (add (get_wick_sum p (c 1)) (get_wick_sum p (c 2))) (get_wick_sum p (c 3)))
        (get_wick_sum p (c 0))
  check4 wicks_dec c =
      lt (get_wick_sum p (c 0)) (get_wick_sum p (c 1))
      && lt (get_wick_sum p (c 1)) (get_wick_sum p (c 2))
      && lt (get_wick_sum p (c 2)) (get_wick_sum p (c 3))
  check4 wicks_gt_body c =
      lt
        (add (add (add (get_body_abs p (c 0)) (get_body_abs p (c 1))) (get_body_abs p (c 2)))
          (get_body_abs p (c 3)))
        (add (add (add (get_wick_sum p (c 0)) (get_wick_sum p (c 1))) (get_wick_sum p (c 2)))
          (get_wick_sum p (c 3)))
  check4 wicks_inc c =
      lt (get_wick_sum p (c 1)) (get_wick_sum p (c 0))
      && lt (get_wick_sum p (c 2)) (get_wick_sum p (c 1))
      && lt (get_wick_sum p (c 3)) (get_wick_sum p (c 2))
  check4 wicks_upper c =
      lt
        (add (add (add (get_wick_lower p (c 0)) (get_wick_lower p (c 1))) (get_wick_lower p (c 2)))
          (get_wick_lower p (c 3)))
        (add (add (add (get_wick_upper p (c 0)) (get_wick_upper p (c 1))) (get_wick_upper p (c 2)))
          (get_wick_upper p (c 3)))
  check4 pattern_none c = false

  -- The constructor from candles.
  unfoldable pub pattern_candle4 : (ℕ → BarOhlc F) → PatternCandle
  unfolding pattern_word pattern4_value check4 patterns4
  pattern_candle4 c = pattern_word pattern4_value (λ e. check4 e c) patterns4
