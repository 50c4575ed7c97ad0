-- ===== src/Candle/Five.antt =====
-- The patterns of five candles of src/include/classes/Pattern.enum.h, and how PatternCandle5 of
-- src/include/classes/Pattern.struct.h tells them.
use ea31337_fft.Prelude.{ℕ, ◌^◌, Bool, false, not, ◌&&◌, ◌||◌, ◌==◌, List, [], ◌∷◌}
use ea31337_fft.Price.{Prices}
use ea31337_fft.Candle.Bar.{BarOhlc, get_pivot, get_body, get_wick_sum, get_range, get_type}
use ea31337_fft.Candle.Pattern.{PatternCandle, pattern_word}

-- ENUM_PATTERN_5CANDLE
pub data Pattern5 : Type 0 where
  pattern_none : Pattern5
  body0_diff_peak : Pattern5
  body0_gt_sum : Pattern5
  close0_diff_peak : Pattern5
  close0_peak : Pattern5
  close2_peak : Pattern5
  high0_diff_peak : Pattern5
  high0_peak : Pattern5
  high2_peak : Pattern5
  horn_bottoms : Pattern5
  horn_tops : Pattern5
  line_strike : Pattern5
  low0_diff_peak : Pattern5
  low0_peak : Pattern5
  low2_peak : Pattern5
  mat_hold : Pattern5
  open0_diff_peak : Pattern5
  open0_peak : Pattern5
  open2_peak : Pattern5
  open4_peak : Pattern5
  pp0_diff_peak : Pattern5
  pp0_peak : Pattern5
  pp2_peak : Pattern5
  pp_dec : Pattern5
  pp_dec_inc : Pattern5
  pp_inc : Pattern5
  pp_inc_dec : Pattern5
  range0_diff_peak : Pattern5
  range0_gt_sum : Pattern5
  reversal : Pattern5
  wicks0_diff_peak : Pattern5
  wicks0_peak : Pattern5
  wicks2_peak : Pattern5

-- The position of the bit of a pattern.
unfoldable pub pattern5_bit : Pattern5 → ℕ
pattern5_bit pattern_none = 0
pattern5_bit body0_diff_peak = 0
pattern5_bit body0_gt_sum = 1
pattern5_bit close0_diff_peak = 2
pattern5_bit close0_peak = 3
pattern5_bit close2_peak = 4
pattern5_bit high0_diff_peak = 5
pattern5_bit high0_peak = 6
pattern5_bit high2_peak = 7
pattern5_bit horn_bottoms = 8
pattern5_bit horn_tops = 9
pattern5_bit line_strike = 10
pattern5_bit low0_diff_peak = 11
pattern5_bit low0_peak = 12
pattern5_bit low2_peak = 13
pattern5_bit mat_hold = 14
pattern5_bit open0_diff_peak = 15
pattern5_bit open0_peak = 16
pattern5_bit open2_peak = 17
pattern5_bit open4_peak = 18
pattern5_bit pp0_diff_peak = 19
pattern5_bit pp0_peak = 20
pattern5_bit pp2_peak = 21
pattern5_bit pp_dec = 22
pattern5_bit pp_dec_inc = 23
pattern5_bit pp_inc = 24
pattern5_bit pp_inc_dec = 25
pattern5_bit range0_diff_peak = 26
pattern5_bit range0_gt_sum = 27
pattern5_bit reversal = 28
pattern5_bit wicks0_diff_peak = 29
pattern5_bit wicks0_peak = 30
pattern5_bit wicks2_peak = 31

-- The values of the enumeration; 1 << 31 stands as a pattern of 32 bits.
unfoldable pub pattern5_value : Pattern5 → ℕ
unfolding pattern5_bit
pattern5_value pattern_none = 0
pattern5_value e = 2 ^ pattern5_bit e

-- The values 1 << i, for i from 0 to 31, as patterns.
unfoldable pub patterns5 : List Pattern5
patterns5 =
    body0_diff_peak ∷ body0_gt_sum ∷ close0_diff_peak ∷ close0_peak ∷ close2_peak ∷ high0_diff_peak
    ∷ high0_peak ∷ high2_peak ∷ horn_bottoms ∷ horn_tops ∷ line_strike ∷ low0_diff_peak ∷ low0_peak
    ∷ low2_peak ∷ mat_hold ∷ open0_diff_peak ∷ open0_peak ∷ open2_peak ∷ open4_peak ∷ pp0_diff_peak
    ∷ pp0_peak ∷ pp2_peak ∷ pp_dec ∷ pp_dec_inc ∷ pp_inc ∷ pp_inc_dec ∷ range0_diff_peak
    ∷ range0_gt_sum ∷ reversal ∷ wicks0_diff_peak ∷ wicks0_peak ∷ wicks2_peak ∷ []

module _ {F : Type 0} (p : Prices F) where
  open p use {add, sub, mul, div, abs, max, min, lt, of_nat, decimal}

  -- The patterns that are told from the candles alone.
  unfoldable pub check5_plain : Pattern5 → (ℕ → BarOhlc F) → Bool
  check5_plain body0_diff_peak c =
      lt
        (max (abs (sub (get_body p (c 4)) (get_body p (c 3))))
          (abs (sub (get_body p (c 2)) (get_body p (c 1)))))
        (abs (sub (get_body p (c 1)) (get_body p (c 0))))
  check5_plain body0_gt_sum c =
      lt
        (add (add (add (get_body p (c 1)) (get_body p (c 2))) (get_body p (c 3)))
          (get_body p (c 4)))
        (get_body p (c 0))
  check5_plain close0_diff_peak c =
      lt (max (abs (sub (c 4).close (c 3).close)) (abs (sub (c 2).close (c 1).close)))
        (abs (sub (c 1).close (c 0).close))
  check5_plain close0_peak c =
      lt (max (max (max (c 1).close (c 2).close) (c 3).close) (c 4).close) (c 0).close
      || lt (c 0).close (min (min (min (c 1).close (c 2).close) (c 3).close) (c 4).close)
  check5_plain close2_peak c =
      lt (max (max (max (c 1).close (c 0).close) (c 3).close) (c 4).close) (c 2).close
      || lt (c 2).close (min (min (min (c 1).close (c 0).close) (c 3).close) (c 4).close)
  check5_plain high0_diff_peak c =
      lt (max (abs (sub (c 4).high (c 3).high)) (abs (sub (c 2).high (c 1).high)))
        (abs (sub (c 1).high (c 0).high))
  check5_plain high0_peak c =
      lt (max (max (max (c 1).high (c 2).high) (c 3).high) (c 4).high) (c 0).high
  check5_plain high2_peak c =
      lt (max (max (max (c 1).high (c 0).high) (c 3).high) (c 4).high) (c 2).high
  check5_plain horn_bottoms c =
      lt (c 1).low (min (min (c 0).low (c 2).low) (c 4).low)
      || lt (c 3).low (min (min (c 0).low (c 2).low) (c 4).low)
  check5_plain horn_tops c =
      lt (max (max (c 0).high (c 2).high) (c 4).high) (c 1).high
      || lt (max (max (c 0).high (c 2).high) (c 4).high) (c 3).high
  check5_plain low0_diff_peak c =
      lt (max (abs (sub (c 4).low (c 3).low)) (abs (sub (c 2).low (c 1).low)))
        (abs (sub (c 1).low (c 0).low))
  check5_plain low0_peak c = lt (c 0).low (min (min (min (c 1).low (c 2).low) (c 3).low) (c 4).low)
  check5_plain low2_peak c = lt (c 2).low (min (min (min (c 1).low (c 0).low) (c 3).low) (c 4).low)
  check5_plain open0_diff_peak c =
      lt
        (max (abs (sub (c 4).open_price (c 3).open_price))
          (abs (sub (c 2).open_price (c 1).open_price)))
        (abs (sub (c 1).open_price (c 0).open_price))
  check5_plain open0_peak c =
      lt (max (max (max (c 1).open_price (c 2).open_price) (c 3).open_price) (c 4).open_price)
        (c 0).open_price
      || lt (c 0).open_price
          (min (min (min (c 1).open_price (c 2).open_price) (c 3).open_price) (c 4).open_price)
  check5_plain open2_peak c =
      lt (max (max (max (c 1).open_price (c 0).open_price) (c 3).open_price) (c 4).open_price)
        (c 2).open_price
      || lt (c 2).open_price
          (min (min (min (c 1).open_price (c 0).open_price) (c 3).open_price) (c 4).open_price)
  check5_plain open4_peak c =
      lt (max (max (max (c 1).open_price (c 0).open_price) (c 3).open_price) (c 2).open_price)
        (c 4).open_price
      || lt (c 4).open_price
          (min (min (min (c 1).open_price (c 0).open_price) (c 3).open_price) (c 2).open_price)
  check5_plain pp0_diff_peak c =
      lt
        (max (abs (sub (get_pivot p (c 4)) (get_pivot p (c 3))))
          (abs (sub (get_pivot p (c 2)) (get_pivot p (c 1)))))
        (abs (sub (get_pivot p (c 1)) (get_pivot p (c 0))))
  check5_plain pp0_peak c =
      lt
        (max (max (max (get_pivot p (c 1)) (get_pivot p (c 2))) (get_pivot p (c 3)))
          (get_pivot p (c 4)))
        (get_pivot p (c 0))
      || lt (get_pivot p (c 0)) (
          min (min (min (get_pivot p (c 1)) (get_pivot p (c 2))) (get_pivot p (c 3)))
            (get_pivot p (c 4)))
  check5_plain pp2_peak c =
      lt
        (max (max (max (get_pivot p (c 1)) (get_pivot p (c 0))) (get_pivot p (c 3)))
          (get_pivot p (c 4)))
        (get_pivot p (c 2))
      || lt (get_pivot p (c 2)) (
          min (min (min (get_pivot p (c 1)) (get_pivot p (c 0))) (get_pivot p (c 3)))
            (get_pivot p (c 4)))
  check5_plain pp_dec c =
      lt (get_pivot p (c 0)) (get_pivot p (c 1))
      && lt (get_pivot p (c 1)) (get_pivot p (c 2))
      && lt (get_pivot p (c 2)) (get_pivot p (c 3))
      && lt (get_pivot p (c 3)) (get_pivot p (c 4))
  check5_plain pp_dec_inc c =
      lt (get_pivot p (c 3)) (get_pivot p (c 4)) && lt (get_pivot p (c 1)) (get_pivot p (c 0))
  check5_plain pp_inc c =
      lt (get_pivot p (c 1)) (get_pivot p (c 0))
      && lt (get_pivot p (c 2)) (get_pivot p (c 1))
      && lt (get_pivot p (c 3)) (get_pivot p (c 2))
      && lt (get_pivot p (c 4)) (get_pivot p (c 3))
  check5_plain pp_inc_dec c =
      lt (get_pivot p (c 4)) (get_pivot p (c 3)) && lt (get_pivot p (c 0)) (get_pivot p (c 1))
  check5_plain range0_diff_peak c =
      lt
        (max (abs (sub (get_range p (c 4)) (get_range p (c 3))))
          (abs (sub (get_range p (c 2)) (get_range p (c 1)))))
        (abs (sub (get_range p (c 1)) (get_range p (c 0))))
  check5_plain range0_gt_sum c =
      lt
        (add (add (add (get_range p (c 1)) (get_range p (c 2))) (get_range p (c 3)))
          (get_range p (c 4)))
        (get_range p (c 0))
  check5_plain reversal c =
      (get_type p (c 0)) == (get_type p (c 1))
        && (get_type p (c 2)) == (get_type p (c 3))
        && (get_type p (c 3)) == (get_type p (c 4))
        && not ((get_type p (c 1)) == (get_type p (c 2)))
      || (get_type p (c 0)) == (get_type p (c 1))
        && (get_type p (c 1)) == (get_type p (c 2))
        && (get_type p (c 3)) == (get_type p (c 4))
        && not ((get_type p (c 2)) == (get_type p (c 3)))
  check5_plain wicks0_diff_peak c =
      lt
        (max (abs (sub (get_wick_sum p (c 4)) (get_wick_sum p (c 3))))
          (abs (sub (get_wick_sum p (c 2)) (get_wick_sum p (c 1)))))
        (abs (sub (get_wick_sum p (c 1)) (get_wick_sum p (c 0))))
  check5_plain wicks0_peak c =
      lt
        (max (max (max (get_wick_sum p (c 1)) (get_wick_sum p (c 2))) (get_wick_sum p (c 3)))
          (get_wick_sum p (c 4)))
        (get_wick_sum p (c 0))
      || lt (get_wick_sum p (c 0)) (
          min (min (min (get_wick_sum p (c 1)) (get_wick_sum p (c 2))) (get_wick_sum p (c 3)))
            (get_wick_sum p (c 4)))
  check5_plain wicks2_peak c =
      lt
        (max (max (max (get_wick_sum p (c 1)) (get_wick_sum p (c 0))) (get_wick_sum p (c 3)))
          (get_wick_sum p (c 4)))
        (get_wick_sum p (c 2))
      || lt (get_wick_sum p (c 2)) (
          min (min (min (get_wick_sum p (c 1)) (get_wick_sum p (c 0))) (get_wick_sum p (c 3)))
            (get_wick_sum p (c 4)))
  check5_plain _ c = false

  -- CheckPattern
  unfoldable pub check5 : Pattern5 → (ℕ → BarOhlc F) → Bool
  unfolding check5_plain
  check5 line_strike c =
      not ((get_type p (c 0)) == (get_type p (c 1)))
      && (get_type p (c 1)) == (get_type p (c 2))
      && (get_type p (c 2)) == (get_type p (c 3))
      && (get_type p (c 3)) == (get_type p (c 4))
      && check5_plain close0_peak c
  check5 mat_hold c =
      (get_type p (c 1)) == (get_type p (c 2))
      && (get_type p (c 2)) == (get_type p (c 3))
      && (get_type p (c 0)) == (get_type p (c 4))
      && not ((get_type p (c 0)) == (get_type p (c 1)))
      && check5_plain close0_peak c
      && check5_plain open4_peak c
  check5 e c = check5_plain e c

  -- The constructor from candles.
  unfoldable pub pattern_candle5 : (ℕ → BarOhlc F) → PatternCandle
  unfolding pattern_word pattern5_value check5 patterns5
  pattern_candle5 c = pattern_word pattern5_value (λ e. check5 e c) patterns5
