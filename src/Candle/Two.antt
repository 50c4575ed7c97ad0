-- ===== src/Candle/Two.antt =====
-- The patterns of two candles of src/include/classes/Pattern.enum.h, and how PatternCandle2 of
-- src/include/classes/Pattern.struct.h tells them.
use ea31337_fft.Prelude.{ℕ, ◌^◌, ◌*◌, ◌-◌, Bool, false, not, ◌&&◌, ltb, List, [], ◌∷◌}
use ea31337_fft.Price.{Prices}
use ea31337_fft.Candle.Bar.{
  BarOhlc, get_min_oc, get_max_oc, get_pivot, get_pivot_with_open_of, get_weighted, get_body_abs,
  get_wick_sum, get_range, is_bear, is_bull,
}
use ea31337_fft.Candle.Pattern.{PatternCandle, pattern_word}

-- ENUM_PATTERN_2CANDLE
pub data Pattern2 : Type 0 where
  pattern_none : Pattern2
  bears : Pattern2
  body_gt_body : Pattern2
  bulls : Pattern2
  close_gt_close : Pattern2
  close_gt_high : Pattern2
  close_lt_low : Pattern2
  high_gt_high : Pattern2
  high_gt_hoc : Pattern2
  hoc_gt_high : Pattern2
  hoc_gt_hoc : Pattern2
  loc_lt_loc : Pattern2
  loc_lt_low : Pattern2
  low_lt_loc : Pattern2
  low_lt_low : Pattern2
  open_gt_open : Pattern2
  pp_gt_pp : Pattern2
  pp_gt_pp_open : Pattern2
  range_dbl_range : Pattern2
  range_gt_range : Pattern2
  time_gap_day : Pattern2
  weighted_gt_weighted : Pattern2
  wicks_dbl_wicks : Pattern2
  wicks_gt_wicks : Pattern2
  body_in_body : Pattern2
  body_out_body : Pattern2
  range_in_range : Pattern2
  range_out_range : Pattern2
  body_in_range : Pattern2
  body_out_range : Pattern2
  range_in_body : Pattern2
  range_out_body : Pattern2
  harami : Pattern2

-- The position of the bit of a pattern.
unfoldable pub pattern2_bit : Pattern2 → ℕ
pattern2_bit pattern_none = 0
pattern2_bit bears = 0
pattern2_bit body_gt_body = 1
pattern2_bit bulls = 2
pattern2_bit close_gt_close = 3
pattern2_bit close_gt_high = 4
pattern2_bit close_lt_low = 5
pattern2_bit high_gt_high = 6
pattern2_bit high_gt_hoc = 7
pattern2_bit hoc_gt_high = 8
pattern2_bit hoc_gt_hoc = 9
pattern2_bit loc_lt_loc = 10
pattern2_bit loc_lt_low = 11
pattern2_bit low_lt_loc = 12
pattern2_bit low_lt_low = 13
pattern2_bit open_gt_open = 14
pattern2_bit pp_gt_pp = 15
pattern2_bit pp_gt_pp_open = 16
pattern2_bit range_dbl_range = 17
pattern2_bit range_gt_range = 18
pattern2_bit time_gap_day = 19
pattern2_bit weighted_gt_weighted = 20
pattern2_bit wicks_dbl_wicks = 21
pattern2_bit wicks_gt_wicks = 22
pattern2_bit body_in_body = 23
pattern2_bit body_out_body = 24
pattern2_bit range_in_range = 25
pattern2_bit range_out_range = 26
pattern2_bit body_in_range = 27
pattern2_bit body_out_range = 28
pattern2_bit range_in_body = 29
pattern2_bit range_out_body = 30
pattern2_bit harami = 31

-- The values of the enumeration; 1 << 31 stands as a pattern of 32 bits.
unfoldable pub pattern2_value : Pattern2 → ℕ
unfolding pattern2_bit
pattern2_value pattern_none = 0
pattern2_value e = 2 ^ pattern2_bit e

-- The values 1 << i, for i from 0 to 31, as patterns.
unfoldable pub patterns2 : List Pattern2
patterns2 =
    bears ∷ body_gt_body ∷ bulls ∷ close_gt_close ∷ close_gt_high ∷ close_lt_low ∷ high_gt_high
    ∷ high_gt_hoc ∷ hoc_gt_high ∷ hoc_gt_hoc ∷ loc_lt_loc ∷ loc_lt_low ∷ low_lt_loc ∷ low_lt_low
    ∷ open_gt_open ∷ pp_gt_pp ∷ pp_gt_pp_open ∷ range_dbl_range ∷ range_gt_range ∷ time_gap_day
    ∷ weighted_gt_weighted ∷ wicks_dbl_wicks ∷ wicks_gt_wicks ∷ body_in_body ∷ body_out_body
    ∷ range_in_range ∷ range_out_range ∷ body_in_range ∷ body_out_range ∷ range_in_body
    ∷ range_out_body ∷ harami ∷ []

module _ {F : Type 0} (p : Prices F) where
  open p use {add, sub, mul, div, abs, max, min, lt, of_nat, decimal}

  -- The patterns that are told from the candles alone.
  unfoldable pub check2_plain : Pattern2 → (ℕ → BarOhlc F) → Bool
  check2_plain bears c = is_bear p (c 0) && is_bear p (c 1)
  check2_plain body_gt_body c = lt (get_body_abs p (c 1)) (get_body_abs p (c 0))
  check2_plain bulls c = is_bull p (c 0) && is_bull p (c 1)
  check2_plain close_gt_close c = lt (c 1).close (c 0).close
  check2_plain close_gt_high c = lt (c 1).high (c 0).close
  check2_plain close_lt_low c = lt (c 0).close (c 1).low
  check2_plain hoc_gt_high c = lt (c 1).high (get_max_oc p (c 0))
  check2_plain hoc_gt_hoc c = lt (get_max_oc p (c 1)) (get_max_oc p (c 0))
  check2_plain high_gt_high c = lt (c 1).high (c 0).high
  check2_plain high_gt_hoc c = lt (get_max_oc p (c 1)) (c 0).high
  check2_plain loc_lt_loc c = lt (get_min_oc p (c 0)) (get_min_oc p (c 1))
  check2_plain loc_lt_low c = lt (get_min_oc p (c 0)) (c 1).low
  check2_plain low_lt_loc c = lt (c 0).low (get_min_oc p (c 1))
  check2_plain low_lt_low c = lt (c 0).low (c 1).low
  check2_plain open_gt_open c = lt (c 1).open_price (c 0).open_price
  check2_plain pp_gt_pp c = lt (get_pivot p (c 1)) (get_pivot p (c 0))
  check2_plain pp_gt_pp_open c =
      lt (get_pivot_with_open_of p (c 1).open_price (c 1)) (get_pivot p (c 0))
  check2_plain range_dbl_range c = lt (mul (get_range p (c 1)) (of_nat 2)) (get_range p (c 0))
  check2_plain range_gt_range c = lt (get_range p (c 1)) (get_range p (c 0))
  check2_plain time_gap_day c = ltb (24 * 60 * 60) ((c 0).time - (c 1).time)
  check2_plain weighted_gt_weighted c = lt (get_weighted p (c 1)) (get_weighted p (c 0))
  check2_plain wicks_dbl_wicks c = lt (mul (get_wick_sum p (c 1)) (of_nat 2)) (get_wick_sum p (c 0))
  check2_plain wicks_gt_wicks c = lt (get_wick_sum p (c 1)) (get_wick_sum p (c 0))
  check2_plain _ c = false

  -- The patterns that are told from those.
  unfoldable pub check2_of_plain : Pattern2 → (ℕ → BarOhlc F) → Bool
  unfolding check2_plain
  check2_of_plain body_in_body c =
      not (check2_plain hoc_gt_hoc c) && not (check2_plain loc_lt_loc c)
  check2_of_plain body_out_body c = check2_plain hoc_gt_hoc c && check2_plain loc_lt_loc c
  check2_of_plain range_in_range c =
      not (check2_plain high_gt_high c) && not (check2_plain low_lt_low c)
  check2_of_plain range_out_range c = check2_plain high_gt_high c && check2_plain low_lt_low c
  check2_of_plain body_in_range c =
      not (check2_plain hoc_gt_high c) && not (check2_plain loc_lt_low c)
  check2_of_plain body_out_range c = check2_plain hoc_gt_high c && check2_plain loc_lt_low c
  check2_of_plain range_in_body c =
      not (check2_plain high_gt_hoc c) && not (check2_plain low_lt_loc c)
  check2_of_plain range_out_body c = check2_plain high_gt_hoc c && check2_plain low_lt_loc c
  check2_of_plain e c = check2_plain e c

  -- CheckPattern
  unfoldable pub check2 : Pattern2 → (ℕ → BarOhlc F) → Bool
  unfolding check2_of_plain
  check2 harami c =
      check2_of_plain body_in_body c
      && check2_of_plain range_in_body c
      && not (check2_plain hoc_gt_hoc c)
      && not (check2_plain loc_lt_loc c)
  check2 e c = check2_of_plain e c

  -- The constructor from candles.
  unfoldable pub pattern_candle2 : (ℕ → BarOhlc F) → PatternCandle
  unfolding pattern_word pattern2_value check2 patterns2
  pattern_candle2 c = pattern_word pattern2_value (λ e. check2 e c) patterns2
