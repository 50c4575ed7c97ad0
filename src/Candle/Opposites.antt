-- ===== src/Candle/Opposites.antt =====
-- Patterns that exclude one another.
use ea31337_fft.Prelude.{ℕ, ◌≡◌, arith, false, ◌&&◌}
use ea31337_fft.Price.{Prices, IsOrdered}
use ea31337_fft.Candle.Bar.{
  BarOhlc, is_bear, is_bull, get_body_abs, get_pivot, get_range, get_wick_sum,
}
use ea31337_fft.Candle.Order.{lt_asym}
use ea31337_fft.Candle.Three.{Pattern3, check3}
use ea31337_fft.Candle.Four.{Pattern4, check4}

-- The pattern of the fall for each pattern of a rise of three candles.
abbrev pub falling3 : Pattern3 → Pattern3
falling3 Pattern3.bulls = Pattern3.bears
falling3 Pattern3.body_inc = Pattern3.body_dec
falling3 Pattern3.close_inc = Pattern3.close_dec
falling3 Pattern3.high_inc = Pattern3.high_dec
falling3 Pattern3.low_inc = Pattern3.low_dec
falling3 Pattern3.open_inc = Pattern3.open_dec
falling3 Pattern3.pp_inc = Pattern3.pp_dec
falling3 Pattern3.range_inc = Pattern3.range_dec
falling3 _ = Pattern3.pattern_none

-- The pattern of the fall for each pattern of a rise of four candles.
abbrev pub falling4 : Pattern4 → Pattern4
falling4 Pattern4.bulls = Pattern4.bears
falling4 Pattern4.body_inc = Pattern4.body_dec
falling4 Pattern4.close_inc = Pattern4.close_dec
falling4 Pattern4.high_inc = Pattern4.high_dec
falling4 Pattern4.low_inc = Pattern4.low_dec
falling4 Pattern4.open_inc = Pattern4.open_dec
falling4 Pattern4.pp_inc = Pattern4.pp_dec
falling4 Pattern4.range_inc = Pattern4.range_dec
falling4 Pattern4.wicks_inc = Pattern4.wicks_dec
falling4 Pattern4.bull_rev = Pattern4.bear_rev
falling4 Pattern4.bull_cont = Pattern4.bear_cont
falling4 Pattern4.inv_hammer = Pattern4.shoot_star
falling4 _ = Pattern4.pattern_none

module _ {F : Type 0} (p : Prices F) (o : IsOrdered p) (c : ℕ → BarOhlc F) where
  -- On ordinary prices, no three candles show a pattern of a rise together with that of the fall.
  pub check3-falling : (e : Pattern3) → check3 p e c && check3 p (falling3 e) c ≡ false
  unfolding check3 is_bull is_bear
  check3-falling Pattern3.bulls = ground (arith, lt_asym o (c 0).open_price (c 0).close)
  check3-falling Pattern3.body_inc =
      ground (arith, lt_asym o (get_body_abs p (c 1)) (get_body_abs p (c 0)))
  check3-falling Pattern3.close_inc = ground (arith, lt_asym o (c 1).close (c 0).close)
  check3-falling Pattern3.high_inc = ground (arith, lt_asym o (c 1).high (c 0).high)
  check3-falling Pattern3.low_inc = ground (arith, lt_asym o (c 1).low (c 0).low)
  check3-falling Pattern3.open_inc = ground (arith, lt_asym o (c 1).open_price (c 0).open_price)
  check3-falling Pattern3.pp_inc = ground (arith, lt_asym o (get_pivot p (c 1)) (get_pivot p (c 0)))
  check3-falling Pattern3.range_inc =
      ground (arith, lt_asym o (get_range p (c 1)) (get_range p (c 0)))
  check3-falling _ = ground arith

  -- On ordinary prices, no four candles show a pattern of a rise together with that of the fall.
  pub check4-falling : (e : Pattern4) → check4 p e c && check4 p (falling4 e) c ≡ false
  unfolding check4 is_bull is_bear
  check4-falling Pattern4.bulls = ground (arith, lt_asym o (c 0).open_price (c 0).close)
  check4-falling Pattern4.body_inc =
      ground (arith, lt_asym o (get_body_abs p (c 1)) (get_body_abs p (c 0)))
  check4-falling Pattern4.close_inc = ground (arith, lt_asym o (c 1).close (c 0).close)
  check4-falling Pattern4.high_inc = ground (arith, lt_asym o (c 1).high (c 0).high)
  check4-falling Pattern4.low_inc = ground (arith, lt_asym o (c 1).low (c 0).low)
  check4-falling Pattern4.open_inc = ground (arith, lt_asym o (c 1).open_price (c 0).open_price)
  check4-falling Pattern4.pp_inc = ground (arith, lt_asym o (get_pivot p (c 1)) (get_pivot p (c 0)))
  check4-falling Pattern4.range_inc =
      ground (arith, lt_asym o (get_range p (c 1)) (get_range p (c 0)))
  check4-falling Pattern4.wicks_inc =
      ground (arith, lt_asym o (get_wick_sum p (c 1)) (get_wick_sum p (c 0)))
  check4-falling Pattern4.bull_rev = ground (arith, lt_asym o (c 0).open_price (c 0).close)
  check4-falling Pattern4.bull_cont = ground (arith, lt_asym o (c 0).open_price (c 0).close)
  check4-falling Pattern4.inv_hammer = ground (arith, lt_asym o (c 0).open_price (c 0).close)
  check4-falling _ = ground arith
