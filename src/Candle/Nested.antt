-- ===== src/Candle/Nested.antt =====
-- How the patterns of two candles that compare bodies and ranges imply one another.
use ea31337_fft.Prelude.{ℕ, ◌≡◌, arith, true}
use ea31337_fft.Price.{Prices, IsOrdered}
use ea31337_fft.Candle.Bar.{BarOhlc, get_max_oc, get_min_oc}
use ea31337_fft.Candle.Two.{
  check2, harami, body_in_body, range_in_body, range_in_range, body_in_range,
}
use ea31337_fft.Candle.Order.{IsBar, implies, max_oc-le-high, low-le-min_oc}

module _ {F : Type 0} (p : Prices F) (o : IsOrdered p) (c : ℕ → BarOhlc F) (first : IsBar p (c 0))
    (second : IsBar p (c 1)) where
  -- On ordinary prices, and bars whose open and close lie in their range, the patterns of being inside
  -- imply one another from the narrowest on, and a harami is the same as a range inside the body.
  pub check2-inside :
      (check2 p harami c ≡ check2 p range_in_body c)
      × (implies (check2 p range_in_body c) (check2 p body_in_body c) ≡ true)
      × (implies (check2 p range_in_body c) (check2 p range_in_range c) ≡ true)
      × (implies (check2 p body_in_body c) (check2 p body_in_range c) ≡ true)
      × (implies (check2 p range_in_range c) (check2 p body_in_range c) ≡ true)
  unfolding check2
  check2-inside =
      let h0 = max_oc-le-high p o (c 0) first in
      let l0 = low-le-min_oc p o (c 0) first in
      let h1 = max_oc-le-high p o (c 1) second in
      let l1 = low-le-min_oc p o (c 1) second in
      let hi0 = (c 0).high in
      let hi1 = (c 1).high in
      let lo0 = (c 0).low in
      let lo1 = (c 1).low in
      let mx0 = get_max_oc p (c 0) in
      let mx1 = get_max_oc p (c 1) in
      let mn0 = get_min_oc p (c 0) in
      let mn1 = get_min_oc p (c 1) in
      let a = o.le_trans mx0 hi0 mx1 in
      let b = o.le_trans mn1 lo0 mn0 in
      let d = o.le_trans hi0 mx1 hi1 in
      let e = o.le_trans lo1 mn1 lo0 in
      let f = o.le_trans mx0 mx1 hi1 in
      let g = o.le_trans lo1 mn1 mn0 in
      let k = o.le_trans mx0 hi0 hi1 in
      let m = o.le_trans lo1 lo0 mn0 in
      (
        ground (arith, h0, l0, a, b),
        ground (arith, h0, l0, a, b),
        ground (arith, h1, l1, d, e),
        ground (arith, h1, l1, f, g),
        ground (arith, h0, l0, k, m),
      )
