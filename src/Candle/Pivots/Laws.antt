-- ===== src/Candle/Pivots/Laws.antt =====
-- What GetPivots returns.
use ea31337_fft.Prelude.{◌≡◌, arith, false}
use ea31337_fft.Price.{Prices}
use ea31337_fft.Candle.Bar.{BarOhlc}
use ea31337_fft.Candle.Pivots.{Pivots, get_pivots, pivots_of, descending, floor}

module _ {F : Type 0} (p : Prices F) (irrefl : (a : F) → p.lt a a ≡ false) where
  -- For floor pivots GetPivots returns false for every bar, since it sets the fourth level to the
  -- third.
  pub get_pivots-floor : (b : BarOhlc F) (old : Pivots F) → (get_pivots p floor b old).0 ≡ false
  unfolding get_pivots pivots_of descending
  get_pivots-floor b old = let h = irrefl (pivots_of p floor b old).r3 in ground (arith, h)
