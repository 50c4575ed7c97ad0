-- ===== src/Candle/Order.antt =====
-- Comparisons of prices, and bars whose open and close lie in their range.
use ea31337_fft.Prelude.{◌≡◌, arith, Bool, false, not, ◌&&◌, ◌||◌, Bool-cases, inl, inr}
use ea31337_fft.Price.{Prices, IsOrdered}
use ea31337_fft.Candle.Bar.{BarOhlc, get_max_oc, get_min_oc}

-- The Boolean implication.
abbrev pub implies : Bool → Bool → Bool
implies a b = not a || b

module _ {F : Type 0} {p : Prices F} (o : IsOrdered p) where
  pub lt_asym : (a b : F) → p.lt a b && p.lt b a ≡ false
  lt_asym a b = elim (Bool-cases (p.lt a b && p.lt b a)) [
    | inl both ↦ absurd (ground (arith, o.lt_irrefl a, o.lt_trans a b a))
    | inr one ↦ one
  ]

-- The open and the close of a bar lie between its low and its high.
abbrev pub IsBar : {F : Type 0} → Prices F → BarOhlc F → Type 0
IsBar p b =
    (p.lt b.open_price b.low ≡ false)
    × (p.lt b.close b.low ≡ false)
    × (p.lt b.high b.open_price ≡ false)
    × (p.lt b.high b.close ≡ false)

module _ {F : Type 0} (p : Prices F) (o : IsOrdered p) (b : BarOhlc F) (h : IsBar p b) where
  pub max_oc-le-high : p.lt b.high (get_max_oc p b) ≡ false
  unfolding get_max_oc
  max_oc-le-high = ground (arith, h, o.lt-max b.open_price b.close b.high)

  pub low-le-min_oc : p.lt (get_min_oc p b) b.low ≡ false
  unfolding get_min_oc
  low-le-min_oc = ground (arith, h, o.min-lt b.open_price b.close b.low)
