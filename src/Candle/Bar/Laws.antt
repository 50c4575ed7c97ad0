-- ===== src/Candle/Bar/Laws.antt =====
-- The bar that is made from prices contains them all.
use ea31337_fft.Prelude.{
  ◌∙◌, ap, sym, some, get_elem?, length, ◌≡◌, refl, arith, false, List, [], ◌∷◌, ℕ,
}
use ea31337_fft.Price.{Prices, IsOrdered}
use ea31337_fft.Candle.Bar.{BarOhlc, widen, bar_of_prices, last_price}

module _ {F : Type 0} (p : Prices F) where
  -- A price is in the range of a bar.
  abbrev pub InRange : BarOhlc F → F → Type 0
  InRange b x = (p.lt x b.low ≡ false) × (p.lt b.high x ≡ false)

  abbrev pub AllInRange : BarOhlc F → List F → Type 0
  AllInRange b [] = Unit {0}
  AllInRange b (x ∷ xs) = InRange b x × AllInRange b xs

module _ {F : Type 0} (p : Prices F) (o : IsOrdered p) where
  -- The range of a bar contains the range of another.
  abbrev Wider : BarOhlc F → BarOhlc F → Type 0
  Wider b b' =
      (p.lt b.low b'.low ≡ false)
      × (p.lt b'.high b.high ≡ false)
      × (b'.open_price ≡ b.open_price)
      × (b'.close ≡ b.close)
      × (b'.time ≡ b.time)

  in_larger : (b b' : BarOhlc F) (x : F) → Wider b b' → InRange p b x → InRange p b' x
  in_larger b b' x w r =
      ground (arith, w, r, o.le_trans b'.low b.low x, o.le_trans x b.high b'.high)

  widen_once :
      (b : BarOhlc F) (x : F) → Wider b (record b { high = p.max b.high x; low = p.min b.low x })
  widen_once b x = (
    ground (arith, o.lt-min b.low x b.low, o.lt_irrefl b.low),
    ground (arith, o.max-lt b.high x b.high, o.lt_irrefl b.high),
    refl,
    refl,
    refl,
  )

  widen_in :
      (b : BarOhlc F) (x : F)
      → InRange p (record b { high = p.max b.high x; low = p.min b.low x }) x
  widen_in b x = (
    ground (arith, o.lt-min b.low x x, o.lt_irrefl x),
    ground (arith, o.max-lt b.high x x, o.lt_irrefl x),
  )

  Wider-trans : (a b c : BarOhlc F) → Wider a b → Wider b c → Wider a c
  Wider-trans a b c (l, h, op, cl, t) (l', h', op', cl', t') = (
    ground (arith, o.le_trans c.low b.low a.low),
    ground (arith, o.le_trans a.high b.high c.high),
    op' ∙ op,
    cl' ∙ cl,
    t' ∙ t,
  )

  widen_lem :
      (xs : List F) (b : BarOhlc F) → Wider b (widen p xs b) × AllInRange p (widen p xs b) xs
  unfolding widen
  widen_lem [] b = ((o.lt_irrefl b.low, o.lt_irrefl b.high, refl, refl, refl), tt)
  widen_lem (x ∷ xs) b =
      let b1 = record b { high = p.max b.high x; low = p.min b.low x } in
      let (w, r) = widen_lem xs b1 in
      (
        Wider-trans b b1 (widen p xs b1) (widen_once b x) w,
        (in_larger b1 (widen p xs b1) x w (widen_in b x), r),
      )

  -- What the program takes for the last price stands at the last position.
  last_price-get_elem? :
      (x : F) (xs : List F) → get_elem? (x ∷ xs) (length xs) ≡ some (last_price p x xs)
  unfolding last_price
  last_price-get_elem? x [] = refl
  last_price-get_elem? x (y ∷ ys) = last_price-get_elem? y ys

  -- On ordinary prices, the bar that is made from an array of prices has every price in its range, the
  -- first as its close, the one at the last position as its open, and the time it was given, 0 for none.
  pub bar_of_prices_lem :
      (first : F) (rest : List F) (t : ℕ)
      → let b = bar_of_prices p first rest t in
        AllInRange p b (first ∷ rest)
        × (b.close ≡ first)
        × (get_elem? (first ∷ rest) (length rest) ≡ some b.open_price)
        × (b.time ≡ t)
  unfolding bar_of_prices
  bar_of_prices_lem first rest t =
      let opening = last_price p first rest in
      let b : BarOhlc F = record {
        time = t;
        open_price = opening;
        high = p.max first opening;
        low = p.min first opening;
        close = first;
      } in
      let ((l, h, op, cl, tm), r) = widen_lem (first ∷ rest) b in
      (r, cl, last_price-get_elem? first rest ∙ ap some (sym op), tm)
