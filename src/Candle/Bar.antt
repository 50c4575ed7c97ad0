-- ===== src/Candle/Bar.antt =====
-- The structure BarOHLC of src/include/classes/Bar.struct.h.
pub mod Laws
use ea31337_fft.Prelude.{ℕ, ◌-◌, ◌/◌, ◌^◌, Bool, ◌&&◌, ◌==◌, List, [], ◌∷◌, if◌then◌else◌}
use ea31337_fft.Price.{Prices}

-- ENUM_APPLIED_PRICE of the platform; `other` stands for every other number.
pub data AppliedPrice : Type 0 where
  close open_price high low median typical weighted other : AppliedPrice

pub record BarOhlc (F : Type 0) : Type 0 where
  pub time : ℕ
  pub open_price : F
  pub high : F
  pub low : F
  pub close : F

-- The quotient by 120 of a signed difference of two times, rounded towards zero: what it is where the
-- difference is positive, and its opposite where it is negative.
unfoldable pub minutes_between : ℕ → ℕ → ℕ × ℕ
minutes_between a b = ((a - b) / 120, (b - a) / 120)

unfoldable pub same_minutes : ℕ × ℕ → ℕ × ℕ → Bool
same_minutes a b = a.0 == b.0 && a.1 == b.1

module _ {F : Type 0} (p : Prices F) where
  open p use {add, sub, mul, div, abs, max, min, lt, le, eq, of_nat}

  -- The constructors. The one from prices takes an array that is not empty; TimeCurrent() is written
  -- to the argument alone, which nothing reads afterwards.
  unfoldable pub empty_bar : BarOhlc F
  empty_bar = record {
    time = 0;
    open_price = of_nat 0;
    high = of_nat 0;
    low = of_nat 0;
    close = of_nat 0;
  }

  unfoldable pub new_bar : F → F → F → F → ℕ → BarOhlc F
  new_bar o h l c t = record { time = t; open_price = o; high = h; low = l; close = c }

  unfoldable pub last_price : F → List F → F
  last_price x [] = x
  last_price x (y ∷ ys) = last_price y ys

  -- The loop that widens the range of a bar to each price.
  unfoldable pub widen : List F → BarOhlc F → BarOhlc F
  widen [] b = b
  widen (x ∷ xs) b = widen xs (record b { high = max b.high x; low = min b.low x })

  unfoldable pub bar_of_prices : F → List F → ℕ → BarOhlc F
  unfolding last_price widen
  bar_of_prices first rest t =
      let o = last_price first rest in
      widen (first ∷ rest)
        (record { time = t; open_price = o; high = max first o; low = min first o; close = first })

  -- The getters.
  unfoldable pub is_bear : BarOhlc F → Bool
  is_bear b = lt b.close b.open_price

  unfoldable pub is_bull : BarOhlc F → Bool
  is_bull b = lt b.open_price b.close

  -- GetType: 1, -1 as a pattern of 16 bits, or 0.
  unfoldable pub get_type : BarOhlc F → ℕ
  unfolding is_bear is_bull
  get_type b = if is_bull b then 1 else if is_bear b then 2 ^ 16 - 1 else 0

  unfoldable pub get_range : BarOhlc F → F
  get_range b = sub b.high b.low

  unfoldable pub get_body : BarOhlc F → F
  get_body b = sub b.close b.open_price

  unfoldable pub get_body_abs : BarOhlc F → F
  get_body_abs b = abs (sub b.close b.open_price)

  unfoldable pub get_body_in_pct : ℕ → BarOhlc F → F
  unfolding get_range get_body_abs
  get_body_in_pct hundreds b =
      if lt (of_nat 0) (get_range b)
      then mul (div (of_nat hundreds) (get_range b)) (get_body_abs b)
      else of_nat 0

  unfoldable pub get_change_in_pct : ℕ → BarOhlc F → F
  get_change_in_pct hundreds b = mul (div (sub b.close b.open_price) b.open_price) (of_nat hundreds)

  unfoldable pub get_max_oc : BarOhlc F → F
  get_max_oc b = max b.open_price b.close

  unfoldable pub get_min_oc : BarOhlc F → F
  get_min_oc b = min b.open_price b.close

  unfoldable pub get_median : BarOhlc F → F
  get_median b = div (add b.high b.low) (of_nat 2)

  unfoldable pub get_typical : BarOhlc F → F
  get_typical b = div (add (add b.high b.low) b.close) (of_nat 3)

  unfoldable pub get_pivot : BarOhlc F → F
  unfolding get_typical
  get_pivot b = get_typical b

  unfoldable pub get_pivot_de_mark : BarOhlc F → F
  get_pivot_de_mark b =
      let pp =
        if lt b.close b.open_price
        then div (add (add b.high (mul (of_nat 2) b.low)) b.close) (of_nat 4)
        else div (add (add (mul (of_nat 2) b.high) b.low) b.close) (of_nat 4) in
      if eq b.open_price b.close
      then div (add (add b.high b.low) (mul (of_nat 2) b.close)) (of_nat 4)
      else pp

  unfoldable pub get_pivot_with_open : BarOhlc F → F
  get_pivot_with_open b = div (add (add (add b.open_price b.high) b.low) b.close) (of_nat 4)

  unfoldable pub get_pivot_with_open_of : F → BarOhlc F → F
  get_pivot_with_open_of o b = div (add (add (add o b.high) b.low) b.close) (of_nat 4)

  unfoldable pub get_range_change_in_pct : ℕ → BarOhlc F → F
  unfolding get_range
  get_range_change_in_pct hundreds b =
      sub (of_nat hundreds)
        (mul (div (of_nat hundreds) b.open_price) (abs (sub b.open_price (get_range b))))

  unfoldable pub get_range_in_pips : F → BarOhlc F → F
  unfolding get_range
  get_range_in_pips ppp b = div (get_range b) ppp

  unfoldable pub get_weighted : BarOhlc F → F
  get_weighted b = div (add (add (add b.high b.low) b.close) b.close) (of_nat 4)

  unfoldable pub get_wick_lower : BarOhlc F → F
  unfolding get_min_oc
  get_wick_lower b = sub (get_min_oc b) b.low

  unfoldable pub get_wick_upper : BarOhlc F → F
  unfolding get_max_oc
  get_wick_upper b = sub b.high (get_max_oc b)

  unfoldable pub get_wick_lower_in_pct : BarOhlc F → F
  unfolding get_range get_wick_lower
  get_wick_lower_in_pct b =
      if lt (of_nat 0) (get_range b)
      then mul (div (of_nat 100) (get_range b)) (get_wick_lower b)
      else of_nat 0

  unfoldable pub get_wick_upper_in_pct : BarOhlc F → F
  unfolding get_range get_wick_upper
  get_wick_upper_in_pct b =
      if lt (of_nat 0) (get_range b)
      then mul (div (of_nat 100) (get_range b)) (get_wick_upper b)
      else of_nat 0

  unfoldable pub get_wick_min : BarOhlc F → F
  unfolding get_wick_lower get_wick_upper
  get_wick_min b = min (get_wick_lower b) (get_wick_upper b)

  unfoldable pub get_wick_max : BarOhlc F → F
  unfolding get_wick_lower get_wick_upper
  get_wick_max b = max (get_wick_lower b) (get_wick_upper b)

  unfoldable pub get_wick_sum : BarOhlc F → F
  unfolding get_wick_lower get_wick_upper
  get_wick_sum b = add (get_wick_lower b) (get_wick_upper b)

  -- IsValid; `a >= b` is `le b a`.
  unfoldable pub is_valid_bar : BarOhlc F → Bool
  is_valid_bar b = le b.low b.high && lt (of_nat 0) (min b.open_price b.close)

  -- GetValues, what it leaves in the array
  unfoldable pub get_values : BarOhlc F → List F
  get_values b = b.open_price ∷ b.high ∷ b.low ∷ b.close ∷ []

  -- The static GetAppliedPrice, and that of a bar
  unfoldable pub applied_price : AppliedPrice → F → F → F → F → F
  applied_price AppliedPrice.close o h l c = c
  applied_price AppliedPrice.open_price o h l c = o
  applied_price AppliedPrice.high o h l c = h
  applied_price AppliedPrice.low o h l c = l
  applied_price AppliedPrice.median o h l c = div (add h l) (of_nat 2)
  applied_price AppliedPrice.typical o h l c = div (add (add h l) c) (of_nat 3)
  applied_price AppliedPrice.weighted o h l c = div (add (add (add h l) c) c) (of_nat 4)
  applied_price AppliedPrice.other o h l c = o

  unfoldable pub get_applied_price : AppliedPrice → BarOhlc F → F
  unfolding applied_price
  get_applied_price ap b = applied_price ap b.open_price b.high b.low b.close
