-- ===== src/Trade/Stats/Laws.antt =====
-- What the counters hold after they were added to, reset and read.
use ea31337_fft.Prelude.{
  ℕ, ◌+◌, ◌%◌, ◌^◌, ◌≤◌, ◌≡◌, refl, arith, Bool, true, false, ◌&&◌, ◌||◌, List, [], ◌∷◌, ◌==◌,
  if◌then◌else◌, not,
}
use ea31337_fft.Bits.Flags.{has_any}
use ea31337_fft.DateTime.Entry.{
  MqlDateTime, datetime_hour, get_value, get_value_mask, datetime_day, datetime_week,
  datetime_month, datetime_year,
}
use ea31337_fft.DateTime.Periods.{DateTime, started_result, get_started_periods}
use ea31337_fft.Trade.Stats.{
  StatType, StatPeriod, all, per_hour, per_day, TradeStats, stat_types, type_value, period_value,
  add, reset_cell, reset_types, reset_period, reset_started, orders_closed, reset_if, per_week,
  per_month, per_year, get_order_stats, write,
}
use ea31337_fft.Bits.Digits.{bit_and-le_right}

-- Add counts one type in every period, as a 32-bit word, and leaves the other types and all times
-- alone.
pub order_stats-add :
    (t t' : StatType) (p : StatPeriod) (value : ℕ) (s : TradeStats)
    → ((add t value s).order_stats t' p ≡ (
        if type_value t == type_value t'
        then (s.order_stats t' p + value) % 2 ^ 32
        else s.order_stats t' p))
      × ((add t value s).dt ≡ s.dt)
unfolding add type_value period_value
order_stats-add t t' all value s = (ground arith, refl)
order_stats-add t t' _ value s = (ground arith, refl)

-- The type is in the list.
unfoldable pub mem : StatType → List StatType → Bool
mem t [] = false
mem t (u ∷ us) = (type_value u == type_value t) || mem t us

-- The flag of the started period that resets a counter.
abbrev pub reset_flag : StatPeriod → ℕ
reset_flag all = 0
reset_flag per_hour = datetime_hour
reset_flag per_day = datetime_day
reset_flag per_week = datetime_week
reset_flag per_month = datetime_month
reset_flag per_year = datetime_year

has_any-zero : (w : ℕ) → has_any w 0 ≡ false
unfolding has_any
has_any-zero w = ground (arith, bit_and-le_right w 0)

pub mem_all : (t : StatType) → mem t stat_types ≡ true
unfolding mem type_value
mem_all orders_closed = refl
mem_all _ = refl

-- A started period that resets a counter is an hour at least.
flag-le :
    (p : StatPeriod) (d : DateTime)
    → has_any (started_result d) (reset_flag p) ≡ true
    → 4 ≤ started_result d
unfolding started_result has_any get_value get_value_mask
flag-le all d h = ground (arith, has_any-zero (started_result d))
flag-le per_hour d h = ground arith
flag-le _ d h = ground arith

module _ (time_to_struct : ℕ → MqlDateTime) (now : ℕ) where
  order_stats-reset_types :
      (p p' : StatPeriod) (t' : StatType) (ts : List StatType) (s : TradeStats)
      → (reset_types time_to_struct now p ts s).order_stats t' p'
        ≡ (if mem t' ts && (period_value p == period_value p') then 0 else s.order_stats t' p')
  unfolding reset_types mem
  order_stats-reset_types p p' t' [] s = refl
  order_stats-reset_types p p' t' (t ∷ ts) s =
      ground (arith, order_stats-reset_types p p' t' ts (reset_cell time_to_struct now t p s))

  -- Resetting a period clears its counter in every type and no counter of another period.
  pub order_stats-reset_period :
      (p p' : StatPeriod) (t' : StatType) (s : TradeStats)
      → (reset_period time_to_struct now p s).order_stats t' p'
        ≡ (if period_value p == period_value p' then 0 else s.order_stats t' p')
  unfolding reset_period
  order_stats-reset_period p p' t' s =
      ground (arith, order_stats-reset_types p p' t' stat_types s, mem_all t')

  order_stats-reset_if :
      (b : Bool) (p p' : StatPeriod) (t' : StatType) (s : TradeStats)
      → (reset_if time_to_struct now b p s).order_stats t' p'
        ≡ (if b && (period_value p == period_value p') then 0 else s.order_stats t' p')
  unfolding reset_if
  order_stats-reset_if true p p' t' s = order_stats-reset_period p p' t' s
  order_stats-reset_if false p p' t' s = refl

  -- The counters after the resets that the started periods call for: a period's counter is
  -- cleared, in every type, exactly when its own flag is among them, and the overall counter never.
  pub order_stats-reset_started :
      (periods : ℕ) (p' : StatPeriod) (t' : StatType) (s : TradeStats)
      → (reset_started time_to_struct now periods s).order_stats t' p'
        ≡ (if has_any periods (reset_flag p') then 0 else s.order_stats t' p')
  unfolding reset_started period_value
  order_stats-reset_started periods all t' s =
      rw (has_any-zero periods) (simp order_stats-reset_if (ground arith))
  order_stats-reset_started periods per_hour t' s = simp order_stats-reset_if (ground arith)
  order_stats-reset_started periods _ t' s = simp order_stats-reset_if (ground arith)

  -- GetOrderStats with its reset: it returns the counter that it leaves, and of all counters, of
  -- every type and period, it clears exactly those whose period is among the started ones that the
  -- cell it reads has found; on the overall period it changes none.
  pub get_order_stats_lem :
      (t t' : StatType) (p p' : StatPeriod) (s : TradeStats)
      → let found = (get_started_periods time_to_struct true false now (s.dt t p)).0 in
        let out = get_order_stats time_to_struct now t p true s in
        (out.0 ≡ out.1.order_stats t p)
        × (out.1.order_stats t' p' ≡ (
            if not (period_value p == 0) && has_any found (reset_flag p')
            then 0
            else s.order_stats t' p'))
  unfolding get_order_stats get_started_periods write
  get_order_stats_lem t t' p p' s =
      let u = (get_started_periods time_to_struct true false now (s.dt t p)).1 in
      let s1 = record s { dt = write s.dt t p u } in
      (refl, ground (arith, order_stats-reset_started (started_result u) p' t' s1, flag-le p' u))
