-- ===== src/Trade/Stats.antt =====
-- Trade statistics: the structure TradeStats of src/include/classes/Trade.struct.h, with the
-- enumerations of src/include/classes/Trade.enum.h. A matrix is a function of its two indices.
use ea31337_fft.Prelude.{
  ℕ, ◌+◌, ◌%◌, ◌^◌, Bool, true, false, not, ◌&&◌, List, [], ◌∷◌, leb, ◌==◌, if◌then◌else◌,
}
use ea31337_fft.Bits.Flags.{has_any}
use ea31337_fft.DateTime.Entry.{
  MqlDateTime, datetime_hour, datetime_day, datetime_week, datetime_month, datetime_year,
}
use ea31337_fft.DateTime.Periods.{DateTime, get_started_periods}
pub mod Laws

-- ENUM_TRADE_STAT_PERIOD
pub data StatPeriod : Type 0 where
  all per_hour per_day per_week per_month per_year : StatPeriod

-- ENUM_TRADE_STAT_TYPE
pub data StatType : Type 0 where
  orders_closed orders_closed_wins orders_errors orders_opened : StatType
  orders_pending_deleted orders_pending_opened orders_pending_triggered : StatType

unfoldable pub period_value : StatPeriod → ℕ
period_value all = 0
period_value per_hour = 1
period_value per_day = 2
period_value per_week = 3
period_value per_month = 4
period_value per_year = 5

unfoldable pub type_value : StatType → ℕ
type_value orders_closed = 0
type_value orders_closed_wins = 1
type_value orders_errors = 2
type_value orders_opened = 3
type_value orders_pending_deleted = 4
type_value orders_pending_opened = 5
type_value orders_pending_triggered = 6

-- The indices of the loops, in order.
abbrev pub stat_periods : List StatPeriod
stat_periods = all ∷ per_hour ∷ per_day ∷ per_week ∷ per_month ∷ per_year ∷ []

abbrev pub stat_types : List StatType
stat_types =
    orders_closed ∷ orders_closed_wins ∷ orders_errors ∷ orders_opened ∷ orders_pending_deleted
    ∷ orders_pending_opened ∷ orders_pending_triggered ∷ []

abbrev pub same_cell : StatType → StatPeriod → StatType → StatPeriod → Bool
unfolding type_value period_value
same_cell t p t' p' = (type_value t == type_value t') && (period_value p == period_value p')

-- `m[t][p] = v`
unfoldable pub write {ℓ} :
    {A : Type ℓ}
    → (StatType → StatPeriod → A)
    → StatType
    → StatPeriod
    → A
    → StatType
    → StatPeriod
    → A
unfolding type_value period_value
write m t p v t' p' = if same_cell t p t' p' then v else m t' p'

pub record TradeStats : Type 0 where
  pub dt : StatType → StatPeriod → DateTime
  pub order_stats : StatType → StatPeriod → ℕ

-- Add; the counters are 32-bit words, and `value` is the pattern of an `int`.
unfoldable pub add_at : StatType → ℕ → List StatPeriod → TradeStats → TradeStats
unfolding write
add_at t value [] s = s
add_at t value (p ∷ ps) s =
    add_at t value ps
      (record s { order_stats = write s.order_stats t p ((s.order_stats t p + value) % 2 ^ 32) })

unfoldable pub add : StatType → ℕ → TradeStats → TradeStats
unfolding add_at
add t value s = add_at t value stat_periods s

-- `time_to_struct` and `now` are the platform's TimeToStruct and TimeCurrent().
module _ (time_to_struct : ℕ → MqlDateTime) (now : ℕ) where
  -- One cell: its counter is cleared and its last time set.
  unfoldable pub reset_cell : StatType → StatPeriod → TradeStats → TradeStats
  unfolding write
  reset_cell t p s = record s {
    order_stats = write s.order_stats t p 0;
    dt = write s.dt t p ((get_started_periods time_to_struct true true now (s.dt t p)).1);
  }

  -- The loop of ResetStats(ENUM_TRADE_STAT_PERIOD)
  unfoldable pub reset_types : StatPeriod → List StatType → TradeStats → TradeStats
  unfolding reset_cell
  reset_types p [] s = s
  reset_types p (t ∷ ts) s = reset_types p ts (reset_cell t p s)

  unfoldable pub reset_period : StatPeriod → TradeStats → TradeStats
  unfolding reset_types
  reset_period p s = reset_types p stat_types s

  -- The loop of ResetStats(ENUM_TRADE_STAT_TYPE)
  unfoldable pub reset_periods : StatType → List StatPeriod → TradeStats → TradeStats
  unfolding reset_cell
  reset_periods t [] s = s
  reset_periods t (p ∷ ps) s = reset_periods t ps (reset_cell t p s)

  unfoldable pub reset_type : StatType → TradeStats → TradeStats
  unfolding reset_periods
  reset_type t s = reset_periods t stat_periods s

  -- ResetStats()
  unfoldable pub reset_all_types : List StatType → TradeStats → TradeStats
  unfolding reset_type
  reset_all_types [] s = s
  reset_all_types (t ∷ ts) s = reset_all_types ts (reset_type t s)

  unfoldable pub reset_all : TradeStats → TradeStats
  unfolding reset_all_types
  reset_all s = reset_all_types stat_types s

  -- `if (test) ResetStats(period);`
  unfoldable pub reset_if : Bool → StatPeriod → TradeStats → TradeStats
  reset_if test p s = if test then reset_period p s else s

  -- ResetStats(type, period, periods), which reads neither its type nor its period.
  unfoldable pub reset_started : ℕ → TradeStats → TradeStats
  reset_started periods s0 =
      let s1 = reset_if (has_any periods datetime_hour) per_hour s0 in
      let s2 = reset_if (has_any periods datetime_day) per_day s1 in
      let s3 = reset_if (has_any periods datetime_week) per_week s2 in
      let s4 = reset_if (has_any periods datetime_month) per_month s3 in
      reset_if (has_any periods datetime_year) per_year s4

  -- GetOrderStats(type, period, reset)
  unfoldable pub get_order_stats : StatType → StatPeriod → Bool → TradeStats → ℕ × TradeStats
  unfolding write period_value
  get_order_stats t p reset s =
      let looked = get_started_periods time_to_struct true false now (s.dt t p) in
      let s1 = record s { dt = write s.dt t p looked.1 } in
      let s2 = if leb datetime_hour looked.0 then reset_started looked.0 s1 else s1 in
      let s3 = if reset && not (period_value p == 0) then s2 else s in (s3.order_stats t p, s3)

-- ResetStats(type, period)
unfoldable pub clear_cell : StatType → StatPeriod → TradeStats → TradeStats
unfolding write
clear_cell t p s = record s { order_stats = write s.order_stats t p 0 }
