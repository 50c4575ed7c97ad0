-- ===== src/Examples/Trades.antt =====
-- Trades: src/include/classes/Trade.struct.h.
use ea31337_fft.Prelude.{
  ℕ, ◌+◌, ◌%◌, ◌^◌, ◌≡◌, ◌↔◌, refl, true, false, not, ◌&&◌, ◌==◌, if◌then◌else◌,
}
use ea31337_fft.Bits.Flags.{has_any}
use ea31337_fft.DateTime.Periods.{get_started_periods}
use ea31337_fft.Trade.Stats.{
  StatType, StatPeriod, TradeStats, type_value, period_value, orders_opened, orders_closed,
  per_hour, per_day, add, get_order_stats,
}
use ea31337_fft.Trade.Stats.Laws.{reset_flag, order_stats-add, get_order_stats_lem}
use ea31337_fft.Trade.Limits.{TradeParams, is_limit_ge_values, is_limit_ge_stats}
use ea31337_fft.Trade.Limits.Reached.{AtLimit, is_limit_ge_values_iff, is_limit_ge_stats_sound}
use ea31337_fft.Examples.Times.{clock, times}

-- Five orders in every cell, looked at last in the hour before 01:00:00.
abbrev pub stats : TradeStats
stats = record { dt = λ t p. times 3599 3599; order_stats = λ t p. 5 }

order_stats-add_example :
    ((add orders_opened 2 stats).order_stats orders_closed per_day ≡ (
      if type_value orders_opened == type_value orders_closed
      then (stats.order_stats orders_closed per_day + 2) % 2 ^ 32
      else stats.order_stats orders_closed per_day))
    × ((add orders_opened 2 stats).dt ≡ stats.dt)
order_stats-add_example = order_stats-add orders_opened orders_closed per_day 2 stats

-- At 01:00:00 a reading of the daily closed orders, and what it leaves of the hourly opened ones.
get_order_stats_lem_example :
    let found = (get_started_periods clock true false 3600 (stats.dt orders_closed per_day)).0 in
    let out = get_order_stats clock 3600 orders_closed per_day true stats in
    (out.0 ≡ out.1.order_stats orders_closed per_day)
    × (out.1.order_stats orders_opened per_hour ≡ (
        if not (period_value per_day == 0) && has_any found (reset_flag per_hour)
        then 0
        else stats.order_stats orders_opened per_hour))
get_order_stats_lem_example =
    get_order_stats_lem clock 3600 orders_closed orders_opened per_day per_hour stats

abbrev params : TradeParams ℕ
params = record {
  lot_size = 0;
  risk_margin = 1;
  order_comment = "";
  limits_stats = λ t p. 0;
  slippage = 50;
  magic_no = 31337;
  bars_min = 100;
  log_level = 4;
}

abbrev three_an_hour : TradeParams ℕ
three_an_hour = record params { limits_stats = λ t p. if period_value p == 1 then 3 else 0 }

is_limit_ge_values_iff_example :
    (is_limit_ge_values orders_opened (λ p. 4) three_an_hour ≡ true)
    ↔ ((p : StatPeriod) × AtLimit three_an_hour orders_opened p 4)
is_limit_ge_values_iff_example = is_limit_ge_values_iff orders_opened (λ p. 4) three_an_hour

-- No limit but the overall one of opened orders: at 5 it is reached.
abbrev pub five_opened : TradeParams ℕ
five_opened = record params { limits_stats = λ t p. if period_value p == 0 then 5 else 0 }

is_limit_ge_stats_sound_example :
    let s' = (is_limit_ge_stats clock 3599 five_opened stats).1 in
    (t : StatType) × (p : StatPeriod) × AtLimit five_opened t p (s'.order_stats t p)
unfolding is_limit_ge_stats
is_limit_ge_stats_sound_example = is_limit_ge_stats_sound clock 3599 five_opened stats refl
