-- ===== src/Trade/Limits.antt =====
-- The structure TradeParams, in src/include/classes/Trade.struct.h, and its trade limits. The
-- floating-point members have the type F, on which nothing here depends.
use Prim.Native.String.{String}
use ea31337_fft.Prelude.{ℕ, Bool, true, false, ◌&&◌, List, [], ◌∷◌, ltb, leb, if◌then◌else◌}
use ea31337_fft.DateTime.Entry.{MqlDateTime}
use ea31337_fft.Trade.Stats.{
  StatType, StatPeriod, TradeStats, stat_types, stat_periods, write, get_order_stats,
}
pub mod Laws
pub mod Reached

pub record TradeParams (F : Type 0) : Type 0 where
  pub lot_size : F
  pub risk_margin : F
  pub order_comment : String
  pub limits_stats : StatType → StatPeriod → ℕ
  pub slippage : ℕ
  pub magic_no : ℕ
  pub bars_min : ℕ
  pub log_level : ℕ

module _ {F : Type 0} where
  unfoldable pub get_limits : StatType → StatPeriod → TradeParams F → ℕ
  get_limits t p params = params.limits_stats t p

  -- SetLimits(type, period, value)
  unfoldable pub set_limits : StatType → StatPeriod → ℕ → TradeParams F → TradeParams F
  unfolding write
  set_limits t p value params = record params { limits_stats = write params.limits_stats t p value }

  -- The loop of SetLimits(period, value)
  unfoldable pub set_limits_types : StatPeriod → ℕ → List StatType → TradeParams F → TradeParams F
  unfolding set_limits
  set_limits_types p value [] params = params
  set_limits_types p value (t ∷ ts) params =
      set_limits_types p value ts (set_limits t p value params)

  unfoldable pub set_limits_of_period : StatPeriod → ℕ → TradeParams F → TradeParams F
  unfolding set_limits_types
  set_limits_of_period p value params = set_limits_types p value stat_types params

  -- The loop of SetLimits(type, value)
  unfoldable pub set_limits_periods : StatType → ℕ → List StatPeriod → TradeParams F → TradeParams F
  unfolding set_limits
  set_limits_periods t value [] params = params
  set_limits_periods t value (p ∷ ps) params =
      set_limits_periods t value ps (set_limits t p value params)

  unfoldable pub set_limits_of_type : StatType → ℕ → TradeParams F → TradeParams F
  unfolding set_limits_periods
  set_limits_of_type t value params = set_limits_periods t value stat_periods params

  -- The loops of SetLimits(value)
  unfoldable pub set_limits_cells : ℕ → List StatType → TradeParams F → TradeParams F
  unfolding set_limits_periods
  set_limits_cells value [] params = params
  set_limits_cells value (t ∷ ts) params =
      set_limits_cells value ts (set_limits_periods t value stat_periods params)

  unfoldable pub set_all_limits : ℕ → TradeParams F → TradeParams F
  unfolding set_limits_cells
  set_all_limits value params = set_limits_cells value stat_types params

  -- IsLimitGe(type, period, value)
  unfoldable pub is_limit_ge : StatType → StatPeriod → ℕ → TradeParams F → Bool
  is_limit_ge t p value params =
      ltb 0 (params.limits_stats t p) && leb (params.limits_stats t p) value

  -- The loop of IsLimitGe(type, values)
  unfoldable pub is_limit_ge_from :
      StatType → (StatPeriod → ℕ) → List StatPeriod → TradeParams F → Bool
  unfolding is_limit_ge
  is_limit_ge_from t value [] params = false
  is_limit_ge_from t value (p ∷ ps) params =
      let rest = is_limit_ge_from t value ps params in
      if ltb 0 (value p) && is_limit_ge t p (value p) params then true else rest

  unfoldable pub is_limit_ge_values : StatType → (StatPeriod → ℕ) → TradeParams F → Bool
  unfolding is_limit_ge_from
  is_limit_ge_values t value params = is_limit_ge_from t value stat_periods params

  -- IsLimitGe(stats), which reads each counter with its reset, and so changes the statistics.
  module _ (time_to_struct : ℕ → MqlDateTime) (now : ℕ) (params : TradeParams F) where
    -- The inner loop, over the periods of one type.
    unfoldable pub is_limit_ge_periods : StatType → List StatPeriod → TradeStats → Bool × TradeStats
    unfolding get_order_stats is_limit_ge
    is_limit_ge_periods t [] s = (false, s)
    is_limit_ge_periods t (p ∷ ps) s =
        let read = get_order_stats time_to_struct now t p true s in
        let rest = is_limit_ge_periods t ps read.1 in
        if ltb 0 read.0 && is_limit_ge t p read.0 params then (true, read.1) else rest

    -- The outer loop, over the types.
    unfoldable pub is_limit_ge_types : List StatType → TradeStats → Bool × TradeStats
    unfolding is_limit_ge_periods
    is_limit_ge_types [] s = (false, s)
    is_limit_ge_types (t ∷ ts) s =
        let one = is_limit_ge_periods t stat_periods s in
        let rest = is_limit_ge_types ts one.1 in if one.0 then (true, one.1) else rest

    unfoldable pub is_limit_ge_stats : TradeStats → Bool × TradeStats
    unfolding is_limit_ge_types
    is_limit_ge_stats s = is_limit_ge_types stat_types s
