-- ===== src/Trade/Limits/Laws.antt =====
-- What the limit setters leave, and when a limit is reported as reached.
use ea31337_fft.Prelude.{ℕ, ◌≡◌, refl, arith, ◌&&◌, List, [], ◌∷◌, ◌==◌, if◌then◌else◌}
use ea31337_fft.Trade.Stats.{
  StatType, StatPeriod, stat_types, stat_periods, type_value, period_value, all,
}
use ea31337_fft.Trade.Stats.Laws.{mem, mem_all}
use ea31337_fft.Trade.Limits.{
  TradeParams, get_limits, set_limits, set_limits_types, set_limits_of_period, set_limits_periods,
  set_limits_of_type, set_limits_cells, set_all_limits,
}

module _ {F : Type 0} where
  limits-set_limits :
      (t t' : StatType) (p p' : StatPeriod) (value : ℕ) (params : TradeParams F)
      → (set_limits t p value params).limits_stats t' p' ≡ (
          if (type_value t == type_value t') && (period_value p == period_value p')
          then value
          else params.limits_stats t' p')
  unfolding set_limits
  limits-set_limits t t' p p' value params = refl

  limits-set_types :
      (p p' : StatPeriod) (t' : StatType) (value : ℕ) (ts : List StatType) (params : TradeParams F)
      → (set_limits_types p value ts params).limits_stats t' p' ≡ (
          if mem t' ts && (period_value p == period_value p')
          then value
          else params.limits_stats t' p')
  unfolding set_limits_types mem
  limits-set_types p p' t' value [] params = refl
  limits-set_types p p' t' value (t ∷ ts) params =
      ground (arith, limits-set_types p p' t' value ts (set_limits t p value params))

  limits-set_periods :
      (t t' : StatType) (p' : StatPeriod) (value : ℕ) (params : TradeParams F)
      → (set_limits_periods t value stat_periods params).limits_stats t' p'
        ≡ (if type_value t == type_value t' then value else params.limits_stats t' p')
  unfolding set_limits_periods type_value period_value
  limits-set_periods t t' all value params = ground arith
  limits-set_periods t t' _ value params = ground arith

  limits-set_cells :
      (t' : StatType) (p' : StatPeriod) (value : ℕ) (ts : List StatType) (params : TradeParams F)
      → (set_limits_cells value ts params).limits_stats t' p'
        ≡ (if mem t' ts then value else params.limits_stats t' p')
  unfolding set_limits_cells mem
  limits-set_cells t' p' value [] params = refl
  limits-set_cells t' p' value (t ∷ ts) params = ground (
    arith,
    limits-set_cells t' p' value ts (set_limits_periods t value stat_periods params),
    limits-set_periods t t' p' value params,
  )

  -- What GetLimits reads, in any cell, after each of the four setters: the value in the cells of
  -- the type, of the period, of both or everywhere, and the former limit in all other cells.
  pub get_limits-set :
      (t t' : StatType) (p p' : StatPeriod) (value : ℕ) (params : TradeParams F)
      → let old = get_limits t' p' params in
        let same_type = type_value t == type_value t' in
        let same_period = period_value p == period_value p' in
        (get_limits t' p' (set_limits t p value params)
          ≡ (if same_type && same_period then value else old))
        × (get_limits t' p' (set_limits_of_period p value params)
            ≡ (if same_period then value else old))
        × (get_limits t' p' (set_limits_of_type t value params)
            ≡ (if same_type then value else old))
        × (get_limits t' p' (set_all_limits value params) ≡ value)
  unfolding get_limits set_limits set_limits_of_period set_limits_of_type set_all_limits
  get_limits-set t t' p p' value params = (
    refl,
    ground (arith, limits-set_types p p' t' value stat_types params, mem_all t'),
    limits-set_periods t t' p' value params,
    ground (arith, limits-set_cells t' p' value stat_types params, mem_all t'),
  )
