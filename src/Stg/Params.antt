-- ===== src/Stg/Params.antt =====
-- The structure StgParams of src/include/classes/Strategy.struct.h, with ENUM_STRATEGY_PARAM of
-- src/include/classes/Strategy.enum.h.
use ea31337_fft.Prelude.{ℕ, Bool, true, false, Option, none, some}
use ea31337_fft.UserError.{UserError, invalid_parameter}
use ea31337_fft.Casts.{Casts}
use ea31337_fft.Timeframe.Tables.{Timeframe, period_current}
use ea31337_fft.Timeframe.ChartTf.{ChartTf, of_tf, set_tf}
pub mod Laws

pub record StgParams (F : Type 0) : Type 0 where
  pub is_enabled : Bool
  pub is_suspended : Bool
  pub is_boosted : Bool
  pub weight : F
  pub order_close_time : ℕ
  pub order_close_loss : F
  pub order_close_profit : F
  pub signal_open_method : ℕ
  pub signal_open_level : F
  pub signal_open_filter_method : ℕ
  pub signal_open_filter_time : ℕ
  pub signal_open_boost : ℕ
  pub signal_close_method : ℕ
  pub signal_close_level : F
  pub signal_close_filter_method : ℕ
  pub signal_close_filter_time : ℕ
  pub price_profit_method : ℕ
  pub price_profit_level : F
  pub price_stop_method : ℕ
  pub price_stop_level : F
  pub tick_filter_method : ℕ
  pub trend_threshold : F
  pub lot_size : F
  pub lot_size_factor : F
  pub max_risk : F
  pub max_spread : F
  pub tp_max : ℕ
  pub sl_max : ℕ
  pub type : ℕ
  pub id : ℕ
  pub refresh_time : ℕ
  pub shift : ℕ
  pub tf : ChartTf

-- ENUM_STRATEGY_PARAM; `param_final` stands for FINAL_ENUM_STRATEGY_PARAM and every number above.
pub data StgParam : Type 0 where
  param_id : StgParam
  param_ls : StgParam
  param_lsf : StgParam
  param_max_risk : StgParam
  param_max_spread : StgParam
  param_ocl : StgParam
  param_ocp : StgParam
  param_oct : StgParam
  param_ppl : StgParam
  param_ppm : StgParam
  param_psl : StgParam
  param_psm : StgParam
  param_scfm : StgParam
  param_scft : StgParam
  param_scl : StgParam
  param_scm : StgParam
  param_shift : StgParam
  param_sob : StgParam
  param_sofm : StgParam
  param_soft : StgParam
  param_sol : StgParam
  param_som : StgParam
  param_tf : StgParam
  param_tfm : StgParam
  param_type : StgParam
  param_weight : StgParam
  param_final : StgParam

unfoldable pub param_value : StgParam → ℕ
param_value param_id = 0
param_value param_ls = 1
param_value param_lsf = 2
param_value param_max_risk = 3
param_value param_max_spread = 4
param_value param_ocl = 5
param_value param_ocp = 6
param_value param_oct = 7
param_value param_ppl = 8
param_value param_ppm = 9
param_value param_psl = 10
param_value param_psm = 11
param_value param_scfm = 12
param_value param_scft = 13
param_value param_scl = 14
param_value param_scm = 15
param_value param_shift = 16
param_value param_sob = 17
param_value param_sofm = 18
param_value param_soft = 19
param_value param_sol = 20
param_value param_som = 21
param_value param_tf = 22
param_value param_tfm = 23
param_value param_type = 24
param_value param_weight = 25
param_value param_final = 26

-- The constructor without arguments. `random` is what rand() returns, and the floats are those that
-- the source writes as 0, 1.0 and 0.4f; `period` is the platform's _Period.
unfoldable pub new_stg_params : {F : Type 0} → F → F → F → ℕ → Timeframe → StgParams F
unfolding of_tf
new_stg_params zero one threshold random period = record {
  is_enabled = true;
  is_suspended = false;
  is_boosted = true;
  weight = zero;
  order_close_time = 0;
  order_close_loss = zero;
  order_close_profit = zero;
  signal_open_method = 0;
  signal_open_level = zero;
  signal_open_filter_method = 0;
  signal_open_filter_time = 0;
  signal_open_boost = 0;
  signal_close_method = 0;
  signal_close_level = zero;
  signal_close_filter_method = 0;
  signal_close_filter_time = 0;
  price_profit_method = 0;
  price_profit_level = zero;
  price_stop_method = 0;
  price_stop_level = zero;
  tick_filter_method = 0;
  trend_threshold = threshold;
  lot_size = zero;
  lot_size_factor = one;
  max_risk = one;
  max_spread = zero;
  tp_max = 0;
  sl_max = 0;
  type = 0;
  id = random;
  refresh_time = 0;
  shift = 0;
  tf = of_tf period period_current;
}

module _ {F T : Type 0} (c : Casts F T) where
  -- Get, with the error that it reports.
  unfoldable pub get_param : StgParam → StgParams F → T × Option UserError
  get_param param_id s = (c.of_number 64 s.id, none)
  get_param param_ls s = (c.of_float s.lot_size, none)
  get_param param_lsf s = (c.of_float s.lot_size_factor, none)
  get_param param_max_risk s = (c.of_float s.max_risk, none)
  get_param param_max_spread s = (c.of_float s.max_spread, none)
  get_param param_ocl s = (c.of_float s.order_close_loss, none)
  get_param param_ocp s = (c.of_float s.order_close_profit, none)
  get_param param_oct s = (c.of_number 64 s.order_close_time, none)
  get_param param_ppl s = (c.of_float s.price_profit_level, none)
  get_param param_ppm s = (c.of_number 32 s.price_profit_method, none)
  get_param param_psl s = (c.of_float s.price_stop_level, none)
  get_param param_psm s = (c.of_number 32 s.price_stop_method, none)
  get_param param_scfm s = (c.of_number 32 s.signal_close_filter_method, none)
  get_param param_scft s = (c.of_number 32 s.signal_close_filter_time, none)
  get_param param_scl s = (c.of_float s.signal_close_level, none)
  get_param param_scm s = (c.of_number 32 s.signal_close_method, none)
  get_param param_shift s = (c.of_number 16 s.shift, none)
  get_param param_sob s = (c.of_number 32 s.signal_open_boost, none)
  get_param param_sofm s = (c.of_number 32 s.signal_open_filter_method, none)
  get_param param_soft s = (c.of_number 32 s.signal_open_filter_time, none)
  get_param param_sol s = (c.of_float s.signal_open_level, none)
  get_param param_som s = (c.of_number 32 s.signal_open_method, none)
  get_param param_tf s = (c.of_tf s.tf.tf, none)
  get_param param_tfm s = (c.of_number 32 s.tick_filter_method, none)
  get_param param_type s = (c.of_number 32 s.type, none)
  get_param param_weight s = (c.of_float s.weight, none)
  get_param param_final s = (c.wrong_value, some invalid_parameter)

  -- Set, with the error that it reports.
  unfoldable pub set_param : Timeframe → StgParam → T → StgParams F → StgParams F × Option UserError
  unfolding set_tf
  set_param period param_id v s = (record s { id = c.to_number 64 v }, none)
  set_param period param_ls v s = (record s { lot_size = c.to_float v }, none)
  set_param period param_lsf v s = (record s { lot_size_factor = c.to_float v }, none)
  set_param period param_max_risk v s = (record s { max_risk = c.to_float v }, none)
  set_param period param_max_spread v s = (record s { max_spread = c.to_float v }, none)
  set_param period param_ocl v s = (record s { order_close_loss = c.to_float v }, none)
  set_param period param_ocp v s = (record s { order_close_profit = c.to_float v }, none)
  set_param period param_oct v s = (record s { order_close_time = c.to_number 64 v }, none)
  set_param period param_ppl v s = (record s { price_profit_level = c.to_float v }, none)
  set_param period param_ppm v s = (record s { price_profit_method = c.to_number 32 v }, none)
  set_param period param_psl v s = (record s { price_stop_level = c.to_float v }, none)
  set_param period param_psm v s = (record s { price_stop_method = c.to_number 32 v }, none)
  set_param period param_scfm v s =
      (record s { signal_close_filter_method = c.to_number 32 v }, none)
  set_param period param_scft v s = (record s { signal_close_filter_time = c.to_number 32 v }, none)
  set_param period param_scl v s = (record s { signal_close_level = c.to_float v }, none)
  set_param period param_scm v s = (record s { signal_close_method = c.to_number 32 v }, none)
  set_param period param_shift v s = (record s { shift = c.to_number 16 v }, none)
  set_param period param_sob v s = (record s { signal_open_boost = c.to_number 32 v }, none)
  set_param period param_sofm v s =
      (record s { signal_open_filter_method = c.to_number 32 v }, none)
  set_param period param_soft v s = (record s { signal_open_filter_time = c.to_number 32 v }, none)
  set_param period param_sol v s = (record s { signal_open_level = c.to_float v }, none)
  set_param period param_som v s = (record s { signal_open_method = c.to_number 32 v }, none)
  set_param period param_tf v s = (record s { tf = set_tf period (c.to_tf v) s.tf }, none)
  set_param period param_tfm v s = (record s { tick_filter_method = c.to_number 32 v }, none)
  set_param period param_type v s = (record s { type = c.to_number 32 v }, none)
  set_param period param_weight v s = (record s { weight = c.to_float v }, none)
  set_param period param_final v s = (s, some invalid_parameter)

module _ {F : Type 0} where
  -- IsBoosted, IsEnabled, IsSuspended
  unfoldable pub is_boosted_stg : StgParams F → Bool
  is_boosted_stg s = s.is_boosted

  unfoldable pub is_enabled_stg : StgParams F → Bool
  is_enabled_stg s = s.is_enabled

  unfoldable pub is_suspended_stg : StgParams F → Bool
  is_suspended_stg s = s.is_suspended

  -- SetId
  unfoldable pub set_id : ℕ → StgParams F → StgParams F
  set_id new_id s = record s { id = new_id }

  -- SetSignals
  unfoldable pub set_stg_signals : ℕ → F → ℕ → ℕ → ℕ → F → StgParams F → StgParams F
  set_stg_signals som sol sofm sob csm cl s = record s {
    signal_open_method = som;
    signal_open_level = sol;
    signal_open_filter_method = sofm;
    signal_open_boost = sob;
    signal_close_method = csm;
    signal_close_level = cl;
  }

  -- Enabled, Suspended, Boost
  unfoldable pub set_enabled : Bool → StgParams F → StgParams F
  set_enabled value s = record s { is_enabled = value }

  unfoldable pub set_suspended : Bool → StgParams F → StgParams F
  set_suspended value s = record s { is_suspended = value }

  unfoldable pub set_boost : Bool → StgParams F → StgParams F
  set_boost value s = record s { is_boosted = value }
