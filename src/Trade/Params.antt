-- ===== src/Trade/Params.antt =====
-- The constructors, and the typed parameters of TradeParams in src/include/classes/Trade.struct.h,
-- with ENUM_TRADE_PARAM of src/include/classes/Trade.enum.h.
use ea31337_fft.Prelude.{ℕ, Option, none, some}
use ea31337_fft.UserError.{UserError, invalid_parameter}
use ea31337_fft.Casts.{Casts}
use ea31337_fft.Trade.Limits.{TradeParams, set_all_limits}
pub mod Laws

-- ENUM_TRADE_PARAM; the last stands for FINAL_ENUM_TRADE_PARAM and every number above.
pub data TradeParam : Type 0 where
  trade_bars_min : TradeParam
  trade_lot_size : TradeParam
  trade_magic_no : TradeParam
  trade_order_comment : TradeParam
  trade_risk_margin : TradeParam
  trade_slippage : TradeParam
  trade_param_final : TradeParam

unfoldable pub trade_param_value : TradeParam → ℕ
trade_param_value trade_bars_min = 0
trade_param_value trade_lot_size = 1
trade_param_value trade_magic_no = 2
trade_param_value trade_order_comment = 3
trade_param_value trade_risk_margin = 4
trade_param_value trade_slippage = 5
trade_param_value trade_param_final = 6

module _ {F : Type 0} where
  -- The member initialisers of the constructor from a lot size, a risk margin and a slippage, in
  -- memory that holds `mem`; `random` is what rand() returns.
  unfoldable pub initialised : F → F → ℕ → ℕ → TradeParams F → TradeParams F
  initialised lot risk slip random mem = record mem {
    bars_min = 100;
    order_comment = "";
    lot_size = lot;
    magic_no = random;
    risk_margin = risk;
    slippage = slip;
  }

  -- That constructor, whose body is SetLimits(0).
  unfoldable pub new_trade_params : F → F → ℕ → ℕ → TradeParams F → TradeParams F
  unfolding set_all_limits initialised
  new_trade_params lot risk slip random mem =
      set_all_limits 0 (initialised lot risk slip random mem)

  -- The constructor from a magic number and a log level; `zero` is the float 0.
  unfoldable pub new_params_of_magic : F → ℕ → ℕ → TradeParams F → TradeParams F
  new_params_of_magic zero magic level mem = record mem {
    bars_min = 100;
    lot_size = zero;
    order_comment = "";
    log_level = level;
    magic_no = magic;
  }

  -- SetBarsMin, SetLotSize, SetMagicNo, SetRiskMargin
  unfoldable pub set_bars_min : ℕ → TradeParams F → TradeParams F
  set_bars_min value s = record s { bars_min = value }

  unfoldable pub set_lot_size : F → TradeParams F → TradeParams F
  set_lot_size value s = record s { lot_size = value }

  unfoldable pub set_magic_no : ℕ → TradeParams F → TradeParams F
  set_magic_no value s = record s { magic_no = value }

  unfoldable pub set_risk_margin : F → TradeParams F → TradeParams F
  set_risk_margin value s = record s { risk_margin = value }

module _ {F T : Type 0} (c : Casts F T) where
  -- Get, with the error that it reports.
  unfoldable pub get_trade_param : TradeParam → TradeParams F → T × Option UserError
  get_trade_param trade_bars_min s = (c.of_number 16 s.bars_min, none)
  get_trade_param trade_lot_size s = (c.of_float s.lot_size, none)
  get_trade_param trade_magic_no s = (c.of_number 64 s.magic_no, none)
  get_trade_param trade_order_comment s = (c.of_text s.order_comment, none)
  get_trade_param trade_risk_margin s = (c.of_float s.risk_margin, none)
  get_trade_param trade_slippage s = (c.of_number 32 s.slippage, none)
  get_trade_param trade_param_final s = (c.wrong_value, some invalid_parameter)

  -- Set, with the error that it reports.
  unfoldable pub set_trade_param : TradeParam → T → TradeParams F → TradeParams F × Option UserError
  set_trade_param trade_bars_min v s = (record s { bars_min = c.to_number 16 v }, none)
  set_trade_param trade_lot_size v s = (record s { lot_size = c.to_float v }, none)
  set_trade_param trade_magic_no v s = (record s { magic_no = c.to_number 64 v }, none)
  set_trade_param trade_order_comment v s = (record s { order_comment = c.to_text v }, none)
  set_trade_param trade_risk_margin v s = (record s { risk_margin = c.to_float v }, none)
  set_trade_param trade_slippage v s = (record s { slippage = c.to_number 32 v }, none)
  set_trade_param trade_param_final v s = (s, some invalid_parameter)
