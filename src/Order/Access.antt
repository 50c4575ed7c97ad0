-- ===== src/Order/Access.antt =====
-- Get and Set of the structure OrderData of src/include/classes/Order.struct.h, and what they
-- compute on the way.
use Prim.Native.String.{String}
use ea31337_fft.Prelude.{ℕ, ◌%◌, ◌^◌, ◌-◌, Option, none, some, ltb, if◌then◌else◌}
use ea31337_fft.UserError.{UserError, invalid_parameter}
use ea31337_fft.Casts.{Casts}
use ea31337_fft.Price.{Prices}
use ea31337_fft.Order.Data.{
  OrderData, OrderSymbol, OrderProp, OrderDouble, OrderInteger, OrderString, prop_none,
  prop_commission, prop_last_error, prop_price_close, prop_price_open, prop_price_stoplimit,
  prop_profit, prop_profit_pips, prop_profit_total, prop_profit_value, prop_reason_close,
  prop_ticket, prop_time_closed, prop_time_opened, prop_time_last_refresh, prop_time_last_update,
  prop_total_fees, prop_other, double_volume_initial, double_volume_current, double_price_open,
  double_sl, double_tp, double_price_current, double_price_stoplimit, double_other, integer_ticket,
  integer_time_setup, integer_type, integer_state, integer_time_expiration, integer_time_done,
  integer_time_setup_msc, integer_time_done_msc, integer_type_filling, integer_type_time,
  integer_magic, integer_reason, integer_position_id, integer_position_by_id, integer_other,
  string_comment, string_external_id, string_symbol, string_other, get_type_value,
}
pub mod Laws

module _ {F : Type 0} (p : Prices F) where
  open p use {add, sub, mul, of_nat}

  -- A short as a double
  unfoldable pub short_float : ℕ → F
  short_float n = if ltb n (2 ^ 15) then of_nat n else sub (of_nat 0) (of_nat (2 ^ 16 - n))

  -- RefreshProfit
  unfoldable pub refresh_profit : OrderData F → OrderData F
  unfolding short_float get_type_value
  refresh_profit s = record s {
    profit = mul (sub s.price_current s.price_open) (short_float (get_type_value s));
  }

  -- Set of a double
  unfoldable pub set_order_double : OrderDouble → F → OrderData F → OrderData F × Option UserError
  unfolding refresh_profit
  set_order_double double_volume_current v s = (record s { volume_curr = v }, none)
  set_order_double double_volume_initial v s = (record s { volume_init = v }, none)
  set_order_double double_price_open v s = (record s { price_open = v }, none)
  set_order_double double_sl v s = (record s { sl = v }, none)
  set_order_double double_tp v s = (record s { tp = v }, none)
  set_order_double double_price_current v s =
      (refresh_profit (record s { price_current = v }), none)
  set_order_double double_price_stoplimit v s = (record s { price_stoplimit = v }, none)
  set_order_double double_other v s = (s, some invalid_parameter)

module _ {F : Type 0} where
  -- Set of a number, which is a pattern of 64 bits
  unfoldable pub set_order_integer : OrderInteger → ℕ → OrderData F → OrderData F × Option UserError
  set_order_integer integer_type v s = (record s { type = v % 2 ^ 32 }, none)
  set_order_integer integer_state v s = (record s { state = v % 2 ^ 32 }, none)
  set_order_integer integer_time_expiration v s = (record s { time_expiration = v }, none)
  set_order_integer integer_time_done v s = (record s { time_done = v }, none)
  set_order_integer integer_time_done_msc v s = (record s { time_done_msc = v }, none)
  set_order_integer integer_time_setup v s = (record s { time_setup = v }, none)
  set_order_integer integer_time_setup_msc v s = (record s { time_setup_msc = v }, none)
  set_order_integer integer_type_filling v s = (record s { type_filling = v % 2 ^ 32 }, none)
  set_order_integer integer_type_time v s = (record s { type_time = v % 2 ^ 32 }, none)
  set_order_integer integer_magic v s = (record s { magic = v }, none)
  set_order_integer integer_position_id v s = (record s { position_id = v }, none)
  set_order_integer integer_position_by_id v s = (record s { position_by_id = v }, none)
  set_order_integer integer_reason v s = (record s { reason = v % 2 ^ 32 }, none)
  set_order_integer integer_ticket v s = (record s { ticket = v }, none)
  set_order_integer integer_other v s = (s, some invalid_parameter)

  -- Set and Get of a string
  unfoldable pub set_order_string :
      OrderString → String → OrderData F → OrderData F × Option UserError
  set_order_string string_comment v s = (record s { comment = v }, none)
  set_order_string string_external_id v s = (record s { ext_id = v }, none)
  set_order_string string_symbol v s = (record s { symbol = v }, none)
  set_order_string string_other v s = (s, some invalid_parameter)

  unfoldable pub get_order_string : OrderString → OrderData F → String × Option UserError
  get_order_string string_comment s = (s.comment, none)
  get_order_string string_external_id s = (s.ext_id, none)
  get_order_string string_symbol s = (s.symbol, none)
  get_order_string string_other s = ("", some invalid_parameter)

  -- ProcessLastError of the terminal's last error, and ResetError, which resets that too
  unfoldable pub process_last_error : ℕ → OrderData F → OrderData F
  process_last_error code s = record s {
    last_error = if ltb s.last_error code then code else s.last_error;
  }

  unfoldable pub reset_order_error : OrderData F → OrderData F
  reset_order_error s = record s { last_error = 0 }

module _ {F T : Type 0} (c : Casts F T) where
  -- Get of a double and of a number
  unfoldable pub get_order_double : OrderDouble → OrderData F → T × Option UserError
  get_order_double double_volume_current s = (c.of_float s.volume_curr, none)
  get_order_double double_volume_initial s = (c.of_float s.volume_init, none)
  get_order_double double_price_open s = (c.of_float s.price_open, none)
  get_order_double double_sl s = (c.of_float s.sl, none)
  get_order_double double_tp s = (c.of_float s.tp, none)
  get_order_double double_price_current s = (c.of_float s.price_current, none)
  get_order_double double_price_stoplimit s = (c.of_float s.price_stoplimit, none)
  get_order_double double_other s = (c.wrong_value, some invalid_parameter)

  unfoldable pub get_order_integer : OrderInteger → OrderData F → T × Option UserError
  get_order_integer integer_type s = (c.of_number 32 s.type, none)
  get_order_integer integer_state s = (c.of_number 32 s.state, none)
  get_order_integer integer_time_expiration s = (c.of_number 64 s.time_expiration, none)
  get_order_integer integer_time_done s = (c.of_number 64 s.time_done, none)
  get_order_integer integer_time_done_msc s = (c.of_number 64 s.time_done_msc, none)
  get_order_integer integer_time_setup s = (c.of_number 64 s.time_setup, none)
  get_order_integer integer_time_setup_msc s = (c.of_number 64 s.time_setup_msc, none)
  get_order_integer integer_type_filling s = (c.of_number 32 s.type_filling, none)
  get_order_integer integer_type_time s = (c.of_number 32 s.type_time, none)
  get_order_integer integer_magic s = (c.of_number 64 s.magic, none)
  get_order_integer integer_position_id s = (c.of_number 64 s.position_id, none)
  get_order_integer integer_position_by_id s = (c.of_number 64 s.position_by_id, none)
  get_order_integer integer_reason s = (c.of_number 32 s.reason, none)
  get_order_integer integer_ticket s = (c.of_number 64 s.ticket, none)
  get_order_integer integer_other s = (c.wrong_value, some invalid_parameter)

  -- The profit in pips
  unfoldable pub profit_pips : Prices F → OrderSymbol F → OrderData F → F
  profit_pips p q s = p.mul s.profit (q.ten_to_digits s.symbol)

  -- Get of a property of the structure's own
  unfoldable pub get_order_prop :
      Prices F → OrderSymbol F → OrderProp → OrderData F → T × Option UserError
  unfolding profit_pips
  get_order_prop p q prop_commission s = (c.of_float s.commission, none)
  get_order_prop p q prop_last_error s = (c.of_number 32 s.last_error, none)
  get_order_prop p q prop_price_close s = (c.of_float s.price_close, none)
  get_order_prop p q prop_price_open s = (c.of_float s.price_open, none)
  get_order_prop p q prop_price_stoplimit s = (c.of_float s.price_stoplimit, none)
  get_order_prop p q prop_profit s = (c.of_float s.profit, none)
  get_order_prop p q prop_profit_pips s = (c.of_float (profit_pips p q s), none)
  get_order_prop p q prop_profit_value s = (
    c.of_float (p.mul (p.mul (q.to_int (profit_pips p q s)) s.volume_curr) (q.tick_value s.symbol)),
    none,
  )
  get_order_prop p q prop_profit_total s = (c.of_float (p.sub s.profit s.total_fees), none)
  get_order_prop p q prop_reason_close s = (c.of_number 32 s.reason_close, none)
  get_order_prop p q prop_ticket s = (c.of_number 64 s.ticket, none)
  get_order_prop p q prop_time_closed s = (c.of_number 64 s.time_closed, none)
  get_order_prop p q prop_time_last_refresh s = (c.of_number 64 s.time_last_refresh, none)
  get_order_prop p q prop_time_last_update s = (c.of_number 64 s.time_last_update, none)
  get_order_prop p q prop_time_opened s = (c.of_number 64 s.time_done, none)
  get_order_prop p q prop_total_fees s = (c.of_float s.total_fees, none)
  get_order_prop p q prop_none s = (c.wrong_value, some invalid_parameter)
  get_order_prop p q prop_other s = (c.wrong_value, some invalid_parameter)

  -- Set of a property of the structure's own
  unfoldable pub set_order_prop : OrderProp → T → OrderData F → OrderData F × Option UserError
  set_order_prop prop_commission v s = (record s { commission = c.to_float v }, none)
  set_order_prop prop_last_error v s = (record s { last_error = c.to_number 32 v }, none)
  set_order_prop prop_price_close v s = (record s { price_close = c.to_float v }, none)
  set_order_prop prop_price_open v s = (record s { price_open = c.to_float v }, none)
  set_order_prop prop_price_stoplimit v s = (record s { price_stoplimit = c.to_float v }, none)
  set_order_prop prop_profit v s = (record s { profit = c.to_float v }, none)
  set_order_prop prop_reason_close v s = (record s { reason_close = c.to_number 32 v }, none)
  set_order_prop prop_ticket v s = (record s { ticket = c.to_number 64 v }, none)
  set_order_prop prop_time_closed v s = (record s { time_closed = c.to_number 64 v }, none)
  set_order_prop prop_time_last_refresh v s =
      (record s { time_last_refresh = c.to_number 64 v }, none)
  set_order_prop prop_time_last_update v s =
      (record s { time_last_update = c.to_number 64 v }, none)
  set_order_prop prop_time_opened v s = (record s { time_setup = c.to_number 64 v }, none)
  set_order_prop prop_total_fees v s = (record s { total_fees = c.to_float v }, none)
  set_order_prop prop_none v s = (s, some invalid_parameter)
  set_order_prop prop_profit_pips v s = (s, some invalid_parameter)
  set_order_prop prop_profit_total v s = (s, some invalid_parameter)
  set_order_prop prop_profit_value v s = (s, some invalid_parameter)
  set_order_prop prop_other v s = (s, some invalid_parameter)
