-- ===== src/Order/Data.antt =====
-- The structure OrderData of src/include/classes/Order.struct.h, with ENUM_ORDER_PROPERTY_CUSTOM,
-- ENUM_ORDER_PROPERTY_DOUBLE, ENUM_ORDER_PROPERTY_INTEGER and ENUM_ORDER_PROPERTY_STRING of
-- Order.enum.h. Numbers of a platform's enumerations stand as they are.
use Prim.Native.String.{String}
use ea31337_fft.Prelude.{ℕ, ◌^◌, ◌-◌, ◌==◌, ◌||◌, if◌then◌else◌}

pub record OrderData (F : Type 0) : Type 0 where
  pub magic : ℕ
  pub position_id : ℕ
  pub position_by_id : ℕ
  pub ticket : ℕ
  pub state : ℕ
  pub time_closed : ℕ
  pub time_done : ℕ
  pub time_expiration : ℕ
  pub time_setup : ℕ
  pub time_last_refresh : ℕ
  pub time_last_update : ℕ
  pub commission : F
  pub profit : F
  pub total_profit : F
  pub price_open : F
  pub price_close : F
  pub price_current : F
  pub price_stoplimit : F
  pub swap : F
  pub total_fees : F
  pub sl : F
  pub tp : F
  pub time_setup_msc : ℕ
  pub time_done_msc : ℕ
  pub type : ℕ
  pub type_filling : ℕ
  pub type_time : ℕ
  pub reason : ℕ
  pub reason_close : ℕ
  pub last_error : ℕ
  pub volume_curr : F
  pub volume_init : F
  pub comment : String
  pub ext_id : String
  pub symbol : String

-- What the platform says of a symbol: 10 to the power of its digits, and its tick value; and the
-- conversion of a double to an int and back.
pub record OrderSymbol (F : Type 0) : Type 0 where
  pub ten_to_digits : String → F
  pub tick_value : String → F
  pub to_int : F → F

-- ENUM_ORDER_PROPERTY_CUSTOM; `prop_other` stands for every other number.
pub data OrderProp : Type 0 where
  prop_none prop_commission prop_last_error prop_price_close prop_price_open prop_price_stoplimit
        prop_profit prop_profit_pips prop_profit_total prop_profit_value prop_reason_close
        prop_ticket prop_time_closed prop_time_opened prop_time_last_refresh prop_time_last_update
        prop_total_fees prop_other :
      OrderProp

-- ENUM_ORDER_PROPERTY_DOUBLE; `double_other` stands for every other number.
pub data OrderDouble : Type 0 where
  double_volume_initial double_volume_current double_price_open double_sl double_tp
        double_price_current double_price_stoplimit double_other :
      OrderDouble

-- ENUM_ORDER_PROPERTY_INTEGER; `integer_other` stands for every other number.
pub data OrderInteger : Type 0 where
  integer_ticket integer_time_setup integer_type integer_state integer_time_expiration
        integer_time_done integer_time_setup_msc integer_time_done_msc integer_type_filling
        integer_type_time integer_magic integer_reason integer_position_id integer_position_by_id
        integer_other :
      OrderInteger

-- ENUM_ORDER_PROPERTY_STRING; `string_other` stands for every other number.
pub data OrderString : Type 0 where
  string_comment string_external_id string_symbol string_other : OrderString

-- The number of a property, and for the others the number after the last.
unfoldable pub order_prop_value : OrderProp → ℕ
order_prop_value prop_none = 0
order_prop_value prop_commission = 1
order_prop_value prop_last_error = 2
order_prop_value prop_price_close = 3
order_prop_value prop_price_open = 4
order_prop_value prop_price_stoplimit = 5
order_prop_value prop_profit = 6
order_prop_value prop_profit_pips = 7
order_prop_value prop_profit_total = 8
order_prop_value prop_profit_value = 9
order_prop_value prop_reason_close = 10
order_prop_value prop_ticket = 11
order_prop_value prop_time_closed = 12
order_prop_value prop_time_opened = 13
order_prop_value prop_time_last_refresh = 14
order_prop_value prop_time_last_update = 15
order_prop_value prop_total_fees = 16
order_prop_value prop_other = 17

-- The constructor, from what the memory held, the double 0 and the string NULL.
unfoldable pub new_order_data : {F : Type 0} → F → String → OrderData F → OrderData F
new_order_data zero null_text old = record old {
  magic = 0;
  position_id = 0;
  position_by_id = 0;
  ticket = 0;
  state = 0;
  time_closed = 0;
  time_done = 0;
  time_expiration = 0;
  time_setup = 0;
  time_last_refresh = 0;
  time_last_update = 0;
  commission = zero;
  profit = zero;
  price_open = zero;
  price_close = zero;
  price_current = zero;
  price_stoplimit = zero;
  swap = zero;
  sl = zero;
  tp = zero;
  time_setup_msc = 0;
  time_done_msc = 0;
  last_error = 0;
  volume_curr = zero;
  volume_init = zero;
  comment = "";
  symbol = null_text;
}

-- The static GetTypeValue of an ENUM_ORDER_TYPE: 1, -1 as a pattern of 16 bits, or 0.
unfoldable pub type_value_of : ℕ → ℕ
type_value_of type =
    if type == 1 || type == 3 || type == 5
    then 2 ^ 16 - 1
    else if type == 0 || type == 2 || type == 4
    then 1
    else 0

unfoldable pub get_type_value : {F : Type 0} → OrderData F → ℕ
unfolding type_value_of
get_type_value s = type_value_of s.type

-- GetReasonCloseText
unfoldable pub get_reason_close_text : {F : Type 0} → OrderData F → String
get_reason_close_text s =
    if s.reason_close == 0
    then "Closed all"
    else if s.reason_close == 1
    then "Closed by action"
    else if s.reason_close == 2
    then "Expired"
    else if s.reason_close == 3
    then "Closed by opposite trade"
    else if s.reason_close == 4
    then "Closed by signal"
    else if s.reason_close == 5
    then "Closed by stop loss"
    else if s.reason_close == 6
    then "Closed by test"
    else if s.reason_close == 7
    then "Closed by take profit"
    else if s.reason_close == 8
    then "Closed by user"
    else if s.reason_close == 9
    then "Unknown"
    else "Unknown"
