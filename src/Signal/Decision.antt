-- ===== src/Signal/Decision.antt =====
-- The decisions of the class TradeSignal (src/include/classes/Trade/TradeSignal.h), whose only
-- field is its entry.
use ea31337_fft.Prelude.{Bool, true, false, if◌then◌else◌}
use ea31337_fft.Signal.Entry.{
  TradeSignalEntry, check_signals, check_signals_equal, flag_close_buy_signal, flag_close_buy_main,
  flag_close_sell_signal, flag_close_sell_main, flag_open_buy_signal, flag_open_buy_main,
  flag_open_sell_signal, flag_open_sell_main, flag_close_upwards, flag_close_downwards,
  flag_open_upwards, flag_open_downwards,
}

-- ENUM_ORDER_TYPE (src/include/classes/Order.enum.h)
pub data OrderType : Type 0 where
  buy sell buy_limit sell_limit buy_stop sell_stop buy_stop_limit sell_stop_limit close_by :
      OrderType

-- The values of the strengths and directions: -1, 0 and 1.
pub data Sign : Type 0 where
  minus neutral plus : Sign

-- `int(a) - int(b)` for two Booleans
unfoldable pub difference : Bool → Bool → Sign
difference true true = neutral
difference true false = plus
difference false true = minus
difference false false = neutral

module _ {F : Type 0} where
  unfoldable pub should_close : OrderType → TradeSignalEntry F → Bool
  unfolding check_signals_equal
  should_close buy s = check_signals_equal flag_close_buy_signal flag_close_buy_main s
  should_close sell s = check_signals_equal flag_close_sell_signal flag_close_sell_main s
  should_close _ s = false

  unfoldable pub should_open : OrderType → TradeSignalEntry F → Bool
  unfolding check_signals_equal
  should_open buy s = check_signals_equal flag_open_buy_signal flag_open_buy_main s
  should_open sell s = check_signals_equal flag_open_sell_signal flag_open_sell_main s
  should_open _ s = false

  unfoldable pub get_signal_close : TradeSignalEntry F → Sign
  unfolding difference
  get_signal_close s = difference (should_close buy s) (should_close sell s)

  unfoldable pub get_signal_open : TradeSignalEntry F → Sign
  unfolding difference
  get_signal_open s = difference (should_open buy s) (should_open sell s)

  unfoldable pub get_signal_close_direction : TradeSignalEntry F → Sign
  get_signal_close_direction s =
      if check_signals flag_close_upwards s
      then plus
      else if check_signals flag_close_downwards s
      then minus
      else neutral

  unfoldable pub get_signal_open_direction : TradeSignalEntry F → Sign
  get_signal_open_direction s =
      if check_signals flag_open_upwards s
      then plus
      else if check_signals flag_open_downwards s
      then minus
      else neutral
