-- ===== src/Signal/Entry.antt =====
-- The structure TradeSignalEntry of src/include/classes/Trade/TradeSignal.struct.h. Its float
-- fields are of a type `F`, which nothing here computes with.
use ea31337_fft.Prelude.{ℕ, ◌^◌, bit_and, bit_or, bit_xor, Bool, ◌==◌}
use ea31337_fft.Bits.Digits.{bit_not}
use ea31337_fft.Bits.Flags.{add_flags, remove_flags, set_flag, has_any, has_all}
use ea31337_fft.Timeframe.Tables.{Timeframe}

-- ENUM_TRADE_SIGNAL_FLAG
abbrev pub flag_close_buy_filter : ℕ
flag_close_buy_filter = 2 ^ 0

abbrev pub flag_close_buy_main : ℕ
flag_close_buy_main = 2 ^ 1

abbrev pub flag_close_sell_filter : ℕ
flag_close_sell_filter = 2 ^ 2

abbrev pub flag_close_sell_main : ℕ
flag_close_sell_main = 2 ^ 3

abbrev pub flag_close_time_filter : ℕ
flag_close_time_filter = 2 ^ 4

abbrev pub flag_expired : ℕ
flag_expired = 2 ^ 5

abbrev pub flag_open_buy_filter : ℕ
flag_open_buy_filter = 2 ^ 6

abbrev pub flag_open_buy_main : ℕ
flag_open_buy_main = 2 ^ 7

abbrev pub flag_open_sell_filter : ℕ
flag_open_sell_filter = 2 ^ 8

abbrev pub flag_open_sell_main : ℕ
flag_open_sell_main = 2 ^ 9

abbrev pub flag_open_time_filter : ℕ
flag_open_time_filter = 2 ^ 10

abbrev pub flag_processed : ℕ
flag_processed = 2 ^ 11

abbrev pub flag_close_buy_signal : ℕ
flag_close_buy_signal =
    bit_xor flag_close_buy_main (bit_or flag_close_buy_filter flag_close_time_filter)

abbrev pub flag_close_sell_signal : ℕ
flag_close_sell_signal =
    bit_xor flag_close_sell_main (bit_or flag_close_sell_filter flag_close_time_filter)

abbrev pub flag_open_buy_signal : ℕ
flag_open_buy_signal =
    bit_xor flag_open_buy_main (bit_or flag_open_buy_filter flag_open_time_filter)

abbrev pub flag_open_sell_signal : ℕ
flag_open_sell_signal =
    bit_xor flag_open_sell_main (bit_or flag_open_sell_filter flag_open_time_filter)

-- `bit_not` is applied to the mask first: the operands of the source's `&` are the same numbers.
abbrev pub flag_close_downwards : ℕ
unfolding bit_not
flag_close_downwards = bit_and flag_close_sell_main (bit_not flag_close_buy_main)

abbrev pub flag_close_upwards : ℕ
unfolding bit_not
flag_close_upwards = bit_and flag_close_buy_main (bit_not flag_close_sell_main)

abbrev pub flag_open_downwards : ℕ
unfolding bit_not
flag_open_downwards = bit_and flag_open_sell_main (bit_not flag_open_buy_main)

abbrev pub flag_open_upwards : ℕ
unfolding bit_not
flag_open_upwards = bit_and flag_open_buy_main (bit_not flag_open_sell_main)

pub record TradeSignalEntry (F : Type 0) : Type 0 where
  pub tf : Timeframe
  pub strength : F
  pub weight : F
  pub magic_id : ℕ
  pub timestamp : ℕ
  pub signals : ℕ

module _ {F : Type 0} where
  -- CheckSignals, and `Get` of a flag
  unfoldable pub check_signals : ℕ → TradeSignalEntry F → Bool
  unfolding has_any
  check_signals flags e = has_any e.signals flags

  -- CheckSignalsEqual
  unfoldable pub check_signals_equal : ℕ → ℕ → TradeSignalEntry F → Bool
  check_signals_equal flags value e = bit_and e.signals flags == value

  -- CheckSignalsExact
  unfoldable pub check_signals_exact : ℕ → TradeSignalEntry F → Bool
  unfolding has_all
  check_signals_exact flags e = has_all e.signals flags

  -- AddSignals
  unfoldable pub add_signals : ℕ → TradeSignalEntry F → TradeSignalEntry F
  add_signals flags e = record e { signals = add_flags e.signals flags }

  -- RemoveSignals
  unfoldable pub remove_signals : ℕ → TradeSignalEntry F → TradeSignalEntry F
  remove_signals flags e = record e { signals = remove_flags e.signals flags }

  -- SetSignal, and `Set` of a flag
  unfoldable pub set_signal : ℕ → Bool → TradeSignalEntry F → TradeSignalEntry F
  set_signal flag value e = record e { signals = set_flag e.signals flag value }

  -- SetSignals
  unfoldable pub set_signals : ℕ → TradeSignalEntry F → TradeSignalEntry F
  set_signals flags e = record e { signals = flags }
