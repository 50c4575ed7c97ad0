-- ===== src/Signal/Collect.antt =====
-- EA::GetStrategySignalEntry (src/include/classes/EA.mqh): the flag word that is collected from
-- the answers of a strategy.
use ea31337_fft.Prelude.{ℕ, bit_or, Bool, not, if◌then◌else◌}
use ea31337_fft.Timeframe.Tables.{Timeframe}
use ea31337_fft.Signal.Entry.{
  TradeSignalEntry, flag_close_buy_main, flag_close_buy_filter, flag_close_sell_main,
  flag_close_sell_filter, flag_close_time_filter, flag_open_buy_main, flag_open_buy_filter,
  flag_open_sell_main, flag_open_sell_filter, flag_open_time_filter,
}
use ea31337_fft.Signal.Decision.{OrderType, buy, sell}

-- What a strategy answers: SignalOpen, SignalOpenFilterMethod, SignalOpenFilterTime, SignalClose,
-- SignalCloseFilter and SignalCloseFilterTime, at the parameters that the strategy itself holds.
-- A filter answers true when the trade may go on.
pub record Answers : Type 0 where
  pub signal_open : OrderType → Bool
  pub signal_open_filter_method : OrderType → Bool
  pub signal_open_filter_time : Bool
  pub signal_close : OrderType → Bool
  pub signal_close_filter : OrderType → Bool
  pub signal_close_filter_time : Bool

-- `_signals |= test ? flag : 0`
unfoldable pub or_if : ℕ → Bool → ℕ → ℕ
or_if signals test flag = bit_or signals (if test then flag else 0)

-- The part that is processed when trade is allowed.
unfoldable pub open_signals : Answers → ℕ → ℕ
unfolding or_if
open_signals a s0 =
    let s1 = or_if s0 (a.signal_open buy) flag_open_buy_main in
    let s2 = or_if s1 (not (a.signal_open_filter_method buy)) flag_open_buy_filter in
    let s3 = or_if s2 (a.signal_open sell) flag_open_sell_main in
    let s4 = or_if s3 (not (a.signal_open_filter_method sell)) flag_open_sell_filter in
    or_if s4 (not a.signal_open_filter_time) flag_open_time_filter

unfoldable pub close_signals : Answers → ℕ → ℕ
unfolding or_if
close_signals a s0 =
    let s1 = or_if s0 (a.signal_close buy) flag_close_buy_main in
    let s2 = or_if s1 (not (a.signal_close_filter buy)) flag_close_buy_filter in
    let s3 = or_if s2 (a.signal_close sell) flag_close_sell_main in
    let s4 = or_if s3 (not (a.signal_close_filter sell)) flag_close_sell_filter in
    or_if s4 (not a.signal_close_filter_time) flag_close_time_filter

unfoldable pub collect_signals : Answers → Bool → ℕ
unfolding open_signals close_signals
collect_signals a trade_allowed = close_signals a (if trade_allowed then open_signals a 0 else 0)

-- The entry is built with the weight 0 of the constructor's default argument, and its strength
-- and time are set afterwards.
unfoldable pub strategy_signal_entry :
    {F : Type 0} → F → Answers → Bool → Timeframe → ℕ → F → ℕ → TradeSignalEntry F
unfolding collect_signals
strategy_signal_entry zero_weight a trade_allowed tf id strength now = record {
  tf = tf;
  strength = strength;
  weight = zero_weight;
  magic_id = id;
  timestamp = now;
  signals = collect_signals a trade_allowed;
}
