-- ===== src/Signal/Laws.antt =====
-- What the flag word of a signal means.
use ea31337_fft.Prelude.{ℕ, ◌≡◌, refl, arith, Bool, true, not, ◌&&◌, bit_and}
use ea31337_fft.Bits.Flags.{bit_and-set_flag, has_any-set_flag, has_any-set_flag_other, IsWord}
use ea31337_fft.Bits.OneFlag.{masked_three}
use ea31337_fft.Signal.Entry.{
  TradeSignalEntry, check_signals, set_signal, flag_close_buy_main, flag_close_buy_filter,
  flag_close_sell_main, flag_close_sell_filter, flag_close_time_filter, flag_open_buy_main,
  flag_open_buy_filter, flag_open_sell_main, flag_open_sell_filter, flag_open_time_filter,
  flag_processed, flag_expired, flag_open_buy_signal, flag_open_sell_signal, flag_close_buy_signal,
  flag_close_sell_signal,
}
use ea31337_fft.Signal.Decision.{
  OrderType, buy, sell, neutral, plus, should_open, should_close, get_signal_open, get_signal_close,
  get_signal_open_direction, get_signal_close_direction,
}
use ea31337_fft.Bits.Digits.{bit_not}

module _ {F : Type 0} (s : TradeSignalEntry F) where
  pub should_open_buy :
      should_open buy s
      ≡ check_signals flag_open_buy_main s
        && not (check_signals flag_open_buy_filter s)
        && not (check_signals flag_open_time_filter s)
  unfolding should_open check_signals
  should_open_buy =
      masked_three s.signals 7 6 10 (omega arith) (omega arith) (omega arith) (omega arith)
        (omega arith)

  pub should_open_sell :
      should_open sell s
      ≡ check_signals flag_open_sell_main s
        && not (check_signals flag_open_sell_filter s)
        && not (check_signals flag_open_time_filter s)
  unfolding should_open check_signals
  should_open_sell =
      masked_three s.signals 9 8 10 (omega arith) (omega arith) (omega arith) (omega arith)
        (omega arith)

  pub should_close_buy :
      should_close buy s
      ≡ check_signals flag_close_buy_main s
        && not (check_signals flag_close_buy_filter s)
        && not (check_signals flag_close_time_filter s)
  unfolding should_close check_signals
  should_close_buy =
      masked_three s.signals 1 0 4 (omega arith) (omega arith) (omega arith) (omega arith)
        (omega arith)

  pub should_close_sell :
      should_close sell s
      ≡ check_signals flag_close_sell_main s
        && not (check_signals flag_close_sell_filter s)
        && not (check_signals flag_close_time_filter s)
  unfolding should_close check_signals
  should_close_sell =
      masked_three s.signals 3 2 4 (omega arith) (omega arith) (omega arith) (omega arith)
        (omega arith)

  -- A signal says to open (or close) a side exactly when the main flag of that side is set and
  -- neither the filter of the side nor the time filter is.
  pub should_lem :
      (should_open buy s
        ≡ check_signals flag_open_buy_main s
          && not (check_signals flag_open_buy_filter s)
          && not (check_signals flag_open_time_filter s))
      × (should_open sell s
          ≡ check_signals flag_open_sell_main s
            && not (check_signals flag_open_sell_filter s)
            && not (check_signals flag_open_time_filter s))
      × (should_close buy s
          ≡ check_signals flag_close_buy_main s
            && not (check_signals flag_close_buy_filter s)
            && not (check_signals flag_close_time_filter s))
      × (should_close sell s
          ≡ check_signals flag_close_sell_main s
            && not (check_signals flag_close_sell_filter s)
            && not (check_signals flag_close_time_filter s))
  should_lem = (should_open_buy, should_open_sell, should_close_buy, should_close_sell)

  should-set_signal :
      (f : ℕ) (v : Bool) (cmd : OrderType)
      → IsWord f
      → bit_and f flag_open_buy_signal ≡ 0
      → bit_and f flag_open_sell_signal ≡ 0
      → bit_and f flag_close_buy_signal ≡ 0
      → bit_and f flag_close_sell_signal ≡ 0
      → (should_open cmd (set_signal f v s) ≡ should_open cmd s)
        × (should_close cmd (set_signal f v s) ≡ should_close cmd s)
  unfolding should_open should_close set_signal
  should-set_signal f v buy w ob os cb cs = (
    rw (bit_and-set_flag s.signals f flag_open_buy_signal v w (omega arith) ob),
    rw (bit_and-set_flag s.signals f flag_close_buy_signal v w (omega arith) cb),
  )
  should-set_signal f v sell w ob os cb cs = (
    rw (bit_and-set_flag s.signals f flag_open_sell_signal v w (omega arith) os),
    rw (bit_and-set_flag s.signals f flag_close_sell_signal v w (omega arith) cs),
  )
  should-set_signal f v _ w ob os cb cs = (refl, refl)

  -- Recording whether a signal was processed, or has expired, is read back as recorded, and changes
  -- neither of the two records' other one, nor any decision to open or to close.
  pub set_signal_frame :
      (v : Bool) (cmd : OrderType)
      → (check_signals flag_processed (set_signal flag_processed v s) ≡ v)
        × (check_signals flag_expired (set_signal flag_expired v s) ≡ v)
        × (check_signals flag_expired (set_signal flag_processed v s)
            ≡ check_signals flag_expired s)
        × (check_signals flag_processed (set_signal flag_expired v s)
            ≡ check_signals flag_processed s)
        × (should_open cmd (set_signal flag_processed v s) ≡ should_open cmd s)
        × (should_close cmd (set_signal flag_processed v s) ≡ should_close cmd s)
        × (should_open cmd (set_signal flag_expired v s) ≡ should_open cmd s)
        × (should_close cmd (set_signal flag_expired v s) ≡ should_close cmd s)
  unfolding check_signals set_signal
  set_signal_frame v cmd =
      let processed = should-set_signal flag_processed v cmd (omega arith) refl refl refl refl in
      let expired = should-set_signal flag_expired v cmd (omega arith) refl refl refl refl in
      (
        has_any-set_flag s.signals flag_processed v (omega arith) (omega arith),
        has_any-set_flag s.signals flag_expired v (omega arith) (omega arith),
        has_any-set_flag_other s.signals flag_processed flag_expired v (omega arith) (omega arith)
            refl,
        has_any-set_flag_other s.signals flag_expired flag_processed v (omega arith) (omega arith)
            refl,
        processed.0,
        processed.1,
        expired.0,
        expired.1,
      )

  -- A signal to open both sides at once is neutral in strength, yet its direction is upwards.
  pub conflict_open :
      should_open buy s ≡ true
      → should_open sell s ≡ true
      → (get_signal_open s ≡ neutral) × (get_signal_open_direction s ≡ plus)
  unfolding get_signal_open get_signal_open_direction bit_not
  conflict_open b c = ground (arith, b, c, should_open_buy)

  -- A signal to close both sides at once is neutral in strength, yet its direction is upwards.
  pub conflict_close :
      should_close buy s ≡ true
      → should_close sell s ≡ true
      → (get_signal_close s ≡ neutral) × (get_signal_close_direction s ≡ plus)
  unfolding get_signal_close get_signal_close_direction bit_not
  conflict_close b c = ground (arith, b, c, should_close_buy)
