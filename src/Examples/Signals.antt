-- ===== src/Examples/Signals.antt =====
-- Signals: src/include/classes/Trade/TradeSignal.struct.h and TradeSignal.h.
use ea31337_fft.Prelude.{ℕ, ◌^◌, ◌≡◌, refl, bit_or, true, false, not, ◌&&◌}
use ea31337_fft.Timeframe.Tables.{period_h1}
use ea31337_fft.Signal.Entry.{
  TradeSignalEntry, check_signals, flag_close_buy_main, flag_close_buy_filter, flag_close_sell_main,
  flag_close_sell_filter, flag_close_time_filter, flag_open_buy_main, flag_open_buy_filter,
  flag_open_sell_main, flag_open_sell_filter, flag_open_time_filter,
}
use ea31337_fft.Signal.Decision.{
  buy, sell, neutral, plus, should_open, should_close, get_signal_close, get_signal_close_direction,
}
use ea31337_fft.Signal.Collect.{Answers, strategy_signal_entry}
use ea31337_fft.Signal.Laws.{should_lem, conflict_close}
use ea31337_fft.Signal.Decode.{decode_answers}

-- A strategy that wants to buy, and whose time filter for closing stands in the way of a close.
abbrev pub buy_answers : Answers
buy_answers = record {
  signal_open = elim [ buy ↦ true | _ ↦ false ];
  signal_open_filter_method = λ c. true;
  signal_open_filter_time = true;
  signal_close = elim [ sell ↦ true | _ ↦ false ];
  signal_close_filter = λ c. true;
  signal_close_filter_time = false;
}

abbrev entry : ℕ → TradeSignalEntry ℕ
entry word = record {
  tf = period_h1;
  strength = 1;
  weight = 0;
  magic_id = 31337;
  timestamp = 1000;
  signals = word;
}

abbrev buy_entry : TradeSignalEntry ℕ
buy_entry = strategy_signal_entry 0 buy_answers true period_h1 31337 1 1000

abbrev buy_word : TradeSignalEntry ℕ
buy_word = entry (bit_or (2 ^ 7) (bit_or (2 ^ 3) (2 ^ 4)))

abbrev both_sides : TradeSignalEntry ℕ
both_sides = entry (bit_or (bit_or (2 ^ 7) (2 ^ 9)) (bit_or (2 ^ 1) (2 ^ 3)))

decode_answers_example :
    (should_open buy buy_entry ≡ true && (true && true && true))
    × (should_open sell buy_entry ≡ true && (false && true && true))
    × (should_close buy buy_entry ≡ false && true && false)
    × (should_close sell buy_entry ≡ true && true && false)
decode_answers_example = decode_answers 0 buy_answers true period_h1 31337 1 1000

should_lem_example :
    (should_open buy buy_word
      ≡ check_signals flag_open_buy_main buy_word
        && not (check_signals flag_open_buy_filter buy_word)
        && not (check_signals flag_open_time_filter buy_word))
    × (should_open sell buy_word
        ≡ check_signals flag_open_sell_main buy_word
          && not (check_signals flag_open_sell_filter buy_word)
          && not (check_signals flag_open_time_filter buy_word))
    × (should_close buy buy_word
        ≡ check_signals flag_close_buy_main buy_word
          && not (check_signals flag_close_buy_filter buy_word)
          && not (check_signals flag_close_time_filter buy_word))
    × (should_close sell buy_word
        ≡ check_signals flag_close_sell_main buy_word
          && not (check_signals flag_close_sell_filter buy_word)
          && not (check_signals flag_close_time_filter buy_word))
should_lem_example = should_lem buy_word

conflict_close_example :
    (get_signal_close both_sides ≡ neutral) × (get_signal_close_direction both_sides ≡ plus)
unfolding should_close
conflict_close_example = conflict_close both_sides refl refl
