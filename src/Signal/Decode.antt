-- ===== src/Signal/Decode.antt =====
-- The decisions read from the word that was collected from a strategy's answers.
use ea31337_fft.Prelude.{
  ℕ, ◌≡◌, refl, arith, Bool, true, false, not, ◌&&◌, ◌==◌, if◌then◌else◌, ◌∙◌,
}
use ea31337_fft.Bits.Digits.{digit, digit-bit_or, digit-le_one, digit-zero}
use ea31337_fft.Bits.Flags.{has_any}
use ea31337_fft.Bits.OneFlag.{has_any-two_pow}
use ea31337_fft.Timeframe.Tables.{Timeframe}
use ea31337_fft.Signal.Entry.{
  check_signals, flag_close_buy_main, flag_close_buy_filter, flag_close_sell_main,
  flag_close_sell_filter, flag_close_time_filter, flag_open_buy_main, flag_open_buy_filter,
  flag_open_sell_main, flag_open_sell_filter, flag_open_time_filter,
}
use ea31337_fft.Signal.Decision.{buy, sell, should_open, should_close}
use ea31337_fft.Signal.Collect.{Answers, or_if, collect_signals, strategy_signal_entry}
use ea31337_fft.Signal.Laws.{should_open_buy, should_open_sell, should_close_buy, should_close_sell}

digit-or_if :
    (s : ℕ) (t : Bool) (f i : ℕ)
    → digit (or_if s t f) i ≡ (if (digit f i == 1) && t then 1 else digit s i)
unfolding or_if
digit-or_if s true f i = ground (arith, digit-bit_or i s f, digit-le_one s i, digit-le_one f i)
digit-or_if s false f i = ground (arith, digit-bit_or i s 0, digit-zero i)

set_digit : (t : Bool) → (if t then 1 else 0) == 1 ≡ t
set_digit true = refl
set_digit false = refl

not-not : (t : Bool) → not (not t) ≡ t
not-not true = refl
not-not false = refl

close_buy_filter : (w : ℕ) → has_any w flag_close_buy_filter ≡ (digit w 0 == 1)
close_buy_filter w = has_any-two_pow w 0 (omega arith)

close_buy_main : (w : ℕ) → has_any w flag_close_buy_main ≡ (digit w 1 == 1)
close_buy_main w = has_any-two_pow w 1 (omega arith)

close_sell_filter : (w : ℕ) → has_any w flag_close_sell_filter ≡ (digit w 2 == 1)
close_sell_filter w = has_any-two_pow w 2 (omega arith)

close_sell_main : (w : ℕ) → has_any w flag_close_sell_main ≡ (digit w 3 == 1)
close_sell_main w = has_any-two_pow w 3 (omega arith)

close_time_filter : (w : ℕ) → has_any w flag_close_time_filter ≡ (digit w 4 == 1)
close_time_filter w = has_any-two_pow w 4 (omega arith)

open_buy_filter : (w : ℕ) → has_any w flag_open_buy_filter ≡ (digit w 6 == 1)
open_buy_filter w = has_any-two_pow w 6 (omega arith)

open_buy_main : (w : ℕ) → has_any w flag_open_buy_main ≡ (digit w 7 == 1)
open_buy_main w = has_any-two_pow w 7 (omega arith)

open_sell_filter : (w : ℕ) → has_any w flag_open_sell_filter ≡ (digit w 8 == 1)
open_sell_filter w = has_any-two_pow w 8 (omega arith)

open_sell_main : (w : ℕ) → has_any w flag_open_sell_main ≡ (digit w 9 == 1)
open_sell_main w = has_any-two_pow w 9 (omega arith)

open_time_filter : (w : ℕ) → has_any w flag_open_time_filter ≡ (digit w 10 == 1)
open_time_filter w = has_any-two_pow w 10 (omega arith)

ruleset decode = (
  close_buy_filter, close_buy_main, close_sell_filter, close_sell_main, close_time_filter,
  open_buy_filter, open_buy_main, open_sell_filter, open_sell_main, open_time_filter, digit-or_if,
  set_digit, not-not,
)

-- The entry that is built from a strategy's answers says to open a side exactly when trade is
-- allowed and the strategy gave the signal of that side, and both its filters let it pass; it says
-- to close a side exactly when the strategy gave the closing signal and both filters let it pass,
-- whether or not trade is allowed.
pub decode_answers :
    {F : Type 0} (zero_weight : F) (a : Answers) (allowed : Bool) (tf : Timeframe) (id : ℕ)
    (strength : F) (now : ℕ)
    → let e = strategy_signal_entry zero_weight a allowed tf id strength now in
      (should_open buy e
        ≡ allowed
          && (a.signal_open buy && a.signal_open_filter_method buy && a.signal_open_filter_time))
      × (should_open sell e
          ≡ allowed
            && (a.signal_open sell
                && a.signal_open_filter_method sell
                && a.signal_open_filter_time))
      × (should_close buy e
          ≡ a.signal_close buy && a.signal_close_filter buy && a.signal_close_filter_time)
      × (should_close sell e
          ≡ a.signal_close sell && a.signal_close_filter sell && a.signal_close_filter_time)
unfolding collect_signals strategy_signal_entry digit check_signals
decode_answers zero_weight a true tf id strength now =
    let e = strategy_signal_entry zero_weight a true tf id strength now in
    (
      should_open_buy e ∙ simp decode,
      should_open_sell e ∙ simp decode,
      should_close_buy e ∙ simp decode,
      should_close_sell e ∙ simp decode,
    )
decode_answers zero_weight a false tf id strength now =
    let e = strategy_signal_entry zero_weight a false tf id strength now in
    (
      should_open_buy e ∙ simp decode,
      should_open_sell e ∙ simp decode,
      should_close_buy e ∙ simp decode,
      should_close_sell e ∙ simp decode,
    )
