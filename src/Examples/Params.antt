-- ===== src/Examples/Params.antt =====
-- Parameters of trades, and conversions: include/classes/Trade.struct.h.
use ea31337_fft.Prelude.{ℕ, ◌*◌, ◌-◌, ◌%◌, ◌^◌, ◌≡◌, false}
use ea31337_fft.Casts.{Casts}
use ea31337_fft.Timeframe.Tables.{tf_value}
use ea31337_fft.Timeframe.Convert.{secs_to_tf}
use ea31337_fft.Trade.Limits.{is_limit_ge_stats}
use ea31337_fft.Trade.Params.{new_trade_params, set_trade_param, trade_slippage}
use ea31337_fft.Trade.Params.Laws.{new_trade_params_unlimited}
use ea31337_fft.Examples.Times.{clock}
use ea31337_fft.Examples.Trades.{five_opened, stats}

-- Integers for every type: words are cut to their width, and texts are not converted.
abbrev pub number_casts : Casts ℕ ℕ
number_casts = record {
  of_number = λ width x. x % 2 ^ width;
  of_float = λ x. x;
  of_text = λ text. 0;
  of_tf = λ tf. tf_value tf;
  to_number = λ width v. v % 2 ^ width;
  to_float = λ v. v;
  to_text = λ v. "";
  to_tf = λ v. (secs_to_tf (60 * v)).0;
  wrong_value = 2 ^ 64 - 1;
}

new_trade_params_unlimited_example :
    (is_limit_ge_stats clock 3599
      (set_trade_param number_casts trade_slippage 20 (new_trade_params 0 1 50 31337 five_opened)).0
      stats).0
    ≡ false
new_trade_params_unlimited_example =
    new_trade_params_unlimited number_casts 0 1 50 31337 five_opened trade_slippage 20 clock 3599
      stats
