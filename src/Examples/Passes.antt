-- ===== src/Examples/Passes.antt =====
-- Passes over the active signals and over the strategies: EA::ProcessSignals and EA::ProcessTick of
-- include/classes/EA.mqh.
use ea31337_fft.Prelude.{
  ℕ, ◌+◌, ◌≡◌, refl, arith, true, false, ◌==◌, some, [], ◌∷◌, if◌then◌else◌, Bool,
}
use ea31337_fft.Ea.Process.{World, process_slots, process_signals}
use ea31337_fft.Ea.Process.Laws.{process_slots_denied, process_signals_filtered}
use ea31337_fft.Signal.Decision.{get_signal_open, should_open}
use ea31337_fft.Timeframe.Tables.{period_h1}
use ea31337_fft.Manager.Total.{AllCounted, held}
use ea31337_fft.Dict.Slots.{used_at}
use ea31337_fft.Manager.Refresh.{SignalManager, is_done, signal_at}
use ea31337_fft.Ea.Process.Ends.{process_signals_lem}
use ea31337_fft.Ea.Tick.{StrategyWorld, TickState}
use ea31337_fft.Ea.WholeTick.{EaWorld, Ea, process_tick}
use ea31337_fft.Ea.WholeTick.Laws.{Ticked, process_tick_lem}
use ea31337_fft.Examples.Times.{clock, times}
use ea31337_fft.Examples.Signals.{buy_answers}
use ea31337_fft.Examples.Managers.{blank, manager, manager-AllCounted}

-- A world that counts the trade requests, in which strategy 1 is suspended.
abbrev counting : World ℕ
counting = record {
  orders_active = λ w. false;
  close_orders = λ cmd id w. w;
  is_trade_allowed = λ w. (true, w);
  is_suspended = λ id w. id == 1;
  trade_request = λ cmd id w. (true, w + 1);
  get_last_error = λ w. 0;
  reset_last_error = λ w. w;
  money_not_enough = λ w. false;
  suspend = λ id w. w;
}

process_slots_denied_example :
    ((process_slots counting 0 manager.active.slots false true 0).0 ≡ manager.active.slots)
    × ((process_slots counting 0 manager.active.slots false true 0).1 ≡ true)
process_slots_denied_example = process_slots_denied counting 0 manager.active.slots true 0

process_signals_filtered_example :
    process_signals counting 1 blank 2000 manager 0
    ≡ process_signals
        (record counting { trade_request = λ cmd id w. (false, w) })
        1
        blank
        2000
        manager
        0
process_signals_filtered_example =
    process_signals_filtered counting 1 (λ e. ground (arith, e)) (λ cmd id w. (false, w)) blank 2000
      manager 0

-- Without a filter the second signal of the manager, which says to sell, leads to one request.
one_request : (process_slots counting 0 manager.active.slots true true 0).2 ≡ 1
unfolding process_slots get_signal_open should_open
one_request = refl

-- Strategies that all want to buy; strategy 1 is suspended and ends with an error.
abbrev buyers : StrategyWorld ℕ ℕ
buyers = record {
  is_enabled = λ i w. true;
  is_suspended = λ i w. i == 1;
  trade_cannot = λ i w. false;
  strategy_on_period = λ i periods w. w + 1;
  strategy_tasks = λ i w. w;
  trade_on_period = λ periods w. w;
  tick_filter = λ i w. (true, w);
  answers = λ i allowed w. (buy_answers, w);
  timeframe = λ i w. period_h1;
  magic_id = λ i w. i;
  strength = λ i w. 1;
  time_gmt = λ w. 1000;
  last_error = λ i w. if i == 1 then 5 else 0;
}

abbrev tick : TickState ℕ ℕ
tick = record {
  manager = manager;
  results = record {
    last_error = 9;
    stg_errored = 8;
    stg_processed = 7;
    stg_processed_periods = 0;
    stg_suspended = 0;
    tasks_processed = 0;
  };
  world = 0;
}

process_signals_lem_example :
    (ok : Bool) × (m' : SignalManager ℕ) × (w' : ℕ) × (process_signals counting 0 blank 2000 manager
        0
      ≡ some (ok, m', w'))
    × AllCounted m'
    × (held m' ≡ held manager)
    × ((j : ℕ) → used_at m'.active.slots j ≡ true → is_done blank (signal_at blank j m') ≡ false)
process_signals_lem_example = process_signals_lem counting 0 blank 2000 manager 0 manager-AllCounted

-- An EA of the two strategies, whose last tick was in the hour before 01:00:00.
abbrev world : EaWorld ℕ ℕ
world = record {
  strategies = buyers;
  trades = counting;
  time_current = λ w. 3600;
  on_period = λ periods w. w;
  flush_log = λ w. w;
  process_trades = λ w. w;
  process_data = λ w. w;
  process_tasks = λ w. w;
}

abbrev ea : Ea ℕ ℕ
ea = record {
  state = record { last_updated = times 3599 3599; flags = 5; new_periods = 0 };
  tick = tick;
  keys = 1 ∷ 2 ∷ [];
}

process_tick_lem_example :
    (e' : Ea ℕ ℕ) × (process_tick world clock blank 0 0 ea ≡ some e')
    × Ticked world clock blank 0 0 ea e'
process_tick_lem_example =
    process_tick_lem world clock blank 0 0 ea manager-AllCounted (omega arith)
