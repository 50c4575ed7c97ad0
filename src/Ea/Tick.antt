-- ===== src/Ea/Tick.antt =====
-- The part of EA::ProcessTick (src/include/classes/EA.mqh) that asks every strategy for its signal.
-- Strategies and the trade are the world behind an interface; a strategy is known by its key.
use ea31337_fft.Prelude.{
  ℕ, ◌+◌, ◌%◌, ◌^◌, ltb, leb, Bool, true, false, not, ◌&&◌, Option, none, some, List, [], ◌∷◌,
  if◌then◌else◌,
}
use ea31337_fft.DateTime.Entry.{datetime_minute}
use ea31337_fft.Timeframe.Tables.{Timeframe}
use ea31337_fft.Signal.Entry.{TradeSignalEntry}
use ea31337_fft.Signal.Decision.{Sign, minus, neutral, plus, get_signal_open, get_signal_close}
use ea31337_fft.Signal.Collect.{Answers, strategy_signal_entry}
use ea31337_fft.Manager.Refresh.{SignalManager, signal_add}
use ea31337_fft.Ea.State.{EaProcessResult, reset_result}
pub mod Laws

-- What the EA asks of the strategy with a key, and of its trade. `W` is their state.
pub record StrategyWorld (F W : Type 0) : Type 0 where
  pub is_enabled : ℕ → W → Bool
  pub is_suspended : ℕ → W → Bool
  pub trade_cannot : ℕ → W → Bool
  pub strategy_on_period : ℕ → ℕ → W → W
  pub strategy_tasks : ℕ → W → W
  pub trade_on_period : ℕ → W → W
  pub tick_filter : ℕ → W → Bool × W
  pub answers : ℕ → Bool → W → Answers × W
  pub timeframe : ℕ → W → Timeframe
  pub magic_id : ℕ → W → ℕ
  pub strength : ℕ → W → F
  pub time_gmt : W → ℕ
  pub last_error : ℕ → W → ℕ

-- What a tick changes: the signals, the results and the world.
pub record TickState (F W : Type 0) : Type 0 where
  pub manager : SignalManager F
  pub results : EaProcessResult
  pub world : W

-- Whether two decisions differ.
unfoldable pub sign_differs : Sign → Sign → Bool
sign_differs minus minus = false
sign_differs neutral neutral = false
sign_differs plus plus = false
sign_differs _ _ = true

-- What the results record of a strategy that ended with an error code; the counters are unsigned
-- short, and a code from 2 ^ 31 on is negative as an int.
unfoldable pub count_result : ℕ → EaProcessResult → EaProcessResult
count_result code r = record r {
  last_error = if ltb r.last_error code then code else r.last_error;
  stg_errored = (r.stg_errored + (if ltb 0 code && ltb code (2 ^ 31) then 1 else 0)) % 2 ^ 16;
  stg_processed = (r.stg_processed + 1) % 2 ^ 16;
}

module _ {F W : Type 0} (p : StrategyWorld F W) where
  -- The part on new periods.
  unfoldable pub periods_part : ℕ → ℕ → TickState F W → TickState F W
  periods_part periods i t =
      if leb datetime_minute periods
      then record t {
        world =
            p.trade_on_period periods (p.strategy_tasks i (p.strategy_on_period i periods t.world));
        results = record (t.results) {
          stg_processed_periods = (t.results.stg_processed_periods + 1) % 2 ^ 16;
        };
      }
      else t

module _ {F : Type 0} (blank : TradeSignalEntry F) where
  -- A signal is added unless it says the same of closing as of opening.
  unfoldable pub signal_part : TradeSignalEntry F → SignalManager F → Option (SignalManager F)
  unfolding sign_differs
  signal_part s m =
      if sign_differs (get_signal_close s) (get_signal_open s) then signal_add blank s m else some m

module _ {F W : Type 0} where
  unfoldable pub with_manager : TickState F W → Option (SignalManager F) → Option (TickState F W)
  with_manager t none = none
  with_manager t (some m) = some (record t { manager = m })

module _ {F W : Type 0} (p : StrategyWorld F W) (blank : TradeSignalEntry F) (zero_weight : F) where
  -- The part on a tick that the strategy's filter lets through.
  unfoldable pub entry_part : ℕ → TickState F W → Option (TickState F W)
  unfolding signal_part with_manager count_result
  entry_part i t =
      let can_trade = not (p.is_suspended i t.world) && not (p.trade_cannot i t.world) in
      let (a, w) = p.answers i can_trade t.world in
      let s =
        strategy_signal_entry zero_weight a can_trade (p.timeframe i w) (p.magic_id i w)
          (p.strength i w) (p.time_gmt w) in
      if ltb 0 s.signals
      then with_manager
          (record t { results = count_result (p.last_error i w) t.results; world = w })
          (signal_part blank s t.manager)
      else some (record t { world = w })

  -- The tick filter of the strategy, and what depends on it.
  unfoldable pub filtered_part : ℕ → TickState F W → Option (TickState F W)
  unfolding entry_part
  filtered_part i t =
      let (passed, w) = p.tick_filter i t.world in
      if passed then entry_part i (record t { world = w }) else some (record t { world = w })

  -- The body of the loop.
  unfoldable pub process_strategy : ℕ → ℕ → TickState F W → Option (TickState F W)
  unfolding periods_part filtered_part
  process_strategy periods i t =
      if p.is_enabled i t.world then filtered_part i (periods_part p periods i t) else some t

  -- The loop over the keys of the strategies.
  unfoldable pub process_strategies : ℕ → List ℕ → Option (TickState F W) → Option (TickState F W)
  unfolding process_strategy
  process_strategies periods keys none = none
  process_strategies periods [] (some t) = some t
  process_strategies periods (i ∷ keys) (some t) =
      process_strategies periods keys (process_strategy periods i t)

  -- The results are reset before the loop.
  unfoldable pub retrieve_signals : ℕ → List ℕ → TickState F W → Option (TickState F W)
  unfolding process_strategies reset_result
  retrieve_signals periods keys t =
      process_strategies periods keys (some (record t { results = reset_result t.results }))
