-- ===== src/Ea/WholeTick.antt =====
-- EA::ProcessTick and EA::ProcessPeriods (src/include/classes/EA.mqh) as a whole. What the EA does with
-- trades, data and tasks on new periods is behind the interface, and taken to leave the EA's own state
-- and signals as they are.
pub mod Laws
use ea31337_fft.Prelude.{ℕ, ltb, leb, Bool, true, false, Option, none, some, List, if◌then◌else◌}
use ea31337_fft.DateTime.Entry.{MqlDateTime, datetime_minute}
use ea31337_fft.DateTime.Periods.{DateTime, get_started_periods, update}
use ea31337_fft.Signal.Entry.{TradeSignalEntry}
use ea31337_fft.Manager.Refresh.{SignalManager, is_ready}
use ea31337_fft.Ea.State.{
  EaState, EaProcessResult, reset_result, is_enabled, is_active, set_prop, get_prop,
  prop_new_periods,
}
use ea31337_fft.Ea.Process.{World, process_signals}
use ea31337_fft.Ea.Tick.{StrategyWorld, TickState, process_strategies}

-- What a tick asks of the platform and of the parts that are left out: the time (TimeCurrent), OnPeriod
-- with the periods, the log, and the processing of trades, data and tasks.
pub record EaWorld (F W : Type 0) : Type 0 where
  pub strategies : StrategyWorld F W
  pub trades : World W
  pub time_current : W → ℕ
  pub on_period : ℕ → W → W
  pub flush_log : W → W
  pub process_trades : W → W
  pub process_data : W → W
  pub process_tasks : W → W

-- The EA: its state, its signals, results and world, and the keys of its strategies.
pub record Ea (F W : Type 0) : Type 0 where
  pub state : EaState
  pub tick : TickState F W
  pub keys : List ℕ

module _ {F W : Type 0} where
  -- Whether a period of at least a minute started.
  unfoldable pub has_new_periods : Ea F W → Bool
  unfolding get_prop
  has_new_periods e = leb datetime_minute (get_prop prop_new_periods e.state).0

  unfoldable pub in_world : (W → W) → Ea F W → Ea F W
  in_world f e = record e { tick = record (e.tick) { world = f e.tick.world } }

  unfoldable pub with_tick : Ea F W → Option (TickState F W) → Option (Ea F W)
  with_tick e none = none
  with_tick e (some t) = some (record e { tick = t })

  -- The manager and the world after the signals were processed.
  unfoldable pub with_signals : Ea F W → Option (Bool × SignalManager F × W) → Option (Ea F W)
  with_signals e none = none
  with_signals e (some (ok, m, w)) =
      some (record e { tick = record (e.tick) { manager = m; world = w } })

module _ {F W : Type 0} (p : EaWorld F W) (time_to_struct : ℕ → MqlDateTime) where
  -- ProcessPeriods
  unfoldable pub process_periods : Ea F W → Ea F W
  unfolding get_started_periods set_prop in_world
  process_periods e =
      let (periods, d) =
        get_started_periods time_to_struct true true (p.time_current e.tick.world)
          e.state.last_updated in
      let s = (set_prop prop_new_periods periods (record (e.state) { last_updated = d })).0 in
      in_world (p.on_period periods) (record e { state = s })

  -- The end of a tick of an EA that is enabled.
  unfoldable pub finish : Ea F W → Ea F W
  unfolding update has_new_periods in_world
  finish e =
      let s = record (e.state) {
        last_updated = update time_to_struct (p.time_current e.tick.world) e.state.last_updated;
      } in
      let e1 = record e { state = s } in
      if has_new_periods e1 then in_world p.process_tasks (in_world p.process_data e1) else e1

module _ {F W : Type 0} (p : EaWorld F W) (blank : TradeSignalEntry F) (filter : ℕ) where
  -- The signals are processed when there are active ones and the manager is ready, which is asked only
  -- then.
  unfoldable pub signals_part : Ea F W → Option (Ea F W)
  unfolding is_ready process_signals with_signals
  signals_part e =
      let now = p.strategies.time_gmt e.tick.world in
      let (ready, m) = is_ready false now e.tick.manager in
      if ltb 0 e.tick.manager.active.num_used
      then if ready
        then with_signals e (process_signals p.trades filter blank now m e.tick.world)
        else some (record e { tick = record (e.tick) { manager = m } })
      else some e

  -- The rest of the part of an active EA.
  unfoldable pub after_signals : Option (Ea F W) → Option (Ea F W)
  unfolding in_world has_new_periods
  after_signals none = none
  after_signals (some e) =
      let e1 = if ltb 0 e.tick.results.last_error then in_world p.flush_log e else e in
      some (if has_new_periods e1 then in_world p.process_trades e1 else e1)

  unfoldable pub then_signals : Option (Ea F W) → Option (Ea F W)
  unfolding signals_part after_signals
  then_signals none = none
  then_signals (some e) = after_signals (signals_part e)

module _ {F W : Type 0} (p : EaWorld F W) (time_to_struct : ℕ → MqlDateTime)
    (blank : TradeSignalEntry F) (zero_weight : F) (filter : ℕ) where
  -- The part of an EA that is active.
  unfoldable pub active_part : Ea F W → Option (Ea F W)
  unfolding process_periods process_strategies then_signals with_tick get_prop
  active_part e =
      let e1 = process_periods p time_to_struct e in
      let periods = (get_prop prop_new_periods e1.state).0 in
      then_signals p blank filter (
        with_tick e1
          (process_strategies p.strategies blank zero_weight periods e1.keys (some e1.tick)))

  unfoldable pub then_finish : Option (Ea F W) → Option (Ea F W)
  unfolding finish
  then_finish none = none
  then_finish (some e) = some (finish p time_to_struct e)

  -- ProcessTick
  unfoldable pub process_tick : Ea F W → Option (Ea F W)
  unfolding active_part then_finish reset_result is_enabled is_active
  process_tick e =
      let e1 = record e { tick = record (e.tick) { results = reset_result e.tick.results } } in
      if is_enabled e.state
      then then_finish (if is_active e.state then active_part e1 else some e1)
      else some e
