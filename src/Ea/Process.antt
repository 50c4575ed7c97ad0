-- ===== src/Ea/Process.antt =====
-- EA::ProcessSignals (src/include/classes/EA.mqh): what the EA does with the active signals. Trades
-- and strategies are the world behind an interface. The strategy of a signal is taken to exist.
use ea31337_fft.Prelude.{
  ℕ, ltb, Bool, true, false, not, ◌&&◌, Option, none, some, List, [], ◌∷◌, ◌==◌, if◌then◌else◌,
}
use ea31337_fft.Bits.Flags.{has_any}
use ea31337_fft.Signal.Entry.{TradeSignalEntry, check_signals, set_signal, flag_processed}
use ea31337_fft.Signal.Decision.{
  OrderType, buy, sell, Sign, minus, neutral, plus, get_signal_open, get_signal_close,
}
use ea31337_fft.Dict.Slots.{Slot}
use ea31337_fft.Ea.Params.{signal_filter_first}
use ea31337_fft.Manager.Refresh.{SignalManager, refresh}
pub mod Laws
pub mod Ends

-- What the EA asks of a trade and of the strategy with a magic number, and of the terminal's last
-- error. `W` is their state.
pub record World (W : Type 0) : Type 0 where
  pub orders_active : W → Bool
  pub close_orders : OrderType → ℕ → W → W
  pub is_trade_allowed : W → Bool × W
  pub is_suspended : ℕ → W → Bool
  pub trade_request : OrderType → ℕ → W → Bool × W
  pub get_last_error : W → ℕ
  pub reset_last_error : W → W
  pub money_not_enough : W → Bool
  pub suspend : ℕ → W → W

-- How one signal was processed: the signal, the permission to trade, the signal's own result,
-- whether the loop breaks, and the world.
pub record Outcome (F W : Type 0) : Type 0 where
  pub signal : TradeSignalEntry F
  pub allowed : Bool
  pub ok : Bool
  pub stop : Bool
  pub world : W

module _ {W : Type 0} (p : World W) (filter : ℕ) where
  -- Orders of the side that the signal says to close.
  unfoldable pub close_side : Sign → ℕ → W → W
  close_side plus id w = p.close_orders buy id w
  close_side minus id w = p.close_orders sell id w
  close_side neutral id w = w

  -- A request on the side that the signal says to open, when no filter is set, and its result.
  unfoldable pub request : OrderType → ℕ → W → Bool × W
  request cmd id w = if filter == 0 then p.trade_request cmd id w else (true, w)

  unfoldable pub open_side : Sign → ℕ → W → Bool × W
  unfolding request
  open_side plus id w = request buy id w
  open_side minus id w = request sell id w
  open_side neutral id w = (true, w)

  -- `break` after a request that succeeded, when only the first signal is wanted.
  unfoldable pub breaks : Sign → Bool → Bool
  breaks neutral ok = false
  breaks _ ok = (filter == 0) && ok && has_any filter signal_filter_first

  -- The branch on a request that failed.
  unfoldable pub failed_part : ℕ → W → W
  failed_part id w =
      let w1 = if ltb 0 (p.get_last_error w) then p.reset_last_error w else w in
      if p.money_not_enough w1 then p.suspend id w1 else w1

module _ {F W : Type 0} (p : World W) (filter : ℕ) where
  unfoldable pub close_part : TradeSignalEntry F → W → W
  unfolding close_side
  close_part s w =
      if p.orders_active w then close_side p filter (get_signal_close s) s.magic_id w else w

  -- The part that is processed when trade is allowed.
  unfoldable pub open_part : TradeSignalEntry F → W → Outcome F W
  unfolding open_side breaks failed_part
  open_part s w =
      let (ok, w1) = open_side p filter (get_signal_open s) s.magic_id w in
      record {
        signal = if ok then set_signal flag_processed true s else s;
        allowed = true;
        ok = ok;
        stop = breaks p filter (get_signal_open s) ok;
        world = if ok then w1 else failed_part p filter s.magic_id w1;
      }

  -- The body of the loop.
  unfoldable pub process_signal : TradeSignalEntry F → Bool → W → Outcome F W
  unfolding close_part open_part check_signals
  process_signal s allowed w =
      let unchanged : Outcome F W = record {
        signal = s;
        allowed = allowed;
        ok = true;
        stop = false;
        world = w;
      } in
      let (permitted, w1) = p.is_trade_allowed (close_part s w) in
      let allowed1 = allowed && permitted && not (p.is_suspended s.magic_id w1) in
      if check_signals flag_processed s
      then unchanged
      else if allowed1
      then open_part s w1
      else record unchanged { allowed = false; world = w1 }

  -- The loop over the slots of the active signals. A break leaves the result as it was.
  unfoldable pub process_slots :
      List (Slot (TradeSignalEntry F))
      → Bool
      → Bool
      → W
      → List (Slot (TradeSignalEntry F)) × Bool × W
  unfolding process_signal
  process_slots [] allowed result w = ([], result, w)
  process_slots (slot ∷ slots) allowed result w =
      let o = process_signal slot.value allowed w in
      let (rest, result1, w1) = process_slots slots o.allowed (result && o.ok) o.world in
      let (rest2, result2, w2) = process_slots slots allowed result w in
      if slot.is_used
      then if o.stop
        then ((record slot { value = o.signal }) ∷ slots, result, o.world)
        else ((record slot { value = o.signal }) ∷ rest, result1, w1)
      else (slot ∷ rest2, result2, w2)

  -- The refreshed signals, and the result with the terminal's last error.
  unfoldable pub processed_result :
      Bool → W → Option (SignalManager F) → Option (Bool × SignalManager F × W)
  processed_result result w none = none
  processed_result result w (some m) = some (result && (p.get_last_error w == 0), m, w)

  -- ProcessSignals; `now` is TimeGMT().
  unfoldable pub process_signals :
      TradeSignalEntry F → ℕ → SignalManager F → W → Option (Bool × SignalManager F × W)
  unfolding process_slots processed_result
  process_signals blank now m w =
      let (slots, result, w1) = process_slots m.active.slots true true (p.reset_last_error w) in
      processed_result result w1
        (refresh blank now (record m { active = record (m.active) { slots = slots } }))
