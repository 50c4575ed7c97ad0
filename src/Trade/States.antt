-- ===== src/Trade/States.antt =====
-- Trade states: ENUM_TRADE_STATE (src/include/classes/Trade.enum.h) and the structure TradeStates
-- (src/include/classes/Trade.struct.h).
use Prim.Native.String.{String}
use ea31337_fft.Prelude.{
  ℕ, ◌-◌, ◌^◌, bit_and, bit_or, Bool, true, false, not, ◌||◌, ◌==◌, if◌then◌else◌,
}
use ea31337_fft.Bits.Digits.{bit_not}
use ea31337_fft.Bits.Flags.{add_flags, remove_flags, set_flag, has_any, has_all}
pub mod Laws

abbrev pub state_none : ℕ
state_none = 0

abbrev pub state_bars_not_enough : ℕ
state_bars_not_enough = 2 ^ 0

abbrev pub state_hedge_not_allowed : ℕ
state_hedge_not_allowed = 2 ^ 1

abbrev pub state_margin_max_hard : ℕ
state_margin_max_hard = 2 ^ 2

abbrev pub state_margin_max_soft : ℕ
state_margin_max_soft = 2 ^ 3

abbrev pub state_market_closed : ℕ
state_market_closed = 2 ^ 4

abbrev pub state_money_not_enough : ℕ
state_money_not_enough = 2 ^ 5

abbrev pub state_orders_active : ℕ
state_orders_active = 2 ^ 6

abbrev pub state_orders_max_hard : ℕ
state_orders_max_hard = 2 ^ 7

abbrev pub state_orders_max_soft : ℕ
state_orders_max_soft = 2 ^ 8

abbrev pub state_period_limit_reached : ℕ
state_period_limit_reached = 2 ^ 9

abbrev pub state_spread_too_high : ℕ
state_spread_too_high = 2 ^ 10

abbrev pub state_trade_not_allowed : ℕ
state_trade_not_allowed = 2 ^ 11

abbrev pub state_trade_not_possible : ℕ
state_trade_not_possible = 2 ^ 12

abbrev pub state_trade_terminal_busy : ℕ
state_trade_terminal_busy = 2 ^ 13

abbrev pub state_trade_terminal_offline : ℕ
state_trade_terminal_offline = 2 ^ 14

abbrev pub state_trade_terminal_shutdown : ℕ
state_trade_terminal_shutdown = 2 ^ 15

abbrev pub state_trade_cannot : ℕ
state_trade_cannot = bit_or state_margin_max_hard (
    bit_or state_orders_max_hard (
      bit_or state_market_closed (
        bit_or state_money_not_enough (
          bit_or state_trade_not_allowed (
            bit_or state_trade_not_possible (
              bit_or state_trade_terminal_busy
                (bit_or state_trade_terminal_offline state_trade_terminal_shutdown)))))))

abbrev pub state_trade_shouldnt : ℕ
state_trade_shouldnt = bit_or state_bars_not_enough (
    bit_or state_margin_max_soft
      (bit_or state_orders_max_soft (bit_or state_period_limit_reached state_spread_too_high)))

abbrev pub state_trade_wont : ℕ
state_trade_wont = bit_or state_trade_cannot state_trade_shouldnt

abbrev pub state_trade_can : ℕ
unfolding bit_not
state_trade_can = bit_not state_trade_cannot

pub record TradeStates : Type 0 where
  pub last_check : ℕ
  pub states : ℕ

-- The constructor.
unfoldable pub new_states : TradeStates
new_states = record { last_check = 0; states = 0 }

-- UpdateCheck; `now` is TimeCurrent().
unfoldable pub update_check : ℕ → TradeStates → TradeStates
update_check now t = record t { last_check = now }

-- GetStates
unfoldable pub get_states : ℕ → TradeStates → ℕ × TradeStates
unfolding update_check
get_states now t = (t.states, update_check now t)

-- CheckState, and `Get` of a state
unfoldable pub check_state : ℕ → TradeStates → Bool
unfolding has_any
check_state mask t = has_any t.states mask || (t.states == mask)

-- CheckStatesAll
unfoldable pub check_states_all : ℕ → TradeStates → Bool
unfolding has_all
check_states_all mask t = has_all t.states mask

-- The static CheckState of two words
unfoldable pub check_state_of : ℕ → ℕ → Bool
unfolding has_any
check_state_of states1 states2 = has_any states2 states1 || (states2 == states1)

-- AddState
unfoldable pub add_state : ℕ → TradeStates → TradeStates
add_state mask t = record t { states = add_flags t.states mask }

-- RemoveState
unfoldable pub remove_state : ℕ → TradeStates → TradeStates
remove_state mask t = record t { states = remove_flags t.states mask }

-- SetState(ENUM_TRADE_STATE, bool)
unfoldable pub set_state : ℕ → Bool → TradeStates → TradeStates
set_state state value t = record t { states = set_flag t.states state value }

-- SetState(unsigned int)
unfoldable pub set_states : ℕ → TradeStates → TradeStates
set_states mask t = record t { states = mask }

-- GetStateMessage
unfoldable pub get_state_message : ℕ → String
get_state_message state =
    if state == state_bars_not_enough
    then "Not enough bars to trade"
    else if state == state_hedge_not_allowed
    then "Hedging not allowed by broker"
    else if state == state_margin_max_hard
    then "Hard limit of trade margin reached"
    else if state == state_margin_max_soft
    then "Soft limit of trade margin reached"
    else if state == state_market_closed
    then "Trade market closed"
    else if state == state_money_not_enough
    then "Not enough money to trade"
    else if state == state_orders_active
    then "New orders has been placed"
    else if state == state_orders_max_hard
    then "Soft limit of maximum orders reached"
    else if state == state_orders_max_soft
    then "Hard limit of maximum orders reached"
    else if state == state_period_limit_reached
    then "Per period limit reached"
    else if state == state_spread_too_high
    then "Spread too high"
    else if state == state_trade_not_allowed
    then "Trade not allowed"
    else if state == state_trade_not_possible
    then "Trade not possible"
    else if state == state_trade_terminal_busy
    then "Terminal context busy"
    else if state == state_trade_terminal_offline
    then "Terminal offline"
    else if state == state_trade_terminal_shutdown
    then "Terminal is shutting down"
    else "Unknown!"
