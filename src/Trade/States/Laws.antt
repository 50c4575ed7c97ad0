-- ===== src/Trade/States/Laws.antt =====
-- How the states of a trade are set and read.
use ea31337_fft.Prelude.{ℕ, ◌≡◌, ◌≢◌, refl, arith, bit_and, Bool, true, false, ◌||◌, ◌==◌, sym, ◌∙◌}
use ea31337_fft.Bits.Digits.{bit_not}
use ea31337_fft.Bits.Flags.{IsWord, has_any-set_flag, has_any-set_flag_other, has_any, has_any_self}
use ea31337_fft.Trade.States.{
  TradeStates, check_state, set_state, state_trade_can, state_trade_cannot,
}

-- Setting a state makes it read as set. Clearing it makes it read as clear, and a disjoint mask
-- shares a bit with the states exactly as before.
pub check_state-set_state :
    (s g : ℕ) (v : Bool) (t : TradeStates)
    → IsWord s
    → IsWord g
    → s ≢ 0
    → bit_and s g ≡ 0
    → (check_state s (set_state s v t) ≡ v)
      × (has_any (set_state s v t).states g ≡ has_any t.states g)
unfolding check_state set_state
check_state-set_state s g v t ws wg ne disjoint =
    (reads_back, has_any-set_flag_other t.states s g v ws wg disjoint)
  where
    w : ℕ
    w = (set_state s v t).states

    marked : has_any w s ≡ v
    marked = has_any-set_flag t.states s v ws ne

    not_all : w ≡ s → v ≡ true
    not_all e = sym marked ∙ rw e (has_any_self s ws ne)

    reads_back : has_any w s || (w == s) ≡ v
    reads_back = ground (arith, marked, not_all)

-- The test for TRADE_STATE_TRADE_CAN fails on a trade that has no state at all, though the test
-- for TRADE_STATE_TRADE_CANNOT fails as well.
pub can_and_cannot :
    (t : TradeStates)
    → t.states ≡ 0
    → (check_state state_trade_can t ≡ false) × (check_state state_trade_cannot t ≡ false)
unfolding check_state bit_not
can_and_cannot t h = rw h (refl, refl)
