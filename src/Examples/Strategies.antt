-- ===== src/Examples/Strategies.antt =====
-- Strategies and their magic numbers: src/include/ea.h.
use ea31337_fft.Prelude.{
  ℕ, ◌+◌, ◌^◌, ◌≡◌, ◌⊎◌, refl, arith, Bool, true, false, Option, none, some, List, [],
  if◌then◌else◌,
}
use ea31337_fft.UserError.{UserError, invalid_parameter}
use ea31337_fft.Bits.Flags.{has_any}
use ea31337_fft.Strategies.Class.{stg_ma, stg_rsi}
use ea31337_fft.Strategies.Libre
use ea31337_fft.Strategies.Libre.{LibreStrategy, libre_class, strategy_value}
use ea31337_fft.Strategies.Manager.{manager_class}
use ea31337_fft.Strategies.Dispatch.{same_name, dispatchers_agree}
use ea31337_fft.Strategies.Magic.{
  Strategy, find_strategy, key_exists, strategy_add_tfs, block_magic, strategy_add_to_tfs,
}
use ea31337_fft.Strategies.Magic.Blocks.{block_magic-injective}
use ea31337_fft.Strategies.Magic.Register.{registered, strategy_add_tfs_registers}
use ea31337_fft.Strategies.Magic.Outcome.{strategy_add_to_tfs_outcome, two_strategies}

dispatchers_agree_example : manager_class (same_name Libre.strat_rsi) ≡ libre_class Libre.strat_rsi
dispatchers_agree_example = dispatchers_agree Libre.strat_rsi

block_magic-injective_example : (Libre.strat_ma ≡ Libre.strat_ma) × (◌≡◌ {A = ℕ} 18 18)
block_magic-injective_example =
    block_magic-injective 31337 Libre.strat_ma Libre.strat_ma 18 18 (omega arith) (omega arith) refl

-- The mask of H1 and D1, and a list of strategies with one of another block.
abbrev h1_d1 : ℕ
h1_d1 = 2 ^ 11 + 2 ^ 18

abbrev no_strategies : List (ℕ × Strategy ℕ)
no_strategies = []

strategy_add_tfs_registers_example :
    (find_strategy (500 + 11) (strategy_add_tfs 5 77 stg_ma h1_d1 500 1 no_strategies).1 ≡ (
      if has_any h1_d1 (2 ^ 11)
      then some (registered 5 stg_ma 500 1 11)
      else find_strategy (500 + 11) no_strategies))
    × (find_strategy 600 (strategy_add_tfs 5 77 stg_ma h1_d1 500 1 no_strategies).1
        ≡ find_strategy 600 no_strategies)
unfolding key_exists
strategy_add_tfs_registers_example =
    strategy_add_tfs_registers 5 77 stg_ma h1_d1 500 1 (omega arith) no_strategies 11 600
      (λ i p q set. refl) (omega arith) (λ i p q set. omega arith)

abbrev retracement_outcome : Bool × Option UserError × List (ℕ × Strategy ℕ)
retracement_outcome = strategy_add_to_tfs 5 77 31337 Libre.strat_retracement h1_d1 no_strategies

strategy_add_to_tfs_outcome_example :
    ((Libre.strat_retracement ≡ Libre.strat_retracement)
      × (retracement_outcome ≡ (false, some invalid_parameter, no_strategies)))
    ⊎ ((retracement_outcome.0 ≡ true) × (retracement_outcome.1 ≡ none))
strategy_add_to_tfs_outcome_example =
    strategy_add_to_tfs_outcome 5 77 31337 Libre.strat_retracement h1_d1 no_strategies

abbrev after_ma : List (ℕ × Strategy ℕ)
after_ma = (strategy_add_to_tfs 5 77 31337 Libre.strat_ma h1_d1 []).2

abbrev after_rsi : List (ℕ × Strategy ℕ)
after_rsi = (strategy_add_to_tfs 5 77 31337 Libre.strat_rsi h1_d1 after_ma).2

two_strategies_example :
    (find_strategy (block_magic 31337 Libre.strat_ma + 18) after_rsi ≡ (
      if has_any h1_d1 (2 ^ 18)
      then some (
          registered 5 stg_ma (block_magic 31337 Libre.strat_ma) (strategy_value Libre.strat_ma) 18)
      else none))
    × (find_strategy (block_magic 31337 Libre.strat_rsi + 18) after_rsi ≡ (
        if has_any h1_d1 (2 ^ 18)
        then some (
            registered 5 stg_rsi
              (block_magic 31337 Libre.strat_rsi)
              (strategy_value Libre.strat_rsi)
              18)
        else none))
unfolding libre_class block_magic strategy_value
two_strategies_example =
    two_strategies 5 77 31337 Libre.strat_ma Libre.strat_rsi stg_ma stg_rsi h1_d1 h1_d1 18
      (λ e. ground (arith, e)) refl refl (omega arith) (omega arith) (omega arith) (omega arith)
      (omega arith)
