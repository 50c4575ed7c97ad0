-- ===== src/Strategies/Magic.antt =====
-- Magic numbers: StrategyAddToTfs of src/include/ea.h gives each strategy a block of numbers, and
-- the two StrategyAdd of src/include/classes/EA.mqh register one strategy for each timeframe in
-- a bit mask, under the number of the block at the index of the timeframe.
pub mod Blocks
pub mod Register
pub mod Outcome
use ea31337_fft.Prelude.{
  ℕ, zero, suc, ◌+◌, ◌*◌, ◌%◌, ◌^◌, Bool, true, false, not, ◌&&◌, Option, none, some, List, [], ◌∷◌,
  ◌++◌, ltb, ◌==◌, if◌then◌else◌,
}
use ea31337_fft.UserError.{UserError, invalid_parameter}
use ea31337_fft.Bits.Flags.{has_any}
use ea31337_fft.Timeframe.Tables.{Timeframe, final_timeframes_index}
use ea31337_fft.Timeframe.Convert.{index_to_tf}
use ea31337_fft.Strategies.Class.{StrategyClass}
use ea31337_fft.Strategies.Libre.{LibreStrategy, strat_none, strategy_value, libre_class}

-- What the EA sets of a strategy object that it creates. `F` is the type of floats.
pub record Strategy (F : Type 0) : Type 0 where
  pub cls : StrategyClass
  pub id : ℕ
  pub tf : Timeframe
  pub type : ℕ
  pub risk_margin : F

module _ {F : Type 0} where
  -- `strats`, a dictionary from magic numbers to strategies
  pub find_strategy : ℕ → List (ℕ × Strategy F) → Option (Strategy F)
  find_strategy k [] = none
  find_strategy k ((j, s) ∷ rest) = if j == k then some s else find_strategy k rest

  unfoldable pub key_exists : ℕ → List (ℕ × Strategy F) → Bool
  key_exists k [] = false
  key_exists k ((j, s) ∷ rest) = if j == k then true else key_exists k rest

-- `margin` is EA_PARAM_PROP_RISK_MARGIN_MAX, which OnStrategyAdd writes into the strategy, and
-- `random` what `rand()` returns for a number that is not positive.
module _ {F : Type 0} (margin : F) (random : ℕ) where
  -- StrategyAdd of one timeframe. A number that is taken is logged, and reported as success;
  -- Set of one that is free succeeds where memory suffices.
  unfoldable pub strategy_add :
      StrategyClass → Timeframe → ℕ → ℕ → List (ℕ × Strategy F) → Bool × List (ℕ × Strategy F)
  strategy_add cls tf magic_no type strats =
      let magic = if ltb 0 magic_no then magic_no else random in
      let strat : Strategy F = record {
        cls = cls;
        id = magic;
        tf = tf;
        type = type;
        risk_margin = margin;
      } in
      if not (key_exists magic strats)
      then (true, strats ++ ((magic, strat) ∷ []))
      else (true, strats)

  -- The loop of StrategyAdd over the bits of `tfs`, at bit `tfi` with `left` rounds to go.
  unfoldable pub add_from :
      StrategyClass
      → ℕ
      → ℕ
      → ℕ
      → ℕ
      → ℕ
      → Bool × List (ℕ × Strategy F)
      → Bool × List (ℕ × Strategy F)
  unfolding strategy_add
  add_from cls tfs init_magic type zero tfi (result, strats) = (result, strats)
  add_from cls tfs init_magic type (suc left) tfi (result, strats) =
      let (added, strats') = strategy_add cls (index_to_tf tfi) (init_magic + tfi) type strats in
      add_from cls tfs init_magic type left (tfi + 1)
        (if has_any tfs (2 ^ tfi) then (result && added, strats') else (result, strats))

  -- StrategyAdd of a mask of timeframes; `sizeof(int) * 8` is 32.
  unfoldable pub strategy_add_tfs :
      StrategyClass → ℕ → ℕ → ℕ → List (ℕ × Strategy F) → Bool × List (ℕ × Strategy F)
  unfolding add_from
  strategy_add_tfs cls tfs init_magic type strats =
      add_from cls tfs init_magic type 32 0 (true, strats)

-- `unsigned int _magic_no = EA_MagicNumber + _stg * FINAL_ENUM_TIMEFRAMES_INDEX`
unfoldable pub block_magic : ℕ → LibreStrategy → ℕ
block_magic ea_magic stg = (ea_magic + strategy_value stg * final_timeframes_index) % 2 ^ 32

is_none : LibreStrategy → Bool
is_none strat_none = true
is_none _ = false

add_class :
    {F : Type 0}
    → F
    → ℕ
    → ℕ
    → LibreStrategy
    → ℕ
    → List (ℕ × Strategy F)
    → Option StrategyClass
    → Bool × Option UserError × List (ℕ × Strategy F)
unfolding is_none
add_class margin random ea_magic stg tfs strats (some cls) =
    let (result, strats') =
      strategy_add_tfs margin random cls tfs (block_magic ea_magic stg) (strategy_value stg)
        strats in
    (result, none, strats')
add_class margin random ea_magic stg tfs strats none =
    (is_none stg, if is_none stg then none else some invalid_parameter, strats)

-- EALibre::StrategyAddToTfs: its result, the error that it reports, and the strategies.
unfoldable pub strategy_add_to_tfs :
    {F : Type 0}
    → F
    → ℕ
    → ℕ
    → LibreStrategy
    → ℕ
    → List (ℕ × Strategy F)
    → Bool × Option UserError × List (ℕ × Strategy F)
unfolding add_class
strategy_add_to_tfs margin random ea_magic stg tfs strats =
    add_class margin random ea_magic stg tfs strats (libre_class stg)
