-- ===== src/Strategies/Magic/Outcome.antt =====
-- StrategyAddToTfs as a whole: its result on every strategy, and two strategies side by side.
use ea31337_fft.Prelude.{
  ℕ, ◌+◌, ◌^◌, ◌<◌, ◌≡◌, ◌≢◌, ◌⊎◌, inl, inr, refl, ◌∙◌, arith, true, false, none, some, List, [],
  ◌∷◌, if◌then◌else◌, sym,
}
use ea31337_fft.UserError.{invalid_parameter}
use ea31337_fft.Bits.Digits.{digit_above}
use ea31337_fft.Bits.Flags.{has_any}
use ea31337_fft.Bits.OneFlag.{has_any-two_pow}
use ea31337_fft.Strategies.Class.{StrategyClass}
use ea31337_fft.Strategies.Libre
use ea31337_fft.Strategies.Libre.{LibreStrategy, libre_class, strategy_value}
use ea31337_fft.Strategies.Magic.{
  Strategy, find_strategy, key_exists, strategy_add_tfs, block_magic, strategy_add_to_tfs,
  add_class,
}
use ea31337_fft.Strategies.Magic.Blocks.{block_magic-injective}
use ea31337_fft.Strategies.Magic.Register.{
  registered, IsFree, strategy_add_tfs_registers, strategy_add_tfs-true,
}

module _ {F : Type 0} (margin : F) (random ea_magic : ℕ) where
  -- StrategyAddToTfs fails on STRAT_RETRACEMENT alone, with an error and with no strategy added;
  -- on every other strategy it succeeds and reports none.
  pub strategy_add_to_tfs_outcome :
      (stg : LibreStrategy) (tfs : ℕ) (xs : List (ℕ × Strategy F))
      → ((stg ≡ Libre.strat_retracement)
          × (strategy_add_to_tfs margin random ea_magic stg tfs xs
              ≡ (false, some invalid_parameter, xs)))
        ⊎ (((strategy_add_to_tfs margin random ea_magic stg tfs xs).0 ≡ true)
            × ((strategy_add_to_tfs margin random ea_magic stg tfs xs).1 ≡ none))
  unfolding strategy_add_to_tfs libre_class
  strategy_add_to_tfs_outcome Libre.strat_none tfs xs = inr (refl, refl)
  strategy_add_to_tfs_outcome Libre.strat_retracement tfs xs = inl (refl, refl)
  strategy_add_to_tfs_outcome _ tfs xs =
      inr (strategy_add_tfs-true margin random _ tfs _ _ xs, refl)

module _ {F : Type 0} where
  key_exists_of_find :
      (k : ℕ) (xs : List (ℕ × Strategy F)) → find_strategy k xs ≡ none → key_exists k xs ≡ false
  unfolding find_strategy key_exists
  key_exists_of_find k [] h = refl
  key_exists_of_find k ((j, s) ∷ xs) h = ground (arith, key_exists_of_find k xs)

bit-lt : (tfs i : ℕ) → tfs < 2 ^ 21 → i < 32 → has_any tfs (2 ^ i) ≡ true → i < 21
bit-lt tfs i h k set = ground (arith, has_any-two_pow tfs i k, digit_above 21 i tfs h)

module _ {F : Type 0} (margin : F) (random ea_magic : ℕ) where
  -- Two different strategies that the EA knows, added one after the other for masks of the 21
  -- timeframes: each is found, for every timeframe of its mask, under its own number with that
  -- timeframe, its class and its type.
  pub two_strategies :
      (s t : LibreStrategy) (c d : StrategyClass) (tfs tfs' k : ℕ)
      → s ≢ t
      → libre_class s ≡ some c
      → libre_class t ≡ some d
      → 0 < block_magic ea_magic s
      → 0 < block_magic ea_magic t
      → tfs < 2 ^ 21
      → tfs' < 2 ^ 21
      → k < 21
      → let xs = (strategy_add_to_tfs margin random ea_magic s tfs []).2 in
        let ys = (strategy_add_to_tfs margin random ea_magic t tfs' xs).2 in
        (find_strategy (block_magic ea_magic s + k) ys ≡ (
          if has_any tfs (2 ^ k)
          then some (registered margin c (block_magic ea_magic s) (strategy_value s) k)
          else none))
        × (find_strategy (block_magic ea_magic t + k) ys ≡ (
            if has_any tfs' (2 ^ k)
            then some (registered margin d (block_magic ea_magic t) (strategy_value t) k)
            else none))
  unfolding strategy_add_to_tfs add_class find_strategy key_exists
  two_strategies s t c d tfs tfs' k ne hs ht ps pt ls lt lk =
      rw (hs, ht) (second.1 ∙ (first k lk).0, second.0 ∙ rw ((first k lk).1) refl)
    where
      bs : ℕ
      bs = block_magic ea_magic s

      bt : ℕ
      bt = block_magic ea_magic t

      xs : List (ℕ × Strategy F)
      xs = (strategy_add_tfs margin random c tfs bs (strategy_value s) []).1

      ys : List (ℕ × Strategy F)
      ys = (strategy_add_tfs margin random d tfs' bt (strategy_value t) xs).1

      apart : (i j : ℕ) → i < 21 → j < 21 → bs + i ≢ bt + j
      apart i j p q e = ne ((block_magic-injective ea_magic s t i j p q e).0)

      first :
          (j : ℕ)
          → j < 21
          → (find_strategy (bs + j) xs ≡ (
              if has_any tfs (2 ^ j)
              then some (registered margin c bs (strategy_value s) j)
              else none))
            × (find_strategy (bt + j) xs ≡ none)
      first j q =
          strategy_add_tfs_registers margin random c tfs bs (strategy_value s) ps [] j (bt + j)
            (λ i a b set. refl) (omega arith) (λ i a b set. apart i j (bit-lt tfs i ls b set) q)

      free : IsFree margin random d tfs' bt (strategy_value t) pt 0 32 xs
      free i a b set = key_exists_of_find (bt + i) xs ((first i (bit-lt tfs' i lt b set)).1)

      second :
          (find_strategy (bt + k) ys ≡ (
            if has_any tfs' (2 ^ k)
            then some (registered margin d bt (strategy_value t) k)
            else find_strategy (bt + k) xs))
          × (find_strategy (bs + k) ys ≡ find_strategy (bs + k) xs)
      second =
          strategy_add_tfs_registers margin random d tfs' bt (strategy_value t) pt xs k (bs + k)
            free (omega arith) (λ i a b set e. apart k i lk (bit-lt tfs' i lt b set) (sym e))
