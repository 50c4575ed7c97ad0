-- ===== src/Strategies/Magic/Register.antt =====
-- What StrategyAdd registers for a mask of timeframes.
use native.Mathlib.Decide.{ℕ_discrete}
use ea31337_fft.Prelude.{
  ℕ, zero, suc, ◌+◌, ◌^◌, ◌<◌, ◌≤◌, ◌≡◌, ◌≢◌, refl, ◌∙◌, arith, Bool, true, false, ◌&&◌, none, some,
  List, [], ◌∷◌, ◌++◌, ◌==◌, if◌then◌else◌,
}
use ea31337_fft.Bits.Flags.{has_any}
use ea31337_fft.Timeframe.Tables.{Timeframe}
use ea31337_fft.Timeframe.Convert.{index_to_tf}
use ea31337_fft.Strategies.Class.{StrategyClass}
use ea31337_fft.Strategies.Magic.{
  Strategy, find_strategy, key_exists, strategy_add, add_from, strategy_add_tfs,
}

module _ {F : Type 0} where
  find_strategy_absent :
      (k : ℕ) (xs : List (ℕ × Strategy F)) → key_exists k xs ≡ false → find_strategy k xs ≡ none
  unfolding find_strategy key_exists
  find_strategy_absent k [] h = refl
  find_strategy_absent k ((j, s) ∷ xs) h = ground (arith, find_strategy_absent k xs)

  key_exists-append :
      (k m : ℕ) (s : Strategy F) (xs : List (ℕ × Strategy F))
      → key_exists k (xs ++ ((m, s) ∷ [])) ≡ (if m == k then true else key_exists k xs)
  unfolding key_exists
  key_exists-append k m s [] = refl
  key_exists-append k m s ((j, t) ∷ xs) = ground (arith, key_exists-append k m s xs)

  find_strategy-append :
      (k m : ℕ) (s : Strategy F) (xs : List (ℕ × Strategy F))
      → key_exists m xs ≡ false
      → find_strategy k (xs ++ ((m, s) ∷ [])) ≡ (if m == k then some s else find_strategy k xs)
  unfolding find_strategy key_exists
  find_strategy-append k m s [] h = refl
  find_strategy-append k m s ((j, t) ∷ xs) h = ground (arith, find_strategy-append k m s xs)

-- The strategy that is registered under the number of a block at an index.
abbrev pub registered : {F : Type 0} → F → StrategyClass → ℕ → ℕ → ℕ → Strategy F
registered margin cls init type k = record {
  cls = cls;
  id = init + k;
  tf = index_to_tf k;
  type = type;
  risk_margin = margin;
}

module _ {F : Type 0} (margin : F) (random : ℕ) (cls : StrategyClass) (tfs init type : ℕ)
    (pos : 0 < init) where
  abbrev at : ℕ → Strategy F
  at k = registered margin cls init type k

  abbrev run : ℕ → ℕ → Bool × List (ℕ × Strategy F) → Bool × List (ℕ × Strategy F)
  run = add_from margin random cls tfs init type

  -- The strategies after one round, and the result.
  abbrev after : ℕ → List (ℕ × Strategy F) → List (ℕ × Strategy F)
  after tfi xs = if has_any tfs (2 ^ tfi) then xs ++ ((init + tfi, at tfi) ∷ []) else xs

  abbrev result_after : ℕ → Bool → Bool
  result_after tfi r = if has_any tfs (2 ^ tfi) then r && true else r

  -- The numbers of the bits that are set, among `left` bits from `tfi` on, are free.
  abbrev pub IsFree : ℕ → ℕ → List (ℕ × Strategy F) → Type 0
  IsFree tfi left xs =
      (i : ℕ)
      → tfi ≤ i
      → i < tfi + left
      → has_any tfs (2 ^ i) ≡ true
      → key_exists (init + i) xs ≡ false

  -- One round at a free number.
  round :
      (left tfi : ℕ) (r : Bool) (xs : List (ℕ × Strategy F))
      → IsFree tfi (suc left) xs
      → run (suc left) tfi (r, xs) ≡ run left (tfi + 1) (result_after tfi r, after tfi xs)
  unfolding add_from strategy_add
  round left tfi r xs free = ground (arith, free tfi)

  after-IsFree :
      (left tfi : ℕ) (xs : List (ℕ × Strategy F))
      → IsFree tfi (suc left) xs
      → IsFree (tfi + 1) left (after tfi xs)
  after-IsFree left tfi xs free i le lt set =
      ground (arith, free i, key_exists-append (init + i) (init + tfi) (at tfi) xs)

  find-after :
      (left tfi j : ℕ) (xs : List (ℕ × Strategy F))
      → IsFree tfi (suc left) xs
      → find_strategy j (after tfi xs)
        ≡ (if has_any tfs (2 ^ tfi) && (init + tfi == j) then some (at tfi) else find_strategy j xs)
  find-after left tfi j xs free =
      ground (arith, find_strategy-append j (init + tfi) (at tfi) xs, free tfi)

  find-run_other :
      (left tfi : ℕ) (r : Bool) (xs : List (ℕ × Strategy F)) (j : ℕ)
      → IsFree tfi left xs
      → ((i : ℕ) → tfi ≤ i → i < tfi + left → has_any tfs (2 ^ i) ≡ true → init + i ≢ j)
      → find_strategy j (run left tfi (r, xs)).1 ≡ find_strategy j xs
  find-run_other zero tfi r xs j free ne = unfold add_from in refl
  find-run_other (suc left) tfi r xs j free ne = rw (round left tfi r xs free) (
      find-run_other left (tfi + 1) (result_after tfi r) (after tfi xs) j
        (after-IsFree left tfi xs free) (λ i p q set. ne i (omega arith) (omega arith) set)
      ∙ ground (arith, find-after left tfi j xs free, ne tfi))

  find-run :
      (left tfi : ℕ) (r : Bool) (xs : List (ℕ × Strategy F)) (k : ℕ)
      → IsFree tfi left xs
      → tfi ≤ k
      → k < tfi + left
      → find_strategy (init + k) (run left tfi (r, xs)).1
        ≡ (if has_any tfs (2 ^ k) then some (at k) else find_strategy (init + k) xs)
  find-run zero tfi r xs k free le lt = absurd (omega arith)
  find-run (suc left) tfi r xs k free le lt =
      rw (round left tfi r xs free) (elim (ℕ_discrete k tfi) [
        | yes e ↦
            find-run_other left (tfi + 1) (result_after tfi r) (after tfi xs) (init + k)
              (after-IsFree left tfi xs free) (λ i p q set h. absurd (omega arith))
            ∙ find-after left tfi (init + k) xs free
            ∙ ground (arith, e)
        | no ne ↦
            find-run left (tfi + 1) (result_after tfi r) (after tfi xs) k
              (after-IsFree left tfi xs free) (omega arith) (omega arith)
            ∙ ground (arith, find-after left tfi (init + k) xs free)
      ])

  -- Where the block's first number is positive, and the numbers that the mask asks for are free,
  -- StrategyAdd registers, for each of its 32 bits that is set, a strategy under the block's number at
  -- that bit, with the timeframe of that index. What is found under the number of a clear bit, and under any number that the mask does
  -- not ask for, is what was found before.
  pub strategy_add_tfs_registers :
      (xs : List (ℕ × Strategy F)) (k j : ℕ)
      → IsFree 0 32 xs
      → k < 32
      → ((i : ℕ) → 0 ≤ i → i < 32 → has_any tfs (2 ^ i) ≡ true → init + i ≢ j)
      → (find_strategy (init + k) (strategy_add_tfs margin random cls tfs init type xs).1
          ≡ (if has_any tfs (2 ^ k) then some (at k) else find_strategy (init + k) xs))
        × (find_strategy j (strategy_add_tfs margin random cls tfs init type xs).1
            ≡ find_strategy j xs)
  unfolding strategy_add_tfs
  strategy_add_tfs_registers xs k j free lt out = (
    find-run 32 0 true xs k free (omega arith) (omega arith),
    find-run_other 32 0 true xs j free out,
  )

module _ {F : Type 0} (margin : F) (random : ℕ) (cls : StrategyClass) where
  strategy_add-true :
      (tf : Timeframe) (magic_no type : ℕ) (xs : List (ℕ × Strategy F))
      → (strategy_add margin random cls tf magic_no type xs).0 ≡ true
  unfolding strategy_add
  strategy_add-true tf magic_no type xs = ground arith

  add_from-true :
      (tfs init type left tfi : ℕ) (p : Bool × List (ℕ × Strategy F))
      → p.0 ≡ true
      → (add_from margin random cls tfs init type left tfi p).0 ≡ true
  unfolding add_from
  add_from-true tfs init type zero tfi p h = h
  add_from-true tfs init type (suc left) tfi p h =
      add_from-true tfs init type left (tfi + 1) _
        (ground (arith, strategy_add-true (index_to_tf tfi) (init + tfi) type p.1))

  -- StrategyAdd reports success whatever happens, also where every number is taken.
  pub strategy_add_tfs-true :
      (tfs init type : ℕ) (xs : List (ℕ × Strategy F))
      → (strategy_add_tfs margin random cls tfs init type xs).0 ≡ true
  unfolding strategy_add_tfs
  strategy_add_tfs-true tfs init type xs = add_from-true tfs init type 32 0 (true, xs) refl
