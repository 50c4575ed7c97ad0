-- ===== src/Price.antt =====
-- Prices: the operations of floating-point arithmetic that the program uses.
use ea31337_fft.Prelude.{ℕ, Bool, true, false, ◌&&◌, ◌||◌, ◌≡◌}

-- The operations on a machine's numbers F. `decimal n k` is the literal n / 10 ^ k, and `to_float` the
-- conversion to single precision where the program writes it out.
pub record Prices (F : Type 0) : Type 0 where
  pub add : F → F → F
  pub sub : F → F → F
  pub mul : F → F → F
  pub div : F → F → F
  pub abs : F → F
  pub max : F → F → F
  pub min : F → F → F
  pub lt : F → F → Bool
  pub le : F → F → Bool
  pub eq : F → F → Bool
  pub of_nat : ℕ → F
  pub decimal : ℕ → ℕ → F
  pub to_float : F → F

-- The documented behaviour of comparisons, and of fmax and fmin, on numbers that are not NaN.
pub record IsOrdered {F : Type 0} (p : Prices F) : Type 0 where
  pub lt_irrefl : (a : F) → p.lt a a ≡ false
  pub lt_trans : (a b c : F) → p.lt a b ≡ true → p.lt b c ≡ true → p.lt a c ≡ true
  pub le_trans : (a b c : F) → p.lt b a ≡ false → p.lt c b ≡ false → p.lt c a ≡ false
  pub max-lt : (a b c : F) → p.lt (p.max a b) c ≡ p.lt a c && p.lt b c
  pub lt-max : (a b c : F) → p.lt c (p.max a b) ≡ p.lt c a || p.lt c b
  pub min-lt : (a b c : F) → p.lt (p.min a b) c ≡ p.lt a c || p.lt b c
  pub lt-min : (a b c : F) → p.lt c (p.min a b) ≡ p.lt c a && p.lt c b
