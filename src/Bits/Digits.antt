-- ===== src/Bits/Digits.antt =====
-- The binary digits of a word, and how the bit operations act on each of them.
use native.Mathlib.Nat.{pow-suc}
use ea31337_fft.Prelude.{
  ℕ, zero, suc, ◌-◌, ◌/◌, ◌%◌, ◌^◌, ◌≤◌, ◌<◌, min, max, bit_and, bit_or, ◌≡◌, refl, arith,
}
use ea31337_fft.Bits.Step.{bit_and_step, bit_or_step, zero-bit_and}

-- The digit of weight 2 ^ i.
unfoldable pub digit : ℕ → ℕ → ℕ
digit w zero = w % 2
digit w (suc i) = digit (w / 2) i

-- `~w` on an unsigned word of 32 bits.
unfoldable pub bit_not : ℕ → ℕ
bit_not w = 2 ^ 32 - 1 - w

pub digit-le_one : (w i : ℕ) → digit w i ≤ 1
unfolding digit
digit-le_one w zero = omega arith
digit-le_one w (suc i) = digit-le_one (w / 2) i

pub digit-zero : (i : ℕ) → digit 0 i ≡ 0
unfolding digit
digit-zero zero = refl
digit-zero (suc i) = digit-zero i

pub digit-bit_and : (i a b : ℕ) → digit (bit_and a b) i ≡ min (digit a i) (digit b i)
unfolding digit
digit-bit_and zero a b = omega (arith, bit_and_step a b)
digit-bit_and (suc i) a b = rw half (digit-bit_and i (a / 2) (b / 2))
  where
    half : bit_and a b / 2 ≡ bit_and (a / 2) (b / 2)
    half = omega (arith, bit_and_step a b)

pub digit-bit_or : (i a b : ℕ) → digit (bit_or a b) i ≡ max (digit a i) (digit b i)
unfolding digit
digit-bit_or zero a b = omega (arith, bit_or_step a b)
digit-bit_or (suc i) a b = rw half (digit-bit_or i (a / 2) (b / 2))
  where
    half : bit_or a b / 2 ≡ bit_or (a / 2) (b / 2)
    half = omega (arith, bit_or_step a b)

-- Words of n bits with the same digits are the same.
pub eq_of_digits :
    (n a b : ℕ) → a < 2 ^ n → b < 2 ^ n → ((i : ℕ) → i < n → digit a i ≡ digit b i) → a ≡ b
unfolding digit
eq_of_digits zero a b p q h = omega arith
eq_of_digits (suc n) a b p q h =
    let low = h zero (omega arith) in
    let high =
      eq_of_digits n (a / 2) (b / 2) (omega (arith, pow-suc 2 n)) (omega (arith, pow-suc 2 n))
        (λ i k. h (suc i) (omega arith)) in
    omega arith

-- Above the width of a word its digits are 0.
pub digit_above : (n i w : ℕ) → w < 2 ^ n → n ≤ i → digit w i ≡ 0
unfolding digit
digit_above zero i zero p q = digit-zero i
digit_above zero i (suc w) p q = absurd (omega arith)
digit_above (suc n) zero w p q = absurd (omega arith)
digit_above (suc n) (suc i) w p q =
    digit_above n i (w / 2) (omega (arith, pow-suc 2 n)) (omega arith)

digit-complement : (n i w : ℕ) → w < 2 ^ n → i < n → digit (2 ^ n - 1 - w) i ≡ 1 - digit w i
unfolding digit
digit-complement zero i w p q = absurd (omega arith)
digit-complement (suc n) zero w p q = omega (arith, pow-suc 2 n)
digit-complement (suc n) (suc i) w p q =
    rw half (digit-complement n i (w / 2) (omega (arith, pow-suc 2 n)) (omega arith))
  where
    half : (2 ^ suc n - 1 - w) / 2 ≡ 2 ^ n - 1 - w / 2
    half = omega (arith, pow-suc 2 n)

pub digit-bit_not : (i w : ℕ) → w < 2 ^ 32 → i < 32 → digit (bit_not w) i ≡ 1 - digit w i
unfolding bit_not
digit-bit_not i w p q = digit-complement 32 i w p q

pub bit_not-lt : (w : ℕ) → bit_not w < 2 ^ 32
unfolding bit_not
bit_not-lt w = omega arith

bit_and-le_fuel : (n a b : ℕ) → a ≤ n → bit_and a b ≤ a
bit_and-le_fuel n zero b h = omega (arith, zero-bit_and b)
bit_and-le_fuel zero (suc a) b h = absurd (omega arith)
bit_and-le_fuel (suc n) (suc a) b h =
    omega (arith, bit_and_step (suc a) b, bit_and-le_fuel n (suc a / 2) (b / 2) (omega arith))

bit_and-le_right_fuel : (n a b : ℕ) → a ≤ n → bit_and a b ≤ b
bit_and-le_right_fuel n zero b h = omega (arith, zero-bit_and b)
bit_and-le_right_fuel zero (suc a) b h = absurd (omega arith)
bit_and-le_right_fuel (suc n) (suc a) b h =
    omega (arith, bit_and_step (suc a) b, bit_and-le_right_fuel n (suc a / 2) (b / 2) (omega arith))

pub bit_and-le : (a b : ℕ) → bit_and a b ≤ a
bit_and-le a b = bit_and-le_fuel a a b (omega arith)

pub bit_and-le_right : (a b : ℕ) → bit_and a b ≤ b
bit_and-le_right a b = bit_and-le_right_fuel a a b (omega arith)

pub bit_or-lt : (n a b : ℕ) → a < 2 ^ n → b < 2 ^ n → bit_or a b < 2 ^ n
bit_or-lt zero zero zero p q = omega arith
bit_or-lt zero zero (suc b) p q = absurd (omega arith)
bit_or-lt zero (suc a) b p q = absurd (omega arith)
bit_or-lt (suc n) a b p q = omega (
  arith,
  pow-suc 2 n,
  bit_or_step a b,
  bit_or-lt n (a / 2) (b / 2) (omega (arith, pow-suc 2 n)) (omega (arith, pow-suc 2 n)),
)
