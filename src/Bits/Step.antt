-- ===== src/Bits/Step.antt =====
-- The lowest binary digit of a conjunction and of a disjunction.
use Prim.Native.Nat.{digits, bitwise, bit_or-bitwise, bit_and-bitwise}
use ea31337_fft.Prelude.{
  ℕ, suc, zero, arith, refl, ◌≡◌, ◌≤◌, ◌%◌, ◌/◌, ◌*◌, ◌+◌, bit_or, bit_and, max, min,
}

-- The recursion that the operations stand for stops by itself after as many rounds as its first
-- operand says, so that more fuel changes nothing.
more_fuel :
    (tail : ℕ → ℕ) (op : ℕ → ℕ → ℕ) (bound fuel x y : ℕ)
    → fuel ≤ bound
    → x ≤ fuel
    → digits tail op fuel x y ≡ bitwise tail op x y
more_fuel tail op bound zero zero y low le = refl
more_fuel tail op bound (suc fuel) zero y low le = refl
more_fuel tail op bound zero (suc x) y low le = absurd (omega arith)
more_fuel tail op zero (suc fuel) (suc x) y low le = absurd (omega arith)
more_fuel tail op (suc bound) (suc fuel) (suc x) y low le =
    let half = suc x / 2 in
    let long = more_fuel tail op bound fuel half (y / 2) (omega arith) (omega arith) in
    let short = more_fuel tail op bound x half (y / 2) (omega arith) (omega arith) in
    omega (arith, long, short)

round_bitwise :
    (tail : ℕ → ℕ) (op : ℕ → ℕ → ℕ) (x y : ℕ)
    → bitwise tail op (suc x) y ≡ 2 * bitwise tail op (suc x / 2) (y / 2) + op (suc x % 2) (y % 2)
round_bitwise tail op x y =
    omega (arith, more_fuel tail op x x (suc x / 2) (y / 2) (omega arith) (omega arith))

pub zero-bit_and : (y : ℕ) → bit_and 0 y ≡ 0
zero-bit_and y = bit_and-bitwise 0 y

pub bit_and_step : (x y : ℕ) → bit_and x y ≡ 2 * bit_and (x / 2) (y / 2) + min (x % 2) (y % 2)
bit_and_step (suc x) y = simp bit_and-bitwise (round_bitwise (λ d. 0) min x y)
bit_and_step zero y = omega (arith, zero-bit_and y, zero-bit_and (y / 2))

pub bit_or_step : (x y : ℕ) → bit_or x y ≡ 2 * bit_or (x / 2) (y / 2) + max (x % 2) (y % 2)
bit_or_step (suc x) y = simp bit_or-bitwise (round_bitwise (λ d. d) max x y)
bit_or_step zero y = omega (arith, bit_or-bitwise 0 y, bit_or-bitwise 0 (y / 2))
