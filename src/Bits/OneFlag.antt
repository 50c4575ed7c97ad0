-- ===== src/Bits/OneFlag.antt =====
-- One flag of a word: a mask that is a power of two.
use native.Mathlib.Nat.{pow-suc, one-le-pow, pow-le-pow_right}
use ea31337_fft.Prelude.{
  ℕ, ◌^◌, ◌≤◌, min, bit_and, bit_or, ◌≡◌, refl, ap, Bool, not, arith, ◌==◌, if◌then◌else◌, zero,
  suc, sym, inl, inr, Bool-cases, ◌∙◌, ◌/◌, ◌<◌, ◌≢◌, ◌&&◌,
}
use ea31337_fft.Bits.Digits.{
  digit, digit-le_one, digit-bit_and, digit-bit_or, digit-zero, bit_or-lt,
}
use ea31337_fft.Bits.Flags.{IsWord, set_flag, has_any, masked, digit-set_flag}

pub digit-two_pow : (k i : ℕ) → digit (2 ^ k) i ≡ (if i == k then 1 else 0)
unfolding digit
digit-two_pow zero zero = refl
digit-two_pow zero (suc i) = ground (arith, digit-zero i)
digit-two_pow (suc k) zero = ground (arith, pow-suc 2 k)
digit-two_pow (suc k) (suc i) = rw half (ground (arith, digit-two_pow k i))
  where
    half : 2 ^ suc k / 2 ≡ 2 ^ k
    half = omega (arith, pow-suc 2 k)

two_pow-lt : (k : ℕ) → k < 32 → 2 ^ k < 2 ^ 32
two_pow-lt k h =
    let bound : 2 ^ k ≤ 2 ^ 31 = pow-le-pow_right (omega arith) {i = k} {j = 31} (omega arith) in
    omega arith

-- The test of one flag reads one digit.
pub has_any-two_pow : (w k : ℕ) → k < 32 → has_any w (2 ^ k) ≡ (digit w k == 1)
unfolding has_any
has_any-two_pow w k h = elim (Bool-cases (digit w k == 1)) [
  | inl set ↦
      rw
        (masked 32 w (2 ^ k) (2 ^ k) (two_pow-lt k h) (two_pow-lt k h)
          (λ i b. ground (arith, digit-two_pow k i, digit-le_one w i)))
        (ground (arith, one-le-pow k 2))
  | inr clear ↦
      rw
        (masked 32 w (2 ^ k) 0 (two_pow-lt k h) (omega arith)
          (λ i b. ground (arith, digit-two_pow k i, digit-le_one w i, digit-zero i)))
        (ground arith)
]

-- Setting one flag, and reading one.
pub has_any-set_two_pow :
    (w i j : ℕ) (v : Bool)
    → i < 32
    → j < 32
    → has_any (set_flag w (2 ^ i) v) (2 ^ j) ≡ (if i == j then v else has_any w (2 ^ j))
has_any-set_two_pow w i j v p q = ground (
  arith,
  has_any-two_pow (set_flag w (2 ^ i) v) j q,
  has_any-two_pow w j q,
  digit-set_flag w (2 ^ i) j v (two_pow-lt i p) q,
  digit-two_pow i j,
)

module _ (w p q r : ℕ) (p≢q : p ≢ q) (p≢r : p ≢ r) (p<32 : p < 32) (q<32 : q < 32)
    (r<32 : r < 32) where
  abbrev three : ℕ
  three = bit_or (2 ^ p) (bit_or (2 ^ q) (2 ^ r))

  digit-three :
      (i : ℕ)
      → digit three i ≡ (if i == p then 1 else if i == q then 1 else if i == r then 1 else 0)
  digit-three i = ground (
    arith,
    digit-bit_or i (2 ^ p) (bit_or (2 ^ q) (2 ^ r)),
    digit-bit_or i (2 ^ q) (2 ^ r),
    digit-two_pow p i,
    digit-two_pow q i,
    digit-two_pow r i,
  )

  three-IsWord : IsWord three
  three-IsWord =
      bit_or-lt 32 (2 ^ p) (bit_or (2 ^ q) (2 ^ r)) (two_pow-lt p p<32)
        (bit_or-lt 32 (2 ^ q) (2 ^ r) (two_pow-lt q q<32) (two_pow-lt r r<32))

  only_first : digit w p ≡ 1 → digit w q ≡ 0 → digit w r ≡ 0 → bit_and w three ≡ 2 ^ p
  only_first a b c =
      masked 32 w three (2 ^ p) three-IsWord (two_pow-lt p p<32)
        (λ i k. ground (arith, digit-three i, digit-two_pow p i, digit-le_one w i))

  first_only : bit_and w three ≡ 2 ^ p → (digit w p ≡ 1) × (digit w q ≡ 0) × (digit w r ≡ 0)
  first_only h =
      let at : (i : ℕ) → min (digit w i) (digit three i) ≡ digit (2 ^ p) i =
        λ i. sym (digit-bit_and i w three) ∙ ap (λ u. digit u i) h in
      ground (
        arith,
        at p,
        at q,
        at r,
        digit-three p,
        digit-three q,
        digit-three r,
        digit-two_pow p p,
        digit-two_pow p q,
        digit-two_pow p r,
        digit-le_one w p,
        digit-le_one w q,
        digit-le_one w r,
      )

  -- Of three flags only the first is set.
  pub masked_three :
      (bit_and w three == 2 ^ p)
      ≡ has_any w (2 ^ p) && not (has_any w (2 ^ q)) && not (has_any w (2 ^ r))
  masked_three = ground (
    arith,
    first_only,
    only_first,
    has_any-two_pow w p p<32,
    has_any-two_pow w q q<32,
    has_any-two_pow w r r<32,
    digit-le_one w q,
    digit-le_one w r,
  )
