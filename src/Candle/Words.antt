-- ===== src/Candle/Words.antt =====
-- The bits of a pattern word say what was checked.
pub mod One
pub mod Two
pub mod Three
pub mod Four
pub mod Five
use ea31337_fft.Prelude.{
  ℕ, ◌+◌, ◌^◌, ◌≤◌, ◌<◌, ◌≡◌, refl, arith, Bool, List, [], ◌∷◌, length, ◌==◌, if◌then◌else◌, false,
}
use ea31337_fft.Bits.Digits.{digit-zero, bit_and-le_right}
use ea31337_fft.Bits.Flags.{has_any}
use ea31337_fft.Bits.OneFlag.{has_any-two_pow, has_any-set_two_pow}
use ea31337_fft.Candle.Pattern.{PatternCandle, set_pattern, set_checks, pattern_word}

pub has_any_none : (w : ℕ) → has_any w 0 ≡ false
unfolding has_any
has_any_none w = ground (arith, bit_and-le_right w 0)

module _ {E : Type 0} (value : E → ℕ) where
  -- The patterns of a list have the bits from the `i`-th on as their values.
  abbrev pub HasBits : ℕ → List E → Type 0
  HasBits i [] = Unit {0}
  HasBits i (e ∷ es) = (value e ≡ 2 ^ i) × HasBits (i + 1) es

module _ {E : Type 0} (value : E → ℕ) (check : E → Bool) where
  -- What a bit reads as after the loop: the check of the pattern at its place, or the word before.
  abbrev pub checked : ℕ → ℕ → List E → Bool → Bool
  checked j i [] before = before
  checked j i (e ∷ es) before = checked j (i + 1) es (if i == j then check e else before)

  has_any-set_checks :
      (j i : ℕ) (es : List E) (c : PatternCandle)
      → j < 32
      → i + length es ≤ 32
      → HasBits value i es
      → has_any (set_checks value check es c).pattern (2 ^ j)
        ≡ checked j i es (has_any c.pattern (2 ^ j))
  unfolding set_checks set_pattern
  has_any-set_checks j i [] c lt len bits = refl
  has_any-set_checks j i (e ∷ es) c lt len (bit, bits) =
      let c' = set_pattern (value e) (check e) c in
      let rest = has_any-set_checks j (i + 1) es c' lt (omega (arith, len)) bits in
      let first : has_any c'.pattern (2 ^ j)
          ≡ (if i == j then check e else has_any c.pattern (2 ^ j)) =
        rw bit (has_any-set_two_pow c.pattern i j (check e) (omega (arith, len)) lt) in
      rw first at rest

  pub has_any-pattern_word :
      (j : ℕ) (es : List E)
      → j < 32
      → length es ≤ 32
      → HasBits value 0 es
      → has_any (pattern_word value check es).pattern (2 ^ j) ≡ checked j 0 es false
  unfolding pattern_word
  has_any-pattern_word j es lt len bits =
      let clear : has_any 0 (2 ^ j) ≡ false =
        ground (arith, has_any-two_pow 0 j lt, digit-zero j) in
      rw clear at (has_any-set_checks j 0 es (record { pattern = 0 }) lt (omega (arith, len)) bits)
