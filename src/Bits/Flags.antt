-- ===== src/Bits/Flags.antt =====
-- Flag words: what `|=`, `&= ~` and the masked tests do, as the structures of the program use
-- them (EAState, EAParams, TradeStates, TradeSignalEntry).
use ea31337_fft.Prelude.{
  ℕ, ◌^◌, min, bit_and, bit_or, ◌≡◌, ap, Bool, true, false, not, arith, ◌==◌, ==_iff, if◌then◌else◌,
  sym, ◌∙◌, ◌<◌, ◌≢◌,
}
use ea31337_fft.Bits.Digits.{
  digit, bit_not, digit-le_one, digit-bit_and, digit-bit_or, digit-bit_not, digit-zero,
  eq_of_digits, bit_and-le, bit_and-le_right, bit_or-lt,
}

abbrev pub IsWord : ℕ → Type 0
IsWord w = w < 2 ^ 32

-- `w |= f`
unfoldable pub add_flags : ℕ → ℕ → ℕ
add_flags w f = bit_or w f

-- `w &= ~f`
unfoldable pub remove_flags : ℕ → ℕ → ℕ
remove_flags w f = bit_and w (bit_not f)

-- `if (value) w |= f; else w &= ~f;`
unfoldable pub set_flag : ℕ → ℕ → Bool → ℕ
unfolding add_flags remove_flags
set_flag w f value = if value then add_flags w f else remove_flags w f

-- `(w & f) != 0`
unfoldable pub has_any : ℕ → ℕ → Bool
has_any w f = not (bit_and w f == 0)

-- `(w & f) == f`
unfoldable pub has_all : ℕ → ℕ → Bool
has_all w f = bit_and w f == f

pub add_flags-IsWord : (w f : ℕ) → IsWord w → IsWord f → IsWord (add_flags w f)
unfolding add_flags
add_flags-IsWord w f p q = bit_or-lt 32 w f p q

pub remove_flags-IsWord : (w f : ℕ) → IsWord w → IsWord (remove_flags w f)
unfolding remove_flags
remove_flags-IsWord w f p = omega (arith, bit_and-le w (bit_not f))

pub set_flag-IsWord : (w f : ℕ) (v : Bool) → IsWord w → IsWord f → IsWord (set_flag w f v)
unfolding set_flag
set_flag-IsWord w f true p q = add_flags-IsWord w f p q
set_flag-IsWord w f false p q = remove_flags-IsWord w f p

-- Setting a flag decides the digits of the flag and leaves every other digit alone.
pub digit-set_flag :
    (w f i : ℕ) (v : Bool)
    → IsWord f
    → i < 32
    → digit (set_flag w f v) i ≡ (if digit f i == 1 then if v then 1 else 0 else digit w i)
unfolding set_flag
digit-set_flag w f i true q h =
    ground (arith, digit-bit_or i w f, digit-le_one w i, digit-le_one f i)
digit-set_flag w f i false q h = ground (
  arith,
  digit-bit_and i w (bit_not f),
  digit-bit_not i f q h,
  digit-le_one w i,
  digit-le_one f i,
)

-- A word below 2 ^ k under a mask below 2 ^ k is known by the k lowest digits.
pub masked :
    (k w f g : ℕ)
    → f < 2 ^ k
    → g < 2 ^ k
    → ((i : ℕ) → i < k → min (digit w i) (digit f i) ≡ digit g i)
    → bit_and w f ≡ g
masked k w f g p q h =
    eq_of_digits k (bit_and w f) g (omega (arith, bit_and-le_right w f)) q
      (λ i b. digit-bit_and i w f ∙ h i b)

-- Flags that were added are all there.
pub has_all-add_flags : (w f : ℕ) → IsWord f → has_all (add_flags w f) f ≡ true
unfolding has_all add_flags
has_all-add_flags w f q = (==_iff _ _).1 (
    masked 32 (bit_or w f) f f q q
      (λ i b. omega (arith, digit-bit_or i w f, digit-le_one w i, digit-le_one f i)))

-- Flags that were removed are all gone.
pub has_any-remove_flags : (w f : ℕ) → IsWord f → has_any (remove_flags w f) f ≡ false
unfolding has_any remove_flags
has_any-remove_flags w f q = rw (
    masked 32 (bit_and w (bit_not f)) f 0 q (omega arith) (λ i b. omega (
      arith,
      digit-bit_and i w (bit_not f),
      digit-bit_not i f q b,
      digit-zero i,
      digit-le_one w i,
      digit-le_one f i,
    )))

disjoint_digits : (f g i : ℕ) → bit_and f g ≡ 0 → min (digit f i) (digit g i) ≡ 0
disjoint_digits f g i h = sym (digit-bit_and i f g) ∙ ap (λ w. digit w i) h ∙ digit-zero i

-- Setting or clearing flags leaves the test of a disjoint mask alone.
pub bit_and-set_flag :
    (w f g : ℕ) (v : Bool)
    → IsWord f
    → IsWord g
    → bit_and f g ≡ 0
    → bit_and (set_flag w f v) g ≡ bit_and w g
bit_and-set_flag w f g v p q h =
    masked 32 (set_flag w f v) g (bit_and w g) q (omega (arith, bit_and-le_right w g)) (λ i b.
      ground (
        arith,
        digit-set_flag w f i v p b,
        disjoint_digits f g i h,
        digit-bit_and i w g,
        digit-le_one w i,
        digit-le_one g i,
        digit-le_one f i,
      ))

-- A flag that is set reads as set, and one that is cleared as clear.
pub has_any-set_flag : (w f : ℕ) (v : Bool) → IsWord f → f ≢ 0 → has_any (set_flag w f v) f ≡ v
unfolding set_flag has_any has_all add_flags remove_flags
has_any-set_flag w f true q h = ground (arith, has_all-add_flags w f q)
has_any-set_flag w f false q h = has_any-remove_flags w f q

pub has_any_self : (f : ℕ) → IsWord f → f ≢ 0 → has_any f f ≡ true
unfolding has_any
has_any_self f q h = rw (masked 32 f f f q q (λ i b. omega arith)) (ground arith)

-- A disjoint mask reads the same after the flag was set or cleared.
pub has_any-set_flag_other :
    (w f g : ℕ) (v : Bool)
    → IsWord f
    → IsWord g
    → bit_and f g ≡ 0
    → has_any (set_flag w f v) g ≡ has_any w g
unfolding has_any
has_any-set_flag_other w f g v p q h = rw (bit_and-set_flag w f g v p q h)
