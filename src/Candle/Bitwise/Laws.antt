-- ===== src/Candle/Bitwise/Laws.antt =====
-- How long a pattern has been on, or how long ago it was.
use ea31337_fft.Prelude.{
  ℕ, ◌+◌, ◌-◌, ◌^◌, ◌≤◌, ◌<◌, ◌≡◌, refl, arith, List, [], ◌∷◌, length, if◌then◌else◌, Bool-cases,
  inl, inr, Option, none, some, ◌==◌, ◌&&◌, ◌++◌, ◌∙◌,
}
use ea31337_fft.Candle.Bitwise.{
  is_on, add_value, count_from, get_bit_count, depth_from, get_bit_depth,
}

-- The words in which a bit is on.
abbrev pub ons : ℕ → List ℕ → ℕ
ons bi [] = 0
ons bi (x ∷ xs) = (if is_on bi x then 1 else 0) + ons bi xs

-- The words at the front in which a bit is on.
abbrev pub leading : ℕ → List ℕ → ℕ
leading bi [] = 0
leading bi (x ∷ xs) = let rest = leading bi xs in if is_on bi x then 1 + rest else 0

-- The position of the first word in which a bit is on, where positions start at `ic`.
abbrev pub first_on : ℕ → ℕ → List ℕ → Option ℕ
first_on bi ic [] = none
first_on bi ic (x ∷ xs) = let rest = first_on bi (ic + 1) xs in if is_on bi x then some ic else rest

-- A position as a negative depth, and no position as the depth 0.
abbrev pub ago : Option ℕ → ℕ
ago none = 0
ago (some i) = 2 ^ 16 - i

ons-le : (bi : ℕ) (xs : List ℕ) → ons bi xs ≤ length xs
ons-le bi [] = omega arith
ons-le bi (x ∷ xs) = ground (arith, ons-le bi xs)

count_from-ons :
    (bi count : ℕ) (xs : List ℕ)
    → count + length xs < 2 ^ 16
    → count_from bi count xs ≡ count + ons bi xs
unfolding count_from
count_from-ons bi count [] h = omega arith
count_from-ons bi count (x ∷ xs) h =
    ground (arith, h, count_from-ons bi count xs, count_from-ons bi (count + 1) xs)

-- With at most 2 ^ 15 words, GetBitCount counts the words in which the bit is on, from the second
-- word on: the first word is left out.
pub get_bit_count-ons :
    (bi first : ℕ) (rest : List ℕ)
    → length rest < 2 ^ 15
    → get_bit_count bi (first ∷ rest) ≡ ons bi rest
unfolding get_bit_count
get_bit_count-ons bi first rest h = omega (arith, count_from-ons bi 0 rest)

on_leading :
    (bi ic : ℕ) (xs : List ℕ)
    → ic + length xs ≤ 2 ^ 15
    → depth_from bi ic ic xs ≡ ic + leading bi xs
unfolding depth_from
on_leading bi ic [] h = omega arith
on_leading bi ic (x ∷ xs) h = ground (arith, h, on_leading bi (ic + 1) xs)

off_ago :
    (bi ic : ℕ) (xs : List ℕ)
    → 0 < ic
    → ic + length xs ≤ 2 ^ 15
    → depth_from bi ic 0 xs ≡ ago (first_on bi ic xs)
unfolding depth_from
off_ago bi ic [] pos h = refl
off_ago bi ic (x ∷ xs) pos h = ground (arith, pos, h, off_ago bi (ic + 1) xs)

-- The first of two answers that there is.
abbrev pub or_later : Option ℕ → Option ℕ → Option ℕ
or_later none later = later
or_later (some i) later = some i

leading-append :
    (bi : ℕ) (xs : List ℕ) (x : ℕ)
    → leading bi (xs ++ x ∷ [])
      ≡ leading bi xs + (if leading bi xs == length xs && is_on bi x then 1 else 0)
leading-append bi [] x = ground arith
leading-append bi (y ∷ ys) x = ground (arith, leading-append bi ys x)

first_on-append :
    (bi ic : ℕ) (xs : List ℕ) (x : ℕ)
    → first_on bi ic (xs ++ x ∷ [])
      ≡ or_later (first_on bi ic xs) (if is_on bi x then some (ic + length xs) else none)
first_on-append bi ic [] x = ground arith
first_on-append bi ic (y ∷ ys) x = ground (arith, first_on-append bi (ic + 1) ys x)

length-append_one : (xs : List ℕ) (x : ℕ) → length (xs ++ x ∷ []) ≡ length xs + 1
length-append_one [] x = refl
length-append_one (y ∷ ys) x = omega (arith, length-append_one ys x)

depth_of_rest :
    (bi first : ℕ) (rest : List ℕ)
    → length rest < 2 ^ 15
    → get_bit_depth bi first rest
      ≡ (if is_on bi first then leading bi (first ∷ rest) else ago (first_on bi 1 rest))
unfolding get_bit_depth
depth_of_rest bi first rest h = elim (Bool-cases (is_on bi first)) [
  | inl on ↦ rw on (on_leading bi 1 rest (omega (arith, h)))
  | inr off ↦ rw off (off_ago bi 1 rest (omega arith) (omega (arith, h)))
]

-- With fewer than 2 ^ 15 words, GetBitDepth is the number of words at the front in which the bit is on
-- where it is on in the first; else it is the opposite of the first position at which it is on, and 0
-- where it is on nowhere. After Add of a word it is the same, but where the bit was on in every word and
-- is on in the new one: then it is one more; and where the bit was on in no word and is on in the new
-- one: then it is the opposite of the new word's position.
pub get_bit_depth_lem :
    (bi first x : ℕ) (rest : List ℕ)
    → length rest + 1 < 2 ^ 15
    → (get_bit_depth bi first rest
        ≡ (if is_on bi first then leading bi (first ∷ rest) else ago (first_on bi 1 rest)))
      × (get_bit_depth bi first (add_value x rest) ≡ (
          if is_on bi first
          then leading bi (first ∷ rest)
            + (if leading bi (first ∷ rest) == 1 + length rest && is_on bi x then 1 else 0)
          else ago (
              or_later (first_on bi 1 rest) (if is_on bi x then some (1 + length rest) else none))))
unfolding add_value
get_bit_depth_lem bi first x rest h = (
  depth_of_rest bi first rest (omega (arith, h)),
  depth_of_rest bi first (rest ++ x ∷ []) (omega (arith, h, length-append_one rest x))
      ∙ rw (leading-append bi (first ∷ rest) x, first_on-append bi 1 rest x) (ground arith),
)
