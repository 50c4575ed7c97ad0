-- ===== src/Candle/Bitwise.antt =====
-- The structure PatternBitwise of src/include/classes/Pattern.struct.h: an array of pattern words.
-- Add appends a word, so that v[0] is the one that was added first. A function that reads v[0] takes
-- the first word apart from the others.
use ea31337_fft.Prelude.{
  ℕ, zero, suc, ◌+◌, ◌-◌, ◌%◌, ◌^◌, Bool, List, [], ◌∷◌, ◌++◌, length, ltb, ◌&&◌, ◌==◌,
  if◌then◌else◌,
}
use ea31337_fft.Bits.Flags.{has_any}
pub mod Laws

-- (v & (1 << bi)) != 0
unfoldable pub is_on : ℕ → ℕ → Bool
is_on bi v = has_any v (2 ^ bi)

-- Add
unfoldable pub add_value : ℕ → List ℕ → List ℕ
add_value value v = v ++ value ∷ []

-- The loop of GetBitCount of a bit, from the second word on; the counter is a short.
unfoldable pub count_from : ℕ → ℕ → List ℕ → ℕ
unfolding is_on
count_from bi count [] = count
count_from bi count (x ∷ xs) = count_from bi (if is_on bi x then (count + 1) % 2 ^ 16 else count) xs

unfoldable pub get_bit_count : ℕ → List ℕ → ℕ
unfolding count_from
get_bit_count bi [] = 0
get_bit_count bi (x ∷ xs) = count_from bi 0 xs

-- The loop of GetBitDepth of a bit, at the position `ic`; a negative depth stands as a pattern of 16
-- bits, which no position is equal to.
unfoldable pub depth_from : ℕ → ℕ → ℕ → List ℕ → ℕ
unfolding is_on
depth_from bi ic depth [] = depth
depth_from bi ic depth (x ∷ xs) =
    let longer = depth_from bi (ic + 1) ((depth + 1) % 2 ^ 16) xs in
    let onward = depth_from bi (ic + 1) depth xs in
    if ic == depth && ltb depth (2 ^ 15)
    then if is_on bi x then longer else depth
    else if is_on bi x
    then (2 ^ 16 - ic) % 2 ^ 16
    else onward

unfoldable pub get_bit_depth : ℕ → ℕ → List ℕ → ℕ
unfolding depth_from is_on
get_bit_depth bi first rest = depth_from bi 1 (if is_on bi first then 1 else 0) rest

-- GetSize and Reset
unfoldable pub get_pattern_size : List ℕ → ℕ
get_pattern_size v = length v

unfoldable pub reset_patterns : List ℕ → List ℕ
reset_patterns v = []

-- The arrays of counts and of depths, from the bit `bi` on.
unfoldable pub bit_counts : ℕ → ℕ → List ℕ → List ℕ
unfolding get_bit_count
bit_counts zero bi v = []
bit_counts (suc left) bi v = get_bit_count bi v ∷ bit_counts left (bi + 1) v

unfoldable pub bit_depths : ℕ → ℕ → ℕ → List ℕ → List ℕ
unfolding get_bit_depth
bit_depths zero bi first rest = []
bit_depths (suc left) bi first rest =
    get_bit_depth bi first rest ∷ bit_depths left (bi + 1) first rest

-- GetBitCount and GetBitDepth of all bits
unfoldable pub get_bit_counts : List ℕ → List ℕ
unfolding bit_counts
get_bit_counts v = bit_counts 32 0 v

unfoldable pub get_bit_depths : ℕ → List ℕ → List ℕ
unfolding bit_depths
get_bit_depths first rest = bit_depths 32 0 first rest
