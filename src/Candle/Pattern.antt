-- ===== src/Candle/Pattern.antt =====
-- The structure PatternCandle of src/include/classes/Pattern.struct.h: a word of 32 bits, one for each
-- pattern.
use ea31337_fft.Prelude.{ℕ, Bool, List, [], ◌∷◌}
use ea31337_fft.Bits.Flags.{add_flags, remove_flags, set_flag, has_any, has_all}

pub record PatternCandle : Type 0 where
  pub pattern : ℕ

-- CheckPattern and CheckPatternsAll of flags
unfoldable pub check_pattern : ℕ → PatternCandle → Bool
check_pattern flags c = has_any c.pattern flags

unfoldable pub check_patterns_all : ℕ → PatternCandle → Bool
check_patterns_all flags c = has_all c.pattern flags

-- AddPattern, RemovePattern, SetPattern of a flag and a value, and SetPattern of flags
unfoldable pub add_pattern : ℕ → PatternCandle → PatternCandle
add_pattern flags c = record c { pattern = add_flags c.pattern flags }

unfoldable pub remove_pattern : ℕ → PatternCandle → PatternCandle
remove_pattern flags c = record c { pattern = remove_flags c.pattern flags }

unfoldable pub set_pattern : ℕ → Bool → PatternCandle → PatternCandle
set_pattern flag value c = record c { pattern = set_flag c.pattern flag value }

unfoldable pub set_pattern_flags : ℕ → PatternCandle → PatternCandle
set_pattern_flags flags c = record c { pattern = flags }

module _ {E : Type 0} (value : E → ℕ) (check : E → Bool) where
  -- The loop of a constructor from candles, which sets or clears the pattern of each bit.
  unfoldable pub set_checks : List E → PatternCandle → PatternCandle
  unfolding set_pattern
  set_checks [] c = c
  set_checks (e ∷ es) c = set_checks es (set_pattern (value e) (check e) c)

  unfoldable pub pattern_word : List E → PatternCandle
  unfolding set_checks
  pattern_word es = set_checks es (record { pattern = 0 })
