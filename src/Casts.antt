-- ===== src/Casts.antt =====
-- The conversions that the compiler makes between the type of a templated getter or setter, and the
-- types of the members behind it. They are parameters of the model; a number stands as the pattern
-- of a word of the width that is given.
use Prim.Native.String.{String}
use ea31337_fft.Prelude.{ℕ}
use ea31337_fft.Timeframe.Tables.{Timeframe}

pub record Casts (F T : Type 0) : Type 0 where
  pub of_number : ℕ → ℕ → T
  pub of_float : F → T
  pub of_text : String → T
  pub of_tf : Timeframe → T
  pub to_number : ℕ → T → ℕ
  pub to_float : T → F
  pub to_text : T → String
  pub to_tf : T → Timeframe
  pub wrong_value : T
