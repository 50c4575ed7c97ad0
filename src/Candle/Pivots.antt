-- ===== src/Candle/Pivots.antt =====
-- BarOHLC::GetPivots of src/include/classes/Bar.struct.h, with ENUM_PP_TYPE of Bar.enum.h.
use ea31337_fft.Prelude.{ℕ, Bool, false, true, ◌&&◌}
use ea31337_fft.Price.{Prices}
use ea31337_fft.Candle.Bar.{BarOhlc, get_range, get_pivot, get_pivot_de_mark, get_weighted}
pub mod Laws

-- ENUM_PP_TYPE; `other` stands for every other number.
pub data PpType : Type 0 where
  camarilla classic fibonacci floor tom_demark woodie other : PpType

-- What GetPivots writes to the variables it is given.
pub record Pivots (F : Type 0) : Type 0 where
  pub pp : F
  pub r1 : F
  pub r2 : F
  pub r3 : F
  pub r4 : F
  pub s1 : F
  pub s2 : F
  pub s3 : F
  pub s4 : F

module _ {F : Type 0} (p : Prices F) where
  open p use {add, sub, mul, div, lt, of_nat, decimal, to_float}

  unfoldable pub pivots_of : PpType → BarOhlc F → Pivots F → Pivots F
  unfolding get_range get_pivot get_pivot_de_mark get_weighted
  pivots_of camarilla b old =
      let range = get_range p b in
      let pp = get_pivot p b in
      let r1 = to_float (add b.close (div (mul range (decimal 11 1)) (of_nat 12))) in
      let r2 = to_float (add b.close (div (mul range (decimal 11 1)) (of_nat 6))) in
      let r3 = to_float (add b.close (div (mul range (decimal 11 1)) (of_nat 4))) in
      let r4 = to_float (add b.close (div (mul range (decimal 11 1)) (of_nat 2))) in
      let s1 = to_float (sub b.close (div (mul range (decimal 11 1)) (of_nat 12))) in
      let s2 = to_float (sub b.close (div (mul range (decimal 11 1)) (of_nat 6))) in
      let s3 = to_float (sub b.close (div (mul range (decimal 11 1)) (of_nat 4))) in
      let s4 = to_float (sub b.close (div (mul range (decimal 11 1)) (of_nat 2))) in
      record { pp = pp; r1 = r1; r2 = r2; r3 = r3; r4 = r4; s1 = s1; s2 = s2; s3 = s3; s4 = s4 }
  pivots_of classic b old =
      let range = get_range p b in
      let pp = get_pivot p b in
      let r1 = sub (mul (of_nat 2) pp) b.low in
      let r2 = add pp range in
      let r3 = add pp (mul range (of_nat 2)) in
      let r4 = add pp (mul range (of_nat 3)) in
      let s1 = sub (mul (of_nat 2) pp) b.high in
      let s2 = sub pp range in
      let s3 = sub pp (mul range (of_nat 2)) in
      let s4 = sub pp (mul range (of_nat 3)) in
      record { pp = pp; r1 = r1; r2 = r2; r3 = r3; r4 = r4; s1 = s1; s2 = s2; s3 = s3; s4 = s4 }
  pivots_of fibonacci b old =
      let range = get_range p b in
      let pp = get_pivot p b in
      let r1 = to_float (add pp (mul (decimal 382 3) range)) in
      let r2 = to_float (add pp (mul (decimal 618 3) range)) in
      let r3 = add pp range in
      let r4 = add r1 range in
      let s1 = to_float (sub pp (mul (decimal 382 3) range)) in
      let s2 = to_float (sub pp (mul (decimal 618 3) range)) in
      let s3 = sub pp range in
      let s4 = sub s1 range in
      record { pp = pp; r1 = r1; r2 = r2; r3 = r3; r4 = r4; s1 = s1; s2 = s2; s3 = s3; s4 = s4 }
  pivots_of floor b old =
      let range = get_range p b in
      let pp = get_pivot p b in
      let r1 = sub (mul (of_nat 2) pp) b.low in
      let r2 = add pp range in
      let r3 = add b.high (mul (of_nat 2) (sub pp b.low)) in
      let r4 = r3 in
      let s1 = sub (mul (of_nat 2) pp) b.high in
      let s2 = sub pp range in
      let s3 = sub b.low (mul (of_nat 2) (sub b.high pp)) in
      let s4 = s3 in
      record { pp = pp; r1 = r1; r2 = r2; r3 = r3; r4 = r4; s1 = s1; s2 = s2; s3 = s3; s4 = s4 }
  pivots_of tom_demark b old =
      let range = get_range p b in
      let pp = get_pivot_de_mark p b in
      let r1 = sub (mul (of_nat 2) pp) b.low in
      let r2 = add pp range in
      let r3 = add r1 range in
      let r4 = add r2 range in
      let s1 = sub (mul (of_nat 2) pp) b.high in
      let s2 = sub pp range in
      let s3 = sub s1 range in
      let s4 = sub s2 range in
      record { pp = pp; r1 = r1; r2 = r2; r3 = r3; r4 = r4; s1 = s1; s2 = s2; s3 = s3; s4 = s4 }
  pivots_of woodie b old =
      let range = get_range p b in
      let pp = get_weighted p b in
      let r1 = sub (mul (of_nat 2) pp) b.low in
      let r2 = add pp range in
      let r3 = add r1 range in
      let r4 = add r2 range in
      let s1 = sub (mul (of_nat 2) pp) b.high in
      let s2 = sub pp range in
      let s3 = sub s1 range in
      let s4 = sub s2 range in
      record { pp = pp; r1 = r1; r2 = r2; r3 = r3; r4 = r4; s1 = s1; s2 = s2; s3 = s3; s4 = s4 }
  pivots_of other b old = old

  -- The comparisons at the end.
  unfoldable pub descending : Pivots F → Bool
  descending v =
      lt v.r3 v.r4
      && lt v.r2 v.r3
      && lt v.r1 v.r2
      && lt v.pp v.r1
      && lt v.s1 v.pp
      && lt v.s2 v.s1
      && lt v.s3 v.s2
      && lt v.s4 v.s3

  -- GetPivots; `old` is what the variables held.
  unfoldable pub get_pivots : PpType → BarOhlc F → Pivots F → Bool × Pivots F
  unfolding pivots_of descending
  get_pivots type b old = let v = pivots_of type b old in (descending v, v)
