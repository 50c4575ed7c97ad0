-- ===== src/Examples/Candles.antt =====
-- Candles: src/include/classes/Bar.struct.h and Pattern.struct.h, with natural numbers for prices.
use ea31337_fft.Prelude.{
  ℕ, zero, suc, ◌+◌, ◌-◌, ◌*◌, ◌/◌, ◌^◌, ◌≡◌, refl, arith, true, false, [], ◌∷◌, ◌==◌, ltb, leb,
  if◌then◌else◌,
}
use ea31337_fft.Price.{Prices, IsOrdered}
use ea31337_fft.Bits.Flags.{has_any}
use ea31337_fft.Candle.Bar.{BarOhlc, bar_of_prices}
use ea31337_fft.Candle.Bar.Laws.{AllInRange, bar_of_prices_lem}
use ea31337_fft.Candle.One.{Pattern1, pattern1_value, check1}
use ea31337_fft.Candle.Two.{
  pattern2_value, check2, harami, body_in_body, range_in_body, range_in_range, body_in_range,
}
use ea31337_fft.Candle.Three.{Pattern3, pattern3_value, check3}
use ea31337_fft.Candle.Four.{Pattern4, pattern4_value, check4}
use ea31337_fft.Candle.Five.{Pattern5, pattern5_value, check5}
use ea31337_fft.Candle.Entry.{pattern_entry, entry_at}
use ea31337_fft.Candle.Entry.Laws.{entry_at-pattern_entry}
use ea31337_fft.Candle.Order.{implies}
use ea31337_fft.Candle.Nested.{check2-inside}
use ea31337_fft.Candle.Bitwise.{is_on, add_value, get_bit_depth}
use ea31337_fft.Candle.Bitwise.Laws.{leading, ago, first_on, or_later, get_bit_depth_lem}
use ea31337_fft.Candle.Pivots.{Pivots, get_pivots, floor}
use ea31337_fft.Candle.Pivots.Laws.{get_pivots-floor}
use ea31337_fft.Prelude.{get_elem?}
use ea31337_fft.Prelude.{some}
use ea31337_fft.Prelude.{◌&&◌}
use ea31337_fft.Prelude.{none}

-- Whole prices.
abbrev pub naturals : Prices ℕ
naturals = record {
  add = λ a b. a + b;
  sub = λ a b. a - b;
  mul = λ a b. a * b;
  div = λ a b. a / b;
  abs = λ a. a;
  max = λ a b. if ltb a b then b else a;
  min = λ a b. if ltb a b then a else b;
  lt = λ a b. ltb a b;
  le = λ a b. leb a b;
  eq = λ a b. a == b;
  of_nat = λ n. n;
  decimal = λ n k. n / 10 ^ k;
  to_float = λ a. a;
}

naturals_irrefl : (a : ℕ) → ltb a a ≡ false
naturals_irrefl a = ground arith

naturals-IsOrdered : IsOrdered naturals
naturals-IsOrdered = record {
  lt_irrefl = naturals_irrefl;
  lt_trans = λ a b c h k. ground (arith, h, k);
  le_trans = λ a b c h k. ground (arith, h, k);
  max-lt = λ a b c. ground arith;
  lt-max = λ a b c. ground arith;
  min-lt = λ a b c. ground arith;
  lt-min = λ a b c. ground arith;
}

-- A falling bar inside the rising bar before it, and rising bars before those.
abbrev bars : ℕ → BarOhlc ℕ
bars zero = record { time = 600; open_price = 108; high = 109; low = 104; close = 105 }
bars (suc zero) = record { time = 480; open_price = 102; high = 112; low = 100; close = 110 }
bars (suc (suc n)) = record { time = 360; open_price = 90; high = 101; low = 89; close = 100 }

bar_of_prices_lem_example :
    let b = bar_of_prices naturals 5 (9 ∷ 3 ∷ 7 ∷ []) 60 in
    AllInRange naturals b (5 ∷ 9 ∷ 3 ∷ 7 ∷ [])
    × (b.close ≡ 5)
    × (get_elem? (5 ∷ 9 ∷ 3 ∷ 7 ∷ []) 3 ≡ some b.open_price)
    × (b.time ≡ 60)
bar_of_prices_lem_example = bar_of_prices_lem naturals naturals-IsOrdered 5 (9 ∷ 3 ∷ 7 ∷ []) 60

entry_at-pattern_entry_example :
    let e = pattern_entry naturals bars in
    (has_any (entry_at 1 e) (pattern1_value Pattern1.bear) ≡ check1 naturals Pattern1.bear (bars 0))
    × (has_any (entry_at 2 e) (pattern2_value harami) ≡ check2 naturals harami bars)
    × (has_any (entry_at 3 e) (pattern3_value Pattern3.high_inc)
        ≡ check3 naturals Pattern3.high_inc bars)
    × (has_any (entry_at 4 e) (pattern4_value Pattern4.bulls) ≡ check4 naturals Pattern4.bulls bars)
    × (has_any (entry_at 5 e) (pattern5_value Pattern5.pattern_none)
        ≡ check5 naturals Pattern5.pattern_none bars)
    × (entry_at 6 e ≡ 0)
    × (entry_at 7 e ≡ 0)
    × (entry_at 8 e ≡ 0)
    × (entry_at 9 e ≡ 0)
    × (entry_at 10 e ≡ 0)
entry_at-pattern_entry_example =
    entry_at-pattern_entry naturals bars Pattern1.bear harami Pattern3.high_inc Pattern4.bulls
      Pattern5.pattern_none

check2-inside_example :
    (check2 naturals harami bars ≡ check2 naturals range_in_body bars)
    × (implies (check2 naturals range_in_body bars) (check2 naturals body_in_body bars) ≡ true)
    × (implies (check2 naturals range_in_body bars) (check2 naturals range_in_range bars) ≡ true)
    × (implies (check2 naturals body_in_body bars) (check2 naturals body_in_range bars) ≡ true)
    × (implies (check2 naturals range_in_range bars) (check2 naturals body_in_range bars) ≡ true)
check2-inside_example =
    check2-inside naturals naturals-IsOrdered bars (refl, refl, refl, refl) (refl, refl, refl, refl)

-- The first bit is off in the first word, and is on first in the third; a new word changes nothing.
get_bit_depth_lem_example :
    (get_bit_depth 0 2 (4 ∷ 1 ∷ 3 ∷ [])
      ≡ (if is_on 0 2 then leading 0 (2 ∷ 4 ∷ 1 ∷ 3 ∷ []) else ago (first_on 0 1 (4 ∷ 1 ∷ 3 ∷ []))))
    × (get_bit_depth 0 2 (add_value 1 (4 ∷ 1 ∷ 3 ∷ [])) ≡ (
        if is_on 0 2
        then leading 0 (2 ∷ 4 ∷ 1 ∷ 3 ∷ [])
          + (if leading 0 (2 ∷ 4 ∷ 1 ∷ 3 ∷ []) == 4 && is_on 0 1 then 1 else 0)
        else ago (or_later (first_on 0 1 (4 ∷ 1 ∷ 3 ∷ [])) (if is_on 0 1 then some 4 else none))))
get_bit_depth_lem_example = get_bit_depth_lem 0 2 1 (4 ∷ 1 ∷ 3 ∷ []) (omega arith)

abbrev blank : Pivots ℕ
blank = record { pp = 0; r1 = 0; r2 = 0; r3 = 0; r4 = 0; s1 = 0; s2 = 0; s3 = 0; s4 = 0 }

get_pivots-floor_example : (get_pivots naturals floor (bars 1) blank).0 ≡ false
get_pivots-floor_example = get_pivots-floor naturals naturals_irrefl (bars 1) blank
