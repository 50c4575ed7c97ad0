-- ===== src/Trade/Limits/Reached.antt =====
-- When a trade limit is reported as reached.
use ea31337_fft.Prelude.{
  ℕ, ◌≤◌, ◌<◌, ◌≡◌, refl, arith, true, false, ◌&&◌, List, [], ◌∷◌, ltb, if◌then◌else◌, Bool-cases,
  inl, inr, ◌↔◌, ◌∙◌, sym, Bool, ap,
}
use ea31337_fft.DateTime.Entry.{MqlDateTime}
use ea31337_fft.Trade.Stats.{
  StatType, StatPeriod, TradeStats, stat_types, stat_periods, get_order_stats, all,
}
use ea31337_fft.Trade.Stats.Laws.{get_order_stats_lem}
use ea31337_fft.Trade.Limits.{
  TradeParams, is_limit_ge, is_limit_ge_from, is_limit_ge_values, is_limit_ge_periods,
  is_limit_ge_types, is_limit_ge_stats,
}

module _ {F : Type 0} where
  -- A limit is set, and the value has reached it.
  abbrev pub AtLimit : TradeParams F → StatType → StatPeriod → ℕ → Type 0
  AtLimit params t p value = (0 < params.limits_stats t p) × (params.limits_stats t p ≤ value)

  from_sound :
      (t : StatType) (value : StatPeriod → ℕ) (ps : List StatPeriod) (params : TradeParams F)
      → is_limit_ge_from t value ps params ≡ true
      → (p : StatPeriod) × AtLimit params t p (value p)
  unfolding is_limit_ge_from is_limit_ge
  from_sound t value [] params h = absurd (ground (arith, h))
  from_sound t value (p ∷ ps) params h =
      elim (Bool-cases (ltb 0 (value p) && is_limit_ge t p (value p) params)) [
        | inl at ↦ (p, (ground arith, ground arith))
        | inr below ↦ from_sound t value ps params (ground arith)
      ]

  from_here :
      (t : StatType) (value : StatPeriod → ℕ) (p : StatPeriod) (ps : List StatPeriod)
      (params : TradeParams F)
      → AtLimit params t p (value p)
      → is_limit_ge_from t value (p ∷ ps) params ≡ true
  unfolding is_limit_ge_from is_limit_ge
  from_here t value p ps params h = ground (arith, h)

  from_there :
      (t : StatType) (value : StatPeriod → ℕ) (p : StatPeriod) (ps : List StatPeriod)
      (params : TradeParams F)
      → is_limit_ge_from t value ps params ≡ true
      → is_limit_ge_from t value (p ∷ ps) params ≡ true
  unfolding is_limit_ge_from
  from_there t value p ps params h = ground (arith, h)

  from_complete :
      (t : StatType) (value : StatPeriod → ℕ) (p : StatPeriod) (params : TradeParams F)
      → AtLimit params t p (value p)
      → is_limit_ge_from t value stat_periods params ≡ true
  from_complete t value all params h = from_here t value _ _ params h
  from_complete t value _ params h = search (from_here t value, from_there t value) depth 8

  -- The test of the values of one type answers true exactly when some period's value has reached
  -- a limit that is set.
  pub is_limit_ge_values_iff :
      (t : StatType) (value : StatPeriod → ℕ) (params : TradeParams F)
      → (is_limit_ge_values t value params ≡ true)
        ↔ ((p : StatPeriod) × AtLimit params t p (value p))
  unfolding is_limit_ge_values
  is_limit_ge_values_iff t value params =
      (from_sound t value stat_periods params, λ at. from_complete t value at.0 params at.1)

  module _ (time_to_struct : ℕ → MqlDateTime) (now : ℕ) (params : TradeParams F) where
    abbrev read : StatType → StatPeriod → TradeStats → ℕ × TradeStats
    read t p s = get_order_stats time_to_struct now t p true s

    abbrev hit : StatType → StatPeriod → TradeStats → Bool
    hit t p s = ltb 0 (read t p s).0 && is_limit_ge t p (read t p s).0 params

    hit-AtLimit :
        (t : StatType) (p : StatPeriod) (s : TradeStats)
        → hit t p s ≡ true
        → AtLimit params t p ((read t p s).1.order_stats t p)
    unfolding is_limit_ge
    hit-AtLimit t p s h =
        let same = (get_order_stats_lem time_to_struct now t t p p s).0 in
        (ground (arith, h), ground (arith, h, same))

    -- One turn of the inner loop.
    periods_step :
        (t : StatType) (p : StatPeriod) (ps : List StatPeriod) (s : TradeStats) (b : Bool)
        → hit t p s ≡ b
        → is_limit_ge_periods time_to_struct now params t (p ∷ ps) s ≡ (
            if b
            then (true, (read t p s).1)
            else is_limit_ge_periods time_to_struct now params t ps (read t p s).1)
    unfolding is_limit_ge_periods
    periods_step t p ps s b h =
        ap {B = Bool × TradeStats}
          (λ c.
            if c
            then (true, (read t p s).1)
            else is_limit_ge_periods time_to_struct now params t ps (read t p s).1)
          h

    periods_sound :
        (t : StatType) (ps : List StatPeriod) (s s' : TradeStats)
        → is_limit_ge_periods time_to_struct now params t ps s ≡ (true, s')
        → (p : StatPeriod) × AtLimit params t p (s'.order_stats t p)
    unfolding is_limit_ge_periods
    periods_sound t [] s s' r = absurd (ground (arith, ap (λ x. x.0) r))
    periods_sound t (p ∷ ps) s s' r = elim (Bool-cases (hit t p s)) [
      | inl at ↦
          let out = ap (λ x. x.1.order_stats t p) (sym (periods_step t p ps s true at) ∙ r) in
          let low = hit-AtLimit t p s at in (p, (low.0, omega (arith, low.1, out)))
      | inr below ↦
          periods_sound t ps (read t p s).1 s' (sym (periods_step t p ps s false below) ∙ r)
    ]

    types_turn :
        (t : StatType) (s s' : TradeStats) (rest one : Bool × TradeStats)
        → is_limit_ge_periods time_to_struct now params t stat_periods s ≡ one
        → (rest ≡ (true, s')
            → (t : StatType) × (p : StatPeriod) × AtLimit params t p (s'.order_stats t p))
        → (if one.0 then (true, one.1) else rest) ≡ (true, s')
        → (t : StatType) × (p : StatPeriod) × AtLimit params t p (s'.order_stats t p)
    types_turn t s s' rest (true, s1) e k r =
        let found = periods_sound t stat_periods s s' (e ∙ r) in (t, found.0, found.1)
    types_turn t s s' rest (false, s1) e k r = k r

    types_sound :
        (ts : List StatType) (s s' : TradeStats)
        → is_limit_ge_types time_to_struct now params ts s ≡ (true, s')
        → (t : StatType) × (p : StatPeriod) × AtLimit params t p (s'.order_stats t p)
    unfolding is_limit_ge_types
    types_sound [] s s' r = absurd (ground (arith, ap (λ x. x.0) r))
    types_sound (t ∷ ts) s s' r =
        types_turn t s s' _ (is_limit_ge_periods time_to_struct now params t stat_periods s) refl
          (types_sound ts _ s') r

    -- Whenever the statistics are reported to have reached a limit, some counter of the statistics
    -- that the check leaves has reached a limit that is set.
    pub is_limit_ge_stats_sound :
        (s : TradeStats)
        → (is_limit_ge_stats time_to_struct now params s).0 ≡ true
        → let s' = (is_limit_ge_stats time_to_struct now params s).1 in
          (t : StatType) × (p : StatPeriod) × AtLimit params t p (s'.order_stats t p)
    unfolding is_limit_ge_stats
    is_limit_ge_stats_sound s h =
        types_sound stat_types s (is_limit_ge_stats time_to_struct now params s).1
          (ap (λ b. (b, (is_limit_ge_stats time_to_struct now params s).1)) h)
