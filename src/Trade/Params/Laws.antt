-- ===== src/Trade/Params/Laws.antt =====
-- New trade parameters set no limit, and the parameters do not disturb the limits.
use ea31337_fft.Prelude.{ℕ, ◌≡◌, refl, arith, false, Bool-cases, inl, inr, ap}
use ea31337_fft.Casts.{Casts}
use ea31337_fft.DateTime.Entry.{MqlDateTime}
use ea31337_fft.Trade.Stats.{StatType, StatPeriod, TradeStats}
use ea31337_fft.Trade.Limits.{TradeParams, get_limits, is_limit_ge_stats}
use ea31337_fft.Trade.Limits.Laws.{get_limits-set}
use ea31337_fft.Trade.Limits.Reached.{is_limit_ge_stats_sound}
use ea31337_fft.Trade.Params.{
  TradeParam, new_trade_params, set_trade_param, trade_param_final, initialised,
}

module _ {F T : Type 0} (c : Casts F T) where
  set_trade_param-limits :
      (p : TradeParam) (v : T) (s : TradeParams F)
      → (set_trade_param c p v s).0.limits_stats ≡ s.limits_stats
  unfolding set_trade_param
  set_trade_param-limits trade_param_final v s = refl
  set_trade_param-limits _ v s = refl

module _ {F : Type 0} (lot risk : F) (slip random : ℕ) (mem : TradeParams F) where
  new_trade_params-limits :
      (t : StatType) (p : StatPeriod)
      → (new_trade_params lot risk slip random mem).limits_stats t p ≡ 0
  unfolding new_trade_params get_limits
  new_trade_params-limits t p =
      let (_, _, _, everywhere) = get_limits-set t t p p 0 (initialised lot risk slip random mem) in
      everywhere

module _ {F T : Type 0} (c : Casts F T) (lot risk : F) (slip random : ℕ) (mem : TradeParams F) where
  -- Whatever the memory of new trade parameters held and whichever parameter is set next, no
  -- statistics make them report a limit as reached.
  pub new_trade_params_unlimited :
      (p : TradeParam) (v : T) (time_to_struct : ℕ → MqlDateTime) (now : ℕ) (stats : TradeStats)
      → (is_limit_ge_stats time_to_struct now
          (set_trade_param c p v (new_trade_params lot risk slip random mem)).0
          stats).0
        ≡ false
  new_trade_params_unlimited p v time_to_struct now stats =
      let params = (set_trade_param c p v (new_trade_params lot risk slip random mem)).0 in
      elim (Bool-cases (is_limit_ge_stats time_to_struct now params stats).0) [
        | inl reached ↦
            let (t, q, at) = is_limit_ge_stats_sound time_to_struct now params stats reached in
            let kept =
              ap (λ l. l t q)
                (set_trade_param-limits c p v (new_trade_params lot risk slip random mem)) in
            let no_limit = new_trade_params-limits lot risk slip random mem t q in
            absurd (omega (arith, at.0, kept, no_limit))
        | inr below ↦ below
      ]
