-- ===== src/Stg/Params/Laws.antt =====
-- A parameter that is set is read back, and no other parameter changes.
use ea31337_fft.Prelude.{◌≡◌, refl, Option, none, some, ◌==◌, if◌then◌else◌}
use ea31337_fft.UserError.{UserError, invalid_parameter}
use ea31337_fft.Casts.{Casts}
use ea31337_fft.Timeframe.Tables.{Timeframe}
use ea31337_fft.Stg.Params.{
  StgParams, StgParam, param_value, get_param, set_param, param_id, param_ls, param_lsf,
  param_max_risk, param_max_spread, param_ocl, param_ocp, param_oct, param_ppl, param_ppm,
  param_psl, param_psm, param_scfm, param_scft, param_scl, param_scm, param_shift, param_sob,
  param_sofm, param_soft, param_sol, param_som, param_tf, param_tfm, param_type, param_weight,
  param_final,
}

module _ {F T : Type 0} (c : Casts F T) where
  -- What a parameter reads as once a value is stored in it: the value, converted to the type of the
  -- member and back.
  abbrev pub stored : StgParam → T → T × Option UserError
  stored param_id v = (c.of_number 64 (c.to_number 64 v), none)
  stored param_ls v = (c.of_float (c.to_float v), none)
  stored param_lsf v = (c.of_float (c.to_float v), none)
  stored param_max_risk v = (c.of_float (c.to_float v), none)
  stored param_max_spread v = (c.of_float (c.to_float v), none)
  stored param_ocl v = (c.of_float (c.to_float v), none)
  stored param_ocp v = (c.of_float (c.to_float v), none)
  stored param_oct v = (c.of_number 64 (c.to_number 64 v), none)
  stored param_ppl v = (c.of_float (c.to_float v), none)
  stored param_ppm v = (c.of_number 32 (c.to_number 32 v), none)
  stored param_psl v = (c.of_float (c.to_float v), none)
  stored param_psm v = (c.of_number 32 (c.to_number 32 v), none)
  stored param_scfm v = (c.of_number 32 (c.to_number 32 v), none)
  stored param_scft v = (c.of_number 32 (c.to_number 32 v), none)
  stored param_scl v = (c.of_float (c.to_float v), none)
  stored param_scm v = (c.of_number 32 (c.to_number 32 v), none)
  stored param_shift v = (c.of_number 16 (c.to_number 16 v), none)
  stored param_sob v = (c.of_number 32 (c.to_number 32 v), none)
  stored param_sofm v = (c.of_number 32 (c.to_number 32 v), none)
  stored param_soft v = (c.of_number 32 (c.to_number 32 v), none)
  stored param_sol v = (c.of_float (c.to_float v), none)
  stored param_som v = (c.of_number 32 (c.to_number 32 v), none)
  stored param_tf v = (c.of_tf (c.to_tf v), none)
  stored param_tfm v = (c.of_number 32 (c.to_number 32 v), none)
  stored param_type v = (c.of_number 32 (c.to_number 32 v), none)
  stored param_weight v = (c.of_float (c.to_float v), none)
  stored param_final v = (c.wrong_value, some invalid_parameter)

  -- After Set of a parameter, Get reads the stored value of that parameter, and every other parameter
  -- as before; the number past the parameters is refused by both.
  pub get_param-set_param :
      (period : Timeframe) (p q : StgParam) (v : T) (s : StgParams F)
      → get_param c q (set_param c period p v s).0
        ≡ (if param_value p == param_value q then stored p v else get_param c q s)
  unfolding get_param set_param param_value
  get_param-set_param period param_id param_id v s = refl
  get_param-set_param period _ param_id v s = refl
  get_param-set_param period _ _ v s = refl
