-- ===== src/Ea/Params/Props.antt =====
-- The typed properties of EAParams: Get and Set of src/include/classes/EA.struct.h.
use ea31337_fft.Prelude.{ℕ, ◌≡◌, refl, Option, none, some, ◌==◌, if◌then◌else◌}
use ea31337_fft.UserError.{UserError, invalid_parameter}
use ea31337_fft.Casts.{Casts}
use ea31337_fft.Ea.Params.{EaParams}

-- ENUM_EA_PARAM_PROP
pub data EaParamProp : Type 0 where
  ea_prop_none : EaParamProp
  ea_prop_author : EaParamProp
  ea_prop_chart_info_freq : EaParamProp
  ea_prop_data_export : EaParamProp
  ea_prop_data_store : EaParamProp
  ea_prop_desc : EaParamProp
  ea_prop_flags : EaParamProp
  ea_prop_log_level : EaParamProp
  ea_prop_name : EaParamProp
  ea_prop_risk_margin_max : EaParamProp
  ea_prop_signal_filter : EaParamProp
  ea_prop_symbol : EaParamProp
  ea_prop_ver : EaParamProp

unfoldable pub ea_prop_value : EaParamProp → ℕ
ea_prop_value ea_prop_none = 0
ea_prop_value ea_prop_author = 1
ea_prop_value ea_prop_chart_info_freq = 2
ea_prop_value ea_prop_data_export = 3
ea_prop_value ea_prop_data_store = 4
ea_prop_value ea_prop_desc = 5
ea_prop_value ea_prop_flags = 6
ea_prop_value ea_prop_log_level = 7
ea_prop_value ea_prop_name = 8
ea_prop_value ea_prop_risk_margin_max = 9
ea_prop_value ea_prop_signal_filter = 10
ea_prop_value ea_prop_symbol = 11
ea_prop_value ea_prop_ver = 12

module _ {F T Task : Type 0} (c : Casts F T) where
  -- Get, with the error that it reports.
  unfoldable pub get_ea_param : EaParamProp → EaParams F Task → T × Option UserError
  get_ea_param ea_prop_author s = (c.of_text s.author, none)
  get_ea_param ea_prop_chart_info_freq s = (c.of_number 32 s.chart_info_freq, none)
  get_ea_param ea_prop_data_export s = (c.of_number 16 s.data_export, none)
  get_ea_param ea_prop_data_store s = (c.of_number 16 s.data_store, none)
  get_ea_param ea_prop_desc s = (c.of_text s.desc, none)
  get_ea_param ea_prop_log_level s = (c.of_number 32 s.log_level, none)
  get_ea_param ea_prop_name s = (c.of_text s.name, none)
  get_ea_param ea_prop_risk_margin_max s = (c.of_float s.risk_margin_max, none)
  get_ea_param ea_prop_signal_filter s = (c.of_number 32 s.signal_filter, none)
  get_ea_param ea_prop_symbol s = (c.of_text s.symbol, none)
  get_ea_param ea_prop_ver s = (c.of_text s.ver, none)
  get_ea_param ea_prop_none s = (c.wrong_value, some invalid_parameter)
  get_ea_param ea_prop_flags s = (c.wrong_value, some invalid_parameter)

  -- Set, with the error that it reports.
  unfoldable pub set_ea_param :
      EaParamProp → T → EaParams F Task → EaParams F Task × Option UserError
  set_ea_param ea_prop_author v s = (record s { author = c.to_text v }, none)
  set_ea_param ea_prop_chart_info_freq v s = (record s { chart_info_freq = c.to_number 32 v }, none)
  set_ea_param ea_prop_data_export v s = (record s { data_export = c.to_number 16 v }, none)
  set_ea_param ea_prop_data_store v s = (record s { data_store = c.to_number 16 v }, none)
  set_ea_param ea_prop_desc v s = (record s { desc = c.to_text v }, none)
  set_ea_param ea_prop_log_level v s = (record s { log_level = c.to_number 32 v }, none)
  set_ea_param ea_prop_name v s = (record s { name = c.to_text v }, none)
  set_ea_param ea_prop_risk_margin_max v s = (record s { risk_margin_max = c.to_float v }, none)
  set_ea_param ea_prop_signal_filter v s = (record s { signal_filter = c.to_number 32 v }, none)
  set_ea_param ea_prop_symbol v s = (record s { symbol = c.to_text v }, none)
  set_ea_param ea_prop_ver v s = (record s { ver = c.to_text v }, none)
  set_ea_param ea_prop_none v s = (s, some invalid_parameter)
  set_ea_param ea_prop_flags v s = (s, some invalid_parameter)

module _ {F T : Type 0} (c : Casts F T) where
  -- What a property reads as once a value is stored in it.
  abbrev pub ea_stored : EaParamProp → T → T × Option UserError
  ea_stored ea_prop_author v = (c.of_text (c.to_text v), none)
  ea_stored ea_prop_chart_info_freq v = (c.of_number 32 (c.to_number 32 v), none)
  ea_stored ea_prop_data_export v = (c.of_number 16 (c.to_number 16 v), none)
  ea_stored ea_prop_data_store v = (c.of_number 16 (c.to_number 16 v), none)
  ea_stored ea_prop_desc v = (c.of_text (c.to_text v), none)
  ea_stored ea_prop_log_level v = (c.of_number 32 (c.to_number 32 v), none)
  ea_stored ea_prop_name v = (c.of_text (c.to_text v), none)
  ea_stored ea_prop_risk_margin_max v = (c.of_float (c.to_float v), none)
  ea_stored ea_prop_signal_filter v = (c.of_number 32 (c.to_number 32 v), none)
  ea_stored ea_prop_symbol v = (c.of_text (c.to_text v), none)
  ea_stored ea_prop_ver v = (c.of_text (c.to_text v), none)
  ea_stored ea_prop_none v = (c.wrong_value, some invalid_parameter)
  ea_stored ea_prop_flags v = (c.wrong_value, some invalid_parameter)

module _ {F T Task : Type 0} (c : Casts F T) where
  -- After Set of a property of the EA, Get reads the stored value of that property, converted to the
  -- type of the member and back, and every other property as before; the flags and the number 0 are
  -- refused by both.
  pub get_ea_param-set_ea_param :
      (p q : EaParamProp) (v : T) (s : EaParams F Task)
      → get_ea_param c q (set_ea_param c p v s).0
        ≡ (if ea_prop_value p == ea_prop_value q then ea_stored c p v else get_ea_param c q s)
  unfolding get_ea_param set_ea_param ea_prop_value
  get_ea_param-set_ea_param ea_prop_none ea_prop_none v s = refl
  get_ea_param-set_ea_param _ ea_prop_none v s = refl
  get_ea_param-set_ea_param _ _ v s = refl
