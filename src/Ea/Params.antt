-- ===== src/Ea/Params.antt =====
-- The flags and details of the structure EAParams, in src/include/classes/EA.struct.h.
pub mod Props
use Prim.Native.String.{String}
use ea31337_fft.Prelude.{ℕ, ◌^◌, Bool}
use ea31337_fft.Bits.Flags.{add_flags, remove_flags, set_flag, has_any}

-- ENUM_EA_PARAM_SIGNAL_FILTER
abbrev pub signal_filter_none : ℕ
signal_filter_none = 0

abbrev pub signal_filter_first : ℕ
signal_filter_first = 2 ^ 0

abbrev pub signal_filter_open_m_if_h : ℕ
signal_filter_open_m_if_h = 2 ^ 1

pub record EaParams (F Task : Type 0) : Type 0 where
  pub risk_margin_max : F
  pub author : String
  pub desc : String
  pub name : String
  pub symbol : String
  pub ver : String
  pub flags : ℕ
  pub signal_filter : ℕ
  pub data_export : ℕ
  pub data_store : ℕ
  pub log_level : ℕ
  pub chart_info_freq : ℕ
  pub task_init : Task

module _ {F Task : Type 0} where
  -- CheckFlag, CheckFlagDataStore, CheckSignalFilter
  unfoldable pub check_flag : ℕ → EaParams F Task → Bool
  check_flag f p = has_any p.flags f

  unfoldable pub check_flag_data_store : ℕ → EaParams F Task → Bool
  check_flag_data_store f p = has_any p.data_store f

  unfoldable pub check_signal_filter : ℕ → EaParams F Task → Bool
  check_signal_filter f p = has_any p.signal_filter f

  -- AddFlags, RemoveFlags, SetFlag, SetFlags
  unfoldable pub add_param_flags : ℕ → EaParams F Task → EaParams F Task
  add_param_flags f p = record p { flags = add_flags p.flags f }

  unfoldable pub remove_param_flags : ℕ → EaParams F Task → EaParams F Task
  remove_param_flags f p = record p { flags = remove_flags p.flags f }

  unfoldable pub set_param_flag : ℕ → Bool → EaParams F Task → EaParams F Task
  set_param_flag f v p = record p { flags = set_flag p.flags f v }

  unfoldable pub set_param_flags : ℕ → EaParams F Task → EaParams F Task
  set_param_flags f p = record p { flags = f }

  -- SetDetails and SetTaskEntry
  unfoldable pub set_details : String → String → String → String → EaParams F Task → EaParams F Task
  set_details new_name new_desc new_ver new_author p = record p {
    name = new_name;
    desc = new_desc;
    ver = new_ver;
    author = new_author;
  }

  unfoldable pub set_task_entry : Task → EaParams F Task → EaParams F Task
  set_task_entry t p = record p { task_init = t }
