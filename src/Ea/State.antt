-- ===== src/Ea/State.antt =====
-- The structures EAState and EAProcessResult of src/include/classes/EA.struct.h.
use ea31337_fft.Prelude.{ℕ, ◌-◌, ◌^◌, bit_or, Bool, Option, none, some, ◌==◌, if◌then◌else◌}
use ea31337_fft.UserError.{UserError, invalid_parameter}
use ea31337_fft.Bits.Flags.{add_flags, remove_flags, set_flag, has_any}
use ea31337_fft.DateTime.Periods.{DateTime}
pub mod Laws

-- ENUM_EA_STATE_FLAGS
abbrev pub flag_active : ℕ
flag_active = 2 ^ 0

abbrev pub flag_connected : ℕ
flag_connected = 2 ^ 1

abbrev pub flag_enabled : ℕ
flag_enabled = 2 ^ 2

abbrev pub flag_libs_allowed : ℕ
flag_libs_allowed = 2 ^ 3

abbrev pub flag_on_init : ℕ
flag_on_init = 2 ^ 4

abbrev pub flag_on_quit : ℕ
flag_on_quit = 2 ^ 5

abbrev pub flag_optimization : ℕ
flag_optimization = 2 ^ 6

abbrev pub flag_testing : ℕ
flag_testing = 2 ^ 7

abbrev pub flag_trade_allowed : ℕ
flag_trade_allowed = 2 ^ 8

abbrev pub flag_visual_mode : ℕ
flag_visual_mode = 2 ^ 9

-- ENUM_EA_STATE_PROP
pub data StateProp : Type 0 where
  prop_flags prop_last_updated prop_new_periods prop_timestamp : StateProp

pub record EaState : Type 0 where
  pub last_updated : DateTime
  pub flags : ℕ
  pub new_periods : ℕ

-- AddFlags, RemoveFlags, SetFlags
unfoldable pub add_state_flags : ℕ → EaState → EaState
add_state_flags f s = record s { flags = add_flags s.flags f }

unfoldable pub remove_state_flags : ℕ → EaState → EaState
remove_state_flags f s = record s { flags = remove_flags s.flags f }

unfoldable pub set_state_flags : ℕ → EaState → EaState
set_state_flags f s = record s { flags = f }

-- SetFlag, and `Set` of a flag
unfoldable pub set_state_flag : ℕ → Bool → EaState → EaState
set_state_flag f v s = record s { flags = set_flag s.flags f v }

-- CheckFlag, and `Get` of a flag
unfoldable pub check_state_flag : ℕ → EaState → Bool
check_state_flag f s = has_any s.flags f

-- The constructor, on memory that holds `raw`: it adds to the flags and sets no other member.
unfoldable pub new_state : EaState → EaState
unfolding add_state_flags
new_state raw = add_state_flags (bit_or flag_active flag_enabled) raw

-- Get of a property, with the error that it reports; -1 is the pattern of WRONG_VALUE.
unfoldable pub get_prop : StateProp → EaState → ℕ × Option UserError
get_prop prop_flags s = (s.flags, none)
get_prop prop_new_periods s = (s.new_periods, none)
get_prop prop_last_updated s = (2 ^ 32 - 1, some invalid_parameter)
get_prop prop_timestamp s = (2 ^ 32 - 1, some invalid_parameter)

-- Set of a property, with the error that it reports.
unfoldable pub set_prop : StateProp → ℕ → EaState → EaState × Option UserError
set_prop prop_flags v s = (record s { flags = v }, none)
set_prop prop_new_periods v s = (record s { new_periods = v }, none)
set_prop prop_last_updated v s = (s, some invalid_parameter)
set_prop prop_timestamp v s = (s, some invalid_parameter)

-- The state methods.
unfoldable pub is_active : EaState → Bool
is_active s = check_state_flag flag_active s

unfoldable pub is_connected : EaState → Bool
is_connected s = check_state_flag flag_connected s

unfoldable pub is_enabled : EaState → Bool
is_enabled s = check_state_flag flag_enabled s

unfoldable pub is_libs_allowed : EaState → Bool
is_libs_allowed s = check_state_flag flag_libs_allowed s

unfoldable pub is_on_init : EaState → Bool
is_on_init s = check_state_flag flag_on_init s

unfoldable pub is_on_quit : EaState → Bool
is_on_quit s = check_state_flag flag_on_quit s

unfoldable pub is_optimization_mode : EaState → Bool
is_optimization_mode s = check_state_flag flag_optimization s

unfoldable pub is_testing_mode : EaState → Bool
is_testing_mode s = check_state_flag flag_testing s

unfoldable pub is_trade_allowed : EaState → Bool
is_trade_allowed s = check_state_flag flag_trade_allowed s

unfoldable pub is_visual_mode : EaState → Bool
is_visual_mode s = check_state_flag flag_visual_mode s

-- Enable
unfoldable pub enable : Bool → EaState → EaState
unfolding set_state_flag
enable state s = set_state_flag flag_enabled state s

pub record EaProcessResult : Type 0 where
  pub last_error : ℕ
  pub stg_errored : ℕ
  pub stg_processed : ℕ
  pub stg_processed_periods : ℕ
  pub stg_suspended : ℕ
  pub tasks_processed : ℕ

-- ResetError, whose ResetLastError clears the platform's own error; ERR_NO_ERROR is 0.
unfoldable pub reset_error : EaProcessResult → EaProcessResult
reset_error r = record r { last_error = 0 }

-- Reset
unfoldable pub reset_result : EaProcessResult → EaProcessResult
unfolding reset_error
reset_result r = reset_error (record r { stg_errored = 0; stg_processed = 0; stg_suspended = 0 })
