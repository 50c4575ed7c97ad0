-- ===== src/Ea/State/Laws.antt =====
-- How the flags and the properties of the EA's state are set and read.
use ea31337_fft.Prelude.{
  ℕ, ◌^◌, ◌<◌, ◌≡◌, bit_or, ◌⊎◌, inl, inr, refl, arith, Bool, true, none, some, ◌==◌, if◌then◌else◌,
}
use ea31337_fft.UserError.{invalid_parameter}
use ea31337_fft.Bits.Flags.{add_flags}
use ea31337_fft.Bits.OneFlag.{has_any-set_two_pow, has_any-two_pow, digit-two_pow}
use ea31337_fft.Bits.Digits.{digit-bit_or, digit-le_one}
use ea31337_fft.Ea.State.{
  EaState, StateProp, prop_flags, prop_last_updated, prop_new_periods, prop_timestamp,
  set_state_flag, check_state_flag, new_state, get_prop, set_prop, is_active, is_enabled,
}

-- Setting a flag decides that flag and leaves every other flag of the state alone.
pub check_state_flag-set_state_flag :
    (i j : ℕ) (v : Bool) (s : EaState)
    → i < 32
    → j < 32
    → check_state_flag (2 ^ j) (set_state_flag (2 ^ i) v s)
      ≡ (if i == j then v else check_state_flag (2 ^ j) s)
unfolding check_state_flag set_state_flag
check_state_flag-set_state_flag i j v s p q = has_any-set_two_pow s.flags i j v p q

-- A property that Set takes is read back by Get; the two others are refused by both, and Set then
-- changes nothing.
pub get_prop-set_prop :
    (p : StateProp) (v : ℕ) (s : EaState)
    → (get_prop p (set_prop p v s).0 ≡ (v, none))
      ⊎ ((set_prop p v s ≡ (s, some invalid_parameter))
          × ((get_prop p s).1 ≡ some invalid_parameter))
unfolding get_prop set_prop
get_prop-set_prop prop_flags v s = inl refl
get_prop-set_prop prop_new_periods v s = inl refl
get_prop-set_prop prop_last_updated v s = inr (refl, refl)
get_prop-set_prop prop_timestamp v s = inr (refl, refl)

read_new :
    (i : ℕ) (raw : EaState)
    → i < 32
    → check_state_flag (2 ^ i) (new_state raw)
      ≡ (if i == 0 then true else if i == 2 then true else check_state_flag (2 ^ i) raw)
unfolding new_state check_state_flag add_flags
read_new i raw h = ground (
  arith,
  has_any-two_pow (bit_or raw.flags (bit_or (2 ^ 0) (2 ^ 2))) i h,
  has_any-two_pow raw.flags i h,
  digit-bit_or i raw.flags (bit_or (2 ^ 0) (2 ^ 2)),
  digit-bit_or i (2 ^ 0) (2 ^ 2),
  digit-two_pow 0 i,
  digit-two_pow 2 i,
  digit-le_one raw.flags i,
)

-- The constructor yields an active and enabled state, whatever its memory held, and does not make
-- any other flag of it.
pub new_state_lem :
    (i : ℕ) (raw : EaState)
    → i < 32
    → (is_active (new_state raw) ≡ true)
      × (is_enabled (new_state raw) ≡ true)
      × (check_state_flag (2 ^ i) (new_state raw)
          ≡ (if i == 0 then true else if i == 2 then true else check_state_flag (2 ^ i) raw))
unfolding is_active is_enabled
new_state_lem i raw h =
    (read_new 0 raw (omega arith), read_new 2 raw (omega arith), read_new i raw h)
