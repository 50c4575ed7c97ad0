-- ===== src/Manager/Alias.antt =====
-- Which signal Refresh pushes when a removal has moved another one into the slot of its pointer.
use ea31337_fft.Prelude.{ℕ, ◌+◌, ◌-◌, ◌<◌, ◌≡◌, ap, arith, true}
use ea31337_fft.Signal.Entry.{TradeSignalEntry}
use ea31337_fft.Dict.Slots.{used_at, unset, pushed}
use ea31337_fft.Dict.Counted.{IsCounted, count_used-le}
use ea31337_fft.Dict.Unset.{unset-moved}
use ea31337_fft.Manager.Refresh.{
  SignalManager, option_value, signal_at, with_processed, with_expired, to_processed, to_expired,
}

module _ {F : Type 0} (blank : TradeSignalEntry F) where
  -- Where the active signal that Refresh removes is not in the last of the counted slots, what it
  -- pushes to the processed, or to the expired, signals is the signal of that last slot.
  pub moved_signal_pushed :
      (i : ℕ) (m : SignalManager F)
      → IsCounted m.active
      → used_at m.active.slots i ≡ true
      → i + 1 < m.active.num_used
      → let m1 = record m { active = unset i m.active } in
        let last = signal_at blank (m.active.num_used - 1) m in
        (to_processed blank i m ≡ with_processed blank m1 (pushed blank last m.processed))
        × (to_expired blank i m ≡ with_expired blank m1 (pushed blank last m.expired))
  unfolding to_processed to_expired signal_at
  moved_signal_pushed i m c used lt =
      let m1 = record m { active = unset i m.active } in
      let moved =
        ap (option_value blank)
          (unset-moved i m.active used lt (omega (arith, c, count_used-le m.active.slots))) in
      (
        ap (λ v. with_processed blank m1 (pushed blank v m.processed)) moved,
        ap (λ v. with_expired blank m1 (pushed blank v m.expired)) moved,
      )
