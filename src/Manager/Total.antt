-- ===== src/Manager/Total.antt =====
-- Refresh ends, and no signal is lost by number.
use ea31337_fft.Prelude.{ℕ, ◌+◌, ◌≡◌, refl, ap, arith, true, false, some, Bool-cases, inl, inr}
use ea31337_fft.Signal.Entry.{TradeSignalEntry, check_signals, flag_processed, flag_expired}
use ea31337_fft.Dict.Slots.{used_at, unset}
use ea31337_fft.Dict.Counted.{IsCounted}
use ea31337_fft.Dict.Push.{pushed-IsCounted}
use ea31337_fft.Dict.Unset.{unset-IsCounted}
use ea31337_fft.Manager.Refresh.{
  SignalManager, signal_at, with_processed, with_expired, to_processed, to_expired, is_done,
  refresh_signal,
}

module _ {F : Type 0} where
  -- Each of the three dictionaries counts its slots.
  abbrev pub AllCounted : SignalManager F → Type 0
  AllCounted m = IsCounted m.active × IsCounted m.expired × IsCounted m.processed

  -- The number of signals that the manager holds.
  abbrev pub held : SignalManager F → ℕ
  held m = m.active.num_used + m.expired.num_used + m.processed.num_used

module _ {F : Type 0} (blank : TradeSignalEntry F) where
  -- A manager results, with so many signals, after the removal of the active signal at a position.
  abbrev pub Moved : ℕ → SignalManager F → SignalManager F → Type 0
  Moved i m m' =
      AllCounted m'
      × (held m' ≡ held m)
      × (m'.active ≡ unset i m.active)
      × (m'.last_check ≡ m.last_check)

  to_processed-Moved :
      (i : ℕ) (m : SignalManager F)
      → AllCounted m
      → used_at m.active.slots i ≡ true
      → (m' : SignalManager F) × (to_processed blank i m ≡ some m') × Moved i m m'
  unfolding to_processed with_processed
  to_processed-Moved i m (a, e, p) used =
      let m1 = record m { active = unset i m.active } in
      let (ca, less, size) = unset-IsCounted i m.active a used in
      let (d, put, cd, more) = pushed-IsCounted blank (signal_at blank i m1) m.processed p in
      (
        record m1 { processed = d },
        ap (with_processed blank m1) put,
        ((ca, e, cd), omega (arith, less, more), refl, refl),
      )

  to_expired-Moved :
      (i : ℕ) (m : SignalManager F)
      → AllCounted m
      → used_at m.active.slots i ≡ true
      → (m' : SignalManager F) × (to_expired blank i m ≡ some m') × Moved i m m'
  unfolding to_expired with_expired
  to_expired-Moved i m (a, e, p) used =
      let m1 = record m { active = unset i m.active } in
      let (ca, less, size) = unset-IsCounted i m.active a used in
      let (d, put, cd, more) = pushed-IsCounted blank (signal_at blank i m1) m.expired e in
      (
        record m1 { expired = d },
        ap (with_expired blank m1) put,
        ((ca, cd, p), omega (arith, less, more), refl, refl),
      )

  -- One round on a signal that is to be removed, and on one that is not.
  pub refresh_signal-done :
      (i : ℕ) (m : SignalManager F)
      → AllCounted m
      → used_at m.active.slots i ≡ true
      → is_done blank (signal_at blank i m) ≡ true
      → (m' : SignalManager F) × (refresh_signal blank i m ≡ some m') × Moved i m m'
  unfolding refresh_signal is_done
  refresh_signal-done i m c used done =
      elim (Bool-cases (check_signals flag_processed (signal_at blank i m))) [
        | inl processed ↦
            let (m', e, moved) = to_processed-Moved i m c used in (m', rw processed e, moved)
        | inr other ↦
            let expired : check_signals flag_expired (signal_at blank i m) ≡ true =
              ground (arith, done, other) in
            let (m', e, moved) = to_expired-Moved i m c used in (m', rw (other, expired) e, moved)
      ]

  pub refresh_signal-other :
      (i : ℕ) (m : SignalManager F)
      → is_done blank (signal_at blank i m) ≡ false
      → refresh_signal blank i m ≡ some m
  unfolding refresh_signal is_done
  refresh_signal-other i m h =
      let a : check_signals flag_processed (signal_at blank i m) ≡ false = ground (arith, h) in
      let b : check_signals flag_expired (signal_at blank i m) ≡ false = ground (arith, h) in
      rw (a, b) refl
