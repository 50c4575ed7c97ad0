-- ===== src/Manager/Refresh.antt =====
-- TradeSignalManager::SignalAdd, Refresh and IsReady.
use ea31337_fft.Prelude.{
  ℕ, zero, suc, ◌+◌, Bool, ◌||◌, Option, none, some, leb, if◌then◌else◌, length, get_elem?,
}
use ea31337_fft.Signal.Entry.{TradeSignalEntry, check_signals, flag_processed, flag_expired}
use ea31337_fft.Dict.Slots.{Slot, ListDict, empty_dict, pushed, seek, unset}

-- A dictionary for each kind of signal, and the two parameters. The refresh frequency is a number
-- of seconds that is not negative.
pub record SignalManager (F : Type 0) : Type 0 where
  pub active : ListDict (TradeSignalEntry F)
  pub expired : ListDict (TradeSignalEntry F)
  pub processed : ListDict (TradeSignalEntry F)
  pub last_check : ℕ
  pub freq : ℕ

-- `blank` is the signal of a slot that was never written; a TradeSignal is its entry.
module _ {F : Type 0} (blank : TradeSignalEntry F) where
  -- The constructor, with the parameters' own default.
  unfoldable pub new_manager : SignalManager F
  new_manager = record {
    active = empty_dict;
    expired = empty_dict;
    processed = empty_dict;
    last_check = 0;
    freq = 10;
  }

  unfoldable pub option_value : Option (Slot (TradeSignalEntry F)) → TradeSignalEntry F
  option_value none = blank
  option_value (some s) = s.value

  -- What the pointer to the signal of a slot of the active signals reads.
  unfoldable pub signal_at : ℕ → SignalManager F → TradeSignalEntry F
  unfolding option_value
  signal_at i m = option_value (get_elem? m.active.slots i)

  unfoldable pub with_active :
      SignalManager F → Option (ListDict (TradeSignalEntry F)) → Option (SignalManager F)
  with_active m none = none
  with_active m (some d) = some (record m { active = d })

  unfoldable pub with_processed :
      SignalManager F → Option (ListDict (TradeSignalEntry F)) → Option (SignalManager F)
  with_processed m none = none
  with_processed m (some d) = some (record m { processed = d })

  unfoldable pub with_expired :
      SignalManager F → Option (ListDict (TradeSignalEntry F)) → Option (SignalManager F)
  with_expired m none = none
  with_expired m (some d) = some (record m { expired = d })

  -- SignalAdd
  unfoldable pub signal_add : TradeSignalEntry F → SignalManager F → Option (SignalManager F)
  unfolding with_active pushed
  signal_add signal m = with_active m (pushed blank signal m.active)

  -- The signal is removed first, and pushed through the pointer to its slot afterwards.
  unfoldable pub to_processed : ℕ → SignalManager F → Option (SignalManager F)
  unfolding signal_at with_processed pushed unset
  to_processed i m =
      let m' = record m { active = unset i m.active } in
      with_processed m' (pushed blank (signal_at i m') m'.processed)

  unfoldable pub to_expired : ℕ → SignalManager F → Option (SignalManager F)
  unfolding signal_at with_expired pushed unset
  to_expired i m =
      let m' = record m { active = unset i m.active } in
      with_expired m' (pushed blank (signal_at i m') m'.expired)

  -- Whether the signal is one that Refresh removes.
  unfoldable pub is_done : TradeSignalEntry F → Bool
  unfolding check_signals
  is_done signal = check_signals flag_processed signal || check_signals flag_expired signal

  -- The body of the loop at an iterator's position.
  unfoldable pub refresh_signal : ℕ → SignalManager F → Option (SignalManager F)
  unfolding to_processed to_expired signal_at check_signals
  refresh_signal i m =
      if check_signals flag_processed (signal_at i m)
      then to_processed i m
      else if check_signals flag_expired (signal_at i m)
      then to_expired i m
      else some m

  -- Where the iterator's increment starts to look: at the slot itself after Unset, which has moved
  -- the iterator back, and else at the next one.
  unfoldable pub next_start : ℕ → SignalManager F → ℕ
  unfolding is_done signal_at
  next_start i m = if is_done (signal_at i m) then i else i + 1

  -- The loop, from a search for the next position on; none where the fuel runs out.
  unfoldable pub refresh_from : ℕ → ℕ → Option (SignalManager F) → Option (SignalManager F)
  unfolding refresh_signal next_start seek
  refresh_from fuel start none = none
  refresh_from zero start (some m) = none
  refresh_from (suc fuel) start (some m) = elim (seek start m.active) [
    | none ↦ some m
    | some i ↦ refresh_from fuel (next_start i m) (refresh_signal i m)
  ]

  unfoldable pub checked_at : ℕ → Option (SignalManager F) → Option (SignalManager F)
  checked_at now none = none
  checked_at now (some m) = some (record m { last_check = now })

  -- Refresh; `now` is TimeGMT(). A round removes a signal or goes on by a slot at least.
  unfoldable pub refresh : ℕ → SignalManager F → Option (SignalManager F)
  unfolding refresh_from checked_at
  refresh now m =
      checked_at now (refresh_from (length m.active.slots + m.active.num_used + 1) 0 (some m))

-- IsReady, which does not read its parameter.
unfoldable pub is_ready : {F : Type 0} → Bool → ℕ → SignalManager F → Bool × SignalManager F
is_ready do_update now m =
    let ready = leb now (m.last_check + m.freq) in
    (ready, if ready then record m { last_check = now } else m)
