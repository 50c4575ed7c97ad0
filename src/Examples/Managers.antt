-- ===== src/Examples/Managers.antt =====
-- The signal manager: include/classes/Trade/TradeSignalManager.h.
use ea31337_fft.Prelude.{ℕ, ◌+◌, ◌-◌, ◌^◌, ◌≡◌, refl, arith, true, false, some, [], ◌∷◌}
use ea31337_fft.Timeframe.Tables.{period_h1}
use ea31337_fft.Signal.Entry.{TradeSignalEntry}
use ea31337_fft.Dict.Slots.{used_at, option_used, pushed, unset}
use ea31337_fft.Dict.Counted.{count_used}
use ea31337_fft.Manager.Refresh.{
  SignalManager, signal_at, is_done, refresh, with_processed, with_expired, to_processed,
  to_expired,
}
use ea31337_fft.Manager.Ready.{all_after, never_ready, never_ready_after}
use ea31337_fft.Manager.Total.{AllCounted, held}
use ea31337_fft.Manager.Clean.{refresh_lem}
use ea31337_fft.Manager.Alias.{moved_signal_pushed}
use ea31337_fft.Examples.Dicts.{used_slot}

abbrev signal : ℕ → ℕ → TradeSignalEntry ℕ
signal id word = record {
  tf = period_h1;
  strength = 1;
  weight = 0;
  magic_id = id;
  timestamp = 1000;
  signals = word;
}

abbrev pub blank : TradeSignalEntry ℕ
blank = signal 0 0

-- A processed signal to buy, and after it a signal to sell that was not processed.
abbrev pub manager : SignalManager ℕ
manager = record {
  active = record {
    slots = used_slot (signal 1 (2 ^ 7 + 2 ^ 11)) ∷ used_slot (signal 2 (2 ^ 9)) ∷ [];
    list_index = 2;
    num_used = 2;
  };
  expired = record { slots = []; list_index = 0; num_used = 0 };
  processed = record { slots = []; list_index = 0; num_used = 0 };
  last_check = 1000;
  freq = 10;
}

pub manager-AllCounted : AllCounted manager
unfolding count_used
manager-AllCounted = (refl, refl, refl)

refresh_lem_example :
    (m' : SignalManager ℕ) × (refresh blank 2000 manager ≡ some m')
    × AllCounted m'
    × (held m' ≡ held manager)
    × ((j : ℕ) → used_at m'.active.slots j ≡ true → is_done blank (signal_at blank j m') ≡ false)
    × (m'.last_check ≡ 2000)
refresh_lem_example = refresh_lem blank 2000 manager manager-AllCounted

moved_signal_pushed_example :
    let m1 = record manager { active = unset 0 manager.active } in
    let last = signal_at blank (manager.active.num_used - 1) manager in
    (to_processed blank 0 manager ≡ with_processed blank m1 (pushed blank last manager.processed))
    × (to_expired blank 0 manager ≡ with_expired blank m1 (pushed blank last manager.expired))
unfolding count_used used_at option_used
moved_signal_pushed_example = moved_signal_pushed blank 0 manager refl refl (omega arith)

never_ready_after_example : never_ready (2000 ∷ 3000 ∷ []) manager ≡ true
unfolding all_after
never_ready_after_example = never_ready_after (2000 ∷ 3000 ∷ []) manager refl
