-- ===== src/Ea/Process/Ends.antt =====
-- EA::ProcessSignals ends, and leaves no signal among the active ones that it has processed.
use ea31337_fft.Prelude.{
  ℕ, ◌+◌, ◌≡◌, refl, ap, ◌∙◌, Bool, true, false, ◌&&◌, List, [], ◌∷◌, ◌==◌, Bool-cases, inl, inr,
  some,
}
use ea31337_fft.Signal.Entry.{TradeSignalEntry}
use ea31337_fft.Dict.Slots.{Slot, used_at}
use ea31337_fft.Dict.Counted.{count_used}
use ea31337_fft.Manager.Refresh.{SignalManager, is_done, signal_at}
use ea31337_fft.Manager.Total.{AllCounted, held}
use ea31337_fft.Manager.Clean.{refresh_lem}
use ea31337_fft.Ea.Process.{World, process_signal, process_slots, process_signals, processed_result}

module _ {F W : Type 0} (p : World W) (filter : ℕ) where
  process_slots-count :
      (slots : List (Slot (TradeSignalEntry F))) (allowed result : Bool) (w : W)
      → count_used (process_slots p filter slots allowed result w).0 ≡ count_used slots
  unfolding process_slots count_used
  process_slots-count [] allowed result w = refl
  process_slots-count (slot ∷ slots) allowed result w =
      let o = process_signal p filter slot.value allowed w in
      elim (Bool-cases slot.is_used) [
        | inl used ↦ elim (Bool-cases o.stop) [
          | inl stop ↦ rw (used, stop) refl
          | inr go_on ↦
              let rest = process_slots-count slots o.allowed (result && o.ok) o.world in
              rw (used, go_on) (ap (λ n. 1 + n) rest)
        ]
        | inr unused ↦
            let rest = process_slots-count slots allowed result w in
            rw unused (ap (λ n. 0 + n) rest)
      ]

  -- Where memory suffices for the pushes of its refresh, ProcessSignals ends on a manager whose
  -- dictionaries count their slots. The dictionaries still count their slots, the manager holds as many
  -- signals as before, and none of its active signals is processed or expired.
  pub process_signals_lem :
      (blank : TradeSignalEntry F) (now : ℕ) (m : SignalManager F) (w : W)
      → AllCounted m
      → (ok : Bool) × (m' : SignalManager F) × (w' : W) × (process_signals p filter blank now m w
          ≡ some (ok, m', w'))
        × AllCounted m'
        × (held m' ≡ held m)
        × ((j : ℕ)
            → used_at m'.active.slots j ≡ true
            → is_done blank (signal_at blank j m') ≡ false)
  unfolding process_signals processed_result
  process_signals_lem blank now m w (a, e, d) =
      let (slots, result, w1) =
        process_slots p filter m.active.slots true true (p.reset_last_error w) in
      let kept = process_slots-count m.active.slots true true (p.reset_last_error w) in
      let m1 = record m { active = record (m.active) { slots = slots } } in
      let (m', refreshed, c, h, done, checked) = refresh_lem blank now m1 (kept ∙ a, e, d) in
      (
        result && (p.get_last_error w1 == 0),
        m',
        w1,
        ap (processed_result p filter result w1) refreshed,
        c,
        h,
        done,
      )
