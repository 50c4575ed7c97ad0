-- ===== src/Ea/Process/Laws.antt =====
-- What keeps the EA from opening orders on its signals.
use ea31337_fft.Prelude.{
  ℕ, ◌≡◌, ◌≢◌, refl, ap, ◌∙◌, arith, Bool, true, false, ◌&&◌, List, [], ◌∷◌, ◌==◌, Bool-cases, inl,
  inr,
}
use ea31337_fft.Signal.Entry.{TradeSignalEntry, check_signals, flag_processed}
use ea31337_fft.Signal.Decision.{OrderType, Sign, plus, minus, neutral, get_signal_open}
use ea31337_fft.Manager.Refresh.{refresh, SignalManager}
use ea31337_fft.Ea.Process.{
  processed_result, close_part, World, Outcome, request, open_side, open_part, process_signal,
  process_slots, process_signals,
}
use ea31337_fft.Dict.Slots.{Slot}

module _ {F W : Type 0} (p : World W) (filter : ℕ) where
  -- A signal that is met without the permission to trade.
  abbrev IsDenied : TradeSignalEntry F → Outcome F W → Type 0
  IsDenied s o = (o.signal ≡ s) × (o.allowed ≡ false) × (o.ok ≡ true) × (o.stop ≡ false)

  process_signal-IsDenied :
      (s : TradeSignalEntry F) (w : W) → IsDenied s (process_signal p filter s false w)
  unfolding process_signal
  process_signal-IsDenied s w = elim (Bool-cases (check_signals flag_processed s)) [
    | inl done ↦ rw done (refl, refl, refl, refl)
    | inr fresh ↦ rw fresh (refl, refl, refl, refl)
  ]

  -- Once the permission to trade was denied, the rest of the pass changes no signal, none is marked
  -- as processed, and the result stays as it is.
  pub process_slots_denied :
      (slots : List (Slot (TradeSignalEntry F))) (result : Bool) (w : W)
      → ((process_slots p filter slots false result w).0 ≡ slots)
        × ((process_slots p filter slots false result w).1 ≡ result)
  unfolding process_slots
  process_slots_denied [] result w = (refl, refl)
  process_slots_denied (slot ∷ slots) result w =
      let (same, denied, ok, go_on) = process_signal-IsDenied slot.value w in
      let and_true : (result && true) ≡ result = ground arith in
      elim (Bool-cases slot.is_used) [
        | inl used ↦
            let rest =
              process_slots_denied slots (result && true)
                (process_signal p filter slot.value false w).world in
            rw (used, go_on, same, denied, ok)
              (ap (λ xs. record slot { is_used = true } ∷ xs) rest.0, rest.1 ∙ and_true)
        | inr unused ↦
            let rest = process_slots_denied slots result w in
            rw unused (ap (λ xs. record slot { is_used = false } ∷ xs) rest.0, rest.1)
      ]

module _ {W : Type 0} (filter : ℕ) (set : filter ≢ 0) where
  open_side-none :
      (q : World W) (side : Sign) (id : ℕ) (w : W) → open_side q filter side id w ≡ (true, w)
  unfolding open_side request
  open_side-none q plus id w = let h : (filter == 0) ≡ false = ground (arith, set) in rw h refl
  open_side-none q minus id w = let h : (filter == 0) ≡ false = ground (arith, set) in rw h refl
  open_side-none q neutral id w = refl

module _ {F W : Type 0} (p : World W) (filter : ℕ) (set : filter ≢ 0)
    (other : OrderType → ℕ → W → Bool × W) where
  open_part-same :
      (s : TradeSignalEntry F) (w : W)
      → open_part p filter s w ≡ open_part (record p { trade_request = other }) filter s w
  unfolding open_part
  open_part-same s w =
      let a = open_side-none filter set p (get_signal_open s) s.magic_id w in
      let b =
        open_side-none filter set (record p { trade_request = other }) (get_signal_open s)
          s.magic_id w in
      rw (a, b) refl

  process_signal-same :
      (s : TradeSignalEntry F) (allowed : Bool) (w : W)
      → process_signal p filter s allowed w
        ≡ process_signal (record p { trade_request = other }) filter s allowed w
  unfolding process_signal
  process_signal-same s allowed w =
      let w1 = (p.is_trade_allowed (close_part p filter s w)).1 in rw (open_part-same s w1) refl

  process_slots-same :
      (slots : List (Slot (TradeSignalEntry F))) (allowed result : Bool) (w : W)
      → process_slots p filter slots allowed result w
        ≡ process_slots (record p { trade_request = other }) filter slots allowed result w
  unfolding process_slots
  process_slots-same [] allowed result w = refl
  process_slots-same (slot ∷ slots) allowed result w =
      let o = process_signal (record p { trade_request = other }) filter slot.value allowed w in
      rw
        (
          process_signal-same slot.value allowed w,
          process_slots-same slots o.allowed (result && o.ok) o.world,
          process_slots-same slots allowed result w,
        )
        refl

  -- With a signal filter set, ProcessSignals sends no trade request: whatever a request would do, its
  -- outcome is the same.
  pub process_signals_filtered :
      (blank : TradeSignalEntry F) (now : ℕ) (m : SignalManager F) (w : W)
      → process_signals p filter blank now m w
        ≡ process_signals (record p { trade_request = other }) filter blank now m w
  unfolding process_signals processed_result
  process_signals_filtered blank now m w =
      ap
        (λ r.
          processed_result p filter r.1 r.2
            (refresh blank now (record m { active = record (m.active) { slots = r.0 } })))
        (process_slots-same m.active.slots true true (p.reset_last_error w))
