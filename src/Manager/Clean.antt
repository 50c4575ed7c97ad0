-- ===== src/Manager/Clean.antt =====
-- After Refresh no active signal is processed or expired.
use native.Mathlib.Decide.{ℕ_discrete}
use ea31337_fft.Prelude.{
  ℕ, zero, suc, ◌+◌, ◌-◌, ◌≤◌, ◌<◌, ◌≡◌, refl, sym, ◌∙◌, ap, arith, true, false, Option, none, some,
  length, get_elem?, Bool-cases, inl, inr, ◌⊎◌, ltb, ap₂, ◌≢◌,
}
use ea31337_fft.Signal.Entry.{TradeSignalEntry}
use ea31337_fft.Dict.Slots.{option_used, used_at, unset, seek}
use ea31337_fft.Dict.Unset.{unset-IsCounted, unset-kept, used_at-lt}
use ea31337_fft.Dict.Seek.{seek-some, seek-none}
use ea31337_fft.Manager.Refresh.{
  SignalManager, option_value, signal_at, is_done, refresh_signal, next_start, refresh_from,
  refresh, checked_at,
}
use ea31337_fft.Manager.Total.{AllCounted, held, refresh_signal-done, refresh_signal-other}

Option-cases : (o : Option ℕ) → (o ≡ none) ⊎ ((i : ℕ) × (o ≡ some i))
Option-cases none = inl refl
Option-cases (some i) = inr (i, refl)

module _ {F : Type 0} (blank : TradeSignalEntry F) where
  -- No used slot before the position holds a signal that is to be removed.
  abbrev IsCleanBelow : ℕ → SignalManager F → Type 0
  IsCleanBelow start m =
      (j : ℕ)
      → j < start
      → used_at m.active.slots j ≡ true
      → is_done blank (signal_at blank j m) ≡ false

  turn_stop :
      (fuel start : ℕ) (m : SignalManager F)
      → seek start m.active ≡ none
      → refresh_from blank (suc fuel) start (some m) ≡ some m
  unfolding refresh_from
  turn_stop fuel start m h = rw (h, refresh_from) refl

  turn_at :
      (fuel start i : ℕ) (m : SignalManager F)
      → seek start m.active ≡ some i
      → refresh_from blank (suc fuel) start (some m)
        ≡ refresh_from blank fuel (next_start blank i m) (refresh_signal blank i m)
  unfolding refresh_from
  turn_at fuel start i m h = rw (h, refresh_from) refl

  -- Up to the position that is found there is nothing to remove.
  clean_ahead :
      (start i : ℕ) (m : SignalManager F)
      → seek start m.active ≡ some i
      → IsCleanBelow start m
      → IsCleanBelow i m
  clean_ahead start i m h clean j lt used = elim (Bool-cases (ltb j start)) [
    | inl before ↦ clean j (ground (arith, before)) used
    | inr after ↦
        let (le, at, free) = seek-some m.active start i h in
        let unused = free j (ground (arith, after)) lt in absurd (ground (arith, used, unused))
  ]

  -- A removal leaves the slots before it clean.
  clean_moved :
      (i : ℕ) (m m' : SignalManager F)
      → used_at m.active.slots i ≡ true
      → m'.active ≡ unset i m.active
      → IsCleanBelow i m
      → IsCleanBelow i m'
  unfolding signal_at used_at
  clean_moved i m m' used e clean j lt h =
      let ne : i ≢ j = omega arith in
      let still : used_at (unset i m.active).slots j ≡ true =
        sym (ap (λ d. used_at d.slots j) e) ∙ h in
      let slot : get_elem? m'.active.slots j ≡ get_elem? m.active.slots j =
        ap (λ d. get_elem? d.slots j) e ∙ unset-kept i j m.active ne used still in
      ap (λ o. is_done blank (option_value blank o)) slot
      ∙ clean j lt (sym (ap option_used slot) ∙ h)

  next_start-done :
      (i : ℕ) (m : SignalManager F)
      → is_done blank (signal_at blank i m) ≡ true
      → next_start blank i m ≡ i
  unfolding next_start
  next_start-done i m h = rw (h, next_start) refl

  next_start-other :
      (i : ℕ) (m : SignalManager F)
      → is_done blank (signal_at blank i m) ≡ false
      → next_start blank i m ≡ i + 1
  unfolding next_start
  next_start-other i m h = rw (h, next_start) refl

  clean_past :
      (i : ℕ) (m : SignalManager F)
      → IsCleanBelow i m
      → is_done blank (signal_at blank i m) ≡ false
      → IsCleanBelow (i + 1) m
  clean_past i m clean h j lt used = elim (ℕ_discrete i j) [
    | yes e ↦ rw (sym e) h
    | no ne ↦ clean j (omega arith) used
  ]

  -- Refresh, from a position on.
  abbrev Refreshed : SignalManager F → Option (SignalManager F) → Type 0
  Refreshed m o =
      (m' : SignalManager F) × (o ≡ some m')
      × AllCounted m'
      × (held m' ≡ held m)
      × ((j : ℕ) → used_at m'.active.slots j ≡ true → is_done blank (signal_at blank j m') ≡ false)

  refresh_from-Refreshed :
      (fuel start : ℕ) (m : SignalManager F)
      → AllCounted m
      → start ≤ length m.active.slots
      → length m.active.slots - start + m.active.num_used < fuel
      → IsCleanBelow start m
      → Refreshed m (refresh_from blank fuel start (some m))
  refresh_from-Refreshed zero start m c le lt clean = absurd (omega arith)
  refresh_from-Refreshed (suc fuel) start m c le lt clean =
      elim (Option-cases (seek start m.active)) [
        | inl end ↦ (
          m,
          turn_stop fuel start m end,
          c,
          refl,
          λ j used. elim (Bool-cases (ltb j start)) [
            | inl before ↦ clean j (ground (arith, before)) used
            | inr after ↦
                let unused = seek-none m.active start j end (ground (arith, after)) in
                absurd (ground (arith, used, unused))
          ],
        )
        | inr (i, at) ↦
            let (from, used, free) = seek-some m.active start i at in
            let inside = used_at-lt m.active.slots i used in
            elim (Bool-cases (is_done blank (signal_at blank i m))) [
              | inl done ↦
                  let (m1, e, (c1, h1, a1, l1)) = refresh_signal-done blank i m c used done in
                  let (cu, less, size) = unset-IsCounted i m.active c.0 used in
                  let len = ap (λ d. length d.slots) a1 ∙ size in
                  let num = ap (λ d. d.num_used) a1 in
                  let (m2, r, c2, h2, k2) =
                    refresh_from-Refreshed fuel i m1 c1 (omega (arith, len, inside))
                      (omega (arith, len, num, less, lt, from, inside))
                      (clean_moved i m m1 used a1 (clean_ahead start i m at clean)) in
                  (
                    m2,
                    turn_at fuel start i m at
                        ∙ ap₂ (refresh_from blank fuel) (next_start-done i m done) e
                        ∙ r,
                    c2,
                    h2 ∙ h1,
                    k2,
                  )
              | inr other ↦
                  let (m2, r, c2, h2, k2) =
                    refresh_from-Refreshed fuel (i + 1) m c (omega (arith, inside))
                      (omega (arith, lt, from, inside))
                      (clean_past i m (clean_ahead start i m at clean) other) in
                  (
                    m2,
                    turn_at fuel start i m at
                        ∙ ap₂ (refresh_from blank fuel) (next_start-other i m other)
                            (refresh_signal-other blank i m other)
                        ∙ r,
                    c2,
                    h2,
                    k2,
                  )
            ]
      ]

  -- Where memory suffices for its pushes, Refresh ends on a manager whose dictionaries count their
  -- slots. It holds as many signals afterwards as before, none of its active signals is processed or
  -- expired, and the time of the last check is now.
  pub refresh_lem :
      (now : ℕ) (m : SignalManager F)
      → AllCounted m
      → (m' : SignalManager F) × (refresh blank now m ≡ some m')
        × AllCounted m'
        × (held m' ≡ held m)
        × ((j : ℕ)
            → used_at m'.active.slots j ≡ true
            → is_done blank (signal_at blank j m') ≡ false)
        × (m'.last_check ≡ now)
  unfolding refresh checked_at signal_at
  refresh_lem now m c =
      let (m1, r, c1, h1, k1) =
        refresh_from-Refreshed (length m.active.slots + m.active.num_used + 1) 0 m c (omega arith)
          (omega arith) (λ j lt used. absurd (omega arith)) in
      (record m1 { last_check = now }, ap (checked_at blank now) r, c1, h1, k1, refl)
