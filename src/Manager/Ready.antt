-- ===== src/Manager/Ready.antt =====
-- When the manager is ready.
use ea31337_fft.Prelude.{
  ℕ, ◌+◌, ◌≡◌, refl, arith, Bool, true, false, List, [], ◌∷◌, ltb, ◌&&◌, if◌then◌else◌,
}
use ea31337_fft.Manager.Refresh.{SignalManager, is_ready}

-- Every one of the times is past the bound.
unfoldable pub all_after : ℕ → List ℕ → Bool
all_after bound [] = true
all_after bound (u ∷ us) = ltb bound u && all_after bound us

module _ {F : Type 0} where
  -- The calls of IsReady one after the other: their answers are all negative.
  unfoldable pub never_ready : List ℕ → SignalManager F → Bool
  unfolding is_ready
  never_ready [] m = true
  never_ready (u ∷ us) m =
      let (ready, m') = is_ready true u m in
      let rest = never_ready us m' in if ready then false else rest

  -- Once the time is past the last check by more than the frequency, no call of IsReady at a later
  -- time answers true, until the last check is set by a refresh.
  pub never_ready_after :
      (us : List ℕ) (m : SignalManager F)
      → all_after (m.last_check + m.freq) us ≡ true
      → never_ready us m ≡ true
  unfolding never_ready all_after is_ready
  never_ready_after [] m h = refl
  never_ready_after (u ∷ us) m h = ground (arith, h, never_ready_after us m)
