-- ===== src/Dict/Seek.antt =====
-- What an iterator finds.
use ea31337_fft.Prelude.{
  ℕ, zero, suc, ◌+◌, ◌≤◌, ◌<◌, ◌≡◌, refl, arith, true, false, ◌&&◌, none, some, List, [], ◌∷◌, leb,
  Bool-cases, inl, inr,
}
use ea31337_fft.Dict.Slots.{Slot, ListDict, option_used, used_at, seek_from, seek}

module _ {ℓ} {V : Type ℓ} where
  -- A search that finds nothing has left no used slot behind it.
  seek_from-none :
      (xs : List (Slot V)) (here start j : ℕ)
      → seek_from xs here start ≡ none
      → start ≤ here + j
      → used_at xs j ≡ false
  unfolding seek_from used_at option_used
  seek_from-none [] here start j h le = refl
  seek_from-none (x ∷ xs) here start zero h le = ground (arith, h, le)
  seek_from-none (x ∷ xs) here start (suc j) h le =
      seek_from-none xs (here + 1) start j (ground (arith, h, le)) (omega arith)

  -- A search finds the first used slot from its start on.
  seek_from-some :
      (xs : List (Slot V)) (here start i : ℕ)
      → seek_from xs here start ≡ some i
      → (k : ℕ) × (i ≡ here + k)
        × (start ≤ i)
        × (used_at xs k ≡ true)
        × ((j : ℕ) → start ≤ here + j → j < k → used_at xs j ≡ false)
  unfolding seek_from used_at option_used
  seek_from-some [] here start i h = absurd (ground (arith, h))
  seek_from-some (x ∷ xs) here start i h = elim (Bool-cases (x.is_used && leb start here)) [
    | inl found ↦ (
      0,
      ground (arith, h, found),
      ground (arith, h, found),
      ground (arith, h, found),
      λ j le lt. absurd (omega arith),
    )
    | inr other ↦
        let (k, at, le, used, before) =
          seek_from-some xs (here + 1) start i (ground (arith, h, other)) in
        (
          suc k,
          omega (arith, at),
          le,
          used,
          elim [
            | zero ↦ λ from lt. ground (arith, other, from)
            | suc j ↦ λ from lt. before j (omega arith) (omega arith)
          ],
        )
  ]

  pub seek-none :
      (d : ListDict V) (start j : ℕ) → seek start d ≡ none → start ≤ j → used_at d.slots j ≡ false
  unfolding seek
  seek-none d start j h le = seek_from-none d.slots 0 start j h (omega arith)

  pub seek-some :
      (d : ListDict V) (start i : ℕ)
      → seek start d ≡ some i
      → (start ≤ i)
        × (used_at d.slots i ≡ true)
        × ((j : ℕ) → start ≤ j → j < i → used_at d.slots j ≡ false)
  unfolding seek
  seek-some d start i h =
      let (k, at, le, used, before) = seek_from-some d.slots 0 start i h in
      let same : i ≡ k = omega (arith, at) in
      (le, rw same used, λ j from lt. before j (omega arith) (omega (arith, same)))
