-- ===== src/Dict/Values.antt =====
-- The values that a dictionary holds, as a bag: how many of them pass a test.
use ea31337_fft.Prelude.{
  ℕ, zero, suc, ◌+◌, ◌<◌, ◌≡◌, refl, arith, Bool, false, ◌&&◌, some, List, [], ◌∷◌, if◌then◌else◌,
  length, set, get_elem?, replicate,
}
use ea31337_fft.Dict.Slots.{Slot, option_used, used_at}
use ea31337_fft.Prelude.{true}

module _ {ℓ} {V : Type ℓ} where
  -- The values in use that pass a test.
  unfoldable pub holding : (V → Bool) → List (Slot V) → ℕ
  holding f [] = 0
  holding f (s ∷ ss) = (if s.is_used && f s.value then 1 else 0) + holding f ss

  -- Some slot in use holds the value.
  abbrev pub Stored : V → List (Slot V) → Type ℓ
  Stored v slots =
      (p : ℕ) × (get_elem? slots p ≡ some (record { is_used = true; was_used = true; value = v }))

  -- A write into a slot that is not in use adds the value that it writes.
  pub holding-set :
      (f : V → Bool) (slots : List (Slot V)) (i : ℕ) (s : Slot V)
      → i < length slots
      → used_at slots i ≡ false
      → holding f (set slots i s) ≡ holding f slots + (if s.is_used && f s.value then 1 else 0)
  unfolding holding used_at option_used
  holding-set f [] i s h free = absurd (omega arith)
  holding-set f (t ∷ ts) zero s h free = ground (arith, free)
  holding-set f (t ∷ ts) (suc i) s h free = omega (arith, holding-set f ts i s (omega arith) free)

  -- Slots that are not in use hold nothing.
  pub holding-replicate :
      (f : V → Bool) (n : ℕ) (s : Slot V) → s.is_used ≡ false → holding f (replicate n s) ≡ 0
  unfolding holding
  holding-replicate f zero s h = refl
  holding-replicate f (suc n) s h = ground (arith, h, holding-replicate f n s h)
