-- ===== src/Examples/Dicts.antt =====
-- The dictionary in list mode: include/classes/DictObject.mqh.
use ea31337_fft.Prelude.{
  ℕ, ◌+◌, ◌≡◌, ◌≢◌, ◌⊎◌, ◌==◌, leb, Bool, false, refl, arith, true, some, [], ◌∷◌, length,
  get_elem?,
}
use ea31337_fft.Dict.Slots.{Slot, ListDict, used_at, option_used, push, unset}
use ea31337_fft.Dict.Counted.{IsCounted, count_used, Added}
use ea31337_fft.Dict.Push.{push-IsCounted, grown_size}
use ea31337_fft.Dict.Unset.{unset-IsCounted, unset-kept}

abbrev pub used_slot {ℓ} : {V : Type ℓ} → V → Slot V
used_slot v = record { is_used = true; was_used = true; value = v }

-- Three values in three slots.
abbrev full : ListDict ℕ
full = record { slots = used_slot 7 ∷ used_slot 8 ∷ used_slot 9 ∷ []; list_index = 3; num_used = 3 }

full-IsCounted : IsCounted full
unfolding count_used
full-IsCounted = refl

-- Memory for 11 slots.
abbrev memory : ℕ → Bool
memory n = leb n 11

-- The array of three slots is full, and grows to 10.
push-IsCounted_example :
    ((full.num_used ≡ length full.slots)
      × (memory (grown_size full) ≡ false)
      × (push memory 0 5 full ≡ some (false, full)))
    ⊎ ((d' : ListDict ℕ) × (push memory 0 5 full ≡ some (true, d'))
        × Added (λ n. n == 5) 5 full d'
        × (((full.num_used ≡ length full.slots)
              × (memory (grown_size full) ≡ true)
              × (length d'.slots ≡ grown_size full))
            ⊎ ((full.num_used ≢ length full.slots) × (length d'.slots ≡ length full.slots))))
push-IsCounted_example = push-IsCounted memory 0 5 full (λ n. n == 5) full-IsCounted

unset-IsCounted_example :
    IsCounted (unset 0 full)
    × ((unset 0 full).num_used + 1 ≡ full.num_used)
    × (length (unset 0 full).slots ≡ length full.slots)
unfolding used_at option_used
unset-IsCounted_example = unset-IsCounted 0 full full-IsCounted refl

unset-kept_example : get_elem? (unset 0 full).slots 1 ≡ get_elem? full.slots 1
unfolding unset used_at option_used
unset-kept_example = unset-kept 0 1 full (λ e. ground (arith, e)) refl refl
