-- ===== src/Dict/Unset.antt =====
-- Removing a slot, and what is left of the others.
use ea31337_fft.Prelude.{
  ℕ, zero, suc, ◌+◌, ◌<◌, ◌≡◌, ◌≢◌, refl, ◌∙◌, ap, arith, true, false, some, List, [], ◌∷◌,
  if◌then◌else◌, length, get_elem?, length-set, get_elem?-set_ne, inl, inr, Bool-cases, none,
  Option, get_elem?-set_self, ◌≤◌, ◌==◌, ◌-◌, sym,
}
use native.Mathlib.Decide.{ℕ_discrete}
use ea31337_fft.Dict.Slots.{
  Slot, option_used, used_at, clear_used, free_slot, copy_to, unset, fill_hole, ListDict,
}
use ea31337_fft.Dict.Counted.{count_used, count_used-set, IsCounted, count_used-le}

module _ {ℓ} {V : Type ℓ} where
  get_elem?-some :
      (xs : List (Slot V)) (i : ℕ) → i < length xs → (s : Slot V) × (get_elem? xs i ≡ some s)
  get_elem?-some [] i h = absurd (omega arith)
  get_elem?-some (x ∷ xs) zero h = (x, refl)
  get_elem?-some (x ∷ xs) (suc i) h = get_elem?-some xs i (omega arith)

  pub used_at-lt : (xs : List (Slot V)) (i : ℕ) → used_at xs i ≡ true → i < length xs
  unfolding used_at option_used
  used_at-lt [] i h = absurd (ground (arith, h))
  used_at-lt (x ∷ xs) zero h = omega arith
  used_at-lt (x ∷ xs) (suc i) h = omega (arith, used_at-lt xs i h)

  -- Freeing a slot.
  free_slot-count :
      (xs : List (Slot V)) (i : ℕ)
      → i < length xs
      → (count_used (free_slot i xs) + (if used_at xs i then 1 else 0) ≡ count_used xs)
        × (length (free_slot i xs) ≡ length xs)
  unfolding free_slot clear_used
  free_slot-count xs i h =
      let (s, e) = get_elem?-some xs i h in
      let cleared : Slot V = record s { is_used = false } in
      rw e (omega (arith, count_used-set xs i cleared h), length-set xs i cleared)

  -- Copying a slot over another.
  copy_to-count :
      (xs : List (Slot V)) (hole last : ℕ)
      → hole < length xs
      → last < length xs
      → used_at xs hole ≡ false
      → (count_used (copy_to (get_elem? xs last) hole xs)
          ≡ count_used xs + (if used_at xs last then 1 else 0))
        × (length (copy_to (get_elem? xs last) hole xs) ≡ length xs)
        × (hole ≢ last → used_at (copy_to (get_elem? xs last) hole xs) last ≡ used_at xs last)
  unfolding copy_to used_at option_used
  copy_to-count xs hole last h k free =
      let (s, e) = get_elem?-some xs last k in
      rw e (
        ground (arith, count_used-set xs hole s h, free),
        length-set xs hole s,
        λ ne. ap option_used (get_elem?-set_ne xs hole last s ne) ∙ ap option_used e,
      )

  used_at-free_slot :
      (xs : List (Slot V)) (i : ℕ) → i < length xs → used_at (free_slot i xs) i ≡ false
  unfolding free_slot clear_used used_at option_used
  used_at-free_slot xs i h =
      let (s, e) = get_elem?-some xs i h in
      rw e (ap option_used (get_elem?-set_self xs i (record s { is_used = false }) h))

  fill_hole-count :
      (hole : ℕ) (d : ListDict V)
      → hole < length d.slots
      → used_at d.slots hole ≡ false
      → count_used d.slots + 1 ≡ d.num_used
      → d.num_used ≤ length d.slots
      → IsCounted (fill_hole hole d)
        × ((fill_hole hole d).num_used + 1 ≡ d.num_used)
        × (length (fill_hole hole d).slots ≡ length d.slots)
  unfolding fill_hole
  fill_hole-count hole d at free c le = elim (Bool-cases (hole == d.num_used - 1)) [
    | inl same ↦ rw same (omega (arith, c), omega (arith, c), refl)
    | inr other ↦
        let last = d.num_used - 1 in
        let inside : last < length d.slots = omega (arith, c, le) in
        let (copied, len, kept) = copy_to-count d.slots hole last at inside free in
        let (freed, len2) =
          free_slot-count (copy_to (get_elem? d.slots last) hole d.slots) last
            (omega (arith, len, inside)) in
        let same_use = kept (ground (arith, other)) in
        rw other (ground (arith, same_use, freed, copied, c), omega (arith, c), len2 ∙ len)
  ]

  -- Removing a slot in use through an iterator: the dictionary still counts its slots, one of them
  -- less in use, and it has as many slots as before.
  pub unset-IsCounted :
      (i : ℕ) (d : ListDict V)
      → IsCounted d
      → used_at d.slots i ≡ true
      → IsCounted (unset i d)
        × ((unset i d).num_used + 1 ≡ d.num_used)
        × (length (unset i d).slots ≡ length d.slots)
  unfolding unset
  unset-IsCounted i d c used =
      let inside = used_at-lt d.slots i used in
      let (freed, len) = free_slot-count d.slots i inside in
      let one : count_used (free_slot i d.slots) + 1 ≡ count_used d.slots =
        ground (arith, freed, used) in
      let (counted, less, size) =
        fill_hole-count i (record d { slots = free_slot i d.slots }) (omega (arith, len, inside))
          (used_at-free_slot d.slots i inside) (omega (arith, one, c))
          (omega (arith, len, c, count_used-le d.slots)) in
      rw used (counted, less, size ∙ len)

  clear_used-other :
      (o : Option (Slot V)) (i j : ℕ) (xs : List (Slot V))
      → i ≢ j
      → get_elem? (clear_used o i xs) j ≡ get_elem? xs j
  unfolding clear_used
  clear_used-other none i j xs ne = refl
  clear_used-other (some s) i j xs ne = get_elem?-set_ne xs i j (record s { is_used = false }) ne

  copy_to-other :
      (o : Option (Slot V)) (i j : ℕ) (xs : List (Slot V))
      → i ≢ j
      → get_elem? (copy_to o i xs) j ≡ get_elem? xs j
  unfolding copy_to
  copy_to-other none i j xs ne = refl
  copy_to-other (some s) i j xs ne = get_elem?-set_ne xs i j s ne

  clear_used-length :
      (o : Option (Slot V)) (i : ℕ) (xs : List (Slot V)) → length (clear_used o i xs) ≡ length xs
  unfolding clear_used
  clear_used-length none i xs = refl
  clear_used-length (some s) i xs = length-set xs i (record s { is_used = false })

  -- A slot that is in use after another one was freed is as it was.
  free_slot-kept :
      (xs : List (Slot V)) (i j : ℕ)
      → used_at (free_slot i xs) j ≡ true
      → get_elem? (free_slot i xs) j ≡ get_elem? xs j
  unfolding free_slot
  free_slot-kept xs i j used = elim (ℕ_discrete i j) [
    | yes e ↦
        let inside : j < length xs =
          omega
            (arith, used_at-lt (free_slot i xs) j used, clear_used-length (get_elem? xs i) i xs) in
        let gone : used_at (free_slot i xs) j ≡ false = rw e (used_at-free_slot xs j inside) in
        absurd (ground (arith, used, gone))
    | no ne ↦ clear_used-other (get_elem? xs i) i j xs ne
  ]

  filled :
      (hole : ℕ) (d : ListDict V)
      → (hole == d.num_used - 1) ≡ false
      → (fill_hole hole d).slots
        ≡ free_slot (d.num_used - 1) (copy_to (get_elem? d.slots (d.num_used - 1)) hole d.slots)
  unfolding fill_hole
  filled hole d h = rw h refl

  not_filled :
      (hole : ℕ) (d : ListDict V)
      → (hole == d.num_used - 1) ≡ true
      → (fill_hole hole d).slots ≡ d.slots
  unfolding fill_hole
  not_filled hole d h = rw h refl

  fill_hole-kept :
      (hole j : ℕ) (d : ListDict V)
      → hole ≢ j
      → used_at (fill_hole hole d).slots j ≡ true
      → get_elem? (fill_hole hole d).slots j ≡ get_elem? d.slots j
  fill_hole-kept hole j d ne h = elim (Bool-cases (hole == d.num_used - 1)) [
    | inl same ↦ ap (λ xs. get_elem? xs j) (not_filled hole d same)
    | inr other ↦
        let last = d.num_used - 1 in
        let copied = copy_to (get_elem? d.slots last) hole d.slots in
        ap (λ xs. get_elem? xs j) (filled hole d other)
        ∙ free_slot-kept copied last j (sym (ap (λ xs. used_at xs j) (filled hole d other)) ∙ h)
        ∙ copy_to-other (get_elem? d.slots last) hole j d.slots ne
  ]

  -- Every other slot that is in use after a removal is as it was.
  pub unset-kept :
      (i j : ℕ) (d : ListDict V)
      → i ≢ j
      → used_at d.slots i ≡ true
      → used_at (unset i d).slots j ≡ true
      → get_elem? (unset i d).slots j ≡ get_elem? d.slots j
  unfolding free_slot
  unset-kept i j d ne used h =
      let freed : ListDict V = record d { slots = free_slot i d.slots } in
      let removed : unset i d ≡ fill_hole i freed = unfold unset in rw used refl in
      ap (λ e. get_elem? e.slots j) removed
      ∙ fill_hole-kept i j freed ne (sym (ap (λ e. used_at e.slots j) removed) ∙ h)
      ∙ clear_used-other (get_elem? d.slots i) i j d.slots ne

  copy_to_self :
      (xs : List (Slot V)) (hole last : ℕ)
      → hole < length xs
      → last < length xs
      → get_elem? (copy_to (get_elem? xs last) hole xs) hole ≡ get_elem? xs last
  unfolding copy_to
  copy_to_self xs hole last h k =
      let (s, e) = get_elem?-some xs last k in rw e (get_elem?-set_self xs hole s h)

  -- The slot of a removed value that is not the last one then holds the last one.
  pub unset-moved :
      (i : ℕ) (d : ListDict V)
      → used_at d.slots i ≡ true
      → i + 1 < d.num_used
      → d.num_used ≤ length d.slots
      → get_elem? (unset i d).slots i ≡ get_elem? d.slots (d.num_used - 1)
  unfolding free_slot
  unset-moved i d used lt le =
      let last = d.num_used - 1 in
      let freed : ListDict V = record d { slots = free_slot i d.slots } in
      let removed : unset i d ≡ fill_hole i freed = unfold unset in rw used refl in
      let size : length freed.slots ≡ length d.slots =
        clear_used-length (get_elem? d.slots i) i d.slots in
      let copied = copy_to (get_elem? freed.slots last) i freed.slots in
      ap (λ e. get_elem? e.slots i) removed
      ∙ ap (λ xs. get_elem? xs i) (filled i freed (ground (arith, lt)))
      ∙ clear_used-other (get_elem? copied last) last i copied (omega arith)
      ∙ copy_to_self freed.slots i last (omega (arith, size)) (omega (arith, size))
      ∙ clear_used-other (get_elem? d.slots i) i last d.slots (omega arith)
