-- ===== src/Dict/Counted.antt =====
-- The number of used slots is what the dictionary says it is, and then no search runs out.
use native.Mathlib.Nat.{mod_self, mod-eq_of_lt, mod-lt}
use ea31337_fft.Prelude.{
  ℕ, zero, suc, ◌+◌, ◌%◌, ◌≤◌, ◌<◌, ◌≡◌, refl, sym, arith, true, false, Option, none, some, List,
  [], ◌∷◌, if◌then◌else◌, length, set, Bool-cases, inl, inr, ltb, length-set, get_elem?-set_self,
}
use native.Mathlib.Decide.{ℕ_discrete}
use ea31337_fft.Dict.Values.{holding, Stored, holding-set}
use ea31337_fft.Dict.Slots.{insert_value, put_at, Slot, ListDict, option_used, used_at, probe}
use ea31337_fft.Prelude.{Bool}

-- The position after one, round the end of the array.
next-lt : (n p : ℕ) → p + 1 < n → (p + 1) % n ≡ p + 1
next-lt n p h = mod-eq_of_lt h

next_end : (n p : ℕ) → p + 1 ≡ n → (p + 1) % n ≡ 0
next_end n p h = rw h (mod_self n)

module _ {ℓ} {V : Type ℓ} where
  unfoldable pub count_used : List (Slot V) → ℕ
  count_used [] = 0
  count_used (s ∷ ss) = (if s.is_used then 1 else 0) + count_used ss

  pub count_used-le : (slots : List (Slot V)) → count_used slots ≤ length slots
  unfolding count_used
  count_used-le [] = omega arith
  count_used-le (s ∷ ss) = ground (arith, count_used-le ss)

  -- Slots of which each is in use are all counted.
  all_used :
      (slots : List (Slot V))
      → ((i : ℕ) → i < length slots → used_at slots i ≡ true)
      → count_used slots ≡ length slots
  unfolding count_used used_at option_used
  all_used [] h = refl
  all_used (s ∷ ss) h =
      ground (arith, h 0 (omega arith), all_used ss (λ i b. h (suc i) (omega arith)))

  -- A write changes the count by the slot that it replaces.
  pub count_used-set :
      (slots : List (Slot V)) (i : ℕ) (s : Slot V)
      → i < length slots
      → count_used (set slots i s) + (if used_at slots i then 1 else 0)
        ≡ count_used slots + (if s.is_used then 1 else 0)
  unfolding count_used used_at option_used
  count_used-set [] i s h = absurd (omega arith)
  count_used-set (t ∷ ts) zero s h = omega arith
  count_used-set (t ∷ ts) (suc i) s h = omega (arith, count_used-set ts i s (omega arith))

  -- A round of a search that runs out.
  probe-none :
      (fuel : ℕ) (slots : List (Slot V)) (p : ℕ)
      → probe (suc fuel) slots p ≡ none
      → (used_at slots p ≡ true) × (probe fuel slots ((p + 1) % length slots) ≡ none)
  unfolding probe
  probe-none fuel slots p h = elim (Bool-cases (used_at slots p)) [
    | inl used ↦ (used, ground (arith, h, used))
    | inr unused ↦ absurd (ground (arith, h, unused))
  ]

  -- A search that runs out has seen every slot up to the end within its fuel in use,
  scan_ahead :
      (fuel : ℕ) (slots : List (Slot V)) (p j : ℕ)
      → probe fuel slots p ≡ none
      → p ≤ j
      → j < length slots
      → j < p + fuel
      → used_at slots j ≡ true
  unfolding probe
  scan_ahead zero slots p j h a b c = absurd (omega arith)
  scan_ahead (suc fuel) slots p j h a b c =
      let (used, later) = probe-none fuel slots p h in
      elim (ℕ_discrete p j) [
        | yes e ↦ rw (sym e) used
        | no ne ↦
            scan_ahead fuel slots (p + 1) j
              (rw (sym (next-lt (length slots) p (omega arith))) later) (omega arith) b
              (omega arith)
      ]

  -- and, past the end, every slot before its start as far as the fuel goes.
  scan_round :
      (fuel : ℕ) (slots : List (Slot V)) (p j : ℕ)
      → probe fuel slots p ≡ none
      → p < length slots
      → j < p
      → j + length slots < p + fuel
      → used_at slots j ≡ true
  unfolding probe
  scan_round zero slots p j h a b c = absurd (omega arith)
  scan_round (suc fuel) slots p j h a b c =
      let (used, later) = probe-none fuel slots p h in
      elim (ℕ_discrete (p + 1) (length slots)) [
        | yes e ↦
            scan_ahead fuel slots 0 j (rw (sym (next_end (length slots) p e)) later) (omega arith)
              (omega arith) (omega arith)
        | no ne ↦
            scan_round fuel slots (p + 1) j
              (rw (sym (next-lt (length slots) p (omega arith))) later) (omega arith) (omega arith)
              (omega arith)
      ]

  -- A search of as many rounds as there are slots runs out only on an array that is full.
  probe_full :
      (slots : List (Slot V)) (p : ℕ)
      → p < length slots
      → probe (length slots) slots p ≡ none
      → count_used slots ≡ length slots
  probe_full slots p lt h = all_used slots (λ j b. elim (Bool-cases (ltb j p)) [
    | inl before ↦
        scan_round (length slots) slots p j h lt (ground (arith, before))
          (ground (arith, before, lt))
    | inr after ↦
        scan_ahead (length slots) slots p j h (ground (arith, after)) b (ground (arith, b))
  ])

  -- What a search finds is not in use.
  pub probe_found :
      (fuel : ℕ) (slots : List (Slot V)) (p q : ℕ)
      → p < length slots
      → probe fuel slots p ≡ some q
      → (used_at slots q ≡ false) × (q < length slots)
  unfolding probe
  probe_found zero slots p q lt h = absurd (ground (arith, h))
  probe_found (suc fuel) slots p q lt h = elim (Bool-cases (used_at slots p)) [
    | inl used ↦
        probe_found fuel slots ((p + 1) % length slots) q (mod-lt (p + 1) (omega arith))
          (ground (arith, h, used))
    | inr unused ↦ (ground (arith, h, unused), ground (arith, h, unused, lt))
  ]

  -- The dictionary knows how many of its slots are in use.
  abbrev pub IsCounted : ListDict V → Type 0
  IsCounted d = count_used d.slots ≡ d.num_used

  -- A value was added to a dictionary: it counts its slots, of which one more is in use, it holds the
  -- value, and of the values that pass the test `f` one more where the value passes it.
  abbrev pub Added : (V → Bool) → V → ListDict V → ListDict V → Type ℓ
  Added f v d d' =
      IsCounted d'
      × (d'.num_used ≡ d.num_used + 1)
      × (holding f d'.slots ≡ holding f d.slots + (if f v then 1 else 0))
      × Stored v d'.slots

  -- Where the dictionary is not full, a value is put into a slot that was not in use.
  pub insert_value-Added :
      (f : V → Bool) (v : V) (d : ListDict V)
      → IsCounted d
      → d.num_used < length d.slots
      → (d' : ListDict V) × (insert_value v d ≡ some d')
        × Added f v d d'
        × (length d'.slots ≡ length d.slots)
  unfolding insert_value put_at
  insert_value-Added f v d c lt =
      placed (probe (length d.slots) d.slots (d.list_index % length d.slots)) refl
    where
      inside : d.list_index % length d.slots < length d.slots
      inside = mod-lt d.list_index (omega arith)

      placed :
          (found : Option ℕ)
          → probe (length d.slots) d.slots (d.list_index % length d.slots) ≡ found
          → (d' : ListDict V) × (put_at v d found ≡ some d')
            × Added f v d d'
            × (length d'.slots ≡ length d.slots)
      placed none e = absurd (omega (arith, probe_full d.slots _ inside e))
      placed (some q) e =
          let (free, at) = probe_found (length d.slots) d.slots _ q inside e in
          let slot : Slot V = record { is_used = true; was_used = true; value = v } in
          (
            _,
            refl,
            (
              ground (arith, count_used-set d.slots q slot at),
              refl,
              holding-set f d.slots q slot at free,
              (q, get_elem?-set_self d.slots q slot at),
            ),
            length-set d.slots q _,
          )
