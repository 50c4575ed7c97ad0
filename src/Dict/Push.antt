-- ===== src/Dict/Push.antt =====
-- A push stores its value, growing the array where it is full, unless the platform has no memory left.
use ea31337_fft.Prelude.{
  ℕ, zero, suc, ◌+◌, ◌*◌, ◌/◌, ◌≤◌, min, max, ◌≡◌, ◌⊎◌, refl, ◌∙◌, ap, arith, Bool, true, false,
  Option, some, List, [], ◌∷◌, leb, ◌==◌, length, replicate, Bool-cases, inl, inr,
}
use ea31337_fft.Dict.Slots.{
  Slot, ListDict, insert_after, copy_slots, succeed, resize, grow_up, insert_grown, push,
  ignore_result, pushed,
}
use ea31337_fft.Dict.Values.{holding, holding-replicate}
use ea31337_fft.Dict.Counted.{count_used, count_used-le, IsCounted, Added, insert_value-Added}
use ea31337_fft.Prelude.{◌≢◌}
use ea31337_fft.Prelude.{◌<◌}

module _ {ℓ} {V : Type ℓ} where
  -- A dictionary results, it counts its slots, and it holds so many values, so many of them passing
  -- the test `f`, in so many slots.
  abbrev Results : (V → Bool) → Option (ListDict V) → ℕ → ℕ → ℕ → Type ℓ
  Results f o used hold size =
      (d : ListDict V) × (o ≡ some d)
      × IsCounted d
      × (d.num_used ≡ used)
      × (holding f d.slots ≡ hold)
      × (length d.slots ≡ size)

  copy_slots-Results :
      (f : V → Bool) (slots : List (Slot V)) (acc : ListDict V)
      → IsCounted acc
      → acc.num_used + count_used slots ≤ length acc.slots
      → Results f
          (copy_slots slots (some acc))
          (acc.num_used + count_used slots)
          (holding f acc.slots + holding f slots)
          (length acc.slots)
  unfolding copy_slots count_used holding insert_after
  copy_slots-Results f [] acc c le = (acc, refl, c, omega arith, omega arith, refl)
  copy_slots-Results f (s ∷ ss) acc c le = elim (Bool-cases s.is_used) [
    | inl used ↦
        let (d, put, (cd, more, held, _), same) =
          insert_value-Added f s.value acc c (ground (arith, le, used)) in
        let (e, copied, ce, total, hold, size) =
          copy_slots-Results f ss d cd (ground (arith, le, used, more, same)) in
        (
          e,
          rw used (ap (copy_slots ss) put ∙ copied),
          ce,
          ground (arith, total, more, used),
          ground (arith, hold, held, used),
          size ∙ same,
        )
    | inr unused ↦
        let (e, copied, ce, total, hold, size) =
          copy_slots-Results f ss acc c (ground (arith, le, unused)) in
        (e, rw unused copied, ce, ground (arith, total, unused), ground (arith, hold, unused), size)
  ]

  count_used-replicate : (n : ℕ) (s : Slot V) → s.is_used ≡ false → count_used (replicate n s) ≡ 0
  unfolding count_used
  count_used-replicate zero s h = refl
  count_used-replicate (suc n) s h = ground (arith, h, count_used-replicate n s h)

  length-replicate : (n : ℕ) (s : Slot V) → length (replicate n s) ≡ n
  length-replicate zero s = refl
  length-replicate (suc n) s = ap suc (length-replicate n s)

  -- The size to which GrowUp resizes.
  abbrev pub grown_size : ListDict V → ℕ
  grown_size d = max 10 (length d.slots * 5 / 4)

  -- GrowUp of a full array where ArrayResize succeeds,
  grow_up-Results :
      (array_resize : ℕ → Bool) (blank : V) (d : ListDict V) (f : V → Bool)
      → IsCounted d
      → d.num_used ≡ length d.slots
      → array_resize (grown_size d) ≡ true
      → (e : ListDict V) × (grow_up array_resize blank d ≡ some (true, e))
        × IsCounted e
        × (e.num_used ≡ d.num_used)
        × (holding f e.slots ≡ holding f d.slots)
        × (length e.slots ≡ grown_size d)
  unfolding grow_up resize
  grow_up-Results array_resize blank d f c full ok =
      let size = grown_size d in
      let slot : Slot V = record { is_used = false; was_used = false; value = blank } in
      let fresh : ListDict V = record {
        slots = replicate size slot;
        list_index = 0;
        num_used = 0;
      } in
      let (e, copied, ce, total, hold, len) =
        copy_slots-Results f d.slots fresh (count_used-replicate size slot refl)
          (omega (arith, length-replicate size slot, c, full)) in
      let larger : leb size (min d.num_used (length d.slots)) ≡ false = ground (arith, full) in
      (
        e,
        rw (larger, ok) (unfold succeed in ap succeed copied),
        ce,
        omega (arith, total, c),
        omega (arith, hold, holding-replicate f size slot refl),
        len ∙ length-replicate size slot,
      )

  -- and where it fails.
  grow_up-fails :
      (array_resize : ℕ → Bool) (blank : V) (d : ListDict V)
      → d.num_used ≡ length d.slots
      → array_resize (grown_size d) ≡ false
      → grow_up array_resize blank d ≡ some (false, d)
  unfolding grow_up resize
  grow_up-fails array_resize blank d full fails =
      let larger : leb (grown_size d) (min d.num_used (length d.slots)) ≡ false =
        ground (arith, full) in
      rw (larger, fails) refl

  -- What is inserted after GrowUp has succeeded.
  insert_grown-Added :
      (f : V → Bool) (v : V) (o : Option (Bool × ListDict V)) (e : ListDict V)
      → o ≡ some (true, e)
      → IsCounted e
      → e.num_used < length e.slots
      → (r : ListDict V) × (insert_grown v o ≡ some (true, r))
        × Added f v e r
        × (length r.slots ≡ length e.slots)
  unfolding insert_grown succeed
  insert_grown-Added f v o e grown c room =
      let (r, put, added, len) = insert_value-Added f v e c room in
      (r, ap (insert_grown v) grown ∙ ap succeed put, added, len)

  -- Push on a dictionary that counts its slots ends. It fails, and changes nothing, where the array is
  -- full and ArrayResize fails on its size grown by a quarter, to 10 at least. Else it succeeds: the
  -- dictionary counts its slots, of which one more is in use; a slot in use holds the value; as many of
  -- its values pass a test as before, and one more where the pushed value passes it; and the array has
  -- the grown size where it was full, and its old size where not.
  pub push-IsCounted :
      (array_resize : ℕ → Bool) (blank v : V) (d : ListDict V) (f : V → Bool)
      → IsCounted d
      → ((d.num_used ≡ length d.slots)
          × (array_resize (grown_size d) ≡ false)
          × (push array_resize blank v d ≡ some (false, d)))
        ⊎ ((d' : ListDict V) × (push array_resize blank v d ≡ some (true, d'))
            × Added f v d d'
            × (((d.num_used ≡ length d.slots)
                  × (array_resize (grown_size d) ≡ true)
                  × (length d'.slots ≡ grown_size d))
                ⊎ ((d.num_used ≢ length d.slots) × (length d'.slots ≡ length d.slots))))
  unfolding push
  push-IsCounted array_resize blank v d f c = elim (Bool-cases (d.num_used == length d.slots)) [
    | inl full ↦
        let all : d.num_used ≡ length d.slots = ground (arith, full) in
        elim (Bool-cases (array_resize (grown_size d))) [
          | inl ok ↦
              let (e, grown, ce, same, hold, size) =
                grow_up-Results array_resize blank d f c all ok in
              let (r, put, (cr, more, held, stored), len) =
                insert_grown-Added f v _ e grown ce (omega (arith, same, size, all)) in
              inr (
                r,
                rw full put,
                (cr, omega (arith, more, same), omega (arith, held, hold), stored),
                inl (all, ok, len ∙ size),
              )
          | inr fails ↦ inl (
            all,
            fails,
            rw full (
                unfold insert_grown in
                ap (insert_grown v) (grow_up-fails array_resize blank d all fails)),
          )
        ]
    | inr room ↦
        let (r, put, added, len) =
          insert_value-Added f v d c (ground (arith, room, c, count_used-le d.slots)) in
        inr (r, rw room (unfold succeed in ap succeed put), added, inr (ground (arith, room), len))
  ]

  -- Where memory suffices, a push gives a dictionary that counts its slots, one of them more in use.
  pub pushed-IsCounted :
      (blank v : V) (d : ListDict V)
      → IsCounted d
      → (d' : ListDict V) × (pushed blank v d ≡ some d')
        × IsCounted d'
        × (d'.num_used ≡ d.num_used + 1)
  unfolding pushed ignore_result
  pushed-IsCounted blank v d c = elim (push-IsCounted (λ n. true) blank v d (λ x. true) c) [
    | inl (full, fails, e) ↦ absurd (ground (arith, fails))
    | inr (r, put, (cr, more, _, _), _) ↦ (r, ap ignore_result put, cr, more)
  ]
