-- ===== src/Refs/Weak/Laws.antt =====
-- A weak reference that is unset or assigned keeps the counters right, and does not fail.
use mathlib.Core.Path.{subst}
use ea31337_fft.Prelude.{
  ap, ◌∙◌, ℕ, ◌+◌, ◌≡◌, refl, arith, true, false, Option, none, some, ◌==◌, Bool-cases, inl, inr,
  length, get_elem?, set, ◌⊎◌, ◌<◌,
}
use ea31337_fft.Refs.Heap.{Counter, Heap, dec, set_object, set_counter, set_weak}
use ea31337_fft.Refs.Counts.{
  points, count_refs, count_refs-set, count_refs-le, length-set_refs, At, IsCounting,
}
use ea31337_fft.Refs.Local.{
  Elsewhere, eq_self, count_other, counter-lt_next, local-IsCounting, delete_object-cleared,
}
use ea31337_fft.Refs.Strong.Laws.{dec_lem}
use ea31337_fft.Refs.Weak.{release_weak, last_weak, clear_weak, free_counter}

-- The last weak reference to an object that no strong one points to deletes it, and its counter.
last_weak-kept :
    (k : ℕ) (c : Counter) (h : Heap) {x : Option ℕ}
    → c.deleted ≡ false
    → h.object c.ptr_object ≡ some x
    → last_weak k c h
      ≡ some (
          set_counter k none (set_object c.ptr_object none (set_object c.ptr_object (some none) h)))
unfolding last_weak free_counter
last_weak-kept k c h kept live =
    rw (kept, last_weak, live)
      (ap (free_counter k) (delete_object-cleared c.ptr_object _ (rw (eq_self c.ptr_object) refl)))

module _ (i a : ℕ) (h : Heap) (c : Counter) (ok : IsCounting h)
    (here : get_elem? h.weak i ≡ some (some a)) (counted : h.counter a ≡ some c)
    (weak : c.num_weak_refs ≡ count_refs a h.weak) where
  one_less : count_refs a (set h.weak i none) + 1 ≡ count_refs a h.weak
  one_less =
      let here_one : points a (some a) ≡ 1 = ground arith in
      omega (arith, count_refs-set a h.weak i none here, here_one)

  others : (b : ℕ) → (a == b) ≡ false → count_refs b (set h.weak i none) ≡ count_refs b h.weak
  others b ne = count_other a b h.weak i (some a) none here (rw ne refl) refl

  left : dec c.num_weak_refs ≡ count_refs a (set h.weak i none)
  left = omega (
    arith,
    dec_lem c.num_weak_refs (omega (arith, weak, one_less))
        (omega (arith, weak, count_refs-le a h.weak, ok.few_weak)),
    weak,
    one_less,
  )

  -- The counter after the reference was dropped.
  abbrev c1 : Counter
  c1 = record c { num_weak_refs = dec c.num_weak_refs }

  abbrev h1 : Heap
  h1 = set_counter a (some c1) h

  abbrev fewer : Heap
  fewer = set_weak i none h1

  abbrev freed : Heap
  freed = set_weak i none (set_counter a none h1)

  abbrev deleted : Heap
  deleted = set_weak i none (set_counter a none (set_object a none (set_object a (some none) h1)))

  fewer-Elsewhere : Elsewhere a h fewer
  fewer-Elsewhere b ne = (refl, rw ne refl, refl, others b ne)

  freed-Elsewhere : Elsewhere a h freed
  freed-Elsewhere b ne = (refl, rw ne refl, refl, others b ne)

  deleted-Elsewhere : Elsewhere a h deleted
  deleted-Elsewhere b ne = (rw ne refl, rw ne refl, refl, others b ne)

  -- What Unset of the reference leaves: a heap that counts, with no other address touched, and no other
  -- reference changed; the object is gone, or a reference to it is left; and it is as before where a
  -- weak reference is left.
  abbrev pub Freed : Heap → Type 0
  Freed h' =
      ((h'.object a ≡ none) ⊎ (0 < count_refs a h.strong + count_refs a (set h.weak i none)))
      × ((h'.object a ≡ h.object a) ⊎ (count_refs a (set h.weak i none) ≡ 0))

  abbrev pub Released : Heap → Type 0
  Released h' =
      IsCounting h'
      × Elsewhere a h h'
      × (h'.weak ≡ set h.weak i none)
      × (h'.strong ≡ h.strong)
      × Freed h'
      × (h'.next ≡ h.next)

  local :
      (h' : Heap)
      → h'.next ≡ h.next
      → h'.strong ≡ h.strong
      → h'.weak ≡ set h.weak i none
      → Elsewhere a h h'
      → At h' a
      → Freed h'
      → Released h'
  local h' n s w same at free = (
    local-IsCounting a h h' ok (counter-lt_next a h ok counted) n (ap length s)
        (ap length w ∙ length-set_refs h.weak i none) same at,
    same,
    w,
    s,
    free,
    n,
  )

  -- Of an object that is there.
  pub release_live :
      h.object a ≡ some (some a)
      → c.ptr_object ≡ a
      → c.deleted ≡ false
      → c.num_strong_refs ≡ count_refs a h.strong
      → (h' : Heap) × (release_weak i a c h ≡ some h') × Released h'
  unfolding release_weak last_weak clear_weak free_counter
  release_live live ptr kept strong =
      let stays : Freed fewer → Released fewer =
        local fewer refl refl refl fewer-Elsewhere
          (rw (eq_self a, live) (refl, ptr, kept, strong, left)) in
      elim (Bool-cases (dec c.num_weak_refs == 0)) [
        | inl last ↦ elim (Bool-cases (c.num_strong_refs == 0)) [
          | inl no_strong ↦ (
            deleted,
            rw (last, no_strong)
                (ap (clear_weak i) (
                  subst
                    (λ x.
                      last_weak a c1 h1
                      ≡ some (set_counter a none (set_object x none (set_object x (some none) h1))))
                    ptr (last_weak-kept a c1 h1 kept (ap h.object ptr ∙ live)))),
            local deleted refl refl refl deleted-Elsewhere
                (rw (eq_self a) (ground (arith, no_strong, strong), ground (arith, last, left)))
                (inl (rw (eq_self a) refl), inr (ground (arith, last, left))),
          )
          | inr some_strong ↦ (
            fewer,
            rw (last, some_strong) refl,
            stays (inr (ground (arith, some_strong, strong)), inl refl),
          )
        ]
        | inr more ↦ (fewer, rw more refl, stays (inr (ground (arith, more, left)), inl refl))
      ]

  -- Of the counter of an object that was deleted.
  pub release_dead :
      h.object a ≡ none
      → c.deleted ≡ true
      → c.num_strong_refs ≡ 0
      → count_refs a h.strong ≡ 0
      → (h' : Heap) × (release_weak i a c h ≡ some h') × Released h'
  unfolding release_weak last_weak clear_weak free_counter
  release_dead gone dead none_strong no_strong =
      let zero_strong : (c.num_strong_refs == 0) ≡ true = ground (arith, none_strong) in
      elim (Bool-cases (dec c.num_weak_refs == 0)) [
        | inl last ↦ (
          freed,
          rw (last, zero_strong, dead) refl,
          local freed refl refl refl freed-Elsewhere
              (rw (eq_self a, gone) (no_strong, ground (arith, last, left))) (inl gone, inl refl),
        )
        | inr more ↦ (
          fewer,
          rw more refl,
          local fewer refl refl refl fewer-Elsewhere
              (rw (eq_self a, gone)
                (dead, none_strong, no_strong, left, ground (arith, more, left)))
              (inl gone, inl refl),
        )
      ]
