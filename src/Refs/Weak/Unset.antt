-- ===== src/Refs/Weak/Unset.antt =====
-- What unsetting a weak reference leaves.
use mathlib.Core.Path.{subst}
use ea31337_fft.Prelude.{
  ℕ, ◌≡◌, ◌⊎◌, refl, sym, ap, ◌∙◌, arith, Option, none, some, ◌==◌, ==_iff, Bool-cases, inl, inr,
  get_elem?, set, ◌+◌, ◌<◌,
}
use ea31337_fft.Refs.Heap.{Heap, Counter}
use ea31337_fft.Refs.Counts.{
  Held, points, count_refs-set, IsCounting, points-count, weak-Live, count_refs,
}
use ea31337_fft.Refs.Weak.Laws.{Released, release_live, release_dead}
use ea31337_fft.Refs.Strong.Laws.{set_same}
use ea31337_fft.Refs.Weak.{unset_weak}

-- What Unset of a weak reference leaves: a heap that counts, in which the reference is null, no other
-- reference has changed, and every object is as before but the one it pointed to, which is gone unless
-- a reference to it is left, and as before where a weak one is left.
abbrev pub Unset : ℕ → Option ℕ → Heap → Heap → Type 0
Unset i ptr h h' =
    IsCounting h'
    × (h'.weak ≡ set h.weak i none)
    × (h'.strong ≡ h.strong)
    × ((b : ℕ)
        → (get_elem? h.weak i ≡ some (some b))
            × ((h'.object b ≡ none) ⊎ (0 < count_refs b h'.strong + count_refs b h'.weak))
          ⊎ (h'.object b ≡ h.object b) × (points b ptr ≡ 0))
    × ((b : ℕ) → (h'.object b ≡ h.object b) ⊎ (count_refs b h'.weak ≡ 0))
    × (h'.next ≡ h.next)

released :
    (i a : ℕ) (h : Heap) (c : Counter) (ok : IsCounting h)
    (here : get_elem? h.weak i ≡ some (some a)) (counted : h.counter a ≡ some c)
    (weak : c.num_weak_refs ≡ count_refs a h.weak) (h' : Heap)
    → Released i a h c ok here counted weak h'
    → Unset i (some a) h h'
released i a h c ok here counted weak h' (ok', elsewhere, w, s, (free, before), n) = (
  ok',
  w,
  s,
  (λ b. elim (Bool-cases (a == b)) [
    | inl same ↦ inl (
      here ∙ ap (λ x. some (some x)) ((==_iff a b).0 same),
      subst (λ x. (h'.object x ≡ none) ⊎ (0 < count_refs x h'.strong + count_refs x h'.weak))
          ((==_iff a b).0 same) (rw (s, w) free),
    )
    | inr other ↦ let (x, _, _, _) = elsewhere b other in inr (x, rw other refl)
  ]),
  (λ b. elim (Bool-cases (a == b)) [
    | inl same ↦
        subst (λ x. (h'.object x ≡ h.object x) ⊎ (count_refs x h'.weak ≡ 0)) ((==_iff a b).0 same)
          (rw w before)
    | inr other ↦ let (x, _, _, _) = elsewhere b other in inl x
  ]),
  n,
)

pub unset_weak-Unset :
    (i : ℕ) (ptr : Option ℕ) (h : Heap)
    → IsCounting h
    → get_elem? h.weak i ≡ some ptr
    → (h' : Heap) × (unset_weak i h ≡ some h') × Unset i ptr h h'
unfolding unset_weak
unset_weak-Unset i none h ok here = (
  h,
  rw (here, unset_weak) refl,
  (ok, sym (set_same h.weak i none here), refl, (λ b. inr (refl, refl)), (λ b. inl refl), refl),
)
unset_weak-Unset i (some a) h ok here =
    elim (weak-Live a (h.object a) (h.counter a) _ _ (ok.at a) (points-count a h.weak i here)) [
      | inl (c, live, counted, ptr, kept, strong, weak) ↦
          let (h', done, left) = release_live i a h c ok here counted weak live ptr kept strong in
          (h', rw (here, unset_weak, counted) done, released i a h c ok here counted weak h' left)
      | inr (c, gone, counted, dead, none_strong, no_strong, weak) ↦
          let (h', done, left) =
            release_dead i a h c ok here counted weak gone dead none_strong no_strong in
          (h', rw (here, unset_weak, counted) done, released i a h c ok here counted weak h' left)
    ]

pub Unset-Held_weak :
    (i : ℕ) (ptr : Option ℕ) (h h' : Heap)
    → get_elem? h.weak i ≡ some ptr
    → Unset i ptr h h'
    → (b : ℕ) → Held h b
    → Held h' b
Unset-Held_weak i ptr h h' here (ok, w, s, each, _, _) b held = elim (each b) [
  | inl (pointed, free) ↦ free
  | inr (same, other) ↦ elim held [
    | inl gone ↦ inl (same ∙ gone)
    | inr pos ↦
        let count = count_refs-set b h.weak i none here in
        inr (rw (s, w) (omega (arith, pos, count, other)))
  ]
]
