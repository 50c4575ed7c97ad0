-- ===== src/Refs/Strong/After.antt =====
-- What becomes of the objects when a strong reference is unset or assigned.
use ea31337_fft.Refs.Pointer.{same_ptr-eq}
use ea31337_fft.Refs.Strong.Laws.{Unset}
use ea31337_fft.Prelude.{
  ◌==◌, sym, ap, ◌∙◌, get_elem?, Option, ℕ, ◌<◌, ◌≡◌, refl, arith, none, some, inl, inr, Bool-cases,
  true, ◌&&◌, false, if◌then◌else◌,
}
use ea31337_fft.Refs.Counts.{
  strong-Live, points-count, count_refs, Held, points, count_refs-set, IsCounting,
}
use ea31337_fft.Refs.Heap.{same_ptr, Heap}
use ea31337_fft.Refs.Local.{eq_self}

pub Unset-Held_strong :
    (i : ℕ) (ptr : Option ℕ) (h h' : Heap)
    → get_elem? h.strong i ≡ some ptr
    → Unset i ptr h h'
    → (b : ℕ) → Held h b
    → Held h' b
Unset-Held_strong i ptr h h' here (ok, s, w, n, each) b held = elim (each b) [
  | inl (pointed, iff) ↦ elim (Bool-cases (count_refs b h'.strong == 0)) [
    | inl no_strong ↦ inl (iff.1 (ground (arith, no_strong)))
    | inr some_strong ↦ inr (ground (arith, some_strong))
  ]
  | inr (same, _, other) ↦ elim held [
    | inl gone ↦ inl (same ∙ gone)
    | inr pos ↦
        let count = count_refs-set b h.strong i none here in
        inr (rw (s, w) (omega (arith, pos, count, other)))
  ]
]

-- What becomes of an object when a strong reference is assigned: it is gone where that was the last
-- strong one to it.
abbrev pub After : Option ℕ → Heap → Heap → ℕ → Type 0
After old h h' b =
    h'.object b
    ≡ (if same_ptr old (some b) && (count_refs b h'.strong == 0) then none else h.object b)

not_same : (b : ℕ) (ptr : Option ℕ) → points b ptr ≡ 0 → same_ptr ptr (some b) ≡ false
unfolding same_ptr
not_same b none h = refl
not_same b (some a) h = ground (arith, h)

-- A reference that is assigned what it holds leaves every object.
pub After-same :
    (i : ℕ) (ptr : Option ℕ) (h : Heap)
    → get_elem? h.strong i ≡ some ptr
    → (b : ℕ) → After ptr h h b
After-same i ptr h here b = elim (Bool-cases (same_ptr ptr (some b))) [
  | inl same ↦
      let e = same_ptr-eq ptr (some b) same in
      let pos = points-count b h.strong i (here ∙ ap some e) in
      let some_left : (count_refs b h.strong == 0) ≡ false = ground (arith, pos) in
      rw (same, some_left) refl
  | inr other ↦ rw other refl
]

still_there :
    (h : Heap) (b : ℕ) → IsCounting h → 0 < count_refs b h.strong → h.object b ≡ some (some b)
still_there h b ok pos =
    let (c, live, _, _, _, _, _) = strong-Live b (h.object b) (h.counter b) _ _ (ok.at b) pos in
    live

pub Unset-After :
    (i : ℕ) (ptr : Option ℕ) (h h' : Heap)
    → IsCounting h
    → get_elem? h.strong i ≡ some ptr
    → Unset i ptr h h'
    → (b : ℕ) → After ptr h h' b
unfolding same_ptr
Unset-After i ptr h h' old_ok here (ok, s, w, n, each) b = elim (each b) [
  | inl (pointed, iff) ↦
      let at_b : ptr ≡ some b = ground (arith, here, pointed) in
      let same : same_ptr ptr (some b) ≡ true = rw at_b (eq_self b) in
      let was = still_there h b old_ok (points-count b h.strong i pointed) in
      elim (Bool-cases (count_refs b h'.strong == 0)) [
        | inl last ↦ rw (same, last) (iff.1 (ground (arith, last)))
        | inr more ↦ rw (same, more) (still_there h' b ok (ground (arith, more)) ∙ sym was)
      ]
  | inr (same, _, other) ↦
      let ne : same_ptr ptr (some b) ≡ false = not_same b ptr other in rw ne same
]
