-- ===== src/Refs/View/Laws.antt =====
-- How the view of a heap changes when a reference is assigned.
use ea31337_fft.Prelude.{
  ◌+◌, ℕ, zero, suc, ◌≡◌, ◌⊎◌, refl, ap, ◌∙◌, arith, Bool-cases, Option, none, some, List, [], ◌∷◌,
  ◌==◌, ==_iff, ◌&&◌, inl, inr, get_elem?, set,
}
use ea31337_fft.Refs.Heap.{Heap, alloc, same_ptr}
use ea31337_fft.Refs.Counts.{IsCounting, count_refs, weak-Live, points-count}
use ea31337_fft.Refs.Local.{eq_self}
use ea31337_fft.Refs.Pointer.{IsPointer}
use ea31337_fft.Refs.Strong.After.{After}
use ea31337_fft.Refs.Weak.{weak_ptr}
use ea31337_fft.Refs.Program.Fresh.{next-unused}
use ea31337_fft.Refs.View.{
  see_from, view, seen, seen_refs, dropped, drop_refs, see_strong, see_weak, View,
}
use mathlib.Core.Path.{subst}

abbrev Objects : Type 0
Objects = ℕ → Option (Option ℕ)

-- Where objects are as before, or not referred to, the same is seen.
seen_same : (f g : Objects) (b : ℕ) → g b ≡ f b → seen g (some b) ≡ seen f (some b)
unfolding seen
seen_same f g b e = rw (e, seen) refl

seen-none : (f : Objects) → seen f none ≡ none
unfolding seen
seen-none f = refl

seen_gone : (f : Objects) (b : ℕ) → f b ≡ none → seen f (some b) ≡ none
unfolding seen
seen_gone f b e = rw (e, seen) refl

seen_refs-same :
    (f g : Objects) (xs : List (Option ℕ))
    → ((b : ℕ) → (g b ≡ f b) ⊎ (count_refs b xs ≡ 0))
    → seen_refs g xs ≡ seen_refs f xs
unfolding seen_refs count_refs
seen_refs-same f g [] h = refl
seen_refs-same f g (none ∷ xs) h =
    ap (λ ys. none ∷ ys)
      (seen_refs-same f g xs
        (λ b. elim (h b) [ inl e ↦ inl e | inr unused ↦ inr (omega (arith, unused)) ]))
seen_refs-same f g (some a ∷ xs) h =
    let first : g a ≡ f a = elim (h a) [
      | inl e ↦ e
      | inr unused ↦ absurd (ground (arith, unused, eq_self a))
    ] in
    let rest =
      seen_refs-same f g xs
        (λ b. elim (h b) [ inl e ↦ inl e | inr unused ↦ inr (omega (arith, unused)) ]) in
    rw (seen_same f g a first, rest) refl

seen_refs-set :
    (f : Objects) (xs : List (Option ℕ)) (i : ℕ) (x : Option ℕ)
    → seen_refs f (set xs i x) ≡ set (seen_refs f xs) i (seen f x)
unfolding seen_refs
seen_refs-set f [] i x = refl
seen_refs-set f (y ∷ ys) zero x = refl
seen_refs-set f (y ∷ ys) (suc i) x = ap (λ zs. seen f y ∷ zs) (seen_refs-set f ys i x)

pub get_elem?-seen_refs :
    (f : Objects) (xs : List (Option ℕ)) (i : ℕ) {x : Option ℕ}
    → get_elem? xs i ≡ some x
    → get_elem? (seen_refs f xs) i ≡ some (seen f x)
unfolding seen_refs
get_elem?-seen_refs f [] i h = absurd (ground (arith, h))
get_elem?-seen_refs f (y ∷ ys) zero {x} h =
    let e : y ≡ x = ground (arith, h) in ap (λ z. some (seen f z)) e
get_elem?-seen_refs f (y ∷ ys) (suc i) h = get_elem?-seen_refs f ys i h

seen-pointer : (h : Heap) (ptr : Option ℕ) → IsPointer h ptr → seen h.object ptr ≡ ptr
unfolding seen
seen-pointer h none valid = refl
seen-pointer h (some a) valid = rw (valid, seen) refl

seen_or_none :
    (f : Objects) (b : ℕ) (x : Option (Option ℕ))
    → f b ≡ x
    → (seen f (some b) ≡ none) ⊎ (seen f (some b) ≡ some b)
unfolding seen
seen_or_none f b none e = inl (rw (e, seen) refl)
seen_or_none f b (some y) e = inr (rw (e, seen) refl)

-- One weak reference when a strong one has left `old`.
seen-dropped :
    (old : Option ℕ) (h h' : Heap)
    → ((b : ℕ) → After old h h' b)
    → (x : Option ℕ) → seen h'.object x ≡ dropped old h'.strong (seen h.object x)
unfolding dropped
seen-dropped old h h' after none = seen-none h'.object ∙ rw (seen-none h.object) refl
seen-dropped old h h' after (some b) =
    elim (Bool-cases (same_ptr old (some b) && (count_refs b h'.strong == 0))) [
      | inl last ↦
          let gone : h'.object b ≡ none = after b ∙ rw last refl in
          let now = seen_gone h'.object b gone in
          elim (seen_or_none h.object b (h.object b) refl) [
            | inl before ↦ rw (now, before) refl
            | inr before ↦ rw (now, before, dropped, last) refl
          ]
      | inr kept ↦
          let same : h'.object b ≡ h.object b = after b ∙ rw kept refl in
          let now = seen_same h.object h'.object b same in
          elim (seen_or_none h.object b (h.object b) refl) [
            | inl before ↦ rw (now, before) refl
            | inr before ↦ rw (now, before, dropped, kept) refl
          ]
    ]

seen_refs-dropped :
    (old : Option ℕ) (h h' : Heap)
    → ((b : ℕ) → After old h h' b)
    → (xs : List (Option ℕ))
    → seen_refs h'.object xs ≡ drop_refs old h'.strong (seen_refs h.object xs)
unfolding seen_refs drop_refs
seen_refs-dropped old h h' after [] = refl
seen_refs-dropped old h h' after (x ∷ xs) =
    rw (seen-dropped old h h' after x, seen_refs-dropped old h h' after xs) refl

-- An assignment to a strong reference.
pub see_strong_lem :
    (i : ℕ) (old ptr : Option ℕ) (h h' : Heap)
    → get_elem? h.strong i ≡ some old
    → h'.strong ≡ set h.strong i ptr
    → h'.weak ≡ h.weak
    → ((b : ℕ) → After old h h' b)
    → h'.next ≡ h.next
    → see_strong i ptr (view h) ≡ some (view h')
unfolding see_strong
see_strong_lem i old ptr h h' here s w after n =
    let weak = seen_refs-dropped old h h' after h.weak in rw (here, see_strong, w, n, weak, s) refl

-- An assignment to a weak reference.
pub see_weak_lem :
    (i : ℕ) (old ptr : Option ℕ) (h h' : Heap)
    → IsPointer h ptr
    → get_elem? h.weak i ≡ some old
    → h'.weak ≡ set h.weak i ptr
    → h'.strong ≡ h.strong
    → ((b : ℕ) → (h'.object b ≡ h.object b) ⊎ (count_refs b h'.weak ≡ 0))
    → h'.next ≡ h.next
    → see_weak i ptr (view h) ≡ some (view h')
unfolding see_weak
see_weak_lem i old ptr h h' valid here w s before n =
    let weak : seen_refs h'.object h'.weak ≡ set (seen_refs h.object h.weak) i ptr =
      seen_refs-same h.object h'.object h'.weak before
      ∙ ap (seen_refs h.object) w
      ∙ seen_refs-set h.object h.weak i ptr
      ∙ ap (set (seen_refs h.object h.weak) i) (seen-pointer h ptr valid) in
    rw (get_elem?-seen_refs h.object h.weak i here, see_weak, weak, s, n) refl

-- A new object is not seen yet.
pub view-alloc : (h : Heap) → IsCounting h → view (alloc h) ≡ record (view h) { next = h.next + 1 }
unfolding alloc
view-alloc h ok =
    let (_, unused) = next-unused h ok in
    let same = seen_refs-same h.object (alloc h).object h.weak (λ b.
      elim (Bool-cases (h.next == b)) [
        | inl e ↦ inr (subst (λ x. count_refs x h.weak ≡ 0) ((==_iff h.next b).0 e) unused)
        | inr ne ↦ inl (rw ne refl)
      ]) in
    ap (λ xs. record (view h) { weak = xs; next = h.next + 1 }) same

-- Ptr of a weak reference is what is seen of it.
pub weak_ptr-seen :
    (h : Heap) (i : ℕ) (k : Option ℕ)
    → IsCounting h
    → get_elem? h.weak i ≡ some k
    → (weak_ptr k h ≡ some (seen h.object k)) × IsPointer h (seen h.object k)
unfolding weak_ptr seen
weak_ptr-seen h i none ok here = (refl, tt)
weak_ptr-seen h i (some a) ok here =
    elim (weak-Live a (h.object a) (h.counter a) _ _ (ok.at a) (points-count a h.weak i here)) [
      | inl (c, live, counted, ptr, kept, _, _) ↦
          (rw (counted, weak_ptr, kept, ptr, live, seen) refl, rw (live, seen) live)
      | inr (c, gone, counted, dead, _, _, _) ↦
          (rw (counted, weak_ptr, dead, gone, seen) refl, rw (gone, seen) tt)
    ]

pub see_from_lem :
    (assign : Option ℕ → View → Option View) (xs : List (Option ℕ)) (j : ℕ) (v : View)
    {ptr : Option ℕ}
    → get_elem? xs j ≡ some ptr
    → see_from assign xs j v ≡ assign ptr v
see_from_lem assign xs j v e = rw (e, see_from) refl
