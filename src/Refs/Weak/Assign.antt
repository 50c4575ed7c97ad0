-- ===== src/Refs/Weak/Assign.antt =====
-- What assigning a weak reference leaves.
use ea31337_fft.Refs.Weak.Unset.{unset_weak-Unset, Unset-Held_weak}
use mathlib.Core.Path.{subst}
use ea31337_fft.Prelude.{
  ℕ, ◌≡◌, ◌⊎◌, refl, sym, ap, ◌∙◌, arith, Option, none, some, ◌==◌, ==_iff, Bool-cases, inl, inr,
  get_elem?, set, get_elem?-set_self,
}
use ea31337_fft.Refs.Heap.{Heap, inc, set_counter, set_weak, same_ptr}
use ea31337_fft.Refs.Counts.{
  Held, points, count_refs-set, count_refs-le, length-set_refs, IsCounting, its_counter, count_refs,
}
use ea31337_fft.Refs.Local.{eq_self, count_other, lt_next, local-IsCounting}
use ea31337_fft.Refs.Strong.Laws.{set_same}
use ea31337_fft.Refs.Pointer.{IsPointer, lt_of_get, set-set, same_ptr-eq, same_ptr_self}
use ea31337_fft.Refs.Weak.{retain_weak, after_unset_weak, assign_weak}

module _ (i a : ℕ) (h : Heap) (ok : IsCounting h) (null : get_elem? h.weak i ≡ some none)
    (live : h.object a ≡ some (some a)) where
  retain_weak-IsCounting :
      (h' : Heap) × (retain_weak i a h ≡ some h')
      × IsCounting h'
      × (h'.weak ≡ set h.weak i (some a))
      × (h'.strong ≡ h.strong)
      × ((b : ℕ) → Held h b → Held h' b)
      × (h'.object ≡ h.object)
      × (h'.next ≡ h.next)
  unfolding retain_weak inc
  retain_weak-IsCounting =
      let (c, counted, ptr, kept, strong, weak) =
        its_counter a (h.object a) (h.counter a) _ _ (ok.at a) live in
      let one : points a (some a) ≡ 1 = ground arith in
      let more = count_refs-set a h.weak i (some a) null in
      let bound = count_refs-le a (set h.weak i (some a)) in
      let len = length-set_refs h.weak i (some a) in
      let c' = record c { num_weak_refs = inc c.num_weak_refs } in
      let h' = set_weak i (some a) (set_counter a (some c') h) in
      (
        h',
        rw (counted, retain_weak, kept) refl,
        local-IsCounting a h h' ok (lt_next a h ok live) refl refl len
            (λ b ne. (
              refl,
              rw ne refl,
              refl,
              count_other a b h.weak i none (some a) null refl (rw ne refl),
            ))
            (rw (eq_self a, live)
              (refl, ptr, kept, strong, omega (arith, weak, more, one, bound, len, ok.few_weak))),
        refl,
        refl,
        (λ b held. elim held [
          | inl gone ↦ inl gone
          | inr pos ↦ inr (omega (arith, pos, count_refs-set b h.weak i (some a) null))
        ]),
        refl,
        refl,
      )

after_unset_weak-live :
    (i a : ℕ) (h : Heap)
    → h.object a ≡ some (some a)
    → after_unset_weak i a (some h) ≡ retain_weak i a h
unfolding after_unset_weak
after_unset_weak-live i a h live = rw (live, after_unset_weak) refl

-- Assigning a pointer to a weak reference succeeds on a heap that counts. The heap then counts still,
-- the reference is that pointer, no other reference has changed, and no object is left without a
-- reference that had one; objects that weak references lead to are as before, and no
-- address is taken.
pub assign_weak-IsCounting :
    (i : ℕ) (old ptr : Option ℕ) (h : Heap)
    → IsCounting h
    → get_elem? h.weak i ≡ some old
    → IsPointer h ptr
    → (h' : Heap) × (assign_weak i ptr h ≡ some h')
      × IsCounting h'
      × (h'.weak ≡ set h.weak i ptr)
      × (h'.strong ≡ h.strong)
      × ((b : ℕ) → Held h b → Held h' b)
      × ((b : ℕ) → (h'.object b ≡ h.object b) ⊎ (count_refs b h'.weak ≡ 0))
      × (h'.next ≡ h.next)
unfolding assign_weak after_unset_weak
assign_weak-IsCounting i old none h ok here valid = elim (Bool-cases (same_ptr old none)) [
  | inl same ↦
      let e = same_ptr-eq old none same in
      (
        h,
        rw (here, assign_weak, same) refl,
        ok,
        sym (set_same h.weak i none (here ∙ ap some e)),
        refl,
        (λ b held. held),
        (λ b. inl refl),
        refl,
      )
  | inr other ↦
      let (h1, done, left) = unset_weak-Unset i old h ok here in
      let (ok1, w, s, _, before, n) = left in
      (
        h1,
        rw (here, assign_weak, other) done,
        ok1,
        w,
        s,
        Unset-Held_weak i old h h1 here left,
        before,
        n,
      )
]
assign_weak-IsCounting i old (some a) h ok here valid = elim (Bool-cases (same_ptr old (some a))) [
  | inl same ↦
      let e = same_ptr-eq old (some a) same in
      (
        h,
        rw (here, assign_weak, valid, same) refl,
        ok,
        sym (set_same h.weak i (some a) (here ∙ ap some e)),
        refl,
        (λ b held. held),
        (λ b. inl refl),
        refl,
      )
  | inr other ↦
      let (h1, done, left) = unset_weak-Unset i old h ok here in
      let (ok1, w, s, kept, before, n) = left in
      let null : get_elem? h1.weak i ≡ some none =
        ap (λ xs. get_elem? xs i) w ∙ get_elem?-set_self h.weak i none (lt_of_get h.weak i here) in
      let live : h1.object a ≡ some (some a) = elim (kept a) [
        | inl (pointed, _) ↦
            absurd (ground (arith, other, same_ptr_self old a (sym here ∙ pointed)))
        | inr (same, _) ↦ same ∙ valid
      ] in
      let (h2, more, ok2, w2, s2, held2, o2, n2) = retain_weak-IsCounting i a h1 ok1 null live in
      (
        h2,
        rw (here, assign_weak, valid, other, done) (after_unset_weak-live i a h1 live ∙ more),
        ok2,
        w2 ∙ ap (λ xs. set xs i (some a)) w ∙ set-set h.weak i none (some a),
        s2 ∙ s,
        (λ b held. held2 b (Unset-Held_weak i old h h1 here left b held)),
        (λ b. elim (before b) [
          | inl same ↦ inl (ap (λ f. f b) o2 ∙ same)
          | inr no_weak ↦ elim (Bool-cases (a == b)) [
            | inl e ↦ inl (
                ap (λ f. f b) o2
                ∙ subst (λ x. h1.object x ≡ h.object x) ((==_iff a b).0 e) (live ∙ sym valid))
            | inr ne ↦ inr (
                ap (count_refs b) w2
                ∙ count_other a b h1.weak i none (some a) null refl (rw ne refl)
                ∙ no_weak)
          ]
        ]),
        n2 ∙ n,
      )
]
