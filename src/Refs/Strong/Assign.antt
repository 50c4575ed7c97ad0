-- ===== src/Refs/Strong/Assign.antt =====
-- What assigning a strong reference leaves.
use ea31337_fft.Refs.Pointer.{IsPointer, same_ptr-eq, set-set, lt_of_get, same_ptr_self}
use ea31337_fft.Refs.Strong.After.{After, Unset-After, After-same, Unset-Held_strong}
use mathlib.Core.Path.{subst}
use ea31337_fft.Refs.Strong.Laws.{unset_strong-Unset, set_same}
use ea31337_fft.Prelude.{
  ◌==◌, get_elem?-set_self, sym, ap, ◌∙◌, ==_iff, set, get_elem?, Option, ℕ, ◌≡◌, refl, arith, none,
  some, inl, inr, Bool-cases, true, false,
}
use ea31337_fft.Refs.Counts.{
  count_refs, Held, points, count_refs-set, count_refs-le, length-set_refs, IsCounting, its_counter,
}
use ea31337_fft.Refs.Strong.{retain, assign_strong, after_unset}
use ea31337_fft.Refs.Heap.{same_ptr, inc, Heap, set_counter, set_strong}
use ea31337_fft.Refs.Local.{eq_self, count_other, lt_next, local-IsCounting}

module _ (i a : ℕ) (h : Heap) (ok : IsCounting h) (null : get_elem? h.strong i ≡ some none)
    (live : h.object a ≡ some (some a)) where
  retain-IsCounting :
      (h' : Heap) × (retain i a h ≡ some h')
      × IsCounting h'
      × (h'.strong ≡ set h.strong i (some a))
      × (h'.weak ≡ h.weak)
      × (h'.next ≡ h.next)
      × (h'.object ≡ h.object)
      × ((b : ℕ) → Held h b → Held h' b)
  unfolding retain inc
  retain-IsCounting =
      let (c, counted, ptr, kept, strong, weak) =
        its_counter a (h.object a) (h.counter a) _ _ (ok.at a) live in
      let one : points a (some a) ≡ 1 = ground arith in
      let more = count_refs-set a h.strong i (some a) null in
      let bound = count_refs-le a (set h.strong i (some a)) in
      let len = length-set_refs h.strong i (some a) in
      let c' = record c { num_strong_refs = inc c.num_strong_refs } in
      let h' = set_counter a (some c') (set_strong i (some a) h) in
      (
        h',
        rw (live, retain, counted) refl,
        local-IsCounting a h h' ok (lt_next a h ok live) refl len refl
            (λ b ne. (
              refl,
              rw ne refl,
              count_other a b h.strong i none (some a) null refl (rw ne refl),
              refl,
            ))
            (rw (eq_self a, live)
              (refl, ptr, kept, omega (arith, strong, more, one, bound, len, ok.few_strong), weak)),
        refl,
        refl,
        refl,
        refl,
        (λ b held. elim held [
          | inl gone ↦ inl gone
          | inr pos ↦ inr (omega (arith, pos, count_refs-set b h.strong i (some a) null))
        ]),
      )

-- Assigning a pointer to a strong reference succeeds on a heap that counts. The heap then counts
-- still, the reference is that pointer, no other reference has changed, and no object is left without
-- a reference that had one; an object is gone where its last strong reference was, and is as before
-- elsewhere; no address is taken.
pub assign_strong-IsCounting :
    (i : ℕ) (old ptr : Option ℕ) (h : Heap)
    → IsCounting h
    → get_elem? h.strong i ≡ some old
    → IsPointer h ptr
    → (h' : Heap) × (assign_strong i ptr h ≡ some h')
      × IsCounting h'
      × (h'.strong ≡ set h.strong i ptr)
      × (h'.weak ≡ h.weak)
      × ((b : ℕ) → Held h b → Held h' b)
      × ((b : ℕ) → After old h h' b)
      × (h'.next ≡ h.next)
unfolding assign_strong after_unset
assign_strong-IsCounting i old none h ok here valid = elim (Bool-cases (same_ptr old none)) [
  | inl same ↦
      let e = same_ptr-eq old none same in
      (
        h,
        rw (here, assign_strong, same) refl,
        ok,
        sym (set_same h.strong i none (here ∙ ap some e)),
        refl,
        (λ b held. held),
        (λ b. After-same i old h here b),
        refl,
      )
  | inr other ↦
      let (h1, done, left) = unset_strong-Unset i h old ok here in
      let (ok1, s, w, n, _) = left in
      let idle : set h1.strong i none ≡ h1.strong =
        ap (λ xs. set xs i none) s ∙ set-set h.strong i none none ∙ sym s in
      (
        set_strong i none h1,
        rw (here, assign_strong, other, done) refl,
        subst IsCounting (sym (ap (λ xs. record h1 { strong = xs }) idle)) ok1,
        idle ∙ s,
        w,
        (λ b held. rw idle (Unset-Held_strong i old h h1 here left b held)),
        (λ b. rw idle (Unset-After i old h h1 ok here left b)),
        n,
      )
]
assign_strong-IsCounting i old (some a) h ok here valid =
    elim (Bool-cases (same_ptr old (some a))) [
      | inl same ↦
          let e = same_ptr-eq old (some a) same in
          (
            h,
            rw (here, assign_strong, same) refl,
            ok,
            sym (set_same h.strong i (some a) (here ∙ ap some e)),
            refl,
            (λ b held. held),
            (λ b. After-same i old h here b),
            refl,
          )
      | inr other ↦
          let (h1, done, left) = unset_strong-Unset i h old ok here in
          let (ok1, s, w, n, each) = left in
          let null : get_elem? h1.strong i ≡ some none =
            ap (λ xs. get_elem? xs i) s
            ∙ get_elem?-set_self h.strong i none (lt_of_get h.strong i here) in
          let live : h1.object a ≡ some (some a) = elim (each a) [
            | inl (pointed, _) ↦
                absurd (ground (arith, other, same_ptr_self old a (sym here ∙ pointed)))
            | inr (kept, _, _) ↦ kept ∙ valid
          ] in
          let (h2, kept, ok2, s2, w2, n2, o2, held2) = retain-IsCounting i a h1 ok1 null live in
          let after_retain : (b : ℕ) → After old h h1 b → After old h h2 b = (λ b before.
            elim (Bool-cases (same_ptr old (some b))) [
              | inl same ↦
                  let ne : (a == b) ≡ false = elim (Bool-cases (a == b)) [
                    | inl e ↦
                        let f : a ≡ b = (==_iff a b).0 e in
                        absurd (
                          ground
                            (arith, other, subst (λ x. same_ptr old (some x) ≡ true) (sym f) same))
                    | inr e ↦ e
                  ] in
                  let count : count_refs b h2.strong ≡ count_refs b h1.strong =
                    ap (count_refs b) s2
                    ∙ count_other a b h1.strong i none (some a) null refl (rw ne refl) in
                  ap (λ f. f b) o2 ∙ before ∙ sym (rw count refl)
              | inr off ↦ rw off (ap (λ f. f b) o2 ∙ rw off at before)
            ]) in
          (
            h2,
            rw (here, assign_strong, other, done) kept,
            ok2,
            s2 ∙ ap (λ xs. set xs i (some a)) s ∙ set-set h.strong i none (some a),
            w2 ∙ w,
            (λ b held. held2 b (Unset-Held_strong i old h h1 here left b held)),
            (λ b. after_retain b (Unset-After i old h h1 ok here left b)),
            n2 ∙ n,
          )
    ]
