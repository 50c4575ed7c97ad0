-- ===== src/Refs/Strong/Laws.antt =====
-- A strong reference that is unset or assigned keeps the counters right, and does not fail.
use mathlib.Core.Path.{subst}
use ea31337_fft.Refs.Strong.{unset_strong, unset_object, release}
use ea31337_fft.Refs.Counts.{
  strong-Live, points-count, points, count_refs, count_refs-set, count_refs-le, length-set_refs, At,
  IsCounting,
}
use ea31337_fft.Prelude.{
  ◌⊎◌, sym, ap, ◌∙◌, [], ◌∷◌, zero, suc, ==_iff, ◌==◌, set, get_elem?, List, Option, ℕ, ◌+◌, ◌<◌,
  ◌≡◌, refl, arith, false, none, some, inl, inr, Bool-cases, ◌^◌, true, ◌↔◌,
}
use ea31337_fft.Refs.Heap.{Counter, Heap, dec, set_counter, set_strong, set_object}
use ea31337_fft.Refs.Local.{
  Elsewhere, eq_self, count_other, lt_next, local-IsCounting, delete_object-cleared,
}

pub dec_lem : (n : ℕ) → 0 < n → n < 2 ^ 32 → dec n + 1 ≡ n
unfolding dec
dec_lem n pos lt = omega arith

module _ (i a : ℕ) (h : Heap) (c : Counter) (ok : IsCounting h)
    (here : get_elem? h.strong i ≡ some (some a)) (live : h.object a ≡ some (some a))
    (counted : h.counter a ≡ some c) (ptr : c.ptr_object ≡ a) (kept : c.deleted ≡ false)
    (strong : c.num_strong_refs ≡ count_refs a h.strong)
    (weak : c.num_weak_refs ≡ count_refs a h.weak) where
  one_less : count_refs a (set h.strong i none) + 1 ≡ count_refs a h.strong
  one_less =
      let here_one : points a (some a) ≡ 1 = ground arith in
      omega (arith, count_refs-set a h.strong i none here, here_one)

  others : (b : ℕ) → (a == b) ≡ false → count_refs b (set h.strong i none) ≡ count_refs b h.strong
  others b ne = count_other a b h.strong i (some a) none here (rw ne refl) refl

  -- Another reference is left.
  abbrev fewer : Heap
  fewer =
      set_strong i none
        (set_counter a (some (record c { num_strong_refs = dec c.num_strong_refs })) h)

  fewer-Elsewhere : Elsewhere a h fewer
  fewer-Elsewhere b ne = (refl, rw ne refl, others b ne, refl)

  fewer-At : At fewer a
  fewer-At =
      let left =
        dec_lem c.num_strong_refs (omega (arith, strong, one_less))
          (omega (arith, strong, count_refs-le a h.strong, ok.few_strong)) in
      rw (eq_self a, live) (refl, ptr, kept, omega (arith, left, strong, one_less), weak)

  fewer-IsCounting : IsCounting fewer
  fewer-IsCounting =
      local-IsCounting a h fewer ok (lt_next a h ok live) refl (length-set_refs h.strong i none)
        refl fewer-Elsewhere fewer-At

  -- The last reference of all.
  abbrev gone : Heap
  gone = set_object a none (set_strong i none (set_object a (some none) (set_counter a none h)))

  gone-Elsewhere : Elsewhere a h gone
  gone-Elsewhere b ne = (rw ne refl, rw ne refl, others b ne, refl)

  gone-IsCounting : dec c.num_strong_refs ≡ 0 → c.num_weak_refs ≡ 0 → IsCounting gone
  gone-IsCounting none_left no_weak =
      let left =
        dec_lem c.num_strong_refs (omega (arith, strong, one_less))
          (omega (arith, strong, count_refs-le a h.strong, ok.few_strong)) in
      local-IsCounting a h gone ok (lt_next a h ok live) refl (length-set_refs h.strong i none) refl
        gone-Elsewhere
        (rw (eq_self a)
          (omega (arith, left, strong, one_less, none_left), omega (arith, no_weak, weak)))

  -- The last strong reference, where weak ones are left.
  abbrev orphan : Counter
  orphan = record c { num_strong_refs = 0; deleted = true }

  abbrev dropped : Heap
  dropped =
      set_object a none
        (set_strong i none (set_object a (some none) (set_counter a (some orphan) h)))

  dropped-Elsewhere : Elsewhere a h dropped
  dropped-Elsewhere b ne = (rw ne refl, rw ne refl, others b ne, refl)

  dropped-IsCounting :
      dec c.num_strong_refs ≡ 0 → (c.num_weak_refs == 0) ≡ false → IsCounting dropped
  dropped-IsCounting none_left some_weak =
      let left =
        dec_lem c.num_strong_refs (omega (arith, strong, one_less))
          (omega (arith, strong, count_refs-le a h.strong, ok.few_strong)) in
      local-IsCounting a h dropped ok (lt_next a h ok live) refl (length-set_refs h.strong i none)
        refl dropped-Elsewhere
        (rw (eq_self a) (
          refl,
          refl,
          omega (arith, left, strong, one_less, none_left),
          weak,
          ground (arith, some_weak, weak),
        ))

  -- What Unset of the reference leaves: a heap that counts, with no other address touched, no weak
  -- reference and no other strong one changed; the object is gone exactly where no strong reference is
  -- left.
  abbrev pub Released : Heap → Type 0
  Released h' =
      IsCounting h'
      × Elsewhere a h h'
      × (h'.strong ≡ set h.strong i none)
      × (h'.weak ≡ h.weak)
      × (h'.next ≡ h.next)
      × ((h'.object a ≡ none) ↔ (count_refs a h'.strong ≡ 0))

  release-Released : (h' : Heap) × (release i a a c h ≡ some h') × Released h'
  unfolding release
  release-Released =
      let left =
        dec_lem c.num_strong_refs (omega (arith, strong, one_less))
          (omega (arith, strong, count_refs-le a h.strong, ok.few_strong)) in
      elim (Bool-cases (dec c.num_strong_refs == 0)) [
        | inl last ↦
            let zero_left : dec c.num_strong_refs ≡ 0 = ground (arith, last) in
            let counted_none : count_refs a (set h.strong i none) ≡ 0 =
              omega (arith, left, strong, one_less, zero_left) in
            elim (Bool-cases (c.num_weak_refs == 0)) [
              | inl no_weak ↦ (
                gone,
                rw (last, no_weak) (delete_object-cleared a _ (rw (eq_self a) refl)),
                (
                  gone-IsCounting zero_left (ground (arith, no_weak)),
                  gone-Elsewhere,
                  refl,
                  refl,
                  refl,
                  ((λ _. counted_none), (λ _. rw (eq_self a) refl)),
                ),
              )
              | inr some_weak ↦ (
                dropped,
                rw (last, some_weak) (delete_object-cleared a _ (rw (eq_self a) refl)),
                (
                  dropped-IsCounting zero_left some_weak,
                  dropped-Elsewhere,
                  refl,
                  refl,
                  refl,
                  ((λ _. counted_none), (λ _. rw (eq_self a) refl)),
                ),
              )
            ]
        | inr more ↦ (
          fewer,
          rw more refl,
          (
            fewer-IsCounting,
            fewer-Elsewhere,
            refl,
            refl,
            refl,
            (
              (λ missing. absurd (ground (arith, missing, live))),
              (λ no_ref. absurd (ground (arith, more, left, strong, one_less, no_ref))),
            ),
          ),
        )
      ]

-- What Unset of a strong reference leaves: a heap that counts, in which the reference is null, nothing
-- else is pointed to otherwise, and every object is as before but the one it pointed to, which is gone
-- exactly where no strong reference to it is left.
abbrev pub Unset : ℕ → Option ℕ → Heap → Heap → Type 0
Unset i ptr h h' =
    IsCounting h'
    × (h'.strong ≡ set h.strong i none)
    × (h'.weak ≡ h.weak)
    × (h'.next ≡ h.next)
    × ((b : ℕ)
        → (get_elem? h.strong i ≡ some (some b))
            × ((h'.object b ≡ none) ↔ (count_refs b h'.strong ≡ 0))
          ⊎ (h'.object b ≡ h.object b) × (h'.counter b ≡ h.counter b) × (points b ptr ≡ 0))

pub set_same :
    (xs : List (Option ℕ)) (i : ℕ) (v : Option ℕ) → get_elem? xs i ≡ some v → set xs i v ≡ xs
set_same [] i v h = refl
set_same (x ∷ xs) zero v h = ground (arith, h)
set_same (x ∷ xs) (suc i) v h = ap (λ ys. x ∷ ys) (set_same xs i v h)

-- Unset of a strong reference succeeds on a heap that counts.
pub unset_strong-Unset :
    (i : ℕ) (h : Heap) (ptr : Option ℕ)
    → IsCounting h
    → get_elem? h.strong i ≡ some ptr
    → (h' : Heap) × (unset_strong i h ≡ some h') × Unset i ptr h h'
unfolding unset_strong unset_object
unset_strong-Unset i h none ok here = (
  h,
  rw (here, unset_strong) refl,
  (ok, sym (set_same h.strong i none here), refl, refl, (λ b. inr (refl, refl, refl))),
)
unset_strong-Unset i h (some a) ok here =
    let (c, live, counted, ptr, kept, strong, weak) =
      strong-Live a (h.object a) (h.counter a) _ _ (ok.at a) (points-count a h.strong i here) in
    let (h', done, (ok', elsewhere, s, w, n, gone)) =
      release-Released i a h c ok here live counted ptr kept strong weak in
    (
      h',
      rw (here, unset_strong, live, unset_object, counted) done,
      (
        ok',
        s,
        w,
        n,
        (λ b. elim (Bool-cases (a == b)) [
          | inl same ↦
              let e : a ≡ b = (==_iff a b).0 same in
              inl (
                here ∙ ap (λ x. some (some x)) e,
                subst (λ x. (h'.object x ≡ none) ↔ (count_refs x h'.strong ≡ 0)) e gone,
              )
          | inr other ↦ let (x, y, _, _) = elsewhere b other in inr (x, y, rw other refl)
        ]),
      ),
    )
