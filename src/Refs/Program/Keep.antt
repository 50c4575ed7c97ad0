-- ===== src/Refs/Program/Keep.antt =====
-- What each assignment of a program over references keeps.
use ea31337_fft.Prelude.{
  ℕ, zero, suc, ◌<◌, ◌≡◌, refl, ap, ◌∙◌, arith, Option, none, some, List, [], ◌∷◌, get_elem?,
  length, inl, inr, ◌⊎◌, get_elem?-set_self,
}
use ea31337_fft.Refs.Heap.{Heap}
use ea31337_fft.Refs.Pointer.{IsPointer}
use ea31337_fft.Refs.Strong.After.{Unset-Held_strong, Unset-After}
use ea31337_fft.Refs.Strong.Assign.{assign_strong-IsCounting}
use ea31337_fft.Refs.Weak.Unset.{Unset-Held_weak, unset_weak-Unset}
use ea31337_fft.Refs.Weak.Assign.{assign_weak-IsCounting}
use ea31337_fft.Refs.View.{View, view, seen, seen_refs, see_strong, see_weak}
use ea31337_fft.Refs.View.Laws.{see_strong_lem, see_weak_lem, weak_ptr-seen, get_elem?-seen_refs}
use ea31337_fft.Refs.Counts.{Held, IsCounting, points-count, strong-Live, length-set_refs}
use ea31337_fft.Refs.Strong.Laws.{unset_strong-Unset}
use ea31337_fft.Refs.Strong.{unset_strong, assign_strong}
use ea31337_fft.Refs.Weak.{unset_weak, assign_weak}
use ea31337_fft.Refs.Program.{ptr_of_weak}

pub get_of_lt :
    (xs : List (Option ℕ)) (i : ℕ) → i < length xs → (v : Option ℕ) × (get_elem? xs i ≡ some v)
get_of_lt [] i h = absurd (omega arith)
get_of_lt (x ∷ xs) zero h = (x, refl)
get_of_lt (x ∷ xs) (suc i) h = get_of_lt xs i (omega arith)

-- What a strong reference holds is a pointer that may be assigned.
pub strong-IsPointer :
    (h : Heap) (i : ℕ) (ptr : Option ℕ)
    → IsCounting h
    → get_elem? h.strong i ≡ some ptr
    → IsPointer h ptr
strong-IsPointer h i none ok here = tt
strong-IsPointer h i (some a) ok here =
    let (c, live, _, _, _, _, _) =
      strong-Live a (h.object a) (h.counter a) _ _ (ok.at a) (points-count a h.strong i here) in
    live

-- A heap that counts, with as many references, in which a reference leads to each object that one led
-- to, and to that of a pointer; what is seen of the references changes by a function.
abbrev pub Kept : Option ℕ → (View → Option View) → Heap → Heap → Type 0
Kept ptr see h h' =
    IsCounting h'
    × (length h'.strong ≡ length h.strong)
    × (length h'.weak ≡ length h.weak)
    × ((b : ℕ) → Held h b ⊎ (ptr ≡ some b) → Held h' b)
    × (see (view h) ≡ some (view h'))

module _ (h : Heap) (ok : IsCounting h) where
  pub assign_strong-Kept :
      (i : ℕ) (ptr : Option ℕ)
      → i < length h.strong
      → IsPointer h ptr
      → (h' : Heap) × (assign_strong i ptr h ≡ some h') × Kept ptr (see_strong i ptr) h h'
  assign_strong-Kept i ptr lt valid =
      let (old, here) = get_of_lt h.strong i lt in
      let (h', done, ok', s, w, held, after, n) =
        assign_strong-IsCounting i old ptr h ok here valid in
      let there = ap (λ xs. get_elem? xs i) s ∙ get_elem?-set_self h.strong i ptr lt in
      (
        h',
        done,
        (
          ok',
          ap length s ∙ length-set_refs h.strong i ptr,
          ap length w,
          (λ b. elim [
            | inl before ↦ held b before
            | inr new ↦
                let pos = points-count b h'.strong i (there ∙ ap some new) in
                inr (omega (arith, pos))
          ]),
          see_strong_lem i old ptr h h' here s w after n,
        ),
      )

  pub assign_weak-Kept :
      (i : ℕ) (ptr : Option ℕ)
      → i < length h.weak
      → IsPointer h ptr
      → (h' : Heap) × (assign_weak i ptr h ≡ some h') × Kept ptr (see_weak i ptr) h h'
  assign_weak-Kept i ptr lt valid =
      let (old, here) = get_of_lt h.weak i lt in
      let (h', done, ok', w, s, held, before, n) =
        assign_weak-IsCounting i old ptr h ok here valid in
      let there = ap (λ xs. get_elem? xs i) w ∙ get_elem?-set_self h.weak i ptr lt in
      (
        h',
        done,
        (
          ok',
          ap length s,
          ap length w ∙ length-set_refs h.weak i ptr,
          (λ b. elim [
            | inl before ↦ held b before
            | inr new ↦
                let pos = points-count b h'.weak i (there ∙ ap some new) in inr (omega (arith, pos))
          ]),
          see_weak_lem i old ptr h h' valid here w s before n,
        ),
      )

  pub unset_strong-Kept :
      (i : ℕ)
      → i < length h.strong
      → (h' : Heap) × (unset_strong i h ≡ some h') × Kept none (see_strong i none) h h'
  unset_strong-Kept i lt =
      let (old, here) = get_of_lt h.strong i lt in
      let (h', done, left) = unset_strong-Unset i h old ok here in
      let (ok', s, w, n, _) = left in
      (
        h',
        done,
        (
          ok',
          ap length s ∙ length-set_refs h.strong i none,
          ap length w,
          (λ b. elim [
            | inl before ↦ Unset-Held_strong i old h h' here left b before
            | inr new ↦ absurd (ground (arith, new))
          ]),
          see_strong_lem i old none h h' here s w (Unset-After i old h h' ok here left) n,
        ),
      )

  pub unset_weak-Kept :
      (i : ℕ)
      → i < length h.weak
      → (h' : Heap) × (unset_weak i h ≡ some h') × Kept none (see_weak i none) h h'
  unset_weak-Kept i lt =
      let (old, here) = get_of_lt h.weak i lt in
      let (h', done, left) = unset_weak-Unset i old h ok here in
      let (ok', w, s, _, before, n) = left in
      (
        h',
        done,
        (
          ok',
          ap length s,
          ap length w ∙ length-set_refs h.weak i none,
          (λ b. elim [
            | inl before ↦ Unset-Held_weak i old h h' here left b before
            | inr new ↦ absurd (ground (arith, new))
          ]),
          see_weak_lem i old none h h' tt here w s before n,
        ),
      )

  pub strong_source :
      (j : ℕ)
      → j < length h.strong
      → (ptr : Option ℕ) × (get_elem? h.strong j ≡ some ptr) × IsPointer h ptr
  strong_source j lt =
      let (ptr, here) = get_of_lt h.strong j lt in (ptr, here, strong-IsPointer h j ptr ok here)

  pub weak_source :
      (j : ℕ)
      → j < length h.weak
      → (ptr : Option ℕ) × (ptr_of_weak j h ≡ some ptr)
        × IsPointer h ptr
        × (get_elem? (seen_refs h.object h.weak) j ≡ some ptr)
  unfolding ptr_of_weak
  weak_source j lt =
      let (k, here) = get_of_lt h.weak j lt in
      let (gives, valid) = weak_ptr-seen h j k ok here in
      (
        seen h.object k,
        rw (here, ptr_of_weak) gives,
        valid,
        get_elem?-seen_refs h.object h.weak j here,
      )
