-- ===== src/Refs/Program/Outcome.antt =====
-- What holds after any program over references that starts with no objects.
use ea31337_fft.Prelude.{
  ℕ, ◌<◌, ◌+◌, ◌≡◌, ◌⊎◌, refl, arith, Option, none, some, List, get_elem?, inl, inr, ◌^◌,
}
use ea31337_fft.Refs.Heap.{Counter, Heap}
use ea31337_fft.Refs.Counts.{Entry, count_refs, IsCounting, Held, weak-Live, points-count}
use ea31337_fft.Refs.Weak.{weak_ptr}
use ea31337_fft.Refs.Pointer.{IsPointer}
use ea31337_fft.Refs.Program.{Statement, run, no_objects}
use ea31337_fft.Refs.Program.Fresh.{no_objects-IsCounting, length-replicate}
use ea31337_fft.Refs.Program.Safe.{AllPlaced, run-IsCounting}
use ea31337_fft.Refs.Program.Keep.{strong-IsPointer}

-- Without an object and without references there is no counter.
no_counter :
    (a : ℕ) (x : Option (Option ℕ)) (y : Option Counter) (n m : ℕ)
    → Entry a x y n m
    → x ≡ none
    → m ≡ 0
    → y ≡ none
no_counter a none none n m e gone no_weak = refl
no_counter a none (some c) n m (d, s, z, w, pos) gone no_weak = absurd (omega arith)
no_counter a (some x) y n m e gone no_weak = absurd (ground (arith, gone))

-- Ptr of a weak reference to an address: null exactly where the object is gone, and it otherwise.
weak_ptr-gone :
    (h : Heap) (i a : ℕ)
    → IsCounting h
    → get_elem? h.weak i ≡ some (some a)
    → (h.object a ≡ none) × (weak_ptr (some a) h ≡ some none)
      ⊎ (h.object a ≡ some (some a)) × (weak_ptr (some a) h ≡ some (some a))
unfolding weak_ptr
weak_ptr-gone h i a ok here =
    elim (weak-Live a (h.object a) (h.counter a) _ _ (ok.at a) (points-count a h.weak i here)) [
      | inl (c, live, counted, ptr, kept, _, _) ↦ inr (live, rw (counted, weak_ptr, kept, ptr) refl)
      | inr (c, gone, counted, dead, _, _, _) ↦ inl (gone, rw (counted, weak_ptr, dead) refl)
    ]

-- No object or counter is left without a reference, a strong reference leads to an object that is
-- there, and a weak one gives null where its object is gone, and its object otherwise.
abbrev pub Outcome : Heap → Type 0
Outcome h =
    ((a : ℕ)
      → count_refs a h.strong + count_refs a h.weak ≡ 0
      → (h.object a ≡ none) × (h.counter a ≡ none))
    × ((i : ℕ) (ptr : Option ℕ) → get_elem? h.strong i ≡ some ptr → IsPointer h ptr)
    × ((i a : ℕ)
        → get_elem? h.weak i ≡ some (some a)
        → (h.object a ≡ none) × (weak_ptr (some a) h ≡ some none)
          ⊎ (h.object a ≡ some (some a)) × (weak_ptr (some a) h ≡ some (some a)))

collected : (h : Heap) → IsCounting h → ((b : ℕ) → Held h b) → Outcome h
collected h ok held = (
  (λ a no_ref. elim (held a) [
    | inl gone ↦
        let no_weak : count_refs a h.weak ≡ 0 = omega (arith, no_ref) in
        (gone, no_counter a (h.object a) (h.counter a) _ _ (ok.at a) gone no_weak)
    | inr pos ↦ absurd (omega (arith, pos, no_ref))
  ]),
  (λ i ptr here. strong-IsPointer h i ptr ok here),
  (λ i a here. weak_ptr-gone h i a ok here),
)

-- A program whose statements are about some of `n` strong and `m` weak references, fewer than 2 ^ 32
-- of each, all null at first, runs to its end. Afterwards an object to which no reference leads is
-- gone, with its counter; a strong reference that is not null leads to an object that is there; and
-- Ptr of a weak reference to an object is null where the object is gone, and the object otherwise.
pub run-collected :
    (n m : ℕ) (p : List Statement)
    → n < 2 ^ 32
    → m < 2 ^ 32
    → AllPlaced n m p
    → (h : Heap) × (run p (no_objects n m) ≡ some h) × Outcome h
unfolding no_objects
run-collected n m p few_strong few_weak placed =
    let null : Option ℕ = none in
    let ok = no_objects-IsCounting n m few_strong few_weak in
    let (h, runs, ok', held) =
      run-IsCounting p (no_objects n m) ok
        (rw (length-replicate n null, length-replicate m null) placed) in
    (h, runs, collected h ok' (held (λ b. inl refl)))
