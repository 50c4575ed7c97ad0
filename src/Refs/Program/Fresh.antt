-- ===== src/Refs/Program/Fresh.antt =====
-- The heap with no objects, and a heap with a new object.
use ea31337_fft.Prelude.{
  ℕ, zero, suc, ◌<◌, ◌≡◌, ◌==◌, ==_iff, refl, sym, arith, false, Option, none, some, replicate,
  length, inl, inr, Bool-cases, ◌^◌,
}
use ea31337_fft.Refs.Heap.{Heap, alloc, new_counter}
use ea31337_fft.Refs.Counts.{count_refs, At, Entry, IsCounting}
use ea31337_fft.Refs.Local.{eq_self}
use ea31337_fft.Refs.Pointer.{IsPointer}
use ea31337_fft.Refs.Program.{no_objects}
use mathlib.Core.Path.{subst}

count_refs-nulls : (a n : ℕ) → count_refs a (replicate n none) ≡ 0
unfolding count_refs
count_refs-nulls a zero = refl
count_refs-nulls a (suc n) = omega (arith, count_refs-nulls a n)

pub length-replicate {ℓ} : {A : Type ℓ} (n : ℕ) (x : A) → length (replicate n x) ≡ n
length-replicate zero x = refl
length-replicate (suc n) x = omega (arith, length-replicate n x)

pub no_objects-IsCounting : (n m : ℕ) → n < 2 ^ 32 → m < 2 ^ 32 → IsCounting (no_objects n m)
unfolding no_objects
no_objects-IsCounting n m p q =
    let null : Option ℕ = none in
    record {
      at = λ a. (count_refs-nulls a n, count_refs-nulls a m);
      fresh = λ a le. (refl, refl);
      few_strong = omega (arith, length-replicate n null, p);
      few_weak = omega (arith, length-replicate m null, q);
    }

no_refs :
    (a : ℕ) (x : Option (Option ℕ)) {n m : ℕ} (y : _)
    → Entry a x y n m
    → x ≡ none
    → y ≡ none
    → (n ≡ 0) × (m ≡ 0)
no_refs a none none e p q = e
no_refs a (some x) y e p q = absurd (ground (arith, p))
no_refs a none (some y) e p q = absurd (ground (arith, q))

-- Nothing points to the next address.
pub next-unused :
    (h : Heap) → IsCounting h → (count_refs h.next h.strong ≡ 0) × (count_refs h.next h.weak ≡ 0)
next-unused h ok =
    let (x, y) = ok.fresh h.next (omega arith) in
    no_refs h.next (h.object h.next) (h.counter h.next) (ok.at h.next) x y

-- A new object is there, with no reference to it yet, and the heap counts.
pub alloc-IsCounting :
    (h : Heap) → IsCounting h → IsCounting (alloc h) × IsPointer (alloc h) (some h.next)
unfolding alloc new_counter
alloc-IsCounting h ok =
    let (no_strong, no_weak) = next-unused h ok in
    let here : At (alloc h) h.next =
      rw (eq_self h.next) (refl, refl, refl, sym no_strong, sym no_weak) in
    (
      record {
        at = λ b. elim (Bool-cases (h.next == b)) [
          | inl e ↦ subst (λ x. At (alloc h) x) ((==_iff h.next b).0 e) here
          | inr ne ↦ rw ne (ok.at b)
        ];
        fresh = λ b le.
            let ne : (h.next == b) ≡ false = ground (arith, le) in
            rw ne (ok.fresh b (omega (arith, le)));
        few_strong = ok.few_strong;
        few_weak = ok.few_weak;
      },
      rw (eq_self h.next) refl,
    )
