-- ===== src/Refs/Pointer.antt =====
-- Pointers that may be assigned, and writes to a list of references.
use ea31337_fft.Prelude.{
  ap, [], ◌∷◌, zero, suc, ==_iff, set, get_elem?, List, Option, ℕ, ◌<◌, ◌≡◌, refl, arith, none,
  some, true, length,
}
use ea31337_fft.Refs.Heap.{same_ptr, Heap}

-- A pointer that may be assigned: null, or to an object that is there.
abbrev pub IsPointer : Heap → Option ℕ → Type 0
IsPointer h none = Unit {0}
IsPointer h (some a) = h.object a ≡ some (some a)

pub same_ptr-eq : (x y : Option ℕ) → same_ptr x y ≡ true → x ≡ y
unfolding same_ptr
same_ptr-eq none none h = refl
same_ptr-eq (some a) (some b) h = ap some ((==_iff a b).0 h)
same_ptr-eq none (some b) h = absurd (ground (arith, h))
same_ptr-eq (some a) none h = absurd (ground (arith, h))

pub set-set : (xs : List (Option ℕ)) (i : ℕ) (v w : Option ℕ) → set (set xs i v) i w ≡ set xs i w
set-set [] i v w = refl
set-set (x ∷ xs) zero v w = refl
set-set (x ∷ xs) (suc i) v w = ap (λ ys. x ∷ ys) (set-set xs i v w)

pub lt_of_get :
    (xs : List (Option ℕ)) (i : ℕ) {v : Option ℕ} → get_elem? xs i ≡ some v → i < length xs
lt_of_get [] i h = absurd (ground (arith, h))
lt_of_get (x ∷ xs) zero h = omega arith
lt_of_get (x ∷ xs) (suc i) h = omega (arith, lt_of_get xs i h)

pub same_ptr_self : (x : Option ℕ) (a : ℕ) → some x ≡ some (some a) → same_ptr x (some a) ≡ true
unfolding same_ptr
same_ptr_self none a h = absurd (ground (arith, h))
same_ptr_self (some b) a h = ground (arith, h)
