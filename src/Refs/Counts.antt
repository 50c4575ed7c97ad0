-- ===== src/Refs/Counts.antt =====
-- The invariant of reference counting: at every address, the counter counts the references.
use ea31337_fft.Prelude.{
  ℕ, zero, suc, ◌+◌, ◌≤◌, ◌<◌, ◌≡◌, ◌⊎◌, inl, inr, refl, arith, true, false, Option, none, some,
  List, [], ◌∷◌, ◌==◌, if◌then◌else◌, length, get_elem?, set, ◌^◌,
}
use ea31337_fft.Refs.Heap.{Counter, Heap}

-- 1 for a pointer to the address, and 0 for any other.
abbrev pub points : ℕ → Option ℕ → ℕ
points a none = 0
points a (some b) = if b == a then 1 else 0

-- The variables that point to an address.
unfoldable pub count_refs : ℕ → List (Option ℕ) → ℕ
count_refs a [] = 0
count_refs a (x ∷ xs) = points a x + count_refs a xs

pub count_refs-le : (a : ℕ) (xs : List (Option ℕ)) → count_refs a xs ≤ length xs
unfolding count_refs
count_refs-le a [] = omega arith
count_refs-le a (none ∷ xs) = omega (arith, count_refs-le a xs)
count_refs-le a (some b ∷ xs) = ground (arith, count_refs-le a xs)

pub count_refs-set :
    (a : ℕ) (xs : List (Option ℕ)) (i : ℕ) {old : Option ℕ} (v : Option ℕ)
    → get_elem? xs i ≡ some old
    → count_refs a (set xs i v) + points a old ≡ count_refs a xs + points a v
unfolding count_refs
count_refs-set a [] i v h = absurd (ground (arith, h))
count_refs-set a (x ∷ xs) zero {old} v h =
    let same : x ≡ old = ground (arith, h) in rw same (omega arith)
count_refs-set a (x ∷ xs) (suc i) v h = omega (arith, count_refs-set a xs i v h)

pub length-set_refs :
    (xs : List (Option ℕ)) (i : ℕ) (v : Option ℕ) → length (set xs i v) ≡ length xs
length-set_refs [] i v = refl
length-set_refs (x ∷ xs) zero v = refl
length-set_refs (x ∷ xs) (suc i) v = omega (arith, length-set_refs xs i v)

-- What stands at an address with so many strong and weak references to it: an object with its counter;
-- the counter of an object that was deleted, which only weak references still know; or nothing.
abbrev pub Entry : ℕ → Option (Option ℕ) → Option Counter → ℕ → ℕ → Type 0
Entry a (some (some k)) (some c) n m =
    (k ≡ a)
    × (c.ptr_object ≡ a)
    × (c.deleted ≡ false)
    × (c.num_strong_refs ≡ n)
    × (c.num_weak_refs ≡ m)
Entry a (some (some k)) none n m = ⊥
Entry a (some none) c n m = ⊥
Entry a none (some c) n m =
    (c.deleted ≡ true) × (c.num_strong_refs ≡ 0) × (n ≡ 0) × (c.num_weak_refs ≡ m) × (0 < m)
Entry a none none n m = (n ≡ 0) × (m ≡ 0)

-- The invariant at an address.
abbrev pub At : Heap → ℕ → Type 0
At h a = Entry a (h.object a) (h.counter a) (count_refs a h.strong) (count_refs a h.weak)

-- The invariant: at every address, with nothing from the next address on, and few enough references
-- for an unsigned int.
pub record IsCounting (h : Heap) : Type 0 where
  pub at : (a : ℕ) → At h a
  pub fresh : (a : ℕ) → h.next ≤ a → (h.object a ≡ none) × (h.counter a ≡ none)
  pub few_strong : length h.strong < 2 ^ 32
  pub few_weak : length h.weak < 2 ^ 32

-- An object that is there.
abbrev pub Live : ℕ → Option (Option ℕ) → Option Counter → ℕ → ℕ → Type 0
Live a x y n m =
    (c : Counter) × (x ≡ some (some a))
    × (y ≡ some c)
    × (c.ptr_object ≡ a)
    × (c.deleted ≡ false)
    × (c.num_strong_refs ≡ n)
    × (c.num_weak_refs ≡ m)

-- A strong reference leads to an object that is there.
pub strong-Live :
    (a : ℕ) (x : Option (Option ℕ)) (y : Option Counter) (n m : ℕ)
    → Entry a x y n m
    → 0 < n
    → Live a x y n m
strong-Live a (some (some k)) (some c) n m (e, o, d, s, w) pos =
    (c, ground (arith, e), refl, o, d, s, w)
strong-Live a (some (some k)) none n m h pos = absurd h
strong-Live a (some none) y n m h pos = absurd h
strong-Live a none (some c) n m (d, s, z, w, p) pos = absurd (omega arith)
strong-Live a none none n m (z, w) pos = absurd (omega arith)

-- The counter of an object that was deleted.
abbrev pub Dead : Option (Option ℕ) → Option Counter → ℕ → ℕ → Type 0
Dead x y n m =
    (c : Counter) × (x ≡ none)
    × (y ≡ some c)
    × (c.deleted ≡ true)
    × (c.num_strong_refs ≡ 0)
    × (n ≡ 0)
    × (c.num_weak_refs ≡ m)

-- A weak reference leads to an object that is there, or to the counter of one that was deleted.
pub weak-Live :
    (a : ℕ) (x : Option (Option ℕ)) (y : Option Counter) (n m : ℕ)
    → Entry a x y n m
    → 0 < m
    → Live a x y n m ⊎ Dead x y n m
weak-Live a (some (some k)) (some c) n m (e, o, d, s, w) pos =
    inl (c, ground (arith, e), refl, o, d, s, w)
weak-Live a (some (some k)) none n m h pos = absurd h
weak-Live a (some none) y n m h pos = absurd h
weak-Live a none (some c) n m (d, s, z, w, p) pos = inr (c, refl, refl, d, s, z, w)
weak-Live a none none n m (z, w) pos = absurd (omega arith)

-- Who is pointed to is counted.
pub points-count :
    (a : ℕ) (xs : List (Option ℕ)) (i : ℕ) → get_elem? xs i ≡ some (some a) → 0 < count_refs a xs
unfolding count_refs
points-count a [] i h = absurd (ground (arith, h))
points-count a (x ∷ xs) zero h = let same : x ≡ some a = ground (arith, h) in rw same (ground arith)
points-count a (x ∷ xs) (suc i) h = omega (arith, points-count a xs i h)

-- The counter of an object that is there.
pub its_counter :
    (a : ℕ) (x : Option (Option ℕ)) (y : Option Counter) (n m : ℕ)
    → Entry a x y n m
    → x ≡ some (some a)
    → (c : Counter) × (y ≡ some c)
      × (c.ptr_object ≡ a)
      × (c.deleted ≡ false)
      × (c.num_strong_refs ≡ n)
      × (c.num_weak_refs ≡ m)
its_counter a (some (some k)) (some c) n m (e, o, d, s, w) l = (c, refl, o, d, s, w)
its_counter a (some (some k)) none n m e l = absurd e
its_counter a (some none) y n m e l = absurd e
its_counter a none y n m e l = absurd (ground (arith, l))

-- What is at an address is gone, or a reference leads there.
abbrev pub Held : Heap → ℕ → Type 0
Held h b = (h.object b ≡ none) ⊎ (0 < count_refs b h.strong + count_refs b h.weak)
