-- ===== src/Refs/Strong.antt =====
-- The structure Ref of src/include/classes/Refs.struct.h. A reference is a variable, by its place among
-- the strong ones; none is a fault, which is a read through a pointer that is null or freed.
pub mod Laws
pub mod After
pub mod Assign
use ea31337_fft.Prelude.{ℕ, true, Option, none, some, ◌==◌, if◌then◌else◌, get_elem?}
use ea31337_fft.Refs.Heap.{
  Counter, Heap, same_ptr, inc, dec, set_object, set_counter, set_strong, delete_object,
}

-- The counter once its last strong reference is gone.
unfoldable pub last_strong : ℕ → Counter → Heap → Heap
last_strong k c h =
    if c.num_weak_refs == 0
    then set_counter k none h
    else set_counter k (some (record c { num_strong_refs = 0; deleted = true })) h

-- Unset of a variable that points to the object `a`, whose counter is `c` at `k`.
unfoldable pub release : ℕ → ℕ → ℕ → Counter → Heap → Option Heap
unfolding last_strong
release i a k c h =
    if dec c.num_strong_refs == 0
    then delete_object a (set_strong i none (set_object a (some none) (last_strong k c h)))
    else some (
        set_strong i none
          (set_counter k (some (record c { num_strong_refs = dec c.num_strong_refs })) h))

-- Unset of a variable that points to the object `a`.
unfoldable pub unset_object : ℕ → ℕ → Heap → Option Heap
unfolding release
unset_object i a h = elim (h.object a) [
  | none ↦ some (set_strong i none h)
  | some none ↦ some h
  | some (some k) ↦ elim (h.counter k) [ none ↦ none | some c ↦ release i a k c h ]
]

-- Unset
unfoldable pub unset_strong : ℕ → Heap → Option Heap
unfolding unset_object
unset_strong i h = elim (get_elem? h.strong i) [
  | none ↦ none
  | some none ↦ some h
  | some (some a) ↦ unset_object i a h
]

-- The part of operator= after Unset, for a pointer that is not null.
unfoldable pub retain : ℕ → ℕ → Heap → Option Heap
unfolding inc
retain i a h =
    let h1 = set_strong i (some a) h in
    elim (h.object a) [
      | none ↦ some h1
      | some none ↦ some h1
      | some (some k) ↦ elim (h.counter k) [
        | none ↦ none
        | some c ↦
            some (set_counter k (some (record c { num_strong_refs = inc c.num_strong_refs })) h1)
      ]
    ]

unfoldable pub after_unset : ℕ → Option ℕ → Option Heap → Option Heap
unfolding retain
after_unset i ptr none = none
after_unset i none (some h) = some (set_strong i none h)
after_unset i (some a) (some h) = retain i a h

-- operator= of a pointer
unfoldable pub assign_strong : ℕ → Option ℕ → Heap → Option Heap
unfolding unset_strong after_unset same_ptr
assign_strong i ptr h = elim (get_elem? h.strong i) [
  | none ↦ none
  | some old ↦ if same_ptr old ptr then some h else after_unset i ptr (unset_strong i h)
]
