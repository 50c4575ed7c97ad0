-- ===== src/Refs/Weak.antt =====
-- The structure WeakRef of src/include/classes/Refs.struct.h. A reference is a variable, by its place
-- among the weak ones; none is a fault, which is a read through a pointer that is null or freed.
pub mod Laws
pub mod Unset
pub mod Assign
use ea31337_fft.Prelude.{ℕ, Option, none, some, ◌==◌, if◌then◌else◌, get_elem?}
use ea31337_fft.Refs.Heap.{
  Counter, Heap, same_ptr, inc, dec, set_object, set_counter, set_weak, delete_object,
}

-- Ptr of a pointer to a counter, with ObjectExists
unfoldable pub weak_ptr : Option ℕ → Heap → Option (Option ℕ)
weak_ptr none h = some none
weak_ptr (some k) h = elim (h.counter k) [
  | none ↦ none
  | some c ↦ some (if c.deleted then none else some c.ptr_object)
]

unfoldable pub clear_weak : ℕ → Option Heap → Option Heap
clear_weak i none = none
clear_weak i (some h) = some (set_weak i none h)

unfoldable pub free_counter : ℕ → Option Heap → Option Heap
free_counter k none = none
free_counter k (some h) = some (set_counter k none h)

-- Unset where no reference is left to the counter `c` at `k`.
unfoldable pub last_weak : ℕ → Counter → Heap → Option Heap
unfolding free_counter
last_weak k c h =
    let owned : Option Heap = elim (h.object c.ptr_object) [
      | none ↦ none
      | some _ ↦ delete_object c.ptr_object (set_object c.ptr_object (some none) h)
    ] in
    free_counter k (if c.deleted then some h else owned)

-- Unset of a variable that points to the counter `c` at `k`.
unfoldable pub release_weak : ℕ → ℕ → Counter → Heap → Option Heap
unfolding clear_weak last_weak
release_weak i k c h =
    let c1 = record c { num_weak_refs = dec c.num_weak_refs } in
    let h1 = set_counter k (some c1) h in
    clear_weak i (
      if c1.num_weak_refs == 0
      then if c1.num_strong_refs == 0 then last_weak k c1 h1 else some h1
      else some h1)

-- Unset
unfoldable pub unset_weak : ℕ → Heap → Option Heap
unfolding release_weak
unset_weak i h = elim (get_elem? h.weak i) [
  | none ↦ none
  | some none ↦ some h
  | some (some k) ↦ elim (h.counter k) [ none ↦ none | some c ↦ release_weak i k c h ]
]

-- The part of operator= after Unset, for an object whose counter is at `k`.
unfoldable pub retain_weak : ℕ → ℕ → Heap → Option Heap
unfolding inc
retain_weak i k h = elim (h.counter k) [
  | none ↦ none
  | some c ↦
      if c.deleted
      then some (set_weak i none h)
      else some (
          set_weak i (some k)
            (set_counter k (some (record c { num_weak_refs = inc c.num_weak_refs })) h))
]

-- The rest of operator= of a pointer to the object at `a`.
unfoldable pub after_unset_weak : ℕ → ℕ → Option Heap → Option Heap
unfolding retain_weak
after_unset_weak i a none = none
after_unset_weak i a (some h) = elim (h.object a) [
  | none ↦ none
  | some none ↦ none
  | some (some k) ↦ retain_weak i k h
]

-- operator= of a pointer
unfoldable pub assign_weak : ℕ → Option ℕ → Heap → Option Heap
unfolding unset_weak after_unset_weak same_ptr
assign_weak i none h = elim (get_elem? h.weak i) [
  | none ↦ none
  | some old ↦ if same_ptr old none then some h else unset_weak i h
]
assign_weak i (some a) h = elim (get_elem? h.weak i) [
  | none ↦ none
  | some old ↦ elim (h.object a) [
    | none ↦ none
    | some k ↦ if same_ptr old k then some h else after_unset_weak i a (unset_weak i h)
  ]
]
