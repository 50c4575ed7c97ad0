-- ===== src/Refs/Program.antt =====
-- Programs over references of src/include/classes/Refs.struct.h: the operators of Ref and WeakRef that
-- take a reference, and sequences of statements. What is assigned is null, a new object, or what
-- another reference gives.
pub mod Fresh
pub mod Keep
pub mod Safe
pub mod Outcome
use ea31337_fft.Prelude.{ℕ, Option, none, some, List, [], ◌∷◌, get_elem?, replicate}
use ea31337_fft.Refs.Heap.{Heap, alloc}
use ea31337_fft.Refs.Strong.{unset_strong, assign_strong}
use ea31337_fft.Refs.Weak.{weak_ptr, unset_weak, assign_weak}

-- operator= of another strong reference, to a strong one and to a weak one
unfoldable pub strong_of_strong : ℕ → ℕ → Heap → Option Heap
strong_of_strong i j h = elim (get_elem? h.strong j) [
  | none ↦ none
  | some ptr ↦ assign_strong i ptr h
]

unfoldable pub weak_of_strong : ℕ → ℕ → Heap → Option Heap
weak_of_strong i j h = elim (get_elem? h.strong j) [ none ↦ none | some ptr ↦ assign_weak i ptr h ]

-- Ptr of a weak reference
unfoldable pub ptr_of_weak : ℕ → Heap → Option (Option ℕ)
unfolding weak_ptr
ptr_of_weak j h = elim (get_elem? h.weak j) [ none ↦ none | some k ↦ weak_ptr k h ]

-- operator= of a weak reference, to a strong one and to a weak one
unfoldable pub strong_of_weak : ℕ → ℕ → Heap → Option Heap
unfolding ptr_of_weak
strong_of_weak i j h = elim (ptr_of_weak j h) [ none ↦ none | some ptr ↦ assign_strong i ptr h ]

unfoldable pub weak_of_weak : ℕ → ℕ → Heap → Option Heap
unfolding ptr_of_weak
weak_of_weak i j h = elim (ptr_of_weak j h) [ none ↦ none | some ptr ↦ assign_weak i ptr h ]

-- The statements of a program, with the places of the references: the first is written.
pub data Statement : Type 0 where
  unset : ℕ → Statement
  unset_w : ℕ → Statement
  new_to_strong : ℕ → Statement
  new_to_weak : ℕ → Statement
  strong_to_strong : ℕ → ℕ → Statement
  weak_to_strong : ℕ → ℕ → Statement
  strong_to_weak : ℕ → ℕ → Statement
  weak_to_weak : ℕ → ℕ → Statement

unfoldable pub step : Statement → Heap → Option Heap
unfolding strong_of_strong strong_of_weak weak_of_strong weak_of_weak
step (unset i) h = unset_strong i h
step (unset_w i) h = unset_weak i h
step (new_to_strong i) h = assign_strong i (some h.next) (alloc h)
step (new_to_weak i) h = assign_weak i (some h.next) (alloc h)
step (strong_to_strong i j) h = strong_of_strong i j h
step (weak_to_strong i j) h = strong_of_weak i j h
step (strong_to_weak i j) h = weak_of_strong i j h
step (weak_to_weak i j) h = weak_of_weak i j h

-- A program; none is a fault.
unfoldable pub run : List Statement → Heap → Option Heap
unfolding step
run [] h = some h
run (s ∷ p) h = elim (step s h) [ none ↦ none | some h' ↦ run p h' ]

-- No object yet, and so many references, all null.
unfoldable pub no_objects : ℕ → ℕ → Heap
no_objects n m = record {
  object = λ a. none;
  counter = λ a. none;
  strong = replicate n none;
  weak = replicate m none;
  next = 0;
}
