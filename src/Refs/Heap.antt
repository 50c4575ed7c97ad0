-- ===== src/Refs/Heap.antt =====
-- The memory that references share: the classes ReferenceCounter and Dynamic of
-- src/include/classes/Refs.mqh. Objects hold no references themselves.
use ea31337_fft.Prelude.{
  ℕ, ◌+◌, ◌-◌, ◌%◌, ◌^◌, Bool, false, true, ◌&&◌, Option, none, some, List, ◌==◌, if◌then◌else◌,
  set,
}

-- ReferenceCounter
pub record Counter : Type 0 where
  pub num_weak_refs : ℕ
  pub num_strong_refs : ℕ
  pub ptr_object : ℕ
  pub deleted : Bool

-- The objects and counters that are allocated, an object as its pointer to its counter; the variables
-- that are strong references, which point to objects, and weak ones, which point to counters; and the
-- next address. A null pointer is none.
pub record Heap : Type 0 where
  pub object : ℕ → Option (Option ℕ)
  pub counter : ℕ → Option Counter
  pub strong : List (Option ℕ)
  pub weak : List (Option ℕ)
  pub next : ℕ

-- A write at one address.
abbrev pub put {ℓ} : {V : Type ℓ} → (ℕ → V) → ℕ → V → ℕ → V
put f a v b = if a == b then v else f b

-- Equality of pointers
unfoldable pub same_ptr : Option ℕ → Option ℕ → Bool
same_ptr none none = true
same_ptr (some a) (some b) = a == b
same_ptr none (some b) = false
same_ptr (some a) none = false

-- Increment and decrement of an unsigned int
unfoldable pub inc : ℕ → ℕ
inc n = (n + 1) % 2 ^ 32

unfoldable pub dec : ℕ → ℕ
dec n = (n + 2 ^ 32 - 1) % 2 ^ 32

abbrev pub set_object : ℕ → Option (Option ℕ) → Heap → Heap
set_object a v h = record h { object = put h.object a v }

abbrev pub set_counter : ℕ → Option Counter → Heap → Heap
set_counter a v h = record h { counter = put h.counter a v }

abbrev pub set_strong : ℕ → Option ℕ → Heap → Heap
set_strong i v h = record h { strong = set h.strong i v }

abbrev pub set_weak : ℕ → Option ℕ → Heap → Heap
set_weak i v h = record h { weak = set h.weak i v }

-- ReferenceCounter()
unfoldable pub new_counter : ℕ → Counter
new_counter a = record { num_weak_refs = 0; num_strong_refs = 0; ptr_object = a; deleted = false }

-- `new` of a class derived from Dynamic: the object and its counter, at addresses of the same number.
unfoldable pub alloc : Heap → Heap
unfolding new_counter
alloc h = record h {
  object = put h.object h.next (some (some h.next));
  counter = put h.counter h.next (some (new_counter h.next));
  next = h.next + 1;
}

-- ~Dynamic() of an object with such a pointer to its counter; none is a fault.
unfoldable pub destroy : Option ℕ → Heap → Option Heap
destroy none h = some h
destroy (some k) h = elim (h.counter k) [
  | none ↦ none
  | some c ↦
      if c.num_strong_refs == 0 && c.num_weak_refs == 0 then some (set_counter k none h) else some h
]

-- `delete` of an object: its destructor, and the memory; none is a fault.
unfoldable pub delete_object : ℕ → Heap → Option Heap
unfolding destroy
delete_object a h = elim (h.object a) [
  | none ↦ none
  | some k ↦ elim (destroy k h) [ none ↦ none | some h' ↦ some (set_object a none h') ]
]
