-- ===== src/Refs/View.antt =====
-- What a program sees of its references: the objects that strong references lead to and that Ptr of the
-- weak ones gives, with no counters. An object goes when a strong reference leaves it as the last one;
-- the weak references to it are then null.
pub mod Laws
use ea31337_fft.Prelude.{
  ℕ, ◌+◌, Option, none, some, List, [], ◌∷◌, ◌==◌, ◌&&◌, if◌then◌else◌, get_elem?, set,
}
use ea31337_fft.Refs.Heap.{Heap, same_ptr}
use ea31337_fft.Refs.Counts.{count_refs}
use ea31337_fft.Refs.Program.{
  Statement, unset, unset_w, new_to_strong, new_to_weak, strong_to_strong, weak_to_strong,
  strong_to_weak, weak_to_weak,
}

pub record View : Type 0 where
  pub strong : List (Option ℕ)
  pub weak : List (Option ℕ)
  pub next : ℕ

-- The object of a weak reference, or null where the object is gone.
unfoldable pub seen : (ℕ → Option (Option ℕ)) → Option ℕ → Option ℕ
seen object none = none
seen object (some a) = elim (object a) [ none ↦ none | some _ ↦ some a ]

unfoldable pub seen_refs : (ℕ → Option (Option ℕ)) → List (Option ℕ) → List (Option ℕ)
unfolding seen
seen_refs object [] = []
seen_refs object (x ∷ xs) = seen object x ∷ seen_refs object xs

abbrev pub view : Heap → View
view h = record { strong = h.strong; weak = seen_refs h.object h.weak; next = h.next }

-- A weak reference once a strong one has left `old`.
unfoldable pub dropped : Option ℕ → List (Option ℕ) → Option ℕ → Option ℕ
dropped old strong none = none
dropped old strong (some b) =
    if same_ptr old (some b) && (count_refs b strong == 0) then none else some b

unfoldable pub drop_refs : Option ℕ → List (Option ℕ) → List (Option ℕ) → List (Option ℕ)
unfolding dropped
drop_refs old strong [] = []
drop_refs old strong (x ∷ xs) = dropped old strong x ∷ drop_refs old strong xs

-- The assignment of a pointer to a reference.
unfoldable pub see_strong : ℕ → Option ℕ → View → Option View
see_strong i ptr v = elim (get_elem? v.strong i) [
  | none ↦ none
  | some old ↦
      some
        (record v { strong = set v.strong i ptr; weak = drop_refs old (set v.strong i ptr) v.weak })
]

unfoldable pub see_weak : ℕ → Option ℕ → View → Option View
see_weak i ptr v = elim (get_elem? v.weak i) [
  | none ↦ none
  | some _ ↦ some (record v { weak = set v.weak i ptr })
]

-- An assignment of what another reference holds.
abbrev pub see_from : (Option ℕ → View → Option View) → List (Option ℕ) → ℕ → View → Option View
see_from assign xs j v = elim (get_elem? xs j) [ none ↦ none | some ptr ↦ assign ptr v ]

unfoldable pub see_step : Statement → View → Option View
unfolding see_strong see_weak
see_step (unset i) v = see_strong i none v
see_step (unset_w i) v = see_weak i none v
see_step (new_to_strong i) v = see_strong i (some v.next) (record v { next = v.next + 1 })
see_step (new_to_weak i) v = see_weak i (some v.next) (record v { next = v.next + 1 })
see_step (strong_to_strong i j) v = see_from (see_strong i) v.strong j v
see_step (weak_to_strong i j) v = see_from (see_strong i) v.weak j v
see_step (strong_to_weak i j) v = see_from (see_weak i) v.strong j v
see_step (weak_to_weak i j) v = see_from (see_weak i) v.weak j v

unfoldable pub see_run : List Statement → View → Option View
unfolding see_step
see_run [] v = some v
see_run (s ∷ p) v = elim (see_step s v) [ none ↦ none | some v' ↦ see_run p v' ]
