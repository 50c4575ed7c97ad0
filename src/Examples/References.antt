-- ===== src/Examples/References.antt =====
-- References: src/include/classes/Refs.struct.h and Refs.mqh.
use ea31337_fft.Prelude.{ℕ, ◌≡◌, refl, arith, none, some, List, [], ◌∷◌, set}
use ea31337_fft.Refs.Heap.{Heap, alloc}
use ea31337_fft.Refs.Counts.{IsCounting, Held}
use ea31337_fft.Refs.Strong.{assign_strong}
use ea31337_fft.Refs.Strong.After.{After}
use ea31337_fft.Refs.Strong.Assign.{assign_strong-IsCounting}
use ea31337_fft.Refs.Program.{
  Statement, new_to_strong, strong_to_weak, weak_to_strong, unset, run, no_objects,
}
use ea31337_fft.Refs.Program.Fresh.{no_objects-IsCounting, alloc-IsCounting}
use ea31337_fft.Refs.View.{view, see_run}
use ea31337_fft.Refs.Program.Safe.{run-see_run, AllPlaced, run-IsCounting}
use ea31337_fft.Refs.Program.Outcome.{Outcome, run-collected}

-- An object that two strong references and a weak one lead to, until both strong ones are unset.
abbrev program : List Statement
program =
    new_to_strong 0
    ∷ strong_to_weak 0 0
    ∷ weak_to_strong 1 0
    ∷ unset 0
    ∷ unset 1
    ∷ weak_to_strong 0 0
    ∷ []

placed : AllPlaced 2 1 program
placed = (
  omega arith,
  (
    (omega arith, omega arith),
    ((omega arith, omega arith), (omega arith, (omega arith, ((omega arith, omega arith), tt)))),
  ),
)

run-collected_example : (h : Heap) × (run program (no_objects 2 1) ≡ some h) × Outcome h
run-collected_example = run-collected 2 1 program (omega arith) (omega arith) placed

abbrev started : Heap
started = no_objects 2 1

started-IsCounting : IsCounting started
started-IsCounting = no_objects-IsCounting 2 1 (omega arith) (omega arith)

run-IsCounting_example :
    (h : Heap) × (run program started ≡ some h)
    × IsCounting h
    × (((b : ℕ) → Held started b) → (b : ℕ) → Held h b)
unfolding no_objects
run-IsCounting_example = run-IsCounting program started started-IsCounting placed

assign_strong-IsCounting_example :
    (h : Heap) × (assign_strong 0 (some 0) (alloc started) ≡ some h)
    × IsCounting h
    × (h.strong ≡ set (alloc started).strong 0 (some 0))
    × (h.weak ≡ (alloc started).weak)
    × ((b : ℕ) → Held (alloc started) b → Held h b)
    × ((b : ℕ) → After none (alloc started) h b)
    × (h.next ≡ (alloc started).next)
unfolding no_objects alloc
assign_strong-IsCounting_example =
    assign_strong-IsCounting 0 none (some 0) (alloc started)
      (alloc-IsCounting started started-IsCounting).0 refl
      (alloc-IsCounting started started-IsCounting).1

run-see_run_example :
    (h : Heap) × (run program started ≡ some h) × (see_run program (view started) ≡ some (view h))
unfolding no_objects
run-see_run_example = run-see_run program started started-IsCounting placed
