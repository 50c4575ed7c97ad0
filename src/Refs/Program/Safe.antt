-- ===== src/Refs/Program/Safe.antt =====
-- Programs over references do not fail, and keep the counters right.
use ea31337_fft.Prelude.{
  ℕ, ◌<◌, ◌≡◌, refl, ap, ◌∙◌, Option, none, some, List, [], ◌∷◌, length, inl, inr, ◌==◌, ==_iff,
  Bool-cases, sym,
}
use ea31337_fft.Refs.Heap.{Heap, alloc}
use ea31337_fft.Refs.View.{View, view, seen_refs, see_strong, see_weak, see_step, see_run}
use ea31337_fft.Refs.View.Laws.{see_from_lem, view-alloc}
use ea31337_fft.Refs.Counts.{Held, IsCounting}
use ea31337_fft.Refs.Program.{
  Statement, unset, unset_w, new_to_strong, new_to_weak, strong_to_strong, weak_to_strong,
  strong_to_weak, weak_to_weak, step, run, strong_of_strong, strong_of_weak, weak_of_strong,
  weak_of_weak,
}
use ea31337_fft.Refs.Program.Fresh.{alloc-IsCounting}
use ea31337_fft.Refs.Program.Keep.{
  Kept, assign_strong-Kept, assign_weak-Kept, unset_strong-Kept, unset_weak-Kept, strong_source,
  weak_source,
}

-- The places of a statement are those of variables, of which there are so many.
abbrev pub Placed : ℕ → ℕ → Statement → Type 0
Placed n m (unset i) = i < n
Placed n m (unset_w i) = i < m
Placed n m (new_to_strong i) = i < n
Placed n m (new_to_weak i) = i < m
Placed n m (strong_to_strong i j) = (i < n) × (j < n)
Placed n m (weak_to_strong i j) = (i < n) × (j < m)
Placed n m (strong_to_weak i j) = (i < m) × (j < n)
Placed n m (weak_to_weak i j) = (i < m) × (j < m)

abbrev pub AllPlaced : ℕ → ℕ → List Statement → Type 0
AllPlaced n m [] = Unit {0}
AllPlaced n m (s ∷ p) = Placed n m s × AllPlaced n m p

-- What a step keeps, and how what is seen of the references changes.
abbrev pub Stepped : (View → Option View) → Heap → Heap → Type 0
Stepped see h h' =
    IsCounting h'
    × (length h'.strong ≡ length h.strong)
    × (length h'.weak ≡ length h.weak)
    × (((b : ℕ) → Held h b) → (b : ℕ) → Held h' b)
    × (see (view h) ≡ some (view h'))

stepped :
    (ptr : Option ℕ) (see see' : View → Option View) (h h' : Heap)
    → see' (view h) ≡ see (view h)
    → Kept ptr see h h'
    → Stepped see' h h'
stepped ptr see see' h h' same (ok, n, m, held, sees) =
    (ok, n, m, (λ all b. held b (inl (all b))), same ∙ sees)

-- The pointer to the new object is assigned at once.
allocated :
    (see see' : View → Option View) (h h' : Heap)
    → see' (view h) ≡ see (view (alloc h))
    → Kept (some h.next) see (alloc h) h'
    → Stepped see' h h'
unfolding alloc
allocated see see' h h' same (ok, n, m, held, sees) = (
  ok,
  n,
  m,
  (λ all b. elim (Bool-cases (h.next == b)) [
    | inl e ↦ held b (inr (ap some ((==_iff h.next b).0 e)))
    | inr ne ↦ held b (inl (rw ne (all b)))
  ]),
  same ∙ sees,
)

step-Stepped :
    (s : Statement) (h : Heap)
    → IsCounting h
    → Placed (length h.strong) (length h.weak) s
    → (h' : Heap) × (step s h ≡ some h') × Stepped (see_step s) h h'
unfolding step strong_of_strong strong_of_weak weak_of_strong weak_of_weak see_step alloc
step-Stepped (unset i) h ok lt =
    let (h', done, kept) = unset_strong-Kept h ok i lt in
    (h', done, stepped none (see_strong i none) (see_step (unset i)) h h' refl kept)
step-Stepped (unset_w i) h ok lt =
    let (h', done, kept) = unset_weak-Kept h ok i lt in
    (h', done, stepped none (see_weak i none) (see_step (unset_w i)) h h' refl kept)
step-Stepped (new_to_strong i) h ok lt =
    let (ok1, there) = alloc-IsCounting h ok in
    let (h', done, kept) = assign_strong-Kept (alloc h) ok1 i (some h.next) lt there in
    let same = ap (see_strong i (some h.next)) (sym (view-alloc h ok)) in
    (h', done, allocated (see_strong i (some h.next)) (see_step (new_to_strong i)) h h' same kept)
step-Stepped (new_to_weak i) h ok lt =
    let (ok1, there) = alloc-IsCounting h ok in
    let (h', done, kept) = assign_weak-Kept (alloc h) ok1 i (some h.next) lt there in
    let same = ap (see_weak i (some h.next)) (sym (view-alloc h ok)) in
    (h', done, allocated (see_weak i (some h.next)) (see_step (new_to_weak i)) h h' same kept)
step-Stepped (strong_to_strong i j) h ok (lt, from) =
    let (ptr, gives, valid) = strong_source h ok j from in
    let (h', done, kept) = assign_strong-Kept h ok i ptr lt valid in
    let same : see_step (strong_to_strong i j) (view h) ≡ see_strong i ptr (view h) =
      see_from_lem (see_strong i) h.strong j (view h) gives in
    (
      h',
      rw (gives, step, strong_of_strong) done,
      stepped ptr (see_strong i ptr) (see_step (strong_to_strong i j)) h h' same kept,
    )
step-Stepped (weak_to_strong i j) h ok (lt, from) =
    let (ptr, gives, valid, sees) = weak_source h ok j from in
    let (h', done, kept) = assign_strong-Kept h ok i ptr lt valid in
    let same : see_step (weak_to_strong i j) (view h) ≡ see_strong i ptr (view h) =
      see_from_lem (see_strong i) (seen_refs h.object h.weak) j (view h) sees in
    (
      h',
      rw (gives, step, strong_of_weak) done,
      stepped ptr (see_strong i ptr) (see_step (weak_to_strong i j)) h h' same kept,
    )
step-Stepped (strong_to_weak i j) h ok (lt, from) =
    let (ptr, gives, valid) = strong_source h ok j from in
    let (h', done, kept) = assign_weak-Kept h ok i ptr lt valid in
    let same : see_step (strong_to_weak i j) (view h) ≡ see_weak i ptr (view h) =
      see_from_lem (see_weak i) h.strong j (view h) gives in
    (
      h',
      rw (gives, step, weak_of_strong) done,
      stepped ptr (see_weak i ptr) (see_step (strong_to_weak i j)) h h' same kept,
    )
step-Stepped (weak_to_weak i j) h ok (lt, from) =
    let (ptr, gives, valid, sees) = weak_source h ok j from in
    let (h', done, kept) = assign_weak-Kept h ok i ptr lt valid in
    let same : see_step (weak_to_weak i j) (view h) ≡ see_weak i ptr (view h) =
      see_from_lem (see_weak i) (seen_refs h.object h.weak) j (view h) sees in
    (
      h',
      rw (gives, step, weak_of_weak) done,
      stepped ptr (see_weak i ptr) (see_step (weak_to_weak i j)) h h' same kept,
    )

run-Stepped :
    (p : List Statement) (h : Heap)
    → IsCounting h
    → AllPlaced (length h.strong) (length h.weak) p
    → (h' : Heap) × (run p h ≡ some h') × Stepped (see_run p) h h'
unfolding run see_run
run-Stepped [] h ok placed = (h, refl, (ok, refl, refl, (λ all. all), refl))
run-Stepped (s ∷ p) h ok (now, later) =
    let (h1, done, (ok1, n1, m1, held1, sees1)) = step-Stepped s h ok now in
    let (h2, runs, (ok2, n2, m2, held2, sees2)) = run-Stepped p h1 ok1 (rw (n1, m1) later) in
    (
      h2,
      rw (done, run) runs,
      (ok2, n2 ∙ n1, m2 ∙ m1, (λ all. held2 (held1 all)), rw (sees1, see_run) sees2),
    )

-- A program whose statements are about variables that there are runs to its end, with no read through
-- a pointer that is null or freed, on every heap that counts, and leaves a heap that counts; where a
-- reference led to every object, one leads to every object still.
pub run-IsCounting :
    (p : List Statement) (h : Heap)
    → IsCounting h
    → AllPlaced (length h.strong) (length h.weak) p
    → (h' : Heap) × (run p h ≡ some h')
      × IsCounting h'
      × (((b : ℕ) → Held h b) → (b : ℕ) → Held h' b)
run-IsCounting p h ok placed =
    let (h', runs, (ok', n, m, held, sees)) = run-Stepped p h ok placed in (h', runs, ok', held)

-- On a heap that counts, a program whose statements are about variables that there are runs to its
-- end, and what is seen of its references changes as without counters: a strong reference holds what
-- was assigned last; Ptr of a weak one gives that too, until the last strong reference to its object
-- leaves it, and null from then on.
pub run-see_run :
    (p : List Statement) (h : Heap)
    → IsCounting h
    → AllPlaced (length h.strong) (length h.weak) p
    → (h' : Heap) × (run p h ≡ some h') × (see_run p (view h) ≡ some (view h'))
run-see_run p h ok placed =
    let (h', runs, (ok', n, m, held, sees)) = run-Stepped p h ok placed in (h', runs, sees)
