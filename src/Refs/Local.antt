-- ===== src/Refs/Local.antt =====
-- A change at one address keeps the invariant where it holds at that address afterwards.
use mathlib.Core.Path.{subst}
use ea31337_fft.Prelude.{
  refl, ℕ, ◌<◌, ◌≡◌, arith, true, false, Option, some, List, ◌==◌, ==_iff, leb, Bool-cases, inl,
  inr, length, get_elem?, set, none,
}
use ea31337_fft.Refs.Heap.{Counter, Heap, delete_object, destroy, set_object}
use ea31337_fft.Refs.Counts.{points, count_refs, count_refs-set, At, IsCounting}

-- Two heaps agree at every address but one.
abbrev pub Elsewhere : ℕ → Heap → Heap → Type 0
Elsewhere a h h' =
    (b : ℕ)
    → (a == b) ≡ false
    → (h'.object b ≡ h.object b)
      × (h'.counter b ≡ h.counter b)
      × (count_refs b h'.strong ≡ count_refs b h.strong)
      × (count_refs b h'.weak ≡ count_refs b h.weak)

pub eq_self : (a : ℕ) → (a == a) ≡ true
eq_self a = ground arith

pub count_other :
    (a b : ℕ) (xs : List (Option ℕ)) (i : ℕ) (old v : Option ℕ)
    → get_elem? xs i ≡ some old
    → points b old ≡ 0
    → points b v ≡ 0
    → count_refs b (set xs i v) ≡ count_refs b xs
count_other a b xs i old v h p q = omega (arith, count_refs-set b xs i v h)

pub at_each :
    (a : ℕ) (h h' : Heap) → ((b : ℕ) → At h b) → Elsewhere a h h' → At h' a → (b : ℕ) → At h' b
at_each a h h' at same here b = elim (Bool-cases (a == b)) [
  | inl e ↦ subst (λ x. At h' x) ((==_iff a b).0 e) here
  | inr ne ↦ let (x, y, n, m) = same b ne in rw (x, y, n, m) (at b)
]

-- An address where something stands lies before the next one.
pub lt_next : (a : ℕ) (h : Heap) {x : Option ℕ} → IsCounting h → h.object a ≡ some x → a < h.next
lt_next a h {x} c live = elim (Bool-cases (leb h.next a)) [
  | inl above ↦
      let (gone, _) = c.fresh a (ground (arith, above)) in absurd (ground (arith, gone, live))
  | inr below ↦ ground (arith, below)
]

pub counter-lt_next :
    (a : ℕ) (h : Heap) {x : Counter} → IsCounting h → h.counter a ≡ some x → a < h.next
counter-lt_next a h {x} c live = elim (Bool-cases (leb h.next a)) [
  | inl above ↦
      let (_, gone) = c.fresh a (ground (arith, above)) in absurd (ground (arith, gone, live))
  | inr below ↦ ground (arith, below)
]

pub local-IsCounting :
    (a : ℕ) (h h' : Heap)
    → IsCounting h
    → a < h.next
    → h'.next ≡ h.next
    → length h'.strong ≡ length h.strong
    → length h'.weak ≡ length h.weak
    → Elsewhere a h h'
    → At h' a
    → IsCounting h'
local-IsCounting a h h' c lt next s w same here = record {
  at = at_each a h h' c.at same here;
  fresh = λ b le.
      let ne : (a == b) ≡ false = ground (arith, lt, next, le) in
      let (x, y, n, m) = same b ne in rw (x, y) (c.fresh b (omega (arith, next, le)));
  few_strong = omega (arith, s, c.few_strong);
  few_weak = omega (arith, w, c.few_weak);
}

-- An object without a counter is deleted with no more ado.
pub delete_object-cleared :
    (a : ℕ) (h : Heap) → h.object a ≡ some none → delete_object a h ≡ some (set_object a none h)
unfolding delete_object destroy
delete_object-cleared a h e = rw (e, delete_object) refl
